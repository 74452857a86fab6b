-- ===== src/Vision/Padding.antt =====
-- engine/vision/src/sha256.rs: the buffered tail of `digest_software`, against the padding of the
-- whole message.
use loofi_face_id.Prelude.{
  drop-drop, ℕ, zero, suc, ◌+◌, ◌-◌, ◌*◌, ◌/◌, ◌%◌, ◌^◌, ◌≤◌, ◌<◌, ◌≡◌, refl, sym, ap, ◌∙◌, List,
  [], ◌∷◌, ◌++◌, append_assoc, append-nil, arith, length, take, drop, length-append, length-drop,
  to_be64,
}
use loofi_face_id.Vision.Sha256.{
  Words, initial_state, compress, compress_chunks, zeros, write_at, tail_length, tail_of,
  state_bytes, final_state, digest_software,
}

-- How many zeros stand between the bit 1 and the length of a message of `n` bytes.
abbrev pub padding_zeros : ℕ → ℕ
padding_zeros n = (64 - (n + 9) % 64) % 64

-- The end of a padded message of `n` bytes.
abbrev pub suffix : ℕ → List ℕ
suffix n = 0x80 ∷ zeros (padding_zeros n) ++ to_be64 (n * 8 % 2 ^ 64)

-- The message, a bit 1, as few zeros as fill a block, and its length in bits.
unfoldable pub padded : List ℕ → List ℕ
padded input = input ++ suffix (length input)

-- The state after all blocks of the padded message.
unfoldable pub padded_state : List ℕ → Words
unfolding compress_chunks padded
padded_state input = compress_chunks (length (padded input) / 64) initial_state (padded input)

-- SHA-256 as its standard puts it: the blocks of the padded message, one after the other.
unfoldable pub digest_padded : List ℕ → List ℕ
unfolding padded_state
digest_padded input = state_bytes (padded_state input)

take-append_more {ℓ} :
    {A : Type ℓ} (m k : ℕ) (xs ys : List A)
    → m ≡ length xs + k
    → take m (xs ++ ys) ≡ xs ++ take k ys
take-append_more m k [] ys h = let e : m ≡ k = omega arith in ap (λ t. take t ys) e
take-append_more zero k (x ∷ xs) ys h = absurd (omega arith)
take-append_more (suc m) k (x ∷ xs) ys h =
    ap (λ t. x ∷ t) (take-append_more m k xs ys (omega arith))

drop-append_more {ℓ} :
    {A : Type ℓ} (m k : ℕ) (xs ys : List A) → m ≡ length xs + k → drop m (xs ++ ys) ≡ drop k ys
drop-append_more m k [] ys h = let e : m ≡ k = omega arith in ap (λ t. drop t ys) e
drop-append_more zero k (x ∷ xs) ys h = absurd (omega arith)
drop-append_more (suc m) k (x ∷ xs) ys h = drop-append_more m k xs ys (omega arith)

drop-append_le {ℓ} :
    {A : Type ℓ} (n : ℕ) (xs ys : List A) → n ≤ length xs → drop n (xs ++ ys) ≡ drop n xs ++ ys
drop-append_le zero xs ys h = refl
drop-append_le (suc n) [] ys h = absurd (omega arith)
drop-append_le (suc n) (x ∷ xs) ys h = drop-append_le n xs ys (omega arith)

take-append_le {ℓ} :
    {A : Type ℓ} (n : ℕ) (xs ys : List A) → n ≤ length xs → take n (xs ++ ys) ≡ take n xs
take-append_le zero xs ys h = refl
take-append_le (suc n) [] ys h = absurd (omega arith)
take-append_le (suc n) (x ∷ xs) ys h = ap (λ t. x ∷ t) (take-append_le n xs ys (omega arith))

length-zeros : (n : ℕ) → length (zeros n) ≡ n
unfolding zeros
length-zeros zero = refl
length-zeros (suc n) = ap suc (length-zeros n)

take-zeros : (n m : ℕ) → n ≤ m → take n (zeros m) ≡ zeros n
unfolding zeros
take-zeros zero m h = refl
take-zeros (suc n) zero h = absurd (omega arith)
take-zeros (suc n) (suc m) h = ap (λ t. 0 ∷ t) (take-zeros n m (omega arith))

drop-zeros : (n m k : ℕ) → m ≡ n + k → drop n (zeros m) ≡ zeros k
unfolding zeros
drop-zeros zero m k h = let e : m ≡ k = omega arith in ap zeros e
drop-zeros (suc n) zero k h = absurd (omega arith)
drop-zeros (suc n) (suc m) k h = drop-zeros n m k (omega arith)

-- The chunks of a concatenation.
compress_chunks-append :
    (m n t d : ℕ) (s : Words) (xs ys : List ℕ)
    → t ≡ m + n
    → d ≡ m * 64
    → d ≤ length xs
    → compress_chunks t s (xs ++ ys) ≡ compress_chunks n (compress_chunks m s xs) (drop d xs ++ ys)
unfolding compress_chunks
compress_chunks-append zero n t zero s xs ys e f h =
    let same : t ≡ n = omega arith in ap (λ t. compress_chunks t s (xs ++ ys)) same
compress_chunks-append zero n t (suc d) s xs ys e f h = absurd (omega arith)
compress_chunks-append (suc m) n zero d s xs ys e f h = absurd (omega arith)
compress_chunks-append (suc m) n (suc t) d s xs ys e f h =
    rw (take-append_le 64 xs ys (omega arith), drop-append_le 64 xs ys (omega arith))
      (compress_chunks-append m n t (m * 64) (compress s (take 64 xs)) (drop 64 xs) ys (omega arith)
          (omega arith) (omega (arith, length-drop 64 xs))
        ∙ ap
            (λ t.
              compress_chunks n (compress_chunks m (compress s (take 64 xs)) (drop 64 xs))
                (t ++ ys))
            (drop-drop (m * 64) 64 d xs (omega arith)))

-- The first two writes.
tail_start :
    (remainder : List ℕ) (k : ℕ)
    → length remainder + suc k ≡ 128
    → write_at (length remainder) (0x80 ∷ []) (write_at 0 remainder (zeros 128))
      ≡ remainder ++ (0x80 ∷ zeros k)
tail_start remainder k h =
    let n = length remainder in
    let first : write_at 0 remainder (zeros 128) ≡ remainder ++ zeros (suc k) =
      ap (λ t. remainder ++ t) (drop-zeros (0 + n) 128 (suc k) (omega arith)) in
    rw first (
      append_assoc (take n (remainder ++ zeros (suc k))) (0x80 ∷ [])
        (drop (n + 1) (remainder ++ zeros (suc k)))
      ∙ ap (λ t. t ++ (0x80 ∷ drop (n + 1) (remainder ++ zeros (suc k))))
          (take-append_more n 0 remainder (zeros (suc k)) (omega arith) ∙ append-nil remainder)
      ∙ ap (λ t. remainder ++ (0x80 ∷ t))
          (drop-append_more (n + 1) 1 remainder (zeros (suc k)) (omega arith)
            ∙ drop-zeros 1 (suc k) k (omega arith)))

tail_of-suffix :
    (remainder : List ℕ) (bits k t : ℕ)
    → tail_length (length remainder) ≡ t
    → length remainder + (9 + k) ≡ t
    → t ≤ 128
    → tail_of remainder bits ≡ remainder ++ (0x80 ∷ zeros k ++ to_be64 bits)
tail_of-suffix remainder bits k t e h h' =
    let start = tail_start remainder (127 - length remainder) (omega arith) in
    let before : take (t - 8) (remainder ++ (0x80 ∷ zeros (127 - length remainder)))
        ≡ remainder ++ (0x80 ∷ zeros k) =
      take-append_more (t - 8) (suc k) remainder (0x80 ∷ zeros (127 - length remainder))
        (omega arith)
      ∙ ap (λ z. remainder ++ (0x80 ∷ z)) (take-zeros k (127 - length remainder) (omega arith)) in
    let size : t ≡ length ((remainder ++ (0x80 ∷ zeros k)) ++ to_be64 bits) + 0 = omega (
      arith,
      length-append remainder (0x80 ∷ zeros k),
      length-append (remainder ++ (0x80 ∷ zeros k)) (to_be64 bits),
      length-zeros k,
    ) in
    rw (e, start, before)
      (take-append_more t 0 ((remainder ++ (0x80 ∷ zeros k)) ++ to_be64 bits) _ size
        ∙ append-nil ((remainder ++ (0x80 ∷ zeros k)) ++ to_be64 bits)
        ∙ append_assoc remainder (0x80 ∷ zeros k) (to_be64 bits))

-- A tail of whole blocks.
whole_blocks : (n q r : ℕ) → n ≡ q * 64 + r → r < 64 → r + (9 + padding_zeros n) ≡ tail_length r
whole_blocks n q r h lt = ground arith

tail_of_lem :
    (n q : ℕ) (remainder : List ℕ)
    → n ≡ q * 64 + length remainder
    → length remainder < 64
    → tail_of remainder (n * 8 % 2 ^ 64) ≡ remainder ++ suffix n
tail_of_lem n q remainder size short =
    tail_of-suffix remainder (n * 8 % 2 ^ 64) (padding_zeros n) (tail_length (length remainder))
      refl (whole_blocks n q (length remainder) size short) (ground arith)

final_state-padded_state : (input : List ℕ) → final_state input ≡ padded_state input
unfolding final_state padded_state padded
final_state-padded_state input =
    let q = length input / 64 in
    let remainder = drop (q * 64) input in
    let tail =
      tail_of_lem (length input) q remainder (omega (arith, length-drop (q * 64) input))
        (omega (arith, length-drop (q * 64) input)) in
    rw tail (
      sym (
        compress_chunks-append q (length (remainder ++ suffix (length input)) / 64)
          (length (input ++ suffix (length input)) / 64) (q * 64) initial_state input
          (suffix (length input))
          (omega (
            arith,
            length-append input (suffix (length input)),
            length-append remainder (suffix (length input)),
            length-drop (q * 64) input,
          ))
          refl (omega arith)))

-- `digest_software`, which compresses the whole blocks of its input where they lie and pads only the
-- rest in a buffer of 128 bytes, is SHA-256 of the padded message, for any input: the buffer holds
-- the rest and its padding, and no block is lost or compressed twice.
pub digest_software-digest_padded : (input : List ℕ) → digest_software input ≡ digest_padded input
unfolding digest_software digest_padded
digest_software-digest_padded input = ap state_bytes (final_state-padded_state input)
