-- ===== src/Vision/Sha256.antt =====
-- engine/vision/src/sha256.rs: the software SHA-256. A `u32` is a number below 2 ^ 32; an array is a
-- list, read as 0 where the code has not written it yet.
use Prim.Native.Nat.{bit_and, bit_xor}
use loofi_face_id.Prelude.{
  ℕ, zero, suc, ◌+◌, ◌-◌, ◌*◌, ◌/◌, ◌%◌, ◌^◌, List, [], ◌∷◌, ◌++◌, Option, none, some, length,
  get_elem?, take, drop, ltb, if◌then◌else◌, from_be32, to_be32, to_be64, ascii,
}

abbrev pub add32 : ℕ → ℕ → ℕ
add32 a b = (a + b) % 2 ^ 32

abbrev pub rotate_right : ℕ → ℕ → ℕ
rotate_right x n = x / 2 ^ n + x % 2 ^ n * 2 ^ (32 - n)

-- `!x`
abbrev pub not32 : ℕ → ℕ
not32 x = 2 ^ 32 - 1 - x

abbrev pub xor3 : ℕ → ℕ → ℕ → ℕ
xor3 a b c = bit_xor (bit_xor a b) c

-- The eight variables `a` to `h`, and the state.
pub record Words : Type 0 where
  pub a : ℕ
  pub b : ℕ
  pub c : ℕ
  pub d : ℕ
  pub e : ℕ
  pub f : ℕ
  pub g : ℕ
  pub h : ℕ

abbrev pub initial_state : Words
initial_state = record {
  a = 0x6a09_e667;
  b = 0xbb67_ae85;
  c = 0x3c6e_f372;
  d = 0xa54f_f53a;
  e = 0x510e_527f;
  f = 0x9b05_688c;
  g = 0x1f83_d9ab;
  h = 0x5be0_cd19;
}

abbrev pub round_constants : List ℕ
round_constants =
    0x428a_2f98 ∷ 0x7137_4491 ∷ 0xb5c0_fbcf ∷ 0xe9b5_dba5 ∷ 0x3956_c25b ∷ 0x59f1_11f1 ∷ 0x923f_82a4
    ∷ 0xab1c_5ed5 ∷ 0xd807_aa98 ∷ 0x1283_5b01 ∷ 0x2431_85be ∷ 0x550c_7dc3 ∷ 0x72be_5d74
    ∷ 0x80de_b1fe ∷ 0x9bdc_06a7 ∷ 0xc19b_f174 ∷ 0xe49b_69c1 ∷ 0xefbe_4786 ∷ 0x0fc1_9dc6
    ∷ 0x240c_a1cc ∷ 0x2de9_2c6f ∷ 0x4a74_84aa ∷ 0x5cb0_a9dc ∷ 0x76f9_88da ∷ 0x983e_5152
    ∷ 0xa831_c66d ∷ 0xb003_27c8 ∷ 0xbf59_7fc7 ∷ 0xc6e0_0bf3 ∷ 0xd5a7_9147 ∷ 0x06ca_6351
    ∷ 0x1429_2967 ∷ 0x27b7_0a85 ∷ 0x2e1b_2138 ∷ 0x4d2c_6dfc ∷ 0x5338_0d13 ∷ 0x650a_7354
    ∷ 0x766a_0abb ∷ 0x81c2_c92e ∷ 0x9272_2c85 ∷ 0xa2bf_e8a1 ∷ 0xa81a_664b ∷ 0xc24b_8b70
    ∷ 0xc76c_51a3 ∷ 0xd192_e819 ∷ 0xd699_0624 ∷ 0xf40e_3585 ∷ 0x106a_a070 ∷ 0x19a4_c116
    ∷ 0x1e37_6c08 ∷ 0x2748_774c ∷ 0x34b0_bcb5 ∷ 0x391c_0cb3 ∷ 0x4ed8_aa4a ∷ 0x5b9c_ca4f
    ∷ 0x682e_6ff3 ∷ 0x748f_82ee ∷ 0x78a5_636f ∷ 0x84c8_7814 ∷ 0x8cc7_0208 ∷ 0x90be_fffa
    ∷ 0xa450_6ceb ∷ 0xbef9_a3f7 ∷ 0xc671_78f2 ∷ []

-- `block.chunks_exact(4)`
abbrev pub block_words : List ℕ → List ℕ
block_words (a ∷ b ∷ c ∷ d ∷ bytes) = from_be32 a b c d ∷ block_words bytes
block_words _ = []

abbrev pub value_or_zero : Option ℕ → ℕ
value_or_zero none = 0
value_or_zero (some x) = x

abbrev pub word_at : List ℕ → ℕ → ℕ
word_at words i = value_or_zero (get_elem? words i)

abbrev pub next_word : List ℕ → ℕ → ℕ
next_word words index =
    let w15 = word_at words (index - 15) in
    let w2 = word_at words (index - 2) in
    let s0 = xor3 (rotate_right w15 7) (rotate_right w15 18) (w15 / 2 ^ 3) in
    let s1 = xor3 (rotate_right w2 17) (rotate_right w2 19) (w2 / 2 ^ 10) in
    add32 (add32 (add32 (word_at words (index - 16)) s0) (word_at words (index - 7))) s1

-- `for index in 16..64`, where `left` rounds are left.
unfoldable pub extend_words : (left index : ℕ) → List ℕ → List ℕ
extend_words zero index words = words
extend_words (suc left) index words =
    extend_words left (suc index) (words ++ (next_word words index ∷ []))

abbrev pub compress_round : ℕ → ℕ → Words → Words
compress_round constant word s =
    let sum1 = xor3 (rotate_right s.e 6) (rotate_right s.e 11) (rotate_right s.e 25) in
    let choice = bit_xor (bit_and s.e s.f) (bit_and (not32 s.e) s.g) in
    let temporary1 = add32 (add32 (add32 (add32 s.h sum1) choice) constant) word in
    let sum0 = xor3 (rotate_right s.a 2) (rotate_right s.a 13) (rotate_right s.a 22) in
    let majority = xor3 (bit_and s.a s.b) (bit_and s.a s.c) (bit_and s.b s.c) in
    let temporary2 = add32 sum0 majority in
    record {
      a = add32 temporary1 temporary2;
      b = s.a;
      c = s.b;
      d = s.c;
      e = add32 s.d temporary1;
      f = s.e;
      g = s.f;
      h = s.g;
    }

-- `for index in 0..64`, along both arrays.
unfoldable pub compress_rounds : (constants words : List ℕ) → Words → Words
compress_rounds [] words s = s
compress_rounds (k ∷ constants) [] s = s
compress_rounds (k ∷ constants) (w ∷ words) s =
    compress_rounds constants words (compress_round k w s)

abbrev pub add_words : Words → Words → Words
add_words s t = record {
  a = add32 s.a t.a;
  b = add32 s.b t.b;
  c = add32 s.c t.c;
  d = add32 s.d t.d;
  e = add32 s.e t.e;
  f = add32 s.f t.f;
  g = add32 s.g t.g;
  h = add32 s.h t.h;
}

unfoldable pub compress : Words → List ℕ → Words
unfolding extend_words compress_rounds
compress state block =
    let words = extend_words 48 16 (block_words block) in
    add_words state (compress_rounds round_constants words state)

-- `for chunk in chunks_exact(64)`, where `count` full chunks are left.
unfoldable pub compress_chunks : (count : ℕ) → Words → List ℕ → Words
compress_chunks zero state bytes = state
compress_chunks (suc count) state bytes =
    compress_chunks count (compress state (take 64 bytes)) (drop 64 bytes)

unfoldable pub zeros : ℕ → List ℕ
zeros zero = []
zeros (suc n) = 0 ∷ zeros n

-- `array[offset..offset + bytes.len()].copy_from_slice(bytes)`
abbrev pub write_at : ℕ → List ℕ → List ℕ → List ℕ
write_at offset bytes array = take offset array ++ bytes ++ drop (offset + length bytes) array

abbrev pub tail_length : ℕ → ℕ
tail_length remainder = if ltb remainder 56 then 64 else 128

-- `tail[..tail_length]`, after its three writes.
abbrev pub tail_of : List ℕ → ℕ → List ℕ
tail_of remainder bit_length =
    let n = length remainder in
    take (tail_length n) (
      write_at (tail_length n - 8) (to_be64 bit_length)
        (write_at n (0x80 ∷ []) (write_at 0 remainder (zeros 128))))

abbrev pub state_bytes : Words → List ℕ
state_bytes s =
    to_be32 s.a
    ++ to_be32 s.b
    ++ to_be32 s.c
    ++ to_be32 s.d
    ++ to_be32 s.e
    ++ to_be32 s.f
    ++ to_be32 s.g
    ++ to_be32 s.h

-- The state after the whole blocks of the input and those of the tail.
unfoldable pub final_state : List ℕ → Words
unfolding compress_chunks zeros
final_state input =
    let count = length input / 64 in
    let state = compress_chunks count initial_state input in
    let remainder = drop (count * 64) input in
    let tail = tail_of remainder (length input * 8 % 2 ^ 64) in
    compress_chunks (length tail / 64) state tail

unfoldable pub digest_software : List ℕ → List ℕ
unfolding final_state
digest_software input = state_bytes (final_state input)

abbrev pub or_software : List ℕ → Option (List ℕ) → List ℕ
or_software input none = digest_software input
or_software input (some digest) = digest

-- `digest`, with what the crypto library answers.
unfoldable pub digest : (List ℕ → Option (List ℕ)) → List ℕ → List ℕ
unfolding digest_software
digest sha256 input = or_software input (sha256 input)

abbrev pub hex_digits : List ℕ
hex_digits = ascii "0123456789abcdef"

unfoldable pub hex_of : List ℕ → List ℕ
hex_of [] = []
hex_of (byte ∷ bytes) =
    word_at hex_digits (byte / 16) ∷ word_at hex_digits (byte % 16) ∷ hex_of bytes

unfoldable pub digest_hex : (List ℕ → Option (List ℕ)) → List ℕ → List ℕ
unfolding digest hex_of
digest_hex sha256 input = hex_of (digest sha256 input)
