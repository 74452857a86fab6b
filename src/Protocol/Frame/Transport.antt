-- ===== src/Protocol/Frame/Transport.antt =====
-- engine/protocol/src/lib.rs: frames over streams, against a description that has no stream: what
-- the bytes that will arrive hold, as one list.
use loofi_face_id.Prelude.{
  ℕ, suc, ◌+◌, ◌≤◌, ◌<◌, ◌≡◌, refl, ap, ◌∙◌, arith, List, [], ◌∷◌, ◌++◌, length, take, drop,
  append_assoc, Outcome, ok, err, Option, none, some, ltb, ◌==◌, if◌then◌else◌, from_be32,
  from_be32-byte_of, ◌⊎◌, Bool-cases, inl, inr, IsU32, to_be32, length-append, take-length_append,
  drop-length_append,
}
use loofi_face_id.Protocol.Stream.{
  Reader, pending, weight, IsHealthy, unexpected_eof, Writer, write_all,
}
use loofi_face_id.Protocol.Frame.Read.{
  fill, full, ended, FrameError, io, empty_frame, frame_too_large, payload_result, read_payload,
  read_frame_or_eof,
}
use loofi_face_id.Protocol.Frame.Write.{write_frame}
use loofi_face_id.Protocol.Frame.Fill.{fill_full, fill_ended}

-- The payload at the front of `bytes`, by the length that the header gave.
abbrev pub payload_of : ℕ → ℕ → List ℕ → Outcome FrameError (Option (List ℕ))
payload_of n maximum bytes =
    if n == 0
    then err empty_frame
    else if ltb maximum n
    then err (frame_too_large n maximum)
    else if ltb (length bytes) n
    then err (io unexpected_eof)
    else ok (some (take n bytes))

-- What a stream that holds these bytes and then ends has for its first frame.
abbrev pub frame_of : List ℕ → ℕ → Outcome FrameError (Option (List ℕ))
frame_of [] maximum = ok none
frame_of (a ∷ b ∷ c ∷ d ∷ bytes) maximum = payload_of (from_be32 a b c d) maximum bytes
frame_of (a ∷ bytes) maximum = err (io unexpected_eof)

read_payload-payload_of :
    (n maximum : ℕ) (r : Reader)
    → IsHealthy r
    → (read_payload n maximum r).0 ≡ payload_of n maximum (pending r)
unfolding read_payload payload_result
read_payload-payload_of n maximum r h = elim (Bool-cases (ltb (length (pending r)) n)) [
  | inl short ↦ ground (arith, fill_ended (suc (weight r)) n [] r h (omega arith))
  | inr enough ↦ ground (arith, fill_full (suc (weight r)) n [] r h (omega arith))
]

-- The header is stored, and the loop leaves the bytes behind it.
pub header-full :
    (r : Reader) (a b c d : ℕ) (bytes : List ℕ)
    → IsHealthy r
    → pending r ≡ a ∷ b ∷ c ∷ d ∷ bytes
    → ((fill (suc (weight r)) 4 [] r).0 ≡ full (a ∷ b ∷ c ∷ d ∷ []))
      × (pending (fill (suc (weight r)) 4 [] r).1 ≡ bytes)
      × IsHealthy (fill (suc (weight r)) 4 [] r).1
header-full r a b c d bytes h e =
    let (p, q, k) = fill_full (suc (weight r)) 4 [] r h (omega arith) (rw e (omega arith)) in
    (p ∙ ap (λ t. full (take 4 t)) e, q ∙ ap (drop 4) e, k)

header-short :
    (r : Reader) (bytes : List ℕ)
    → IsHealthy r
    → pending r ≡ bytes
    → length bytes < 4
    → (fill (suc (weight r)) 4 [] r).0 ≡ ended bytes
header-short r bytes h e n =
    fill_ended (suc (weight r)) 4 [] r h (omega arith) (rw e n) ∙ ap ended e

read_frame_or_eof-short :
    (r : Reader) (b : ℕ) (bytes : List ℕ) (maximum : ℕ)
    → IsHealthy r
    → pending r ≡ b ∷ bytes
    → length bytes < 3
    → (read_frame_or_eof r maximum).0 ≡ err (io unexpected_eof)
unfolding read_frame_or_eof
read_frame_or_eof-short r b bytes maximum h e n = rw (header-short r (b ∷ bytes) h e (omega arith))

read_frame_or_eof-full :
    (r : Reader) (a b c d : ℕ) (bytes : List ℕ) (maximum : ℕ)
    → IsHealthy r
    → pending r ≡ a ∷ b ∷ c ∷ d ∷ bytes
    → (read_frame_or_eof r maximum).0 ≡ payload_of (from_be32 a b c d) maximum bytes
unfolding read_frame_or_eof
read_frame_or_eof-full r a b c d bytes maximum h e =
    let (p, q, k) = header-full r a b c d bytes h e in
    rw p (
      read_payload-payload_of (from_be32 a b c d) maximum _ k
      ∙ ap (payload_of (from_be32 a b c d) maximum) q)

frame_of_lem :
    (r : Reader) (bytes : List ℕ) (maximum : ℕ)
    → IsHealthy r
    → pending r ≡ bytes
    → (read_frame_or_eof r maximum).0 ≡ frame_of bytes maximum
frame_of_lem r [] maximum h e = unfold read_frame_or_eof in rw (header-short r [] h e (omega arith))
frame_of_lem r (a ∷ []) maximum h e = read_frame_or_eof-short r a [] maximum h e (omega arith)
frame_of_lem r (a ∷ b ∷ []) maximum h e =
    read_frame_or_eof-short r a (b ∷ []) maximum h e (omega arith)
frame_of_lem r (a ∷ b ∷ c ∷ []) maximum h e =
    read_frame_or_eof-short r a (b ∷ c ∷ []) maximum h e (omega arith)
frame_of_lem r (a ∷ b ∷ c ∷ d ∷ bytes) maximum h e =
    read_frame_or_eof-full r a b c d bytes maximum h e

-- On a stream that does not fail, what `read_frame_or_eof` returns depends only on the bytes that
-- arrive, and not on the pieces that they arrive in or on interruptions: it is `frame_of` of them.
pub read_frame_or_eof-frame_of :
    (r : Reader) (maximum : ℕ)
    → IsHealthy r
    → (read_frame_or_eof r maximum).0 ≡ frame_of (pending r) maximum
read_frame_or_eof-frame_of r maximum h = frame_of_lem r (pending r) maximum h refl

-- A frame whose declared length is 0 or above `maximum` is rejected before any byte behind its
-- header is read.
pub read_frame_or_eof_rejects :
    (r : Reader) (n maximum : ℕ) (rest : List ℕ)
    → IsHealthy r
    → IsU32 n
    → pending r ≡ to_be32 n ++ rest
    → (n ≡ 0) ⊎ (maximum < n)
    → ((read_frame_or_eof r maximum).0
        ≡ (if n == 0 then err empty_frame else err (frame_too_large n maximum)))
      × (pending (read_frame_or_eof r maximum).1 ≡ rest)
unfolding read_frame_or_eof read_payload
read_frame_or_eof_rejects r n maximum rest h u e bad =
    let (p, q, k) = header-full r _ _ _ _ rest h e in rw p (ground (arith, from_be32-byte_of n u))

-- A payload that `write_frame` accepts is written behind its length.
pub write_frame_writes :
    (w : Writer) (payload : List ℕ) (maximum : ℕ)
    → 0 < length payload
    → length payload ≤ maximum
    → IsU32 (length payload)
    → 4 + length payload ≤ w.room
    → ((write_frame w payload maximum).0 ≡ ok tt)
      × ((write_frame w payload maximum).1.written
          ≡ w.written ++ (to_be32 (length payload) ++ payload))
unfolding write_frame write_all
write_frame_writes w [] maximum p q u c = absurd (omega arith)
write_frame_writes w (x ∷ xs) maximum p q u c =
    ground (arith, append_assoc w.written (to_be32 (length (x ∷ xs))) (x ∷ xs))

-- A writer that has written nothing.
abbrev pub fresh : ℕ → Writer
fresh room = record { written = []; room = room }

header-payload_of :
    (n maximum : ℕ) (payload rest : List ℕ)
    → length payload ≡ n
    → 0 < n
    → n ≤ maximum
    → payload_of n maximum (payload ++ rest) ≡ ok (some payload)
header-payload_of n maximum payload rest e p q =
    rw (← e) (ground (arith, length-append payload rest, take-length_append payload rest))

read_payload_leaves :
    (n maximum : ℕ) (payload rest : List ℕ) (r : Reader)
    → IsHealthy r
    → length payload ≡ n
    → 0 < n
    → n ≤ maximum
    → pending r ≡ payload ++ rest
    → pending (read_payload n maximum r).1 ≡ rest
unfolding read_payload
read_payload_leaves n maximum payload rest r h e p q b =
    let kept : drop n (pending r) ≡ rest = rw (← e, b) (drop-length_append payload rest) in
    ground (
      arith,
      fill_full (suc (weight r)) n [] r h (omega arith)
          (rw b (omega (arith, length-append payload rest))),
      kept,
    )

-- What `write_frame` writes is what `read_frame_or_eof` returns, over any stream that does not fail
-- and brings these bytes first, in whatever pieces; the bytes behind the frame stay in the stream.
-- The payload is not empty, has at most `maximum` bytes and fewer than 2 ^ 32, and the writer has
-- room for it and its header.
pub read_frame_or_eof-write_frame :
    (room : ℕ) (payload : List ℕ) (maximum : ℕ) (r : Reader) (rest : List ℕ)
    → 0 < length payload
    → length payload ≤ maximum
    → IsU32 (length payload)
    → 4 + length payload ≤ room
    → IsHealthy r
    → pending r ≡ (write_frame (fresh room) payload maximum).1.written ++ rest
    → ((read_frame_or_eof r maximum).0 ≡ ok (some payload))
      × (pending (read_frame_or_eof r maximum).1 ≡ rest)
unfolding read_frame_or_eof
read_frame_or_eof-write_frame room payload maximum r rest p q u c h e =
    let n = from_be32-byte_of (length payload) u in
    let bytes : pending r ≡ to_be32 (length payload) ++ (payload ++ rest) =
      e ∙ ap (λ t. t ++ rest) (write_frame_writes (fresh room) payload maximum p q u c).1 in
    let (f, g, k) = header-full r _ _ _ _ (payload ++ rest) h bytes in
    rw f (
      rw n (
        read_payload-payload_of (length payload) maximum _ k
            ∙ rw g (header-payload_of (length payload) maximum payload rest refl p q),
        read_payload_leaves (length payload) maximum payload rest _ k refl p q g,
      ))
