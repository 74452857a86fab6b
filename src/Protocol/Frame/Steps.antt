-- ===== src/Protocol/Frame/Steps.antt =====
-- engine/protocol/src/lib.rs: what reading one frame leaves for the next one.
use loofi_face_id.Prelude.{
  ℕ, zero, suc, ◌+◌, ◌-◌, ◌≤◌, ◌<◌, ◌≡◌, refl, ap, ◌∙◌, none, some, List, [], ◌∷◌, ◌++◌, arith,
  length, take, drop, length-append, take-length_append, drop-length_append, ok, IsU32, to_be32,
  from_be32-byte_of,
}
use loofi_face_id.Protocol.Stream.{
  Reader, piece, interrupted, failure, read, pending, weight, IsHealthy, push_back, Writer,
  write_all,
}
use loofi_face_id.Protocol.Frame.Read.{
  fill, Fill, full, ended, broken, exhausted, payload_result, read_payload, after_header,
  read_frame_or_eof, header_length,
}
use loofi_face_id.Protocol.Frame.Write.{write_frame}
use loofi_face_id.Protocol.Frame.Fill.{weight-rest, fill_full}
use loofi_face_id.Protocol.Frame.Transport.{header-full, read_frame_or_eof-frame_of, frame_of}

fill-weight :
    (fuel missing : ℕ) (stored : List ℕ) (r : Reader)
    → weight (fill fuel missing stored r).1 ≤ weight r
unfolding fill read weight
fill-weight fuel zero stored r = omega arith
fill-weight zero (suc m) stored r = omega arith
fill-weight (suc f) (suc m) stored [] = omega arith
fill-weight (suc f) (suc m) stored (piece [] ∷ r) = omega arith
fill-weight (suc f) (suc m) stored (piece (b ∷ bs) ∷ r) = omega (
  arith,
  weight-rest m b bs r,
  fill-weight f (m - length (take m bs)) (stored ++ (b ∷ take m bs)) (push_back (drop m bs) r),
)
fill-weight (suc f) (suc m) stored (interrupted ∷ r) = omega (arith, fill-weight f (suc m) stored r)
fill-weight (suc f) (suc m) stored (failure e ∷ r) = omega arith

-- A loop that stores something takes an arrival or a byte.
fill-weight_lt :
    (fuel missing : ℕ) (stored bytes : List ℕ) (r : Reader)
    → (fill fuel (suc missing) stored r).0 ≡ full bytes
    → weight (fill fuel (suc missing) stored r).1 < weight r
unfolding fill read weight
fill-weight_lt zero m stored bytes r e = absurd cc
fill-weight_lt (suc f) m stored bytes [] e = absurd cc
fill-weight_lt (suc f) m stored bytes (piece [] ∷ r) e = absurd cc
fill-weight_lt (suc f) m stored bytes (piece (b ∷ bs) ∷ r) e = omega (
  arith,
  weight-rest m b bs r,
  fill-weight f (m - length (take m bs)) (stored ++ (b ∷ take m bs)) (push_back (drop m bs) r),
)
fill-weight_lt (suc f) m stored bytes (interrupted ∷ r) e =
    omega (arith, fill-weight f (suc m) stored r)
fill-weight_lt (suc f) m stored bytes (failure x ∷ r) e = absurd cc

read_payload-weight : (n maximum : ℕ) (r : Reader) → weight (read_payload n maximum r).1 ≤ weight r
unfolding read_payload
read_payload-weight n maximum r = ground (arith, fill-weight (suc (weight r)) n [] r)

after_header-weight :
    (maximum : ℕ) (f : Fill) (r s : Reader) (payload : List ℕ)
    → ((bytes : List ℕ) → f ≡ full bytes → weight s < weight r)
    → (after_header maximum f s).0 ≡ ok (some payload)
    → weight (after_header maximum f s).1 < weight r
unfolding after_header
after_header-weight maximum (full bytes) r s payload h e =
    omega (arith, h bytes refl, read_payload-weight (header_length bytes) maximum s)
after_header-weight maximum (ended []) r s payload h e = absurd cc
after_header-weight maximum (ended (b ∷ bs)) r s payload h e = absurd cc
after_header-weight maximum (broken x) r s payload h e = absurd cc
after_header-weight maximum exhausted r s payload h e = absurd cc

-- A frame takes something from the stream, whatever the stream.
pub read_frame_or_eof-weight :
    (r : Reader) (maximum : ℕ) (payload : List ℕ)
    → (read_frame_or_eof r maximum).0 ≡ ok (some payload)
    → weight (read_frame_or_eof r maximum).1 < weight r
unfolding read_frame_or_eof
read_frame_or_eof-weight r maximum payload e =
    after_header-weight maximum (fill (suc (weight r)) 4 [] r).0 r (fill (suc (weight r)) 4 [] r).1
      payload (λ bytes h. fill-weight_lt (suc (weight r)) 3 [] bytes r h) e

-- The bytes of a frame.
abbrev pub frame : List ℕ → List ℕ
frame payload = to_be32 (length payload) ++ payload

read_payload_next :
    (n maximum : ℕ) (payload rest : List ℕ) (r : Reader)
    → IsHealthy r
    → length payload ≡ n
    → 0 < n
    → n ≤ maximum
    → pending r ≡ payload ++ rest
    → ((read_payload n maximum r).0 ≡ ok (some payload))
      × (pending (read_payload n maximum r).1 ≡ rest)
      × IsHealthy (read_payload n maximum r).1
unfolding read_payload payload_result
read_payload_next n maximum payload rest r h e p q b =
    let kept : drop n (pending r) ≡ rest = rw (← e, b) (drop-length_append payload rest) in
    let taken : take n (pending r) ≡ payload = rw (← e, b) (take-length_append payload rest) in
    let (f, g, k) =
      fill_full (suc (weight r)) n [] r h (omega arith)
        (rw b (omega (arith, length-append payload rest))) in
    ground (arith, kept, taken, f, g, k)

-- On a stream that does not fail, a frame in bounds is read, and the stream goes on behind it.
pub read_frame_or_eof_next :
    (r : Reader) (payload rest : List ℕ) (maximum : ℕ)
    → IsHealthy r
    → 0 < length payload
    → length payload ≤ maximum
    → IsU32 (length payload)
    → pending r ≡ frame payload ++ rest
    → ((read_frame_or_eof r maximum).0 ≡ ok (some payload))
      × (pending (read_frame_or_eof r maximum).1 ≡ rest)
      × IsHealthy (read_frame_or_eof r maximum).1
unfolding read_frame_or_eof
read_frame_or_eof_next r payload rest maximum h p q u e =
    let n = from_be32-byte_of (length payload) u in
    let (f, g, k) = header-full r _ _ _ _ (payload ++ rest) h e in
    rw (f, n) (read_payload_next (length payload) maximum payload rest _ k refl p q g)

pub read_frame_or_eof_end :
    (r : Reader) (maximum : ℕ)
    → IsHealthy r
    → pending r ≡ []
    → (read_frame_or_eof r maximum).0 ≡ ok none
read_frame_or_eof_end r maximum h e =
    read_frame_or_eof-frame_of r maximum h ∙ ap (λ t. frame_of t maximum) e

-- A frame takes its room.
pub write_frame_room :
    (w : Writer) (payload : List ℕ) (maximum : ℕ)
    → 0 < length payload
    → length payload ≤ maximum
    → IsU32 (length payload)
    → 4 + length payload ≤ w.room
    → (write_frame w payload maximum).1.room ≡ w.room - (4 + length payload)
unfolding write_frame write_all
write_frame_room w [] maximum p q u c = absurd (omega arith)
write_frame_room w (x ∷ xs) maximum p q u c = ground arith
