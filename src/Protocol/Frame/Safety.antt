-- ===== src/Protocol/Frame/Safety.antt =====
-- engine/protocol/src/lib.rs: framed reads on any stream, and the refusals of `write_frame`.
use loofi_face_id.Prelude.{
  ℕ, zero, suc, ◌^◌, ◌≤◌, ◌<◌, ◌≡◌, refl, ◌≢◌, ◌⊎◌, arith, List, [], ◌∷◌, length, IsAnswer, ok, err,
  if◌then◌else◌, is_empty,
}
use loofi_face_id.Protocol.Stream.{
  Reader, piece, interrupted, failure, read, pending, weight, IsHealthy, Writer,
}
use loofi_face_id.Protocol.Frame.Read.{
  fill, Fill, full, ended, broken, exhausted, require_eof, require_eof_loop, trailing_data,
  empty_frame, frame_too_large, header_length, payload_result, read_payload, after_header,
  read_frame_or_eof, read_frame,
}
use loofi_face_id.Protocol.Frame.Write.{write_frame}
use loofi_face_id.Protocol.Frame.Fill.{fill-ne-exhausted}

payload_result-IsAnswer : (f : Fill) → f ≢ exhausted → IsAnswer (payload_result f)
unfolding payload_result
payload_result-IsAnswer (full p) h = tt
payload_result-IsAnswer (ended p) h = tt
payload_result-IsAnswer (broken e) h = tt
payload_result-IsAnswer exhausted h = h refl

read_payload-IsAnswer : (n maximum : ℕ) (r : Reader) → IsAnswer (read_payload n maximum r).0
unfolding read_payload
read_payload-IsAnswer n maximum r = ground (
  arith,
  payload_result-IsAnswer (fill (suc (weight r)) n [] r).0
      (fill-ne-exhausted (suc (weight r)) n [] r (omega arith)),
)

after_header-IsAnswer :
    (maximum : ℕ) (f : Fill) (r : Reader) → f ≢ exhausted → IsAnswer (after_header maximum f r).0
unfolding after_header
after_header-IsAnswer maximum (full header) r h =
    read_payload-IsAnswer (header_length header) maximum r
after_header-IsAnswer maximum (ended []) r h = tt
after_header-IsAnswer maximum (ended (b ∷ bs)) r h = tt
after_header-IsAnswer maximum (broken e) r h = tt
after_header-IsAnswer maximum exhausted r h = h refl

read_frame_or_eof-IsAnswer : (r : Reader) (maximum : ℕ) → IsAnswer (read_frame_or_eof r maximum).0
unfolding read_frame_or_eof
read_frame_or_eof-IsAnswer r maximum =
    after_header-IsAnswer maximum (fill (suc (weight r)) 4 [] r).0 _
      (fill-ne-exhausted (suc (weight r)) 4 [] r (omega arith))

read_frame-IsAnswer : (r : Reader) (maximum : ℕ) → IsAnswer (read_frame r maximum).0
unfolding read_frame
read_frame-IsAnswer r maximum = ground (arith, read_frame_or_eof-IsAnswer r maximum)

require_eof_loop-IsAnswer :
    (fuel : ℕ) (r : Reader) → weight r < fuel → IsAnswer (require_eof_loop fuel r).0
unfolding require_eof_loop read
require_eof_loop-IsAnswer zero r h = absurd (omega arith)
require_eof_loop-IsAnswer (suc f) [] h = tt
require_eof_loop-IsAnswer (suc f) (piece [] ∷ r) h = tt
require_eof_loop-IsAnswer (suc f) (piece (b ∷ bs) ∷ r) h = tt
require_eof_loop-IsAnswer (suc f) (interrupted ∷ r) h =
    require_eof_loop-IsAnswer f r (unfold weight in omega arith)
require_eof_loop-IsAnswer (suc f) (failure e ∷ r) h = tt

-- Every loop over a stream ends: on any stream, one that is interrupted or fails at any place
-- included, `read_frame_or_eof`, `read_frame` and `require_eof` return a value or an error.
pub read_ends :
    (r : Reader) (maximum : ℕ)
    → IsAnswer (read_frame_or_eof r maximum).0
      × IsAnswer (read_frame r maximum).0
      × IsAnswer (require_eof r).0
unfolding require_eof
read_ends r maximum = (
  read_frame_or_eof-IsAnswer r maximum,
  read_frame-IsAnswer r maximum,
  require_eof_loop-IsAnswer (suc (weight r)) r (omega arith),
)

require_eof_loop_lem :
    (fuel : ℕ) (r : Reader)
    → weight r < fuel
    → IsHealthy r
    → (require_eof_loop fuel r).0 ≡ (if is_empty (pending r) then ok tt else err trailing_data)
unfolding require_eof_loop read pending
require_eof_loop_lem zero r h k = absurd (omega arith)
require_eof_loop_lem (suc f) [] h k = refl
require_eof_loop_lem (suc f) (piece [] ∷ r) h k = absurd k
require_eof_loop_lem (suc f) (piece (b ∷ bs) ∷ r) h k = refl
require_eof_loop_lem (suc f) (interrupted ∷ r) h k =
    require_eof_loop_lem f r (unfold weight in omega arith) k
require_eof_loop_lem (suc f) (failure e ∷ r) h k = absurd k

-- On a stream that does not fail, `require_eof` succeeds exactly when no byte is left, and returns
-- `TrailingData` otherwise.
pub require_eof_lem :
    (r : Reader)
    → IsHealthy r
    → (require_eof r).0 ≡ (if is_empty (pending r) then ok tt else err trailing_data)
unfolding require_eof
require_eof_lem r h = require_eof_loop_lem (suc (weight r)) r (omega arith) h

-- `write_frame` refuses an empty payload and one above `maximum` or of 2 ^ 32 bytes or more, with
-- nothing written in either case.
write_frame_refuses :
    (w : Writer) (payload : List ℕ) (maximum : ℕ)
    → (length payload ≡ 0) ⊎ (maximum < length payload) ⊎ (2 ^ 32 ≤ length payload)
    → write_frame w payload maximum ≡ (
      if is_empty payload then err empty_frame else err (frame_too_large (length payload) maximum),
      w,
    )
unfolding write_frame
write_frame_refuses w [] maximum h = refl
write_frame_refuses w (x ∷ xs) maximum h = ground arith
