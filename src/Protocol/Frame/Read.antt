-- ===== src/Protocol/Frame/Read.antt =====
-- engine/protocol/src/lib.rs: reading length-prefixed frames. Every function returns the reader
-- that it leaves behind; `stuck` would mean that a loop ran out of fuel.
use loofi_face_id.Prelude.{
  ℕ, zero, suc, ◌-◌, List, [], ◌∷◌, ◌++◌, Option, none, some, Outcome, ok, err, panic, stuck,
  length, ltb, ◌==◌, if◌then◌else◌, from_be32,
}
use loofi_face_id.Protocol.Stream.{
  IoError, unexpected_eof, Reader, got, again, failed, read, weight,
}

-- `FrameError`
pub data FrameError : Type 0 where
  io : IoError → FrameError
  empty_frame : FrameError
  frame_too_large : (length maximum : ℕ) → FrameError
  trailing_data : FrameError

-- One round of a loop that stores `missing` bytes behind `stored`.
pub data Fill : Type 0 where
  full : List ℕ → Fill
  ended : List ℕ → Fill
  broken : IoError → Fill
  exhausted : Fill

-- `while offset < buffer.len()`: `Ok(0)` is the end of the stream, an interrupted call is made
-- again, and other errors stop the loop.
unfoldable pub fill : ℕ → ℕ → List ℕ → Reader → Fill × Reader
fill fuel zero stored r = (full stored, r)
fill zero (suc missing) stored r = (exhausted, r)
fill (suc fuel) (suc missing) stored r =
    let (result, r') = read (suc missing) r in
    elim result [
      | got [] ↦ (ended stored, r')
      | got (b ∷ bs) ↦ fill fuel (missing - length bs) (stored ++ (b ∷ bs)) r'
      | again ↦ fill fuel (suc missing) stored r'
      | failed e ↦ (broken e, r')
    ]

-- Every round takes an arrival or a byte, and one more round sees the end.
abbrev pub fill_all : ℕ → Reader → Fill × Reader
fill_all missing r = fill (suc (weight r)) missing [] r

-- `u32::from_be_bytes(header)` of the array of four bytes.
abbrev pub header_length : List ℕ → ℕ
header_length (a ∷ b ∷ c ∷ d ∷ []) = from_be32 a b c d
header_length _ = 0

-- `reader.read_exact(&mut payload)` as the standard library's loop. Wiping the buffer after an
-- error leaves no trace in the result.
unfoldable pub payload_result : Fill → Outcome FrameError (Option (List ℕ))
payload_result (full payload) = ok (some payload)
payload_result (ended stored) = err (io unexpected_eof)
payload_result (broken e) = err (io e)
payload_result exhausted = stuck

unfoldable pub read_payload : ℕ → ℕ → Reader → Outcome FrameError (Option (List ℕ)) × Reader
unfolding payload_result
read_payload length maximum r =
    if length == 0
    then (err empty_frame, r)
    else if ltb maximum length
    then (err (frame_too_large length maximum), r)
    else let (result, r') = fill_all length r in (payload_result result, r')

-- What `read_frame_or_eof` does once the loop over the header is left.
unfoldable pub after_header : ℕ → Fill → Reader → Outcome FrameError (Option (List ℕ)) × Reader
after_header maximum (full header) r = read_payload (header_length header) maximum r
after_header maximum (ended []) r = (ok none, r)
after_header maximum (ended (b ∷ bs)) r = (err (io unexpected_eof), r)
after_header maximum (broken e) r = (err (io e), r)
after_header maximum exhausted r = (stuck, r)

unfoldable pub read_frame_or_eof : Reader → ℕ → Outcome FrameError (Option (List ℕ)) × Reader
unfolding after_header
read_frame_or_eof reader maximum =
    let (header, r) = fill_all 4 reader in after_header maximum header r

abbrev pub require_frame : Outcome FrameError (Option (List ℕ)) → Outcome FrameError (List ℕ)
require_frame (ok (some payload)) = ok payload
require_frame (ok none) = err (io unexpected_eof)
require_frame (err e) = err e
require_frame panic = panic
require_frame stuck = stuck

unfoldable pub read_frame : Reader → ℕ → Outcome FrameError (List ℕ) × Reader
read_frame reader maximum =
    let (result, r) = read_frame_or_eof reader maximum in (require_frame result, r)

unfoldable pub require_eof_loop : ℕ → Reader → Outcome FrameError (Unit {0}) × Reader
require_eof_loop zero r = (stuck, r)
require_eof_loop (suc fuel) r =
    let (result, r') = read 1 r in
    elim result [
      | got [] ↦ (ok tt, r')
      | got (b ∷ bs) ↦ (err trailing_data, r')
      | again ↦ require_eof_loop fuel r'
      | failed e ↦ (err (io e), r')
    ]

unfoldable pub require_eof : Reader → Outcome FrameError (Unit {0}) × Reader
unfolding require_eof_loop
require_eof r = require_eof_loop (suc (weight r)) r
