-- ===== src/Protocol/Frame/Write.antt =====
-- engine/protocol/src/lib.rs: `write_frame`. The final `flush` of a writer that buffers nothing
-- does nothing.
use loofi_face_id.Prelude.{
  ℕ, ◌^◌, List, Outcome, ok, err, length, is_empty, ltb, leb, if◌then◌else◌, to_be32,
}
use loofi_face_id.Protocol.Stream.{Writer, done, refused, write_all}
use loofi_face_id.Protocol.Frame.Read.{FrameError, io, empty_frame, frame_too_large}

unfoldable pub write_frame : Writer → List ℕ → ℕ → Outcome FrameError (Unit {0}) × Writer
write_frame writer payload maximum =
    if is_empty payload
    then (err empty_frame, writer)
    else if ltb maximum (length payload)
    then (err (frame_too_large (length payload) maximum), writer)
    else if leb (2 ^ 32) (length payload)
    then (err (frame_too_large (length payload) maximum), writer)
    else let (header_written, w) = write_all (to_be32 (length payload)) writer in
      elim header_written [
        | refused e ↦ (err (io e), w)
        | done ↦
            let (payload_written, w') = write_all payload w in
            elim payload_written [ refused e ↦ (err (io e), w') | done ↦ (ok tt, w') ]
      ]
