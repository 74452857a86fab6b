-- ===== src/Daemon/Outsiders.antt =====
-- engine/daemon/src/lib.rs: what a connection of a client without authority comes to.
use loofi_face_id.Prelude.{
  ℕ, ◌+◌, ◌≤◌, ◌<◌, ◌≡◌, refl, Bool, true, false, ◌&&◌, some, List, ◌++◌, arith, length, Outcome,
  ok,
}
use loofi_face_id.Protocol.Stream.{Reader, pending, IsHealthy, Writer}
use loofi_face_id.Protocol.Frame.Read.{FrameError, read_frame}
use loofi_face_id.Protocol.Frame.Transport.{write_frame_writes}
use loofi_face_id.Protocol.Frame.Steps.{frame, read_frame_or_eof_next}
use loofi_face_id.Daemon.Request.{
  DaemonRequest, pam_auth, status, freshness, max_daemon_request_bytes, decode_daemon_request,
}
use loofi_face_id.Daemon.Supervise.{Supervision}
use loofi_face_id.Daemon.Dispatch.{Answers, Dispatched, dispatch_request}
use loofi_face_id.Daemon.Denial.{denial, IsOutsider, dispatch_request-denial}
use loofi_face_id.Daemon.Connection.{
  max_daemon_response_bytes, Handled, ModeCalls, is_login, write_dispatched, handle_frame,
  handle_client_stream_with_peer,
}

-- A connection that ended well, has written this frame and left this state.
abbrev pub HasAnswered : Writer → List ℕ → Supervision → Handled → Type 0
HasAnswered writer response state handled =
    (handled.result ≡ ok tt)
    × (handled.writer.written ≡ writer.written ++ frame response)
    × (handled.state ≡ state)

write_dispatched-HasAnswered :
    (response : List ℕ) (dispatched : Dispatched) (reader : Reader) (w : Writer)
    (before after : Supervision)
    → dispatched ≡ some (response, after)
    → 0 < length response
    → length response ≤ 5
    → 4 + length response ≤ w.room
    → HasAnswered w response after (write_dispatched true dispatched reader w before)
write_dispatched-HasAnswered response dispatched reader w before after e p q room =
    let (done, written) =
      write_frame_writes w response max_daemon_response_bytes p (omega arith) (omega arith) room in
    rw (e, done) (refl, written, refl)

length-denial :
    (request : DaemonRequest) → (0 < length (denial request)) × (length (denial request) ≤ 5)
length-denial (pam_auth uid auth_target timeout_ms username) = (omega arith, omega arith)
length-denial (status uid) = (omega arith, omega arith)
length-denial (freshness uid local_digest) = (omega arith, omega arith)

and_false : (b : Bool) → (b && false) ≡ false
and_false true = refl
and_false false = refl

handle_frame-HasAnswered :
    (a : Answers) (c : ModeCalls) (max_timeout_ms peer_uid deadline : ℕ)
    (result : Outcome FrameError (List ℕ) × Reader) (payload : List ℕ) (request : DaemonRequest)
    (w : Writer) (state : Supervision)
    → result.0 ≡ ok payload
    → decode_daemon_request payload ≡ ok request
    → IsOutsider peer_uid request
    → c.sets ≡ true
    → c.resets ≡ true
    → 9 ≤ w.room
    → HasAnswered w
        (denial request)
        state
        (handle_frame a c max_timeout_ms peer_uid deadline result w state)
handle_frame-HasAnswered a c max_timeout_ms peer_uid deadline result payload request w state read
      decoded outsider sets resets room =
    let (p, q) = length-denial request in
    let refused =
      dispatch_request-denial a max_timeout_ms request peer_uid (is_login request) deadline state
        outsider in
    rw (read, decoded, sets, and_false (is_login request), resets, and_false (is_login request))
      (write_dispatched-HasAnswered (denial request)
        (dispatch_request a max_timeout_ms request peer_uid (is_login request) deadline state)
        result.1 w state state refused p q (omega arith))

-- A client that sends a request about another user, and is not root, gets one frame with the denial,
-- and the connection ends well and changes nothing, whatever else the system answers: no worker is
-- started and no attempt is counted. The request may arrive in any pieces, with any bytes behind it;
-- the stream does not fail, its mode can be set, and the writer has room for 9 bytes.
pub handle_client_stream_with_peer-denial :
    (a : Answers) (c : ModeCalls) (max_timeout_ms peer_uid deadline : ℕ) (payload rest : List ℕ)
    (request : DaemonRequest) (r : Reader) (w : Writer) (state : Supervision)
    → IsHealthy r
    → 0 < length payload
    → length payload ≤ max_daemon_request_bytes
    → pending r ≡ frame payload ++ rest
    → decode_daemon_request payload ≡ ok request
    → IsOutsider peer_uid request
    → c.sets ≡ true
    → c.resets ≡ true
    → 9 ≤ w.room
    → HasAnswered w
        (denial request)
        state
        (handle_client_stream_with_peer a c max_timeout_ms peer_uid deadline r w state)
unfolding handle_client_stream_with_peer read_frame
handle_client_stream_with_peer-denial a c max_timeout_ms peer_uid deadline payload rest request r w
      state h p q e decoded outsider sets resets room =
    let (got, _, _) =
      read_frame_or_eof_next r payload rest max_daemon_request_bytes h p q (omega arith) e in
    handle_frame-HasAnswered a c max_timeout_ms peer_uid deadline
      (read_frame r max_daemon_request_bytes) payload request w state (rw got refl) decoded outsider
      sets resets room
