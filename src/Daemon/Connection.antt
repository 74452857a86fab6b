-- ===== src/Daemon/Connection.antt =====
-- engine/daemon/src/lib.rs: one connection of the daemon, from the request's frame to the response's.
-- A stream that passes its deadline is a reader or a writer that fails.
use loofi_face_id.Prelude.{
  ℕ, ◌*◌, Bool, true, false, not, ◌&&◌, none, some, List, [], Outcome, ok, err, panic, stuck,
  if◌then◌else◌,
}
use loofi_face_id.Protocol.Stream.{Reader, Writer}
use loofi_face_id.Protocol.Frame.Read.{FrameError, read_frame}
use loofi_face_id.Protocol.Frame.Write.{write_frame}
use loofi_face_id.Daemon.Request.{
  DaemonRequest, pam_auth, RequestError, max_daemon_request_bytes, decode_daemon_request,
  encode_daemon_response,
}
use loofi_face_id.Daemon.Status.{status_internal_error}
use loofi_face_id.Daemon.Supervise.{Supervision}
use loofi_face_id.Daemon.Dispatch.{Answers, Dispatched, dispatch_request}

abbrev pub max_daemon_response_bytes : ℕ
max_daemon_response_bytes = 64 * 1024

-- The `io::Error` of a connection, by where it comes from.
pub data ConnectionError : Type 0 where
  request_failed : FrameError → ConnectionError
  mode_failed : ConnectionError
  response_failed : FrameError → ConnectionError

-- The result, what is left to read, what was written, and the daemon's state.
pub record Handled : Type 0 where
  pub result : Outcome ConnectionError (Unit {0})
  pub reader : Reader
  pub writer : Writer
  pub state : Supervision

abbrev pub handled_as : Outcome ConnectionError (Unit {0}) → Reader → Writer → Supervision → Handled
handled_as result reader writer state = record {
  result = result;
  reader = reader;
  writer = writer;
  state = state;
}

-- `monitor_disconnect`
abbrev pub is_login : DaemonRequest → Bool
is_login (pam_auth uid auth_target timeout_ms username) = true
is_login _ = false

abbrev pub written_result : Outcome FrameError (Unit {0}) → Outcome ConnectionError (Unit {0})
written_result (ok done) = ok tt
written_result (err e) = err (response_failed e)
written_result panic = panic
written_result stuck = stuck

-- After the dispatch: the mode is set back, and the response written.
abbrev pub write_dispatched : Bool → Dispatched → Reader → Writer → Supervision → Handled
write_dispatched mode_set none reader writer state = handled_as stuck reader writer state
write_dispatched mode_set (some (response, after)) reader writer state =
    if mode_set
    then (let (result, w) = write_frame writer response max_daemon_response_bytes in
        handled_as (written_result result) reader w after)
    else handled_as (err mode_failed) reader writer after

-- The answers of `set_nonblocking(true)` and `set_nonblocking(false)`.
pub record ModeCalls : Type 0 where
  pub sets : Bool
  pub resets : Bool

-- What follows the request's frame.
abbrev pub handle_payload :
    Answers
    → ModeCalls
    → ℕ
    → ℕ
    → ℕ
    → Outcome RequestError DaemonRequest
    → Reader
    → Writer
    → Supervision
    → Handled
handle_payload a c max_timeout_ms peer_uid deadline (ok request) reader writer state =
    if is_login request && not c.sets
    then handled_as (err mode_failed) reader writer state
    else write_dispatched (not (is_login request && not c.resets))
        (dispatch_request a max_timeout_ms request peer_uid (is_login request) deadline state)
        reader writer state
handle_payload a c max_timeout_ms peer_uid deadline (err e) reader writer state =
    write_dispatched true (some (encode_daemon_response status_internal_error [], state)) reader
      writer state
handle_payload a c max_timeout_ms peer_uid deadline panic reader writer state =
    handled_as panic reader writer state
handle_payload a c max_timeout_ms peer_uid deadline stuck reader writer state =
    handled_as stuck reader writer state

abbrev pub handle_frame :
    Answers
    → ModeCalls
    → ℕ
    → ℕ
    → ℕ
    → Outcome FrameError (List ℕ) × Reader
    → Writer
    → Supervision
    → Handled
handle_frame a c max_timeout_ms peer_uid deadline (ok payload, reader) writer state =
    handle_payload a c max_timeout_ms peer_uid deadline (decode_daemon_request payload) reader
      writer state
handle_frame a c max_timeout_ms peer_uid deadline (err e, reader) writer state =
    handled_as (err (request_failed e)) reader writer state
handle_frame a c max_timeout_ms peer_uid deadline (panic, reader) writer state =
    handled_as panic reader writer state
handle_frame a c max_timeout_ms peer_uid deadline (stuck, reader) writer state =
    handled_as stuck reader writer state

unfoldable pub handle_client_stream_with_peer :
    Answers → ModeCalls → ℕ → ℕ → ℕ → Reader → Writer → Supervision → Handled
handle_client_stream_with_peer a c max_timeout_ms peer_uid deadline reader writer state =
    handle_frame a c max_timeout_ms peer_uid deadline (read_frame reader max_daemon_request_bytes)
      writer state
