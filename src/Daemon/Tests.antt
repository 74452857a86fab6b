-- ===== src/Daemon/Tests.antt =====
-- Runs of the daemon's parts at concrete inputs.
use loofi_face_id.Prelude.{
  ℕ, ◌≤◌, ◌≡◌, refl, ◌↔◌, ◌⊎◌, true, false, none, some, List, [], ◌∷◌, arith, length, ok, err,
  IsAnswer, ◌++◌, ascii,
}
use loofi_face_id.Daemon.Request.{
  DaemonRequest, pam_auth, invalid_encoding, contains_nul, decode_pam_auth, decode_opcode,
  decode_daemon_request, encode_daemon_response,
}
use loofi_face_id.Utf8.{is_utf8}
use loofi_face_id.Daemon.Wire.{
  request_bytes, IsRequest, IsAccepted, decode_daemon_request-request_bytes,
}
use loofi_face_id.Daemon.RateLimiter.{
  no_attempts, allow_at, LimiterCall, attempt, clear, run_calls, retain_entry, retain_attempts,
  clear_attempts,
}
use loofi_face_id.Daemon.Limits.{none_granted, expected_answers, run_calls-expected_answers}
use loofi_face_id.Daemon.Ingress.{try_acquire, ActiveByUid, total_active}
use loofi_face_id.Daemon.Slots.{
  Reaches, start, accept, IsWithin, Reaches-IsWithin, Reaches-try_acquire,
}
use loofi_face_id.Daemon.Permits.{permits_of}
use loofi_face_id.Daemon.Acceptance.{decode_daemon_request-IsAccepted}
use loofi_face_id.Daemon.Progress.{Pass, takes, would_block, write_loop, write_client_progress}
use loofi_face_id.Daemon.Sending.{IsFrontOf, write_client_progress-write_frame}
use loofi_face_id.Protocol.Frame.Write.{write_frame}
use loofi_face_id.Protocol.Frame.Transport.{fresh}
use loofi_face_id.Daemon.Status.{status_success, status_progress, is_expired}
use loofi_face_id.Daemon.Supervise.{
  Chunk, bytes, interrupted, Wait, exited, running, Round, vacant, Start, Supervision,
  supervise_auth_worker, supervise_loop, drain_frames, take_frame, exit_status, read_chunks,
  run_worker,
}
use loofi_face_id.Daemon.Reports.{IsGenuine, supervise_auth_worker-IsGenuine}
use loofi_face_id.Daemon.Undisturbed.{supervise_auth_worker-report}
use loofi_face_id.Daemon.Children.{IsHandedOver, supervise_auth_worker-IsHandedOver}

abbrev login : DaemonRequest
login = pam_auth 1000 1 1500 (ascii "ana")

login-IsRequest : IsRequest login
unfolding is_utf8 contains_nul
login-IsRequest = ground arith

login_accepted : decode_daemon_request (request_bytes login) ≡ ok login
login_accepted = decode_daemon_request-request_bytes login login-IsRequest

-- A login request with a username of invalid UTF-8.
abbrev garbled : List ℕ
garbled = 0 ∷ 2 ∷ 0x10 ∷ 1 ∷ 0 ∷ 0 ∷ 3 ∷ 232 ∷ 0 ∷ 0 ∷ 5 ∷ 220 ∷ 0 ∷ 2 ∷ 0xc0 ∷ 0x80 ∷ []

garbled_refused : decode_daemon_request garbled ≡ err invalid_encoding
unfolding decode_daemon_request decode_opcode decode_pam_auth is_utf8
garbled_refused = refl

-- The layout of the login.
abbrev login_payload : List ℕ
login_payload = 0 ∷ 2 ∷ 0x10 ∷ 1 ∷ 0 ∷ 0 ∷ 3 ∷ 232 ∷ 0 ∷ 0 ∷ 5 ∷ 220 ∷ 0 ∷ 3 ∷ 97 ∷ 110 ∷ 97 ∷ []

decode_daemon_request-IsAccepted_example :
    IsAnswer (decode_daemon_request login_payload)
    × ((r : DaemonRequest)
        → (decode_daemon_request login_payload ≡ ok r) ↔ IsAccepted login_payload r)
decode_daemon_request-IsAccepted_example =
    decode_daemon_request-IsAccepted login_payload (omega arith)

-- The progress goes out in two writes, with a pass that would block between them.
abbrev progress_passes : List Pass
progress_passes =
    record { now = 10; answer = takes 3 }
    ∷ record { now = 20; answer = would_block }
    ∷ record { now = 30; answer = takes 9 }
    ∷ []

abbrev past_deadline : Pass
past_deadline = record { now = 100; answer = would_block }

progress_sent :
    write_client_progress 100 (encode_daemon_response status_progress []) progress_passes
    ≡ some (ok tt, 0 ∷ 0 ∷ 0 ∷ 4 ∷ 0 ∷ 2 ∷ 0x80 ∷ 0 ∷ [])
unfolding write_client_progress write_loop is_expired encode_daemon_response
progress_sent = refl

write_client_progress-write_frame_example :
    IsFrontOf (write_frame (fresh 8) (encode_daemon_response status_progress []) 65536).1.written (
      write_client_progress 100
        (encode_daemon_response status_progress [])
        (progress_passes ++ (past_deadline ∷ [])))
unfolding encode_daemon_response
write_client_progress-write_frame_example =
    write_client_progress-write_frame 100 65536 (encode_daemon_response status_progress [])
      progress_passes [] past_deadline (omega arith) (omega arith) (omega arith) (omega arith)

-- Three attempts, a fourth that is refused, one of another uid, and one after the first is old.
abbrev calls : List LimiterCall
calls =
    attempt 1000 0
    ∷ attempt 1000 10000000000
    ∷ attempt 1000 20000000000
    ∷ attempt 1000 29000000000
    ∷ attempt 1001 29000000000
    ∷ attempt 1000 30000000000
    ∷ attempt 1000 31000000000
    ∷ clear 1000
    ∷ attempt 1000 32000000000
    ∷ []

calls_answers :
    run_calls no_attempts calls ≡ true ∷ true ∷ true ∷ false ∷ true ∷ true ∷ false ∷ true ∷ []
unfolding run_calls allow_at retain_attempts retain_entry clear_attempts
calls_answers = refl

run_calls-expected_answers_example :
    run_calls no_attempts calls ≡ expected_answers none_granted calls
run_calls-expected_answers_example = run_calls-expected_answers calls (omega arith)

-- Two connections of one uid.
abbrev two_active : ActiveByUid
two_active = (1000, 2) ∷ []

abbrev two_permits : List ℕ
two_permits = 1000 ∷ 1000 ∷ []

two_reached : Reaches two_active two_permits
unfolding try_acquire total_active
two_reached = accept {active = (1000, 1) ∷ []} 1000 (accept 1000 start refl) refl

Reaches-IsWithin_example : IsWithin two_active two_permits
Reaches-IsWithin_example = Reaches-IsWithin two_active two_permits two_reached

Reaches-try_acquire_example :
    (try_acquire two_active 1001 ≡ none)
    ↔ ((4 ≤ length two_permits) ⊎ (2 ≤ permits_of 1001 two_permits))
Reaches-try_acquire_example = Reaches-try_acquire two_active two_permits 1001 two_reached

-- A worker that reports progress and success in pieces, and exits.
abbrev quiet : List Chunk → Wait → Round
quiet reads wait = record {
  disconnected = false;
  now = 10;
  reads = reads;
  read_fails = false;
  sends = true;
  wait = wait;
  disconnected_at_exit = false;
  now_at_exit = 20;
}

abbrev pub two_rounds : List Round
two_rounds =
    quiet (bytes (0 ∷ 2 ∷ 0x80 ∷ []) ∷ interrupted ∷ []) running
    ∷ quiet (bytes (0 ∷ 0 ∷ 2 ∷ []) ∷ bytes (0 ∷ 0 ∷ []) ∷ []) (exited true)
    ∷ []

abbrev pub good_start : Start
good_start = record {
  locked = false;
  old_child = running;
  now = 5;
  attempt_at = 6;
  spawns = true;
  writes = true;
  sets_nonblocking = true;
}

abbrev pub idle : Supervision
idle = record { limiter = no_attempts; slot = vacant }

abbrev pub after_two : Supervision
after_two = record { limiter = (allow_at no_attempts 1000 6).1; slot = vacant }

two_rounds_succeed :
    supervise_auth_worker 1000 true 100 good_start two_rounds idle
    ≡ some (status_success, after_two)
unfolding supervise_auth_worker run_worker supervise_loop drain_frames take_frame exit_status
    read_chunks is_expired allow_at retain_attempts retain_entry
two_rounds_succeed = refl

supervise_auth_worker-IsGenuine_example : IsGenuine true 100 none [] two_rounds
supervise_auth_worker-IsGenuine_example =
    supervise_auth_worker-IsGenuine 1000 true 100 good_start two_rounds idle after_two
      two_rounds_succeed

supervise_auth_worker-IsHandedOver_example : IsHandedOver idle status_success after_two
supervise_auth_worker-IsHandedOver_example =
    supervise_auth_worker-IsHandedOver 1000 true 100 good_start two_rounds idle after_two
      status_success two_rounds_succeed

supervise_auth_worker-report_example :
    supervise_auth_worker 1000 true 100 good_start two_rounds idle
    ≡ some (status_success, after_two)
unfolding allow_at retain_attempts retain_entry read_chunks
supervise_auth_worker-report_example =
    supervise_auth_worker-report 1000 true 100 good_start two_rounds idle status_success
      (refl, refl, omega arith) refl (refl, refl, refl) (ground arith) (ground arith)
