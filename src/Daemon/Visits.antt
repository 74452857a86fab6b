-- ===== src/Daemon/Visits.antt =====
-- A connection of a user who asks for a login of another.
use loofi_face_id.Prelude.{ℕ, ◌≡◌, ◌++◌, refl, true, List, [], ◌∷◌, arith, ok, ascii}
use loofi_face_id.Utf8.{is_utf8}
use loofi_face_id.Protocol.Stream.{Reader, piece, interrupted, pending, Writer}
use loofi_face_id.Protocol.Frame.Steps.{frame}
use loofi_face_id.Daemon.Request.{
  DaemonRequest, pam_auth, contains_nul, decode_pam_auth, decode_opcode, decode_daemon_request,
}
use loofi_face_id.Daemon.Denial.{denial}
use loofi_face_id.Daemon.Connection.{ModeCalls, handle_client_stream_with_peer}
use loofi_face_id.Daemon.Outsiders.{HasAnswered, handle_client_stream_with_peer-denial}
use loofi_face_id.Daemon.Tests.{idle}
use loofi_face_id.Daemon.Logins.{good_answers}

abbrev login : DaemonRequest
login = pam_auth 1000 1 1500 (ascii "ana")

abbrev payload : List ℕ
payload = 0 ∷ 2 ∷ 0x10 ∷ 1 ∷ 0 ∷ 0 ∷ 3 ∷ 232 ∷ 0 ∷ 0 ∷ 5 ∷ 220 ∷ 0 ∷ 3 ∷ 97 ∷ 110 ∷ 97 ∷ []

payload_decoded : decode_daemon_request payload ≡ ok login
unfolding decode_daemon_request decode_opcode decode_pam_auth is_utf8 contains_nul
payload_decoded = refl

abbrev visit : Reader
visit =
    piece (0 ∷ 0 ∷ 0 ∷ 17 ∷ 0 ∷ 2 ∷ 0x10 ∷ [])
    ∷ interrupted
    ∷ piece (1 ∷ 0 ∷ 0 ∷ 3 ∷ 232 ∷ 0 ∷ 0 ∷ 5 ∷ 220 ∷ 0 ∷ 3 ∷ 97 ∷ 110 ∷ 97 ∷ 7 ∷ [])
    ∷ []

visit-frame : pending visit ≡ frame payload ++ (7 ∷ [])
unfolding pending
visit-frame = refl

abbrev modes : ModeCalls
modes = record { sets = true; resets = true }

abbrev empty_writer : Writer
empty_writer = record { written = []; room = 100 }

handle_client_stream_with_peer-denial_example :
    HasAnswered empty_writer (denial login) idle (
      handle_client_stream_with_peer good_answers modes 2000 1001 3000000000 visit empty_writer
        idle)
handle_client_stream_with_peer-denial_example =
    handle_client_stream_with_peer-denial good_answers modes 2000 1001 3000000000 payload (7 ∷ [])
      login visit empty_writer idle tt (omega arith) (omega arith) visit-frame payload_decoded
      ((λ e. absurd (omega (arith, e))), (λ e. absurd (omega (arith, e)))) refl refl (omega arith)
