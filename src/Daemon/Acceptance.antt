-- ===== src/Daemon/Acceptance.antt =====
-- engine/daemon/src/lib.rs: which payloads `decode_daemon_request` accepts.
use loofi_face_id.Prelude.{
  ℕ, ◌≡◌, ap, ◌∙◌, ◌↔◌, List, All, IsByte, ok, Ensures, IsAnswer, Ensures-IsAnswer,
}
use mathlib.Core.Path.{subst}
use loofi_face_id.Daemon.Request.{DaemonRequest, decode_daemon_request}
use loofi_face_id.Daemon.Wire.{
  IsAccepted, decode_daemon_request-request_bytes, decode_daemon_request-Ensures,
}

-- `decode_daemon_request` ends on any payload of bytes with a request or an error, without a panic,
-- and returns a request exactly when the request is within its bounds and the payload is its layout.
pub decode_daemon_request-IsAccepted :
    (payload : List ℕ)
    → All IsByte payload
    → IsAnswer (decode_daemon_request payload)
      × ((r : DaemonRequest) → (decode_daemon_request payload ≡ ok r) ↔ IsAccepted payload r)
decode_daemon_request-IsAccepted payload h =
    let sound = decode_daemon_request-Ensures payload h in
    (
      Ensures-IsAnswer (IsAccepted payload) (decode_daemon_request payload) sound,
      λ r. (
        (λ e. subst (Ensures (IsAccepted payload)) e sound),
        λ accepted.
            ap decode_daemon_request accepted.1 ∙ decode_daemon_request-request_bytes r accepted.0,
      ),
    )
