-- ===== src/Daemon/Worker.antt =====
-- engine/daemon/src/lib.rs: the worker's side of a login, `serve_auth_worker`,
-- `handle_pam_request` and `verify_frame_against_vault`, over the answers of the clock, the policy
-- files, the key store, the vault, the camera and the identity provider.
use loofi_face_id.Prelude.{
  ℕ, ◌+◌, ◌*◌, Bool, true, false, not, ◌&&◌, List, [], ◌∷◌, ◌++◌, Option, none, some, Outcome, ok,
  inl, inr, ◌>>=◌, ◌>>◌, guard, index, index_be32, to_be32, length, min, ltb, ◌==◌, if◌then◌else◌,
}
use loofi_face_id.AuthPolicy.Files.{AuthPolicySnapshot}
use loofi_face_id.Daemon.Request.{
  encode_daemon_response, default_pam_timeout_ms, is_auth_target, in_range,
}
use loofi_face_id.Daemon.Status.{
  is_expired, status_success, status_auth_failed, status_access_denied, status_no_profile,
  status_timeout, status_internal_error, status_spoof_detected, status_progress,
}
use loofi_face_id.Vision.Image.{ImageView}
use loofi_face_id.Daemon.Capture.{CapturedFrame, Captured, FrameSource, capture_frame, image_of}
use loofi_face_id.Daemon.Dispatch.{
  PolicyFiles, ok_value, authentication_policy, authentication_target, enables, VaultStatus, ready,
  absent, other,
}

-- `provider.extract`
pub data Extraction : Type 0 where
  extracted spoof_detected extraction_failed : Extraction

-- `profile.verify`
pub data VerificationResult : Type 0 where
  match ambiguous no_match : VerificationResult

pub record FrameAnswers : Type 0 where
  pub now_provider : ℕ
  pub provider_loads : Bool
  pub now_control : ℕ
  pub control_starts : Bool
  pub extraction : ImageView → Extraction
  pub now_extracted : ℕ
  pub profile_opens : Bool
  pub now_opened : ℕ
  pub result : VerificationResult

abbrev pub result_status : VerificationResult → ℕ
result_status match = status_success
result_status ambiguous = status_auth_failed
result_status no_match = status_auth_failed

-- From the extraction on.
abbrev pub after_extraction : Extraction → ℕ → ℕ
after_extraction extracted next = next
after_extraction spoof_detected next = status_spoof_detected
after_extraction extraction_failed next = status_auth_failed

-- From the image on.
abbrev pub verify_image : FrameAnswers → ℕ → ImageView → ℕ
verify_image f deadline image =
    if is_expired deadline f.now_provider
    then status_timeout
    else if not f.provider_loads
    then status_internal_error
    else if is_expired deadline f.now_control
    then status_timeout
    else if not f.control_starts
    then status_timeout
    else after_extraction (f.extraction image) (
        if is_expired deadline f.now_extracted
        then status_timeout
        else if not f.profile_opens
        then status_auth_failed
        else if is_expired deadline f.now_opened
        then status_timeout
        else result_status f.result)

abbrev pub verify_if_image : FrameAnswers → ℕ → Option ImageView → ℕ
verify_if_image f deadline none = status_auth_failed
verify_if_image f deadline (some image) = verify_image f deadline image

unfoldable pub verify_frame_against_vault : FrameAnswers → ℕ → CapturedFrame → ℕ
unfolding is_expired image_of
verify_frame_against_vault f deadline frame = verify_if_image f deadline (ok_value (image_of frame))

pub record LoginAnswers : Type 0 where
  pub now : ℕ
  pub now_start : ℕ
  pub policy : PolicyFiles
  pub key_loads : Bool
  pub now_key : ℕ
  pub vault_opens : Bool
  pub vault : VaultStatus
  pub now_capture : ℕ
  pub source : FrameSource
  pub progress_written : Bool
  pub now_captured : ℕ
  pub frame : FrameAnswers
  pub now_end : ℕ

-- `authentication_target_enabled`
abbrev pub is_enabled_in : Option AuthPolicySnapshot → ℕ → ℕ → Bool
is_enabled_in none uid auth_target = false
is_enabled_in (some snapshot) uid auth_target =
    enables snapshot uid (authentication_target auth_target)

-- `Ready` with an enrolled profile of some samples.
abbrev pub has_profile : VaultStatus → Bool
has_profile (ready enrolled sample_count) = enrolled && ltb 0 sample_count
has_profile absent = false
has_profile other = false

abbrev pub request_deadline : LoginAnswers → ℕ → ℕ → ℕ → ℕ
request_deadline a timeout_ms max_timeout_ms connection_deadline =
    min (a.now + min (min timeout_ms max_timeout_ms) default_pam_timeout_ms * 1000000)
      connection_deadline

-- From the capture on.
unfoldable pub after_capture : LoginAnswers → ℕ → Captured → ℕ × Bool
unfolding is_expired verify_frame_against_vault
after_capture a deadline (inl status) = (status, false)
after_capture a deadline (inr frame) =
    if not a.progress_written
    then (status_internal_error, false)
    else if is_expired deadline a.now_captured
    then (status_timeout, true)
    else let result = verify_frame_against_vault a.frame deadline frame in
      if is_expired deadline a.now_end then (status_timeout, true) else (result, true)

-- Up to the capture.
abbrev pub before_capture : LoginAnswers → ℕ → ℕ → ℕ → ℕ × Bool → ℕ × Bool
before_capture a uid auth_target deadline next =
    if is_expired deadline a.now_start
    then (status_timeout, false)
    else if not (is_enabled_in (authentication_policy a.policy) uid auth_target)
    then (status_access_denied, false)
    else if not a.key_loads
    then (status_auth_failed, false)
    else if is_expired deadline a.now_key
    then (status_timeout, false)
    else if not a.vault_opens
    then (status_internal_error, false)
    else if not (has_profile a.vault)
    then (status_no_profile, false)
    else if is_expired deadline a.now_capture
    then (status_timeout, false)
    else next

-- The status, and whether the progress was written before it.
unfoldable pub handle_pam_request : LoginAnswers → ℕ → ℕ → ℕ → ℕ → ℕ → ℕ × Bool
unfolding is_expired authentication_policy after_capture capture_frame
handle_pam_request a uid auth_target timeout_ms connection_deadline max_timeout_ms =
    let deadline = request_deadline a timeout_ms max_timeout_ms connection_deadline in
    before_capture a uid auth_target deadline (after_capture a deadline (capture_frame a.source))

pub data WorkerError : Type 0 where
  unexpected_eof invalid_request invalid_deadline : WorkerError

-- What the worker writes: the progress, if it came so far, and the status.
abbrev pub worker_output : ℕ × Bool → List ℕ
worker_output (status, true) =
    encode_daemon_response status_progress [] ++ encode_daemon_response status []
worker_output (status, false) = encode_daemon_response status []

-- `serve_auth_worker` on all the bytes of its input, when its output is written.
unfoldable pub serve_auth_worker : LoginAnswers → ℕ → List ℕ → Outcome WorkerError (List ℕ)
unfolding handle_pam_request
serve_auth_worker a deadline_base input = do
  guard (not (ltb (length input) 9)) unexpected_eof
  guard (length input == 9) invalid_request
  uid ← index_be32 input 0 1 2 3
  timeout_ms ← index_be32 input 4 5 6 7
  auth_target ← index input 8
  guard (in_range 1 default_pam_timeout_ms timeout_ms && is_auth_target auth_target)
      invalid_deadline
  ok (
      worker_output (
        handle_pam_request a uid auth_target timeout_ms (deadline_base + timeout_ms * 1000000)
          default_pam_timeout_ms))

-- What `supervise_auth_worker` writes to the worker.
unfoldable pub worker_request : ℕ → ℕ → ℕ → List ℕ
worker_request uid timeout_ms auth_target =
    to_be32 uid ++ (to_be32 timeout_ms ++ (auth_target ∷ []))
