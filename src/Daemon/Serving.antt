-- ===== src/Daemon/Serving.antt =====
-- engine/daemon/src/lib.rs: what a worker's answer says, and that the supervision reads it.
use loofi_face_id.Prelude.{
  Option-cases, ℕ, ◌+◌, ◌*◌, ◌≤◌, ◌<◌, ◌≡◌, refl, inl, inr, Bool, true, false, not, none, some,
  arith, if◌then◌else◌, ok, Outcome, err, panic, stuck, Settles, Settles->>=, Settles-weaken, IsU32,
  from_be32-byte_of,
}
use loofi_face_id.Daemon.Request.{
  encode_daemon_response, is_auth_target, default_pam_timeout_ms, in_range,
}
use loofi_face_id.Daemon.Status.{is_expired, status_success}
use loofi_face_id.Daemon.Dispatch.{authentication_policy, ok_value}
use loofi_face_id.Vision.Image.{ImageView, ImageError, pixel_format}
use loofi_face_id.Vision.Parsing.{IsImage, new_image-Settles}
use loofi_face_id.Daemon.Capture.{CapturedFrame, Captured, capture_frame, image_of}
use loofi_face_id.Daemon.Frames.{IsBusyOr, capture_frame-IsBusyOr}
use loofi_face_id.Daemon.Reports.{IsReport}
use loofi_face_id.Daemon.Worker.{
  Extraction, extracted, spoof_detected, extraction_failed, VerificationResult, match, ambiguous,
  no_match, FrameAnswers, result_status, after_extraction, verify_image, verify_if_image,
  after_capture, before_capture, verify_frame_against_vault, LoginAnswers, is_enabled_in,
  has_profile, request_deadline, handle_pam_request, worker_output, serve_auth_worker,
  worker_request,
}

after_extraction-success :
    (extraction : Extraction) (next : ℕ)
    → after_extraction extraction next ≡ status_success
    → (extraction ≡ extracted) × (next ≡ status_success)
after_extraction-success extracted next e = (refl, e)
after_extraction-success spoof_detected next e = absurd (ground arith)
after_extraction-success extraction_failed next e = absurd (ground arith)

result_status-success : (r : VerificationResult) → result_status r ≡ status_success → r ≡ match
result_status-success match e = refl
result_status-success ambiguous e = absurd (ground arith)
result_status-success no_match e = absurd (ground arith)

after_extraction_le : (x : Extraction) (next : ℕ) → next ≤ 9 → after_extraction x next ≤ 9
after_extraction_le extracted next h = h
after_extraction_le spoof_detected next h = omega arith
after_extraction_le extraction_failed next h = omega arith

result_status_le : (r : VerificationResult) → result_status r ≤ 9
result_status_le match = omega arith
result_status_le ambiguous = omega arith
result_status_le no_match = omega arith

verify_image_le :
    (f : FrameAnswers) (deadline : ℕ) (image : ImageView) → verify_image f deadline image ≤ 9
unfolding is_expired
verify_image_le f deadline image = ground (
  arith,
  result_status_le f.result,
  after_extraction_le (f.extraction image) (
      if is_expired deadline f.now_extracted
      then 4
      else if not f.profile_opens
      then 1
      else if is_expired deadline f.now_opened
      then 4
      else result_status f.result),
)

verify_frame_le :
    (f : FrameAnswers) (deadline : ℕ) (frame : CapturedFrame)
    → verify_frame_against_vault f deadline frame ≤ 9
unfolding verify_frame_against_vault
verify_frame_le f deadline frame = elim (Option-cases (ok_value (image_of frame))) [
  | inl bad ↦ rw bad (omega arith)
  | inr (image, good) ↦ rw good (verify_image_le f deadline image)
]

verify_image-success :
    (f : FrameAnswers) (deadline : ℕ) (image : ImageView)
    → verify_image f deadline image ≡ status_success
    → (f.extraction image ≡ extracted) × (f.profile_opens ≡ true) × (f.result ≡ match)
verify_image-success f deadline image e =
    let last =
      if is_expired deadline f.now_extracted
      then 4
      else if not f.profile_opens
      then 1
      else if is_expired deadline f.now_opened
      then 4
      else result_status f.result in
    ground
      (arith, after_extraction-success (f.extraction image) last, result_status-success f.result)

-- An image from which a live face was extracted, and that matches.
abbrev pub IsVerified : FrameAnswers → Outcome ImageError ImageView → Type 0
IsVerified f made =
    (image : ImageView) × (made ≡ ok image)
    × IsImage image
    × (f.extraction image ≡ extracted)
    × (f.profile_opens ≡ true)
    × (f.result ≡ match)

image_of-Settles : (frame : CapturedFrame) → Settles (λ e. Unit {0}) IsImage (image_of frame)
unfolding image_of pixel_format
image_of-Settles frame =
    let P : ImageError → Type 0 = λ e. Unit {0} in
    Settles->>= P (λ format. Unit {0}) IsImage (pixel_format frame.format) _ (ground arith)
      λ format _.
        Settles-weaken P IsImage _
          (new_image-Settles format frame.width frame.height frame.stride frame.bytes)
          λ image is. is.0

verify_if_image-success :
    (f : FrameAnswers) (deadline : ℕ) (made : Outcome ImageError ImageView)
    → Settles (λ e. Unit {0}) IsImage made
    → verify_if_image f deadline (ok_value made) ≡ status_success
    → IsVerified f made
verify_if_image-success f deadline (ok image) is e =
    let (live, opened, same) = verify_image-success f deadline image e in
    (image, refl, is, live, opened, same)
verify_if_image-success f deadline (err _) is e = absurd (ground arith)
verify_if_image-success f deadline panic is e = absurd is
verify_if_image-success f deadline stuck is e = absurd is

verify_frame-success :
    (f : FrameAnswers) (deadline : ℕ) (frame : CapturedFrame)
    → verify_frame_against_vault f deadline frame ≡ status_success
    → IsVerified f (image_of frame)
unfolding verify_frame_against_vault
verify_frame-success f deadline frame e =
    verify_if_image-success f deadline (image_of frame) (image_of-Settles frame) e

-- What stands behind a success of the worker.
pub record IsMatch (a : LoginAnswers) (uid auth_target deadline : ℕ) : Type 0 where
  pub enabled : is_enabled_in (authentication_policy a.policy) uid auth_target ≡ true
  pub has_key : a.key_loads ≡ true
  pub enrolled : has_profile a.vault ≡ true
  pub frame : CapturedFrame
  pub captured : capture_frame a.source ≡ inr frame
  pub verified : IsVerified a.frame (image_of frame)
  pub in_time : a.now_end < deadline

-- What a success says of the capture and what follows it.
abbrev pub IsCaptured : LoginAnswers → ℕ → Captured → Type 0
IsCaptured a deadline captured =
    (frame : CapturedFrame) × (captured ≡ inr frame)
    × IsVerified a.frame (image_of frame)
    × (a.now_end < deadline)

after_capture-success :
    (a : LoginAnswers) (deadline : ℕ) (captured : Captured)
    → IsBusyOr captured
    → (after_capture a deadline captured).0 ≡ status_success
    → IsCaptured a deadline captured
unfolding after_capture is_expired
after_capture-success a deadline (inl status) busy e = absurd (ground arith)
after_capture-success a deadline (inr frame) busy e =
    let verified : verify_frame_against_vault a.frame deadline frame ≡ status_success =
      ground arith in
    (frame, refl, verify_frame-success a.frame deadline frame verified, ground arith)

after_capture_le :
    (a : LoginAnswers) (deadline : ℕ) (captured : Captured)
    → IsBusyOr captured
    → (after_capture a deadline captured).0 ≤ 9
unfolding after_capture is_expired
after_capture_le a deadline (inl status) busy = omega (arith, busy)
after_capture_le a deadline (inr frame) busy =
    ground (arith, verify_frame_le a.frame deadline frame)

before_capture-success :
    (a : LoginAnswers) (uid auth_target deadline : ℕ) (next : ℕ × Bool)
    → (before_capture a uid auth_target deadline next).0 ≡ status_success
    → (is_enabled_in (authentication_policy a.policy) uid auth_target ≡ true)
      × (a.key_loads ≡ true)
      × (has_profile a.vault ≡ true)
      × (next.0 ≡ status_success)
before_capture-success a uid auth_target deadline next e =
    (ground arith, ground arith, ground arith, ground arith)

before_capture_le :
    (a : LoginAnswers) (uid auth_target deadline : ℕ) (next : ℕ × Bool)
    → next.0 ≤ 9
    → (before_capture a uid auth_target deadline next).0 ≤ 9
before_capture_le a uid auth_target deadline next h = ground arith

-- `handle_pam_request` comes to a success only when the policy enables the target, the key and an
-- enrolled profile are there, a captured frame makes a valid image, from which a live face is
-- extracted that matches, and the deadline has not passed.
pub handle_pam_request-IsMatch :
    (a : LoginAnswers) (uid auth_target timeout_ms connection_deadline max_timeout_ms : ℕ)
    → (handle_pam_request a uid auth_target timeout_ms connection_deadline max_timeout_ms).0
      ≡ status_success
    → IsMatch a uid auth_target (request_deadline a timeout_ms max_timeout_ms connection_deadline)
unfolding handle_pam_request
handle_pam_request-IsMatch a uid auth_target timeout_ms connection_deadline max_timeout_ms e =
    let deadline = request_deadline a timeout_ms max_timeout_ms connection_deadline in
    let captured = capture_frame a.source in
    let (enabled, has_key, enrolled, last) =
      before_capture-success a uid auth_target deadline (after_capture a deadline captured) e in
    let (frame, found, verified, in_time) =
      after_capture-success a deadline captured (capture_frame-IsBusyOr a.source) last in
    record {
      enabled = enabled;
      has_key = has_key;
      enrolled = enrolled;
      frame = frame;
      captured = found;
      verified = verified;
      in_time = in_time;
    }

handle_pam_request_le :
    (a : LoginAnswers) (uid auth_target timeout_ms connection_deadline max_timeout_ms : ℕ)
    → (handle_pam_request a uid auth_target timeout_ms connection_deadline max_timeout_ms).0 ≤ 9
unfolding handle_pam_request
handle_pam_request_le a uid auth_target timeout_ms connection_deadline max_timeout_ms =
    let deadline = request_deadline a timeout_ms max_timeout_ms connection_deadline in
    before_capture_le a uid auth_target deadline (after_capture a deadline (capture_frame a.source))
      (after_capture_le a deadline (capture_frame a.source) (capture_frame-IsBusyOr a.source))

worker_output-IsReport :
    (status : ℕ) (progressed : Bool)
    → status ≤ 9
    → IsReport none (worker_output (status, progressed)) (some status)
unfolding encode_daemon_response
worker_output-IsReport status true h =
    (refl, refl, refl, refl, inl (refl, (refl, refl, refl, refl, inr (h, refl))))
worker_output-IsReport status false h = (refl, refl, refl, refl, inr (h, refl))

-- The worker reads back the request that the supervision writes, and what it writes in turn is a
-- report of the status that `handle_pam_request` comes to, which the supervision accepts.
pub serve_auth_worker-worker_request :
    (a : LoginAnswers) (base uid timeout_ms auth_target : ℕ)
    → IsU32 uid
    → (1 ≤ timeout_ms) × (timeout_ms ≤ 2000)
    → is_auth_target auth_target ≡ true
    → let answer =
        handle_pam_request a uid auth_target timeout_ms
          (base + timeout_ms * 1000000)
          default_pam_timeout_ms in
      (serve_auth_worker a base (worker_request uid timeout_ms auth_target)
        ≡ ok (worker_output answer))
      × IsReport none (worker_output answer) (some answer.0)
unfolding serve_auth_worker worker_request
serve_auth_worker-worker_request a base uid timeout_ms auth_target u (low, high) t =
    let range : in_range 1 default_pam_timeout_ms timeout_ms ≡ true = ground arith in
    let answer =
      handle_pam_request a uid auth_target timeout_ms (base + timeout_ms * 1000000)
        default_pam_timeout_ms in
    (
      simp (from_be32-byte_of uid u, from_be32-byte_of timeout_ms (omega arith), range, t),
      worker_output-IsReport answer.0 answer.1 (
          handle_pam_request_le a uid auth_target timeout_ms (base + timeout_ms * 1000000)
            default_pam_timeout_ms),
    )
