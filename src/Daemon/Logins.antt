-- ===== src/Daemon/Logins.antt =====
-- Logins, from the policy file to the response.
use loofi_face_id.Prelude.{◌≡◌, ◌∙◌, refl, ap, true, false, none, some, [], ◌∷◌, arith, ok, ascii}
use loofi_face_id.Daemon.Request.{pam_auth, encode_daemon_response}
use loofi_face_id.AuthPolicy.Parser.{
  parse_json, separator, target_entry, user_entry, policy_entry, consume, parse_policy, policy_loop,
  users_loop, targets_loop,
}
use loofi_face_id.AuthPolicy.Json.{digits}
use loofi_face_id.AuthPolicy.Table.{mode_for}
use loofi_face_id.AuthPolicy.Files.{
  found, AuthPolicySnapshot, snapshot_from_directory, validate_root_directory, snapshot_system,
  policy_identity, open_policy_directory, same_file_as,
}
use loofi_face_id.AuthPolicy.Stored.{one_user, one_user_text, root_metadata, stored_directory}
use loofi_face_id.Daemon.Status.{is_authorized, is_expired, status_success, status_access_denied}
use loofi_face_id.Daemon.RateLimiter.{allow_at, retain_entry, retain_attempts, clear_attempts}
use loofi_face_id.Daemon.Supervise.{
  Supervision, vacant, supervise_auth_worker, supervise_loop, drain_frames, take_frame, exit_status,
  read_chunks, run_worker,
}
use loofi_face_id.Daemon.Dispatch.{
  PolicyFiles, authentication_policy, authentication_target, ready, Answers, after_worker,
  attempt_login, login_under, dispatch_pam_auth, dispatch_request,
}
use loofi_face_id.Daemon.Reports.{IsReport, received}
use loofi_face_id.Daemon.Undisturbed.{AreCalm}
use loofi_face_id.Daemon.Answering.{CanStart, after_status, dispatch_request-handle_pam_request}
use loofi_face_id.Daemon.Worker.{
  LoginAnswers, extracted, match, after_capture, verify_frame_against_vault, handle_pam_request,
  request_deadline, worker_output, serve_auth_worker, worker_request,
}
use loofi_face_id.Vision.Image.{pixel_format, new_image, bytes_per_pixel}
use loofi_face_id.Daemon.Capture.{
  CameraAnswer, camera, capture_frame, capture_camera_frame, image_of,
}
use loofi_face_id.Daemon.Serving.{
  IsMatch, handle_pam_request-IsMatch, serve_auth_worker-worker_request,
}
use loofi_face_id.Daemon.Access.{IsGranted, worker_deadline, dispatch_request-IsGranted}
use loofi_face_id.Daemon.Denial.{dispatch_request-root}
use loofi_face_id.Daemon.Tests.{good_start, two_rounds, idle, after_two}

abbrev policy_files : PolicyFiles
policy_files = record {
  path = record {
    etc_opens = true;
    etc = some (root_metadata true 0x41ed);
    config = found true false false;
    config_opens = true;
  };
  directory = stored_directory;
}

abbrev one_user_snapshot : AuthPolicySnapshot
one_user_snapshot = record {
  policy = one_user;
  identity = policy_identity (root_metadata false 0x81a4);
}

reads : parse_json one_user_text ≡ ok one_user
unfolding parse_json parse_policy policy_loop policy_entry separator user_entry target_entry consume
    users_loop targets_loop digits
reads = refl

policy_read : authentication_policy policy_files ≡ some one_user_snapshot
unfolding authentication_policy snapshot_system snapshot_from_directory validate_root_directory
    open_policy_directory policy_identity
policy_read = rw reads refl

abbrev pub good_answers : Answers
good_answers = record {
  now = 1;
  profile_freshness = 1;
  start_files = policy_files;
  attempt_now = 2;
  worker = good_start;
  rounds = two_rounds;
  descriptor = some (root_metadata false 0x81a4);
  end_files = policy_files;
  key_loads = true;
  vault_opens = true;
  vault = ready true 3;
}

abbrev after_login : Supervision
after_login = record { limiter = clear_attempts after_two.limiter 1000; slot = vacant }

login_granted :
    dispatch_request good_answers 2000
      (pam_auth 1000 1 1500 (ascii "ana"))
      1000
      true
      3000000000
      idle
    ≡ some (encode_daemon_response status_success [], after_login)
unfolding dispatch_request dispatch_pam_auth login_under attempt_login after_worker
    authentication_target mode_for same_file_as supervise_auth_worker run_worker supervise_loop
    drain_frames take_frame exit_status read_chunks is_expired is_authorized allow_at
    retain_attempts retain_entry clear_attempts snapshot_system snapshot_from_directory
    validate_root_directory open_policy_directory policy_identity parse_json parse_policy
    policy_loop policy_entry separator user_entry target_entry consume users_loop targets_loop
    digits
login_granted = refl

dispatch_request-IsGranted_example :
    IsGranted good_answers 2000 1000 1000 1 1500 true 3000000000 after_login
dispatch_request-IsGranted_example =
    dispatch_request-IsGranted good_answers 2000 1000 1 1500 (ascii "ana") 1000 true 3000000000 idle
      after_login login_granted

dispatch_request-root_example :
    dispatch_request good_answers 2000 (pam_auth 0 1 1500 (ascii "root")) 0 true 3000000000 idle
    ≡ some (encode_daemon_response status_access_denied [], idle)
dispatch_request-root_example =
    dispatch_request-root good_answers 2000 1 1500 (ascii "root") 0 true 3000000000 idle

-- A camera that shows a gray image of two pixels.
abbrev two_pixels_answer : CameraAnswer
two_pixels_answer = record { width = 2; height = 1; format = 3; buffer = 10 ∷ 200 ∷ 0 ∷ [] }

-- A worker whose camera and vault answer in time.
abbrev good_login : LoginAnswers
good_login = record {
  now = 1;
  now_start = 2;
  policy = policy_files;
  key_loads = true;
  now_key = 3;
  vault_opens = true;
  vault = ready true 3;
  now_capture = 4;
  source = camera (some two_pixels_answer);
  progress_written = true;
  now_captured = 5;
  frame = record {
    now_provider = 6;
    provider_loads = true;
    now_control = 7;
    control_starts = true;
    extraction = λ image. extracted;
    now_extracted = 8;
    profile_opens = true;
    now_opened = 9;
    result = match;
  };
  now_end = 10;
}

good_login_matches :
    handle_pam_request good_login 1000 1 1500 1500000001 2000 ≡ (status_success, true)
unfolding handle_pam_request after_capture verify_frame_against_vault capture_frame
    capture_camera_frame image_of pixel_format new_image bytes_per_pixel is_expired
    authentication_policy authentication_target mode_for snapshot_system snapshot_from_directory
    validate_root_directory open_policy_directory policy_identity parse_json parse_policy
    policy_loop policy_entry separator user_entry target_entry consume users_loop targets_loop
    digits
good_login_matches = refl

handle_pam_request-IsMatch_example :
    IsMatch good_login 1000 1 (request_deadline good_login 1500 2000 1500000001)
handle_pam_request-IsMatch_example =
    handle_pam_request-IsMatch good_login 1000 1 1500 1500000001 2000
      (ap (λ t. t.0) good_login_matches)

serve_auth_worker-worker_request_example :
    (serve_auth_worker good_login 1 (worker_request 1000 1500 1)
      ≡ ok (worker_output (handle_pam_request good_login 1000 1 1500 1500000001 2000)))
    × IsReport none
        (worker_output (handle_pam_request good_login 1000 1 1500 1500000001 2000))
        (some (handle_pam_request good_login 1000 1 1500 1500000001 2000).0)
serve_auth_worker-worker_request_example =
    serve_auth_worker-worker_request good_login 1 1000 1500 1 (omega arith)
      (omega arith, omega arith) refl

-- What the worker writes on the supervision's request is what arrives in the two rounds.
good_login-received :
    serve_auth_worker good_login 1 (worker_request 1000 1500 1) ≡ ok (received two_rounds)
unfolding read_chunks encode_daemon_response
good_login-received =
    (serve_auth_worker-worker_request good_login 1 1000 1500 1 (omega arith)
      (omega arith, omega arith) refl).0
    ∙ ap (λ answer. ok (worker_output answer)) good_login_matches

good_start-CanStart :
    CanStart good_start 1000 (worker_deadline good_answers 2000 1500 3000000000) idle
unfolding allow_at retain_attempts retain_entry
good_start-CanStart = record {
  free = refl;
  reaped = refl;
  early = omega arith;
  allowed = refl;
  spawns = refl;
  writes = refl;
  nonblocking = refl;
}

two_rounds-AreCalm : AreCalm true (worker_deadline good_answers 2000 1500 3000000000) two_rounds
two_rounds-AreCalm = ground arith

user_authorized : is_authorized 1000 1000 ≡ true
unfolding is_authorized
user_authorized = refl

dispatch_request-handle_pam_request_example :
    dispatch_request good_answers 2000
      (pam_auth 1000 1 1500 (ascii "ana"))
      1000
      true
      3000000000
      idle
    ≡ some (
      encode_daemon_response (handle_pam_request good_login 1000 1 1500 1500000001 2000).0 [],
      after_status (handle_pam_request good_login 1000 1 1500 1500000001 2000).0 1000 after_two,
    )
dispatch_request-handle_pam_request_example =
    dispatch_request-handle_pam_request good_answers good_login 1 1500 2000 1000 1 1500
      (ascii "ana") 1000 true 3000000000 idle user_authorized
      (dispatch_request-IsGranted good_answers 2000 1000 1 1500 (ascii "ana") 1000 true 3000000000
        idle after_login login_granted).enabled
      good_start-CanStart two_rounds-AreCalm (omega arith) (omega arith, omega arith) refl
      good_login-received
