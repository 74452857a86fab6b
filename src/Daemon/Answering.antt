-- ===== src/Daemon/Answering.antt =====
-- engine/daemon/src/lib.rs: a login from the dispatch over the supervision to the worker and back.
use loofi_face_id.Prelude.{
  ℕ, ◌+◌, ◌*◌, ◌≤◌, ◌<◌, ◌≡◌, refl, sym, ◌∙◌, Bool, true, false, ◌==◌, List, [], none, some, ok,
  arith, if◌then◌else◌, inl, inr, Bool-cases, IsU32, ltb, le→ltb_false, min,
}
use mathlib.Core.Path.{subst}
use loofi_face_id.Daemon.Request.{
  pam_auth, encode_daemon_response, default_pam_timeout_ms, is_auth_target,
}
use loofi_face_id.Daemon.Status.{is_authorized, status_success}
use loofi_face_id.Daemon.RateLimiter.{allow_at, clear_attempts}
use loofi_face_id.Daemon.Supervise.{Supervision, Start, vacant, is_reaped}
use loofi_face_id.Daemon.Dispatch.{
  pam_response_reserve, Answers, dispatch_request, dispatch_pam_auth, login_under, attempt_login,
  after_worker,
}
use loofi_face_id.Daemon.Access.{worker_deadline, IsEnabledThroughout}
use loofi_face_id.Daemon.Reports.{IsReport, received}
use loofi_face_id.Daemon.Undisturbed.{AreCalm, supervise_auth_worker-report}
use loofi_face_id.Daemon.Worker.{
  LoginAnswers, handle_pam_request, serve_auth_worker, worker_request,
}
use loofi_face_id.Daemon.Serving.{serve_auth_worker-worker_request}

-- The supervision can start a worker.
pub record CanStart (s : Start) (uid deadline : ℕ) (state : Supervision) : Type 0 where
  pub free : s.locked ≡ false
  pub reaped : is_reaped state.slot s.old_child ≡ true
  pub early : s.now < deadline
  pub allowed : (allow_at state.limiter uid s.attempt_at).0 ≡ true
  pub spawns : s.spawns ≡ true
  pub writes : s.writes ≡ true
  pub nonblocking : s.sets_nonblocking ≡ true

-- The attempts are forgotten after a success.
abbrev pub after_status : ℕ → ℕ → Supervision → Supervision
after_status status uid state =
    if status == status_success
    then record state { limiter = clear_attempts state.limiter uid }
    else state

after_worker-current :
    (uid status : ℕ) (state : Supervision)
    → after_worker true uid (some (status, state))
      ≡ some (encode_daemon_response status [], after_status status uid state)
unfolding after_worker
after_worker-current uid status state = elim (Bool-cases (status == status_success)) [
  | inl success ↦ rw success refl
  | inr failure ↦ rw failure refl
]

-- What arrives from the worker is a report of the status that `handle_pam_request` comes to.
received-IsReport :
    (login : LoginAnswers) (base uid timeout_ms auth_target : ℕ) (output : List ℕ)
    → IsU32 uid
    → (1 ≤ timeout_ms) × (timeout_ms ≤ 2000)
    → is_auth_target auth_target ≡ true
    → serve_auth_worker login base (worker_request uid timeout_ms auth_target) ≡ ok output
    → IsReport none output (
        some
          (handle_pam_request login uid auth_target timeout_ms
            (base + timeout_ms * 1000000)
            default_pam_timeout_ms).0)
received-IsReport login base uid timeout_ms auth_target output u range t e =
    let (written, report) =
      serve_auth_worker-worker_request login base uid timeout_ms auth_target u range t in
    let status =
      (handle_pam_request login uid auth_target timeout_ms (base + timeout_ms * 1000000)
        default_pam_timeout_ms).0 in
    let same = sym written ∙ e in
    let got : _ ≡ output = cc in subst (λ bytes. IsReport none bytes (some status)) got report

-- When the caller is the user or root and the policy enables the target throughout, when the
-- supervision can start a worker and its rounds are calm, and when what arrives in them is what
-- `serve_auth_worker` writes on the request, the daemon answers the login with the very status that
-- the worker's `handle_pam_request` comes to, leaves no worker, counts the attempt, and forgets the
-- user's attempts after a success. The request's uid has 32 bits, its target is known, and 1 to 2000
-- ms are left for the worker.
pub dispatch_request-handle_pam_request :
    (a : Answers) (login : LoginAnswers) (base left : ℕ)
    (max_timeout_ms uid auth_target timeout_ms : ℕ) (username : List ℕ) (peer_uid : ℕ)
    (has_client : Bool) (deadline : ℕ) (state : Supervision)
    → is_authorized peer_uid uid ≡ true
    → IsEnabledThroughout a uid auth_target
    → CanStart a.worker uid (worker_deadline a max_timeout_ms timeout_ms deadline) state
    → AreCalm has_client (worker_deadline a max_timeout_ms timeout_ms deadline) a.rounds
    → IsU32 uid
    → (1 ≤ left) × (left ≤ 2000)
    → is_auth_target auth_target ≡ true
    → serve_auth_worker login base (worker_request uid left auth_target) ≡ ok (received a.rounds)
    → let status =
        (handle_pam_request login uid auth_target left
          (base + left * 1000000)
          default_pam_timeout_ms).0 in
      dispatch_request a max_timeout_ms
        (pam_auth uid auth_target timeout_ms username)
        peer_uid
        has_client
        deadline
        state
      ≡ some (
        encode_daemon_response status [],
        after_status status uid (record {
          limiter = (allow_at state.limiter uid a.worker.attempt_at).1;
          slot = vacant;
        }),
      )
unfolding dispatch_request dispatch_pam_auth login_under attempt_login
dispatch_request-handle_pam_request a login base left max_timeout_ms uid auth_target timeout_ms
      username peer_uid has_client deadline state authorized (start, is_start, enabled, current) can
      calm u range t served =
    let status =
      (handle_pam_request login uid auth_target left (base + left * 1000000)
        default_pam_timeout_ms).0 in
    let report =
      received-IsReport login base uid left auth_target (received a.rounds) u range t served in
    let supervised =
      supervise_auth_worker-report uid has_client
        (worker_deadline a max_timeout_ms timeout_ms deadline) a.worker a.rounds state status
        (can.free, can.reaped, can.early) can.allowed (can.spawns, can.writes, can.nonblocking) calm
        report in
    let requested =
      min (a.attempt_now + min (min timeout_ms max_timeout_ms) default_pam_timeout_ms * 1000000)
        deadline in
    let reserved : ltb requested pam_response_reserve ≡ false =
      le→ltb_false requested pam_response_reserve (omega (arith, can.early)) in
    rw (authorized, is_start, enabled, reserved, current, supervised)
      (after_worker-current uid status
        (record { limiter = (allow_at state.limiter uid a.worker.attempt_at).1; slot = vacant }))
