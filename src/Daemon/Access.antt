-- ===== src/Daemon/Access.antt =====
-- engine/daemon/src/lib.rs: whom `dispatch_request_until_with_client` lets in.
use loofi_face_id.Prelude.{
  ℕ, ◌+◌, ◌-◌, ◌*◌, min, ◌≡◌, refl, sym, ap, ◌∙◌, ◌≢◌, ◌⊎◌, Bool, true, false, not, Option, none,
  some, List, [], arith, if◌then◌else◌, ==_refl,
}
use loofi_face_id.AuthPolicy.Table.{AuthTarget}
use loofi_face_id.AuthPolicy.Files.{AuthPolicySnapshot}
use loofi_face_id.Daemon.Request.{pam_auth, encode_daemon_response, default_pam_timeout_ms}
use loofi_face_id.Daemon.Status.{
  is_authorized, status_success, status_access_denied, status_timeout,
}
use loofi_face_id.Daemon.RateLimiter.{clear_attempts}
use loofi_face_id.Daemon.Supervise.{Supervision, supervise_auth_worker}
use loofi_face_id.Daemon.Reports.{IsGenuine, supervise_auth_worker-IsGenuine}
use loofi_face_id.Daemon.Dispatch.{
  pam_response_reserve, authentication_target, authentication_policy, enables, keep_enabled,
  is_current, Answers, Dispatched, after_worker, attempt_login, login_under, dispatch_pam_auth,
  dispatch_request,
}

-- The instant by which the worker has to be done.
abbrev pub worker_deadline : Answers → ℕ → ℕ → ℕ → ℕ
worker_deadline a max_timeout_ms timeout_ms deadline =
    min (a.attempt_now + min (min timeout_ms max_timeout_ms) default_pam_timeout_ms * 1000000)
      deadline
    - pam_response_reserve

-- The policy file of the start is the one of the end, and it enables the target.
abbrev pub IsEnabledThroughout : Answers → ℕ → ℕ → Type 0
IsEnabledThroughout a uid auth_target =
    (start : AuthPolicySnapshot) × (authentication_policy a.start_files ≡ some start)
    × (enables start uid (authentication_target auth_target) ≡ true)
    × (is_current a.descriptor start (authentication_policy a.end_files) ≡ true)

after_worker-granted :
    (current : Bool) (uid : ℕ) (result : Option (ℕ × Supervision)) (state' : Supervision)
    → after_worker current uid result ≡ some (encode_daemon_response status_success [], state')
    → (before : Supervision) × (result ≡ some (status_success, before))
      × (current ≡ true)
      × (state'.limiter uid ≡ none)
unfolding after_worker encode_daemon_response clear_attempts
after_worker-granted current uid none state' e = absurd (ground arith)
after_worker-granted current uid (some (code, state)) state' e =
    let kept : clear_attempts state.limiter uid ≡ state'.limiter = ground arith in
    let gone : clear_attempts state.limiter uid uid ≡ none = rw (==_refl uid) refl in
    (state, ground arith, ground arith, sym (ap (λ f. f uid) kept) ∙ gone)

-- What stands behind a login: authorization, the policy and the worker; and the attempts that
-- came before it are forgotten.
pub record IsGranted (a : Answers) (max_timeout_ms peer_uid uid auth_target timeout_ms : ℕ)
    (has_client : Bool) (deadline : ℕ) (state' : Supervision) : Type 0 where
  pub authorized : (peer_uid ≡ uid) ⊎ (peer_uid ≡ 0)
  pub enabled : IsEnabledThroughout a uid auth_target
  pub genuine :
      IsGenuine has_client (worker_deadline a max_timeout_ms timeout_ms deadline) none [] a.rounds
  pub cleared : state'.limiter uid ≡ none

either :
    (peer_uid uid : ℕ)
    → not (is_authorized peer_uid uid) ≡ false
    → (peer_uid ≡ uid) ⊎ (peer_uid ≡ 0)
unfolding is_authorized
either peer_uid uid h = ground arith

if_some :
    (b : Bool) (x y : AuthPolicySnapshot)
    → (if b then some x else none) ≡ some y
    → (x ≡ y) × (b ≡ true)
if_some true x y e = (ap (λ o. value_or x o) e, refl)
  where
    value_or : AuthPolicySnapshot → Option AuthPolicySnapshot → AuthPolicySnapshot
    value_or d none = d
    value_or d (some v) = v
if_some false x y e = absurd (ground arith)

keep_enabled-some :
    (o : Option AuthPolicySnapshot) (uid : ℕ) (target : Option AuthTarget)
    (start : AuthPolicySnapshot)
    → keep_enabled o uid target ≡ some start
    → (o ≡ some start) × (enables start uid target ≡ true)
keep_enabled-some none uid target start e = absurd (ground arith)
keep_enabled-some (some snapshot) uid target start e =
    let (same, enabled) = if_some (enables snapshot uid target) snapshot start e in
    (ap some same, rw (← same) enabled)

-- A response with another status is not a success.
unsuccessful :
    (code : ℕ) (state state' : Supervision)
    → code ≢ status_success
    → ◌≢◌ {A = Dispatched}
        (some (encode_daemon_response code [], state))
        (some (encode_daemon_response status_success [], state'))
unfolding encode_daemon_response
unsuccessful code state state' h e = ground arith

else_of : (b : Bool) (x y z : Dispatched) → x ≢ z → (if b then x else y) ≡ z → (b ≡ false) × (y ≡ z)
else_of true x y z h e = absurd (h e)
else_of false x y z h e = (refl, e)

attempt_login-granted :
    (a : Answers) (max_timeout_ms uid timeout_ms : ℕ) (has_client : Bool) (deadline : ℕ)
    (start : AuthPolicySnapshot) (state state' : Supervision)
    → attempt_login a max_timeout_ms uid timeout_ms has_client deadline start state
      ≡ some (encode_daemon_response status_success [], state')
    → IsGenuine has_client (worker_deadline a max_timeout_ms timeout_ms deadline) none [] a.rounds
      × (is_current a.descriptor start (authentication_policy a.end_files) ≡ true)
      × (state'.limiter uid ≡ none)
unfolding attempt_login
attempt_login-granted a max_timeout_ms uid timeout_ms has_client deadline start state state' e =
    let worker =
      supervise_auth_worker uid has_client (worker_deadline a max_timeout_ms timeout_ms deadline)
        a.worker a.rounds state in
    let current = is_current a.descriptor start (authentication_policy a.end_files) in
    let after : after_worker current uid worker
        ≡ some (encode_daemon_response status_success [], state') =
      (else_of _ _ _ _ (unsuccessful status_timeout state state' λ z. ground arith) e).1 in
    let (before, success, is_same, cleared) =
      after_worker-granted current uid worker state' after in
    (
      supervise_auth_worker-IsGenuine uid has_client
          (worker_deadline a max_timeout_ms timeout_ms deadline) a.worker a.rounds state before
          success,
      is_same,
      cleared,
    )

login_under-granted :
    (a : Answers) (max_timeout_ms uid timeout_ms : ℕ) (has_client : Bool) (deadline : ℕ)
    (state state' : Supervision) (policy : Option AuthPolicySnapshot)
    → login_under a max_timeout_ms uid timeout_ms has_client deadline state policy
      ≡ some (encode_daemon_response status_success [], state')
    → (start : AuthPolicySnapshot) × (policy ≡ some start)
      × IsGenuine has_client (worker_deadline a max_timeout_ms timeout_ms deadline) none [] a.rounds
      × (is_current a.descriptor start (authentication_policy a.end_files) ≡ true)
      × (state'.limiter uid ≡ none)
unfolding login_under
login_under-granted a max_timeout_ms uid timeout_ms has_client deadline state state' none e =
    absurd (unsuccessful status_access_denied state state' (λ z. ground arith) e)
login_under-granted a max_timeout_ms uid timeout_ms has_client deadline state state' (some start)
      e =
    let (genuine, current, cleared) =
      attempt_login-granted a max_timeout_ms uid timeout_ms has_client deadline start state state'
        e in
    (start, refl, genuine, current, cleared)

-- A success is the answer to a login request only when the caller is the user or root, the start
-- policy enables the target and is the same file at the end, the worker's report is genuine and
-- in time; the user's earlier attempts are then forgotten.
pub dispatch_request-IsGranted :
    (a : Answers) (max_timeout_ms uid auth_target timeout_ms : ℕ) (username : List ℕ) (peer_uid : ℕ)
    (has_client : Bool) (deadline : ℕ) (state state' : Supervision)
    → dispatch_request a max_timeout_ms
        (pam_auth uid auth_target timeout_ms username)
        peer_uid
        has_client
        deadline
        state
      ≡ some (encode_daemon_response status_success [], state')
    → IsGranted a max_timeout_ms peer_uid uid auth_target timeout_ms has_client deadline state'
unfolding dispatch_request dispatch_pam_auth is_authorized
dispatch_request-IsGranted a max_timeout_ms uid auth_target timeout_ms username peer_uid has_client
      deadline state state' e =
    let policy = authentication_policy a.start_files in
    let target = authentication_target auth_target in
    let (authorized, login) =
      else_of _ _ _ _ (unsuccessful status_access_denied state state' λ z. ground arith) e in
    let (start, kept, genuine, current, cleared) =
      login_under-granted a max_timeout_ms uid timeout_ms has_client deadline state state'
        (keep_enabled policy uid target) login in
    let (is_start, enabled) = keep_enabled-some policy uid target start kept in
    record {
      authorized = either peer_uid uid authorized;
      enabled = (start, is_start, enabled, current);
      genuine = genuine;
      cleared = cleared;
    }
