-- ===== src/Daemon/Dispatch.antt =====
-- engine/daemon/src/lib.rs: `dispatch_request_until_with_client` and what it calls on the policy.
-- The answers of the policy files, the clock, the key store, the vault and the worker are values.
use loofi_face_id.Prelude.{
  ℕ, ◌+◌, ◌-◌, ◌*◌, Bool, true, false, not, ◌&&◌, List, [], ◌∷◌, Option, none, some, Outcome, ok,
  err, panic, stuck, min, ltb, ◌==◌, if◌then◌else◌,
}
use loofi_face_id.AuthPolicy.Table.{AuthTarget, sddm, plasma_lock, mode_for, is_off}
use loofi_face_id.AuthPolicy.Files.{
  Metadata, SystemPath, PolicyDirectory, AuthPolicySnapshot, snapshot_system, same_file_as,
}
use loofi_face_id.Daemon.Request.{
  DaemonRequest, pam_auth, status, freshness, encode_daemon_response, default_pam_timeout_ms,
}
use loofi_face_id.Daemon.Status.{
  is_authorized, is_expired, status_success, status_access_denied, status_no_profile,
  status_timeout, status_internal_error,
}
use loofi_face_id.Daemon.RateLimiter.{clear_attempts}
use loofi_face_id.Daemon.Supervise.{Start, Round, Supervision, supervise_auth_worker}

-- 100 milliseconds
abbrev pub pam_response_reserve : ℕ
pam_response_reserve = 100000000

unfoldable pub authentication_target : ℕ → Option AuthTarget
authentication_target auth_target =
    if auth_target == 1 then some sddm else if auth_target == 2 then some plasma_lock else none

-- `.ok()`
abbrev pub ok_value {ℓ κ} : {E : Type ℓ} {A : Type κ} → Outcome E A → Option A
ok_value (ok value) = some value
ok_value (err why) = none
ok_value panic = none
ok_value stuck = none

-- The answers to one `AuthPolicySnapshot::load_system`.
pub record PolicyFiles : Type 0 where
  pub path : SystemPath
  pub directory : PolicyDirectory

unfoldable pub authentication_policy : PolicyFiles → Option AuthPolicySnapshot
unfolding snapshot_system
authentication_policy files = ok_value (snapshot_system files.path files.directory)

-- `policy.mode_for(uid, target) != Off`, for the target of the request.
abbrev pub enables : AuthPolicySnapshot → ℕ → Option AuthTarget → Bool
enables snapshot uid none = false
enables snapshot uid (some target) = not (is_off (mode_for snapshot.policy uid target))

-- `filter`
abbrev pub keep_enabled :
    Option AuthPolicySnapshot → ℕ → Option AuthTarget → Option AuthPolicySnapshot
keep_enabled none uid target = none
keep_enabled (some snapshot) uid target =
    if enables snapshot uid target then some snapshot else none

-- `is_some_and(|current| start_policy.is_current(&current))`
abbrev pub is_current : Option Metadata → AuthPolicySnapshot → Option AuthPolicySnapshot → Bool
is_current descriptor start none = false
is_current descriptor start (some current) = same_file_as descriptor start current

-- `VaultStatus`, as far as the daemon tells its cases apart.
pub data VaultStatus : Type 0 where
  ready : (enrolled : Bool) (sample_count : ℕ) → VaultStatus
  absent other : VaultStatus

pub record Answers : Type 0 where
  pub now : ℕ
  -- `profile_freshness`, as its byte.
  pub profile_freshness : ℕ
  pub start_files : PolicyFiles
  pub attempt_now : ℕ
  pub worker : Start
  pub rounds : List Round
  -- The start policy's descriptor, after the worker.
  pub descriptor : Option Metadata
  pub end_files : PolicyFiles
  pub key_loads : Bool
  pub vault_opens : Bool
  pub vault : VaultStatus

-- A response, and the state that is left.
abbrev pub Dispatched : Type 0
Dispatched = Option (List ℕ × Supervision)

-- What follows the worker, whether the policy is still the current one or not.
unfoldable pub after_worker : Bool → ℕ → Option (ℕ × Supervision) → Dispatched
unfolding clear_attempts
after_worker current uid none = none
after_worker current uid (some (code, state)) =
    if code == status_success && not current
    then some (encode_daemon_response status_access_denied [], state)
    else if code == status_success
    then some (
      encode_daemon_response code [],
      record state { limiter = clear_attempts state.limiter uid },
    )
    else some (encode_daemon_response code [], state)

-- The attempt, under a policy that enables it.
unfoldable pub attempt_login :
    Answers → ℕ → ℕ → ℕ → Bool → ℕ → AuthPolicySnapshot → Supervision → Dispatched
unfolding after_worker authentication_policy same_file_as
attempt_login a max_timeout_ms uid timeout_ms has_client deadline start state =
    let timeout = min (min timeout_ms max_timeout_ms) default_pam_timeout_ms in
    let requested = min (a.attempt_now + timeout * 1000000) deadline in
    if ltb requested pam_response_reserve
    then some (encode_daemon_response status_timeout [], state)
    else after_worker (is_current a.descriptor start (authentication_policy a.end_files)) uid (
        supervise_auth_worker uid has_client (requested - pam_response_reserve) a.worker a.rounds
          state)

-- `let Some(start_policy) = .. else { .. }`
unfoldable pub login_under :
    Answers → ℕ → ℕ → ℕ → Bool → ℕ → Supervision → Option AuthPolicySnapshot → Dispatched
unfolding attempt_login
login_under a max_timeout_ms uid timeout_ms has_client deadline state none =
    some (encode_daemon_response status_access_denied [], state)
login_under a max_timeout_ms uid timeout_ms has_client deadline state (some start) =
    attempt_login a max_timeout_ms uid timeout_ms has_client deadline start state

-- The arm for `PamAuth`.
unfoldable pub dispatch_pam_auth : Answers → ℕ → ℕ → ℕ → ℕ → Bool → ℕ → Supervision → Dispatched
unfolding authentication_policy authentication_target login_under
dispatch_pam_auth a max_timeout_ms uid auth_target timeout_ms has_client deadline state =
    login_under a max_timeout_ms uid timeout_ms has_client deadline state
      (keep_enabled (authentication_policy a.start_files) uid (authentication_target auth_target))

abbrev pub bool_byte : Bool → ℕ
bool_byte true = 1
bool_byte false = 0

-- The arm for `Status`.
unfoldable pub status_response : Answers → List ℕ
status_response a =
    if not a.key_loads
    then encode_daemon_response status_internal_error []
    else if not a.vault_opens
    then encode_daemon_response status_internal_error []
    else (elim a.vault [
      | ready enrolled sample_count ↦
          encode_daemon_response status_success (bool_byte enrolled ∷ sample_count ∷ [])
      | absent ↦ encode_daemon_response status_success (0 ∷ 0 ∷ [])
      | other ↦ encode_daemon_response status_no_profile (0 ∷ 0 ∷ [])
    ])

-- The early return for `Freshness`.
unfoldable pub freshness_response : Answers → ℕ → ℕ → ℕ → List ℕ
unfolding is_expired
freshness_response a peer_uid uid deadline =
    let known = peer_uid == uid && not (is_expired deadline a.now) in
    0
    ∷ 3
    ∷ (if peer_uid == uid then status_success else status_access_denied)
    ∷ 0
    ∷ (if known then a.profile_freshness else 0)
    ∷ []

unfoldable pub dispatch_request :
    Answers → ℕ → DaemonRequest → ℕ → Bool → ℕ → Supervision → Dispatched
unfolding is_authorized dispatch_pam_auth status_response freshness_response
dispatch_request a max_timeout_ms (freshness uid local_digest) peer_uid has_client deadline state =
    some (freshness_response a peer_uid uid deadline, state)
dispatch_request a max_timeout_ms (status uid) peer_uid has_client deadline state =
    if not (is_authorized peer_uid uid)
    then some (encode_daemon_response status_access_denied [], state)
    else some (status_response a, state)
dispatch_request a max_timeout_ms (pam_auth uid auth_target timeout_ms username) peer_uid has_client
      deadline state =
    if not (is_authorized peer_uid uid)
    then some (encode_daemon_response status_access_denied [], state)
    else dispatch_pam_auth a max_timeout_ms uid auth_target timeout_ms has_client deadline state
