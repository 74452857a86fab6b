-- ===== src/Daemon/Denial.antt =====
-- engine/daemon/src/lib.rs: whom `dispatch_request_until_with_client` keeps out.
use loofi_face_id.Prelude.{
  ℕ, ◌≡◌, refl, ◌≢◌, inl, inr, Bool, false, Option, none, some, List, [], ◌∷◌, arith, ne→==_false,
  Bool-cases, Outcome, ok, err, panic, stuck, Ensures, Ensures->>=, Ensures-guard, Ensures-weaken,
}
use loofi_face_id.BTreeMap.{get}
use loofi_face_id.AuthPolicy.Table.{
  AuthTarget, AuthPolicy, AuthPolicyError, mode_for, off, Users, uid_rank, AreUsers, IsPolicy,
  unsafe_filesystem, io,
}
use loofi_face_id.AuthPolicy.Files.{
  SystemPath, PolicyDirectory, AuthPolicySnapshot, snapshot_system, snapshot_from_directory,
  open_policy_directory, validate_root_directory,
}
use loofi_face_id.AuthPolicy.Storing.{IsVouched, snapshot_from_directory-Ensures}
use loofi_face_id.Daemon.Request.{
  DaemonRequest, pam_auth, status, freshness, encode_daemon_response,
}
use loofi_face_id.Daemon.Status.{is_authorized, status_access_denied}
use loofi_face_id.Daemon.Supervise.{Supervision}
use loofi_face_id.Daemon.Dispatch.{
  authentication_target, ok_value, PolicyFiles, authentication_policy, keep_enabled, Answers,
  login_under, dispatch_pam_auth, freshness_response, dispatch_request,
}

-- The answer to a caller that may not ask.
abbrev pub denial : DaemonRequest → List ℕ
denial (pam_auth uid auth_target timeout_ms username) = 0 ∷ 2 ∷ 2 ∷ 0 ∷ []
denial (status uid) = 0 ∷ 2 ∷ 2 ∷ 0 ∷ []
denial (freshness uid local_digest) = 0 ∷ 3 ∷ 2 ∷ 0 ∷ 0 ∷ []

-- Root may ask for another user, but not about the freshness of a profile.
abbrev pub IsOutsider : ℕ → DaemonRequest → Type 0
IsOutsider peer_uid (freshness uid local_digest) = peer_uid ≢ uid
IsOutsider peer_uid (pam_auth uid auth_target timeout_ms username) =
    (peer_uid ≢ uid) × (peer_uid ≢ 0)
IsOutsider peer_uid (status uid) = (peer_uid ≢ uid) × (peer_uid ≢ 0)

-- A request about another user is denied and changes nothing, whatever else the system answers:
-- no worker is started and no attempt is counted. Only root may make one, and even root not one
-- about the freshness of a profile.
pub dispatch_request-denial :
    (a : Answers) (max_timeout_ms : ℕ) (request : DaemonRequest) (peer_uid : ℕ) (has_client : Bool)
    (deadline : ℕ) (state : Supervision)
    → IsOutsider peer_uid request
    → dispatch_request a max_timeout_ms request peer_uid has_client deadline state
      ≡ some (denial request, state)
unfolding dispatch_request is_authorized freshness_response encode_daemon_response
dispatch_request-denial a max_timeout_ms (freshness uid local_digest) peer_uid has_client deadline
      state h =
    rw (ne→==_false peer_uid uid h) refl
dispatch_request-denial a max_timeout_ms (status uid) peer_uid has_client deadline state (h, r) =
    rw (ne→==_false peer_uid uid h, ne→==_false peer_uid 0 r) refl
dispatch_request-denial a max_timeout_ms (pam_auth uid auth_target timeout_ms username) peer_uid
      has_client deadline state (h, r) =
    rw (ne→==_false peer_uid uid h, ne→==_false peer_uid 0 r) refl

-- No policy that satisfies its invariant has an entry for root.
get-AreUsers : (users : Users) → AreUsers users → get uid_rank 0 users ≡ none
get-AreUsers [] h = refl
get-AreUsers ((uid, targets) ∷ users) h = ground (arith, get-AreUsers users h.3, h)

mode_for-root :
    (policy : AuthPolicy) (target : AuthTarget) → IsPolicy policy → mode_for policy 0 target ≡ off
unfolding mode_for
mode_for-root policy target h = rw (get-AreUsers policy.users h.users) refl

snapshot_system-Ensures :
    (path : SystemPath) (d : PolicyDirectory)
    → Ensures (λ s. IsPolicy s.policy) (snapshot_system path d)
unfolding snapshot_system
snapshot_system-Ensures path d =
    let Q : AuthPolicySnapshot → Type 0 = λ s. IsPolicy s.policy in
    Ensures-guard Q path.etc_opens unsafe_filesystem _ λ _.
      Ensures->>= (λ _. Unit {0}) Q (validate_root_directory path.etc false) _ (ground arith)
        λ _ _.
          Ensures->>= (λ _. Unit {0}) Q (open_policy_directory path) _ (ground arith)
            λ present _. Ensures-guard Q present io _ λ _.
              Ensures-weaken (IsVouched d) Q (snapshot_from_directory d)
                (snapshot_from_directory-Ensures d) λ s h. h.policy

ok_value-Ensures :
    (o : Outcome AuthPolicyError AuthPolicySnapshot) (snapshot : AuthPolicySnapshot)
    → Ensures (λ s. IsPolicy s.policy) o
    → ok_value o ≡ some snapshot
    → IsPolicy snapshot.policy
ok_value-Ensures (ok s) snapshot h e = let same : s ≡ snapshot = cc in rw (← same) h
ok_value-Ensures (err why) snapshot h e = absurd cc
ok_value-Ensures panic snapshot h e = absurd cc
ok_value-Ensures stuck snapshot h e = absurd cc

authentication_policy-IsPolicy :
    (files : PolicyFiles) (snapshot : AuthPolicySnapshot)
    → authentication_policy files ≡ some snapshot
    → IsPolicy snapshot.policy
unfolding authentication_policy
authentication_policy-IsPolicy files snapshot e =
    ok_value-Ensures (snapshot_system files.path files.directory) snapshot
      (snapshot_system-Ensures files.path files.directory) e

keep_enabled-root :
    (policy : Option AuthPolicySnapshot) (target : Option AuthTarget)
    → ((snapshot : AuthPolicySnapshot) → policy ≡ some snapshot → IsPolicy snapshot.policy)
    → keep_enabled policy 0 target ≡ none
keep_enabled-root none target h = refl
keep_enabled-root (some snapshot) none h = refl
keep_enabled-root (some snapshot) (some target) h =
    rw (mode_for-root snapshot.policy target (h snapshot refl)) refl

-- No request logs in root by face, whoever asks and whatever the policy file and the worker say:
-- the answer is a denial, no worker is started and no attempt is counted.
pub dispatch_request-root :
    (a : Answers) (max_timeout_ms auth_target timeout_ms : ℕ) (username : List ℕ) (peer_uid : ℕ)
    (has_client : Bool) (deadline : ℕ) (state : Supervision)
    → dispatch_request a max_timeout_ms
        (pam_auth 0 auth_target timeout_ms username)
        peer_uid
        has_client
        deadline
        state
      ≡ some (encode_daemon_response status_access_denied [], state)
unfolding dispatch_request dispatch_pam_auth login_under
dispatch_request-root a max_timeout_ms auth_target timeout_ms username peer_uid has_client deadline
      state =
    let kept =
      keep_enabled-root (authentication_policy a.start_files) (authentication_target auth_target)
        (authentication_policy-IsPolicy a.start_files) in
    elim (Bool-cases (is_authorized peer_uid 0)) [ inl t ↦ rw (t, kept) refl | inr t ↦ rw t refl ]
