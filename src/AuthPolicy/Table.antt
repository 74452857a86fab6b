-- ===== src/AuthPolicy/Table.antt =====
-- engine/templates/src/auth_policy.rs: `AuthTarget`, `AuthPolicyMode`, `AuthPolicy` and the
-- operations on its table. A uid is a number below 2 ^ 32.
use loofi_face_id.Prelude.{
  ℕ, ◌≡◌, ◌<◌, Bool, true, false, List, [], ◌∷◌, Option, none, some, Outcome, ok, err, is_empty,
  IsU32, ascii, bytes_eq, if◌then◌else◌, ◌==◌,
}
use loofi_face_id.BTreeMap.{get, insert, remove, IsSorted}

pub data AuthTarget : Type 0 where
  sddm plasma_lock : AuthTarget

pub data AuthPolicyMode : Type 0 where
  off on_activity manual : AuthPolicyMode

pub data AuthPolicyError : Type 0 where
  invalid unsafe_filesystem io : AuthPolicyError

-- `AuthTarget::key`
unfoldable pub key : AuthTarget → List ℕ
key sddm = ascii "sddm"
key plasma_lock = ascii "plasma-lock"

unfoldable pub pam_service : AuthTarget → List ℕ
pam_service sddm = ascii "sddm-kfaceauth"
pam_service plasma_lock = ascii "kde-kfaceauth"

-- `AuthTarget::parse`
unfoldable pub parse_target : List ℕ → Outcome AuthPolicyError AuthTarget
parse_target value =
    if bytes_eq value (ascii "sddm")
    then ok sddm
    else if bytes_eq value (ascii "plasma-lock")
    then ok plasma_lock
    else err invalid

-- `AuthPolicyMode::as_str`
unfoldable pub as_str : AuthPolicyMode → List ℕ
as_str off = ascii "off"
as_str on_activity = ascii "on-activity"
as_str manual = ascii "manual"

-- `AuthPolicyMode::parse`
unfoldable pub parse_mode : List ℕ → Outcome AuthPolicyError AuthPolicyMode
parse_mode value =
    if bytes_eq value (ascii "off")
    then ok off
    else if bytes_eq value (ascii "on-activity")
    then ok on_activity
    else if bytes_eq value (ascii "manual")
    then ok manual
    else err invalid

-- The derived order of the targets: `Sddm` comes first.
abbrev pub target_rank : AuthTarget → ℕ
target_rank sddm = 0
target_rank plasma_lock = 1

abbrev pub uid_rank : ℕ → ℕ
uid_rank uid = uid

abbrev pub is_off : AuthPolicyMode → Bool
is_off off = true
is_off on_activity = false
is_off manual = false

abbrev pub Targets : Type 0
Targets = List (AuthTarget × AuthPolicyMode)

abbrev pub Users : Type 0
Users = List (ℕ × Targets)

pub record AuthPolicy : Type 0 where
  pub users : Users

-- `AuthPolicy::default`
abbrev pub all_off : AuthPolicy
all_off = record { users = [] }

-- `targets.get(&target).copied().unwrap_or(Off)`
abbrev pub mode_in : Option Targets → AuthTarget → AuthPolicyMode
mode_in none target = off
mode_in (some targets) target = elim (get target_rank target targets) [ none ↦ off | some m ↦ m ]

unfoldable pub mode_for : AuthPolicy → ℕ → AuthTarget → AuthPolicyMode
mode_for policy uid target = mode_in (get uid_rank uid policy.users) target

-- The branch of `set_mode` for `Off`: an empty target table takes its user with it.
unfoldable pub turn_off : Users → ℕ → AuthTarget → Users
turn_off users uid target = elim (get uid_rank uid users) [
  | none ↦ users
  | some targets ↦
      let targets' = remove target_rank target targets in
      if is_empty targets' then remove uid_rank uid users else insert uid_rank uid targets' users
]

abbrev pub or_default : Option Targets → Targets
or_default none = []
or_default (some targets) = targets

-- The other branch: `users.entry(uid).or_default().insert(target, mode)`.
unfoldable pub turn_on : Users → ℕ → AuthTarget → AuthPolicyMode → Users
turn_on users uid target mode =
    insert uid_rank uid (insert target_rank target mode (or_default (get uid_rank uid users))) users

-- The result and the policy that is left.
unfoldable pub set_mode :
    AuthPolicy → ℕ → AuthTarget → AuthPolicyMode → Outcome AuthPolicyError (Unit {0}) × AuthPolicy
unfolding turn_off turn_on
set_mode policy uid target mode =
    if uid == 0
    then (err invalid, policy)
    else if is_off mode
    then (ok tt, record { users = turn_off policy.users uid target })
    else (ok tt, record { users = turn_on policy.users uid target mode })

-- No target is stored as `Off`.
abbrev pub IsEnabled : Targets → Type 0
IsEnabled [] = Unit {0}
IsEnabled ((t, m) ∷ ts) = (is_off m ≡ false) × IsEnabled ts

-- A target table as the parser accepts it.
pub record IsTargets (ts : Targets) : Type 0 where
  pub sorted : IsSorted target_rank ts
  pub enabled : IsEnabled ts

-- Each user has a uid of 32 bits other than root's, and a table of targets.
abbrev pub AreUsers : Users → Type 0
AreUsers [] = Unit {0}
AreUsers ((uid, ts) ∷ us) = (0 < uid) × IsU32 uid × IsTargets ts × AreUsers us

-- A policy as the parser accepts it.
pub record IsPolicy (p : AuthPolicy) : Type 0 where
  pub sorted : IsSorted uid_rank p.users
  pub users : AreUsers p.users
