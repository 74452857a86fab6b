-- ===== src/AuthPolicy/Modes.antt =====
-- engine/templates/src/auth_policy.rs: `set_mode` against `mode_for`, and the invariant.
use loofi_face_id.Prelude.{
  ℕ, ◌≡◌, ◌<◌, refl, arith, true, false, ◌&&◌, [], ◌∷◌, Option, none, some, ok, err, is_empty,
  IsU32, if◌then◌else◌, ◌==◌, ==_iff, Bool-cases, Option-cases, inl, inr, zero, suc, ne→==_false,
}
use loofi_face_id.BTreeMap.{get, insert, remove, IsSorted}
use loofi_face_id.BTreeMap.Laws.{get-insert, get-remove, insert-IsSorted, remove-IsSorted}
use loofi_face_id.AuthPolicy.Table.{
  AuthTarget, AuthPolicyMode, AuthPolicy, invalid, off, on_activity, manual, target_rank, uid_rank,
  is_off, Targets, Users, mode_in, mode_for, turn_off, turn_on, set_mode, or_default, IsEnabled,
  IsTargets, AreUsers, IsPolicy,
}

remove-IsEnabled :
    (t : AuthTarget) (ts : Targets) → IsEnabled ts → IsEnabled (remove target_rank t ts)
remove-IsEnabled t [] h = tt
remove-IsEnabled t ((s, m) ∷ ts) h = ground (arith, remove-IsEnabled t ts h.1)

pub insert-IsEnabled :
    (t : AuthTarget) (m : AuthPolicyMode) (ts : Targets)
    → is_off m ≡ false
    → IsEnabled ts
    → IsEnabled (insert target_rank t m ts)
insert-IsEnabled t m [] e h = (e, tt)
insert-IsEnabled t m ((s, n) ∷ ts) e h = ground (arith, insert-IsEnabled t m ts e h.1)

remove-AreUsers : (uid : ℕ) (us : Users) → AreUsers us → AreUsers (remove uid_rank uid us)
remove-AreUsers uid [] h = tt
remove-AreUsers uid ((v, ts) ∷ us) h = ground (arith, remove-AreUsers uid us h.3)

pub insert-AreUsers :
    (uid : ℕ) (ts : Targets) (us : Users)
    → 0 < uid
    → IsU32 uid
    → IsTargets ts
    → AreUsers us
    → AreUsers (insert uid_rank uid ts us)
insert-AreUsers uid ts [] p q w h = (p, q, w, tt)
insert-AreUsers uid ts ((v, ss) ∷ us) p q w h = ground (arith, insert-AreUsers uid ts us p q w h.3)

or_default-IsTargets :
    (uid : ℕ) (us : Users) → AreUsers us → IsTargets (or_default (get uid_rank uid us))
or_default-IsTargets uid [] h = record { sorted = tt; enabled = tt }
or_default-IsTargets uid ((v, ts) ∷ us) h = ground (arith, or_default-IsTargets uid us h.3)

get-IsTargets :
    (uid : ℕ) (us : Users) (ts : Targets)
    → AreUsers us
    → get uid_rank uid us ≡ some ts
    → IsTargets ts
get-IsTargets uid [] ts h e = cc
get-IsTargets uid ((v, ss) ∷ us) ts h e = ground (arith, get-IsTargets uid us ts h.3)

-- Lookup in an optional target table after a write or a removal.
mode_in-insert :
    (o : Option Targets) (t s : AuthTarget) (m : AuthPolicyMode)
    → mode_in (some (insert target_rank t m (or_default o))) s
      ≡ (if target_rank t == target_rank s then m else mode_in o s)
mode_in-insert none t s m = ground (arith, get-insert target_rank t s m [])
mode_in-insert (some ts) t s m = ground (arith, get-insert target_rank t s m ts)

mode_in-remove :
    (ts : Targets) (t s : AuthTarget)
    → IsSorted target_rank ts
    → mode_in (some (remove target_rank t ts)) s
      ≡ (if target_rank t == target_rank s then off else mode_in (some ts) s)
mode_in-remove ts t s h = ground (arith, get-remove target_rank t s ts h)

mode_in_empty : (ts : Targets) (s : AuthTarget) → is_empty ts ≡ true → mode_in (some ts) s ≡ off
mode_in_empty [] s h = refl
mode_in_empty (x ∷ ts) s h = cc

turn_on_lem :
    (us : Users) (uid u : ℕ) (t s : AuthTarget) (m : AuthPolicyMode)
    → mode_in (get uid_rank u (turn_on us uid t m)) s ≡ (
        if (uid == u) && (target_rank t == target_rank s) then m else mode_in (get uid_rank u us) s)
unfolding turn_on
turn_on_lem us uid u t s m =
    let ts = insert target_rank t m (or_default (get uid_rank uid us)) in
    rw (get-insert uid_rank uid u ts us) (elim (Bool-cases (uid == u)) [
      | inl e ↦ rw e (rw ((==_iff uid u).0 e) (mode_in-insert (get uid_rank u us) t s m))
      | inr e ↦ rw e refl
    ])

turn_off_absent :
    (us : Users) (uid u : ℕ) (t s : AuthTarget)
    → get uid_rank uid us ≡ none
    → mode_in (get uid_rank u us) s ≡ (
        if (uid == u) && (target_rank t == target_rank s)
        then off
        else mode_in (get uid_rank u us) s)
turn_off_absent us uid u t s e = elim (Bool-cases (uid == u)) [
  | inl same ↦ rw same (rw (← (==_iff uid u).0 same, e) (ground arith))
  | inr other ↦ rw other refl
]

turn_off_present :
    (us : Users) (uid u : ℕ) (t s : AuthTarget) (ts : Targets)
    → IsSorted uid_rank us
    → IsSorted target_rank ts
    → get uid_rank uid us ≡ some ts
    → mode_in
        (get uid_rank u (
          if is_empty (remove target_rank t ts)
          then remove uid_rank uid us
          else insert uid_rank uid (remove target_rank t ts) us))
        s
      ≡ (if (uid == u) && (target_rank t == target_rank s)
          then off
          else mode_in (get uid_rank u us) s)
turn_off_present us uid u t s ts o k e = ground (
  arith,
  get-remove uid_rank uid u us o,
  get-insert uid_rank uid u (remove target_rank t ts) us,
  mode_in-remove ts t s k,
  mode_in_empty (remove target_rank t ts) s,
  (==_iff uid u).0,
)

turn_off_lem :
    (us : Users) (uid u : ℕ) (t s : AuthTarget)
    → IsSorted uid_rank us
    → AreUsers us
    → mode_in (get uid_rank u (turn_off us uid t)) s ≡ (
        if (uid == u) && (target_rank t == target_rank s)
        then off
        else mode_in (get uid_rank u us) s)
unfolding turn_off
turn_off_lem us uid u t s o h = elim (Option-cases (get uid_rank uid us)) [
  | inl e ↦ rw (e, turn_off) (turn_off_absent us uid u t s e)
  | inr (ts, e) ↦
      rw (e, turn_off) (turn_off_present us uid u t s ts o (get-IsTargets uid us ts h e).sorted e)
]

-- Writing a mode changes that mode of that user and nothing else, whatever the mode; a policy
-- satisfies its invariant before, and uid 0 is refused.
pub mode_for-set_mode :
    (p : AuthPolicy) (uid u : ℕ) (t s : AuthTarget) (m : AuthPolicyMode)
    → IsPolicy p
    → 0 < uid
    → mode_for (set_mode p uid t m).1 u s
      ≡ (if (uid == u) && (target_rank t == target_rank s) then m else mode_for p u s)
unfolding mode_for set_mode
mode_for-set_mode p uid u t s off h n =
    rw (ne→==_false uid 0 (omega arith)) (turn_off_lem p.users uid u t s h.sorted h.users)
mode_for-set_mode p uid u t s on_activity h n =
    rw (ne→==_false uid 0 (omega arith)) (turn_on_lem p.users uid u t s on_activity)
mode_for-set_mode p uid u t s manual h n =
    rw (ne→==_false uid 0 (omega arith)) (turn_on_lem p.users uid u t s manual)

turn_off-IsPolicy :
    (p : AuthPolicy) (uid : ℕ) (t : AuthTarget)
    → IsPolicy p
    → 0 < uid
    → IsU32 uid
    → IsPolicy (record { users = turn_off p.users uid t })
unfolding turn_off
turn_off-IsPolicy p uid t h n w = elim (Option-cases (get uid_rank uid p.users)) [
  | inl e ↦ rw (e, turn_off) h
  | inr (ts, e) ↦
      let k = get-IsTargets uid p.users ts h.users e in
      rw (e, turn_off)
        (ground (
          arith,
          h.sorted,
          remove-IsSorted uid_rank uid p.users h.sorted,
          remove-AreUsers uid p.users h.users,
          insert-IsSorted uid_rank uid (remove target_rank t ts) p.users h.sorted,
          insert-AreUsers uid (remove target_rank t ts) p.users n w
              (record {
                sorted = remove-IsSorted target_rank t ts k.sorted;
                enabled = remove-IsEnabled t ts k.enabled;
              })
              h.users,
        ))
]

turn_on-IsPolicy :
    (p : AuthPolicy) (uid : ℕ) (t : AuthTarget) (m : AuthPolicyMode)
    → IsPolicy p
    → 0 < uid
    → IsU32 uid
    → is_off m ≡ false
    → IsPolicy (record { users = turn_on p.users uid t m })
unfolding turn_on
turn_on-IsPolicy p uid t m h n w e =
    let k = or_default-IsTargets uid p.users h.users in
    record {
      sorted = insert-IsSorted uid_rank uid _ p.users h.sorted;
      users =
          insert-AreUsers uid _ p.users n w
            (record {
              sorted = insert-IsSorted target_rank t m _ k.sorted;
              enabled = insert-IsEnabled t m _ e k.enabled;
            })
            h.users;
    }

-- Every call of `set_mode` with a uid of 32 bits keeps the invariant: no user 0, no stored `Off`,
-- users and targets in order. The refused call for uid 0 leaves the policy as it was.
pub set_mode-IsPolicy :
    (p : AuthPolicy) (uid : ℕ) (t : AuthTarget) (m : AuthPolicyMode)
    → IsPolicy p
    → IsU32 uid
    → IsPolicy (set_mode p uid t m).1
      × ((set_mode p uid t m).0 ≡ (if uid == 0 then err invalid else ok tt))
      × (uid ≡ 0 → (set_mode p uid t m).1 ≡ p)
unfolding set_mode
set_mode-IsPolicy p zero t m h w = (h, refl, λ e. refl)
set_mode-IsPolicy p (suc n) t off h w =
    rw (ne→==_false (suc n) 0 (omega arith))
      (turn_off-IsPolicy p (suc n) t h (omega arith) w, refl, λ e. absurd (omega arith))
set_mode-IsPolicy p (suc n) t on_activity h w = rw (ne→==_false (suc n) 0 (omega arith)) (
  turn_on-IsPolicy p (suc n) t on_activity h (omega arith) w refl,
  refl,
  λ e. absurd (omega arith),
)
set_mode-IsPolicy p (suc n) t manual h w =
    rw (ne→==_false (suc n) 0 (omega arith))
      (turn_on-IsPolicy p (suc n) t manual h (omega arith) w refl, refl, λ e. absurd (omega arith))
