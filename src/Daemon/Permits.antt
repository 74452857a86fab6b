-- ===== src/Daemon/Permits.antt =====
-- engine/daemon/src/lib.rs: the map of `IngressState` against the permits that are alive.
use loofi_face_id.Prelude.{
  ℕ, zero, suc, ◌+◌, ◌-◌, ◌≤◌, ◌<◌, ◌≡◌, refl, sym, inl, inr, some, List, [], ◌∷◌, arith, ◌==◌,
  if◌then◌else◌, Option-cases, length, ok,
}
use loofi_face_id.BTreeMap.{get, insert, remove, IsSorted}
use loofi_face_id.BTreeMap.Laws.{
  get-insert, get-remove, insert-IsSorted, remove-IsSorted, get_above, IsAbove-of_lt,
}
use loofi_face_id.Daemon.Ingress.{
  ActiveByUid, by_uid, total_active, count_or_default, try_acquire, drop_permit, store_count,
}

-- How many of the permits are for `uid`.
unfoldable pub permits_of : ℕ → List ℕ → ℕ
permits_of uid [] = 0
permits_of uid (p ∷ permits) =
    if p == uid then suc (permits_of uid permits) else permits_of uid permits

-- The permits without the first one for `uid`.
unfoldable pub without : ℕ → List ℕ → List ℕ
without uid [] = []
without uid (p ∷ permits) = if p == uid then permits else p ∷ without uid permits

-- Each entry counts at least one connection.
abbrev pub ArePositive : ActiveByUid → Type 0
ArePositive [] = Unit {0}
ArePositive ((uid, count) ∷ active) = (0 < count) × ArePositive active

-- The map counts the permits.
pub record Counts (active : ActiveByUid) (permits : List ℕ) : Type 0 where
  pub sorted : IsSorted by_uid active
  pub positive : ArePositive active
  pub each : (uid : ℕ) → count_or_default (get by_uid uid active) ≡ permits_of uid permits
  pub total : total_active active ≡ length permits

pub total_active-insert :
    (uid n : ℕ) (active : ActiveByUid)
    → IsSorted by_uid active
    → total_active (insert by_uid uid n active) + count_or_default (get by_uid uid active)
      ≡ total_active active + n
unfolding total_active
total_active-insert uid n [] h = omega arith
total_active-insert uid n ((j, c) ∷ active) h = ground (
  arith,
  total_active-insert uid n active h.1,
  λ (e : uid < j). get_above by_uid uid active (IsAbove-of_lt by_uid uid j active e h.0),
)

pub total_active-remove :
    (uid : ℕ) (active : ActiveByUid)
    → total_active (remove by_uid uid active) + count_or_default (get by_uid uid active)
      ≡ total_active active
unfolding total_active
total_active-remove uid [] = omega arith
total_active-remove uid ((j, c) ∷ active) = ground (arith, total_active-remove uid active)

pub insert-ArePositive :
    (uid n : ℕ) (active : ActiveByUid)
    → 0 < n
    → ArePositive active
    → ArePositive (insert by_uid uid n active)
insert-ArePositive uid n [] h p = (h, tt)
insert-ArePositive uid n ((j, c) ∷ active) h p =
    ground (arith, insert-ArePositive uid n active h p.1)

pub remove-ArePositive :
    (uid : ℕ) (active : ActiveByUid) → ArePositive active → ArePositive (remove by_uid uid active)
remove-ArePositive uid [] p = tt
remove-ArePositive uid ((j, c) ∷ active) p = ground (arith, remove-ArePositive uid active p.1)

pub get-ArePositive :
    (uid : ℕ) (active : ActiveByUid) → get by_uid uid active ≡ some 0 → ArePositive active → ⊥
get-ArePositive uid [] e p = cc
get-ArePositive uid ((j, c) ∷ active) e p = ground (arith, get-ArePositive uid active, p)

pub permits_of-without :
    (uid other : ℕ) (permits : List ℕ)
    → permits_of other (without uid permits)
      ≡ (if uid == other then permits_of other permits - 1 else permits_of other permits)
unfolding permits_of without
permits_of-without uid other [] = ground arith
permits_of-without uid other (p ∷ permits) = ground (arith, permits_of-without uid other permits)

pub length-without :
    (uid : ℕ) (permits : List ℕ)
    → 1 ≤ permits_of uid permits
    → length (without uid permits) + 1 ≡ length permits
unfolding permits_of without
length-without uid [] h = absurd (omega arith)
length-without uid (p ∷ permits) h = ground (arith, length-without uid permits)

-- Permits in which `uid` has `n` and everyone else what they had.
pub record HasNow (uid n : ℕ) (permits permits' : List ℕ) : Type 0 where
  each :
      (other : ℕ)
      → permits_of other permits' ≡ (if uid == other then n else permits_of other permits)
  total : length permits' + permits_of uid permits ≡ length permits + n

pub insert-Counts :
    (active : ActiveByUid) (permits permits' : List ℕ) (uid n : ℕ)
    → 0 < n
    → Counts active permits
    → HasNow uid n permits permits'
    → Counts (insert by_uid uid n active) permits'
insert-Counts active permits permits' uid n p h now = record {
  sorted = insert-IsSorted by_uid uid n active h.sorted;
  positive = insert-ArePositive uid n active p h.positive;
  each = λ u. ground (arith, get-insert by_uid uid u n active, now.each u, h.each u);
  total = omega (arith, total_active-insert uid n active h.sorted, h.each uid, now.total, h.total);
}

pub remove-Counts :
    (active : ActiveByUid) (permits permits' : List ℕ) (uid : ℕ)
    → Counts active permits
    → HasNow uid 0 permits permits'
    → Counts (remove by_uid uid active) permits'
remove-Counts active permits permits' uid h now = record {
  sorted = remove-IsSorted by_uid uid active h.sorted;
  positive = remove-ArePositive uid active h.positive;
  each = λ u. ground (arith, get-remove by_uid uid u active h.sorted, now.each u, h.each u);
  total = omega (arith, total_active-remove uid active, h.each uid, now.total, h.total);
}

pub HasNow-cons :
    (uid : ℕ) (permits : List ℕ) → HasNow uid (permits_of uid permits + 1) permits (uid ∷ permits)
unfolding permits_of
HasNow-cons uid permits = record { each = λ other. ground arith; total = omega arith }

pub HasNow-without :
    (uid left : ℕ) (permits : List ℕ)
    → permits_of uid permits ≡ suc left
    → HasNow uid left permits (without uid permits)
HasNow-without uid left permits e = record {
  each = λ other. ground (arith, permits_of-without uid other permits);
  total = omega (arith, length-without uid permits (omega arith));
}

pub try_acquire-Counts :
    (active active' : ActiveByUid) (permits : List ℕ) (uid : ℕ)
    → Counts active permits
    → try_acquire active uid ≡ some active'
    → Counts active' (uid ∷ permits)
unfolding try_acquire
try_acquire-Counts active active' permits uid h e =
    let n = permits_of uid permits + 1 in
    let stored : insert by_uid uid n active ≡ active' = ground (arith, h.each uid) in
    rw (sym stored)
      (insert-Counts active permits (uid ∷ permits) uid n (omega arith) h (HasNow-cons uid permits))

pub store_count-Counts :
    (active : ActiveByUid) (permits : List ℕ) (uid left : ℕ)
    → Counts active permits
    → permits_of uid permits ≡ suc left
    → Counts (store_count active uid left) (without uid permits)
store_count-Counts active permits uid zero h e =
    remove-Counts active permits _ uid h (HasNow-without uid 0 permits e)
store_count-Counts active permits uid (suc left) h e =
    insert-Counts active permits _ uid (suc left) (omega arith) h
      (HasNow-without uid (suc left) permits e)

-- A permit that is alive has an entry, of as many connections as permits.
pub drop_permit-live :
    (active : ActiveByUid) (permits : List ℕ) (uid left : ℕ)
    → Counts active permits
    → permits_of uid permits ≡ suc left
    → drop_permit active uid ≡ ok (store_count active uid left)
unfolding drop_permit
drop_permit-live active permits uid left h e = elim (Option-cases (get by_uid uid active)) [
  | inl t ↦ absurd (ground (arith, h.each uid))
  | inr (count, t) ↦
      let stored : get by_uid uid active ≡ some (suc left) = ground (arith, h.each uid) in
      rw (stored, drop_permit) refl
]
