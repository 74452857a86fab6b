-- ===== src/Daemon/Slots.antt =====
-- engine/daemon/src/lib.rs: the connections that `IngressState` lets in.
use loofi_face_id.Prelude.{
  ℕ, suc, ◌-◌, ◌≤◌, ◌<◌, ◌≡◌, refl, sym, ap, ◌↔◌, ◌⊎◌, none, some, List, [], ◌∷◌, arith, length, ok,
  IsAnswer,
}
use loofi_face_id.Daemon.Ingress.{ActiveByUid, total_active, try_acquire, drop_permit, store_count}
use loofi_face_id.Daemon.Permits.{
  Counts, permits_of, without, ArePositive, permits_of-without, length-without, try_acquire-Counts,
  store_count-Counts, drop_permit-live,
}

-- The states that the daemon comes to: the map, and the permits that are alive.
pub data Reaches : ActiveByUid → List ℕ → Type 0 where
  start : Reaches [] []
  accept :
      {active : ActiveByUid} {permits : List ℕ} {active' : ActiveByUid} (uid : ℕ)
      → Reaches active permits
      → try_acquire active uid ≡ some active'
      → Reaches active' (uid ∷ permits)
  finish :
      {active : ActiveByUid} {permits : List ℕ} {active' : ActiveByUid} (uid : ℕ)
      → Reaches active permits
      → 1 ≤ permits_of uid permits
      → drop_permit active uid ≡ ok active'
      → Reaches active' (without uid permits)

-- What the daemon keeps on every step: the counts, and both limits.
pub record IsWithin (active : ActiveByUid) (permits : List ℕ) : Type 0 where
  pub counts : Counts active permits
  pub total : length permits ≤ 4
  pub each : (uid : ℕ) → permits_of uid permits ≤ 2

-- A connection is let in exactly when both limits leave room.
try_acquire-none :
    (active : ActiveByUid) (permits : List ℕ) (uid : ℕ)
    → Counts active permits
    → (try_acquire active uid ≡ none) ↔ ((4 ≤ length permits) ⊎ (2 ≤ permits_of uid permits))
unfolding try_acquire
try_acquire-none active permits uid h = ground (arith, h.each uid, h.total)

try_acquire-room :
    (active active' : ActiveByUid) (permits : List ℕ) (uid : ℕ)
    → Counts active permits
    → try_acquire active uid ≡ some active'
    → (length permits < 4) × (permits_of uid permits < 2)
unfolding try_acquire
try_acquire-room active active' permits uid h e = ground (arith, h.each uid, h.total)

accept-IsWithin :
    (active active' : ActiveByUid) (permits : List ℕ) (uid : ℕ)
    → IsWithin active permits
    → try_acquire active uid ≡ some active'
    → IsWithin active' (uid ∷ permits)
unfolding permits_of
accept-IsWithin active active' permits uid h e = record {
  counts = try_acquire-Counts active active' permits uid h.counts e;
  total = omega (arith, try_acquire-room active active' permits uid h.counts e);
  each = λ u. ground (arith, try_acquire-room active active' permits uid h.counts e, h.each u);
}

permits_of-without_le :
    (uid other : ℕ) (permits : List ℕ)
    → permits_of other (without uid permits) ≤ permits_of other permits
permits_of-without_le uid other permits = ground (arith, permits_of-without uid other permits)

finish-IsWithin :
    (active active' : ActiveByUid) (permits : List ℕ) (uid left : ℕ)
    → IsWithin active permits
    → permits_of uid permits ≡ suc left
    → drop_permit active uid ≡ ok active'
    → IsWithin active' (without uid permits)
finish-IsWithin active active' permits uid left h live e =
    let stored : store_count active uid left ≡ active' =
      ground (arith, drop_permit-live active permits uid left h.counts live) in
    record {
      counts = rw (sym stored) (store_count-Counts active permits uid left h.counts live);
      total = omega (arith, h.total, length-without uid permits (omega arith));
      each = λ u. omega (arith, permits_of-without_le uid u permits, h.each u);
    }

empty_map : (active : ActiveByUid) → ArePositive active → total_active active ≡ 0 → active ≡ []
unfolding total_active
empty_map [] p e = refl
empty_map ((uid, count) ∷ active) p e = absurd (omega arith)

-- In every state that the daemon comes to, the map counts the permits that are alive, at most 4 in
-- all and at most 2 for a uid.
pub Reaches-IsWithin :
    (active : ActiveByUid) (permits : List ℕ) → Reaches active permits → IsWithin active permits
unfolding permits_of total_active
Reaches-IsWithin active permits start = record {
  counts = record { sorted = tt; positive = tt; each = λ uid. refl; total = refl };
  total = omega arith;
  each = λ uid. omega arith;
}
Reaches-IsWithin active permits (accept {active = old} {permits = ps} uid before e) =
    accept-IsWithin old active ps uid (Reaches-IsWithin old ps before) e
Reaches-IsWithin active permits (finish {active = old} {permits = ps} uid before live e) =
    finish-IsWithin old active ps uid (permits_of uid ps - 1) (Reaches-IsWithin old ps before)
      (omega arith) e

-- In every such state, a connection is refused exactly when 4 permits are alive or 2 for its uid.
pub Reaches-try_acquire :
    (active : ActiveByUid) (permits : List ℕ) (uid : ℕ)
    → Reaches active permits
    → (try_acquire active uid ≡ none) ↔ ((4 ≤ length permits) ⊎ (2 ≤ permits_of uid permits))
Reaches-try_acquire active permits uid h =
    try_acquire-none active permits uid (Reaches-IsWithin active permits h).counts

-- In every such state a permit that is alive is dropped without an overflow, and when no permit is
-- alive the map is empty.
pub Reaches-drop_permit :
    (active : ActiveByUid) (permits : List ℕ)
    → Reaches active permits
    → ((uid : ℕ) → 1 ≤ permits_of uid permits → IsAnswer (drop_permit active uid))
      × (permits ≡ [] → active ≡ [])
Reaches-drop_permit active permits h =
    let counts = (Reaches-IsWithin active permits h).counts in
    (
      λ uid live.
          rw (drop_permit-live active permits uid (permits_of uid permits - 1) counts (omega arith))
            tt,
      λ e. empty_map active counts.positive (omega (arith, counts.total, ap length e)),
    )
