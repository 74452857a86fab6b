-- ===== src/Daemon/Ingress.antt =====
-- engine/daemon/src/lib.rs: `IngressState` and `IngressPermit`. The hash map of active connections
-- is the list of its entries, which is what `values().sum()` goes over; the order is that of the
-- uids, on which nothing depends. The lock is never poisoned, since nothing panics while it is
-- held.
use loofi_face_id.Prelude.{
  ℕ, zero, suc, ◌+◌, ◌||◌, List, [], ◌∷◌, Option, none, some, leb, if◌then◌else◌, Outcome, ok,
  panic, ◌>>=◌,
}
use loofi_face_id.BTreeMap.{get, insert, remove}

abbrev pub max_active_connections : ℕ
max_active_connections = 4

abbrev pub max_connections_per_peer_uid : ℕ
max_connections_per_peer_uid = 2

abbrev pub ActiveByUid : Type 0
ActiveByUid = List (ℕ × ℕ)

abbrev pub by_uid : ℕ → ℕ
by_uid uid = uid

-- `active.values().sum()`
unfoldable pub total_active : ActiveByUid → ℕ
total_active [] = 0
total_active ((uid, count) ∷ active) = count + total_active active

-- `copied().unwrap_or_default()`
abbrev pub count_or_default : Option ℕ → ℕ
count_or_default none = 0
count_or_default (some count) = count

-- The map that is left when a permit for `peer_uid` is given out.
unfoldable pub try_acquire : ActiveByUid → ℕ → Option ActiveByUid
unfolding total_active
try_acquire active peer_uid =
    let peer_count = count_or_default (get by_uid peer_uid active) in
    if leb max_active_connections (total_active active)
      || leb max_connections_per_peer_uid peer_count
    then none
    else some (insert by_uid peer_uid (peer_count + 1) active)

-- `*count -= 1`: below 0 it overflows.
abbrev pub decrement : ℕ → Outcome (Unit {0}) ℕ
decrement zero = panic
decrement (suc count) = ok count

-- What becomes of an entry's new count.
abbrev pub store_count : ActiveByUid → ℕ → ℕ → ActiveByUid
store_count active peer_uid zero = remove by_uid peer_uid active
store_count active peer_uid (suc count) = insert by_uid peer_uid (suc count) active

-- `IngressPermit::drop`
unfoldable pub drop_permit : ActiveByUid → ℕ → Outcome (Unit {0}) ActiveByUid
drop_permit active peer_uid = elim (get by_uid peer_uid active) [
  | none ↦ ok active
  | some count ↦ decrement count >>= λ left. ok (store_count active peer_uid left)
]
