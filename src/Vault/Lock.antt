-- ===== src/Vault/Lock.antt =====
-- engine/templates/src/lib.rs: `VaultLock`, a file that only one process can create. A function
-- returns whether the lock file is there when it returns.
use loofi_face_id.Prelude.{
  ℕ, zero, suc, ◌+◌, ◌*◌, ◌≤◌, ◌<◌, ◌/◌, arith, Bool, true, false, not, ◌||◌, Outcome, ok, err,
  panic, stuck, ◌==◌, leb, if◌then◌else◌, IsAnswer, Bool-cases, inl, inr,
}
use loofi_face_id.AuthPolicy.Files.{Metadata}
use loofi_face_id.Vault.Cursor.{VaultError, io, unsafe_filesystem, lock_timeout}
use loofi_face_id.Vault.Files.{
  IoAnswer, Node, VaultKind, user_session, system, Owner, is_owned, file_mode, has_mode, io_result,
  validate_directory,
}
use loofi_face_id.Prelude.{Option, none, some}

-- In milliseconds.
abbrev pub lock_timeout_ms : ℕ
lock_timeout_ms = 2000

abbrev pub lock_retry_ms : ℕ
lock_retry_ms = 10

-- The answers of the calls of `acquire`: whether the file is there at the k-th attempt to create
-- it, whether another error stops that attempt, and the clock after it.
pub record LockCalls : Type 0 where
  pub stats : IoAnswer
  pub start : ℕ
  pub last_instant : ℕ
  pub held : ℕ → Bool
  pub creates : ℕ → Bool
  pub now : ℕ → ℕ
  pub sets_permissions : Bool
  pub fstats : IoAnswer
  pub created : Metadata
  pub syncs : IoAnswer
  pub removes : Bool

abbrev pub Locked : Type 0
Locked = Outcome VaultError (Unit {0}) × Bool

abbrev pub is_lock_file : Owner → Metadata → Bool
is_lock_file o m =
    not (not (is_owned o m) || not (has_mode (file_mode o.kind) m) || not (m.nlink == 1))

-- `if kind == VaultKind::System { set_fd_permissions(..)? }`
abbrev pub permissions_set : VaultKind → Bool → Bool
permissions_set user_session sets = true
permissions_set system sets = sets

-- The arm of a file just created. Only the check of its metadata removes it again.
unfoldable pub lock_created : Owner → LockCalls → Locked
lock_created o c =
    if not (permissions_set o.kind c.sets_permissions)
    then (err unsafe_filesystem, true)
    else elim (io_result c.fstats) [
      | err e ↦ (err e, true)
      | panic ↦ (panic, true)
      | stuck ↦ (stuck, true)
      | ok _ ↦
          if not (is_lock_file o c.created)
          then (err unsafe_filesystem, not c.removes)
          else (io_result c.syncs, true)
    ]

-- `loop`: the file is tried again every 10 ms, until the deadline.
unfoldable pub lock_loop : ℕ → Owner → LockCalls → ℕ → ℕ → Locked
unfolding lock_created
lock_loop zero o c deadline k = (stuck, c.held k)
lock_loop (suc fuel) o c deadline k = elim (c.held k) [
  | true ↦ elim (leb deadline (c.now k)) [
    | true ↦ (err lock_timeout, true)
    | false ↦ lock_loop fuel o c deadline (suc k)
  ]
  | false ↦ if c.creates k then lock_created o c else (err io, false)
]

abbrev pub lock_fuel : ℕ
lock_fuel = suc (lock_timeout_ms / lock_retry_ms)

abbrev pub after_validation : Outcome VaultError (Unit {0}) → Bool → Locked → Locked
after_validation (ok _) held rest = rest
after_validation (err e) held rest = (err e, held)
after_validation panic held rest = (panic, held)
after_validation stuck held rest = (stuck, held)

unfoldable pub acquire : Owner → LockCalls → Option Node → Locked
unfolding lock_loop validate_directory
acquire o c root = after_validation (validate_directory o c.stats root) (c.held 0) (
    if leb (c.start + lock_timeout_ms) c.last_instant
    then lock_loop lock_fuel o c (c.start + lock_timeout_ms) 0
    else (err lock_timeout, c.held 0))

pub io_result-IsAnswer : (answer : IoAnswer) → IsAnswer (io_result answer)
io_result-IsAnswer IoAnswer.passed = tt
io_result-IsAnswer IoAnswer.vanished = tt
io_result-IsAnswer IoAnswer.failed = tt

lock_created-IsAnswer : (o : Owner) (c : LockCalls) → IsAnswer (lock_created o c).0
unfolding lock_created
lock_created-IsAnswer o c = ground (arith, io_result-IsAnswer c.fstats, io_result-IsAnswer c.syncs)

-- The clock never stands still: it has passed the start, and 10 ms more with every attempt.
abbrev pub IsClock : LockCalls → Type 0
IsClock c = (k : ℕ) → c.start + k * 10 ≤ c.now k

lock_loop-IsAnswer :
    (fuel k : ℕ) (o : Owner) (c : LockCalls)
    → IsClock c
    → lock_fuel ≤ fuel + k
    → k * 10 < lock_timeout_ms + 10
    → IsAnswer (lock_loop fuel o c (c.start + lock_timeout_ms) k).0
unfolding lock_loop
lock_loop-IsAnswer zero k o c h f reached = absurd (omega arith)
lock_loop-IsAnswer (suc fuel) k o c h f reached = elim (Bool-cases (c.held k)) [
  | inl held ↦ elim (Bool-cases (leb (c.start + lock_timeout_ms) (c.now k))) [
    | inl late ↦ rw (held, lock_loop, late) tt
    | inr early ↦
        rw (held, lock_loop, early)
          (lock_loop-IsAnswer fuel (suc k) o c h (omega arith) (ground (arith, h k)))
  ]
  | inr free ↦ rw (free, lock_loop) (ground (arith, lock_created-IsAnswer o c))
]

after_validation-IsAnswer :
    (m : Outcome VaultError (Unit {0})) (held : Bool) (rest : Locked)
    → IsAnswer m
    → IsAnswer rest.0
    → IsAnswer (after_validation m held rest).0
after_validation-IsAnswer (ok _) held rest h k = k
after_validation-IsAnswer (err e) held rest h k = tt
after_validation-IsAnswer panic held rest h k = h
after_validation-IsAnswer stuck held rest h k = h

pub validate_directory-IsAnswer :
    (o : Owner) (answer : IoAnswer) (root : Option Node)
    → IsAnswer (validate_directory o answer root)
unfolding validate_directory
validate_directory-IsAnswer o answer none = tt
validate_directory-IsAnswer o answer (some node) = ground (arith, io_result-IsAnswer answer)

-- `VaultLock::acquire` ends, with the lock or an error, whatever other processes do with the lock
-- file: where every attempt takes at least the 10 ms that the code sleeps, it makes at most 201
-- attempts.
pub acquire-IsAnswer :
    (o : Owner) (c : LockCalls) (root : Option Node) → IsClock c → IsAnswer (acquire o c root).0
unfolding acquire
acquire-IsAnswer o c root h =
    after_validation-IsAnswer (validate_directory o c.stats root) (c.held 0) _
      (validate_directory-IsAnswer o c.stats root)
      (ground (arith, lock_loop-IsAnswer lock_fuel 0 o c h (omega arith) (omega arith)))
