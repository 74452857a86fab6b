-- ===== src/Vault/Ending.antt =====
-- engine/templates/src/lib.rs: the parts of the operations of `Vault` end without a panic.
use loofi_face_id.Prelude.{
  ◌≡◌, refl, inl, inr, Bool, Option, none, some, Bool-cases, Outcome, ok, err, panic, stuck, guard,
  IsAnswer, Ensures-IsAnswer, guard-IsAnswer,
}
use loofi_face_id.Vault.Cursor.{VaultError, unsafe_filesystem}
use loofi_face_id.Vault.Files.{
  IoAnswer, io_result, Node, Owner, ReadCalls, validate_directory, validate_secure_path,
  read_secure_file,
}
use loofi_face_id.Vault.Lock.{
  LockCalls, Locked, IsClock, acquire, acquire-IsAnswer, permissions_set, io_result-IsAnswer,
  validate_directory-IsAnswer,
}
use loofi_face_id.Vault.Replacement.{Folder, Written, attempt}
use loofi_face_id.Vault.Store.{
  exists, EnsureCalls, ensure_directory, release, locked_by, with_lock, VaultCalls, remove_vault,
}
use loofi_face_id.Vault.Keeping.{validate_secure_path-Ensures, read_secure_file-Ensures}

pub attempt-IsAnswer {ℓ} :
    {A : Type ℓ} (m : Outcome VaultError A) (folder : Folder) (next : A → Written)
    → IsAnswer m
    → ((a : A) → m ≡ ok a → IsAnswer (next a).0)
    → IsAnswer (attempt m folder next).0
attempt-IsAnswer (ok a) folder next h k = k a refl
attempt-IsAnswer (err e) folder next h k = tt
attempt-IsAnswer panic folder next h k = h
attempt-IsAnswer stuck folder next h k = h

pub release-IsAnswer :
    (removes : Bool) (result : Written) → IsAnswer result.0 → IsAnswer (release removes result).0
release-IsAnswer removes result h = h

pub with_lock-IsAnswer :
    (o : Owner) (c : LockCalls) (folder : Folder) (next : Folder → Written)
    → IsClock c
    → ((held : Bool) → IsAnswer (next (record folder { is_locked = held })).0)
    → IsAnswer (with_lock o c folder next).0
unfolding with_lock
with_lock-IsAnswer o c folder next h k =
    by_result (acquire o c folder.root) (acquire-IsAnswer o c folder.root h)
  where
    by_result :
        (locked : Locked) → IsAnswer locked.0 → IsAnswer (locked_by locked c.removes folder next).0
    by_result (ok _, held) a = k held
    by_result (err e, held) a = tt
    by_result (panic, held) a = a
    by_result (stuck, held) a = a

pub ensure_directory-IsAnswer :
    (o : Owner) (c : EnsureCalls) (folder : Folder) (next : Folder → Written)
    → ((f : Folder) → IsAnswer (next f).0)
    → IsAnswer (ensure_directory o c folder next).0
unfolding ensure_directory
ensure_directory-IsAnswer o c folder next k = elim (Bool-cases (exists c.exists folder.root)) [
  | inl there ↦ rw there (
      attempt-IsAnswer (validate_directory o c.stats folder.root) folder (λ _. next folder)
        (validate_directory-IsAnswer o c.stats folder.root) λ _ _. k folder)
  | inr absent ↦ rw absent (
      let made : Folder = record folder { root = some c.created } in
      attempt-IsAnswer (io_result c.creates) _ _ (io_result-IsAnswer c.creates) λ _ _.
        attempt-IsAnswer (guard (permissions_set o.kind c.opens) unsafe_filesystem) _ _
          (guard-IsAnswer (permissions_set o.kind c.opens) unsafe_filesystem)
          λ _ _.
            attempt-IsAnswer (guard (permissions_set o.kind c.sets_permissions) unsafe_filesystem) _
              _ (guard-IsAnswer (permissions_set o.kind c.sets_permissions) unsafe_filesystem)
              λ _ _.
                attempt-IsAnswer (validate_directory o c.stats (some c.created)) made
                  (λ _. next made) (validate_directory-IsAnswer o c.stats (some c.created))
                  λ _ _. k made)
]

pub validate_secure_path-IsAnswer :
    (o : Owner) (answer : IoAnswer) (entry : Option Node)
    → IsAnswer (validate_secure_path o answer entry)
unfolding validate_secure_path
validate_secure_path-IsAnswer o answer none = tt
validate_secure_path-IsAnswer o answer (some node) =
    Ensures-IsAnswer _ (validate_secure_path o answer (some node))
      (validate_secure_path-Ensures o answer node)

pub read_secure_file-IsAnswer :
    (o : Owner) (c : ReadCalls) (entry : Option Node) → IsAnswer (read_secure_file o c entry)
unfolding read_secure_file validate_secure_path
read_secure_file-IsAnswer o c none = tt
read_secure_file-IsAnswer o c (some node) =
    Ensures-IsAnswer _ (read_secure_file o c (some node)) (read_secure_file-Ensures o c node)

pub remove_vault-IsAnswer : (c : VaultCalls) (folder : Folder) → IsAnswer (remove_vault c folder).0
unfolding remove_vault
remove_vault-IsAnswer c folder =
    attempt-IsAnswer (io_result c.removes) _ _ (io_result-IsAnswer c.removes) λ _ _.
      attempt-IsAnswer (io_result c.syncs_directory) _ _ (io_result-IsAnswer c.syncs_directory)
        λ _ _. tt
