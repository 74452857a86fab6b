-- ===== src/Vault/Claims.antt =====
-- engine/templates/src/lib.rs: how claims go through the steps of an operation of `Vault`.
use loofi_face_id.Prelude.{
  ◌≡◌, sym, ◌≢◌, inl, inr, Bool, true, false, Option, none, some, Bool-cases, Outcome, ok, err,
  panic, stuck, guard,
}
use mathlib.Core.Path.{subst}
use loofi_face_id.Vault.Cursor.{VaultError, unsafe_filesystem}
use loofi_face_id.Vault.Files.{io_result, Node, Owner, validate_directory}
use loofi_face_id.Vault.Lock.{LockCalls, Locked, acquire, permissions_set}
use loofi_face_id.Vault.Replacement.{Folder, Written, attempt}
use loofi_face_id.Vault.Store.{
  exists, EnsureCalls, ensure_directory, release, locked_by, with_lock, VaultCalls, remove_vault,
}
use loofi_face_id.Vault.Keeping.{attempt-Ensures, attempt-io_result}

-- A claim about the result of an operation, the root and the vault that it leaves.
abbrev pub Claim : Type 1
Claim = Outcome VaultError (Unit {0}) → (root vault : Option Node) → Type 0

-- A failure with the vault as it was satisfies the claim.
abbrev pub AllowsFailure : Claim → Option Node → Type 0
AllowsFailure P vault =
    (r : Outcome VaultError (Unit {0})) (root : Option Node) → r ≢ ok tt → P r root vault

abbrev pub Holds : Claim → Written → Type 0
Holds P result = P result.0 result.1.root result.1.vault

abbrev pub done : Outcome VaultError (Unit {0})
done = ok tt

pub attempt-Holds {ℓ} :
    {A : Type ℓ} (P : Claim) (m : Outcome VaultError A) (folder : Folder) (next : A → Written)
    → AllowsFailure P folder.vault
    → ((a : A) → m ≡ ok a → Holds P (next a))
    → Holds P (attempt m folder next)
attempt-Holds P m folder next h k = attempt-Ensures (Holds P) m folder next (λ r. h r folder.root) k

release-Holds :
    (P : Claim) (removes : Bool) (result : Written)
    → Holds P result
    → Holds P (release removes result)
release-Holds P true result h = h
release-Holds P false result h = h

locked_by-Holds :
    (P : Claim) (locked : Locked) (removes : Bool) (folder : Folder) (next : Folder → Written)
    → AllowsFailure P folder.vault
    → ((held : Bool) → Holds P (next (record folder { is_locked = held })))
    → Holds P (locked_by locked removes folder next)
locked_by-Holds P (ok _, held) removes folder next h k = release-Holds P removes _ (k held)
locked_by-Holds P (err e, held) removes folder next h k = h (err e) folder.root λ p. cc
locked_by-Holds P (panic, held) removes folder next h k = h panic folder.root λ p. cc
locked_by-Holds P (stuck, held) removes folder next h k = h stuck folder.root λ p. cc

pub with_lock-Holds :
    (P : Claim) (o : Owner) (c : LockCalls) (folder : Folder) (next : Folder → Written)
    → AllowsFailure P folder.vault
    → ((held : Bool) → Holds P (next (record folder { is_locked = held })))
    → Holds P (with_lock o c folder next)
unfolding with_lock
with_lock-Holds P o c folder next h k =
    locked_by-Holds P (acquire o c folder.root) c.removes folder next h k

pub ensure_directory-Holds :
    (P : Claim) (o : Owner) (c : EnsureCalls) (folder : Folder) (next : Folder → Written)
    → AllowsFailure P folder.vault
    → ((root : Option Node)
        → validate_directory o c.stats root ≡ ok tt
        → Holds P (next (record folder { root = root })))
    → Holds P (ensure_directory o c folder next)
unfolding ensure_directory
ensure_directory-Holds P o c folder next h k = elim (Bool-cases (exists c.exists folder.root)) [
  | inl there ↦ rw there (
      attempt-Holds P (validate_directory o c.stats folder.root) _ _ h
        λ _ valid. k folder.root valid)
  | inr absent ↦ rw absent (
      attempt-Holds P (io_result c.creates) _ _ h λ _ _.
        attempt-Holds P (guard (permissions_set o.kind c.opens) unsafe_filesystem) _ _ h λ _ _.
          attempt-Holds P (guard (permissions_set o.kind c.sets_permissions) unsafe_filesystem) _ _
            h
            λ _ _.
              attempt-Holds P (validate_directory o c.stats (some c.created)) _ _ h
                λ _ valid. k (some c.created) valid)
]

pub remove_vault-Holds :
    (P : Claim) (c : VaultCalls) (folder : Folder)
    → AllowsFailure P folder.vault
    → P (io_result c.syncs_directory) folder.root none
    → Holds P (remove_vault c folder)
unfolding remove_vault
remove_vault-Holds P c folder h k = attempt-Holds P (io_result c.removes) _ _ h λ _ _.
    subst (Holds P) (sym (attempt-io_result c.syncs_directory (record folder { vault = none }))) k
