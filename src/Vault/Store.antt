-- ===== src/Vault/Store.antt =====
-- engine/templates/src/lib.rs: the operations of `Vault` on its directory.
use loofi_face_id.Prelude.{
  ℕ, Bool, false, Option, none, some, List, Outcome, ok, err, panic, stuck, ◌>>=◌, ◌>>◌, guard,
  ok_or, if◌then◌else◌,
}
use loofi_face_id.Vault.Cursor.{VaultError, crypto, unsafe_filesystem}
use loofi_face_id.Vault.Codec.{Sample, Profile}
use loofi_face_id.Vault.Envelope.{Cipher, encode_vault, decode_vault}
use loofi_face_id.Vault.Files.{
  IoAnswer, passed, vanished, failed, io_result, Node, Owner, ReadCalls, validate_directory,
  validate_secure_path, read_secure_file,
}
use loofi_face_id.Vault.Lock.{LockCalls, Locked, acquire, permissions_set}
use loofi_face_id.Vault.Replacement.{Folder, Written, attempt, ReplaceCalls, write_verified_atomic}

-- `path.exists()` follows links, and takes an error for no.
abbrev pub exists : IoAnswer → Option Node → Bool
exists passed (some node) = node.resolves
exists passed none = false
exists vanished entry = false
exists failed entry = false

-- The answers of the calls of `ensure_directory`; `created` is the directory that is made.
pub record EnsureCalls : Type 0 where
  pub exists : IoAnswer
  pub creates : IoAnswer
  pub created : Node
  pub opens : Bool
  pub sets_permissions : Bool
  pub stats : IoAnswer

abbrev pub with_root : Folder → Node → Folder
with_root folder node = record folder { root = some node }

unfoldable pub ensure_directory : Owner → EnsureCalls → Folder → (Folder → Written) → Written
unfolding validate_directory
ensure_directory o c folder next =
    if exists c.exists folder.root
    then attempt (validate_directory o c.stats folder.root) folder (λ _. next folder)
    else attempt (io_result c.creates) folder λ _.
      let made = with_root folder c.created in
      attempt (guard (permissions_set o.kind c.opens) unsafe_filesystem) made λ _.
        attempt (guard (permissions_set o.kind c.sets_permissions) unsafe_filesystem) made
          λ _. attempt (validate_directory o c.stats made.root) made (λ _. next made)

-- `Drop` of `VaultLock`, on every way out.
abbrev pub release : Bool → Written → Written
release removes (result, folder) =
    (result, if removes then record folder { is_locked = false } else folder)

-- What follows `let _lock = VaultLock::acquire(..)?`.
abbrev pub locked_by : Locked → Bool → Folder → (Folder → Written) → Written
locked_by (ok _, held) removes folder next =
    release removes (next (record folder { is_locked = held }))
locked_by (err e, held) removes folder next = (err e, record folder { is_locked = held })
locked_by (panic, held) removes folder next = (panic, record folder { is_locked = held })
locked_by (stuck, held) removes folder next = (stuck, record folder { is_locked = held })

unfoldable pub with_lock : Owner → LockCalls → Folder → (Folder → Written) → Written
unfolding acquire
with_lock o c folder next = locked_by (acquire o c folder.root) c.removes folder next

-- The answers of the calls of one operation.
pub record VaultCalls : Type 0 where
  pub ensure : EnsureCalls
  pub stats : IoAnswer
  pub lock : LockCalls
  pub exists : IoAnswer
  pub existing : ReadCalls
  pub nonce : Option (List ℕ)
  pub replace : ReplaceCalls
  pub removes : IoAnswer
  pub syncs_directory : IoAnswer

-- `fs::remove_file(path)?` and `sync_directory(&self.root)`
unfoldable pub remove_vault : VaultCalls → Folder → Written
remove_vault c folder = attempt (io_result c.removes) folder λ _.
    let removed : Folder = record folder { vault = none } in
    attempt (io_result c.syncs_directory) removed λ _. (ok tt, removed)

module _ (cipher : Cipher) (is_normalized : Sample → Bool) where
  unfoldable pub open_profile :
      Owner → IoAnswer → ReadCalls → List ℕ → Folder → Outcome VaultError Profile
  unfolding validate_directory read_secure_file decode_vault
  open_profile o stats c key folder = do
    validate_directory o stats folder.root
    bytes ← read_secure_file o c folder.vault
    decode_vault cipher is_normalized bytes key o.uid

  -- `open_profile_snapshot`, with what `sha256` answers.
  unfoldable pub open_profile_snapshot :
      Owner
      → IoAnswer
      → ReadCalls
      → (List ℕ → Option (List ℕ))
      → List ℕ
      → Folder
      → Outcome VaultError (Profile × List ℕ)
  unfolding validate_directory read_secure_file decode_vault
  open_profile_snapshot o stats c sha256 key folder = do
    validate_directory o stats folder.root
    bytes ← read_secure_file o c folder.vault
    profile ← decode_vault cipher is_normalized bytes key o.uid
    digest ← ok_or (sha256 bytes) crypto
    ok (profile, digest)

  -- The vault that is there must open under the key.
  unfoldable pub check_existing :
      Owner → VaultCalls → List ℕ → Folder → Outcome VaultError (Unit {0})
  unfolding read_secure_file decode_vault
  check_existing o c key folder =
      let opened : Outcome VaultError (Unit {0}) = do
        bytes ← read_secure_file o c.existing folder.vault
        profile ← decode_vault cipher is_normalized bytes key o.uid
        ok tt
      in if exists c.exists folder.vault then opened else ok tt

  -- `commit_profile` while it holds the lock.
  unfoldable pub commit_locked : Owner → VaultCalls → List ℕ → Profile → Folder → Written
  unfolding check_existing encode_vault write_verified_atomic
  commit_locked o c key profile folder = attempt (check_existing o c key folder) folder λ _.
      attempt (encode_vault cipher is_normalized c.nonce profile key o.uid) folder
        λ encoded. write_verified_atomic cipher is_normalized o c.replace encoded key folder

  unfoldable pub commit_profile : Owner → VaultCalls → List ℕ → Profile → Folder → Written
  unfolding ensure_directory with_lock commit_locked
  commit_profile o c key profile start =
      ensure_directory o c.ensure start
        λ ensured. with_lock o c.lock ensured (commit_locked o c key profile)

  unfoldable pub rotate_key : Owner → VaultCalls → (old_key new_key : List ℕ) → Folder → Written
  unfolding validate_directory with_lock read_secure_file decode_vault encode_vault
      write_verified_atomic
  rotate_key o c old_key new_key start =
      attempt (validate_directory o c.stats start.root) start λ _.
        with_lock o c.lock start λ folder.
          attempt (read_secure_file o c.existing folder.vault) folder λ old_bytes.
            attempt (decode_vault cipher is_normalized old_bytes old_key o.uid) folder λ profile.
              attempt (encode_vault cipher is_normalized c.nonce profile new_key o.uid) folder
                λ new_bytes.
                  write_verified_atomic cipher is_normalized o c.replace new_bytes new_key folder

  unfoldable pub delete_profile : Owner → VaultCalls → List ℕ → Folder → Written
  unfolding validate_directory with_lock read_secure_file decode_vault remove_vault
  delete_profile o c key start = attempt (validate_directory o c.stats start.root) start λ _.
      with_lock o c.lock start λ folder.
        attempt (read_secure_file o c.existing folder.vault) folder λ bytes.
          attempt (decode_vault cipher is_normalized bytes key o.uid) folder
            λ _. remove_vault c folder

unfoldable pub reset_unreadable : Owner → VaultCalls → Folder → Written
unfolding validate_directory with_lock validate_secure_path remove_vault
reset_unreadable o c start = attempt (validate_directory o c.stats start.root) start λ _.
    with_lock o c.lock start λ folder.
      attempt (validate_secure_path o c.existing.stats folder.vault) folder
        λ _. remove_vault c folder
