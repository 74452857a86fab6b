-- ===== src/Vault/Replacement.antt =====
-- engine/templates/src/lib.rs: `write_verified_atomic`, over the names of the vault's directory.
use loofi_face_id.Prelude.{
  ℕ, Bool, true, false, not, ◌||◌, Option, none, some, List, [], Outcome, ok, err, panic, stuck,
  ◌>>◌, guard, ltb, if◌then◌else◌, is_empty, length, take,
}
use loofi_face_id.AuthPolicy.Files.{Metadata}
use loofi_face_id.Vault.Cursor.{VaultError, io, crypto, oversized, unsafe_filesystem}
use loofi_face_id.Vault.Codec.{Sample, maximum_vault_bytes}
use loofi_face_id.Vault.Envelope.{Cipher, decode_vault}
use loofi_face_id.Vault.Files.{
  IoAnswer, io_result, Node, Owner, ReadCalls, or_else, read_secure_file,
}
use loofi_face_id.Vault.Lock.{permissions_set}

-- The vault's directory: the directory itself, the vault, the temporary file and whether the lock
-- file is there.
pub record Folder : Type 0 where
  pub root : Option Node
  pub vault : Option Node
  pub temporary : Option Node
  pub is_locked : Bool

abbrev pub Written : Type 0
Written = Outcome VaultError (Unit {0}) × Folder

-- The `?` operator where the directory may have changed: what was done stays done.
abbrev pub attempt {ℓ} : {A : Type ℓ} → Outcome VaultError A → Folder → (A → Written) → Written
attempt (ok a) folder next = next a
attempt (err e) folder next = (err e, folder)
attempt panic folder next = (panic, folder)
attempt stuck folder next = (stuck, folder)

-- The answers of the calls of `write_verified_atomic`. A failed `write_all` has written some first
-- bytes; `created` is what the system keeps of the file then.
pub record ReplaceCalls : Type 0 where
  pub has_suffix : Bool
  pub creates : IoAnswer
  pub created : Metadata
  pub sets_permissions : Bool
  pub writes : IoAnswer
  pub partly_written : ℕ
  pub syncs : IoAnswer
  pub reread : ReadCalls
  pub renames : IoAnswer
  pub syncs_directory : IoAnswer
  pub removes : Bool

abbrev pub temporary_node : ReplaceCalls → List ℕ → Node
temporary_node c bytes = record {
  metadata = c.created;
  is_symlink = false;
  resolves = true;
  contents = bytes;
}

abbrev pub with_temporary : Folder → Node → Folder
with_temporary folder node = record folder { temporary = some node }

-- `Drop` of `TemporaryFile`, armed unless the rename succeeded, that is, unless the name is gone.
abbrev pub remove_temporary : ReplaceCalls → Written → Written
remove_temporary c (result, folder) =
    (result, if c.removes then record folder { temporary = none } else folder)

abbrev pub is_free : Option Node → Bool
is_free none = true
is_free (some node) = false

module _ (cipher : Cipher) (is_normalized : Sample → Bool) where
  -- From the new temporary file on: what is renamed is the file that was read back.
  unfoldable pub replace_from : Owner → ReplaceCalls → List ℕ → List ℕ → Folder → Written
  unfolding decode_vault read_secure_file
  replace_from o c bytes key folder =
      let written = with_temporary folder (temporary_node c bytes) in
      let present = or_else c.reread.replaced (temporary_node c bytes) in
      attempt (guard (permissions_set o.kind c.sets_permissions) unsafe_filesystem)
        (with_temporary folder (temporary_node c []))
        λ _.
          attempt (io_result c.writes)
            (with_temporary folder (temporary_node c (take c.partly_written bytes)))
            λ _. attempt (io_result c.syncs) written λ _.
              attempt (read_secure_file o c.reread (some (temporary_node c bytes)))
                (with_temporary folder present)
                λ verified.
                  attempt (decode_vault cipher is_normalized verified key o.uid)
                    (with_temporary folder present)
                    λ _. attempt (io_result c.renames) (with_temporary folder present) λ _.
                      let renamed : Folder = record folder {
                        vault = some present;
                        temporary = none;
                      } in
                      attempt (io_result c.syncs_directory) renamed λ _. (ok tt, renamed)

  unfoldable pub write_verified_atomic : Owner → ReplaceCalls → List ℕ → List ℕ → Folder → Written
  unfolding replace_from
  write_verified_atomic o c bytes key folder =
      attempt (guard (not (is_empty bytes || ltb maximum_vault_bytes (length bytes))) oversized)
        folder
        λ _. attempt (guard c.has_suffix crypto) folder λ _. remove_temporary c (
          attempt (guard (is_free folder.temporary) io >> io_result c.creates) folder
            λ _. replace_from o c bytes key folder)
