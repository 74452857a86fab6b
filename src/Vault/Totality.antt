-- ===== src/Vault/Totality.antt =====
-- engine/templates/src/lib.rs: every operation of `Vault` ends without a panic.
use loofi_face_id.Prelude.{
  Ensures-IsAnswer, ℕ, ◌≤◌, inl, inr, Bool, not, ◌||◌, Option, some, List, arith, ltb, Bool-cases,
  length, is_empty, ok, ◌>>=◌, ◌>>◌, guard, ok_or, IsAnswer, >>=-IsAnswer, Ensures, guard-IsAnswer,
}
use mathlib.Core.Path.{subst}
use loofi_face_id.Vault.Cursor.{unsafe_filesystem, oversized, crypto, io, profile_bounds}
use loofi_face_id.Vault.Codec.{Sample, Profile, maximum_vault_bytes}
use loofi_face_id.Vault.Profiles.{encode_profile-plaintext_of}
use loofi_face_id.Vault.Envelope.{Cipher, encode_vault, decode_vault}
use loofi_face_id.Vault.Safety.{IsDecoded, decode_vault-Ensures}
use loofi_face_id.Vault.Files.{
  IoAnswer, io_result, Owner, ReadCalls, validate_directory, validate_secure_path, read_secure_file,
}
use loofi_face_id.Vault.Lock.{
  IsClock, permissions_set, io_result-IsAnswer, validate_directory-IsAnswer,
}
use loofi_face_id.Vault.Replacement.{
  Folder, Written, attempt, ReplaceCalls, temporary_node, is_free, replace_from,
  write_verified_atomic,
}
use loofi_face_id.Vault.Store.{
  exists, with_lock, VaultCalls, remove_vault, check_existing, commit_locked, commit_profile,
  rotate_key, delete_profile, reset_unreadable, open_profile,
}
use loofi_face_id.Vault.Access.{summary_of, validate_integrity}
use loofi_face_id.Vault.Ending.{
  attempt-IsAnswer, with_lock-IsAnswer, ensure_directory-IsAnswer, validate_secure_path-IsAnswer,
  read_secure_file-IsAnswer, remove_vault-IsAnswer,
}

module _ (cipher : Cipher) (is_normalized : Sample → Bool) where
  decode_vault-IsAnswer :
      (bytes key : List ℕ) (uid : ℕ) → IsAnswer (decode_vault cipher is_normalized bytes key uid)
  decode_vault-IsAnswer bytes key uid =
      Ensures-IsAnswer _ _ (decode_vault-Ensures cipher is_normalized bytes key uid)

  encode_vault-IsAnswer :
      (random : Option (List ℕ)) (profile : Profile) (key : List ℕ) (uid : ℕ)
      → length profile ≤ 8
      → IsAnswer (encode_vault cipher is_normalized random profile key uid)
  unfolding encode_vault
  encode_vault-IsAnswer random profile key uid h =
      rw (encode_profile-plaintext_of is_normalized profile uid h) (ground arith)

  replace_from-IsAnswer :
      (o : Owner) (c : ReplaceCalls) (bytes key : List ℕ) (folder : Folder)
      → IsAnswer (replace_from cipher is_normalized o c bytes key folder).0
  unfolding replace_from
  replace_from-IsAnswer o c bytes key folder =
      let node = temporary_node c bytes in
      attempt-IsAnswer (guard (permissions_set o.kind c.sets_permissions) unsafe_filesystem) _ _
        (guard-IsAnswer (permissions_set o.kind c.sets_permissions) unsafe_filesystem)
        λ _ _. attempt-IsAnswer (io_result c.writes) _ _ (io_result-IsAnswer c.writes) λ _ _.
          attempt-IsAnswer (io_result c.syncs) _ _ (io_result-IsAnswer c.syncs) λ _ _.
            attempt-IsAnswer (read_secure_file o c.reread (some node)) _ _
              (read_secure_file-IsAnswer o c.reread (some node))
              λ verified _.
                attempt-IsAnswer (decode_vault cipher is_normalized verified key o.uid) _ _
                  (decode_vault-IsAnswer verified key o.uid)
                  λ _ _.
                    attempt-IsAnswer (io_result c.renames) _ _ (io_result-IsAnswer c.renames) λ _ _.
                      attempt-IsAnswer (io_result c.syncs_directory) _ _
                        (io_result-IsAnswer c.syncs_directory) λ _ _. tt

  write_verified_atomic-IsAnswer :
      (o : Owner) (c : ReplaceCalls) (bytes key : List ℕ) (folder : Folder)
      → IsAnswer (write_verified_atomic cipher is_normalized o c bytes key folder).0
  unfolding write_verified_atomic
  write_verified_atomic-IsAnswer o c bytes key folder =
      attempt-IsAnswer
        (guard (not (is_empty bytes || ltb maximum_vault_bytes (length bytes))) oversized) _ _
        (guard-IsAnswer (not (is_empty bytes || ltb maximum_vault_bytes (length bytes))) oversized)
        λ _ _.
          attempt-IsAnswer (guard c.has_suffix crypto) _ _ (guard-IsAnswer c.has_suffix crypto)
            λ _ _.
              attempt-IsAnswer (guard (is_free folder.temporary) io >> io_result c.creates) folder
                (λ _. replace_from cipher is_normalized o c bytes key folder)
                (ground (arith, io_result-IsAnswer c.creates))
                λ _ _. replace_from-IsAnswer o c bytes key folder

  check_existing-IsAnswer :
      (o : Owner) (c : VaultCalls) (key : List ℕ) (folder : Folder)
      → IsAnswer (check_existing cipher is_normalized o c key folder)
  unfolding check_existing
  check_existing-IsAnswer o c key folder =
      let opened =
        >>=-IsAnswer (read_secure_file o c.existing folder.vault)
          (λ bytes. decode_vault cipher is_normalized bytes key o.uid >>= λ profile. ok tt)
          (read_secure_file-IsAnswer o c.existing folder.vault)
          λ bytes _.
            >>=-IsAnswer (decode_vault cipher is_normalized bytes key o.uid) (λ profile. ok tt)
              (decode_vault-IsAnswer bytes key o.uid) λ _ _. tt in
      elim (Bool-cases (exists c.exists folder.vault)) [
        | inl there ↦ rw there opened
        | inr absent ↦ rw absent tt
      ]

  commit_profile-IsAnswer :
      (o : Owner) (c : VaultCalls) (key : List ℕ) (profile : Profile) (start : Folder)
      → IsClock c.lock
      → length profile ≤ 8
      → IsAnswer (commit_profile cipher is_normalized o c key profile start).0
  unfolding commit_profile commit_locked
  commit_profile-IsAnswer o c key profile start clock size =
      let locked : Folder → Written = commit_locked cipher is_normalized o c key profile in
      ensure_directory-IsAnswer o c.ensure start (λ ensured. with_lock o c.lock ensured locked)
        λ f. with_lock-IsAnswer o c.lock f locked clock λ held.
          let folder : Folder = record f { is_locked = held } in
          let write : List ℕ → Written =
            λ encoded. write_verified_atomic cipher is_normalized o c.replace encoded key folder in
          attempt-IsAnswer (check_existing cipher is_normalized o c key folder) folder
            (λ _.
              attempt (encode_vault cipher is_normalized c.nonce profile key o.uid) folder write)
            (check_existing-IsAnswer o c key folder)
            λ _ _.
              attempt-IsAnswer (encode_vault cipher is_normalized c.nonce profile key o.uid) folder
                write (encode_vault-IsAnswer c.nonce profile key o.uid size)
                λ encoded _. write_verified_atomic-IsAnswer o c.replace encoded key folder

  rotate_key-IsAnswer :
      (o : Owner) (c : VaultCalls) (old_key new_key : List ℕ) (start : Folder)
      → IsClock c.lock
      → IsAnswer (rotate_key cipher is_normalized o c old_key new_key start).0
  unfolding rotate_key
  rotate_key-IsAnswer o c old_key new_key start clock =
      attempt-IsAnswer (validate_directory o c.stats start.root) _ _
        (validate_directory-IsAnswer o c.stats start.root)
        λ _ _. with_lock-IsAnswer o c.lock start _ clock λ held.
          let folder : Folder = record start { is_locked = held } in
          attempt-IsAnswer (read_secure_file o c.existing folder.vault) _ _
            (read_secure_file-IsAnswer o c.existing folder.vault)
            λ bytes _.
              attempt-IsAnswer (decode_vault cipher is_normalized bytes old_key o.uid) _ _
                (decode_vault-IsAnswer bytes old_key o.uid)
                λ profile opened.
                  let write : List ℕ → Written = λ encoded.
                    write_verified_atomic cipher is_normalized o c.replace encoded new_key folder in
                  let decoded : IsDecoded is_normalized profile =
                    subst (Ensures (IsDecoded is_normalized)) opened
                      (decode_vault-Ensures cipher is_normalized bytes old_key o.uid) in
                  attempt-IsAnswer (encode_vault cipher is_normalized c.nonce profile new_key o.uid)
                    folder write (encode_vault-IsAnswer c.nonce profile new_key o.uid decoded.1)
                    λ encoded _. write_verified_atomic-IsAnswer o c.replace encoded new_key folder

  delete_profile-IsAnswer :
      (o : Owner) (c : VaultCalls) (key : List ℕ) (start : Folder)
      → IsClock c.lock
      → IsAnswer (delete_profile cipher is_normalized o c key start).0
  unfolding delete_profile
  delete_profile-IsAnswer o c key start clock =
      attempt-IsAnswer (validate_directory o c.stats start.root) _ _
        (validate_directory-IsAnswer o c.stats start.root)
        λ _ _. with_lock-IsAnswer o c.lock start _ clock λ held.
          let folder : Folder = record start { is_locked = held } in
          attempt-IsAnswer (read_secure_file o c.existing folder.vault) _ _
            (read_secure_file-IsAnswer o c.existing folder.vault)
            λ bytes _.
              attempt-IsAnswer (decode_vault cipher is_normalized bytes key o.uid) folder
                (λ _. remove_vault c folder) (decode_vault-IsAnswer bytes key o.uid)
                λ profile _. remove_vault-IsAnswer c folder

  open_profile-IsAnswer :
      (o : Owner) (stats : IoAnswer) (c : ReadCalls) (key : List ℕ) (folder : Folder)
      → IsAnswer (open_profile cipher is_normalized o stats c key folder)
  unfolding open_profile
  open_profile-IsAnswer o stats c key folder =
      >>=-IsAnswer (validate_directory o stats folder.root) _
        (validate_directory-IsAnswer o stats folder.root)
        λ _ _.
          >>=-IsAnswer (read_secure_file o c folder.vault) _
            (read_secure_file-IsAnswer o c folder.vault)
            λ bytes _. decode_vault-IsAnswer bytes key o.uid

  validate_integrity-IsAnswer :
      (o : Owner) (stats : IoAnswer) (c : ReadCalls) (key : List ℕ) (folder : Folder)
      → IsAnswer (validate_integrity cipher is_normalized o stats c key folder)
  unfolding validate_integrity
  validate_integrity-IsAnswer o stats c key folder =
      >>=-IsAnswer (open_profile cipher is_normalized o stats c key folder)
        (λ profile. ok_or (summary_of profile) profile_bounds)
        (open_profile-IsAnswer o stats c key folder) λ profile _. ground arith

reset_unreadable-IsAnswer :
    (o : Owner) (c : VaultCalls) (start : Folder)
    → IsClock c.lock
    → IsAnswer (reset_unreadable o c start).0
unfolding reset_unreadable
reset_unreadable-IsAnswer o c start clock =
    attempt-IsAnswer (validate_directory o c.stats start.root) _ _
      (validate_directory-IsAnswer o c.stats start.root)
      λ _ _. with_lock-IsAnswer o c.lock start _ clock λ held.
        let folder : Folder = record start { is_locked = held } in
        attempt-IsAnswer (validate_secure_path o c.existing.stats folder.vault) folder
          (λ _. remove_vault c folder)
          (validate_secure_path-IsAnswer o c.existing.stats folder.vault)
          λ _ _. remove_vault-IsAnswer c folder

-- Every operation of the vault ends with a value or an error, whatever each system call answers and
-- the vault's file holds: opening, committing a profile of at most eight samples, rotating the key,
-- deleting, resetting and validating. Every attempt at the lock takes at least the 10 ms that the
-- code sleeps.
pub vault_ends :
    (cipher : Cipher) (is_normalized : Sample → Bool) (o : Owner) (c : VaultCalls)
    (key new_key : List ℕ) (profile : Profile) (folder : Folder)
    → IsClock c.lock
    → length profile ≤ 8
    → IsAnswer (open_profile cipher is_normalized o c.stats c.existing key folder)
      × IsAnswer (commit_profile cipher is_normalized o c key profile folder).0
      × IsAnswer (rotate_key cipher is_normalized o c key new_key folder).0
      × IsAnswer (delete_profile cipher is_normalized o c key folder).0
      × IsAnswer (reset_unreadable o c folder).0
      × IsAnswer (validate_integrity cipher is_normalized o c.stats c.existing key folder)
vault_ends cipher is_normalized o c key new_key profile folder clock size = (
  open_profile-IsAnswer cipher is_normalized o c.stats c.existing key folder,
  commit_profile-IsAnswer cipher is_normalized o c key profile folder clock size,
  rotate_key-IsAnswer cipher is_normalized o c key new_key folder clock,
  delete_profile-IsAnswer cipher is_normalized o c key folder clock,
  reset_unreadable-IsAnswer o c folder clock,
  validate_integrity-IsAnswer cipher is_normalized o c.stats c.existing key folder,
)
