-- ===== src/Vault/Changes.antt =====
-- engine/templates/src/lib.rs: the ways in which the operations of `Vault` change the vault.
use loofi_face_id.Prelude.{
  ℕ, ◌≡◌, refl, sym, ◌≢◌, ◌⊎◌, inl, inr, Bool, true, Option, none, List, if◌then◌else◌, Outcome, ok,
  err, panic, stuck, ◌>>=◌,
}
use mathlib.Core.Path.{subst}
use loofi_face_id.Vault.Cursor.{VaultError}
use loofi_face_id.Vault.Codec.{Sample, Profile}
use loofi_face_id.Vault.Envelope.{Cipher, encode_vault, decode_vault}
use loofi_face_id.Vault.Files.{
  IoAnswer, io_result, Node, Owner, ReadCalls, validate_directory, validate_secure_path,
  read_secure_file,
}
use loofi_face_id.Vault.Replacement.{Folder, Written, ReplaceCalls, attempt, write_verified_atomic}
use loofi_face_id.Vault.Store.{
  exists, with_lock, VaultCalls, check_existing, commit_locked, commit_profile, rotate_key,
  delete_profile, reset_unreadable,
}
use loofi_face_id.Vault.Keeping.{IsVerified, IsReplaced, write_verified_atomic-IsReplaced}
use loofi_face_id.Vault.Claims.{
  Claim, Holds, done, attempt-Holds, with_lock-Holds, ensure_directory-Holds, remove_vault-Holds,
}

-- What an operation claims of its result and of the vault that it leaves: it fails and the vault is
-- what it was, or the vault satisfies `Q` and the result is that of the last call, the sync of the
-- directory.
abbrev pub Changes : IoAnswer → Option Node → (Option Node → Type 0) → Claim
Changes sync vault Q r root v = ((v ≡ vault) × (r ≢ ok tt)) ⊎ ((r ≡ io_result sync) × Q v)

abbrev pub KeepsOr : IoAnswer → Option Node → (Option Node → Type 0) → Written → Type 0
KeepsOr sync vault Q result = Holds (Changes sync vault Q) result

module _ (cipher : Cipher) (is_normalized : Sample → Bool) where
  -- The vault is read securely and opens under the key.
  abbrev pub IsOpened : Owner → ReadCalls → List ℕ → Option Node → Type 0
  IsOpened o c key entry =
      (bytes : List ℕ) × (profile : Profile) × (read_secure_file o c entry ≡ ok bytes)
      × (decode_vault cipher is_normalized bytes key o.uid ≡ ok profile)

  opened_bytes :
      (o : Owner) (key bytes : List ℕ) (m : Outcome VaultError Profile)
      → m ≡ decode_vault cipher is_normalized bytes key o.uid
      → (m >>= λ profile. done) ≡ done
      → (profile : Profile) × (decode_vault cipher is_normalized bytes key o.uid ≡ ok profile)
  opened_bytes o key bytes (ok profile) e h = (profile, sym e)
  opened_bytes o key bytes (err x) e h = absurd cc
  opened_bytes o key bytes panic e h = absurd cc
  opened_bytes o key bytes stuck e h = absurd cc

  IsOpened-file :
      (o : Owner) (c : ReadCalls) (key : List ℕ) (entry : Option Node)
      (m : Outcome VaultError (List ℕ))
      → m ≡ read_secure_file o c entry
      → (m >>= λ bytes. decode_vault cipher is_normalized bytes key o.uid >>= λ profile. done)
        ≡ done
      → IsOpened o c key entry
  IsOpened-file o c key entry (ok bytes) e h =
      let (profile, opened) =
        opened_bytes o key bytes (decode_vault cipher is_normalized bytes key o.uid) refl h in
      (bytes, profile, sym e, opened)
  IsOpened-file o c key entry (err x) e h = absurd cc
  IsOpened-file o c key entry panic e h = absurd cc
  IsOpened-file o c key entry stuck e h = absurd cc

  check_existing_lem :
      (o : Owner) (c : VaultCalls) (key : List ℕ) (folder : Folder)
      → check_existing cipher is_normalized o c key folder ≡ ok tt
      → exists c.exists folder.vault ≡ true
      → IsOpened o c.existing key folder.vault
  unfolding check_existing
  check_existing_lem o c key folder h there =
      IsOpened-file o c.existing key folder.vault (read_secure_file o c.existing folder.vault) refl
        (subst
          (λ b.
            (if b
              then (read_secure_file o c.existing folder.vault >>= λ bytes.
                  decode_vault cipher is_normalized bytes key o.uid >>= λ profile. done)
              else done)
            ≡ done)
          there h)

  replaced-KeepsOr :
      (c : ReplaceCalls) (key : List ℕ) (uid : ℕ) (folder : Folder) (result : Written)
      (Q : Option Node → Type 0)
      → IsReplaced cipher is_normalized c key uid folder result
      → (IsVerified cipher is_normalized key uid result.1.vault → Q result.1.vault)
      → KeepsOr c.syncs_directory folder.vault Q result
  replaced-KeepsOr c key uid folder result Q (inl kept) k = inl kept
  replaced-KeepsOr c key uid folder result Q (inr (synced, verified)) k = inr (synced, k verified)

  -- What `commit_profile` may leave: a verified vault, where the one before, if any, opened.
  abbrev pub IsCommitted : Owner → VaultCalls → List ℕ → Option Node → Option Node → Type 0
  IsCommitted o c key before after =
      IsVerified cipher is_normalized key o.uid after
      × (exists c.exists before ≡ true → IsOpened o c.existing key before)

  commit_locked-KeepsOr :
      (o : Owner) (c : VaultCalls) (key : List ℕ) (profile : Profile) (folder : Folder)
      → KeepsOr c.replace.syncs_directory folder.vault
          (IsCommitted o c key folder.vault)
          (commit_locked cipher is_normalized o c key profile folder)
  unfolding commit_locked
  commit_locked-KeepsOr o c key profile folder =
      let Q = IsCommitted o c key folder.vault in
      let P : Claim = Changes c.replace.syncs_directory folder.vault Q in
      let write : List ℕ → Written =
        λ encoded. write_verified_atomic cipher is_normalized o c.replace encoded key folder in
      let seal : Unit {0} → Written =
        λ _. attempt (encode_vault cipher is_normalized c.nonce profile key o.uid) folder write in
      attempt-Holds P (check_existing cipher is_normalized o c key folder) folder seal
        (λ r root h. inl (refl, h))
        λ _ existing.
          attempt-Holds P (encode_vault cipher is_normalized c.nonce profile key o.uid) folder write
            (λ r root h. inl (refl, h))
            λ encoded _.
              replaced-KeepsOr c.replace key o.uid folder (write encoded) Q
                (write_verified_atomic-IsReplaced cipher is_normalized o c.replace encoded key
                  folder)
                λ verified. (verified, check_existing_lem o c key folder existing)

  commit_profile-KeepsOr :
      (o : Owner) (c : VaultCalls) (key : List ℕ) (profile : Profile) (start : Folder)
      → KeepsOr c.replace.syncs_directory start.vault
          (IsCommitted o c key start.vault)
          (commit_profile cipher is_normalized o c key profile start)
  unfolding commit_profile
  commit_profile-KeepsOr o c key profile start =
      let P : Claim =
        Changes c.replace.syncs_directory start.vault (IsCommitted o c key start.vault) in
      let locked : Folder → Written = commit_locked cipher is_normalized o c key profile in
      ensure_directory-Holds P o c.ensure start (λ ensured. with_lock o c.lock ensured locked)
        (λ r root h. inl (refl, h))
        λ root _.
          with_lock-Holds P o c.lock (record start { root = root }) locked
            (λ r root h. inl (refl, h))
            λ held.
              commit_locked-KeepsOr o c key profile (record start { root = root; is_locked = held })

  rotate_key-KeepsOr :
      (o : Owner) (c : VaultCalls) (old_key new_key : List ℕ) (start : Folder)
      → KeepsOr c.replace.syncs_directory start.vault
          (λ after.
            IsVerified cipher is_normalized new_key o.uid after
            × IsOpened o c.existing old_key start.vault)
          (rotate_key cipher is_normalized o c old_key new_key start)
  unfolding rotate_key
  rotate_key-KeepsOr o c old_key new_key start =
      let Q : Option Node → Type 0 = λ after.
        IsVerified cipher is_normalized new_key o.uid after
        × IsOpened o c.existing old_key start.vault in
      let P : Claim = Changes c.replace.syncs_directory start.vault Q in
      attempt-Holds P (validate_directory o c.stats start.root) start _ (λ r root h. inl (refl, h))
        λ _ _.
          with_lock-Holds P o c.lock start _ (λ r root h. inl (refl, h))
            λ held.
              let folder : Folder = record start { is_locked = held } in
              attempt-Holds P (read_secure_file o c.existing folder.vault) folder _
                (λ r root h. inl (refl, h))
                λ old_bytes read.
                  attempt-Holds P (decode_vault cipher is_normalized old_bytes old_key o.uid) folder
                    _ (λ r root h. inl (refl, h))
                    λ profile opened.
                      attempt-Holds P
                        (encode_vault cipher is_normalized c.nonce profile new_key o.uid) folder _
                        (λ r root h. inl (refl, h))
                        λ new_bytes _.
                          replaced-KeepsOr c.replace new_key o.uid folder
                            (write_verified_atomic cipher is_normalized o c.replace new_bytes
                              new_key folder)
                            Q
                            (write_verified_atomic-IsReplaced cipher is_normalized o c.replace
                              new_bytes new_key folder)
                            λ verified. (verified, (old_bytes, profile, read, opened))

  delete_profile-KeepsOr :
      (o : Owner) (c : VaultCalls) (key : List ℕ) (start : Folder)
      → KeepsOr c.syncs_directory start.vault
          (λ after. (after ≡ none) × IsOpened o c.existing key start.vault)
          (delete_profile cipher is_normalized o c key start)
  unfolding delete_profile
  delete_profile-KeepsOr o c key start =
      let P : Claim =
        Changes c.syncs_directory start.vault
          λ after. (after ≡ none) × IsOpened o c.existing key start.vault in
      attempt-Holds P (validate_directory o c.stats start.root) start _ (λ r root h. inl (refl, h))
        λ _ _.
          with_lock-Holds P o c.lock start _ (λ r root h. inl (refl, h))
            λ held.
              let folder : Folder = record start { is_locked = held } in
              attempt-Holds P (read_secure_file o c.existing folder.vault) folder _
                (λ r root h. inl (refl, h))
                λ bytes read.
                  attempt-Holds P (decode_vault cipher is_normalized bytes key o.uid) folder _
                    (λ r root h. inl (refl, h))
                    λ profile opened.
                      remove_vault-Holds P c folder (λ r root h. inl (refl, h))
                        (inr (refl, (refl, (bytes, profile, read, opened))))

  reset_unreadable-KeepsOr :
      (o : Owner) (c : VaultCalls) (start : Folder)
      → KeepsOr c.syncs_directory start.vault
          (λ after.
            (after ≡ none)
            × ((node : Node) × (validate_secure_path o c.existing.stats start.vault ≡ ok node)))
          (reset_unreadable o c start)
  unfolding reset_unreadable
  reset_unreadable-KeepsOr o c start =
      let P : Claim = Changes c.syncs_directory start.vault λ after.
        (after ≡ none)
        × ((node : Node) × (validate_secure_path o c.existing.stats start.vault ≡ ok node)) in
      attempt-Holds P (validate_directory o c.stats start.root) start _ (λ r root h. inl (refl, h))
        λ _ _.
          with_lock-Holds P o c.lock start _ (λ r root h. inl (refl, h))
            λ held.
              let folder : Folder = record start { is_locked = held } in
              attempt-Holds P (validate_secure_path o c.existing.stats folder.vault) folder _
                (λ r root h. inl (refl, h))
                λ node secure.
                  remove_vault-Holds P c folder (λ r root h. inl (refl, h))
                    (inr (refl, (refl, (node, secure))))

  -- The vault's file changes in four ways only, whatever each system call answers and whichever step
  -- fails. Either an operation fails and leaves the file as it was, or it has made its one change and
  -- its result is that of the sync of the directory, which comes last: a failure of that sync, and of
  -- nothing else, is reported with the file changed.
  -- `commit_profile` puts a file there whose bytes were read back and opened under the key, and only
  -- where no file was seen there or the one that was seen opened under the key; `rotate_key` one that
  -- opens under the new key, where the old one opened under the old key; `delete_profile` removes a
  -- file that opened under the key, and `reset_unreadable` one whose owner, kind, links and mode are
  -- right.
  pub vault_changes :
      (o : Owner) (c : VaultCalls) (key new_key : List ℕ) (profile : Profile) (start : Folder)
      → KeepsOr c.replace.syncs_directory start.vault
          (IsCommitted o c key start.vault)
          (commit_profile cipher is_normalized o c key profile start)
        × KeepsOr c.replace.syncs_directory start.vault
            (λ after.
              IsVerified cipher is_normalized new_key o.uid after
              × IsOpened o c.existing key start.vault)
            (rotate_key cipher is_normalized o c key new_key start)
        × KeepsOr c.syncs_directory start.vault
            (λ after. (after ≡ none) × IsOpened o c.existing key start.vault)
            (delete_profile cipher is_normalized o c key start)
        × KeepsOr c.syncs_directory start.vault
            (λ after.
              (after ≡ none)
              × ((node : Node) × (validate_secure_path o c.existing.stats start.vault ≡ ok node)))
            (reset_unreadable o c start)
  vault_changes o c key new_key profile start = (
    commit_profile-KeepsOr o c key profile start,
    rotate_key-KeepsOr o c key new_key start,
    delete_profile-KeepsOr o c key start,
    reset_unreadable-KeepsOr o c start,
  )
