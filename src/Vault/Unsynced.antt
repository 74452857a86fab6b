-- ===== src/Vault/Unsynced.antt =====
-- Runs of the vault's operations where the directory's sync fails, after the vault has changed.
use loofi_face_id.Prelude.{
  ℕ, ◌≡◌, refl, some, none, List, ◌∷◌, take, bytes_eq, if◌then◌else◌, ok, err,
}
use loofi_face_id.Utf8.{is_utf8}
use loofi_face_id.Vault.Cursor.{io, crypto}
use loofi_face_id.Vault.Envelope.{Cipher}
use loofi_face_id.Vault.Files.{passed, failed, Node, is_owner_valid, validate_secure_path}
use loofi_face_id.Vault.Store.{
  VaultCalls, open_profile, commit_profile, rotate_key, delete_profile, reset_unreadable,
}
use loofi_face_id.Vault.Changes.{KeepsOr, IsCommitted, IsOpened, vault_changes}
use loofi_face_id.Vault.Keeping.{IsVerified}
use loofi_face_id.Vault.Reopening.{undisturbed}
use loofi_face_id.Vault.Tests.{zeros, starts_with_one, three_samples, plain_cipher}
use loofi_face_id.Vault.Stored.{user, vault_calls, empty_folder, stored_folder}

-- The directory is not synced, after a rename or a removal.
abbrev failing_calls : VaultCalls
failing_calls = record vault_calls {
  replace = record vault_calls.replace { syncs_directory = failed };
  syncs_directory = failed;
}

-- A cipher whose tag tells the keys apart.
abbrev keyed_cipher : Cipher
keyed_cipher = record {
  encrypt = λ key nonce aad plaintext. some (plaintext, take 16 key);
  decrypt =
      λ key nonce aad ciphertext tag. if bytes_eq tag (take 16 key) then some ciphertext else none;
}

abbrev other_key : List ℕ
other_key = 1 ∷ zeros 31

-- A failed sync of the directory is reported as an error after the vault has changed: it opens under
-- the new key and no longer under the old one, or it is gone.
rotated_unsynced :
    let stored =
      (commit_profile keyed_cipher starts_with_one user vault_calls
        (zeros 32)
        three_samples
        empty_folder).1 in
    let rotated =
      rotate_key keyed_cipher starts_with_one user failing_calls (zeros 32) other_key stored in
    let open_with = λ (key : List ℕ).
      open_profile keyed_cipher starts_with_one user passed undisturbed key rotated.1 in
    (rotated.0 ≡ err io)
    × (open_with other_key ≡ ok three_samples)
    × (open_with (zeros 32) ≡ err crypto)
unfolding commit_profile rotate_key open_profile is_owner_valid is_utf8
rotated_unsynced = (refl, refl, refl)

reset_unsynced :
    let reset = reset_unreadable user failing_calls stored_folder in
    (reset.0 ≡ err io) × (reset.1.vault ≡ none)
unfolding commit_profile reset_unreadable is_owner_valid is_utf8
reset_unsynced = (refl, refl)

vault_changes_example :
    KeepsOr failed stored_folder.vault
      (IsCommitted plain_cipher starts_with_one user failing_calls (zeros 32) stored_folder.vault)
      (commit_profile plain_cipher starts_with_one user failing_calls
        (zeros 32)
        three_samples
        stored_folder)
    × KeepsOr failed stored_folder.vault
        (λ after.
          IsVerified plain_cipher starts_with_one (zeros 31) user.uid after
          × IsOpened plain_cipher starts_with_one user failing_calls.existing
              (zeros 32)
              stored_folder.vault)
        (rotate_key plain_cipher starts_with_one user failing_calls
          (zeros 32)
          (zeros 31)
          stored_folder)
    × KeepsOr failed stored_folder.vault
        (λ after.
          (after ≡ none)
          × IsOpened plain_cipher starts_with_one user failing_calls.existing
              (zeros 32)
              stored_folder.vault)
        (delete_profile plain_cipher starts_with_one user failing_calls (zeros 32) stored_folder)
    × KeepsOr failed stored_folder.vault
        (λ after.
          (after ≡ none)
          × ((node : Node) × (validate_secure_path user failing_calls.existing.stats
                  stored_folder.vault
                ≡ ok node)))
        (reset_unreadable user failing_calls stored_folder)
vault_changes_example =
    vault_changes plain_cipher starts_with_one user failing_calls (zeros 32) (zeros 31)
      three_samples stored_folder
