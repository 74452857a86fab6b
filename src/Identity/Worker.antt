-- ===== src/Identity/Worker.antt =====
-- engine/identity/src/lib.rs: `process_request_with_cache`.
use loofi_face_id.Prelude.{
  ℕ, Bool, Option, none, some, List, Outcome, ok, err, panic, stuck, ◌⊎◌, inl, inr,
}
use loofi_face_id.Vault.Cursor.{VaultError}
use loofi_face_id.Vault.Codec.{Sample, Profile, new_profile}
use loofi_face_id.Vault.Envelope.{Cipher}
use loofi_face_id.Vault.Store.{
  open_profile, commit_profile, rotate_key, delete_profile, reset_unreadable,
}
use loofi_face_id.Vault.Access.{ready, status, validate_integrity}
use loofi_face_id.Vision.Image.{ImageView, ProcessingControl, VisionError, with_timeout}
use loofi_face_id.Identity.Request.{
  deadline_exceeded, Request, status_of, extract, commit, summary, verify, delete, rotate, validate,
  reset, generate_key, ParsedRequest,
}
use loofi_face_id.Identity.Response.{
  encode_status, encode_error, encode_key, map_vault_error, Host, State, Response, vault_response,
  written_response, with_vault, with_provider, extract_response, verify_response,
}

-- `MasterKey::generate`
abbrev pub key_response : ℕ → Option (List ℕ) → List ℕ
key_response generation none = encode_error (map_vault_error VaultError.crypto) generation
key_response generation (some key) = encode_key generation key

module _ (cipher : Cipher) (is_normalized : Sample → Bool) where
  -- What follows `Profile::new(samples)` in a commit.
  abbrev pub commit_response : Host → ℕ → List ℕ → State → Outcome VaultError Profile → Response
  commit_response h generation key state (ok profile) = with_vault h generation state λ o.
      written_response generation state
        (commit_profile cipher is_normalized o h.vault_calls key profile state.folder)
  commit_response h generation key state (err e) =
      (ok (encode_error (map_vault_error e) generation), state)
  commit_response h generation key state panic = (panic, state)
  commit_response h generation key state stuck = (stuck, state)

  -- What follows `vault.open_profile(&key)` in a verification.
  abbrev pub compare_response :
      Host → ℕ → ImageView → ProcessingControl → State → Outcome VaultError Profile → Response
  compare_response h generation image control state (ok profile) =
      with_provider h generation state
        λ s. (ok (verify_response h generation profile (h.extracts image control)), s)
  compare_response h generation image control state (err e) =
      (ok (encode_error (map_vault_error e) generation), state)
  compare_response h generation image control state panic = (panic, state)
  compare_response h generation image control state stuck = (stuck, state)

  -- `match request.request`
  unfoldable pub process_operation : Host → ℕ → ProcessingControl → State → Request → Response
  unfolding open_profile commit_profile rotate_key delete_profile reset_unreadable
      validate_integrity
  process_operation h generation control state (status_of key) =
      with_provider h generation state λ s. with_vault h generation s λ o. (
        ok (encode_status generation (status cipher is_normalized o h.status_calls key s.folder)),
        s,
      )
  process_operation h generation control state (extract prior image) =
      with_provider h generation state
        λ s. (ok (extract_response h generation prior (h.extracts image control)), s)
  process_operation h generation control state (commit key samples) =
      commit_response h generation key state (new_profile samples)
  process_operation h generation control state (summary key) = with_vault h generation state λ o. (
    ok (
        encode_status generation
          (status cipher is_normalized o h.status_calls (some key) state.folder)),
    state,
  )
  process_operation h generation control state (verify key image) =
      with_vault h generation state λ o. compare_response h generation image control state (
        open_profile cipher is_normalized o h.vault_calls.stats h.vault_calls.existing key
          state.folder)
  process_operation h generation control state (delete key) = with_vault h generation state λ o.
      written_response generation state
        (delete_profile cipher is_normalized o h.vault_calls key state.folder)
  process_operation h generation control state (rotate old_key new_key) =
      with_vault h generation state λ o.
        written_response generation state
          (rotate_key cipher is_normalized o h.vault_calls old_key new_key state.folder)
  process_operation h generation control state (validate key) = with_vault h generation state λ o.
      vault_response generation (λ s. encode_status generation (ready s))
        (validate_integrity cipher is_normalized o h.vault_calls.stats h.vault_calls.existing key
          state.folder)
        state
  process_operation h generation control state reset =
      with_vault h generation state
        λ o. written_response generation state (reset_unreadable o h.vault_calls state.folder)
  process_operation h generation control state generate_key =
      (ok (key_response generation h.random_key), state)

  abbrev pub process_under :
      Host → ParsedRequest → State → VisionError ⊎ ProcessingControl → Response
  process_under h request state (inl e) =
      (ok (encode_error deadline_exceeded request.generation), state)
  process_under h request state (inr control) =
      process_operation h request.generation control state request.request

  unfoldable pub process_request_with_cache : Host → ParsedRequest → State → Response
  unfolding process_operation
  process_request_with_cache h request state =
      process_under h request state (with_timeout h.now h.last_instant request.timeout_ms)
