-- ===== src/Identity/Conversation.antt =====
-- engine/identity/src/lib.rs: sessions of the identity worker, as conversations.
use loofi_face_id.Prelude.{
  ℕ, ◌≡◌, refl, ◌⊎◌, inl, inr, Bool, some, List, [], arith, Outcome, ok, err, panic, stuck,
  IsAnswer, Ensures, Settles,
}
use mathlib.Core.Path.{subst}
use loofi_face_id.Vault.Cursor.{VaultError}
use loofi_face_id.Vault.Codec.{Sample, Profile, new_profile}
use loofi_face_id.Vault.Envelope.{Cipher}
use loofi_face_id.Vault.Safety.{IsDecoded, new_profile-Ensures}
use loofi_face_id.Vault.Store.{
  open_profile, commit_profile, rotate_key, delete_profile, reset_unreadable,
}
use loofi_face_id.Vault.Access.{ready, status, validate_integrity}
use loofi_face_id.Vault.Totality.{vault_ends}
use loofi_face_id.Vision.Image.{ImageView, ProcessingControl, VisionError, with_timeout}
use loofi_face_id.Vision.Request.{generation_of}
use loofi_face_id.Identity.Request.{
  deadline_exceeded, Request, status_of, extract, commit, summary, verify, delete, rotate, validate,
  reset, generate_key, ParsedRequest, RequestError, parse_request,
}
use loofi_face_id.Identity.Parsing.{IsRequest, IsAccepted, parse_request-IsAccepted}
use loofi_face_id.Identity.Response.{
  encode_status, encode_error, map_vault_error, Host, State, with_vault, extract_response,
  verify_response,
}
use loofi_face_id.Identity.Worker.{
  key_response, commit_response, compare_response, process_operation, process_under,
  process_request_with_cache,
}
use loofi_face_id.Identity.Session.{parsed_response, respond}
use loofi_face_id.Identity.Answers.{
  IsHost, Responds, encode_status-IsResponse, extract_response-IsResponse,
  verify_response-IsResponse, key_response-IsResponse, error-Responds, with_vault-Responds,
  with_provider-Responds, written_response-Responds, vault_response-Responds,
}

module _ (cipher : Cipher) (is_normalized : Sample → Bool) where
  commit_response-Responds :
      (h : Host) (generation : ℕ) (key : List ℕ) (state : State) (m : Outcome VaultError Profile)
      → IsHost h
      → Ensures (IsDecoded is_normalized) m
      → Responds generation (commit_response cipher is_normalized h generation key state m)
  commit_response-Responds h generation key state (ok profile) host d =
      with_vault-Responds h generation state _ λ o.
        written_response-Responds generation state
          (commit_profile cipher is_normalized o h.vault_calls key profile state.folder)
          (vault_ends cipher is_normalized o h.vault_calls key key profile state.folder host.clock
            d.1).1
  commit_response-Responds h generation key state (err e) host d =
      error-Responds (map_vault_error e) generation state
  commit_response-Responds h generation key state panic host d = absurd d
  commit_response-Responds h generation key state stuck host d = absurd d

  compare_response-Responds :
      (h : Host) (generation : ℕ) (image : ImageView) (control : ProcessingControl) (state : State)
      (m : Outcome VaultError Profile)
      → IsAnswer m
      → Responds generation
          (compare_response cipher is_normalized h generation image control state m)
  compare_response-Responds h generation image control state (ok profile) a =
      with_provider-Responds h generation state
        (λ s. (ok (verify_response h generation profile (h.extracts image control)), s))
        λ s. (
          verify_response h generation profile (h.extracts image control),
          refl,
          verify_response-IsResponse h generation profile (h.extracts image control),
        )
  compare_response-Responds h generation image control state (err e) a =
      error-Responds (map_vault_error e) generation state
  compare_response-Responds h generation image control state panic a = absurd a
  compare_response-Responds h generation image control state stuck a = absurd a

  process_operation-Responds :
      (h : Host) (generation : ℕ) (control : ProcessingControl) (state : State) (request : Request)
      → IsHost h
      → IsRequest is_normalized request
      → Responds generation
          (process_operation cipher is_normalized h generation control state request)
  unfolding process_operation
  process_operation-Responds h generation control state (status_of key) host r =
      with_provider-Responds h generation state
        (λ s. with_vault h generation s λ o. (
          ok (encode_status generation (status cipher is_normalized o h.status_calls key s.folder)),
          s,
        ))
        λ s.
          with_vault-Responds h generation s
            (λ o. (
              ok (
                  encode_status generation
                    (status cipher is_normalized o h.status_calls key s.folder)),
              s,
            ))
            λ o. (
              encode_status generation (status cipher is_normalized o h.status_calls key s.folder),
              refl,
              encode_status-IsResponse generation
                  (status cipher is_normalized o h.status_calls key s.folder),
            )
  process_operation-Responds h generation control state (extract prior image) host r =
      with_provider-Responds h generation state
        (λ s. (ok (extract_response h generation prior (h.extracts image control)), s))
        λ s. (
          extract_response h generation prior (h.extracts image control),
          refl,
          extract_response-IsResponse h generation prior (h.extracts image control)
              (host.samples image control),
        )
  process_operation-Responds h generation control state (commit key samples) host r =
      commit_response-Responds h generation key state (new_profile samples) host
        (new_profile-Ensures is_normalized samples r.2)
  process_operation-Responds h generation control state (summary key) host r =
      with_vault-Responds h generation state
        (λ o. (
          ok (
              encode_status generation
                (status cipher is_normalized o h.status_calls (some key) state.folder)),
          state,
        ))
        λ o. (
          encode_status generation
              (status cipher is_normalized o h.status_calls (some key) state.folder),
          refl,
          encode_status-IsResponse generation
              (status cipher is_normalized o h.status_calls (some key) state.folder),
        )
  process_operation-Responds h generation control state (verify key image) host r =
      with_vault-Responds h generation state _ λ o.
        compare_response-Responds h generation image control state
          (open_profile cipher is_normalized o h.vault_calls.stats h.vault_calls.existing key
            state.folder)
          (vault_ends cipher is_normalized o h.vault_calls key key [] state.folder host.clock
            (omega arith)).0
  process_operation-Responds h generation control state (delete key) host r =
      with_vault-Responds h generation state _ λ o.
        written_response-Responds generation state
          (delete_profile cipher is_normalized o h.vault_calls key state.folder)
          (vault_ends cipher is_normalized o h.vault_calls key key [] state.folder host.clock
            (omega arith)).3
  process_operation-Responds h generation control state (rotate old_key new_key) host r =
      with_vault-Responds h generation state _ λ o.
        written_response-Responds generation state
          (rotate_key cipher is_normalized o h.vault_calls old_key new_key state.folder)
          (vault_ends cipher is_normalized o h.vault_calls old_key new_key [] state.folder
            host.clock (omega arith)).2
  process_operation-Responds h generation control state (validate key) host r =
      with_vault-Responds h generation state _ λ o.
        vault_response-Responds generation (λ s. encode_status generation (ready s))
          (validate_integrity cipher is_normalized o h.vault_calls.stats h.vault_calls.existing key
            state.folder)
          state
          (vault_ends cipher is_normalized o h.vault_calls key key [] state.folder host.clock
            (omega arith)).5
          λ s. encode_status-IsResponse generation (ready s)
  process_operation-Responds h generation control state reset host r =
      with_vault-Responds h generation state _ λ o.
        written_response-Responds generation state (reset_unreadable o h.vault_calls state.folder)
          (vault_ends cipher is_normalized o h.vault_calls [] [] [] state.folder host.clock
            (omega arith)).4
  process_operation-Responds h generation control state generate_key host r = (
    key_response generation h.random_key,
    refl,
    key_response-IsResponse generation h.random_key host.keys,
  )

  process_under-Responds :
      (h : Host) (request : ParsedRequest) (state : State)
      (control : VisionError ⊎ ProcessingControl)
      → IsHost h
      → IsRequest is_normalized request.request
      → Responds request.generation (process_under cipher is_normalized h request state control)
  process_under-Responds h request state (inl e) host r =
      error-Responds deadline_exceeded request.generation state
  process_under-Responds h request state (inr control) host r =
      process_operation-Responds h request.generation control state request.request host r

  parsed_response-Responds :
      (h : Host) (state : State) (payload : List ℕ) (parsed : Outcome RequestError ParsedRequest)
      → IsHost h
      → Settles
          (λ e. e.generation ≡ generation_of payload)
          (IsAccepted is_normalized payload)
          parsed
      → Responds (generation_of payload) (parsed_response cipher is_normalized h state parsed)
  unfolding process_request_with_cache
  parsed_response-Responds h state payload (ok request) host s =
      subst (λ g. Responds g (process_request_with_cache cipher is_normalized h request state)) s.0
        (process_under-Responds h request state
          (with_timeout h.now h.last_instant request.timeout_ms) host s.4)
  parsed_response-Responds h state payload (err e) host s =
      subst (λ g. Responds g (ok (encode_error e.code e.generation), state)) s
        (error-Responds e.code e.generation state)
  parsed_response-Responds h state payload panic host s = absurd s
  parsed_response-Responds h state payload stuck host s = absurd s

  -- To every payload the worker has one response, with the payload's generation.
  pub respond-Responds :
      (h : Host) (state : State) (payload : List ℕ)
      → IsHost h
      → Responds (generation_of payload) (respond cipher is_normalized h state payload)
  respond-Responds h state payload host =
      parsed_response-Responds h state payload (parse_request is_normalized payload) host
        (parse_request-IsAccepted is_normalized payload)
