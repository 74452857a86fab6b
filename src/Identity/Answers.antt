-- ===== src/Identity/Answers.antt =====
-- engine/identity/src/lib.rs: the responses of the identity worker: their size, and whom they answer.
use loofi_face_id.Prelude.{
  ℕ, ◌*◌, ◌≤◌, ◌≡◌, refl, ◌⊎◌, inl, inr, true, ◌||◌, Option, none, some, List, [], ◌∷◌, ◌++◌, arith,
  Bool-cases, Option-cases, length, Outcome, ok, err, panic, stuck, IsAnswer,
}
use loofi_face_id.Vault.Cursor.{VaultError}
use loofi_face_id.Vault.Codec.{Sample, Profile, values_bytes}
use loofi_face_id.Vault.Files.{Owner}
use loofi_face_id.Vault.Lock.{IsClock}
use loofi_face_id.Vault.Replacement.{Written}
use loofi_face_id.Vault.Access.{VaultStatus}
use loofi_face_id.Vision.Image.{ImageView, ProcessingControl}
use loofi_face_id.Identity.Request.{
  ErrorCode, duplicate_sample, model_unavailable, max_identity_response_bytes,
}
use loofi_face_id.Identity.Response.{
  response_header, response_error, response_status, response_sample, response_verification,
  response_key, response_ack, error_byte, encode_status, status_code, status_count, encode_sample,
  encode_ack, VerificationResult, matching, no_match, ambiguous, encode_verification, encode_key,
  encode_error, map_identity_error, map_vault_error, IdentityError, Host, State, Response,
  vault_response, written_response, with_folder, with_vault, with_provider, any_duplicate,
  extract_response, verify_response,
}
use loofi_face_id.Identity.Worker.{key_response}

-- A response of the protocol's version to a request of this generation, which `write_frame` takes.
abbrev pub IsResponse : ℕ → List ℕ → Type 0
IsResponse generation response =
    (kind : ℕ) × (detail : ℕ) × (rest : List ℕ) × (response
      ≡ response_header kind detail generation ++ rest)
    × (length response ≤ max_identity_response_bytes)

abbrev pub Responds : ℕ → Response → Type 0
Responds generation r = (response : List ℕ) × (r.0 ≡ ok response) × IsResponse generation response

-- What the worker relies on of its host: the clock runs, a sample is an array of 128 values, a key
-- one of 32 bytes.
pub record IsHost (h : Host) : Type 0 where
  pub clock : IsClock h.vault_calls.lock
  pub samples :
      (image : ImageView) (control : ProcessingControl) (sample : Sample)
      → h.extracts image control ≡ inr sample
      → length sample ≡ 128
  pub keys : (key : List ℕ) → h.random_key ≡ some key → length key ≡ 32

header-IsResponse :
    (kind code generation : ℕ) (rest : List ℕ)
    → length rest ≤ 564
    → IsResponse generation (response_header kind code generation ++ rest)
header-IsResponse kind code generation rest h = (kind, code, rest, refl, omega arith)

pub encode_error-IsResponse :
    (code : ErrorCode) (generation : ℕ) → IsResponse generation (encode_error code generation)
unfolding encode_error
encode_error-IsResponse code generation =
    header-IsResponse response_error (error_byte code) generation [] (omega arith)

pub error-Responds :
    (code : ErrorCode) (generation : ℕ) (state : State)
    → Responds generation (ok (encode_error code generation), state)
error-Responds code generation state =
    (encode_error code generation, refl, encode_error-IsResponse code generation)

pub encode_status-IsResponse :
    (generation : ℕ) (s : VaultStatus) → IsResponse generation (encode_status generation s)
unfolding encode_status
encode_status-IsResponse generation s =
    header-IsResponse response_status (status_code s) generation (status_count s ∷ []) (omega arith)

encode_ack-IsResponse : (generation : ℕ) → IsResponse generation (encode_ack generation)
unfolding encode_ack
encode_ack-IsResponse generation = header-IsResponse response_ack 0 generation [] (omega arith)

encode_verification-IsResponse :
    (generation : ℕ) (r : VerificationResult)
    → IsResponse generation (encode_verification generation r)
unfolding encode_verification
encode_verification-IsResponse generation matching =
    header-IsResponse response_verification 1 generation [] (omega arith)
encode_verification-IsResponse generation no_match =
    header-IsResponse response_verification 2 generation [] (omega arith)
encode_verification-IsResponse generation ambiguous =
    header-IsResponse response_verification 3 generation [] (omega arith)

length-values_bytes : (sample : Sample) → length (values_bytes sample) ≡ 4 * length sample
unfolding values_bytes
length-values_bytes [] = refl
length-values_bytes (v ∷ vs) = omega (arith, length-values_bytes vs)

encode_sample-IsResponse :
    (generation : ℕ) (sample : Sample)
    → length sample ≡ 128
    → IsResponse generation (encode_sample generation sample)
unfolding encode_sample
encode_sample-IsResponse generation sample h =
    header-IsResponse response_sample 0 generation (values_bytes sample)
      (omega (arith, length-values_bytes sample))

encode_key-IsResponse :
    (generation : ℕ) (key : List ℕ)
    → length key ≡ 32
    → IsResponse generation (encode_key generation key)
unfolding encode_key
encode_key-IsResponse generation key h =
    header-IsResponse response_key 0 generation key (omega arith)

pub with_vault-Responds :
    (h : Host) (generation : ℕ) (state : State) (next : Owner → Response)
    → ((o : Owner) → Responds generation (next o))
    → Responds generation (with_vault h generation state next)
with_vault-Responds h generation state next k = elim (Option-cases h.owner) [
  | inl missing ↦
      rw missing (error-Responds (map_vault_error VaultError.unavailable) generation state)
  | inr (o, found) ↦ rw found (k o)
]

pub with_provider-Responds :
    (h : Host) (generation : ℕ) (state : State) (next : State → Response)
    → ((s : State) → Responds generation (next s))
    → Responds generation (with_provider h generation state next)
with_provider-Responds h generation state next k =
    elim (Bool-cases (state.has_provider || h.loads)) [
      | inl there ↦ rw there (k (record state { has_provider = true }))
      | inr missing ↦ rw missing (error-Responds model_unavailable generation state)
    ]

pub vault_response-Responds {ℓ} :
    {A : Type ℓ} (generation : ℕ) (encode : A → List ℕ) (m : Outcome VaultError A) (state : State)
    → IsAnswer m
    → ((a : A) → IsResponse generation (encode a))
    → Responds generation (vault_response generation encode m state)
vault_response-Responds generation encode (ok a) state h k = (encode a, refl, k a)
vault_response-Responds generation encode (err e) state h k =
    error-Responds (map_vault_error e) generation state
vault_response-Responds generation encode panic state h k = absurd h
vault_response-Responds generation encode stuck state h k = absurd h

pub written_response-Responds :
    (generation : ℕ) (state : State) (written : Written)
    → IsAnswer written.0
    → Responds generation (written_response generation state written)
written_response-Responds generation state written h =
    vault_response-Responds generation (λ done. encode_ack generation) written.0
      (with_folder state written.1) h λ done. encode_ack-IsResponse generation

pub extract_response-IsResponse :
    (h : Host) (generation : ℕ) (prior : List Sample) (result : IdentityError ⊎ Sample)
    → ((sample : Sample) → result ≡ inr sample → length sample ≡ 128)
    → IsResponse generation (extract_response h generation prior result)
extract_response-IsResponse h generation prior (inl e) k =
    encode_error-IsResponse (map_identity_error e) generation
extract_response-IsResponse h generation prior (inr sample) k =
    elim (Bool-cases (any_duplicate h.is_duplicate prior sample)) [
      | inl twice ↦ rw twice (encode_error-IsResponse duplicate_sample generation)
      | inr new ↦ rw new (encode_sample-IsResponse generation sample (k sample refl))
    ]

pub verify_response-IsResponse :
    (h : Host) (generation : ℕ) (profile : Profile) (result : IdentityError ⊎ Sample)
    → IsResponse generation (verify_response h generation profile result)
verify_response-IsResponse h generation profile (inl e) =
    encode_error-IsResponse (map_identity_error e) generation
verify_response-IsResponse h generation profile (inr candidate) =
    encode_verification-IsResponse generation (h.compares profile candidate)

pub key_response-IsResponse :
    (generation : ℕ) (random : Option (List ℕ))
    → ((key : List ℕ) → random ≡ some key → length key ≡ 32)
    → IsResponse generation (key_response generation random)
key_response-IsResponse generation none h =
    encode_error-IsResponse (map_vault_error VaultError.crypto) generation
key_response-IsResponse generation (some key) h = encode_key-IsResponse generation key (h key refl)
