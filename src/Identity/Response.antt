-- ===== src/Identity/Response.antt =====
-- engine/identity/src/lib.rs: the responses of the identity worker and `process_request_with_cache`,
-- over the vault's operations and the answers of the identity provider, the clock and the random
-- generator.
use loofi_face_id.Prelude.{
  ℕ, Bool, true, false, ◌||◌, List, [], ◌∷◌, ◌++◌, Option, none, some, Outcome, ok, err, panic,
  stuck, ◌⊎◌, inl, inr, if◌then◌else◌, to_be16, to_be64,
}
use loofi_face_id.Session.Loop.{Reply}
use loofi_face_id.Vault.Cursor.{
  VaultError, io, crypto, key_provider, unavailable, not_found, unsafe_filesystem, lock_timeout,
  oversized, corrupt, unknown_schema, wrong_uid, model_mismatch, profile_bounds, invalid_embedding,
}
use loofi_face_id.Vault.Codec.{Sample, Profile, values_bytes}
use loofi_face_id.Vault.Files.{Owner}
use loofi_face_id.Vault.Replacement.{Folder, Written}
use loofi_face_id.Vault.Store.{VaultCalls}
use loofi_face_id.Vault.Access.{
  VaultStatus, absent, ready, corrupt_vault, other_model, unreachable, StatusCalls,
}
use loofi_face_id.Vision.Image.{ImageView, ProcessingControl}
use loofi_face_id.Identity.Request.{
  identity_protocol_version, ErrorCode, invalid_request, unsupported_version, unsupported_operation,
  invalid_generation, invalid_timeout, invalid_frame, no_face, multiple_faces, poor_quality,
  face_geometry, duplicate_sample, bad_profile_bounds, no_profile, vault_locked, vault_corrupt,
  bad_model, key_unavailable, cancelled, deadline_exceeded, model_unavailable, rate_limited,
  internal_failure, spoof_detected,
}

abbrev pub response_status : ℕ
response_status = 0x81

abbrev pub response_sample : ℕ
response_sample = 0x82

abbrev pub response_ack : ℕ
response_ack = 0x83

abbrev pub response_verification : ℕ
response_verification = 0x84

abbrev pub response_key : ℕ
response_key = 0x85

abbrev pub response_error : ℕ
response_error = 0xff

-- `code as u8`
unfoldable pub error_byte : ErrorCode → ℕ
error_byte invalid_request = 1
error_byte unsupported_version = 2
error_byte unsupported_operation = 3
error_byte invalid_generation = 4
error_byte invalid_timeout = 5
error_byte invalid_frame = 6
error_byte no_face = 7
error_byte multiple_faces = 8
error_byte poor_quality = 9
error_byte face_geometry = 10
error_byte duplicate_sample = 11
error_byte bad_profile_bounds = 12
error_byte no_profile = 13
error_byte vault_locked = 14
error_byte vault_corrupt = 15
error_byte bad_model = 16
error_byte key_unavailable = 17
error_byte cancelled = 18
error_byte deadline_exceeded = 19
error_byte model_unavailable = 20
error_byte rate_limited = 21
error_byte internal_failure = 22
error_byte spoof_detected = 23

abbrev pub response_header : (kind code generation : ℕ) → List ℕ
response_header kind code generation =
    to_be16 identity_protocol_version ++ (kind ∷ code ∷ to_be64 generation)

abbrev pub status_code : VaultStatus → ℕ
status_code absent = 0
status_code (ready s) = 1
status_code corrupt_vault = 2
status_code other_model = 3
status_code unreachable = 4

abbrev pub status_count : VaultStatus → ℕ
status_count (ready s) = s.sample_count
status_count _ = 0

unfoldable pub encode_status : ℕ → VaultStatus → List ℕ
encode_status generation s =
    response_header response_status (status_code s) generation ++ (status_count s ∷ [])

unfoldable pub encode_sample : ℕ → Sample → List ℕ
encode_sample generation sample =
    response_header response_sample 0 generation ++ values_bytes sample

unfoldable pub encode_ack : ℕ → List ℕ
encode_ack generation = response_header response_ack 0 generation

pub data VerificationResult : Type 0 where
  matching no_match ambiguous : VerificationResult

unfoldable pub encode_verification : ℕ → VerificationResult → List ℕ
encode_verification generation matching = response_header response_verification 1 generation
encode_verification generation no_match = response_header response_verification 2 generation
encode_verification generation ambiguous = response_header response_verification 3 generation

unfoldable pub encode_key : ℕ → List ℕ → List ℕ
encode_key generation key = response_header response_key 0 generation ++ key

unfoldable pub encode_error : ErrorCode → ℕ → List ℕ
unfolding error_byte
encode_error code generation = response_header response_error (error_byte code) generation

-- `IdentityError`, without what the detector of presentation attacks and the runtime say.
pub data IdentityError : Type 0 where
  extraction_cancelled extraction_deadline face_missing many_faces low_quality : IdentityError
  bad_geometry liveness_unavailable bad_embedding spoof runtime : IdentityError

unfoldable pub map_identity_error : IdentityError → ErrorCode
map_identity_error extraction_cancelled = cancelled
map_identity_error extraction_deadline = deadline_exceeded
map_identity_error face_missing = no_face
map_identity_error many_faces = multiple_faces
map_identity_error low_quality = poor_quality
map_identity_error bad_geometry = face_geometry
map_identity_error liveness_unavailable = internal_failure
map_identity_error spoof = spoof_detected
map_identity_error bad_embedding = internal_failure
map_identity_error runtime = internal_failure

unfoldable pub map_vault_error : VaultError → ErrorCode
map_vault_error not_found = no_profile
map_vault_error crypto = vault_corrupt
map_vault_error corrupt = vault_corrupt
map_vault_error unknown_schema = vault_corrupt
map_vault_error wrong_uid = vault_corrupt
map_vault_error invalid_embedding = vault_corrupt
map_vault_error model_mismatch = bad_model
map_vault_error profile_bounds = bad_profile_bounds
map_vault_error key_provider = key_unavailable
map_vault_error io = internal_failure
map_vault_error unavailable = internal_failure
map_vault_error unsafe_filesystem = internal_failure
map_vault_error lock_timeout = internal_failure
map_vault_error oversized = internal_failure

-- What the worker meets while it processes the request of one moment: the clock, whether the model
-- files load, the vault's owner where `Vault::production` finds a place for it, the answers of the
-- system, of the provider and of the random generator. Similarity is floating-point arithmetic.
pub record Host : Type 0 where
  pub now : ℕ
  pub last_instant : ℕ
  pub loads : Bool
  pub owner : Option Owner
  pub vault_calls : VaultCalls
  pub status_calls : StatusCalls
  pub extracts : ImageView → ProcessingControl → IdentityError ⊎ Sample
  pub is_duplicate : Sample → Sample → Bool
  pub compares : Profile → Sample → VerificationResult
  pub random_key : Option (List ℕ)

-- What lasts from request to request: whether the provider is in the cache, and the vault.
pub record State : Type 0 where
  pub has_provider : Bool
  pub folder : Folder

abbrev pub Response : Type 0
Response = Reply State

-- A vault operation's result, and the response to a success.
abbrev pub vault_response {ℓ} :
    {A : Type ℓ} → ℕ → (A → List ℕ) → Outcome VaultError A → State → Response
vault_response generation respond (ok a) state = (ok (respond a), state)
vault_response generation respond (err e) state =
    (ok (encode_error (map_vault_error e) generation), state)
vault_response generation respond panic state = (panic, state)
vault_response generation respond stuck state = (stuck, state)

abbrev pub with_folder : State → Folder → State
with_folder state folder = record state { folder = folder }

abbrev pub written_response : ℕ → State → Written → Response
written_response generation state (result, folder) =
    vault_response generation (λ done. encode_ack generation) result (with_folder state folder)

-- `Vault::production`
abbrev pub with_vault : Host → ℕ → State → (Owner → Response) → Response
with_vault h generation state next = elim h.owner [
  | none ↦ (ok (encode_error (map_vault_error unavailable) generation), state)
  | some o ↦ next o
]

-- `get_provider`: the cache is filled once.
abbrev pub with_provider : Host → ℕ → State → (State → Response) → Response
with_provider h generation state next =
    if state.has_provider || h.loads
    then next (record state { has_provider = true })
    else (ok (encode_error model_unavailable generation), state)

-- `prior.iter().any(..)`
unfoldable pub any_duplicate : (Sample → Sample → Bool) → List Sample → Sample → Bool
any_duplicate is_duplicate [] sample = false
any_duplicate is_duplicate (existing ∷ prior) sample =
    is_duplicate existing sample || any_duplicate is_duplicate prior sample

abbrev pub extract_response : Host → ℕ → List Sample → IdentityError ⊎ Sample → List ℕ
extract_response h generation prior (inl e) = encode_error (map_identity_error e) generation
extract_response h generation prior (inr sample) =
    if any_duplicate h.is_duplicate prior sample
    then encode_error duplicate_sample generation
    else encode_sample generation sample

abbrev pub verify_response : Host → ℕ → Profile → IdentityError ⊎ Sample → List ℕ
verify_response h generation profile (inl e) = encode_error (map_identity_error e) generation
verify_response h generation profile (inr candidate) =
    encode_verification generation (h.compares profile candidate)
