-- ===== src/Identity/Request.antt =====
-- engine/identity/src/lib.rs: the requests of the identity worker and the checks of `parse_request`.
-- A key is the list of its 32 bytes, a sample the list of the bit patterns of its 32-bit floats.
use loofi_face_id.Prelude.{
  ℕ, zero, suc, ◌+◌, ◌*◌, Bool, not, ◌&&◌, List, [], ◌∷◌, Option, none, some, Outcome, ok, err,
  panic, ◌>>=◌, ◌>>◌, guard, ok_or, index, length, take, drop, ltb, leb, ◌==◌, is_empty,
  if◌then◌else◌, from_be32, index_be16, index_be32,
}
use loofi_face_id.Vault.Codec.{Sample, embedding_dimension, maximum_profile_samples}
use loofi_face_id.Vision.Image.{max_frame_bytes, ImageView, ImageError, pixel_format, new_image}
use loofi_face_id.Vision.Request.{map_err, generation_of, tail_from}

abbrev pub identity_protocol_version : ℕ
identity_protocol_version = 1

abbrev pub key_bytes : ℕ
key_bytes = 32

abbrev pub max_identity_request_bytes : ℕ
max_identity_request_bytes =
    64 + max_frame_bytes + maximum_profile_samples * embedding_dimension * 4

abbrev pub max_identity_response_bytes : ℕ
max_identity_response_bytes = 64 + embedding_dimension * 4

abbrev pub min_identity_timeout_ms : ℕ
min_identity_timeout_ms = 1

abbrev pub max_identity_timeout_ms : ℕ
max_identity_timeout_ms = 10000

abbrev pub common_header_bytes : ℕ
common_header_bytes = 16

abbrev pub image_header_bytes : ℕ
image_header_bytes = 8

abbrev pub op_status : ℕ
op_status = 1

abbrev pub op_extract_enrollment_sample : ℕ
op_extract_enrollment_sample = 2

abbrev pub op_commit_enrollment : ℕ
op_commit_enrollment = 3

abbrev pub op_list_profile_summary : ℕ
op_list_profile_summary = 4

abbrev pub op_verify_one_frame : ℕ
op_verify_one_frame = 5

abbrev pub op_delete_profile : ℕ
op_delete_profile = 6

abbrev pub op_rotate_vault_key : ℕ
op_rotate_vault_key = 7

abbrev pub op_validate_vault : ℕ
op_validate_vault = 8

abbrev pub op_reset_unreadable : ℕ
op_reset_unreadable = 9

abbrev pub op_generate_key : ℕ
op_generate_key = 10

pub data ErrorCode : Type 0 where
  invalid_request unsupported_version unsupported_operation invalid_generation : ErrorCode
  invalid_timeout invalid_frame no_face multiple_faces poor_quality face_geometry : ErrorCode
  duplicate_sample bad_profile_bounds no_profile vault_locked vault_corrupt : ErrorCode
  bad_model key_unavailable cancelled deadline_exceeded model_unavailable : ErrorCode
  rate_limited internal_failure spoof_detected : ErrorCode

pub data Request : Type 0 where
  status_of : Option (List ℕ) → Request
  extract : List Sample → ImageView → Request
  commit : List ℕ → List Sample → Request
  summary : List ℕ → Request
  verify : List ℕ → ImageView → Request
  delete : List ℕ → Request
  rotate : (old_key new_key : List ℕ) → Request
  validate : List ℕ → Request
  reset : Request
  generate_key : Request

pub record ParsedRequest : Type 0 where
  pub generation : ℕ  -- u64
  pub timeout_ms : ℕ  -- u32
  pub request : Request

pub record RequestError : Type 0 where
  pub code : ErrorCode
  pub generation : ℕ  -- u64

-- `&data[..n]`
abbrev pub head_to {ℓ} : {E : Type ℓ} → ℕ → List ℕ → Outcome E (List ℕ)
head_to n bytes = if leb n (length bytes) then ok (take n bytes) else panic

abbrev pub map_image_error : ImageError → ErrorCode
map_image_error e = invalid_frame

unfoldable pub parse_image : List ℕ → Outcome ErrorCode ImageView
parse_image body = do
  guard (leb image_header_bytes (length body)) invalid_frame
  format_byte ← index body 0
  format ← map_err map_image_error (pixel_format format_byte)
  reserved ← index body 1
  guard (reserved == 0) invalid_frame
  width ← index_be16 body 2 3
  height ← index_be16 body 4 5
  stride ← index_be16 body 6 7
  bytes ← tail_from image_header_bytes body
  map_err map_image_error (new_image format width height stride bytes)

-- `for value in &mut values`: four bytes, the least significant first; a slice out of range panics.
unfoldable pub embedding_values : ℕ → List ℕ → Outcome ErrorCode (Sample × List ℕ)
embedding_values zero bytes = ok ([], bytes)
embedding_values (suc n) (a ∷ b ∷ c ∷ d ∷ bytes) = do
  (values, rest) ← embedding_values n bytes
  ok (from_be32 d c b a ∷ values, rest)
embedding_values (suc n) _ = panic

abbrev pub first_byte : List ℕ → Option ℕ
first_byte [] = none
first_byte (b ∷ bytes) = some b

-- Without flags no key, with one flag a key.
abbrev pub parse_status : ℕ → List ℕ → Outcome ErrorCode Request
parse_status flags body =
    if flags == 0 && is_empty body
    then ok (status_of none)
    else if flags == 1 && length body == key_bytes
    then ok (status_of (some body))
    else err invalid_request

module _ (is_normalized : Sample → Bool) where
  -- `for _ in 0..count`
  unfoldable pub embedding_samples : ℕ → List ℕ → Outcome ErrorCode (List Sample)
  unfolding embedding_values
  embedding_samples zero bytes = ok []
  embedding_samples (suc count) bytes = do
    (values, rest) ← embedding_values embedding_dimension bytes
    guard (is_normalized values) invalid_request
    samples ← embedding_samples count rest
    ok (values ∷ samples)

  -- The products and sums are checked in the code, and far below the bound of `usize`.
  unfoldable pub parse_embeddings : List ℕ → Outcome ErrorCode (List Sample)
  unfolding embedding_samples
  parse_embeddings body = do
    count ← ok_or (first_byte body) invalid_request
    guard (leb count maximum_profile_samples) bad_profile_bounds
    guard (length body == 1 + count * embedding_dimension * 4) invalid_request
    embedding_samples count (drop 1 body)

  unfoldable pub parse_enrollment_image : List ℕ → Outcome ErrorCode (List Sample × ImageView)
  unfolding parse_embeddings parse_image
  parse_enrollment_image body = do
    count ← ok_or (first_byte body) invalid_request
    guard (ltb count maximum_profile_samples) bad_profile_bounds
    let image_offset = 1 + count * embedding_dimension * 4
    guard (ltb image_offset (length body)) invalid_request
    front ← head_to image_offset body
    prior ← parse_embeddings (count ∷ drop 1 front)
    rest ← tail_from image_offset body
    image ← parse_image rest
    ok (prior, image)

  unfoldable pub parse_commit : List ℕ → Outcome ErrorCode Request
  unfolding parse_embeddings
  parse_commit body = do
    guard (leb (key_bytes + 1) (length body)) invalid_request
    key ← head_to key_bytes body
    rest ← tail_from key_bytes body
    samples ← parse_embeddings rest
    ok (commit key samples)

  unfoldable pub parse_extract : List ℕ → Outcome ErrorCode Request
  unfolding parse_enrollment_image
  parse_extract body = do (prior, image) ← parse_enrollment_image body; ok (extract prior image)

unfoldable pub parse_verify : List ℕ → Outcome ErrorCode Request
unfolding parse_image
parse_verify body = do
  key ← head_to key_bytes body
  rest ← tail_from key_bytes body
  image ← parse_image rest
  ok (verify key image)

unfoldable pub parse_rotate : List ℕ → Outcome ErrorCode Request
parse_rotate body = do
  old_key ← head_to key_bytes body
  new_key ← tail_from key_bytes body
  ok (rotate old_key new_key)

module _ (is_normalized : Sample → Bool) where
  -- The match on the operation, its guards in order; a known operation whose guard fails is an
  -- invalid request.
  unfoldable pub parse_operation : (operation flags : ℕ) → List ℕ → Outcome ErrorCode Request
  unfolding parse_extract parse_commit parse_verify parse_rotate
  parse_operation operation flags body =
      let plain = flags == 0 in
      let has_key = plain && length body == key_bytes in
      if operation == op_status && leb flags 1
      then parse_status flags body
      else if operation == op_extract_enrollment_sample && plain
      then parse_extract is_normalized body
      else if operation == op_commit_enrollment && plain
      then parse_commit is_normalized body
      else if operation == op_list_profile_summary && has_key
      then ok (summary body)
      else if operation == op_verify_one_frame && (plain && ltb key_bytes (length body))
      then parse_verify body
      else if operation == op_delete_profile && has_key
      then ok (delete body)
      else if operation == op_rotate_vault_key && (plain && length body == key_bytes * 2)
      then parse_rotate body
      else if operation == op_validate_vault && has_key
      then ok (validate body)
      else if operation == op_reset_unreadable && (plain && is_empty body)
      then ok reset
      else if operation == op_generate_key && (plain && is_empty body)
      then ok generate_key
      else if leb op_status operation && leb operation op_generate_key
      then err invalid_request
      else err unsupported_operation

  unfoldable pub parse_request : List ℕ → Outcome RequestError ParsedRequest
  unfolding parse_operation
  parse_request payload =
      let generation = generation_of payload in
      let invalid : ErrorCode → RequestError =
        λ code. record { code = code; generation = generation } in
      do
        guard (leb common_header_bytes (length payload)) (invalid invalid_request)
        version ← index_be16 payload 0 1
        guard (version == identity_protocol_version) (invalid unsupported_version)
        guard (not (generation == 0)) (invalid invalid_generation)
        operation ← index payload 2
        flags ← index payload 3
        timeout ← index_be32 payload 12 13 14 15
        guard (leb min_identity_timeout_ms timeout && leb timeout max_identity_timeout_ms)
            (invalid invalid_timeout)
        body ← tail_from common_header_bytes payload
        request ← map_err invalid (parse_operation operation flags body)
        ok (record { generation = generation; timeout_ms = timeout; request = request })
