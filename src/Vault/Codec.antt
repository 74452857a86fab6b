-- ===== src/Vault/Codec.antt =====
-- engine/templates/src/lib.rs: `encode_profile`, `decode_profile`, `encode_vault`, `decode_vault`.
-- A sample is the list of the bit patterns of its 32-bit floats, which are read and written bit by
-- bit. Whether a sample is normalized is floating-point arithmetic, and the cipher is the crypto
-- library's: both are parameters.
use loofi_face_id.Prelude.{
  ℕ, expect_u8, zero, suc, ◌+◌, ◌*◌, Bool, ◌&&◌, List, [], ◌∷◌, ◌++◌, Outcome, ok, err, ◌>>=◌, ◌>>◌,
  guard, length, leb, ◌==◌, bytes_eq, ascii, to_be16, to_be32, byte_of, from_be32,
}
use loofi_face_id.Vault.Cursor.{
  VaultError, corrupt, unknown_schema, wrong_uid, model_mismatch, profile_bounds, invalid_embedding,
  Read, take_bytes, read_u8, read_u16, read_u32, read_string, push_string,
}

abbrev pub vault_magic : List ℕ
vault_magic = ascii "KFAVLT04"

abbrev pub profile_magic : List ℕ
profile_magic = ascii "KFAIDP01"

abbrev pub vault_schema : ℕ
vault_schema = 1

abbrev pub profile_schema : ℕ
profile_schema = 1

abbrev pub nonce_bytes : ℕ
nonce_bytes = 12

abbrev pub tag_bytes : ℕ
tag_bytes = 16

abbrev pub outer_header_bytes : ℕ
outer_header_bytes = 8 + 2 + nonce_bytes + 4 + tag_bytes

abbrev pub maximum_vault_bytes : ℕ
maximum_vault_bytes = 16 * 1024

abbrev pub minimum_profile_samples : ℕ
minimum_profile_samples = 3

abbrev pub maximum_profile_samples : ℕ
maximum_profile_samples = 8

abbrev pub embedding_dimension : ℕ
embedding_dimension = 128

abbrev pub normalization_version : ℕ
normalization_version = 1

abbrev pub detector_model_id : List ℕ
detector_model_id = ascii "yunet-2023mar-v1"

abbrev pub embedding_model_id : List ℕ
embedding_model_id = ascii "sface-2021dec-fp32-v1"

abbrev pub sface_model_sha256 : List ℕ
sface_model_sha256 = ascii "0ba9fbfa01b5270c96627c4ef784da859931e02f04419c829e83484087c34e79"

abbrev pub embedding_format_id : List ℕ
embedding_format_id = ascii "sface-f32-le-128-l2-v1"

abbrev pub Sample : Type 0
Sample = List ℕ

abbrev pub Profile : Type 0
Profile = List Sample

-- `f32::to_le_bytes`
abbrev pub to_le32 : ℕ → List ℕ
to_le32 n = byte_of n 1 ∷ byte_of n 256 ∷ byte_of n 65536 ∷ byte_of n 16777216 ∷ []

unfoldable pub values_bytes : Sample → List ℕ
values_bytes [] = []
values_bytes (v ∷ vs) = to_le32 v ++ values_bytes vs

unfoldable pub samples_bytes : Profile → List ℕ
unfolding values_bytes
samples_bytes [] = []
samples_bytes (sample ∷ profile) = values_bytes sample ++ samples_bytes profile

unfoldable pub encode_profile : Profile → ℕ → Outcome VaultError (List ℕ)
unfolding push_string samples_bytes
encode_profile profile uid = do
  o1 ← push_string (profile_magic ++ (to_be16 profile_schema ++ to_be32 uid)) detector_model_id
  o2 ← push_string o1 embedding_model_id
  o3 ← push_string o2 sface_model_sha256
  o4 ← push_string o3 embedding_format_id
  count ← expect_u8 (length profile)
  ok (
      o4
      ++ (to_be16 embedding_dimension
          ++ (to_be16 normalization_version ++ (count ∷ samples_bytes profile))))

-- `f32::from_le_bytes(cursor.take(4)?)`
abbrev pub read_value : List ℕ → Read ℕ
read_value (a ∷ b ∷ c ∷ d ∷ bytes) = ok (from_be32 d c b a, bytes)
read_value [] = err corrupt
read_value (a ∷ []) = err corrupt
read_value (a ∷ b ∷ []) = err corrupt
read_value (a ∷ b ∷ c ∷ []) = err corrupt

-- The loop over the values of a sample.
unfoldable pub read_values : ℕ → List ℕ → Read Sample
read_values zero bytes = ok ([], bytes)
read_values (suc n) bytes = do
  (v, rest) ← read_value bytes
  (vs, rest') ← read_values n rest
  ok (v ∷ vs, rest')

-- `Profile::new`
unfoldable pub new_profile : List Sample → Outcome VaultError Profile
new_profile samples = do
  guard
      (leb minimum_profile_samples (length samples) && leb (length samples) maximum_profile_samples)
      profile_bounds
  ok samples

module _ (is_normalized : Sample → Bool) where
  -- The loop over the samples, with `NormalizedEmbedding::from_normalized`.
  unfoldable pub read_samples : ℕ → List ℕ → Read Profile
  unfolding read_values
  read_samples zero bytes = ok ([], bytes)
  read_samples (suc n) bytes = do
    (sample, rest) ← read_values embedding_dimension bytes
    guard (is_normalized sample) invalid_embedding
    (samples, rest') ← read_samples n rest
    ok (sample ∷ samples, rest')

  -- From the number of samples on.
  unfoldable pub decode_samples : List ℕ → Outcome VaultError Profile
  unfolding read_samples new_profile
  decode_samples bytes = do
    (count, rest) ← read_u8 bytes
    guard (leb minimum_profile_samples count && leb count maximum_profile_samples) profile_bounds
    guard (length rest == count * embedding_dimension * 4) corrupt
    (samples, _) ← read_samples count rest
    new_profile samples

  unfoldable pub decode_profile : List ℕ → ℕ → Outcome VaultError Profile
  unfolding read_string decode_samples
  decode_profile plaintext expected_uid = do
    (magic, b1) ← take_bytes 8 plaintext
    guard (bytes_eq magic profile_magic) corrupt
    (schema, b2) ← read_u16 b1
    guard (schema == profile_schema) unknown_schema
    (uid, b3) ← read_u32 b2
    guard (uid == expected_uid) wrong_uid
    (detector, b4) ← read_string b3
    guard (bytes_eq detector detector_model_id) model_mismatch
    (embedding, b5) ← read_string b4
    guard (bytes_eq embedding embedding_model_id) model_mismatch
    (sha256, b6) ← read_string b5
    guard (bytes_eq sha256 sface_model_sha256) model_mismatch
    (format, b7) ← read_string b6
    guard (bytes_eq format embedding_format_id) model_mismatch
    (dimension, b8) ← read_u16 b7
    guard (dimension == embedding_dimension) model_mismatch
    (normalization, b9) ← read_u16 b8
    guard (normalization == normalization_version) model_mismatch
    decode_samples b9
