-- ===== src/Vault/Profiles.antt =====
-- engine/templates/src/lib.rs: `decode_profile` reads back what `encode_profile` writes.
use loofi_face_id.Prelude.{
  ℕ, ◌*◌, ◌≤◌, ◌≡◌, refl, inl, inr, Bool, true, List, [], ◌∷◌, ◌++◌, arith, leb, ◌==◌,
  if◌then◌else◌, le→leb, ==_refl, Bool-cases, length, All, length-append, ok, err, ◌>>=◌, IsU32,
  from_be32, byte_of, to_be16, to_be32, from_be32-byte_of,
}
use mathlib.Core.Path.{subst}
use loofi_face_id.Utf8.{is_utf8, utf8_from, utf8_lead}
use loofi_face_id.Vault.Cursor.{wrong_uid, read_string, push_string}
use loofi_face_id.Vault.Codec.{
  embedding_dimension, Sample, Profile, values_bytes, samples_bytes, encode_profile, read_values,
  new_profile, read_samples, decode_samples, decode_profile, profile_magic, detector_model_id,
  embedding_model_id, sface_model_sha256, embedding_format_id, profile_schema,
  normalization_version,
}

-- A sample of 128 bit patterns.
abbrev pub IsSample : Sample → Type 0
IsSample sample = (length sample ≡ embedding_dimension) × All IsU32 sample

from_be32-to_le32 :
    (n : ℕ)
    → IsU32 n
    → from_be32 (byte_of n 16777216) (byte_of n 65536) (byte_of n 256) (byte_of n 1) ≡ n
from_be32-to_le32 n h = from_be32-byte_of n h

read_values-values_bytes :
    (sample : Sample) (rest : List ℕ)
    → All IsU32 sample
    → read_values (length sample) (values_bytes sample ++ rest) ≡ ok (sample, rest)
unfolding read_values values_bytes
read_values-values_bytes [] rest h = refl
read_values-values_bytes (v ∷ vs) rest (h, hs) =
    rw (from_be32-byte_of v h, read_values-values_bytes vs rest hs) refl

length-values_bytes : (sample : Sample) → length (values_bytes sample) ≡ length sample * 4
unfolding values_bytes
length-values_bytes [] = refl
length-values_bytes (v ∷ vs) = omega (arith, length-values_bytes vs)

module _ (is_normalized : Sample → Bool) where
  -- A profile as `Profile::new` and `NormalizedEmbedding` allow it.
  abbrev pub AreSamples : Profile → Type 0
  AreSamples [] = Unit {0}
  AreSamples (sample ∷ profile) =
      IsSample sample × (is_normalized sample ≡ true) × AreSamples profile

  abbrev pub IsProfile : Profile → Type 0
  IsProfile profile = (3 ≤ length profile) × (length profile ≤ 8) × AreSamples profile

  pub length-samples_bytes :
      (profile : Profile)
      → AreSamples profile
      → length (samples_bytes profile) ≡ length profile * embedding_dimension * 4
  unfolding samples_bytes
  length-samples_bytes [] h = refl
  length-samples_bytes (sample ∷ profile) ((n, _), _, hs) = omega (
    arith,
    length-append (values_bytes sample) (samples_bytes profile),
    length-values_bytes sample,
    length-samples_bytes profile hs,
  )

  read_samples-samples_bytes :
      (profile : Profile)
      → AreSamples profile
      → read_samples is_normalized (length profile) (samples_bytes profile) ≡ ok (profile, [])
  unfolding read_samples samples_bytes
  read_samples-samples_bytes [] h = refl
  read_samples-samples_bytes (sample ∷ profile) ((n, u), t, hs) =
      let values : read_values embedding_dimension (values_bytes sample ++ samples_bytes profile)
          ≡ ok (sample, samples_bytes profile) =
        subst
          (λ k.
            read_values k (values_bytes sample ++ samples_bytes profile)
            ≡ ok (sample, samples_bytes profile))
          n (read_values-values_bytes sample (samples_bytes profile) u) in
      rw (values, t, read_samples-samples_bytes profile hs) refl

  decode_samples-samples_bytes :
      (profile : Profile)
      → IsProfile profile
      → decode_samples is_normalized (length profile ∷ samples_bytes profile) ≡ ok profile
  unfolding decode_samples new_profile
  decode_samples-samples_bytes profile (few, many, hs) = simp (
    le→leb 3 (length profile) few,
    le→leb (length profile) 8 many,
    length-samples_bytes profile hs,
    ==_refl (length profile * embedding_dimension * 4),
    read_samples-samples_bytes profile hs,
  )

  -- The plaintext of a profile is the header, the number of samples and the samples.
  abbrev pub plaintext_of : Profile → ℕ → List ℕ
  plaintext_of profile uid =
      profile_magic
      ++ (to_be16 profile_schema
          ++ (to_be32 uid
              ++ (length detector_model_id
                  ∷ (detector_model_id
                      ++ (length embedding_model_id
                          ∷ (embedding_model_id
                              ++ (length sface_model_sha256
                                  ∷ (sface_model_sha256
                                      ++ (length embedding_format_id
                                          ∷ (embedding_format_id
                                              ++ (to_be16 embedding_dimension
                                                  ++ (to_be16 normalization_version
                                                      ++ (length profile
                                                          ∷ samples_bytes profile)))))))))))))

  pub encode_profile-plaintext_of :
      (profile : Profile) (uid : ℕ)
      → length profile ≤ 8
      → encode_profile profile uid ≡ ok (plaintext_of profile uid)
  unfolding encode_profile push_string
  encode_profile-plaintext_of profile uid h =
      let small : leb (length profile) 255 ≡ true = ground arith in rw small refl

  pub decode_profile-plaintext_of :
      (profile : Profile) (uid expected_uid : ℕ)
      → IsU32 uid
      → IsProfile profile
      → decode_profile is_normalized (plaintext_of profile uid) expected_uid
        ≡ (if uid == expected_uid then ok profile else err wrong_uid)
  unfolding decode_profile read_string is_utf8 utf8_from utf8_lead
  decode_profile-plaintext_of profile uid expected_uid u h =
      elim (Bool-cases (uid == expected_uid)) [
        | inl t ↦ rw (from_be32-byte_of uid u, t) (decode_samples-samples_bytes profile h)
        | inr t ↦ rw (from_be32-byte_of uid u, t) refl
      ]

  -- Decoding what `encode_profile` wrote for a uid gives the profile back for that uid, and
  -- `WrongUid` for any other.
  pub decode_profile-encode_profile :
      (profile : Profile) (uid expected_uid : ℕ)
      → IsU32 uid
      → IsProfile profile
      → (encode_profile profile uid >>= λ plaintext.
          decode_profile is_normalized plaintext expected_uid)
        ≡ (if uid == expected_uid then ok profile else err wrong_uid)
  decode_profile-encode_profile profile uid expected_uid u h =
      rw (encode_profile-plaintext_of profile uid h.1)
        (decode_profile-plaintext_of profile uid expected_uid u h)
