-- ===== src/Vault/Envelope.antt =====
-- engine/templates/src/lib.rs: `associated_data`, `encode_vault` and `decode_vault`, over the
-- cipher of the crypto library, AES-256-GCM, and its documented behaviour.
use loofi_face_id.Prelude.{
  ℕ, ◌+◌, ◌^◌, Bool, not, ◌&&◌, Option, none, some, List, ◌∷◌, ◌++◌, ltb, leb, ◌==◌, length,
  Outcome, ok, panic, ◌>>=◌, ◌>>◌, guard, ok_or, to_be16, to_be32, bytes_eq, ascii, index_be16,
  index_be32,
}
use loofi_face_id.Vault.Cursor.{
  VaultError, crypto, oversized, corrupt, unknown_schema, Read, split_at?,
}
use loofi_face_id.Vault.Codec.{
  vault_magic, vault_schema, nonce_bytes, tag_bytes, outer_header_bytes, maximum_vault_bytes,
  detector_model_id, embedding_model_id, sface_model_sha256, embedding_format_id,
  embedding_dimension, normalization_version, Sample, Profile, encode_profile, decode_profile,
}

-- `encrypt` and `decrypt` under a key, a nonce and associated data; `none` is an error.
pub record Cipher : Type 0 where
  pub encrypt : List ℕ → List ℕ → List ℕ → List ℕ → Option (List ℕ × List ℕ)
  pub decrypt : List ℕ → List ℕ → List ℕ → List ℕ → List ℕ → Option (List ℕ)

unfoldable pub associated_data : ℕ → List ℕ
associated_data uid =
    ascii "io.github.loofiboss_bit.KFaceAuth/user-session-vault"
    ++ (to_be16 vault_schema
        ++ (to_be32 uid
            ++ (detector_model_id
                ++ (0
                    ∷ (embedding_model_id
                        ++ (0
                            ∷ (sface_model_sha256
                                ++ (0
                                    ∷ (embedding_format_id
                                        ++ (to_be16 embedding_dimension
                                            ++ to_be16 normalization_version))))))))))

-- `bytes[..count]` and what follows: a slice out of range panics.
abbrev pub slice : ℕ → List ℕ → Read (List ℕ)
slice count bytes = elim (split_at? count bytes) [ none ↦ panic | some t ↦ ok t ]

-- The bytes of an envelope.
abbrev pub envelope : List ℕ → List ℕ → List ℕ → List ℕ
envelope nonce tag ciphertext =
    vault_magic
    ++ (to_be16 vault_schema ++ (nonce ++ (to_be32 (length ciphertext) ++ (tag ++ ciphertext))))

module _ (cipher : Cipher) (is_normalized : Sample → Bool) where
  -- `encode_vault`, with the nonce that `random` gives, if it gives one.
  unfoldable pub encode_vault : Option (List ℕ) → Profile → List ℕ → ℕ → Outcome VaultError (List ℕ)
  unfolding encode_profile associated_data
  encode_vault random profile key uid = do
    plaintext ← encode_profile profile uid
    nonce ← ok_or random crypto
    (ciphertext, tag) ← ok_or (cipher.encrypt key nonce (associated_data uid) plaintext) crypto
    guard (ltb (length ciphertext) (2 ^ 32)) oversized
    let output = envelope nonce tag ciphertext
    guard (leb (length output) maximum_vault_bytes) oversized
    ok output

  unfoldable pub decode_vault : List ℕ → List ℕ → ℕ → Outcome VaultError Profile
  unfolding decode_profile associated_data
  decode_vault bytes key uid = do
    guard (leb outer_header_bytes (length bytes) && leb (length bytes) maximum_vault_bytes) corrupt
    (magic, b1) ← slice 8 bytes
    guard (bytes_eq magic vault_magic) corrupt
    (schema, b2) ← slice 2 b1
    version ← index_be16 schema 0 1
    guard (version == vault_schema) unknown_schema
    (nonce, b3) ← slice nonce_bytes b2
    (size, b4) ← slice 4 b3
    ciphertext_length ← index_be32 size 0 1 2 3
    (tag, ciphertext) ← slice tag_bytes b4
    guard (not (ciphertext_length == 0) && outer_header_bytes + ciphertext_length == length bytes)
        corrupt
    plaintext ← ok_or (cipher.decrypt key nonce (associated_data uid) ciphertext tag) crypto
    decode_profile is_normalized plaintext uid
