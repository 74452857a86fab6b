-- ===== src/Vault/Opening.antt =====
-- engine/templates/src/lib.rs: `decode_vault` opens what `encode_vault` seals.
use loofi_face_id.Prelude.{
  ℕ, ◌+◌, ◌^◌, ◌≤◌, ◌<◌, ◌≡◌, refl, ap, ◌∙◌, Bool, true, false, some, List, [], ◌∷◌, ◌++◌, arith,
  ltb, leb, ◌==◌, ==_refl, length, length-append, ok, ◌>>=◌, IsU32, to_be32, from_be32-byte_of,
}
use mathlib.Core.Path.{subst}
use loofi_face_id.Vault.Cursor.{split_at?, prepend}
use loofi_face_id.Vault.Codec.{
  nonce_bytes, tag_bytes, outer_header_bytes, maximum_vault_bytes, Sample, Profile, decode_profile,
}
use loofi_face_id.Vault.Profiles.{
  IsProfile, plaintext_of, length-samples_bytes, encode_profile-plaintext_of,
  decode_profile-plaintext_of,
}
use loofi_face_id.Vault.Envelope.{
  Cipher, associated_data, slice, envelope, encode_vault, decode_vault,
}

-- What the library documents of AES-256-GCM: a sealed text has the size of the plaintext and a tag
-- of 16 bytes, and opens under the same key, nonce and associated data.
pub record IsCipher (cipher : Cipher) : Type 0 where
  pub sizes :
      (key nonce aad plaintext ciphertext tag : List ℕ)
      → cipher.encrypt key nonce aad plaintext ≡ some (ciphertext, tag)
      → (length ciphertext ≡ length plaintext) × (length tag ≡ tag_bytes)
  pub opens :
      (key nonce aad plaintext ciphertext tag : List ℕ)
      → cipher.encrypt key nonce aad plaintext ≡ some (ciphertext, tag)
      → cipher.decrypt key nonce aad ciphertext tag ≡ some plaintext

split_at?-append : (xs ys : List ℕ) → split_at? (length xs) (xs ++ ys) ≡ some (xs, ys)
split_at?-append [] ys = refl
split_at?-append (x ∷ xs) ys = ap (prepend x) (split_at?-append xs ys)

slice-exact : (n : ℕ) (xs ys : List ℕ) → length xs ≡ n → slice n (xs ++ ys) ≡ ok (xs, ys)
slice-exact n xs ys h =
    subst (λ k. slice k (xs ++ ys) ≡ ok (xs, ys)) h (rw (split_at?-append xs ys, slice) refl)

length-envelope :
    (nonce tag ciphertext : List ℕ)
    → length nonce ≡ nonce_bytes
    → length tag ≡ tag_bytes
    → length (envelope nonce tag ciphertext) ≡ outer_header_bytes + length ciphertext
length-envelope nonce tag ciphertext n t = omega (
  arith,
  length-append nonce (to_be32 (length ciphertext) ++ (tag ++ ciphertext)),
  length-append tag ciphertext,
)

module _ (cipher : Cipher) (is_normalized : Sample → Bool) where
  decode_vault-envelope :
      (key nonce tag ciphertext plaintext : List ℕ) (uid : ℕ)
      → length nonce ≡ nonce_bytes
      → length tag ≡ tag_bytes
      → 0 < length ciphertext
      → length (envelope nonce tag ciphertext) ≤ maximum_vault_bytes
      → cipher.decrypt key nonce (associated_data uid) ciphertext tag ≡ some plaintext
      → decode_vault cipher is_normalized (envelope nonce tag ciphertext) key uid
        ≡ decode_profile is_normalized plaintext uid
  unfolding decode_vault
  decode_vault-envelope key nonce tag ciphertext plaintext uid n t p m opened =
      let len = length-envelope nonce tag ciphertext n t in
      let low : leb outer_header_bytes (length (envelope nonce tag ciphertext)) ≡ true =
        ground arith in
      let high : leb (length (envelope nonce tag ciphertext)) maximum_vault_bytes ≡ true =
        ground arith in
      let nonce_read =
        slice-exact nonce_bytes nonce (to_be32 (length ciphertext) ++ (tag ++ ciphertext)) n in
      let tag_read = slice-exact tag_bytes tag ciphertext t in
      let size = from_be32-byte_of (length ciphertext) (omega arith) in
      let some_text : (length ciphertext == 0) ≡ false = ground arith in
      let exact : (outer_header_bytes + length ciphertext == length (envelope nonce tag ciphertext))
          ≡ true =
        ground arith in
      rw (low, high, nonce_read, size, tag_read, some_text, exact, opened) refl

  length-plaintext_of :
      (profile : Profile) (uid : ℕ)
      → IsProfile is_normalized profile
      → (0 < length (plaintext_of is_normalized profile uid))
        × (length (plaintext_of is_normalized profile uid) ≤ 5000)
  length-plaintext_of profile uid (few, many, hs) =
      omega (arith, length-samples_bytes is_normalized profile hs)

  -- Whatever the random nonce, `decode_vault` opens what `encode_vault` seals of a profile that
  -- satisfies its invariant, under the same key and uid, when the cipher seals it at all: no bound
  -- of the envelope is in the way.
  pub decode_vault-encode_vault :
      (profile : Profile) (key nonce ciphertext tag : List ℕ) (uid : ℕ)
      → IsCipher cipher
      → IsU32 uid
      → IsProfile is_normalized profile
      → length nonce ≡ nonce_bytes
      → cipher.encrypt key nonce (associated_data uid) (plaintext_of is_normalized profile uid)
        ≡ some (ciphertext, tag)
      → (encode_vault cipher is_normalized (some nonce) profile key uid >>= λ bytes.
          decode_vault cipher is_normalized bytes key uid)
        ≡ ok profile
  unfolding encode_vault
  decode_vault-encode_vault profile key nonce ciphertext tag uid law u h n sealed =
      let plaintext = plaintext_of is_normalized profile uid in
      let (text_size, tag_size) =
        law.sizes key nonce (associated_data uid) plaintext ciphertext tag sealed in
      let opened = law.opens key nonce (associated_data uid) plaintext ciphertext tag sealed in
      let (some_text, small) = length-plaintext_of profile uid h in
      let len = length-envelope nonce tag ciphertext n tag_size in
      let short : ltb (length ciphertext) (2 ^ 32) ≡ true = ground arith in
      let fits : leb (length (envelope nonce tag ciphertext)) maximum_vault_bytes ≡ true =
        ground arith in
      rw (encode_profile-plaintext_of is_normalized profile uid h.1, sealed, short, fits)
        (decode_vault-envelope key nonce tag ciphertext plaintext uid n tag_size (omega arith)
            (omega arith) opened
          ∙ decode_profile-plaintext_of is_normalized profile uid uid u h
          ∙ rw (==_refl uid) refl)
