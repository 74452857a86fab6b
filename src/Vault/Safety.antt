-- ===== src/Vault/Safety.antt =====
-- engine/templates/src/lib.rs: `decode_profile` and `decode_vault` on any bytes at all.
use loofi_face_id.Prelude.{
  ℕ, zero, suc, ◌+◌, ◌*◌, ◌≤◌, ◌≡◌, refl, ap, Bool, true, not, ◌&&◌, Option, none, some, List, [],
  ◌∷◌, arith, leb, ◌==◌, length, Outcome, ok, err, panic, stuck, ◌>>=◌, ◌>>◌, guard, ok_or,
  IsAnswer, Ensures, Ensures->>=, Ensures-guard, bytes_eq, index_be16, index_be32,
}
use loofi_face_id.Vault.Cursor.{
  VaultError, crypto, corrupt, unknown_schema, wrong_uid, model_mismatch, profile_bounds,
  invalid_embedding, prepend, split_at?, take_bytes, read_u8, read_u16, read_u32, read_string,
}
use loofi_face_id.Vault.Codec.{
  embedding_dimension, Sample, Profile, read_value, read_values, new_profile, read_samples,
  decode_samples, decode_profile, profile_magic, detector_model_id, embedding_model_id,
  sface_model_sha256, embedding_format_id, profile_schema, normalization_version,
}
use loofi_face_id.Vault.Codec.{
  vault_magic, vault_schema, nonce_bytes, tag_bytes, outer_header_bytes, maximum_vault_bytes,
}
use loofi_face_id.Vault.Envelope.{Cipher, associated_data, slice, decode_vault}

-- A step of which only the answer matters.
pub Ensures-after :
    {A B : Type 0} (Q : B → Type 0) (m : Outcome VaultError A) (f : A → Outcome VaultError B)
    → IsAnswer m
    → ((a : A) → Ensures Q (f a))
    → Ensures Q (m >>= f)
Ensures-after Q (ok a) f h k = k a
Ensures-after Q (err e) f h k = tt
Ensures-after Q panic f h k = h
Ensures-after Q stuck f h k = h

ok_or-IsAnswer : {A : Type 0} (o : Option A) (e : VaultError) → IsAnswer (ok_or o e)
ok_or-IsAnswer none e = tt
ok_or-IsAnswer (some a) e = tt

read_u16-IsAnswer : (bytes : List ℕ) → IsAnswer (read_u16 bytes)
read_u16-IsAnswer [] = tt
read_u16-IsAnswer (a ∷ []) = tt
read_u16-IsAnswer (a ∷ b ∷ bytes) = tt

read_u32-IsAnswer : (bytes : List ℕ) → IsAnswer (read_u32 bytes)
read_u32-IsAnswer [] = tt
read_u32-IsAnswer (a ∷ []) = tt
read_u32-IsAnswer (a ∷ b ∷ []) = tt
read_u32-IsAnswer (a ∷ b ∷ c ∷ []) = tt
read_u32-IsAnswer (a ∷ b ∷ c ∷ d ∷ bytes) = tt

read_value-IsAnswer : (bytes : List ℕ) → IsAnswer (read_value bytes)
read_value-IsAnswer [] = tt
read_value-IsAnswer (a ∷ []) = tt
read_value-IsAnswer (a ∷ b ∷ []) = tt
read_value-IsAnswer (a ∷ b ∷ c ∷ []) = tt
read_value-IsAnswer (a ∷ b ∷ c ∷ d ∷ bytes) = tt

read_string-IsAnswer : (bytes : List ℕ) → IsAnswer (read_string bytes)
unfolding read_string
read_string-IsAnswer [] = tt
read_string-IsAnswer (count ∷ bytes) =
    ground (arith, ok_or-IsAnswer (split_at? count bytes) corrupt)

read_values-Ensures : (n : ℕ) (bytes : List ℕ) → Ensures (λ t. length t.0 ≡ n) (read_values n bytes)
unfolding read_values
read_values-Ensures zero bytes = refl
read_values-Ensures (suc n) bytes =
    let Q : Sample × List ℕ → Type 0 = λ t. length t.0 ≡ suc n in
    Ensures-after Q (read_value bytes) _ (read_value-IsAnswer bytes) λ v.
      Ensures->>= (λ t. length t.0 ≡ n) Q (read_values n v.1) _ (read_values-Ensures n v.1)
        λ vs h. ap suc h

module _ (is_normalized : Sample → Bool) where
  abbrev pub AreDecoded : Profile → Type 0
  AreDecoded [] = Unit {0}
  AreDecoded (sample ∷ profile) =
      (length sample ≡ embedding_dimension) × (is_normalized sample ≡ true) × AreDecoded profile

  -- Three to eight samples of 128 values, each normalized.
  abbrev pub IsDecoded : Profile → Type 0
  IsDecoded profile = (3 ≤ length profile) × (length profile ≤ 8) × AreDecoded profile

  read_samples-Ensures :
      (n : ℕ) (bytes : List ℕ) → Ensures (λ t. AreDecoded t.0) (read_samples is_normalized n bytes)
  unfolding read_samples
  read_samples-Ensures zero bytes = tt
  read_samples-Ensures (suc n) bytes =
      let Q : Profile × List ℕ → Type 0 = λ t. AreDecoded t.0 in
      Ensures->>= (λ t. length t.0 ≡ embedding_dimension) Q (read_values embedding_dimension bytes)
        _ (read_values-Ensures embedding_dimension bytes)
        λ s size. Ensures-guard Q (is_normalized s.0) invalid_embedding _ λ normalized.
          Ensures->>= Q Q (read_samples is_normalized n s.1) _ (read_samples-Ensures n s.1)
            λ t h. (size, normalized, h)

  pub new_profile-Ensures :
      (samples : List Sample) → AreDecoded samples → Ensures IsDecoded (new_profile samples)
  unfolding new_profile
  new_profile-Ensures samples h =
      Ensures-guard IsDecoded (leb 3 (length samples) && leb (length samples) 8) profile_bounds _
        λ t. (ground arith, ground arith, h)

  read_u8-IsAnswer : (bytes : List ℕ) → IsAnswer (read_u8 bytes)
  read_u8-IsAnswer [] = tt
  read_u8-IsAnswer (b ∷ bytes) = tt

  decode_samples-Ensures : (bytes : List ℕ) → Ensures IsDecoded (decode_samples is_normalized bytes)
  unfolding decode_samples
  decode_samples-Ensures bytes =
      Ensures-after IsDecoded (read_u8 bytes) _ (read_u8-IsAnswer bytes) λ c.
        Ensures-guard IsDecoded (leb 3 c.0 && leb c.0 8) profile_bounds _ λ _.
          Ensures-guard IsDecoded (length c.1 == c.0 * embedding_dimension * 4) corrupt _ λ _.
            Ensures->>= (λ t. AreDecoded t.0) IsDecoded (read_samples is_normalized c.0 c.1) _
              (read_samples-Ensures c.0 c.1) λ t h. new_profile-Ensures t.0 h

  decode_profile-Ensures :
      (plaintext : List ℕ) (uid : ℕ)
      → Ensures IsDecoded (decode_profile is_normalized plaintext uid)
  unfolding decode_profile
  decode_profile-Ensures plaintext uid =
      let Q = IsDecoded in
      Ensures-after Q (take_bytes 8 plaintext) _ (ok_or-IsAnswer (split_at? 8 plaintext) corrupt)
        λ m. Ensures-guard Q (bytes_eq m.0 profile_magic) corrupt _ λ _.
          Ensures-after Q (read_u16 m.1) _ (read_u16-IsAnswer m.1) λ s.
            Ensures-guard Q (s.0 == profile_schema) unknown_schema _ λ _.
              Ensures-after Q (read_u32 s.1) _ (read_u32-IsAnswer s.1) λ u.
                Ensures-guard Q (u.0 == uid) wrong_uid _ λ _. text u.1 detector_model_id _ λ b4.
                  text b4 embedding_model_id _ λ b5. text b5 sface_model_sha256 _ λ b6.
                    text b6 embedding_format_id _ λ b7.
                      word b7 embedding_dimension _
                        λ b8. word b8 normalization_version _ λ b9. decode_samples-Ensures b9
    where
      text :
          (bytes expected : List ℕ) (f : List ℕ → Outcome VaultError Profile)
          → ((rest : List ℕ) → Ensures IsDecoded (f rest))
          → Ensures IsDecoded
              (read_string bytes >>= λ t. guard (bytes_eq t.0 expected) model_mismatch >> f t.1)
      text bytes expected f k =
          Ensures-after IsDecoded (read_string bytes) _ (read_string-IsAnswer bytes)
            λ t. Ensures-guard IsDecoded (bytes_eq t.0 expected) model_mismatch _ λ _. k t.1

      word :
          (bytes : List ℕ) (expected : ℕ) (f : List ℕ → Outcome VaultError Profile)
          → ((rest : List ℕ) → Ensures IsDecoded (f rest))
          → Ensures IsDecoded
              (read_u16 bytes >>= λ t. guard (t.0 == expected) model_mismatch >> f t.1)
      word bytes expected f k =
          Ensures-after IsDecoded (read_u16 bytes) _ (read_u16-IsAnswer bytes)
            λ t. Ensures-guard IsDecoded (t.0 == expected) model_mismatch _ λ _. k t.1

split_at?-length :
    (n : ℕ) (bytes : List ℕ)
    → n ≤ length bytes
    → (front : List ℕ) × (rest : List ℕ) × (split_at? n bytes ≡ some (front, rest))
      × (length front ≡ n)
      × (n + length rest ≡ length bytes)
split_at?-length zero bytes h = ([], bytes, refl, refl, omega arith)
split_at?-length (suc n) [] h = absurd (omega arith)
split_at?-length (suc n) (b ∷ bytes) h =
    let (front, rest, e, f, r) = split_at?-length n bytes (omega arith) in
    (b ∷ front, rest, ap (prepend b) e, ap suc f, omega arith)

slice-Ensures :
    (n : ℕ) (bytes : List ℕ)
    → n ≤ length bytes
    → Ensures (λ t. (length t.0 ≡ n) × (n + length t.1 ≡ length bytes)) (slice n bytes)
slice-Ensures n bytes h =
    let (front, rest, e, f, r) = split_at?-length n bytes h in rw (e, slice) (f, r)

index_be16-IsAnswer :
    (bytes : List ℕ) → length bytes ≡ 2 → IsAnswer (index_be16 {E = VaultError} bytes 0 1)
index_be16-IsAnswer [] h = absurd (omega arith)
index_be16-IsAnswer (a ∷ []) h = absurd (omega arith)
index_be16-IsAnswer (a ∷ b ∷ bytes) h = tt

index_be32-IsAnswer :
    (bytes : List ℕ) → length bytes ≡ 4 → IsAnswer (index_be32 {E = VaultError} bytes 0 1 2 3)
index_be32-IsAnswer [] h = absurd (omega arith)
index_be32-IsAnswer (a ∷ []) h = absurd (omega arith)
index_be32-IsAnswer (a ∷ b ∷ []) h = absurd (omega arith)
index_be32-IsAnswer (a ∷ b ∷ c ∷ []) h = absurd (omega arith)
index_be32-IsAnswer (a ∷ b ∷ c ∷ d ∷ bytes) h = tt

module _ (cipher : Cipher) (is_normalized : Sample → Bool) where
  -- `decode_vault` ends on any bytes, under any key, without a slice out of range or another panic,
  -- whatever the cipher answers, and a profile that it returns has three to eight samples of 128
  -- values, each normalized.
  pub decode_vault-Ensures :
      (bytes key : List ℕ) (uid : ℕ)
      → Ensures (IsDecoded is_normalized) (decode_vault cipher is_normalized bytes key uid)
  unfolding decode_vault
  decode_vault-Ensures bytes key uid =
      let Q = IsDecoded is_normalized in
      Ensures-guard Q
        (leb outer_header_bytes (length bytes) && leb (length bytes) maximum_vault_bytes) corrupt _
        λ t.
          let long : outer_header_bytes ≤ length bytes = ground arith in
          Ensures->>= _ Q (slice 8 bytes) _ (slice-Ensures 8 bytes (omega arith)) λ m hm.
            Ensures-guard Q (bytes_eq m.0 vault_magic) corrupt _ λ _.
              Ensures->>= _ Q (slice 2 m.1) _ (slice-Ensures 2 m.1 (omega arith)) λ s hs.
                Ensures-after Q (index_be16 s.0 0 1) _ (index_be16-IsAnswer s.0 hs.0) λ version.
                  Ensures-guard Q (version == vault_schema) unknown_schema _ λ _.
                    Ensures->>= _ Q (slice nonce_bytes s.1) _
                      (slice-Ensures nonce_bytes s.1 (omega arith))
                      λ n hn.
                        Ensures->>= _ Q (slice 4 n.1) _ (slice-Ensures 4 n.1 (omega arith)) λ z hz.
                          Ensures-after Q (index_be32 z.0 0 1 2 3) _ (index_be32-IsAnswer z.0 hz.0)
                            λ size.
                              Ensures->>= _ Q (slice tag_bytes z.1) _
                                (slice-Ensures tag_bytes z.1 (omega arith))
                                λ g hg.
                                  Ensures-guard Q
                                    (not (size == 0) && outer_header_bytes + size == length bytes)
                                    corrupt _
                                    λ _.
                                      Ensures-after Q
                                        (ok_or
                                          (cipher.decrypt key n.0 (associated_data uid) g.1 g.0)
                                          crypto)
                                        _ (ok_or-IsAnswer _ crypto)
                                        λ plaintext.
                                          decode_profile-Ensures is_normalized plaintext uid
