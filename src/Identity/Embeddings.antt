-- ===== src/Identity/Embeddings.antt =====
-- engine/identity/src/lib.rs: what `parse_image` and `parse_embeddings` accept.
use loofi_face_id.Prelude.{
  ℕ, zero, suc, ◌+◌, ◌*◌, ◌≤◌, ◌≡◌, refl, ap, Bool, List, [], ◌∷◌, arith, leb, ◌==◌, leb→le, ==_iff,
  length, take, drop, length-drop, ok, Settles, Settles->>=, Settles-guard, Settles-ok_or,
  Settles-weaken, Settles-index, Settles-index_be16,
}
use loofi_face_id.Vault.Codec.{Sample, embedding_dimension, maximum_profile_samples}
use loofi_face_id.Vault.Safety.{AreDecoded}
use loofi_face_id.Vision.Image.{pixel_format, new_image}
use loofi_face_id.Vision.Parsing.{
  IsImage, map_err-Settles, new_image-Settles, pixel_format-Settles, tail_from-drop,
}
use loofi_face_id.Identity.Request.{
  ErrorCode, invalid_request, invalid_frame, bad_profile_bounds, image_header_bytes, head_to,
  map_image_error, parse_image, embedding_values, first_byte, embedding_samples, parse_embeddings,
}

-- Any error will do.
abbrev pub AnyError : {E : Type 0} → E → Type 0
AnyError e = Unit {0}

pub head_to-take :
    {E : Type 0} (n : ℕ) (bytes : List ℕ)
    → n ≤ length bytes
    → head_to {E = E} n bytes ≡ ok (take n bytes)
head_to-take n bytes h = ground arith

pub parse_image-Settles : (body : List ℕ) → Settles AnyError IsImage (parse_image body)
unfolding parse_image
parse_image-Settles body =
    let P : ErrorCode → Type 0 = AnyError in
    Settles-guard P IsImage (leb image_header_bytes (length body)) invalid_frame _ tt λ t.
      let long : 8 ≤ length body = ground arith in
      Settles-index P IsImage body 0 _ (omega arith) λ format_byte.
        Settles->>= P (λ format. Unit {0}) IsImage _ _
          (map_err-Settles P (λ format. Unit {0}) map_image_error (pixel_format format_byte)
            (λ e. tt) (pixel_format-Settles format_byte))
          λ format _. Settles-index P IsImage body 1 _ (omega arith) λ reserved.
            Settles-guard P IsImage (reserved == 0) invalid_frame _ tt λ _.
              Settles-index_be16 P IsImage body 2 3 _ (omega arith) (omega arith) λ width.
                Settles-index_be16 P IsImage body 4 5 _ (omega arith) (omega arith) λ height.
                  Settles-index_be16 P IsImage body 6 7 _ (omega arith) (omega arith) λ stride.
                    rw (tail_from-drop {E = ErrorCode} 8 body long) (
                      map_err-Settles P IsImage map_image_error
                        (new_image format width height stride (drop 8 body)) (λ e. tt)
                        (Settles-weaken (λ e. Unit {0}) IsImage
                          (new_image format width height stride (drop 8 body))
                          (new_image-Settles format width height stride (drop 8 body))
                          λ image view. view.0))

-- The values and what is left, where there are enough bytes.
embedding_values-Settles :
    (n : ℕ) (bytes : List ℕ)
    → n * 4 ≤ length bytes
    → Settles AnyError
        (λ t. (length t.0 ≡ n) × (length t.1 + n * 4 ≡ length bytes))
        (embedding_values n bytes)
unfolding embedding_values
embedding_values-Settles zero bytes h = (refl, omega arith)
embedding_values-Settles (suc n) [] h = absurd (omega arith)
embedding_values-Settles (suc n) (a ∷ []) h = absurd (omega arith)
embedding_values-Settles (suc n) (a ∷ b ∷ []) h = absurd (omega arith)
embedding_values-Settles (suc n) (a ∷ b ∷ c ∷ []) h = absurd (omega arith)
embedding_values-Settles (suc n) (a ∷ b ∷ c ∷ d ∷ bytes) h =
    Settles->>= AnyError (λ t. (length t.0 ≡ n) × (length t.1 + n * 4 ≡ length bytes))
      (λ t. (length t.0 ≡ suc n) × (length t.1 + suc n * 4 ≡ length (a ∷ b ∷ c ∷ d ∷ bytes)))
      (embedding_values n bytes) _ (embedding_values-Settles n bytes (omega arith))
      λ t (size, left). (ap suc size, omega arith)

module _ (is_normalized : Sample → Bool) where
  -- Samples of 128 values, each normalized, and so many of them.
  abbrev pub AreSamples : ℕ → List Sample → Type 0
  AreSamples count samples = (length samples ≡ count) × AreDecoded is_normalized samples

  embedding_samples-Settles :
      (count : ℕ) (bytes : List ℕ)
      → count * 512 ≤ length bytes
      → Settles AnyError (AreSamples count) (embedding_samples is_normalized count bytes)
  unfolding embedding_samples
  embedding_samples-Settles zero bytes h = (refl, tt)
  embedding_samples-Settles (suc count) bytes h =
      let P : ErrorCode → Type 0 = AnyError in
      let Q = AreSamples (suc count) in
      Settles->>= P (λ t. (length t.0 ≡ 128) × (length t.1 + 128 * 4 ≡ length bytes)) Q
        (embedding_values 128 bytes) _ (embedding_values-Settles 128 bytes (omega arith))
        λ t (size, left). Settles-guard P Q (is_normalized t.0) invalid_request _ tt λ normal.
          Settles->>= P (AreSamples count) Q (embedding_samples is_normalized count t.1) _
            (embedding_samples-Settles count t.1 (omega arith))
            λ samples (number, good). (ap suc number, (size, normal, good))

  pub parse_embeddings-Settles :
      (body : List ℕ)
      → Settles AnyError
          (λ samples. (length samples ≤ 8) × AreDecoded is_normalized samples)
          (parse_embeddings is_normalized body)
  unfolding parse_embeddings
  parse_embeddings-Settles body =
      let P : ErrorCode → Type 0 = AnyError in
      let Q : List Sample → Type 0 =
        λ samples. (length samples ≤ 8) × AreDecoded is_normalized samples in
      Settles-ok_or P Q (first_byte body) invalid_request _ tt λ count _.
        Settles-guard P Q (leb count maximum_profile_samples) bad_profile_bounds _ tt λ few.
          Settles-guard P Q (length body == 1 + count * embedding_dimension * 4) invalid_request _
            tt
            λ exact.
              let bound : count ≤ 8 = leb→le count 8 few in
              let size : length body ≡ 1 + count * embedding_dimension * 4 = (==_iff _ _).0 exact in
              Settles-weaken AnyError Q (embedding_samples is_normalized count (drop 1 body))
                (embedding_samples-Settles count (drop 1 body) (omega (arith, length-drop 1 body)))
                λ samples (number, good). (omega arith, good)
