-- ===== src/Identity/Parsing.antt =====
-- engine/identity/src/lib.rs: what `parse_request` accepts.
use loofi_face_id.Prelude.{
  ℕ, ◌+◌, ◌*◌, ◌≤◌, ◌≡◌, refl, ◌≢◌, Bool, not, ◌&&◌, none, some, List, ◌∷◌, arith, ltb, leb, ◌==◌,
  ltb→lt, leb→le, length, take, drop, is_empty, length-take, length-drop, Settles, Settles->>=,
  Settles-guard, Settles-ok_or, Settles-if, Settles-index, Settles-index_be16, Settles-index_be32,
}
use loofi_face_id.Vault.Codec.{Sample, embedding_dimension, maximum_profile_samples}
use loofi_face_id.Vault.Safety.{AreDecoded}
use loofi_face_id.Vision.Image.{ImageView}
use loofi_face_id.Vision.Request.{generation_of}
use loofi_face_id.Vision.Parsing.{IsImage, map_err-Settles, tail_from-drop}
use loofi_face_id.Identity.Request.{
  ErrorCode, invalid_request, bad_profile_bounds, unsupported_version, invalid_generation,
  invalid_timeout, Request, status_of, extract, commit, summary, verify, delete, rotate, validate,
  reset, generate_key, ParsedRequest, RequestError, key_bytes, common_header_bytes, parse_image,
  first_byte, parse_embeddings, parse_enrollment_image, parse_status, parse_commit, parse_extract,
  parse_verify, parse_rotate, parse_operation, parse_request, identity_protocol_version,
  min_identity_timeout_ms, max_identity_timeout_ms, op_status, op_extract_enrollment_sample,
  op_commit_enrollment, op_list_profile_summary, op_verify_one_frame, op_delete_profile,
  op_rotate_vault_key, op_validate_vault, op_reset_unreadable, op_generate_key,
}
use loofi_face_id.Identity.Embeddings.{
  AnyError, head_to-take, parse_image-Settles, parse_embeddings-Settles,
}

module _ (is_normalized : Sample → Bool) where
  -- A request whose keys have 32 bytes, whose samples are normalized, and whose image lies inside its
  -- bytes.
  abbrev pub IsRequest : Request → Type 0
  IsRequest (status_of none) = Unit {0}
  IsRequest (status_of (some key)) = length key ≡ key_bytes
  IsRequest (extract prior image) =
      (length prior ≤ 8) × AreDecoded is_normalized prior × IsImage image
  IsRequest (commit key samples) =
      (length key ≡ key_bytes) × (length samples ≤ 8) × AreDecoded is_normalized samples
  IsRequest (summary key) = length key ≡ key_bytes
  IsRequest (verify key image) = (length key ≡ key_bytes) × IsImage image
  IsRequest (delete key) = length key ≡ key_bytes
  IsRequest (rotate old_key new_key) = (length old_key ≡ key_bytes) × (length new_key ≡ key_bytes)
  IsRequest (validate key) = length key ≡ key_bytes
  IsRequest reset = Unit {0}
  IsRequest generate_key = Unit {0}

  parse_extract-Settles :
      (body : List ℕ) → Settles AnyError IsRequest (parse_extract is_normalized body)
  unfolding parse_extract parse_enrollment_image
  parse_extract-Settles body =
      let P : ErrorCode → Type 0 = AnyError in
      let R : List Sample × ImageView → Type 0 =
        λ t. (length t.0 ≤ 8) × AreDecoded is_normalized t.0 × IsImage t.1 in
      let S : List Sample → Type 0 =
        λ samples. (length samples ≤ 8) × AreDecoded is_normalized samples in
      Settles->>= P R IsRequest (parse_enrollment_image is_normalized body) _
        (Settles-ok_or P R (first_byte body) invalid_request _ tt λ count _.
          Settles-guard P R (ltb count maximum_profile_samples) bad_profile_bounds _ tt λ few.
            Settles-guard P R (ltb (1 + count * embedding_dimension * 4) (length body))
              invalid_request _ tt
              λ long.
                let offset = 1 + count * embedding_dimension * 4 in
                let reach : offset ≤ length body =
                  (let lt = ltb→lt offset (length body) long in omega arith) in
                rw
                  (
                    head_to-take {E = ErrorCode} offset body reach,
                    tail_from-drop {E = ErrorCode} offset body reach,
                  )
                  (Settles->>= P S R
                    (parse_embeddings is_normalized (count ∷ drop 1 (take offset body))) _
                    (parse_embeddings-Settles is_normalized (count ∷ drop 1 (take offset body)))
                    λ prior (size, good).
                      Settles->>= P IsImage R (parse_image (drop offset body)) _
                        (parse_image-Settles (drop offset body)) λ image view. (size, good, view)))
        λ t h. h

  parse_commit-Settles :
      (body : List ℕ) → Settles AnyError IsRequest (parse_commit is_normalized body)
  unfolding parse_commit
  parse_commit-Settles body =
      let P : ErrorCode → Type 0 = AnyError in
      let S : List Sample → Type 0 =
        λ samples. (length samples ≤ 8) × AreDecoded is_normalized samples in
      Settles-guard P IsRequest (leb (key_bytes + 1) (length body)) invalid_request _ tt λ t.
        let long : 32 ≤ length body =
          (let le = leb→le (key_bytes + 1) (length body) t in omega arith) in
        rw (head_to-take {E = ErrorCode} 32 body long, tail_from-drop {E = ErrorCode} 32 body long)
          (Settles->>= P S IsRequest (parse_embeddings is_normalized (drop 32 body)) _
            (parse_embeddings-Settles is_normalized (drop 32 body))
            λ samples (size, good). (omega (arith, length-take 32 body), size, good))

  parse_verify-Settles :
      (body : List ℕ) → 32 ≤ length body → Settles AnyError IsRequest (parse_verify body)
  unfolding parse_verify
  parse_verify-Settles body long =
      rw (head_to-take {E = ErrorCode} 32 body long, tail_from-drop {E = ErrorCode} 32 body long)
        (Settles->>= AnyError IsImage IsRequest (parse_image (drop 32 body)) _
          (parse_image-Settles (drop 32 body))
          λ image view. (omega (arith, length-take 32 body), view))

  parse_rotate-Settles :
      (body : List ℕ) → length body ≡ 64 → Settles AnyError IsRequest (parse_rotate body)
  unfolding parse_rotate
  parse_rotate-Settles body size =
      rw
        (
          head_to-take {E = ErrorCode} 32 body (omega arith),
          tail_from-drop {E = ErrorCode} 32 body (omega arith),
        )
        (omega (arith, length-take 32 body), omega (arith, length-drop 32 body))

  parse_status-Settles :
      (flags : ℕ) (body : List ℕ) → Settles AnyError IsRequest (parse_status flags body)
  parse_status-Settles flags body =
      Settles-if AnyError IsRequest (flags == 0 && is_empty body) _ _ (λ _. tt)
        λ _.
          Settles-if AnyError IsRequest (flags == 1 && length body == key_bytes) _ _
            (λ t. ground arith) λ _. tt

  parse_operation-Settles :
      (operation flags : ℕ) (body : List ℕ)
      → Settles AnyError IsRequest (parse_operation is_normalized operation flags body)
  unfolding parse_operation
  parse_operation-Settles operation flags body =
      let P : ErrorCode → Type 0 = AnyError in
      let Q = IsRequest in
      let plain = flags == 0 in
      let has_key = plain && length body == key_bytes in
      Settles-if P Q (operation == op_status && leb flags 1) _ _
        (λ _. parse_status-Settles flags body)
        λ _.
          Settles-if P Q (operation == op_extract_enrollment_sample && plain) _ _
            (λ _. parse_extract-Settles body)
            λ _.
              Settles-if P Q (operation == op_commit_enrollment && plain) _ _
                (λ _. parse_commit-Settles body)
                λ _.
                  Settles-if P Q (operation == op_list_profile_summary && has_key) _ _
                    (λ t. ground arith)
                    λ _.
                      Settles-if P Q
                        (operation == op_verify_one_frame && (plain && ltb key_bytes (length body)))
                        _ _ (λ t. parse_verify-Settles body (ground arith))
                        λ _.
                          Settles-if P Q (operation == op_delete_profile && has_key) _ _
                            (λ t. ground arith)
                            λ _.
                              Settles-if P Q
                                (operation == op_rotate_vault_key
                                  && (plain && length body == key_bytes * 2))
                                _ _ (λ t. parse_rotate-Settles body (ground arith))
                                λ _.
                                  Settles-if P Q (operation == op_validate_vault && has_key) _ _
                                    (λ t. ground arith)
                                    λ _.
                                      Settles-if P Q
                                        (operation == op_reset_unreadable
                                          && (plain && is_empty body))
                                        _ _ (λ _. tt)
                                        λ _.
                                          Settles-if P Q
                                            (operation == op_generate_key
                                              && (plain && is_empty body))
                                            _ _ (λ _. tt)
                                            λ _.
                                              Settles-if P Q
                                                (leb op_status operation
                                                  && leb operation op_generate_key)
                                                _ _ (λ _. tt) λ _. tt

  -- What `parse_request` accepts.
  abbrev pub IsAccepted : List ℕ → ParsedRequest → Type 0
  IsAccepted payload r =
      (r.generation ≡ generation_of payload)
      × (r.generation ≢ 0)
      × (1 ≤ r.timeout_ms)
      × (r.timeout_ms ≤ 10000)
      × IsRequest r.request

  -- The identity worker's `parse_request` ends on any payload without an index or a slice out of
  -- range: with a request that carries the payload's generation, which is not 0, and a timeout of 1
  -- to 10000 ms, whose keys have 32 bytes, whose at most eight samples are normalized and have 128
  -- values, and whose image lies inside its bytes; or with an error that carries the payload's
  -- generation, 0 where the payload is too short for one.
  pub parse_request-IsAccepted :
      (payload : List ℕ)
      → Settles
          (λ e. e.generation ≡ generation_of payload)
          (IsAccepted payload)
          (parse_request is_normalized payload)
  unfolding parse_request
  parse_request-IsAccepted payload =
      let generation = generation_of payload in
      let invalid : ErrorCode → RequestError =
        λ code. record { code = code; generation = generation } in
      let P : RequestError → Type 0 = λ e. e.generation ≡ generation in
      let Q = IsAccepted payload in
      Settles-guard P Q (leb common_header_bytes (length payload)) (invalid invalid_request) _ refl
        λ t.
          let long : 16 ≤ length payload = leb→le 16 (length payload) t in
          Settles-index_be16 P Q payload 0 1 _ (omega arith) (omega arith) λ version.
            Settles-guard P Q (version == identity_protocol_version) (invalid unsupported_version) _
              refl
              λ _.
                Settles-guard P Q (not (generation == 0)) (invalid invalid_generation) _ refl
                  λ some_generation. Settles-index P Q payload 2 _ (omega arith) λ operation.
                    Settles-index P Q payload 3 _ (omega arith) λ flags.
                      Settles-index_be32 P Q payload 12 13 14 15 _ (omega arith) (omega arith)
                        (omega arith) (omega arith)
                        λ timeout.
                          Settles-guard P Q
                            (leb min_identity_timeout_ms timeout
                              && leb timeout max_identity_timeout_ms)
                            (invalid invalid_timeout) _ refl
                            λ in_time. rw (tail_from-drop {E = RequestError} 16 payload long) (
                              Settles->>= P IsRequest Q _ _
                                (map_err-Settles P IsRequest invalid
                                  (parse_operation is_normalized operation flags (drop 16 payload))
                                  (λ _. refl)
                                  (parse_operation-Settles operation flags (drop 16 payload)))
                                λ request good.
                                  (refl, ground arith, ground arith, ground arith, good))
