-- ===== src/Vault/Installed.antt =====
-- engine/templates/src/freshness.rs: what a verified profile is.
use loofi_face_id.Prelude.{
  ℕ, zero, suc, ◌+◌, ◌≤◌, ◌≡◌, refl, sym, ap, ◌∙◌, true, ◌&&◌, Option, none, some, List, [], ◌∷◌,
  ◌++◌, arith, leb, ◌==◌, le→leb, ==_iff, length, take, drop, take-append-drop, length-take_le,
  length-drop, drop-drop, ◌%◌, Outcome, ok, err, panic, stuck, ◌>>=◌, ok_or, Ensures, Ensures->>=,
  Ensures-ok_or, Ensures-guard, bytes_eq, bytes_eq→eq, to_be16, to_be32,
}
use loofi_face_id.AuthPolicy.Files.{Metadata}
use loofi_face_id.Vault.Freshness.{
  FreshnessError, freshness_error, magic, is_protected, is_untouched, metadata_bytes,
  max_vault_bytes, Reading, read_protected, slice, decode_metadata, metadata_of, VerifyCalls,
  is_protected_directory, is_same_directory, digest_of_vault, verified_source_at,
}

slice-take {ℓ} :
    {E : Type ℓ} (from n : ℕ) (bytes : List ℕ)
    → from + n ≤ length bytes
    → slice {E = E} from n bytes ≡ ok (take n (drop from bytes))
slice-take from n bytes h = rw (le→leb (from + n) (length bytes) h) refl

pub take-length : (n : ℕ) (xs : List ℕ) → length xs ≡ n → take n xs ≡ xs
take-length zero [] h = refl
take-length zero (x ∷ xs) h = absurd (omega arith)
take-length (suc n) [] h = refl
take-length (suc n) (x ∷ xs) h = ap (λ t. x ∷ t) (take-length n xs (omega arith))

-- A list from one place on: the bytes up to the next place, and what follows them.
drop-take : (m n c : ℕ) (xs : List ℕ) → c ≡ m + n → drop m xs ≡ take n (drop m xs) ++ drop c xs
drop-take m n c xs h =
    sym (take-append-drop n (drop m xs)) ∙ ap (λ t. take n (drop m xs) ++ t) (drop-drop n m c xs h)

metadata_fields :
    (bytes : List ℕ)
    → length bytes ≡ 78
    → bytes
      ≡ take 8 bytes
        ++ (take 2 (drop 8 bytes)
            ++ (take 4 (drop 10 bytes) ++ (take 32 (drop 14 bytes) ++ take 32 (drop 46 bytes))))
metadata_fields bytes h =
    let end = take-length 32 (drop 46 bytes) (omega (arith, length-drop 46 bytes)) in
    let digests =
      drop-take 14 32 46 bytes refl ∙ ap (λ t. take 32 (drop 14 bytes) ++ t) (sym end) in
    let owner = drop-take 10 4 14 bytes refl ∙ ap (λ t. take 4 (drop 10 bytes) ++ t) digests in
    let version = drop-take 8 2 10 bytes refl ∙ ap (λ t. take 2 (drop 8 bytes) ++ t) owner in
    sym (take-append-drop 8 bytes) ∙ ap (λ t. take 8 bytes ++ t) version

put_together :
    (bytes a b c a' b' c' rest : List ℕ)
    → bytes ≡ a ++ (b ++ (c ++ rest))
    → a ≡ a'
    → b ≡ b'
    → c ≡ c'
    → bytes ≡ a' ++ (b' ++ (c' ++ rest))
put_together bytes a b c a' b' c' rest e ea eb ec = rw (← ea, ← eb, ← ec) e

-- Two digests in the layout of the metadata.
abbrev pub IsLaidOut : ℕ → List ℕ → List ℕ × List ℕ → Type 0
IsLaidOut uid bytes (source, installed) =
    (bytes ≡ metadata_of uid source installed) × (length source ≡ 32) × (length installed ≡ 32)

decode_metadata-Ensures :
    (bytes : List ℕ) (uid : ℕ) → Ensures (IsLaidOut uid bytes) (decode_metadata bytes uid)
unfolding decode_metadata
decode_metadata-Ensures bytes uid =
    let Q = IsLaidOut uid bytes in
    Ensures-guard Q (length bytes == metadata_bytes) freshness_error _ λ t.
      let long : length bytes ≡ 78 = (==_iff (length bytes) 78).0 t in
      rw (slice-take {E = FreshnessError} 0 8 bytes (omega arith)) (
        Ensures-guard Q (bytes_eq (take 8 bytes) magic) freshness_error _ λ start.
          rw (slice-take {E = FreshnessError} 8 2 bytes (omega arith)) (
            Ensures-guard Q (bytes_eq (take 2 (drop 8 bytes)) (to_be16 1)) freshness_error _
              λ version. rw (slice-take {E = FreshnessError} 10 4 bytes (omega arith)) (
                Ensures-guard Q (bytes_eq (take 4 (drop 10 bytes)) (to_be32 uid)) freshness_error _
                  λ owner.
                    rw
                      (
                        slice-take {E = FreshnessError} 14 32 bytes (omega arith),
                        slice-take {E = FreshnessError} 46 32 bytes (omega arith),
                      )
                      (
                        put_together bytes _ _ _ _ _ _ _ (metadata_fields bytes long)
                            (bytes_eq→eq (take 8 bytes) magic start)
                            (bytes_eq→eq (take 2 (drop 8 bytes)) (to_be16 1) version)
                            (bytes_eq→eq (take 4 (drop 10 bytes)) (to_be32 uid) owner),
                        length-take_le 32 (drop 14 bytes) (omega (arith, length-drop 14 bytes)),
                        length-take_le 32 (drop 46 bytes) (omega (arith, length-drop 46 bytes)),
                      ))))

-- A computation's value may be taken for what the computation is equal to.
Ensures-bind {ℓ κ μ} :
    {E : Type ℓ} {A : Type κ} {B : Type μ} (P : A → Type 0) (Q : B → Type 0) (m : Outcome E A)
    (f : A → Outcome E B)
    → Ensures P m
    → ((a : A) → m ≡ ok a → P a → Ensures Q (f a))
    → Ensures Q (m >>= f)
Ensures-bind P Q (ok a) f h k = k a refl h
Ensures-bind P Q (err e) f h k = tt
Ensures-bind P Q panic f h k = h
Ensures-bind P Q stuck f h k = h

Ensures-found {ℓ κ μ} :
    {E : Type ℓ} {A : Type κ} {B : Type μ} (Q : B → Type 0) (o : Option A) (e : E)
    (f : A → Outcome E B)
    → ((a : A) → o ≡ some a → Ensures Q (f a))
    → Ensures Q (ok_or o e >>= f)
Ensures-found Q none e f k = tt
Ensures-found Q (some a) e f k = k a refl

-- A file of root's with one name, that nobody but root can write.
abbrev pub IsRootsFile : Reading → Type 0
IsRootsFile r =
    (m : Metadata) × (r.before ≡ some m) × (m.uid ≡ 0) × (m.mode % 512 ≡ 416) × (m.nlink ≡ 1)

read_protected-Ensures :
    (maximum : ℕ) (r : Reading) → Ensures (λ bytes. IsRootsFile r) (read_protected maximum r)
unfolding read_protected
read_protected-Ensures maximum r =
    let Q : List ℕ → Type 0 = λ bytes. IsRootsFile r in
    Ensures-found Q r.before freshness_error _ λ before at_first.
      Ensures-guard Q (is_protected r.group_id maximum before) freshness_error _ λ t.
        Ensures-found Q r.contents freshness_error _ λ contents _.
          Ensures-found Q r.after freshness_error _ λ after _.
            Ensures-found Q r.last freshness_error _ λ last _.
              Ensures-guard Q
                (leb (length (take (suc maximum) contents)) maximum
                  && is_untouched before after last)
                freshness_error _ λ _. (before, at_first, ground arith, ground arith, ground arith)

-- What stands behind a verified digest: metadata for this uid that were read twice alike, and a vault
-- with the digest they say, both files of root's, in a directory of root's that stayed the same.
abbrev pub IsInstalled : (List ℕ → Option (List ℕ)) → ℕ → VerifyCalls → List ℕ → Type 0
IsInstalled sha256 uid c source =
    (installed : List ℕ) × (vault : List ℕ) × (read_protected metadata_bytes c.metadata
      ≡ ok (metadata_of uid source installed))
    × (read_protected metadata_bytes c.metadata_again ≡ ok (metadata_of uid source installed))
    × (read_protected max_vault_bytes c.vault ≡ ok vault)
    × (sha256 vault ≡ some installed)
    × IsRootsFile c.metadata
    × IsRootsFile c.vault
    × ((before : Metadata) × (after : Metadata) × (c.before ≡ some before)
        × (c.after ≡ some after)
        × (before.uid ≡ 0)
        × (before.mode % 512 ≡ 488)
        × (before.dev ≡ after.dev)
        × (before.ino ≡ after.ino))

is_protected_directory_lem :
    (group : Option ℕ) (m : Metadata)
    → is_protected_directory group m ≡ true
    → (m.uid ≡ 0) × (m.mode % 512 ≡ 488)
is_protected_directory_lem group m h = (ground arith, ground arith)

is_same_directory_lem :
    (before after : Metadata)
    → is_same_directory before after ≡ true
    → (before.dev ≡ after.dev) × (before.ino ≡ after.ino)
is_same_directory_lem before after h = (ground arith, ground arith)

pub digest_of_vault-Ensures :
    (sha256 : List ℕ → Option (List ℕ)) (r : Reading)
    → Ensures
        (λ d.
          (vault : List ℕ) × (read_protected max_vault_bytes r ≡ ok vault)
          × (sha256 vault ≡ some d)
          × IsRootsFile r)
        (digest_of_vault sha256 r)
digest_of_vault-Ensures sha256 r =
    Ensures-bind _ _ (read_protected max_vault_bytes r) _ (read_protected-Ensures max_vault_bytes r)
      λ vault e roots.
        Ensures-ok_or _ (sha256 vault) freshness_error λ d found. (vault, e, found, roots)

-- `verified_source_at` ends without a slice out of range, whatever the files hold and the system
-- calls answer, and a digest that it returns stands in metadata for this uid that were read twice
-- alike, with the digest of the vault's bytes beside it; the metadata and the vault are files of
-- root's of mode 0o640 with one name, in a directory of root's of mode 0o750 that is the same at the
-- end.
pub verified_source_at-Ensures :
    (sha256 : List ℕ → Option (List ℕ)) (uid : ℕ) (c : VerifyCalls)
    → Ensures (IsInstalled sha256 uid c) (verified_source_at sha256 uid c)
unfolding verified_source_at
verified_source_at-Ensures sha256 uid c =
    let Q = IsInstalled sha256 uid c in
    Ensures-found Q c.before freshness_error _ λ before at_first.
      Ensures-guard Q (is_protected_directory c.group_id before) freshness_error _ λ safe.
        Ensures-bind (λ _. IsRootsFile c.metadata) Q (read_protected metadata_bytes c.metadata) _
          (read_protected-Ensures metadata_bytes c.metadata)
          λ metadata e roots.
            Ensures->>= (IsLaidOut uid metadata) Q (decode_metadata metadata uid) _
              (decode_metadata-Ensures metadata uid)
              λ (source, expected) (laid_out, _, _).
                Ensures->>= _ Q (digest_of_vault sha256 c.vault) _
                  (digest_of_vault-Ensures sha256 c.vault)
                  λ actual (vault, read, digest, vault_roots).
                    Ensures-guard Q (bytes_eq actual expected) freshness_error _ λ same_digest.
                      Ensures-bind (λ _. IsRootsFile c.metadata_again) Q
                        (read_protected metadata_bytes c.metadata_again) _
                        (read_protected-Ensures metadata_bytes c.metadata_again)
                        λ again e' _.
                          Ensures-guard Q (bytes_eq again metadata) freshness_error _
                            λ same_metadata.
                              Ensures-found Q c.after freshness_error _ λ after at_last.
                                Ensures-guard Q (is_same_directory before after) freshness_error _
                                  λ same.
                                    let owner = is_protected_directory_lem c.group_id before safe in
                                    let place = is_same_directory_lem before after same in
                                    (
                                      expected,
                                      vault,
                                      e ∙ ap (λ t. ok t) laid_out,
                                      e'
                                          ∙ ap (λ t. ok t)
                                              (bytes_eq→eq again metadata same_metadata ∙ laid_out),
                                      read,
                                      digest
                                          ∙ ap (λ t. some t)
                                              (bytes_eq→eq actual expected same_digest),
                                      roots,
                                      vault_roots,
                                      (
                                        before, after, at_first, at_last, owner.0, owner.1, place.0,
                                        place.1,
                                      ),
                                    )
