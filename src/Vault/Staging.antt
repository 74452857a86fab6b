-- ===== src/Vault/Staging.antt =====
-- engine/templates/src/freshness.rs: the metadata that are staged are verified later.
use loofi_face_id.Prelude.{
  ℕ, ◌≡◌, refl, sym, ap, ◌∙◌, Bool, true, false, ◌&&◌, Option, some, List, ◌++◌, arith,
  if◌then◌else◌, length, take, drop, length-append, take-length_append, drop-length_append, Outcome,
  ok, err, panic, stuck, ◌>>◌, guard, Ensures, bytes_eq, bytes_eq_refl, to_be32,
}
use mathlib.Core.Path.{subst}
use loofi_face_id.AuthPolicy.Files.{Metadata}
use loofi_face_id.Vault.Freshness.{
  FreshnessError, freshness_error, metadata_bytes, max_vault_bytes, current, stale, read_protected,
  decode_metadata, metadata_of, StagingCalls, Staged, written_file, is_free_name, finish_staging,
  stage_file, VerifyCalls, is_protected_directory, is_same_directory, digest_of_vault,
  write_staged_metadata, verified_source_at, profile_freshness,
}
use loofi_face_id.Vault.Installed.{take-length, IsRootsFile, digest_of_vault-Ensures}

decode_metadata-metadata_of :
    (uid : ℕ) (source installed : List ℕ)
    → length source ≡ 32
    → length installed ≡ 32
    → decode_metadata (metadata_of uid source installed) uid ≡ ok (source, installed)
unfolding decode_metadata
decode_metadata-metadata_of uid source installed s i =
    let both : length (source ++ installed) ≡ 64 = omega (arith, length-append source installed) in
    let front : take 32 (source ++ installed) ≡ source =
      subst (λ n. take n (source ++ installed) ≡ source) s (take-length_append source installed) in
    let back : drop 32 (source ++ installed) ≡ installed =
      subst (λ n. drop n (source ++ installed) ≡ installed) s
        (drop-length_append source installed) in
    rw (both, bytes_eq_refl (to_be32 uid), front, back, take-length 32 installed i) refl

ensured {ℓ κ} :
    {E : Type ℓ} {A : Type κ} (Q : A → Type 0) (m : Outcome E A) (a : A)
    → Ensures Q m
    → m ≡ ok a
    → Q a
ensured Q m a h e = subst (λ t. Ensures Q t) e h

guard_passed {ℓ κ} :
    {E : Type ℓ} {B : Type κ} (b : Bool) (e : E) (m : Outcome E B) (a : B)
    → (guard b e >> m) ≡ ok a
    → b ≡ true
guard_passed true e m a h = refl
guard_passed false e m a h = cc

written_file_whole :
    (c : StagingCalls) (bytes : List ℕ)
    → finish_staging c bytes ≡ ok tt
    → written_file c bytes ≡ bytes
written_file_whole c bytes h = rw (guard_passed c.writes freshness_error _ tt h) refl

created_file :
    (creates : Bool) (c : StagingCalls) (bytes : List ℕ) (file : Option (List ℕ)) (staged : Staged)
    → staged ≡ (
        if creates
        then (finish_staging c bytes, some (written_file c bytes))
        else (err freshness_error, file))
    → staged.0 ≡ ok tt
    → staged.1 ≡ some bytes
created_file true c bytes file staged e h =
    ap (λ t. t.1) e ∙ ap (λ t. some t) (written_file_whole c bytes (sym (ap (λ t. t.0) e) ∙ h))
created_file false c bytes file staged e h =
    let failed : err freshness_error ≡ ok tt = sym (ap (λ t. t.0) e) ∙ h in cc

stage_file_lem :
    (c : StagingCalls) (uid : ℕ) (source : List ℕ) (file : Option (List ℕ))
    (digest : Outcome FreshnessError (List ℕ))
    → (stage_file c uid source file digest).0 ≡ ok tt
    → (installed : List ℕ) × (digest ≡ ok installed)
      × ((stage_file c uid source file digest).1 ≡ some (metadata_of uid source installed))
stage_file_lem c uid source file (ok installed) h = (
  installed,
  refl,
  created_file (c.creates && is_free_name file) c (metadata_of uid source installed) file _ refl h,
)
stage_file_lem c uid source file (err e) h = cc
stage_file_lem c uid source file panic h = cc
stage_file_lem c uid source file stuck h = cc

verified_found :
    (sha256 : List ℕ → Option (List ℕ)) (uid : ℕ) (c : VerifyCalls) (before after : Metadata)
    (metadata source installed vault : List ℕ)
    → c.before ≡ some before
    → c.after ≡ some after
    → is_protected_directory c.group_id before ≡ true
    → is_same_directory before after ≡ true
    → read_protected metadata_bytes c.metadata ≡ ok metadata
    → read_protected metadata_bytes c.metadata_again ≡ ok metadata
    → decode_metadata metadata uid ≡ ok (source, installed)
    → read_protected max_vault_bytes c.vault ≡ ok vault
    → sha256 vault ≡ some installed
    → verified_source_at sha256 uid c ≡ ok source
unfolding verified_source_at
verified_found sha256 uid c before after metadata source installed vault at_first at_last safe same
      once twice decoded read digest =
    rw
      (
        at_first,
        safe,
        once,
        decoded,
        read,
        digest,
        bytes_eq_refl installed,
        twice,
        bytes_eq_refl metadata,
        at_last,
        same,
      )
      refl

-- When `write_staged_metadata` has succeeded for a local profile's digest `source`, and the vault is
-- still what it was, later reads of the metadata give what is stored, and the directory is root's and
-- stays the same, then `profile_freshness` calls the installed profile current for exactly that
-- digest and stale for any other. A digest has 32 bytes.
pub profile_freshness-write_staged_metadata :
    (sha256 : List ℕ → Option (List ℕ)) (uid : ℕ) (source local : List ℕ) (s : StagingCalls)
    (c : VerifyCalls) (file : Option (List ℕ)) (before after : Metadata)
    → ((bytes digest : List ℕ) → sha256 bytes ≡ some digest → length digest ≡ 32)
    → length source ≡ 32
    → (write_staged_metadata sha256 uid source s file).0 ≡ ok tt
    → read_protected max_vault_bytes c.vault ≡ read_protected max_vault_bytes s.vault
    → ((stored : List ℕ)
        → (write_staged_metadata sha256 uid source s file).1 ≡ some stored
        → (read_protected metadata_bytes c.metadata ≡ ok stored)
          × (read_protected metadata_bytes c.metadata_again ≡ ok stored))
    → c.before ≡ some before
    → c.after ≡ some after
    → is_protected_directory c.group_id before ≡ true
    → is_same_directory before after ≡ true
    → profile_freshness sha256 true uid local c ≡ (if bytes_eq source local then current else stale)
unfolding profile_freshness verified_source_at write_staged_metadata
profile_freshness-write_staged_metadata sha256 uid source local s c file before after digests long
      done vault reads at_first at_last safe same =
    let (installed, digest, stored) =
      stage_file_lem s uid source file (digest_of_vault sha256 s.vault) done in
    let (once, twice) = reads (metadata_of uid source installed) stored in
    let good : (v : List ℕ) × (read_protected max_vault_bytes s.vault ≡ ok v)
        × (sha256 v ≡ some installed)
        × IsRootsFile s.vault =
      ensured _ _ installed (digest_of_vault-Ensures sha256 s.vault) digest in
    let decoded =
      decode_metadata-metadata_of uid source installed long (digests good.0 installed good.2) in
    rw
      (verified_found sha256 uid c before after (metadata_of uid source installed) source installed
        good.0 at_first at_last safe same once twice decoded (vault ∙ good.1) good.2)
      refl
