-- ===== src/Vault/Staged.antt =====
-- Metadata of a system profile, staged and verified.
use loofi_face_id.Prelude.{
  ℕ, ◌≡◌, refl, true, false, Option, some, none, List, [], ◌∷◌, if◌then◌else◌, bytes_eq, ok,
  Ensures, length,
}
use mathlib.Core.Path.{subst}
use loofi_face_id.AuthPolicy.Files.{Metadata}
use loofi_face_id.Vault.Tests.{zeros}
use loofi_face_id.Vault.Freshness.{
  current, stale, Reading, StagingCalls, VerifyCalls, metadata_of, read_protected,
  write_staged_metadata, verified_source_at, profile_freshness,
}
use loofi_face_id.Vault.Installed.{IsInstalled, verified_source_at-Ensures}
use loofi_face_id.Vault.Staging.{profile_freshness-write_staged_metadata}

abbrev digest : List ℕ → Option (List ℕ)
digest bytes = some (zeros 32)

-- A directory of mode 0o750 and a file of mode 0o640, of the group 900.
abbrev directory : Metadata
directory = record {
  is_dir = true;
  is_file = false;
  uid = 0;
  gid = 900;
  mode = 488;
  nlink = 2;
  len = 40;
  dev = 1;
  ino = 7;
  mtime = 5;
  mtime_nsec = 6;
  ctime = 5;
  ctime_nsec = 6;
}

abbrev file : ℕ → Metadata
file len = record directory {
  is_dir = false;
  is_file = true;
  mode = 416;
  nlink = 1;
  len = len;
  ino = 8;
}

abbrev reading : List ℕ → Reading
reading bytes = record {
  before = some (file (length bytes));
  group_id = some 900;
  contents = some bytes;
  after = some (file (length bytes));
  last = some (file (length bytes));
}

abbrev vault_bytes : List ℕ
vault_bytes = 1 ∷ 2 ∷ 3 ∷ []

abbrev source : List ℕ
source = 9 ∷ zeros 31

abbrev metadata : List ℕ
metadata = metadata_of 1000 source (zeros 32)

abbrev staging : StagingCalls
staging = record {
  vault = reading vault_bytes;
  creates = true;
  writes = true;
  partly_written = 0;
  sets_permissions = true;
  syncs = true;
  syncs_directory = true;
  reread = reading metadata;
}

abbrev verification : VerifyCalls
verification = record {
  before = some directory;
  group_id = some 900;
  metadata = reading metadata;
  vault = reading vault_bytes;
  metadata_again = reading metadata;
  after = some directory;
}

staging_succeeds : write_staged_metadata digest 1000 source staging none ≡ (ok tt, some metadata)
unfolding write_staged_metadata
staging_succeeds = refl

verified_source_at-Ensures_example :
    Ensures (IsInstalled digest 1000 verification) (verified_source_at digest 1000 verification)
verified_source_at-Ensures_example = verified_source_at-Ensures digest 1000 verification

digest-length : (bytes d : List ℕ) → digest bytes ≡ some d → length d ≡ 32
digest-length bytes d e = let same : zeros 32 ≡ d = cc in subst (λ t. length t ≡ 32) same refl

metadata_are_read :
    (stored : List ℕ)
    → (write_staged_metadata digest 1000 source staging none).1 ≡ some stored
    → (read_protected 78 verification.metadata ≡ ok stored)
      × (read_protected 78 verification.metadata_again ≡ ok stored)
unfolding write_staged_metadata read_protected
metadata_are_read stored e =
    let found : some metadata ≡ some stored = e in
    let same : metadata ≡ stored = cc in
    subst
      (λ t.
        (read_protected 78 (reading metadata) ≡ ok t)
        × (read_protected 78 (reading metadata) ≡ ok t))
      same (refl, refl)

profile_freshness-write_staged_metadata_example :
    profile_freshness digest true 1000 source verification
    ≡ (if bytes_eq source source then current else stale)
unfolding write_staged_metadata
profile_freshness-write_staged_metadata_example =
    profile_freshness-write_staged_metadata digest 1000 source source staging verification none
      directory directory digest-length refl refl refl metadata_are_read refl refl refl refl
