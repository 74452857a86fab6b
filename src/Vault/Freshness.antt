-- ===== src/Vault/Freshness.antt =====
-- engine/templates/src/freshness.rs: the metadata of an installed system profile, over what the
-- system calls answer. The digest is the crypto library's.
use loofi_face_id.Prelude.{
  ℕ, suc, ◌+◌, ◌*◌, Bool, true, false, not, ◌&&◌, ◌||◌, Option, none, some, List, ◌++◌, Outcome, ok,
  err, panic, stuck, ◌>>=◌, ◌>>◌, guard, ok_or, leb, ◌==◌, if◌then◌else◌, length, take, drop,
  bytes_eq, to_be16, to_be32, ascii,
}
use loofi_face_id.AuthPolicy.Files.{Metadata}
use loofi_face_id.Vault.Files.{is_group, has_mode}

pub data FreshnessError : Type 0 where
  freshness_error : FreshnessError

abbrev pub magic : List ℕ
magic = ascii "KFAFRS01"

abbrev pub metadata_bytes : ℕ
metadata_bytes = 78

abbrev pub max_vault_bytes : ℕ
max_vault_bytes = 16 * 1024

pub data ProfileFreshness : Type 0 where
  unknown current stale : ProfileFreshness

-- What a read of a protected file meets: the file that opens, with its metadata before and after it
-- is read, the answer of `group_id("kfaceauth")`, the file's bytes, and the metadata of what opens
-- under the name at the end.
pub record Reading : Type 0 where
  pub before : Option Metadata
  pub group_id : Option ℕ
  pub contents : Option (List ℕ)
  pub after : Option Metadata
  pub last : Option Metadata

-- A regular file of mode 0o640.
abbrev pub is_protected : Option ℕ → ℕ → Metadata → Bool
is_protected group maximum m = not (
    not m.is_file
    || not (m.uid == 0)
    || not (is_group group m.gid)
    || not (has_mode 416 m)
    || not (m.nlink == 1)
    || m.len == 0
    || not (leb m.len maximum))

abbrev pub is_untouched : (before after last : Metadata) → Bool
is_untouched before after last = not (
    not (before.len == after.len)
    || not (before.mtime == after.mtime)
    || not (before.mtime_nsec == after.mtime_nsec)
    || not (before.ctime == after.ctime)
    || not (before.ctime_nsec == after.ctime_nsec)
    || not (before.dev == last.dev)
    || not (before.ino == last.ino))

unfoldable pub read_protected : ℕ → Reading → Outcome FreshnessError (List ℕ)
read_protected maximum r = do
  before ← ok_or r.before freshness_error
  guard (is_protected r.group_id maximum before) freshness_error
  contents ← ok_or r.contents freshness_error
  let bytes = take (suc maximum) contents
  after ← ok_or r.after freshness_error
  last ← ok_or r.last freshness_error
  guard (leb (length bytes) maximum && is_untouched before after last) freshness_error
  ok bytes

-- `&bytes[from..from + n]`
abbrev pub slice {ℓ} : {E : Type ℓ} → (from n : ℕ) → List ℕ → Outcome E (List ℕ)
slice from n bytes = if leb (from + n) (length bytes) then ok (take n (drop from bytes)) else panic

unfoldable pub decode_metadata : List ℕ → ℕ → Outcome FreshnessError (List ℕ × List ℕ)
decode_metadata bytes uid = do
  guard (length bytes == metadata_bytes) freshness_error
  start ← slice 0 8 bytes
  guard (bytes_eq start magic) freshness_error
  version ← slice 8 2 bytes
  guard (bytes_eq version (to_be16 1)) freshness_error
  owner ← slice 10 4 bytes
  guard (bytes_eq owner (to_be32 uid)) freshness_error
  source ← slice 14 32 bytes
  installed ← slice 46 32 bytes
  ok (source, installed)

-- What `write_staged_metadata` puts together.
abbrev pub metadata_of : ℕ → (source installed : List ℕ) → List ℕ
metadata_of uid source installed = magic ++ (to_be16 1 ++ (to_be32 uid ++ (source ++ installed)))

-- The answers of the calls of `write_staged_metadata`.
pub record StagingCalls : Type 0 where
  pub vault : Reading
  pub creates : Bool
  pub writes : Bool
  pub partly_written : ℕ
  pub sets_permissions : Bool
  pub syncs : Bool
  pub syncs_directory : Bool
  pub reread : Reading

-- The result, and the metadata file after the call.
abbrev pub Staged : Type 0
Staged = Outcome FreshnessError (Unit {0}) × Option (List ℕ)

-- `create_new` and `write_all`
abbrev pub written_file : StagingCalls → List ℕ → List ℕ
written_file c bytes = if c.writes then bytes else take c.partly_written bytes

abbrev pub is_free_name : Option (List ℕ) → Bool
is_free_name none = true
is_free_name (some file) = false

-- What follows once the file is there.
abbrev pub finish_staging : StagingCalls → List ℕ → Outcome FreshnessError (Unit {0})
finish_staging c bytes = do
  guard c.writes freshness_error
  guard c.sets_permissions freshness_error
  guard c.syncs freshness_error
  guard c.syncs_directory freshness_error
  again ← read_protected metadata_bytes c.reread
  guard (bytes_eq again bytes) freshness_error

abbrev pub stage_file :
    StagingCalls → ℕ → List ℕ → Option (List ℕ) → Outcome FreshnessError (List ℕ) → Staged
stage_file c uid source file (ok installed) =
    let bytes = metadata_of uid source installed in
    if c.creates && is_free_name file
    then (finish_staging c bytes, some (written_file c bytes))
    else (err freshness_error, file)
stage_file c uid source file (err e) = (err e, file)
stage_file c uid source file panic = (panic, file)
stage_file c uid source file stuck = (stuck, file)

-- What `verified_source_at` meets: the directory that opens under the uid, and again at the end, and
-- the three reads.
pub record VerifyCalls : Type 0 where
  pub before : Option Metadata
  pub group_id : Option ℕ
  pub metadata : Reading
  pub vault : Reading
  pub metadata_again : Reading
  pub after : Option Metadata

-- A directory of mode 0o750.
abbrev pub is_protected_directory : Option ℕ → Metadata → Bool
is_protected_directory group m =
    not (not (m.uid == 0) || not (is_group group m.gid) || not (has_mode 488 m))

abbrev pub is_same_directory : (before after : Metadata) → Bool
is_same_directory before after = not (
    not (before.dev == after.dev)
    || not (before.ino == after.ino)
    || not (before.ctime == after.ctime)
    || not (before.ctime_nsec == after.ctime_nsec)
    || not (before.mtime == after.mtime)
    || not (before.mtime_nsec == after.mtime_nsec))

-- The comparison with the digest of the local profile.
abbrev pub freshness_against : List ℕ → Outcome FreshnessError (List ℕ) → ProfileFreshness
freshness_against local (ok source) = if bytes_eq source local then current else stale
freshness_against local _ = unknown

module _ (sha256 : List ℕ → Option (List ℕ)) where
  -- The digest of the vault's file.
  abbrev pub digest_of_vault : Reading → Outcome FreshnessError (List ℕ)
  digest_of_vault r = do
    vault ← read_protected max_vault_bytes r
    ok_or (sha256 vault) freshness_error

  unfoldable pub write_staged_metadata : ℕ → List ℕ → StagingCalls → Option (List ℕ) → Staged
  unfolding read_protected
  write_staged_metadata uid source c file = stage_file c uid source file (digest_of_vault c.vault)

  unfoldable pub verified_source_at : ℕ → VerifyCalls → Outcome FreshnessError (List ℕ)
  unfolding read_protected decode_metadata
  verified_source_at uid c = do
    before ← ok_or c.before freshness_error
    guard (is_protected_directory c.group_id before) freshness_error
    metadata ← read_protected metadata_bytes c.metadata
    (source, expected) ← decode_metadata metadata uid
    actual ← digest_of_vault c.vault
    guard (bytes_eq actual expected) freshness_error
    again ← read_protected metadata_bytes c.metadata_again
    guard (bytes_eq again metadata) freshness_error
    after ← ok_or c.after freshness_error
    guard (is_same_directory before after) freshness_error
    ok source

  unfoldable pub verify_installed_metadata_at : ℕ → VerifyCalls → Bool
  unfolding verified_source_at
  verify_installed_metadata_at uid c = elim (verified_source_at uid c) [
    | ok source ↦ true
    | _ ↦ false
  ]

  -- `opens` tells whether `open_directory_nofollow` succeeds.
  unfoldable pub profile_freshness : Bool → ℕ → List ℕ → VerifyCalls → ProfileFreshness
  unfolding verified_source_at
  profile_freshness opens uid local c =
      if opens then freshness_against local (verified_source_at uid c) else unknown
