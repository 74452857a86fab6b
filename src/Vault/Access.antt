-- ===== src/Vault/Access.antt =====
-- engine/templates/src/lib.rs: reading a vault from an anchored directory, its status, and the
-- migration of a legacy vault.
use loofi_face_id.Prelude.{
  ℕ, suc, Bool, true, false, not, ◌||◌, Option, none, some, List, Outcome, ok, err, panic, stuck,
  ◌>>=◌, ◌>>◌, guard, ok_or, length, take, ltb, leb, ◌==◌, if◌then◌else◌,
}
use loofi_face_id.AuthPolicy.Files.{Metadata}
use loofi_face_id.Vault.Cursor.{
  VaultError, io, crypto, not_found, unsafe_filesystem, corrupt, unknown_schema, model_mismatch,
  profile_bounds,
}
use loofi_face_id.Vault.Codec.{Sample, Profile, maximum_vault_bytes}
use loofi_face_id.Vault.Envelope.{Cipher, decode_vault}
use loofi_face_id.Vault.Files.{
  IoAnswer, Owner, ReadCalls, is_owned, directory_mode, file_mode, has_mode, validate_directory,
}
use loofi_face_id.Vault.Replacement.{Folder, Written}
use loofi_face_id.Vault.Store.{exists, VaultCalls, open_profile, commit_profile}

-- What the calls on the anchored directory answer, in their order: `fstat` of the directory, the
-- vault's file, what a read of it gives, `fstat` of it again, and of the file that has the name then.
pub record AnchoredCalls : Type 0 where
  pub directory : Option Metadata
  pub opens : Bool
  pub before : Option Metadata
  pub contents : Option (List ℕ)
  pub after : Option Metadata
  pub opens_again : Bool
  pub current : Option Metadata

abbrev pub is_anchored_file : Owner → Metadata → Bool
is_anchored_file o m = not (
    not m.is_file
    || not (is_owned o m)
    || not (has_mode (file_mode o.kind) m)
    || not (m.nlink == 1)
    || ltb maximum_vault_bytes m.len)

abbrev pub is_unchanged : List ℕ → (before after current : Metadata) → Bool
is_unchanged bytes before after current = not (
    ltb maximum_vault_bytes (length bytes)
    || not (before.dev == current.dev)
    || not (before.ino == current.ino)
    || not (before.len == after.len)
    || not (before.mtime == after.mtime)
    || not (before.mtime_nsec == after.mtime_nsec)
    || not (before.ctime == after.ctime)
    || not (before.ctime_nsec == after.ctime_nsec))

pub record ProfileSummary : Type 0 where
  pub enrolled : Bool
  pub sample_count : ℕ  -- u8

pub data VaultStatus : Type 0 where
  absent : VaultStatus
  ready : ProfileSummary → VaultStatus
  corrupt_vault other_model unreachable : VaultStatus

-- `u8::try_from(profile.sample_count())`
abbrev pub summary_of : Profile → Option ProfileSummary
summary_of profile =
    if leb (length profile) 255
    then some (record { enrolled = true; sample_count = length profile })
    else none

abbrev pub ready_status : Option ProfileSummary → VaultStatus
ready_status none = unreachable
ready_status (some summary) = ready summary

-- The match of `status`; `is_authentication` tells whether an error of the crypto library is
-- `AuthenticationFailure`.
unfoldable pub opened_status : Bool → Outcome VaultError Profile → VaultStatus
opened_status is_authentication (ok profile) = ready_status (summary_of profile)
opened_status is_authentication (err not_found) = absent
opened_status is_authentication (err model_mismatch) = other_model
opened_status is_authentication (err crypto) =
    if is_authentication then corrupt_vault else unreachable
opened_status is_authentication (err corrupt) = corrupt_vault
opened_status is_authentication (err unknown_schema) = corrupt_vault
opened_status is_authentication _ = unreachable

abbrev pub is_accepted : Outcome VaultError (Unit {0}) → Bool
is_accepted (ok _) = true
is_accepted _ = false

-- The answers of the calls of `status`.
pub record StatusCalls : Type 0 where
  pub root_exists : IoAnswer
  pub stats : IoAnswer
  pub vault_exists : IoAnswer
  pub opening_stats : IoAnswer
  pub opening : ReadCalls
  pub is_authentication : Bool

-- What a migration returns, and the directory of the system vault.
abbrev pub Migrated : Type 0
Migrated = Outcome VaultError ProfileSummary × Folder

module _ (cipher : Cipher) (is_normalized : Sample → Bool) where
  -- `open_anchored_profile_snapshot`
  unfoldable pub open_anchored_profile_snapshot :
      Owner
      → AnchoredCalls
      → (List ℕ → Option (List ℕ))
      → List ℕ
      → Outcome VaultError (Profile × List ℕ)
  unfolding decode_vault
  open_anchored_profile_snapshot o c sha256 key = do
    directory ← ok_or c.directory io
    guard
        (not (
          not directory.is_dir
          || not (is_owned o directory)
          || not (has_mode (directory_mode o.kind) directory)))
        unsafe_filesystem
    guard c.opens crypto
    before ← ok_or c.before io
    guard (is_anchored_file o before) unsafe_filesystem
    contents ← ok_or c.contents io
    after ← ok_or c.after io
    guard c.opens_again crypto
    current ← ok_or c.current io
    let bytes = take (suc maximum_vault_bytes) contents
    guard (is_unchanged bytes before after current) unsafe_filesystem
    profile ← decode_vault cipher is_normalized bytes key o.uid
    digest ← ok_or (sha256 bytes) crypto
    ok (profile, digest)

  abbrev pub keyed_status : Owner → StatusCalls → Option (List ℕ) → Folder → VaultStatus
  keyed_status o c none folder = unreachable
  keyed_status o c (some key) folder =
      opened_status c.is_authentication
        (open_profile cipher is_normalized o c.opening_stats c.opening key folder)

  unfoldable pub status : Owner → StatusCalls → Option (List ℕ) → Folder → VaultStatus
  unfolding validate_directory open_profile opened_status
  status o c key folder =
      if not (exists c.root_exists folder.root)
      then absent
      else if not (is_accepted (validate_directory o c.stats folder.root))
      then unreachable
      else if not (exists c.vault_exists folder.vault)
      then absent
      else keyed_status o c key folder

  unfoldable pub validate_integrity :
      Owner → IoAnswer → ReadCalls → List ℕ → Folder → Outcome VaultError ProfileSummary
  unfolding open_profile
  validate_integrity o stats c key folder = do
    profile ← open_profile cipher is_normalized o stats c key folder
    ok_or (summary_of profile) profile_bounds

  abbrev pub validated : Owner → IoAnswer → ReadCalls → List ℕ → Written → Migrated
  validated o stats c key (ok _, folder) = (validate_integrity o stats c key folder, folder)
  validated o stats c key (err e, folder) = (err e, folder)
  validated o stats c key (panic, folder) = (panic, folder)
  validated o stats c key (stuck, folder) = (stuck, folder)

  -- What follows `legacy_storage.open_profile(user_key)?`.
  unfoldable pub migrate_profile :
      Outcome VaultError Profile
      → Owner
      → VaultCalls
      → IoAnswer
      → ReadCalls
      → List ℕ
      → Folder
      → Migrated
  unfolding commit_profile validate_integrity
  migrate_profile (ok profile) o c stats check key folder =
      validated o stats check key (commit_profile cipher is_normalized o c key profile folder)
  migrate_profile (err e) o c stats check key folder = (err e, folder)
  migrate_profile panic o c stats check key folder = (panic, folder)
  migrate_profile stuck o c stats check key folder = (stuck, folder)

  -- `legacy` is the answer of `legacy_storage.open_profile`.
  unfoldable pub migrate_legacy_vault_with_separate_key :
      (List ℕ → Outcome VaultError Profile)
      → Owner
      → VaultCalls
      → IoAnswer
      → ReadCalls
      → (user_key system_key : List ℕ) → Folder
      → Migrated
  unfolding migrate_profile
  migrate_legacy_vault_with_separate_key legacy o c stats check user_key system_key folder =
      migrate_profile (legacy user_key) o c stats check system_key folder

  unfoldable pub migrate_legacy_vault :
      (List ℕ → Outcome VaultError Profile)
      → Owner
      → VaultCalls
      → IoAnswer
      → ReadCalls
      → List ℕ
      → Folder
      → Migrated
  unfolding migrate_profile
  migrate_legacy_vault legacy o c stats check key folder =
      migrate_profile (legacy key) o c stats check key folder
