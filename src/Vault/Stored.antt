-- ===== src/Vault/Stored.antt =====
-- Runs of the vault's operations on a user's directory, with a cipher that hides nothing.
use loofi_face_id.Prelude.{
  ℕ, zero, suc, ◌+◌, ◌*◌, arith, Bool, true, false, none, some, List, [], Outcome, ok, IsAnswer,
}
use loofi_face_id.AuthPolicy.Files.{Metadata}
use loofi_face_id.Vault.Cursor.{VaultError}
use loofi_face_id.Vault.Codec.{Profile}
use loofi_face_id.Vault.Files.{passed, Node, user_session, Owner}
use loofi_face_id.Vault.Lock.{LockCalls}
use loofi_face_id.Vault.Totality.{vault_ends}
use loofi_face_id.Vault.Replacement.{Folder}
use loofi_face_id.Vault.Store.{
  VaultCalls, open_profile, commit_profile, rotate_key, delete_profile, reset_unreadable,
}
use loofi_face_id.Vault.Access.{ProfileSummary, validate_integrity}
use loofi_face_id.Vault.Reopening.{undisturbed}
use loofi_face_id.Vault.Tests.{zeros, starts_with_one, three_samples, plain_cipher}

abbrev pub user : Owner
user = record { uid = 1000; kind = user_session; group_id = none }

abbrev pub metadata : (is_dir is_file : Bool) (mode len ino : ℕ) → Metadata
metadata is_dir is_file mode len ino = record {
  is_dir = is_dir;
  is_file = is_file;
  uid = 1000;
  gid = 1000;
  mode = mode;
  nlink = 1;
  len = len;
  dev = 1;
  ino = ino;
  mtime = 5;
  mtime_nsec = 6;
  ctime = 5;
  ctime_nsec = 6;
}

-- A directory of mode 0o700 and a file of mode 0o600.
abbrev pub directory : Node
directory = record {
  metadata = metadata true false 448 40 7;
  is_symlink = false;
  resolves = true;
  contents = [];
}

abbrev pub new_file : Metadata
new_file = metadata false true 384 1700 8

-- The lock is held at the first attempt and free at the second.
abbrev pub held_once : ℕ → Bool
held_once zero = true
held_once (suc k) = false

abbrev pub lock_calls : LockCalls
lock_calls = record {
  stats = passed;
  start = 500;
  last_instant = 1000000;
  held = held_once;
  creates = λ k. true;
  now = λ k. 500 + k * 10;
  sets_permissions = true;
  fstats = passed;
  created = new_file;
  syncs = passed;
  removes = true;
}

abbrev pub vault_calls : VaultCalls
vault_calls = record {
  ensure = record {
    exists = passed;
    creates = passed;
    created = directory;
    opens = true;
    sets_permissions = true;
    stats = passed;
  };
  stats = passed;
  lock = lock_calls;
  exists = passed;
  existing = undisturbed;
  nonce = some (zeros 12);
  replace = record {
    has_suffix = true;
    creates = passed;
    created = new_file;
    sets_permissions = true;
    writes = passed;
    partly_written = 0;
    syncs = passed;
    reread = undisturbed;
    renames = passed;
    syncs_directory = passed;
    removes = true;
  };
  removes = passed;
  syncs_directory = passed;
}

abbrev pub empty_folder : Folder
empty_folder = record { root = none; vault = none; temporary = none; is_locked = false }

vault_ends_example :
    IsAnswer
      (open_profile plain_cipher starts_with_one user passed undisturbed (zeros 32) empty_folder)
    × IsAnswer
        (commit_profile plain_cipher starts_with_one user vault_calls
          (zeros 32)
          three_samples
          empty_folder).0
    × IsAnswer
        (rotate_key plain_cipher starts_with_one user vault_calls
          (zeros 32)
          (zeros 31)
          empty_folder).0
    × IsAnswer
        (delete_profile plain_cipher starts_with_one user vault_calls (zeros 32) empty_folder).0
    × IsAnswer (reset_unreadable user vault_calls empty_folder).0
    × IsAnswer (
        validate_integrity plain_cipher starts_with_one user passed undisturbed
          (zeros 32)
          empty_folder)
vault_ends_example =
    vault_ends plain_cipher starts_with_one user vault_calls (zeros 32) (zeros 31) three_samples
      empty_folder (λ k. omega arith) (omega arith)

-- The folder with a vault in it.
abbrev pub stored_folder : Folder
stored_folder =
    (commit_profile plain_cipher starts_with_one user vault_calls (zeros 32) three_samples
      empty_folder).1

abbrev summary : ProfileSummary
summary = record { enrolled = true; sample_count = 3 }

abbrev legacy : List ℕ → Outcome VaultError Profile
legacy key = ok three_samples
