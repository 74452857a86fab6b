-- ===== src/AuthPolicy/Stored.antt =====
-- A policy file, stored and loaded.
use loofi_face_id.Prelude.{
  ℕ, ◌≡◌, refl, ap, Bool, true, false, not, none, some, List, [], ◌∷◌, arith, ok, Ensures, ascii,
}
use loofi_face_id.AuthPolicy.Table.{AuthPolicy, IsPolicy, sddm, on_activity, key, as_str}
use loofi_face_id.AuthPolicy.Json.{to_json, users_json, targets_json, digits}
use loofi_face_id.AuthPolicy.Files.{
  Metadata, found, PolicyDirectory, snapshot_from_directory, validate_root_directory,
  load_from_directory,
}
use loofi_face_id.AuthPolicy.Writing.{
  Store, WriteCalls, complete, write_atomic, write_staging, write_checks,
}
use loofi_face_id.AuthPolicy.Storing.{
  IsOldOrComplete, write_atomic-IsOldOrComplete, IsSafe, IsVouched, snapshot_from_directory-Ensures,
  load_from_directory-write_atomic,
}

abbrev pub one_user : AuthPolicy
one_user = record { users = (1000, (sddm, on_activity) ∷ []) ∷ [] }

one_user-IsPolicy : IsPolicy one_user
one_user-IsPolicy = ground arith

abbrev pub one_user_text : List ℕ
one_user_text = ascii "{\"version\":1,\"users\":{\"1000\":{\"sddm\":\"on-activity\"}}}\n"

prints : to_json one_user ≡ one_user_text
unfolding to_json users_json targets_json digits key as_str
prints = refl

abbrev pub root_metadata : Bool → ℕ → Metadata
root_metadata is_dir mode = record {
  is_dir = is_dir;
  is_file = not is_dir;
  uid = 0;
  gid = 0;
  mode = mode;
  nlink = 1;
  len = 56;
  dev = 1;
  ino = 77;
  mtime = 5;
  mtime_nsec = 0;
  ctime = 5;
  ctime_nsec = 0;
}

-- A directory of mode 0o755 with a regular file of mode 0o100644.
abbrev pub stored_directory : PolicyDirectory
stored_directory = record {
  directory = some (root_metadata true 0x41ed);
  entry = found false true false;
  opens = true;
  before = some (root_metadata false 0x81a4);
  contents = some one_user_text;
  after = some (root_metadata false 0x81a4);
}

abbrev all_succeed : WriteCalls
all_succeed = record {
  directory = some (root_metadata true 0x41ed);
  effective_uid = 0;
  has_clock = true;
  creates = true;
  writes = true;
  partly_written = 0;
  syncs = true;
  sets_permissions = true;
  renames = true;
  syncs_directory = true;
  removes = true;
}

abbrev empty_store : Store
empty_store = record { policy = none; staging = none }

stored :
    write_atomic one_user all_succeed empty_store
    ≡ (ok tt, record { policy = some (complete one_user_text); staging = none })
unfolding write_atomic write_staging write_checks validate_root_directory
stored = rw prints refl

write_atomic-IsOldOrComplete_example :
    IsOldOrComplete
      (to_json one_user)
      empty_store
      (write_atomic one_user (record all_succeed { renames = false }) empty_store)
write_atomic-IsOldOrComplete_example =
    write_atomic-IsOldOrComplete one_user (record all_succeed { renames = false }) empty_store

snapshot_from_directory-Ensures_example :
    Ensures (IsVouched stored_directory) (snapshot_from_directory stored_directory)
snapshot_from_directory-Ensures_example = snapshot_from_directory-Ensures stored_directory

stored_directory-IsSafe : IsSafe stored_directory one_user_text
stored_directory-IsSafe = record {
  directory = root_metadata true 0x41ed;
  directory_found = refl;
  directory_safe = refl;
  file = root_metadata false 0x81a4;
  entry = refl;
  opens = refl;
  before = refl;
  safe = refl;
  contents = refl;
  after = refl;
}

load_from_directory-write_atomic_example :
    load_from_directory stored_directory.directory stored_directory.entry stored_directory
    ≡ ok one_user
load_from_directory-write_atomic_example =
    load_from_directory-write_atomic one_user all_succeed empty_store (complete one_user_text)
      stored_directory one_user-IsPolicy (rw prints (omega arith)) (ap (λ w. w.0) stored)
      (ap (λ w. w.1.policy) stored) stored_directory-IsSafe
