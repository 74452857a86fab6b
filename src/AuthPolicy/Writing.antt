-- ===== src/AuthPolicy/Writing.antt =====
-- engine/templates/src/auth_policy.rs: `write_atomic`, over the two names that it touches in the
-- configuration directory.
use loofi_face_id.Prelude.{
  ℕ, Bool, true, false, not, Option, none, some, List, [], ◌==◌, if◌then◌else◌, take, Outcome, ok,
  err, panic, stuck, ◌>>◌, guard,
}
use loofi_face_id.AuthPolicy.Table.{AuthPolicy, AuthPolicyError, unsafe_filesystem, io}
use loofi_face_id.AuthPolicy.Json.{to_json}
use loofi_face_id.AuthPolicy.Files.{Metadata, validate_root_directory}

pub record StoredFile : Type 0 where
  pub bytes : List ℕ
  pub mode : ℕ
  pub is_root_owned : Bool

-- The policy file and the staging file.
pub record Store : Type 0 where
  pub policy : Option StoredFile
  pub staging : Option StoredFile

-- What each system call answers. A failed `write_all` has written some first bytes.
pub record WriteCalls : Type 0 where
  pub directory : Option Metadata
  pub effective_uid : ℕ
  pub has_clock : Bool
  pub creates : Bool
  pub writes : Bool
  pub partly_written : ℕ
  pub syncs : Bool
  pub sets_permissions : Bool
  pub renames : Bool
  pub syncs_directory : Bool
  pub removes : Bool

abbrev pub staged : Store → List ℕ → ℕ → Bool → Store
staged store bytes mode is_root_owned = record store {
  staging = some (record { bytes = bytes; mode = mode; is_root_owned = is_root_owned });
}

-- The policy file that a complete write leaves: mode 0o644.
abbrev pub complete : List ℕ → StoredFile
complete text = record { bytes = text; mode = 420; is_root_owned = true }

abbrev pub Written : Type 0
Written = Outcome AuthPolicyError (Unit {0}) × Store

-- The closure, on a staging file just created.
unfoldable pub write_staging : WriteCalls → List ℕ → Store → Written
write_staging c text store =
    if not c.writes
    then (err io, staged store (take c.partly_written text) 384 false)
    else if not c.syncs
    then (err io, staged store text 384 false)
    else if not c.sets_permissions
    then (err io, staged store text 384 false)
    else if not c.renames
    then (err io, staged store text 420 true)
    else if not c.syncs_directory
    then (err io, record { policy = some (complete text); staging = none })
    else (ok tt, record { policy = some (complete text); staging = none })

-- `if result.is_err() { let _ = fs::remove_file(staging_path); }`
abbrev pub remove_staging : WriteCalls → Written → Written
remove_staging c (ok done, store) = (ok done, store)
remove_staging c (err why, store) =
    (err why, if c.removes then record store { staging = none } else store)
remove_staging c (panic, store) = (panic, store)
remove_staging c (stuck, store) = (stuck, store)

abbrev pub after_checks : Outcome AuthPolicyError (Unit {0}) → Store → Written → Written
after_checks (ok done) store rest = rest
after_checks (err why) store rest = (err why, store)
after_checks panic store rest = (panic, store)
after_checks stuck store rest = (stuck, store)

-- What comes before the closure: nothing of it touches the directory but the last step.
unfoldable pub write_checks : WriteCalls → Outcome AuthPolicyError (Unit {0})
unfolding validate_root_directory
write_checks c = do
  validate_root_directory c.directory true
  guard (c.effective_uid == 0) unsafe_filesystem
  guard c.has_clock io
  guard c.creates io

unfoldable pub write_atomic : AuthPolicy → WriteCalls → Store → Written
unfolding write_staging write_checks
write_atomic p c store =
    after_checks (write_checks c) store
      (remove_staging c (write_staging c (to_json p) (staged store [] 384 false)))
