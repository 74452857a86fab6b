-- ===== src/AuthPolicy/Files.antt =====
-- engine/templates/src/auth_policy.rs: `AuthPolicySnapshot`, `load_system`, `load_from_directory`
-- and `write_atomic`. What the system calls answer is a value: the metadata of an open file, the
-- entry of a name, the bytes of a read.
use loofi_face_id.Prelude.{
  ℕ, ◌%◌, Bool, true, false, not, ◌&&◌, ◌||◌, List, Option, none, some, Outcome, ok, err, ◌>>=◌,
  ◌>>◌, guard, ok_or, take, ltb, ◌==◌, if◌then◌else◌, suc,
}
use loofi_face_id.AuthPolicy.Table.{AuthPolicy, AuthPolicyError, unsafe_filesystem, io, all_off}
use loofi_face_id.AuthPolicy.Parser.{parse_json, max_policy_bytes}

-- What `fstat` tells of an open file. The signed times are compared only.
pub record Metadata : Type 0 where
  pub is_dir : Bool
  pub is_file : Bool
  pub uid : ℕ
  pub gid : ℕ
  pub mode : ℕ
  pub nlink : ℕ
  pub len : ℕ
  pub dev : ℕ
  pub ino : ℕ
  pub mtime : ℕ
  pub mtime_nsec : ℕ
  pub ctime : ℕ
  pub ctime_nsec : ℕ

-- What `symlink_metadata` tells of a name.
pub data Entry : Type 0 where
  not_found unreadable : Entry
  found : (is_dir is_file is_symlink : Bool) → Entry

-- `policy_identity`
pub record Identity : Type 0 where
  pub dev : ℕ
  pub ino : ℕ
  pub mtime : ℕ
  pub mtime_nsec : ℕ
  pub ctime : ℕ
  pub ctime_nsec : ℕ
  pub len : ℕ

unfoldable pub policy_identity : Metadata → Identity
policy_identity m = record {
  dev = m.dev;
  ino = m.ino;
  mtime = m.mtime;
  mtime_nsec = m.mtime_nsec;
  ctime = m.ctime;
  ctime_nsec = m.ctime_nsec;
  len = m.len;
}

abbrev pub same_identity : Identity → Identity → Bool
same_identity a b =
    a.dev == b.dev
    && a.ino == b.ino
    && a.mtime == b.mtime
    && a.mtime_nsec == b.mtime_nsec
    && a.ctime == b.ctime
    && a.ctime_nsec == b.ctime_nsec
    && a.len == b.len

-- The answers of the calls on a configuration directory and its policy file, in their order.
pub record PolicyDirectory : Type 0 where
  pub directory : Option Metadata
  pub entry : Entry
  pub opens : Bool
  pub before : Option Metadata
  pub contents : Option (List ℕ)
  pub after : Option Metadata

pub record AuthPolicySnapshot : Type 0 where
  pub policy : AuthPolicy
  pub identity : Identity

-- The test of `validate_root_directory`; `& 0o777` and `& 0o7777` keep 9 and 12 bits.
abbrev pub is_root_directory : Bool → Metadata → Bool
is_root_directory require_config_mode m =
    let mode = m.mode % 512 in
    not (
      not m.is_dir
      || not (m.uid == 0)
      || not (m.gid == 0)
      || not (m.mode % 4096 == mode)
      || (require_config_mode && not (mode == 493)))

unfoldable pub validate_root_directory : Option Metadata → Bool → Outcome AuthPolicyError (Unit {0})
validate_root_directory directory require_config_mode = do
  m ← ok_or directory unsafe_filesystem
  guard (is_root_directory require_config_mode m) unsafe_filesystem

-- `!entry.is_file() || entry.file_type().is_symlink()`, on a name that is there.
abbrev pub is_plain_file : Entry → Bool
is_plain_file (found is_dir is_file is_symlink) = is_file && not is_symlink
is_plain_file not_found = false
is_plain_file unreadable = false

-- `fs::symlink_metadata(..).map_err(|_| Io)?` and the check of the entry.
abbrev pub require_plain_file : Entry → Outcome AuthPolicyError (Unit {0})
require_plain_file not_found = err io
require_plain_file unreadable = err io
require_plain_file (found is_dir is_file is_symlink) =
    guard (is_file && not is_symlink) unsafe_filesystem

-- The test of the open policy file: 0o644 is 420.
abbrev pub is_policy_file : Metadata → Bool
is_policy_file m = not (
    not m.is_file
    || not (m.uid == 0)
    || not (m.gid == 0)
    || not (m.mode % 4096 == 420)
    || not (m.nlink == 1)
    || ltb max_policy_bytes m.len)

-- `AuthPolicySnapshot::load_from_directory`
unfoldable pub snapshot_from_directory :
    PolicyDirectory → Outcome AuthPolicyError AuthPolicySnapshot
unfolding validate_root_directory
snapshot_from_directory d = do
  validate_root_directory d.directory true
  require_plain_file d.entry
  guard d.opens unsafe_filesystem
  metadata ← ok_or d.before io
  guard (is_policy_file metadata) unsafe_filesystem
  bytes ← ok_or d.contents io
  policy ← parse_json (take (suc max_policy_bytes) bytes)
  after ← ok_or d.after io
  guard (same_identity (policy_identity after) (policy_identity metadata)) unsafe_filesystem
  ok (record { policy = policy; identity = policy_identity metadata })

-- `same_file_as`, with what `fstat` now tells of the first descriptor.
unfoldable pub same_file_as : Option Metadata → AuthPolicySnapshot → AuthPolicySnapshot → Bool
same_file_as none start current = false
same_file_as (some m) start current =
    m.dev == start.identity.dev
    && m.ino == start.identity.ino
    && same_identity start.identity current.identity

-- `AuthPolicy::load_from_directory`. It looks at the directory and at the name itself, and again
-- within the snapshot: a missing file is the default policy, every other fault an error.
unfoldable pub load_from_directory :
    Option Metadata → Entry → PolicyDirectory → Outcome AuthPolicyError AuthPolicy
load_from_directory directory entry d = validate_root_directory directory true >> (elim entry [
  | not_found ↦ ok all_off
  | unreadable ↦ err io
  | found is_dir is_file is_symlink ↦
      guard (is_file && not is_symlink) unsafe_filesystem
      >> (snapshot_from_directory d >>= λ snapshot. ok snapshot.policy)
])

-- The answers of the calls on the way to the configuration directory.
pub record SystemPath : Type 0 where
  pub etc_opens : Bool
  pub etc : Option Metadata
  pub config : Entry
  pub config_opens : Bool

-- `open_policy_directory`: whether the directory is there.
unfoldable pub open_policy_directory : SystemPath → Outcome AuthPolicyError Bool
open_policy_directory s = elim s.config [
  | not_found ↦ ok false
  | unreadable ↦ err io
  | found is_dir is_file is_symlink ↦
      guard (is_dir && not is_symlink) unsafe_filesystem
      >> (guard s.config_opens unsafe_filesystem >> ok true)
]

-- `AuthPolicy::load_system`
unfoldable pub load_system :
    SystemPath → Option Metadata → Entry → PolicyDirectory → Outcome AuthPolicyError AuthPolicy
unfolding validate_root_directory open_policy_directory load_from_directory
load_system s directory entry d = do
  guard s.etc_opens unsafe_filesystem
  validate_root_directory s.etc false
  present ← open_policy_directory s
  if present then load_from_directory directory entry d else ok all_off

-- `AuthPolicySnapshot::load_system`: a missing directory is an error here.
unfoldable pub snapshot_system :
    SystemPath → PolicyDirectory → Outcome AuthPolicyError AuthPolicySnapshot
unfolding validate_root_directory open_policy_directory snapshot_from_directory
snapshot_system s d = do
  guard s.etc_opens unsafe_filesystem
  validate_root_directory s.etc false
  present ← open_policy_directory s
  guard present io
  snapshot_from_directory d
