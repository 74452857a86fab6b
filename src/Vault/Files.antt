-- ===== src/Vault/Files.antt =====
-- engine/templates/src/lib.rs: the checks of the vault's directory and files, and
-- `read_secure_file`, over what the system calls answer.
use loofi_face_id.Prelude.{
  ℕ, suc, ◌%◌, Bool, false, not, ◌&&◌, ◌||◌, Option, none, some, List, Outcome, ok, err, ◌>>=◌,
  ◌>>◌, guard, leb, ◌==◌, length, take,
}
use loofi_face_id.AuthPolicy.Files.{Metadata}
use loofi_face_id.Vault.Cursor.{VaultError, io, not_found, unsafe_filesystem, oversized}
use loofi_face_id.Vault.Codec.{maximum_vault_bytes}

-- Whether a system call succeeds; `vanished` is an error of the kind `NotFound`.
pub data IoAnswer : Type 0 where
  passed vanished failed : IoAnswer

-- `From<io::Error>` on the answer.
abbrev pub io_result : IoAnswer → Outcome VaultError (Unit {0})
io_result passed = ok tt
io_result vanished = err not_found
io_result failed = err io

-- What a name stands for, as `symlink_metadata` sees it; `resolves` tells whether following the
-- name ends at something.
pub record Node : Type 0 where
  pub metadata : Metadata
  pub is_symlink : Bool
  pub resolves : Bool
  pub contents : List ℕ

pub data VaultKind : Type 0 where
  user_session system : VaultKind

-- The fields of `Vault` that the checks read, and the answer of `group_id("kfaceauth")`.
pub record Owner : Type 0 where
  pub uid : ℕ  -- u32
  pub kind : VaultKind
  pub group_id : Option ℕ

abbrev pub is_group : Option ℕ → ℕ → Bool
is_group none gid = false
is_group (some group) gid = gid == group

unfoldable pub is_owner_valid : Metadata → ℕ → VaultKind → Option ℕ → Bool
is_owner_valid m uid user_session group = m.uid == uid
is_owner_valid m uid system group = m.uid == 0 && is_group group m.gid

abbrev pub is_owned : Owner → Metadata → Bool
is_owned o m = is_owner_valid m o.uid o.kind o.group_id

-- 0o700 and 0o750
abbrev pub directory_mode : VaultKind → ℕ
directory_mode user_session = 448
directory_mode system = 488

-- 0o600 and 0o640
abbrev pub file_mode : VaultKind → ℕ
file_mode user_session = 384
file_mode system = 416

-- `metadata.mode() & 0o777`
abbrev pub has_mode : ℕ → Metadata → Bool
has_mode mode m = m.mode % 512 == mode

-- `fs::symlink_metadata(path)?`
abbrev pub symlink_metadata : IoAnswer → Option Node → Outcome VaultError Node
symlink_metadata answer none = err not_found
symlink_metadata answer (some node) = io_result answer >> ok node

unfoldable pub validate_directory : Owner → IoAnswer → Option Node → Outcome VaultError (Unit {0})
validate_directory o answer root = do
  node ← symlink_metadata answer root
  guard (not (not node.metadata.is_dir || node.is_symlink || not (is_owned o node.metadata)))
      unsafe_filesystem
  guard (has_mode (directory_mode o.kind) node.metadata) unsafe_filesystem

abbrev pub is_secure_node : Owner → Node → Bool
is_secure_node o node = not (
    not node.metadata.is_file
    || node.is_symlink
    || not (is_owned o node.metadata)
    || not (node.metadata.nlink == 1))

unfoldable pub validate_secure_path : Owner → IoAnswer → Option Node → Outcome VaultError Node
validate_secure_path o answer entry = do
  node ← symlink_metadata answer entry
  guard (is_secure_node o node) unsafe_filesystem
  guard (has_mode (file_mode o.kind) node.metadata) unsafe_filesystem
  ok node

-- The answers of the calls of `read_secure_file`; another process may have put a file in the place
-- of the name before it is opened.
pub record ReadCalls : Type 0 where
  pub stats : IoAnswer
  pub opens : IoAnswer
  pub replaced : Option Node
  pub fstats : IoAnswer
  pub reads : IoAnswer

abbrev pub or_else : Option Node → Node → Node
or_else none node = node
or_else (some other) node = other

-- `open` with `O_NOFOLLOW`
abbrev pub open_nofollow : IoAnswer → Node → Outcome VaultError Node
open_nofollow answer node = io_result answer >> (guard (not node.is_symlink) io >> ok node)

abbrev pub is_same_secure_file : Owner → Metadata → Metadata → Bool
is_same_secure_file o before after = not (
    not (before.dev == after.dev)
    || not (before.ino == after.ino)
    || not (is_owned o after)
    || not (has_mode (file_mode o.kind) after)
    || not (after.nlink == 1))

-- A length always fits in `usize` where this program runs.
unfoldable pub read_secure_file : Owner → ReadCalls → Option Node → Outcome VaultError (List ℕ)
unfolding validate_secure_path
read_secure_file o c entry = do
  before ← validate_secure_path o c.stats entry
  guard (leb before.metadata.len maximum_vault_bytes) oversized
  file ← open_nofollow c.opens (or_else c.replaced before)
  io_result c.fstats
  guard (is_same_secure_file o before.metadata file.metadata) unsafe_filesystem
  io_result c.reads
  let bytes = take (suc maximum_vault_bytes) file.contents
  guard (leb (length bytes) maximum_vault_bytes) oversized
  ok bytes
