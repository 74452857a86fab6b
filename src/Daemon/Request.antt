-- ===== src/Daemon/Request.antt =====
-- engine/daemon/src/lib.rs: `DaemonRequest`, `decode_daemon_request` and `encode_daemon_response`.
-- A username is the list of the bytes of its UTF-8 text.
use loofi_face_id.Prelude.{
  ℕ, Bool, false, not, ◌&&◌, ◌||◌, List, [], ◌∷◌, ◌++◌, Outcome, ok, err, ◌>>=◌, ◌>>◌, guard, index,
  index_be16, index_be32, length, take, drop, ltb, leb, ◌==◌, if◌then◌else◌, to_be16, ◌+◌,
}
use loofi_face_id.Utf8.{is_utf8}

abbrev pub daemon_protocol_version : ℕ
daemon_protocol_version = 2

abbrev pub max_daemon_request_bytes : ℕ
max_daemon_request_bytes = 14 + 255

abbrev pub default_pam_timeout_ms : ℕ
default_pam_timeout_ms = 2000

abbrev pub op_pam_auth : ℕ
op_pam_auth = 0x10

abbrev pub op_status : ℕ
op_status = 0x11

abbrev pub op_freshness : ℕ
op_freshness = 0x12

abbrev pub freshness_protocol_version : ℕ
freshness_protocol_version = 3

abbrev pub auth_target_sddm : ℕ
auth_target_sddm = 1

abbrev pub auth_target_plasma_lock : ℕ
auth_target_plasma_lock = 2

pub data DaemonRequest : Type 0 where
  pam_auth : (target_uid auth_target timeout_ms : ℕ) (username : List ℕ) → DaemonRequest
  status : (target_uid : ℕ) → DaemonRequest
  freshness : (target_uid : ℕ) (local_digest : List ℕ) → DaemonRequest

-- The messages that the source returns as strings.
pub data RequestError : Type 0 where
  invalid_length unsupported_version malformed_pam invalid_target invalid_bounds invalid_encoding :
      RequestError
  invalid_username unknown_opcode : RequestError

-- `DaemonRequest::target_uid`
unfoldable pub target_uid : DaemonRequest → ℕ
target_uid (pam_auth uid auth_target timeout_ms username) = uid
target_uid (status uid) = uid
target_uid (freshness uid local_digest) = uid

-- `username.contains('\0')`: in UTF-8 the character is the byte 0.
unfoldable pub contains_nul : List ℕ → Bool
contains_nul [] = false
contains_nul (b ∷ s) = b == 0 || contains_nul s

abbrev pub is_auth_target : ℕ → Bool
is_auth_target b = b == auth_target_sddm || b == auth_target_plasma_lock

-- `(low..=high).contains(&n)`
abbrev pub in_range : ℕ → ℕ → ℕ → Bool
in_range low high n = leb low n && leb n high

-- The test of a request's numbers in that branch.
abbrev pub is_out_of_bounds : ℕ → ℕ → ℕ → Bool
is_out_of_bounds timeout_ms user_len size =
    not (in_range 1 default_pam_timeout_ms timeout_ms)
    || not (in_range 1 255 user_len)
    || not (size == 14 + user_len)

-- The branch for `OP_PAM_AUTH`.
unfoldable pub decode_pam_auth : List ℕ → ℕ → Outcome RequestError DaemonRequest
decode_pam_auth payload uid = do
  guard (not (ltb (length payload) 14)) malformed_pam
  auth_target ← index payload 3
  guard (is_auth_target auth_target) invalid_target
  timeout_ms ← index_be32 payload 8 9 10 11
  user_len ← index_be16 payload 12 13
  guard (not (is_out_of_bounds timeout_ms user_len (length payload))) invalid_bounds
  let username = drop 14 payload
  guard (is_utf8 username) invalid_encoding
  guard (not (contains_nul username)) invalid_username
  ok (pam_auth uid auth_target timeout_ms username)

-- The `match` on the opcode.
unfoldable pub decode_opcode : List ℕ → Outcome RequestError DaemonRequest
unfolding decode_pam_auth
decode_opcode payload = do
  opcode ← index payload 2
  uid ← index_be32 payload 4 5 6 7
  third ← index payload 3
  if opcode == op_pam_auth
      then decode_pam_auth payload uid
      else if opcode == op_status && length payload == 8 && third == 0
      then ok (status uid)
      else err unknown_opcode

-- The body of the early return for `OP_FRESHNESS`.
unfoldable pub decode_freshness : List ℕ → Outcome RequestError DaemonRequest
decode_freshness payload = do
  uid ← index_be32 payload 4 5 6 7
  ok (freshness uid (take 32 (drop 8 payload)))

unfoldable pub decode_daemon_request : List ℕ → Outcome RequestError DaemonRequest
unfolding decode_opcode decode_freshness
decode_daemon_request payload = do
  guard (not (ltb (length payload) 8 || ltb max_daemon_request_bytes (length payload)))
      invalid_length
  version ← index_be16 payload 0 1
  opcode ← index payload 2
  third ← index payload 3
  if version == freshness_protocol_version
        && length payload == 40
        && opcode == op_freshness
        && third == 0
      then decode_freshness payload
      else (guard (version == daemon_protocol_version) unsupported_version >> decode_opcode payload)

unfoldable pub encode_daemon_response : ℕ → List ℕ → List ℕ
encode_daemon_response status_code extra =
    to_be16 daemon_protocol_version ++ (status_code ∷ 0 ∷ extra)
