-- ===== src/Protocol/Codec/Decode.antt =====
-- engine/protocol/src/lib.rs: `decode_response`, `decode_capabilities` and `decode_status`.
use loofi_face_id.Prelude.{
  ℕ, List, Outcome, ok, err, ◌>>=◌, ◌>>◌, guard, index, length, take, drop, leb, ◌==◌, ◌&&◌,
  if◌then◌else◌, index_be16, index_be32,
}
use loofi_face_id.Protocol.Types.{
  max_response_bytes, response_capabilities, response_status, response_error, disabled, ready,
  Capabilities, Status, ErrorCode, invalid_request, unsupported_operation, Response, CodecError,
  invalid_payload,
}
use loofi_face_id.Protocol.Codec.Request.{validate_payload, validate_version}
use loofi_face_id.Protocol.Codec.Response.{SupportArray, decode_support}

-- The literal that `decode_capabilities` ends in.
abbrev pub capabilities_of : ℕ → ℕ → ℕ → ℕ → ℕ → SupportArray → Capabilities
capabilities_of protocol_min protocol_max max_request max_response operations support = record {
  protocol_min = protocol_min;
  protocol_max = protocol_max;
  max_request = max_request;
  max_response = max_response;
  operations = operations;
  detector_analysis = support.s0;
  embedding_extraction = support.s1;
  user_session_enrollment = support.s2;
  encrypted_user_session_persistence = support.s3;
  explicit_local_verification = support.s4;
  profile_deletion = support.s5;
  pam_authentication = support.s6;
  pam_configuration = support.s7;
  authselect = support.s8;
  sddm_lock_screen = support.s9;
  sudo_polkit = support.s10;
  liveness = support.s11;
  security_tiers = support.s12;
  privileged_services = support.s13;
  network_access = disabled;
  runtime_model_downloads = disabled;
}

-- The literal that `decode_status` ends in.
abbrev pub status_of : SupportArray → Status
status_of support = record {
  state = ready;
  detector_analysis = support.s0;
  embedding_extraction = support.s1;
  user_session_enrollment = support.s2;
  encrypted_user_session_persistence = support.s3;
  explicit_local_verification = support.s4;
  profile_deletion = support.s5;
  pam_authentication = support.s6;
  pam_configuration = support.s7;
  authselect = support.s8;
  sddm_lock_screen = support.s9;
  sudo_polkit = support.s10;
  liveness = support.s11;
  security_tiers = support.s12;
  privileged_services = support.s13;
}

unfoldable pub decode_capabilities : List ℕ → Outcome CodecError Response
decode_capabilities payload = do
  guard (length payload == 34) invalid_payload
  first ← index payload 32
  guard (first == 0) invalid_payload
  second ← index payload 33
  guard (second == 0) invalid_payload
  support ← decode_support (take 14 (drop 18 payload))
  protocol_min ← index_be16 payload 4 5
  protocol_max ← index_be16 payload 6 7
  max_request ← index_be32 payload 8 9 10 11
  max_response ← index_be32 payload 12 13 14 15
  operations ← index_be16 payload 16 17
  ok (
      Response.capabilities
        (capabilities_of protocol_min protocol_max max_request max_response operations support))

unfoldable pub decode_status : List ℕ → Outcome CodecError Response
decode_status payload = do
  guard (length payload == 19) invalid_payload
  state ← index payload 4
  guard (state == 2) invalid_payload
  support ← decode_support (take 14 (drop 5 payload))
  ok (Response.status (status_of support))

unfoldable pub error_of_byte : ℕ → Outcome CodecError Response
error_of_byte byte =
    if byte == 1
    then ok (Response.error invalid_request)
    else if byte == 2
    then ok (Response.error ErrorCode.unsupported_version)
    else if byte == 3
    then ok (Response.error unsupported_operation)
    else err invalid_payload

-- The last `match` of `decode_response`.
unfoldable pub decode_body : ℕ → List ℕ → Outcome CodecError Response
decode_body kind payload =
    if kind == response_capabilities
    then decode_capabilities payload
    else if kind == response_status
    then decode_status payload
    else if kind == response_error && length payload == 5
    then (index payload 4 >>= error_of_byte)
    else err invalid_payload

unfoldable pub decode_response : List ℕ → Outcome CodecError Response
decode_response payload = do
  validate_payload payload max_response_bytes
  guard (leb 5 (length payload)) invalid_payload
  reserved ← index payload 3
  guard (reserved == 0) invalid_payload
  validate_version payload
  kind ← index payload 2
  decode_body kind payload
