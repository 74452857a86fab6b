-- ===== src/Protocol/Codec/Response.antt =====
-- engine/protocol/src/lib.rs: response payloads.
use loofi_face_id.Prelude.{
  ℕ, List, [], ◌∷◌, ◌++◌, Outcome, ok, err, ◌>>=◌, index, ◌==◌, if◌then◌else◌, to_be16, to_be32,
}
use loofi_face_id.Protocol.Types.{
  protocol_version, response_capabilities, response_status, response_error, OperationSupport,
  unsupported, supported, Capabilities, Status, ErrorCode, invalid_request, unsupported_operation,
  Response, CodecError, invalid_payload,
}

-- `OperationSupport::wire_value`
unfoldable pub wire_value : OperationSupport → ℕ
wire_value unsupported = 0
wire_value supported = 1

-- `OperationSupport::from_wire`
unfoldable pub from_wire : ℕ → Outcome CodecError OperationSupport
from_wire value =
    if value == 0 then ok unsupported else if value == 1 then ok supported else err invalid_payload

-- `[OperationSupport; 14]`, in the order of the fields of `Capabilities` and of `Status`.
pub record SupportArray : Type 0 where
  pub s0 : OperationSupport
  pub s1 : OperationSupport
  pub s2 : OperationSupport
  pub s3 : OperationSupport
  pub s4 : OperationSupport
  pub s5 : OperationSupport
  pub s6 : OperationSupport
  pub s7 : OperationSupport
  pub s8 : OperationSupport
  pub s9 : OperationSupport
  pub s10 : OperationSupport
  pub s11 : OperationSupport
  pub s12 : OperationSupport
  pub s13 : OperationSupport

unfoldable pub support_bytes : SupportArray → List ℕ
support_bytes a =
    wire_value a.s0
    ∷ wire_value a.s1
    ∷ wire_value a.s2
    ∷ wire_value a.s3
    ∷ wire_value a.s4
    ∷ wire_value a.s5
    ∷ wire_value a.s6
    ∷ wire_value a.s7
    ∷ wire_value a.s8
    ∷ wire_value a.s9
    ∷ wire_value a.s10
    ∷ wire_value a.s11
    ∷ wire_value a.s12
    ∷ wire_value a.s13
    ∷ []

unfoldable pub decode_support : List ℕ → Outcome CodecError SupportArray
decode_support payload = do
  a0 ← from_wire (← index payload 0)
  a1 ← from_wire (← index payload 1)
  a2 ← from_wire (← index payload 2)
  a3 ← from_wire (← index payload 3)
  a4 ← from_wire (← index payload 4)
  a5 ← from_wire (← index payload 5)
  a6 ← from_wire (← index payload 6)
  a7 ← from_wire (← index payload 7)
  a8 ← from_wire (← index payload 8)
  a9 ← from_wire (← index payload 9)
  a10 ← from_wire (← index payload 10)
  a11 ← from_wire (← index payload 11)
  a12 ← from_wire (← index payload 12)
  a13 ← from_wire (← index payload 13)
  ok (record {
    s0 = a0;
    s1 = a1;
    s2 = a2;
    s3 = a3;
    s4 = a4;
    s5 = a5;
    s6 = a6;
    s7 = a7;
    s8 = a8;
    s9 = a9;
    s10 = a10;
    s11 = a11;
    s12 = a12;
    s13 = a13;
  })

-- The array that `encode_response` writes for `Capabilities`.
unfoldable pub capabilities_support : Capabilities → SupportArray
capabilities_support c = record {
  s0 = c.detector_analysis;
  s1 = c.embedding_extraction;
  s2 = c.user_session_enrollment;
  s3 = c.encrypted_user_session_persistence;
  s4 = c.explicit_local_verification;
  s5 = c.profile_deletion;
  s6 = c.pam_authentication;
  s7 = c.pam_configuration;
  s8 = c.authselect;
  s9 = c.sddm_lock_screen;
  s10 = c.sudo_polkit;
  s11 = c.liveness;
  s12 = c.security_tiers;
  s13 = c.privileged_services;
}

-- The array that `encode_response` writes for `Status`.
unfoldable pub status_support : Status → SupportArray
status_support s = record {
  s0 = s.detector_analysis;
  s1 = s.embedding_extraction;
  s2 = s.user_session_enrollment;
  s3 = s.encrypted_user_session_persistence;
  s4 = s.explicit_local_verification;
  s5 = s.profile_deletion;
  s6 = s.pam_authentication;
  s7 = s.pam_configuration;
  s8 = s.authselect;
  s9 = s.sddm_lock_screen;
  s10 = s.sudo_polkit;
  s11 = s.liveness;
  s12 = s.security_tiers;
  s13 = s.privileged_services;
}

unfoldable pub error_byte : ErrorCode → ℕ
error_byte invalid_request = 1
error_byte ErrorCode.unsupported_version = 2
error_byte unsupported_operation = 3

unfoldable pub encode_response : Response → List ℕ
unfolding capabilities_support status_support error_byte
encode_response (Response.capabilities c) =
    to_be16 protocol_version
    ++ (response_capabilities ∷ 0 ∷ [])
    ++ to_be16 c.protocol_min
    ++ to_be16 c.protocol_max
    ++ to_be32 c.max_request
    ++ to_be32 c.max_response
    ++ to_be16 c.operations
    ++ support_bytes (capabilities_support c)
    ++ (0 ∷ 0 ∷ [])
encode_response (Response.status s) =
    to_be16 protocol_version ++ (response_status ∷ 0 ∷ 2 ∷ []) ++ support_bytes (status_support s)
encode_response (Response.error code) =
    to_be16 protocol_version ++ (response_error ∷ 0 ∷ error_byte code ∷ [])
