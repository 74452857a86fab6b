-- ===== src/Protocol/Codec/RoundTrip.antt =====
-- engine/protocol/src/lib.rs: the decoders read back what the encoders write.
use loofi_face_id.Prelude.{◌≡◌, refl, ap, ok, IsU16, IsU32, from_be16-byte_of, from_be32-byte_of}
use loofi_face_id.Protocol.Types.{
  Request, OperationSupport, unsupported, supported, DisabledCapability, disabled, EngineState,
  ready, Capabilities, Status, Response, ErrorCode,
}
use loofi_face_id.Protocol.Codec.Request.{encode_request, decode_request}
use loofi_face_id.Protocol.Codec.Response.{
  wire_value, from_wire, SupportArray, support_bytes, decode_support, capabilities_support,
  status_support, encode_response,
}
use loofi_face_id.Protocol.Codec.Decode.{
  decode_response, decode_body, decode_capabilities, decode_status, error_of_byte, capabilities_of,
  status_of,
}
use loofi_face_id.Protocol.Codec.Request.{validate_payload, validate_version}

-- Every request is read back.
pub decode_request-encode_request :
    (request : Request) → decode_request (encode_request request) ≡ ok request
unfolding decode_request encode_request
decode_request-encode_request Request.capabilities = refl
decode_request-encode_request Request.status = refl

pub from_wire-wire_value : (s : OperationSupport) → from_wire (wire_value s) ≡ ok s
unfolding from_wire wire_value
from_wire-wire_value unsupported = refl
from_wire-wire_value supported = refl

decode_support-support_bytes : (a : SupportArray) → decode_support (support_bytes a) ≡ ok a
unfolding decode_support support_bytes
decode_support-support_bytes a = simp from_wire-wire_value

DisabledCapability-eq : (d : DisabledCapability) → disabled ≡ d
DisabledCapability-eq disabled = refl

EngineState-eq : (s : EngineState) → ready ≡ s
EngineState-eq ready = refl

-- The widths of the fields.
pub record IsWireCapabilities (c : Capabilities) : Type 0 where
  pub protocol_min : IsU16 c.protocol_min
  pub protocol_max : IsU16 c.protocol_max
  pub max_request : IsU32 c.max_request
  pub max_response : IsU32 c.max_response
  pub operations : IsU16 c.operations

abbrev pub IsWireResponse : Response → Type 0
IsWireResponse (Response.capabilities c) = IsWireCapabilities c
IsWireResponse (Response.status s) = Unit {0}
IsWireResponse (Response.error code) = Unit {0}

-- The record that the decoder builds from the fields of `c` is `c`.
capabilities_of-fields :
    (c : Capabilities)
    → capabilities_of c.protocol_min c.protocol_max c.max_request c.max_response c.operations
        (capabilities_support c)
      ≡ c
unfolding capabilities_support
capabilities_of-fields c = λ i. record c {
  network_access = DisabledCapability-eq c.network_access i;
  runtime_model_downloads = DisabledCapability-eq c.runtime_model_downloads i;
}

status_of-fields : (s : Status) → status_of (status_support s) ≡ s
unfolding status_support
status_of-fields s = λ i. record s { state = EngineState-eq s.state i }

capabilities_round_trip :
    (c : Capabilities)
    → IsWireCapabilities c
    → decode_response (encode_response (Response.capabilities c)) ≡ ok (Response.capabilities c)
unfolding decode_response validate_payload validate_version decode_body decode_capabilities
    encode_response support_bytes decode_support
capabilities_round_trip c h =
    simp
      (
        from_wire-wire_value,
        from_be16-byte_of c.protocol_min h.protocol_min,
        from_be16-byte_of c.protocol_max h.protocol_max,
        from_be32-byte_of c.max_request h.max_request,
        from_be32-byte_of c.max_response h.max_response,
        from_be16-byte_of c.operations h.operations,
      )
      (ap (λ d. ok (Response.capabilities d)) (capabilities_of-fields c))

status_round_trip :
    (s : Status) → decode_response (encode_response (Response.status s)) ≡ ok (Response.status s)
unfolding decode_response validate_payload validate_version decode_body decode_status
    encode_response support_bytes decode_support
status_round_trip s =
    simp from_wire-wire_value (ap (λ t. ok (Response.status t)) (status_of-fields s))

error_round_trip :
    (code : ErrorCode)
    → decode_response (encode_response (Response.error code)) ≡ ok (Response.error code)
unfolding decode_response validate_payload validate_version decode_body error_of_byte
    encode_response
error_round_trip ErrorCode.invalid_request = refl
error_round_trip ErrorCode.unsupported_version = refl
error_round_trip ErrorCode.unsupported_operation = refl

-- Every response whose numbers fit their fields is read back.
pub decode_response-encode_response :
    (response : Response)
    → IsWireResponse response
    → decode_response (encode_response response) ≡ ok response
decode_response-encode_response (Response.capabilities c) h = capabilities_round_trip c h
decode_response-encode_response (Response.status s) h = status_round_trip s
decode_response-encode_response (Response.error code) h = error_round_trip code
