-- ===== src/Protocol/Codec/Request.antt =====
-- engine/protocol/src/lib.rs: request payloads, and the checks that both decoders share.
use loofi_face_id.Prelude.{
  ℕ, List, [], ◌∷◌, ◌++◌, not, Outcome, ok, err, ◌>>=◌, ◌>>◌, guard, index, length, is_empty, leb,
  ◌==◌, if◌then◌else◌, to_be16, from_be16,
}
use loofi_face_id.Protocol.Types.{
  Request, protocol_version, max_request_bytes, request_capabilities, request_status, CodecError,
  empty_frame, frame_too_large, invalid_payload,
}

unfoldable pub validate_payload : List ℕ → ℕ → Outcome CodecError (Unit {0})
validate_payload payload maximum = do
  guard (not (is_empty payload)) empty_frame
  guard (leb (length payload) maximum) (frame_too_large (length payload) maximum)

unfoldable pub validate_version : List ℕ → Outcome CodecError (Unit {0})
validate_version payload = do
  guard (leb 2 (length payload)) invalid_payload
  high ← index payload 0
  low ← index payload 1
  let version = from_be16 high low
  guard (version == protocol_version) (CodecError.unsupported_version version)

unfoldable pub request_kind : Request → ℕ
request_kind Request.capabilities = request_capabilities
request_kind Request.status = request_status

unfoldable pub encode_request : Request → List ℕ
unfolding request_kind
encode_request request = to_be16 protocol_version ++ (request_kind request ∷ 0 ∷ [])

-- The last `match` of `decode_request`.
unfoldable pub request_of_kind : ℕ → Outcome CodecError Request
request_of_kind kind =
    if kind == request_capabilities
    then ok Request.capabilities
    else if kind == request_status
    then ok Request.status
    else err invalid_payload

unfoldable pub decode_request : List ℕ → Outcome CodecError Request
unfolding validate_payload validate_version request_of_kind
decode_request payload = do
  validate_payload payload max_request_bytes
  guard (length payload == 4) invalid_payload
  reserved ← index payload 3
  guard (reserved == 0) invalid_payload
  validate_version payload
  kind ← index payload 2
  request_of_kind kind
