-- ===== src/Vision/Request.antt =====
-- engine/vision/src/worker.rs: an analysis request and the checks of `parse_request`.
use loofi_face_id.Prelude.{
  ℕ, ◌+◌, ◌*◌, Bool, not, ◌&&◌, List, ◌∷◌, Outcome, ok, err, panic, stuck, ◌>>=◌, ◌>>◌, guard,
  index, length, drop, leb, ◌==◌, if◌then◌else◌, from_be64, index_be16, index_be32,
}
use loofi_face_id.Vision.Image.{
  max_frame_bytes, max_faces, ImageView, ImageError, unsupported_pixel_format, invalid_dimensions,
  invalid_stride, arithmetic_overflow, frame_too_large, length_mismatch, pixel_format, new_image,
  VisionError, cancelled, deadline_exceeded, face_at_edge, runtime_failure, invalid_runtime_output,
}

abbrev pub worker_protocol_version : ℕ
worker_protocol_version = 2

abbrev pub op_analyze : ℕ
op_analyze = 1

abbrev pub response_analysis : ℕ
response_analysis = 0x81

abbrev pub response_error : ℕ
response_error = 0xff

abbrev pub request_header_bytes : ℕ
request_header_bytes = 24

abbrev pub max_request_payload : ℕ
max_request_payload = max_frame_bytes + request_header_bytes

abbrev pub max_response_payload : ℕ
max_response_payload = 16 + max_faces * (8 + 20)

abbrev pub min_timeout_ms : ℕ
min_timeout_ms = 1

abbrev pub max_timeout_ms : ℕ
max_timeout_ms = 5000

pub data WorkerErrorCode : Type 0 where
  invalid_request unsupported_version unsupported_operation : WorkerErrorCode
  unsupported_pixel_format_code invalid_dimensions_code invalid_stride_code : WorkerErrorCode
  invalid_frame_size invalid_timeout cancelled_code deadline_exceeded_code : WorkerErrorCode
  model_unavailable internal_error face_at_edge_code : WorkerErrorCode
  invalid_runtime_output_code runtime_failure_code : WorkerErrorCode

-- `code as u8`
unfoldable pub code_byte : WorkerErrorCode → ℕ
code_byte invalid_request = 1
code_byte unsupported_version = 2
code_byte unsupported_operation = 3
code_byte unsupported_pixel_format_code = 4
code_byte invalid_dimensions_code = 5
code_byte invalid_stride_code = 6
code_byte invalid_frame_size = 7
code_byte invalid_timeout = 8
code_byte cancelled_code = 9
code_byte deadline_exceeded_code = 10
code_byte model_unavailable = 11
code_byte internal_error = 12
code_byte face_at_edge_code = 13
code_byte invalid_runtime_output_code = 14
code_byte runtime_failure_code = 15

pub record AnalyzeRequest : Type 0 where
  pub generation : ℕ  -- u64
  pub timeout_ms : ℕ  -- u32
  pub image : ImageView

pub record RequestError : Type 0 where
  pub code : WorkerErrorCode
  pub generation : ℕ  -- u64

unfoldable pub map_image_error : ImageError → WorkerErrorCode
map_image_error unsupported_pixel_format = unsupported_pixel_format_code
map_image_error invalid_dimensions = invalid_dimensions_code
map_image_error invalid_stride = invalid_stride_code
map_image_error arithmetic_overflow = invalid_frame_size
map_image_error frame_too_large = invalid_frame_size
map_image_error length_mismatch = invalid_frame_size

unfoldable pub map_vision_error : VisionError → WorkerErrorCode
map_vision_error cancelled = cancelled_code
map_vision_error deadline_exceeded = deadline_exceeded_code
map_vision_error face_at_edge = face_at_edge_code
map_vision_error invalid_runtime_output = invalid_runtime_output_code
map_vision_error runtime_failure = runtime_failure_code

abbrev pub map_err {ℓ} : {E F : Type ℓ} {A : Type ℓ} → (E → F) → Outcome E A → Outcome F A
map_err f (ok a) = ok a
map_err f (err e) = err (f e)
map_err f panic = panic
map_err f stuck = stuck

-- `payload.get(4..12)`, and 0 where the payload is too short.
abbrev pub generation_of : List ℕ → ℕ
generation_of (_ ∷ _ ∷ _ ∷ _ ∷ a ∷ b ∷ c ∷ d ∷ e ∷ f ∷ g ∷ h ∷ _) = from_be64 a b c d e f g h
generation_of _ = 0

-- `&payload[n..]`
abbrev pub tail_from {ℓ} : {E : Type ℓ} → ℕ → List ℕ → Outcome E (List ℕ)
tail_from n bytes = if leb n (length bytes) then ok (drop n bytes) else panic

abbrev pub has_timeout : ℕ → Bool
has_timeout timeout = leb min_timeout_ms timeout && leb timeout max_timeout_ms

unfoldable pub parse_request : List ℕ → Outcome RequestError AnalyzeRequest
parse_request payload =
    let generation = generation_of payload in
    let failure : WorkerErrorCode → RequestError =
      λ code. record { code = code; generation = generation } in
    do
      guard (leb request_header_bytes (length payload)) (failure invalid_request)
      version ← index_be16 payload 0 1
      guard (version == worker_protocol_version) (failure unsupported_version)
      guard (not (generation == 0)) (failure invalid_request)
      operation ← index payload 2
      guard (operation == op_analyze) (failure unsupported_operation)
      format_byte ← index payload 3
      format ← map_err (λ _. failure unsupported_pixel_format_code) (pixel_format format_byte)
      timeout ← index_be32 payload 12 13 14 15
      guard (has_timeout timeout) (failure invalid_timeout)
      width ← index_be16 payload 16 17
      height ← index_be16 payload 18 19
      stride ← index_be32 payload 20 21 22 23
      bytes ← tail_from request_header_bytes payload
      image ←
          map_err (λ e. failure (map_image_error e)) (new_image format width height stride bytes)
      ok (record { generation = generation; timeout_ms = timeout; image = image })
