-- ===== src/Vision/Response.antt =====
-- engine/vision/src/worker.rs: the response to an analysis request.
use Prim.Native.Nat.{bit_and}
use loofi_face_id.Prelude.{
  ℕ, ◌+◌, ◌-◌, Bool, true, false, not, ◌&&◌, ◌||◌, List, [], ◌∷◌, ◌++◌, Option, none, some, length,
  ltb, leb, ◌==◌, ◌⊎◌, inl, inr, if◌then◌else◌, to_be16, to_be64,
}
use loofi_face_id.Vision.Image.{
  max_faces, ImageView, checked32, VisionError, ProcessingControl, with_timeout, Point,
  FaceLandmarks, FaceObservation, VisionAnalysis, quality_too_dark, quality_too_bright,
  quality_low_contrast, quality_low_sharpness,
}
use loofi_face_id.Vision.Request.{
  worker_protocol_version, response_analysis, response_error, WorkerErrorCode,
  invalid_runtime_output_code, code_byte, map_vision_error, AnalyzeRequest,
}

-- `!(QUALITY_TOO_DARK | …)` on `u8`: the four bits are apart.
abbrev pub unknown_flags : ℕ
unknown_flags =
    255 - (quality_too_dark + quality_too_bright + quality_low_contrast + quality_low_sharpness)

abbrev pub has_bad_flags : ℕ → Bool
has_bad_flags flags =
    not (bit_and flags unknown_flags == 0)
    || not (bit_and flags quality_too_dark == 0) && not (bit_and flags quality_too_bright == 0)

-- `start.checked_add(size).is_some_and(|end| end <= limit)`
abbrev pub ends_within : Option ℕ → ℕ → Bool
ends_within none limit = false
ends_within (some end) limit = leb end limit

abbrev pub points : FaceLandmarks → List Point
points l = l.right_eye ∷ l.left_eye ∷ l.nose ∷ l.right_mouth ∷ l.left_mouth ∷ []

unfoldable pub all_points : ImageView → List Point → Bool
all_points image [] = true
all_points image (p ∷ ps) = (ltb p.x image.width && ltb p.y image.height) && all_points image ps

unfoldable pub is_inside : ImageView → FaceObservation → Bool
is_inside image face =
    let r = face.rectangle in
    ltb 0 r.width
    && ltb 0 r.height
    && ends_within (checked32 (r.x + r.width)) image.width
    && ends_within (checked32 (r.y + r.height)) image.height
    && all_points image (points face.landmarks)

unfoldable pub all_inside : ImageView → List FaceObservation → Bool
all_inside image [] = true
all_inside image (face ∷ faces) = is_inside image face && all_inside image faces

unfoldable pub valid_analysis : VisionAnalysis → ImageView → Bool
valid_analysis analysis image =
    if ltb max_faces (length analysis.faces) || has_bad_flags analysis.quality.flags
    then false
    else all_inside image analysis.faces

unfoldable pub encode_error : WorkerErrorCode → ℕ → List ℕ
encode_error code generation =
    to_be16 worker_protocol_version ++ (response_error ∷ code_byte code ∷ to_be64 generation)

abbrev pub point_bytes : Point → List ℕ
point_bytes p = to_be16 p.x ++ to_be16 p.y

unfoldable pub points_bytes : List Point → List ℕ
points_bytes [] = []
points_bytes (p ∷ ps) = point_bytes p ++ points_bytes ps

unfoldable pub faces_bytes : List FaceObservation → List ℕ
faces_bytes [] = []
faces_bytes (face ∷ faces) =
    let r = face.rectangle in
    (to_be16 r.x
      ++ to_be16 r.y
      ++ to_be16 r.width
      ++ to_be16 r.height
      ++ points_bytes (points face.landmarks))
    ++ faces_bytes faces

-- `u8::try_from(len).unwrap_or(u8::MAX)`
abbrev pub saturating_u8 : ℕ → ℕ
saturating_u8 n = if ltb n 256 then n else 255

unfoldable pub encode_analysis : ℕ → VisionAnalysis → List ℕ
encode_analysis generation analysis =
    let face_count = saturating_u8 (length analysis.faces) in
    let q = analysis.quality in
    if ltb max_faces face_count
    then encode_error invalid_runtime_output_code generation
    else to_be16 worker_protocol_version
      ++ (response_analysis ∷ face_count ∷ to_be64 generation)
      ++ (q.brightness ∷ q.contrast ∷ q.sharpness ∷ q.flags ∷ [])
      ++ faces_bytes analysis.faces

-- What the worker runs with: the clock at a request's number, the last instant that the clock can
-- represent, and the provider, whose answer may depend on the moment.
pub record Runtime : Type 0 where
  pub now : ℕ → ℕ
  pub last_instant : ℕ
  pub analyze : ℕ → ImageView → ProcessingControl → VisionError ⊎ VisionAnalysis

-- The arms of `process_request` on the provider's result.
unfoldable pub analysis_response : VisionError ⊎ VisionAnalysis → AnalyzeRequest → List ℕ
unfolding valid_analysis
analysis_response (inl e) request = encode_error (map_vision_error e) request.generation
analysis_response (inr analysis) request =
    if valid_analysis analysis request.image
    then encode_analysis request.generation analysis
    else encode_error invalid_runtime_output_code request.generation

abbrev pub analyze_under : Runtime → ℕ → AnalyzeRequest → VisionError ⊎ ProcessingControl → List ℕ
analyze_under runtime moment request (inl e) = encode_error (map_vision_error e) request.generation
analyze_under runtime moment request (inr control) =
    analysis_response (runtime.analyze moment request.image control) request

unfoldable pub process_request : Runtime → ℕ → AnalyzeRequest → List ℕ
process_request runtime moment request =
    analyze_under runtime moment request
      (with_timeout (runtime.now moment) runtime.last_instant request.timeout_ms)
