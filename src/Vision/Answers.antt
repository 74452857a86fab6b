-- ===== src/Vision/Answers.antt =====
-- engine/vision/src/worker.rs: the responses: their size, and whom they answer.
use loofi_face_id.Prelude.{
  ℕ, ◌*◌, ◌≤◌, ◌≡◌, refl, ◌⊎◌, inl, inr, List, [], ◌∷◌, ◌++◌, arith, ltb, Bool-cases, length,
  Outcome, ok, err, panic, stuck, to_be16, Settles, to_be64,
}
use loofi_face_id.Vision.Image.{
  VisionError, VisionAnalysis, FaceObservation, max_faces, with_timeout, ProcessingControl,
}
use loofi_face_id.Vision.Request.{
  AnalyzeRequest, WorkerErrorCode, parse_request, generation_of, max_response_payload,
  response_error, response_analysis, worker_protocol_version, map_vision_error, code_byte,
  invalid_runtime_output_code,
}
use loofi_face_id.Vision.Response.{
  encode_error, encode_analysis, faces_bytes, points_bytes, valid_analysis, Runtime,
  analysis_response, analyze_under, process_request, saturating_u8,
}
use loofi_face_id.Session.Replies.{Fits}
use loofi_face_id.Vision.Session.{
  analysis_worker, parsed_response, factory_response, Factory, Parsed,
}
use loofi_face_id.Vision.Parsing.{parse_request-Settles, IsAccepted}

-- A response of the protocol's version to a request of this generation, an error or an analysis,
-- that `write_frame` takes.
abbrev pub IsResponse : ℕ → List ℕ → Type 0
IsResponse generation response =
    (kind : ℕ) × (detail : ℕ) × (rest : List ℕ) × (response
      ≡ to_be16 worker_protocol_version ++ (kind ∷ detail ∷ to_be64 generation ++ rest))
    × (length response ≤ max_response_payload)

encode_error-IsResponse :
    (code : WorkerErrorCode) (generation : ℕ) → IsResponse generation (encode_error code generation)
unfolding encode_error
encode_error-IsResponse code generation = (response_error, code_byte code, [], refl, omega arith)

length-faces_bytes : (faces : List FaceObservation) → length (faces_bytes faces) ≡ 28 * length faces
unfolding faces_bytes points_bytes
length-faces_bytes [] = refl
length-faces_bytes (face ∷ faces) = omega (arith, length-faces_bytes faces)

encode_analysis-IsResponse :
    (generation : ℕ) (analysis : VisionAnalysis)
    → IsResponse generation (encode_analysis generation analysis)
unfolding encode_analysis
encode_analysis-IsResponse generation analysis =
    let faces = analysis.faces in
    let q = analysis.quality in
    elim (Bool-cases (ltb max_faces (saturating_u8 (length faces)))) [
      | inl many ↦ rw many (encode_error-IsResponse invalid_runtime_output_code generation)
      | inr few ↦ rw few (
        response_analysis,
        saturating_u8 (length faces),
        q.brightness ∷ q.contrast ∷ q.sharpness ∷ q.flags ∷ faces_bytes faces,
        refl,
        ground (arith, length-faces_bytes faces),
      )
    ]

analysis_response-IsResponse :
    (result : VisionError ⊎ VisionAnalysis) (request : AnalyzeRequest)
    → IsResponse request.generation (analysis_response result request)
unfolding analysis_response
analysis_response-IsResponse (inl e) request =
    encode_error-IsResponse (map_vision_error e) request.generation
analysis_response-IsResponse (inr analysis) request =
    elim (Bool-cases (valid_analysis analysis request.image)) [
      | inl valid ↦ rw valid (encode_analysis-IsResponse request.generation analysis)
      | inr bad ↦ rw bad (encode_error-IsResponse invalid_runtime_output_code request.generation)
    ]

process_request-IsResponse :
    (runtime : Runtime) (moment : ℕ) (request : AnalyzeRequest)
    → IsResponse request.generation (process_request runtime moment request)
unfolding process_request
process_request-IsResponse runtime moment request =
    under (with_timeout (runtime.now moment) runtime.last_instant request.timeout_ms)
  where
    under :
        (control : VisionError ⊎ ProcessingControl)
        → IsResponse request.generation (analyze_under runtime moment request control)
    under (inl e) = encode_error-IsResponse (map_vision_error e) request.generation
    under (inr control) =
        analysis_response-IsResponse (runtime.analyze moment request.image control) request

-- The worker's response to a payload, whatever it is.
abbrev pub Responds : ℕ → Outcome ⊥ (List ℕ) → Type 0
Responds generation outcome =
    (response : List ℕ) × (outcome ≡ ok response) × IsResponse generation response

parsed_response-Responds :
    (runtime : Runtime) (moment : ℕ) (payload : List ℕ) (parsed : Parsed)
    → Settles (λ e. e.generation ≡ generation_of payload) (IsAccepted payload) parsed
    → Responds (generation_of payload) (parsed_response runtime moment parsed)
unfolding parsed_response
parsed_response-Responds runtime moment payload (ok request) h = (
  process_request runtime moment request,
  refl,
  rw (← h.0) (process_request-IsResponse runtime moment request),
)
parsed_response-Responds runtime moment payload (err e) h =
    (encode_error e.code e.generation, refl, rw (← h) (encode_error-IsResponse e.code e.generation))
parsed_response-Responds runtime moment payload panic h = absurd h
parsed_response-Responds runtime moment payload stuck h = absurd h

-- To every payload the worker has one response, of at most 240 bytes, which carries the generation of the payload.
pub parse_request-Responds :
    (runtime : Runtime) (moment : ℕ) (payload : List ℕ)
    → Responds (generation_of payload) (parsed_response runtime moment (parse_request payload))
parse_request-Responds runtime moment payload =
    parsed_response-Responds runtime moment payload (parse_request payload)
      (parse_request-Settles payload)

pub factory_response-Responds :
    (factory : Factory) (payload : List ℕ) (parsed : Parsed)
    → Settles (λ e. e.generation ≡ generation_of payload) (IsAccepted payload) parsed
    → Responds (generation_of payload) (factory_response factory parsed)
unfolding factory_response
factory_response-Responds (inl code) payload (ok request) h = (
  encode_error code request.generation,
  refl,
  rw (← h.0) (encode_error-IsResponse code request.generation),
)
factory_response-Responds (inr runtime) payload (ok request) h = (
  process_request runtime 0 request,
  refl,
  rw (← h.0) (process_request-IsResponse runtime 0 request),
)
factory_response-Responds factory payload (err e) h =
    (encode_error e.code e.generation, refl, rw (← h) (encode_error-IsResponse e.code e.generation))
factory_response-Responds factory payload panic h = absurd h
factory_response-Responds factory payload stuck h = absurd h

-- A response to any payload fits its frame.
pub Responds-Fits :
    (respond : ℕ → List ℕ → Outcome ⊥ (List ℕ)) (generation moment : ℕ) (payload : List ℕ)
    → Responds generation (respond moment payload)
    → Fits (analysis_worker respond) (respond moment payload, tt)
Responds-Fits respond generation moment payload (response, answer, (kind, detail, rest, e, bound)) =
    (response, answer, rw e (omega arith), bound)
