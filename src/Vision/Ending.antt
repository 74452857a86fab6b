-- ===== src/Vision/Ending.antt =====
-- engine/vision/src/worker.rs: the worker ends on any stream.
use loofi_face_id.Prelude.{ℕ, inl, inr, List, arith, ok, err, panic, stuck, IsAnswer}
use loofi_face_id.Protocol.Stream.{Reader, Writer}
use loofi_face_id.Protocol.Frame.Read.{read_frame_or_eof}
use loofi_face_id.Protocol.Frame.Safety.{read_ends}
use loofi_face_id.Session.Replies.{Fits, IsWorker}
use loofi_face_id.Session.Ending.{
  serve_frame-IsAnswer, session_round-IsAnswer, serve_frames-IsAnswer,
}
use loofi_face_id.Vision.Request.{parse_request, generation_of, max_request_payload}
use loofi_face_id.Vision.Response.{Runtime}
use loofi_face_id.Vision.Session.{
  Factory, Parsed, analysis_worker, provider_respond, factory_respond, after_first,
  serve_once_with_provider, serve_once_with_provider_factory, serve_session_with_provider,
  serve_session_with_provider_factory,
}
use loofi_face_id.Vision.Parsing.{parse_request-Settles}
use loofi_face_id.Vision.Answers.{parse_request-Responds, factory_response-Responds, Responds-Fits}

provider_respond-Fits :
    (runtime : Runtime) (moment : ℕ) (payload : List ℕ)
    → Fits
        (analysis_worker (provider_respond runtime))
        (provider_respond runtime moment payload, tt)
provider_respond-Fits runtime moment payload =
    Responds-Fits (provider_respond runtime) (generation_of payload) moment payload
      (parse_request-Responds runtime moment payload)

-- What the loops ask of a worker, the vision worker fulfils.
pub analysis_worker-IsWorker :
    (runtime : Runtime) → IsWorker (analysis_worker (provider_respond runtime))
analysis_worker-IsWorker runtime = record {
  responds = λ state moment payload. provider_respond-Fits runtime moment payload;
  request_bound = omega arith;
  response_bound = omega arith;
}

factory_respond-Fits :
    (factory : Factory) (payload : List ℕ)
    → Fits (analysis_worker (factory_respond factory)) (factory_respond factory 0 payload, tt)
factory_respond-Fits factory payload =
    Responds-Fits (factory_respond factory) (generation_of payload) 0 payload (
      factory_response-Responds factory payload (parse_request payload)
        (parse_request-Settles payload))

serve_session_with_provider-IsAnswer :
    (moment : ℕ) (runtime : Runtime) (r : Reader) (w : Writer)
    → IsAnswer (serve_session_with_provider runtime moment r w).result
unfolding serve_session_with_provider
serve_session_with_provider-IsAnswer moment runtime r w =
    serve_frames-IsAnswer (analysis_worker (provider_respond runtime)) moment tt r w
      (analysis_worker-IsWorker runtime)

after_first-IsAnswer :
    (factory : Factory) (parsed : Parsed) (r : Reader) (w : Writer)
    → IsAnswer (after_first factory parsed r w).result
after_first-IsAnswer (inr runtime) (ok request) r w =
    serve_session_with_provider-IsAnswer 1 runtime r w
after_first-IsAnswer (inl code) (ok request) r w = tt
after_first-IsAnswer (inl code) (err e) r w = tt
after_first-IsAnswer (inr runtime) (err e) r w = tt
after_first-IsAnswer (inl code) panic r w = tt
after_first-IsAnswer (inr runtime) panic r w = tt
after_first-IsAnswer (inl code) stuck r w = tt
after_first-IsAnswer (inr runtime) stuck r w = tt

-- The worker ends without a panic on any stream and any writer, those that are interrupted or fail
-- at any place included, whatever the provider and its factory answer: a single request with a
-- provider or a factory, and a session with a provider or a factory, each ends with success or an
-- error.
pub serve_ends :
    (runtime : Runtime) (factory : Factory) (moment : ℕ) (r : Reader) (w : Writer)
    → IsAnswer (serve_once_with_provider runtime r w).result
      × IsAnswer (serve_once_with_provider_factory factory r w).result
      × IsAnswer (serve_session_with_provider runtime moment r w).result
      × IsAnswer (serve_session_with_provider_factory factory r w).result
unfolding serve_once_with_provider serve_once_with_provider_factory
    serve_session_with_provider_factory
serve_ends runtime factory moment r w =
    let got = read_frame_or_eof r max_request_payload in
    (
      serve_frame-IsAnswer (analysis_worker (provider_respond runtime)) _ tt r w
          (provider_respond-Fits runtime 0),
      serve_frame-IsAnswer (analysis_worker (factory_respond factory)) _ tt r w
          (factory_respond-Fits factory),
      serve_session_with_provider-IsAnswer moment runtime r w,
      session_round-IsAnswer (analysis_worker (factory_respond factory)) _ got.0 got.1 w tt _
          (factory_respond-Fits factory) (read_ends r max_request_payload).0
          λ payload r' w' s e same. after_first-IsAnswer factory (parse_request payload) r' w',
    )
