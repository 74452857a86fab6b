-- ===== src/Vision/Session.antt =====
-- engine/vision/src/worker.rs: the loops of the vision worker, which are those of Session.Loop with
-- nothing that lasts from request to request.
use loofi_face_id.Prelude.{ℕ, List, Outcome, ok, err, panic, stuck, ◌⊎◌, inl, inr}
use loofi_face_id.Protocol.Stream.{IoError, Reader, Writer}
use loofi_face_id.Protocol.Frame.Read.{
  FrameError, io, empty_frame, frame_too_large, trailing_data, read_frame_or_eof,
}
use loofi_face_id.Session.Loop.{Worker, Served, finished, session_round, serve_frames, serve_frame}
use loofi_face_id.Vision.Request.{
  WorkerErrorCode, AnalyzeRequest, RequestError, parse_request, max_request_payload,
  max_response_payload,
}
use loofi_face_id.Vision.Response.{encode_error, Runtime, process_request}

pub data WorkerIoError : Type 0 where
  io_failed : IoError → WorkerIoError
  empty_request : WorkerIoError
  request_too_large : WorkerIoError
  trailing_request : WorkerIoError

-- `From<FrameError>`
unfoldable pub from_frame_error : FrameError → WorkerIoError
from_frame_error (io e) = io_failed e
from_frame_error empty_frame = empty_request
from_frame_error (frame_too_large length maximum) = request_too_large
from_frame_error trailing_data = trailing_request

abbrev pub Parsed : Type 0
Parsed = Outcome RequestError AnalyzeRequest

-- `match parse_request(&payload)`
unfoldable pub parsed_response : Runtime → ℕ → Parsed → Outcome ⊥ (List ℕ)
parsed_response runtime moment (ok request) = ok (process_request runtime moment request)
parsed_response runtime moment (err e) = ok (encode_error e.code e.generation)
parsed_response runtime moment panic = panic
parsed_response runtime moment stuck = stuck

-- What a run of the worker returns, with what is left of the streams.
abbrev pub Run : Type 0
Run = Served WorkerIoError (Unit {0})

abbrev pub analysis_worker : (ℕ → List ℕ → Outcome ⊥ (List ℕ)) → Worker WorkerIoError (Unit {0})
analysis_worker respond = record {
  from_frame_error = from_frame_error;
  max_request = max_request_payload;
  max_response = max_response_payload;
  respond = λ s moment payload. (respond moment payload, s);
}

abbrev pub provider_respond : Runtime → ℕ → List ℕ → Outcome ⊥ (List ℕ)
provider_respond runtime moment payload = parsed_response runtime moment (parse_request payload)

unfoldable pub serve_once_with_provider : Runtime → Reader → Writer → Run
unfolding parsed_response
serve_once_with_provider runtime reader writer =
    serve_frame (analysis_worker (provider_respond runtime))
      (λ payload. (provider_respond runtime 0 payload, tt)) tt reader writer

-- `factory()`
abbrev pub Factory : Type 0
Factory = WorkerErrorCode ⊎ Runtime

unfoldable pub factory_response : Factory → Parsed → Outcome ⊥ (List ℕ)
unfolding parsed_response
factory_response (inl code) (ok request) = ok (encode_error code request.generation)
factory_response (inr runtime) (ok request) = ok (process_request runtime 0 request)
factory_response factory (err e) = ok (encode_error e.code e.generation)
factory_response factory panic = panic
factory_response factory stuck = stuck

abbrev pub factory_respond : Factory → ℕ → List ℕ → Outcome ⊥ (List ℕ)
factory_respond factory moment payload = factory_response factory (parse_request payload)

unfoldable pub serve_once_with_provider_factory : Factory → Reader → Writer → Run
serve_once_with_provider_factory factory reader writer =
    serve_frame (analysis_worker (factory_respond factory))
      (λ payload. (factory_respond factory 0 payload, tt)) tt reader writer

unfoldable pub serve_session_with_provider : Runtime → ℕ → Reader → Writer → Run
serve_session_with_provider runtime moment reader writer =
    serve_frames (analysis_worker (provider_respond runtime)) moment tt reader writer

-- What follows the first response of a session with a factory: a session without a provider ends.
abbrev pub after_first : Factory → Parsed → Reader → Writer → Run
after_first (inr runtime) (ok request) reader writer =
    serve_session_with_provider runtime 1 reader writer
after_first (inl code) (ok request) reader writer = finished (ok tt) reader writer tt
after_first factory (err e) reader writer = finished (ok tt) reader writer tt
after_first factory panic reader writer = finished (ok tt) reader writer tt
after_first factory stuck reader writer = finished (ok tt) reader writer tt

-- The first request decides on the provider.
unfoldable pub serve_session_with_provider_factory : Factory → Reader → Writer → Run
serve_session_with_provider_factory factory reader writer =
    session_round (analysis_worker (factory_respond factory))
      (λ payload. (factory_respond factory 0 payload, tt))
      (read_frame_or_eof reader max_request_payload) writer tt
      λ payload r w s. after_first factory (parse_request payload) r w
