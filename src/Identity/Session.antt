-- ===== src/Identity/Session.antt =====
-- engine/identity/src/lib.rs: the loops of the identity worker over framed requests.
use loofi_face_id.Prelude.{ℕ, Bool, false, List, Outcome, ok, err, panic, stuck}
use loofi_face_id.Protocol.Stream.{IoError, Reader, Writer}
use loofi_face_id.Protocol.Frame.Read.{FrameError, io, empty_frame, frame_too_large, trailing_data}
use loofi_face_id.Session.Loop.{Worker, Served, serve_frames, serve_frame}
use loofi_face_id.Vault.Codec.{Sample}
use loofi_face_id.Vault.Envelope.{Cipher}
use loofi_face_id.Identity.Request.{
  RequestError, ParsedRequest, parse_request, max_identity_request_bytes,
  max_identity_response_bytes,
}
use loofi_face_id.Identity.Response.{encode_error, Host, State, Response}
use loofi_face_id.Identity.Worker.{process_request_with_cache}

pub data IdentityWorkerError : Type 0 where
  io_failed : IoError → IdentityWorkerError
  empty_request : IdentityWorkerError
  request_too_large : IdentityWorkerError
  trailing_request : IdentityWorkerError

-- `From<FrameError>`
unfoldable pub from_frame_error : FrameError → IdentityWorkerError
from_frame_error (io e) = io_failed e
from_frame_error empty_frame = empty_request
from_frame_error (frame_too_large length maximum) = request_too_large
from_frame_error trailing_data = trailing_request

abbrev pub identity_worker : (State → ℕ → List ℕ → Response) → Worker IdentityWorkerError State
identity_worker respond = record {
  from_frame_error = from_frame_error;
  max_request = max_identity_request_bytes;
  max_response = max_identity_response_bytes;
  respond = respond;
}

-- A run of the worker starts with an empty cache.
abbrev pub without_provider : State → State
without_provider state = record state { has_provider = false }

module _ (cipher : Cipher) (is_normalized : Sample → Bool) where
  -- `match parse_request(&payload)`
  abbrev pub parsed_response : Host → State → Outcome RequestError ParsedRequest → Response
  parsed_response h state (ok request) =
      process_request_with_cache cipher is_normalized h request state
  parsed_response h state (err e) = (ok (encode_error e.code e.generation), state)
  parsed_response h state panic = (panic, state)
  parsed_response h state stuck = (stuck, state)

  abbrev pub respond : Host → State → List ℕ → Response
  respond h state payload = parsed_response h state (parse_request is_normalized payload)

  unfoldable pub serve_once : Host → State → Reader → Writer → Served IdentityWorkerError State
  serve_once h state reader writer =
      serve_frame (identity_worker λ s moment payload. respond h s payload)
        (respond h (without_provider state)) (without_provider state) reader writer

  -- `hosts` gives the host at the k-th request.
  abbrev pub worker_answer : (ℕ → Host) → State → ℕ → List ℕ → Response
  worker_answer hosts state moment payload = respond (hosts moment) state payload

  unfoldable pub serve_session :
      (ℕ → Host) → State → Reader → Writer → Served IdentityWorkerError State
  serve_session hosts state reader writer =
      serve_frames (identity_worker (worker_answer hosts)) 0 (without_provider state) reader writer
