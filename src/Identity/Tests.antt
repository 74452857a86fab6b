-- ===== src/Identity/Tests.antt =====
-- Runs of the identity worker: an enrolment, a question about it and a payload that is too short, in
-- one session.
use loofi_face_id.Prelude.{
  ℕ, ◌≡◌, refl, inl, arith, leb→le, length, List, [], ◌∷◌, ◌++◌, some, true, false, Settles,
}
use mathlib.Core.Path.{subst}
use loofi_face_id.Protocol.Stream.{Reader, IsHealthy, piece, interrupted, pending, Writer}
use loofi_face_id.Vault.Codec.{samples_bytes}
use loofi_face_id.Utf8.{is_utf8}
use loofi_face_id.Vault.Files.{passed, is_owner_valid}
use loofi_face_id.Vision.Image.{with_timeout}
use loofi_face_id.Vault.Reopening.{undisturbed}
use loofi_face_id.Vault.Stored.{user, vault_calls, empty_folder}
use loofi_face_id.Vault.Tests.{zeros, starts_with_one, three_samples, plain_cipher}
use loofi_face_id.Vision.Request.{generation_of}
use loofi_face_id.Identity.Request.{
  max_identity_request_bytes, invalid_request, parse_request, parse_operation,
}
use loofi_face_id.Identity.Parsing.{IsAccepted, parse_request-IsAccepted}
use loofi_face_id.Identity.Response.{
  Host, State, face_missing, no_match, encode_ack, encode_status, encode_error,
}
use loofi_face_id.Vault.Access.{ready, status}
use loofi_face_id.Identity.Worker.{process_request_with_cache}
use loofi_face_id.Identity.Session.{worker_answer, serve_session}
use loofi_face_id.Identity.Answers.{IsHost}
use loofi_face_id.Session.Dialogue.{IsSendable, frames, answers, HasSaid}
use loofi_face_id.Identity.Dialogue.{serve_session-answers}

-- A host whose camera shows no face.
abbrev host : Host
host = record {
  now = 500;
  last_instant = 1000000;
  loads = true;
  owner = some user;
  vault_calls = vault_calls;
  status_calls = record {
    root_exists = passed;
    stats = passed;
    vault_exists = passed;
    opening_stats = passed;
    opening = undisturbed;
    is_authentication = false;
  };
  extracts = λ image control. inl face_missing;
  is_duplicate = λ a b. false;
  compares = λ profile sample. no_match;
  random_key = some (zeros 32);
}

host-IsHost : IsHost host
host-IsHost = record {
  clock = λ k. omega arith;
  samples = λ image control sample e. cc;
  keys = λ key e. (let same : zeros 32 ≡ key = cc in subst (λ k. length k ≡ 32) same refl);
}

abbrev start : State
start = record { has_provider = false; folder = empty_folder }

-- The first eight bytes of a header and a generation below 256, and a timeout of 100 ms.
abbrev header : (operation generation : ℕ) → List ℕ
header operation generation =
    0 ∷ 1 ∷ operation ∷ 0 ∷ 0 ∷ 0 ∷ 0 ∷ 0 ∷ 0 ∷ 0 ∷ 0 ∷ generation ∷ 0 ∷ 0 ∷ 0 ∷ 100 ∷ []

abbrev enrolment : List ℕ
enrolment = header 3 1 ++ (zeros 32 ++ (3 ∷ samples_bytes three_samples))

abbrev question : List ℕ
question = header 4 2 ++ zeros 32

abbrev short_payload : List ℕ
short_payload = 0 ∷ 1 ∷ 4 ∷ []

abbrev payloads : List (List ℕ)
payloads = enrolment ∷ question ∷ short_payload ∷ []

abbrev requests : Reader
requests = interrupted ∷ piece (frames payloads) ∷ []

abbrev empty_writer : Writer
empty_writer = record { written = []; room = 2000 }

requests-frames : pending requests ≡ frames payloads
unfolding pending frames samples_bytes
requests-frames = refl

enrolment-IsSendable : IsSendable max_identity_request_bytes enrolment
unfolding samples_bytes
enrolment-IsSendable = (omega arith, leb→le _ _ refl)

requests-IsHealthy : IsHealthy requests
unfolding frames
requests-IsHealthy = tt

serve_session-answers_example :
    HasSaid empty_writer
      (frames (answers (worker_answer plain_cipher starts_with_one (λ k. host)) 0 start payloads).0)
      (answers (worker_answer plain_cipher starts_with_one (λ k. host)) 0 start payloads).1
      (serve_session plain_cipher starts_with_one (λ k. host) start requests empty_writer)
serve_session-answers_example =
    serve_session-answers plain_cipher starts_with_one payloads (λ k. host) start requests
      empty_writer (λ k. host-IsHost) requests-IsHealthy
      (enrolment-IsSendable, ((omega arith, omega arith), ((omega arith, omega arith), tt)))
      requests-frames (omega arith)

parse_request-IsAccepted_example :
    Settles
      (λ e. e.generation ≡ generation_of question)
      (IsAccepted starts_with_one question)
      (parse_request starts_with_one question)
parse_request-IsAccepted_example = parse_request-IsAccepted starts_with_one question

-- The enrolment is acknowledged, the question meets what it left, the short payload is refused.
enrolment_is_found :
    (answers (worker_answer plain_cipher starts_with_one (λ k. host)) 0 start payloads).0
    ≡ encode_ack 1
      ∷ encode_status 2 (ready (record { enrolled = true; sample_count = 3 }))
      ∷ encode_error invalid_request 0
      ∷ []
unfolding answers samples_bytes parse_request process_request_with_cache parse_operation encode_ack
    encode_status encode_error with_timeout is_owner_valid is_utf8 status
enrolment_is_found = refl
