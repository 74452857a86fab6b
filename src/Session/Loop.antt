-- ===== src/Session/Loop.antt =====
-- engine/vision/src/worker.rs, engine/identity/src/lib.rs: the loops of a worker over framed
-- requests, for any worker. Every function returns what is left of the reader and the writer, and
-- what lasts from request to request; wiping the payload leaves no trace in the result.
use loofi_face_id.Prelude.{ℕ, zero, suc, List, Option, none, some, Outcome, ok, err, panic, stuck}
use loofi_face_id.Protocol.Stream.{Reader, weight, Writer}
use loofi_face_id.Protocol.Frame.Read.{FrameError, read_frame, read_frame_or_eof, require_eof}
use loofi_face_id.Protocol.Frame.Write.{write_frame}

-- A response, which is never an error, and what lasts.
abbrev pub Reply : Type 0 → Type 0
Reply S = Outcome ⊥ (List ℕ) × S

-- A worker as its loops see it: `E` is its error, `S` what lasts from request to request. A response
-- may depend on the moment, which is the number of the request.
pub record Worker (E S : Type 0) : Type 0 where
  pub from_frame_error : FrameError → E
  pub max_request : ℕ
  pub max_response : ℕ
  pub respond : S → ℕ → List ℕ → Reply S

pub record Served (E S : Type 0) : Type 0 where
  pub result : Outcome E (Unit {0})
  pub reader : Reader
  pub writer : Writer
  pub state : S

module _ {E S : Type 0} where
  abbrev pub finished : Outcome E (Unit {0}) → Reader → Writer → S → Served E S
  finished result reader writer state = record {
    result = result;
    reader = reader;
    writer = writer;
    state = state;
  }

  -- The loop after a response is written: an error leaves it.
  abbrev pub go_on : Outcome E (Unit {0}) → Served E S → Served E S → Served E S
  go_on (ok _) served next = next
  go_on (err e) served next = served
  go_on panic served next = served
  go_on stuck served next = served

module _ {E S : Type 0} (worker : Worker E S) where
  -- `map_err(E::from)`
  abbrev pub framed : Outcome FrameError (Unit {0}) → Outcome E (Unit {0})
  framed (ok a) = ok a
  framed (err e) = err (worker.from_frame_error e)
  framed panic = panic
  framed stuck = stuck

  -- `write_frame(writer, &response, max_response)`
  abbrev pub write_response : Reply S → Reader → Writer → Served E S
  write_response (ok response, state) reader writer =
      let (result, w) = write_frame writer response worker.max_response in
      finished (framed result) reader w state
  write_response (err e, state) reader writer = absurd e
  write_response (panic, state) reader writer = finished panic reader writer state
  write_response (stuck, state) reader writer = finished stuck reader writer state

  -- One round, by what `read_frame_or_eof` gave: the end of the stream is the end of the session.
  abbrev pub session_round :
      (List ℕ → Reply S)
      → Outcome FrameError (Option (List ℕ)) × Reader
      → Writer
      → S
      → (List ℕ → Reader → Writer → S → Served E S)
      → Served E S
  session_round respond (ok none, reader) writer state next = finished (ok tt) reader writer state
  session_round respond (ok (some payload), reader) writer state next =
      let served = write_response (respond payload) reader writer in
      go_on served.result served (next payload served.reader served.writer served.state)
  session_round respond (err e, reader) writer state next =
      finished (err (worker.from_frame_error e)) reader writer state
  session_round respond (panic, reader) writer state next = finished panic reader writer state
  session_round respond (stuck, reader) writer state next = finished stuck reader writer state

  unfoldable pub session_loop : ℕ → ℕ → S → Reader → Writer → Served E S
  session_loop zero moment state reader writer = finished stuck reader writer state
  session_loop (suc fuel) moment state reader writer =
      session_round (worker.respond state moment) (read_frame_or_eof reader worker.max_request)
        writer state λ payload r w s. session_loop fuel (suc moment) s r w

  -- Every round but the last takes a frame, which weighs at least as much as its header.
  unfoldable pub serve_frames : ℕ → S → Reader → Writer → Served E S
  serve_frames moment state reader writer =
      session_loop (suc (weight reader)) moment state reader writer

  -- What follows the request's frame in `serve_once`, by what `require_eof` found.
  abbrev pub answer_once :
      Outcome FrameError (Unit {0}) → Reply S → S → Reader → Writer → Served E S
  answer_once (ok _) response state reader writer = write_response response reader writer
  answer_once (err e) response state reader writer =
      finished (err (worker.from_frame_error e)) reader writer state
  answer_once panic response state reader writer = finished panic reader writer state
  answer_once stuck response state reader writer = finished stuck reader writer state

  abbrev pub once_after :
      (List ℕ → Reply S) → Outcome FrameError (List ℕ) × Reader → Writer → S → Served E S
  once_after respond (ok payload, reader) writer state =
      let (end, reader') = require_eof reader in
      answer_once end (respond payload) state reader' writer
  once_after respond (err e, reader) writer state =
      finished (err (worker.from_frame_error e)) reader writer state
  once_after respond (panic, reader) writer state = finished panic reader writer state
  once_after respond (stuck, reader) writer state = finished stuck reader writer state

  unfoldable pub serve_frame : (List ℕ → Reply S) → S → Reader → Writer → Served E S
  serve_frame respond state reader writer =
      once_after respond (read_frame reader worker.max_request) writer state
