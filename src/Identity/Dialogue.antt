-- ===== src/Identity/Dialogue.antt =====
-- engine/identity/src/lib.rs: a session of the identity worker, as a dialogue.
use loofi_face_id.Prelude.{ℕ, ◌*◌, ◌≤◌, ◌≡◌, Bool, List, arith, length, All, IsAnswer}
use loofi_face_id.Protocol.Stream.{Reader, pending, IsHealthy, Writer}
use loofi_face_id.Session.Replies.{Fits, IsWorker}
use loofi_face_id.Session.Ending.{serve_frame-IsAnswer, serve_frames-IsAnswer}
use loofi_face_id.Session.Dialogue.{
  IsSendable, frames, answers, HasSaid, room_for-length, serve_frames-answers,
}
use loofi_face_id.Vault.Codec.{Sample}
use loofi_face_id.Vault.Envelope.{Cipher}
use loofi_face_id.Identity.Request.{max_identity_request_bytes, max_identity_response_bytes}
use loofi_face_id.Identity.Response.{Host, State, Response}
use loofi_face_id.Identity.Session.{
  identity_worker, respond, worker_answer, without_provider, serve_once, serve_session,
}
use loofi_face_id.Identity.Answers.{IsHost}
use loofi_face_id.Identity.Conversation.{respond-Responds}

module _ (cipher : Cipher) (is_normalized : Sample → Bool) where
  respond-Fits :
      (answer : State → ℕ → List ℕ → Response) (h : Host) (state : State) (payload : List ℕ)
      → IsHost h
      → Fits (identity_worker answer) (respond cipher is_normalized h state payload)
  respond-Fits answer h state payload host =
      let (response, e, (kind, detail, rest, layout, bound)) =
        respond-Responds cipher is_normalized h state payload host in
      (response, e, rw layout (omega arith), bound)

  -- What the loops ask of a worker, the identity worker fulfils.
  identity_worker-IsWorker :
      (hosts : ℕ → Host)
      → ((k : ℕ) → IsHost (hosts k))
      → IsWorker (identity_worker (worker_answer cipher is_normalized hosts))
  identity_worker-IsWorker hosts host = record {
    responds = λ state moment payload.
        respond-Fits (worker_answer cipher is_normalized hosts) (hosts moment) state payload
          (host moment);
    request_bound = omega arith;
    response_bound = omega arith;
  }

  -- On any stream and any writer, those that fail at any place included, `serve_once` and
  -- `serve_session` end with success or an error, where on every host the clock runs, a sample has 128
  -- values and a new key 32 bytes.
  pub identity_ends :
      (hosts : ℕ → Host) (state : State) (r : Reader) (w : Writer)
      → ((k : ℕ) → IsHost (hosts k))
      → IsAnswer (serve_once cipher is_normalized (hosts 0) state r w).result
        × IsAnswer (serve_session cipher is_normalized hosts state r w).result
  unfolding serve_once serve_session
  identity_ends hosts state r w host =
      let once = λ (s : State) (moment : ℕ) (payload : List ℕ).
        respond cipher is_normalized (hosts 0) s payload in
      (
        serve_frame-IsAnswer (identity_worker once) _ (without_provider state) r w
            (λ payload. respond-Fits once (hosts 0) (without_provider state) payload (host 0)),
        serve_frames-IsAnswer (identity_worker (worker_answer cipher is_normalized hosts)) 0
            (without_provider state) r w (identity_worker-IsWorker hosts host),
      )

  -- On a stream that does not fail and brings requests as frames, in whatever pieces, a session of the
  -- worker ends well at the end of the stream. It has written the response to each request, in order,
  -- one frame for each, and each request met the vault and the provider as the one before left them.
  -- A request has 1 byte up to the worker's bound and is otherwise any bytes at all; the writer has
  -- room for 580 bytes a request; on every host the clock runs, and a sample has 128 values, a new key
  -- 32 bytes.
  pub serve_session-answers :
      (payloads : List (List ℕ)) (hosts : ℕ → Host) (state : State) (r : Reader) (w : Writer)
      → ((k : ℕ) → IsHost (hosts k))
      → IsHealthy r
      → All (IsSendable max_identity_request_bytes) payloads
      → pending r ≡ frames payloads
      → 580 * length payloads ≤ w.room
      → HasSaid w
          (frames
            (answers
              (worker_answer cipher is_normalized hosts)
              0
              (without_provider state)
              payloads).0)
          (answers (worker_answer cipher is_normalized hosts) 0 (without_provider state) payloads).1
          (serve_session cipher is_normalized hosts state r w)
  unfolding serve_session
  serve_session-answers payloads hosts state r w host h s e room =
      serve_frames-answers (identity_worker (worker_answer cipher is_normalized hosts))
        (identity_worker-IsWorker hosts host) payloads 0 (without_provider state) r w h s e
        (rw (room_for-length max_identity_response_bytes 580 payloads (omega arith)) room)
