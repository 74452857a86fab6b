-- ===== src/Vision/Conversation.antt =====
-- engine/vision/src/worker.rs: sessions of the worker, as conversations.
use loofi_face_id.Prelude.{ℕ, ◌*◌, ◌≤◌, ◌≡◌, List, arith, length, All}
use loofi_face_id.Protocol.Stream.{Reader, pending, IsHealthy, Writer}
use loofi_face_id.Session.Dialogue.{
  IsSendable, frames, answers, HasSaid, serve_frames-answers, room_for-length,
}
use loofi_face_id.Vision.Request.{max_request_payload, max_response_payload}
use loofi_face_id.Vision.Response.{Runtime}
use loofi_face_id.Vision.Session.{analysis_worker, provider_respond, serve_session_with_provider}
use loofi_face_id.Vision.Ending.{analysis_worker-IsWorker}

-- The responses to the payloads, one by one.
abbrev pub analyses : Runtime → ℕ → List (List ℕ) → List (List ℕ)
analyses runtime moment payloads =
    (answers (analysis_worker (provider_respond runtime)).respond moment tt payloads).0

-- On a stream that does not fail and brings requests as frames, in whatever pieces, the session ends
-- well at the end of the stream, and has written the response to each request, in order, one frame
-- for each. A request has 1 to 8294424 bytes and is otherwise any bytes at all; the writer has room
-- for 244 bytes a request.
pub serve_session_with_provider-answers :
    (payloads : List (List ℕ)) (moment : ℕ) (runtime : Runtime) (r : Reader) (w : Writer)
    → IsHealthy r
    → All (IsSendable max_request_payload) payloads
    → pending r ≡ frames payloads
    → 244 * length payloads ≤ w.room
    → HasSaid w
        (frames (analyses runtime moment payloads))
        tt
        (serve_session_with_provider runtime moment r w)
unfolding serve_session_with_provider
serve_session_with_provider-answers payloads moment runtime r w h s e room =
    serve_frames-answers (analysis_worker (provider_respond runtime))
      (analysis_worker-IsWorker runtime) payloads moment tt r w h s e
      (rw (room_for-length max_response_payload 244 payloads (omega arith)) room)
