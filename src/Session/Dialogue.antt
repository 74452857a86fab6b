-- ===== src/Session/Dialogue.antt =====
-- A session of a worker, as a dialogue.
use loofi_face_id.Prelude.{
  ℕ, zero, suc, ◌+◌, ◌*◌, ◌≤◌, ◌<◌, ◌≡◌, refl, sym, ap, ◌∙◌, Option, some, List, [], ◌∷◌, ◌++◌,
  append_assoc, append-nil, arith, length, All, Outcome, ok,
}
use native.Mathlib.Nat.{mul-suc}
use loofi_face_id.Protocol.Stream.{Reader, pending, weight, IsHealthy, Writer}
use loofi_face_id.Protocol.Frame.Read.{FrameError, read_frame_or_eof}
use loofi_face_id.Protocol.Frame.Write.{write_frame}
use loofi_face_id.Protocol.Frame.Transport.{write_frame_writes}
use loofi_face_id.Protocol.Frame.Steps.{
  frame, write_frame_room, read_frame_or_eof-weight, read_frame_or_eof_next, read_frame_or_eof_end,
}
use loofi_face_id.Session.Loop.{
  Reply, Worker, Served, write_response, go_on, session_round, session_loop, serve_frames,
}
use loofi_face_id.Session.Replies.{Fits, IsWorker}

-- A payload that a client may send.
abbrev pub IsSendable : ℕ → List ℕ → Type 0
IsSendable maximum payload = (0 < length payload) × (length payload ≤ maximum)

unfoldable pub frames : List (List ℕ) → List ℕ
frames [] = []
frames (payload ∷ payloads) = frame payload ++ frames payloads

abbrev pub response_bytes : Outcome ⊥ (List ℕ) → List ℕ
response_bytes (ok response) = response
response_bytes _ = []

-- The responses to the payloads and the last state: each request finds the state that the one before
-- left.
unfoldable pub answers :
    {S : Type 0} → (S → ℕ → List ℕ → Reply S) → ℕ → S → List (List ℕ) → List (List ℕ) × S
answers respond moment state [] = ([], state)
answers respond moment state (payload ∷ payloads) =
    let response = respond state moment payload in
    let rest = answers respond (suc moment) response.1 payloads in
    (response_bytes response.0 ∷ rest.0, rest.1)

-- A session that ended well in this state and has written `bytes` behind what was there.
abbrev pub HasSaid : {E S : Type 0} → Writer → List ℕ → S → Served E S → Type 0
HasSaid writer bytes state served =
    (served.result ≡ ok tt)
    × (served.writer.written ≡ writer.written ++ bytes)
    × (served.state ≡ state)

-- The room that a response of at most `maximum` bytes takes for each payload.
unfoldable pub room_for : ℕ → List (List ℕ) → ℕ
room_for maximum [] = 0
room_for maximum (payload ∷ payloads) = 4 + maximum + room_for maximum payloads

pub room_for-length :
    (maximum cost : ℕ) (payloads : List (List ℕ))
    → cost ≡ 4 + maximum
    → room_for maximum payloads ≡ cost * length payloads
unfolding room_for
room_for-length maximum cost [] h = omega arith
room_for-length maximum cost (payload ∷ payloads) h =
    ground (arith, room_for-length maximum cost payloads h, mul-suc cost (length payloads))

module _ {E S : Type 0} (worker : Worker E S) (is : IsWorker worker) where
  -- A response is written as a frame, and the session goes on with what is left of the room.
  write_response_next :
      (reply : Reply S) (bytes : List ℕ) (room : ℕ) (end : S) (reader : Reader) (w : Writer)
      (next : Reader → Writer → S → Served E S)
      → Fits worker reply
      → 4 + worker.max_response + room ≤ w.room
      → ((w' : Writer) → room ≤ w'.room → HasSaid w' bytes end (next reader w' reply.1))
      → HasSaid w (frame (response_bytes reply.0) ++ bytes) end (
          let served = write_response worker reply reader w in
          go_on served.result served (next served.reader served.writer served.state))
  write_response_next reply bytes room end reader w next (response, a, long, bound) enough h =
      let u32 = is.response_bound in
      let (ok_written, written) =
        write_frame_writes w response worker.max_response long bound (omega arith) (omega arith) in
      let left =
        write_frame_room w response worker.max_response long bound (omega arith) (omega arith) in
      let w' = (write_frame w response worker.max_response).1 in
      let (done, all, last) = h w' (omega arith) in
      rw (a, ok_written)
        (
          done,
          all ∙ ap (λ t. t ++ bytes) written ∙ append_assoc w.written (frame response) bytes,
          last,
        )

  session_round_next :
      (respond : List ℕ → Reply S) (result : Outcome FrameError (Option (List ℕ)) × Reader)
      (payload : List ℕ) (w : Writer) (state : S) (next : List ℕ → Reader → Writer → S → Served E S)
      → result.0 ≡ ok (some payload)
      → session_round worker respond result w state next ≡ (
          let served = write_response worker (respond payload) result.1 w in
          go_on served.result served (next payload served.reader served.writer served.state))
  session_round_next respond result payload w state next e = rw e refl

  session_loop-answers :
      (payloads : List (List ℕ)) (fuel moment : ℕ) (state : S) (r : Reader) (w : Writer)
      → IsHealthy r
      → All (IsSendable worker.max_request) payloads
      → pending r ≡ frames payloads
      → weight r < fuel
      → room_for worker.max_response payloads ≤ w.room
      → HasSaid w
          (frames (answers worker.respond moment state payloads).0)
          (answers worker.respond moment state payloads).1
          (session_loop worker fuel moment state r w)
  unfolding session_loop frames answers room_for
  session_loop-answers payloads zero moment state r w h s e f room = absurd (omega arith)
  session_loop-answers [] (suc fuel) moment state r w h s e f room =
      rw (read_frame_or_eof_end r worker.max_request h e) (refl, sym (append-nil w.written), refl)
  session_loop-answers (payload ∷ payloads) (suc fuel) moment state r w h ((p, q), s) e f room =
      let u32 = is.request_bound in
      let (got, left, k) =
        read_frame_or_eof_next r payload (frames payloads) worker.max_request h p q (omega arith)
          e in
      let reply = worker.respond state moment payload in
      let rest = answers worker.respond (suc moment) reply.1 payloads in
      let next : List ℕ → Reader → Writer → S → Served E S =
        λ _ r' w' s'. session_loop worker fuel (suc moment) s' r' w' in
      let step =
        session_round_next (worker.respond state moment) (read_frame_or_eof r worker.max_request)
          payload w state next got in
      rw step (
        write_response_next reply (frames rest.0) (room_for worker.max_response payloads) rest.1
          (read_frame_or_eof r worker.max_request).1 w (next payload)
          (is.responds state moment payload) room
          λ w' room'.
            session_loop-answers payloads fuel (suc moment) reply.1
              (read_frame_or_eof r worker.max_request).1 w' k s left
              (omega (arith, read_frame_or_eof-weight r worker.max_request payload got)) room')

  -- On a stream that does not fail and brings requests as frames, in whatever pieces, a session of a
  -- worker whose every response fits ends well at the end of the stream, and has written the
  -- response to each request, in order, one frame for each.
  pub serve_frames-answers :
      (payloads : List (List ℕ)) (moment : ℕ) (state : S) (r : Reader) (w : Writer)
      → IsHealthy r
      → All (IsSendable worker.max_request) payloads
      → pending r ≡ frames payloads
      → room_for worker.max_response payloads ≤ w.room
      → HasSaid w
          (frames (answers worker.respond moment state payloads).0)
          (answers worker.respond moment state payloads).1
          (serve_frames worker moment state r w)
  unfolding serve_frames
  serve_frames-answers payloads moment state r w h s e room =
      session_loop-answers payloads (suc (weight r)) moment state r w h s e (omega arith) room
