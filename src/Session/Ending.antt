-- ===== src/Session/Ending.antt =====
-- A worker's loops end on any stream.
use loofi_face_id.Prelude.{
  ℕ, zero, suc, ◌<◌, ◌≡◌, refl, Option, none, some, List, arith, Outcome, ok, err, panic, stuck,
  IsAnswer,
}
use loofi_face_id.Protocol.Stream.{Reader, weight, Writer, write_all}
use loofi_face_id.Protocol.Frame.Read.{FrameError, read_frame_or_eof, read_frame, require_eof}
use loofi_face_id.Protocol.Frame.Write.{write_frame}
use loofi_face_id.Protocol.Frame.Safety.{read_ends}
use loofi_face_id.Protocol.Frame.Steps.{read_frame_or_eof-weight}
use loofi_face_id.Session.Loop.{
  Reply, Worker, Served, framed, write_response, go_on, session_round, session_loop, serve_frames,
  answer_once, once_after, serve_frame,
}
use loofi_face_id.Session.Replies.{Fits, IsWorker}

write_frame-IsAnswer :
    (w : Writer) (payload : List ℕ) (maximum : ℕ) → IsAnswer (write_frame w payload maximum).0
unfolding write_frame write_all
write_frame-IsAnswer w payload maximum = ground arith

module _ {E S : Type 0} (worker : Worker E S) where
  framed-IsAnswer : (o : Outcome FrameError (Unit {0})) → IsAnswer o → IsAnswer (framed worker o)
  framed-IsAnswer (ok a) h = tt
  framed-IsAnswer (err e) h = tt
  framed-IsAnswer panic h = h
  framed-IsAnswer stuck h = h

  write_response_reader :
      (reply : Reply S) (r : Reader) (w : Writer) → (write_response worker reply r w).reader ≡ r
  write_response_reader (ok response, state) r w = refl
  write_response_reader (err e, state) r w = absurd e
  write_response_reader (panic, state) r w = refl
  write_response_reader (stuck, state) r w = refl

  write_response-IsAnswer :
      (reply : Reply S) (r : Reader) (w : Writer)
      → Fits worker reply
      → IsAnswer (write_response worker reply r w).result
  write_response-IsAnswer reply r w (response, e, _, _) = rw e (
      framed-IsAnswer (write_frame w response worker.max_response).0
        (write_frame-IsAnswer w response worker.max_response))

  answer_once-IsAnswer :
      (end : Outcome FrameError (Unit {0})) (reply : Reply S) (state : S) (r : Reader) (w : Writer)
      → IsAnswer end
      → Fits worker reply
      → IsAnswer (answer_once worker end reply state r w).result
  answer_once-IsAnswer (ok _) reply state r w h k = write_response-IsAnswer reply r w k
  answer_once-IsAnswer (err e) reply state r w h k = tt
  answer_once-IsAnswer panic reply state r w h k = h
  answer_once-IsAnswer stuck reply state r w h k = h

  once_after-IsAnswer :
      (respond : List ℕ → Reply S) (o : Outcome FrameError (List ℕ)) (r : Reader) (w : Writer)
      (state : S)
      → ((payload : List ℕ) → Fits worker (respond payload))
      → IsAnswer o
      → IsAnswer (once_after worker respond (o, r) w state).result
  once_after-IsAnswer respond (ok payload) r w state h k =
      answer_once-IsAnswer (require_eof r).0 (respond payload) state (require_eof r).1 w
        (read_ends r 0).2 (h payload)
  once_after-IsAnswer respond (err e) r w state h k = tt
  once_after-IsAnswer respond panic r w state h k = k
  once_after-IsAnswer respond stuck r w state h k = k

  pub serve_frame-IsAnswer :
      (respond : List ℕ → Reply S) (state : S) (r : Reader) (w : Writer)
      → ((payload : List ℕ) → Fits worker (respond payload))
      → IsAnswer (serve_frame worker respond state r w).result
  unfolding serve_frame
  serve_frame-IsAnswer respond state r w h =
      let got = read_frame r worker.max_request in
      once_after-IsAnswer respond got.0 got.1 w state h (read_ends r worker.max_request).1

  go_on-IsAnswer :
      (o : Outcome E (Unit {0})) (served next : Served E S)
      → o ≡ served.result
      → IsAnswer o
      → IsAnswer next.result
      → IsAnswer (go_on o served next).result
  go_on-IsAnswer (ok _) served next e h k = k
  go_on-IsAnswer (err _) served next e h k = rw (← e) tt
  go_on-IsAnswer panic served next e h k = absurd h
  go_on-IsAnswer stuck served next e h k = absurd h

  pub session_round-IsAnswer :
      (respond : List ℕ → Reply S) (o : Outcome FrameError (Option (List ℕ))) (r : Reader)
      (w : Writer) (state : S) (next : List ℕ → Reader → Writer → S → Served E S)
      → ((payload : List ℕ) → Fits worker (respond payload))
      → IsAnswer o
      → ((payload : List ℕ) (r' : Reader) (w' : Writer) (s : S)
          → o ≡ ok (some payload)
          → r' ≡ r
          → IsAnswer (next payload r' w' s).result)
      → IsAnswer (session_round worker respond (o, r) w state next).result
  session_round-IsAnswer respond (ok none) r w state next h k n = tt
  session_round-IsAnswer respond (ok (some payload)) r w state next h k n =
      let served = write_response worker (respond payload) r w in
      go_on-IsAnswer served.result served (next payload served.reader served.writer served.state)
        refl (write_response-IsAnswer (respond payload) r w (h payload))
        (n payload served.reader served.writer served.state refl
          (write_response_reader (respond payload) r w))
  session_round-IsAnswer respond (err e) r w state next h k n = tt
  session_round-IsAnswer respond panic r w state next h k n = k
  session_round-IsAnswer respond stuck r w state next h k n = k

  session_loop-IsAnswer :
      (fuel moment : ℕ) (state : S) (r : Reader) (w : Writer)
      → IsWorker worker
      → weight r < fuel
      → IsAnswer (session_loop worker fuel moment state r w).result
  unfolding session_loop
  session_loop-IsAnswer zero moment state r w is h = absurd (omega arith)
  session_loop-IsAnswer (suc fuel) moment state r w is h =
      let got = read_frame_or_eof r worker.max_request in
      session_round-IsAnswer (worker.respond state moment) got.0 got.1 w state
        (λ _ r' w' s'. session_loop worker fuel (suc moment) s' r' w') (is.responds state moment)
        (read_ends r worker.max_request).0
        λ payload r' w' s e same.
          session_loop-IsAnswer fuel (suc moment) s r' w' is
            (rw same (omega (arith, read_frame_or_eof-weight r worker.max_request payload e)))

  pub serve_frames-IsAnswer :
      (moment : ℕ) (state : S) (r : Reader) (w : Writer)
      → IsWorker worker
      → IsAnswer (serve_frames worker moment state r w).result
  unfolding serve_frames
  serve_frames-IsAnswer moment state r w is =
      session_loop-IsAnswer (suc (weight r)) moment state r w is (omega arith)
