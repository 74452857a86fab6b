-- ===== src/Session/Replies.antt =====
-- What a worker owes its loops: a response to every payload, that a frame can carry.
use loofi_face_id.Prelude.{ℕ, ◌<◌, ◌≤◌, ◌≡◌, List, length, ok, IsU32}
use loofi_face_id.Session.Loop.{Reply, Worker}

-- A response that the worker's frames take.
abbrev pub Fits : {E S : Type 0} → Worker E S → Reply S → Type 0
Fits worker r =
    (response : List ℕ) × (r.0 ≡ ok response)
    × (0 < length response)
    × (length response ≤ worker.max_response)

pub record IsWorker {E S : Type 0} (worker : Worker E S) : Type 0 where
  pub responds :
      (state : S) (moment : ℕ) (payload : List ℕ)
      → Fits worker (worker.respond state moment payload)
  pub request_bound : IsU32 worker.max_request
  pub response_bound : IsU32 worker.max_response
