-- ===== src/Daemon/Supervise.antt =====
-- engine/daemon/src/lib.rs: `supervise_auth_worker`. What happens around the loop is a list of
-- rounds: what the clock, the client, the worker's socket and the worker answer in each. The model
-- returns `none` when the rounds end before the loop does. The request that
-- is written to the worker is `worker_request` of Daemon.Worker.
use loofi_face_id.Prelude.{
  ℕ, Bool, true, false, not, ◌&&◌, ◌||◌, List, [], ◌∷◌, ◌++◌, Option, none, some, leb, ◌==◌,
  if◌then◌else◌, is_empty,
}
use loofi_face_id.Daemon.Status.{
  is_expired, status_timeout, status_device_busy, status_internal_error, status_rate_limited,
  status_cancelled, status_progress,
}
use loofi_face_id.Daemon.RateLimiter.{Attempts, allow_at}

-- One `read` of the worker's socket, but the last of its round.
pub data Chunk : Type 0 where
  bytes : List ℕ → Chunk
  interrupted : Chunk

-- `try_wait`
pub data Wait : Type 0 where
  exited : (success : Bool) → Wait
  running failed : Wait

pub record Round : Type 0 where
  pub disconnected : Bool
  pub now : ℕ
  pub reads : List Chunk
  pub read_fails : Bool
  -- Whether the progress frames of this round reach the client.
  pub sends : Bool
  pub wait : Wait
  pub disconnected_at_exit : Bool
  pub now_at_exit : ℕ

-- The worker's slot: whether a child is registered, and whether it has been killed.
pub data Slot : Type 0 where
  vacant : Slot
  occupied : (killed : Bool) → Slot

-- The bytes that the inner loop reads.
unfoldable pub read_chunks : List Chunk → List ℕ
read_chunks [] = []
read_chunks (bytes chunk ∷ reads) = chunk ++ read_chunks reads
read_chunks (interrupted ∷ reads) = read_chunks reads

-- What the frame loop comes to: a status to return at once, or what is left.
pub data Drained : Type 0 where
  refused : (status : ℕ) → Drained
  left : (worker_response : List ℕ) (final_status : Option ℕ) → Drained

abbrev pub is_some : Option ℕ → Bool
is_some none = false
is_some (some n) = true

-- One frame of four bytes: a status to return, or the final status from here on.
unfoldable pub take_frame :
    Bool → Bool → Option ℕ → ℕ → ℕ → ℕ → ℕ → (ℕ → Drained) → (Option ℕ → Drained) → Drained
take_frame has_client sends final v0 v1 status reserved stop go =
    if not (v0 == 0 && v1 == 2) || not (reserved == 0)
    then stop status_internal_error
    else if status == status_progress
    then (if is_some final
        then stop status_internal_error
        else if has_client && not sends
        then stop status_cancelled
        else go final)
    else if leb status status_cancelled && not (is_some final)
    then go (some status)
    else stop status_internal_error

-- `while worker_response.len() >= 4`
unfoldable pub drain_frames : Bool → Bool → Option ℕ → List ℕ → Drained
unfolding take_frame
drain_frames has_client sends final (v0 ∷ v1 ∷ status ∷ reserved ∷ response) =
    take_frame has_client sends final v0 v1 status reserved refused
      λ final'. drain_frames has_client sends final' response
drain_frames has_client sends final [] = left [] final
drain_frames has_client sends final (a ∷ []) = left (a ∷ []) final
drain_frames has_client sends final (a ∷ b ∷ []) = left (a ∷ b ∷ []) final
drain_frames has_client sends final (a ∷ b ∷ c ∷ []) = left (a ∷ b ∷ c ∷ []) final

abbrev pub final_or_error : Option ℕ → ℕ
final_or_error none = status_internal_error
final_or_error (some status) = status

-- The branch in which the child has exited.
unfoldable pub exit_status : Bool → ℕ → Round → Bool → List ℕ → Option ℕ → ℕ
unfolding is_expired
exit_status has_client deadline r success response final =
    if has_client && r.disconnected_at_exit
    then status_cancelled
    else if not success || not (is_empty response)
    then status_internal_error
    else if is_expired deadline r.now_at_exit
    then status_timeout
    else final_or_error final

-- The `match` on `try_wait`; `go` is the next round.
abbrev pub after_wait :
    Bool → ℕ → Round → Wait → List ℕ → Option ℕ → Option (ℕ × Slot) → Option (ℕ × Slot)
after_wait has_client deadline r (exited success) response final go =
    some (exit_status has_client deadline r success response final, vacant)
after_wait has_client deadline r running response final go = go
after_wait has_client deadline r failed response final go =
    some (status_internal_error, occupied true)

-- From the frame loop on.
abbrev pub after_drain :
    Bool → ℕ → Round → Drained → (List ℕ → Option ℕ → Option (ℕ × Slot)) → Option (ℕ × Slot)
after_drain has_client deadline r (refused status) go = some (status, occupied true)
after_drain has_client deadline r (left response final) go =
    after_wait has_client deadline r r.wait response final (go response final)

-- The loop. A status returned at once comes with the child killed.
unfoldable pub supervise_loop : Bool → ℕ → List ℕ → Option ℕ → List Round → Option (ℕ × Slot)
unfolding drain_frames read_chunks exit_status is_expired
supervise_loop has_client deadline response final [] = none
supervise_loop has_client deadline response final (r ∷ rounds) =
    if has_client && r.disconnected
    then some (status_cancelled, occupied true)
    else if is_expired deadline r.now
    then some (status_timeout, occupied true)
    else if r.read_fails
    then some (status_internal_error, occupied true)
    else after_drain has_client deadline r
        (drain_frames has_client r.sends final (response ++ read_chunks r.reads))
        λ response' final'. supervise_loop has_client deadline response' final' rounds

-- What the calls before the loop answer.
pub record Start : Type 0 where
  -- Whether another thread holds the slot's lock.
  pub locked : Bool
  -- `try_wait` on the child that is registered, if one is.
  pub old_child : Wait
  pub now : ℕ
  pub attempt_at : ℕ
  pub spawns : Bool
  pub writes : Bool
  pub sets_nonblocking : Bool

pub record Supervision : Type 0 where
  pub limiter : Attempts
  pub slot : Slot

-- Whether the registered child, if any, is known to have exited.
abbrev pub is_reaped : Slot → Wait → Bool
is_reaped vacant wait = true
is_reaped (occupied killed) (exited success) = true
is_reaped (occupied killed) running = false
is_reaped (occupied killed) failed = false

abbrev pub with_limiter : Attempts → Option (ℕ × Slot) → Option (ℕ × Supervision)
with_limiter limiter none = none
with_limiter limiter (some (status, slot)) =
    some (status, record { limiter = limiter; slot = slot })

-- `spawn_auth_worker` and what follows, once the limiter has let the attempt pass.
unfoldable pub run_worker : Bool → ℕ → Start → List Round → Option (ℕ × Slot)
unfolding supervise_loop
run_worker has_client deadline s rounds =
    if not s.spawns
    then some (status_internal_error, vacant)
    else if not s.writes
    then some (status_internal_error, occupied true)
    else if not s.sets_nonblocking
    then some (status_internal_error, occupied true)
    else supervise_loop has_client deadline [] none rounds

-- `supervise_auth_worker`
unfoldable pub supervise_auth_worker :
    ℕ → Bool → ℕ → Start → List Round → Supervision → Option (ℕ × Supervision)
unfolding run_worker is_expired
supervise_auth_worker uid has_client deadline s rounds state =
    if s.locked || not (is_reaped state.slot s.old_child)
    then some (status_device_busy, state)
    else if is_expired deadline s.now
    then some (status_timeout, record state { slot = vacant })
    else (let (allowed, limiter) = allow_at state.limiter uid s.attempt_at in
        if allowed
        then with_limiter limiter (run_worker has_client deadline s rounds)
        else some (status_rate_limited, record { limiter = limiter; slot = vacant }))
