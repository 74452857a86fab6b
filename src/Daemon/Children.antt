-- ===== src/Daemon/Children.antt =====
-- engine/daemon/src/lib.rs: the worker process that `supervise_auth_worker` leaves behind.
use loofi_face_id.Prelude.{
  ℕ, ◌≡◌, ◌⊎◌, Bool, true, false, Option, none, some, List, [], ◌∷◌, ◌++◌, arith,
}
use loofi_face_id.Daemon.Status.{status_device_busy}
use loofi_face_id.Daemon.RateLimiter.{Attempts, allow_at}
use loofi_face_id.Daemon.Supervise.{
  Wait, exited, running, failed, Round, Slot, vacant, occupied, read_chunks, Drained, refused, left,
  drain_frames, after_wait, after_drain, supervise_loop, Start, Supervision, with_limiter,
  run_worker, supervise_auth_worker,
}

-- No child is registered, or one that has been killed.
abbrev pub IsContained : Slot → Type 0
IsContained vacant = Unit {0}
IsContained (occupied true) = Unit {0}
IsContained (occupied false) = ⊥

abbrev pub Contains : Option (ℕ × Slot) → Type 0
Contains none = Unit {0}
Contains (some (status, slot)) = IsContained slot

after_drain-Contains :
    (has_client : Bool) (deadline : ℕ) (r : Round) (d : Drained)
    (go : List ℕ → Option ℕ → Option (ℕ × Slot))
    → ((response : List ℕ) (final : Option ℕ) → Contains (go response final))
    → Contains (after_drain has_client deadline r d go)
after_drain-Contains has_client deadline r (refused status) go h = tt
after_drain-Contains has_client deadline r (left response final) go h =
    after_wait-Contains has_client deadline r r.wait response final _ (h response final)
  where
    after_wait-Contains :
        (has_client : Bool) (deadline : ℕ) (r : Round) (wait : Wait) (response : List ℕ)
        (final : Option ℕ) (go : Option (ℕ × Slot))
        → Contains go
        → Contains (after_wait has_client deadline r wait response final go)
    after_wait-Contains has_client deadline r (exited success) response final go h = tt
    after_wait-Contains has_client deadline r running response final go h = h
    after_wait-Contains has_client deadline r failed response final go h = tt

supervise_loop-Contains :
    (has_client : Bool) (deadline : ℕ) (response : List ℕ) (final : Option ℕ) (rounds : List Round)
    → Contains (supervise_loop has_client deadline response final rounds)
unfolding supervise_loop
supervise_loop-Contains has_client deadline response final [] = tt
supervise_loop-Contains has_client deadline response final (r ∷ rounds) =
    let later =
      after_drain-Contains has_client deadline r
        (drain_frames has_client r.sends final (response ++ read_chunks r.reads))
        (λ response' final'. supervise_loop has_client deadline response' final' rounds)
        (λ response' final'. supervise_loop-Contains has_client deadline response' final' rounds) in
    ground (arith, later)

run_worker-Contains :
    (has_client : Bool) (deadline : ℕ) (s : Start) (rounds : List Round)
    → Contains (run_worker has_client deadline s rounds)
unfolding run_worker
run_worker-Contains has_client deadline s rounds =
    ground (arith, supervise_loop-Contains has_client deadline [] none rounds)

-- The state that a call leaves.
abbrev pub IsHandedOver : Supervision → ℕ → Supervision → Type 0
IsHandedOver state status state' =
    ((status ≡ status_device_busy) × (state' ≡ state)) ⊎ IsContained state'.slot

with_limiter-IsHandedOver :
    (limiter : Attempts) (result : Option (ℕ × Slot)) (status : ℕ) (state' : Supervision)
    → Contains result
    → with_limiter limiter result ≡ some (status, state')
    → IsContained state'.slot
with_limiter-IsHandedOver limiter none status state' h e = absurd (ground arith)
with_limiter-IsHandedOver limiter (some (why, slot)) status state' h e =
    let same : slot ≡ state'.slot = ground arith in rw (← same) h

-- When `supervise_auth_worker` returns, it has either found the slot taken and changed nothing, or
-- it leaves no worker that is neither reaped nor killed.
pub supervise_auth_worker-IsHandedOver :
    (uid : ℕ) (has_client : Bool) (deadline : ℕ) (s : Start) (rounds : List Round)
    (state state' : Supervision) (status : ℕ)
    → supervise_auth_worker uid has_client deadline s rounds state ≡ some (status, state')
    → IsHandedOver state status state'
unfolding supervise_auth_worker
supervise_auth_worker-IsHandedOver uid has_client deadline s rounds state state' status e =
    let limited =
      with_limiter-IsHandedOver (allow_at state.limiter uid s.attempt_at).1
        (run_worker has_client deadline s rounds) status state'
        (run_worker-Contains has_client deadline s rounds) in
    ground (arith, limited)
