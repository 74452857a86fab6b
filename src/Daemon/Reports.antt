-- ===== src/Daemon/Reports.antt =====
-- engine/daemon/src/lib.rs: what a status that `supervise_auth_worker` returns says of the worker.
use loofi_face_id.Prelude.{
  ℕ, ◌≤◌, ◌<◌, ◌≡◌, refl, sym, ap, ◌∙◌, ◌≢◌, ◌⊎◌, inl, inr, Bool, true, false, ◌&&◌, Option, none,
  some, List, [], ◌∷◌, ◌++◌, append_assoc, arith,
}
use mathlib.Core.Path.{subst}
use loofi_face_id.Daemon.Status.{is_expired, status_success, status_cancelled, status_progress}
use loofi_face_id.Daemon.RateLimiter.{Attempts, allow_at}
use loofi_face_id.Daemon.Supervise.{
  Wait, exited, running, failed, Round, Slot, read_chunks, Drained, refused, left, take_frame,
  drain_frames, exit_status, after_wait, after_drain, supervise_loop, Start, Supervision,
  with_limiter, run_worker, supervise_auth_worker,
}

-- Whole frames that lead from one final status to another: progress frames while there is none,
-- and at most one frame with a final status, the last.
abbrev pub IsReport : Option ℕ → List ℕ → Option ℕ → Type 0
IsReport from [] to = from ≡ to
IsReport from (v0 ∷ v1 ∷ status ∷ reserved ∷ rest) to =
    (v0 ≡ 0)
    × (v1 ≡ 2)
    × (reserved ≡ 0)
    × (from ≡ none)
    × (((status ≡ status_progress) × IsReport none rest to)
        ⊎ ((status ≤ status_cancelled) × IsReport (some status) rest to))
IsReport from (a ∷ []) to = ⊥
IsReport from (a ∷ b ∷ []) to = ⊥
IsReport from (a ∷ b ∷ c ∷ []) to = ⊥

-- What the frame loop leaves: a front of whole frames is gone.
abbrev pub IsDrained : Option ℕ → List ℕ → Drained → Type 0
IsDrained from response (refused status) = status ≢ status_success
IsDrained from response (left rest to) =
    (front : List ℕ) × (response ≡ front ++ rest) × IsReport from front to

IsDrained-progress :
    (v0 v1 status reserved : ℕ) (response : List ℕ) (d : Drained)
    → (v0 ≡ 0) × (v1 ≡ 2) × (reserved ≡ 0) × (status ≡ status_progress)
    → IsDrained none response d
    → IsDrained none (v0 ∷ v1 ∷ status ∷ reserved ∷ response) d
IsDrained-progress v0 v1 status reserved response (refused why) h d = d
IsDrained-progress v0 v1 status reserved response (left rest to) (a, b, c, e) (front, split, is) = (
  v0 ∷ v1 ∷ status ∷ reserved ∷ front,
  ap (λ t. v0 ∷ v1 ∷ status ∷ reserved ∷ t) split,
  (a, b, c, refl, inl (e, is)),
)

IsDrained-final :
    (v0 v1 status reserved : ℕ) (response : List ℕ) (d : Drained)
    → (v0 ≡ 0) × (v1 ≡ 2) × (reserved ≡ 0) × (status ≤ status_cancelled)
    → IsDrained (some status) response d
    → IsDrained none (v0 ∷ v1 ∷ status ∷ reserved ∷ response) d
IsDrained-final v0 v1 status reserved response (refused why) h d = d
IsDrained-final v0 v1 status reserved response (left rest to) (a, b, c, e) (front, split, is) = (
  v0 ∷ v1 ∷ status ∷ reserved ∷ front,
  ap (λ t. v0 ∷ v1 ∷ status ∷ reserved ∷ t) split,
  (a, b, c, refl, inr (e, is)),
)

take_frame-IsDrained :
    (has_client sends : Bool) (from : Option ℕ) (v0 v1 status reserved : ℕ) (response : List ℕ)
    (go : Option ℕ → Drained)
    → ((next : Option ℕ) → IsDrained next response (go next))
    → IsDrained from
        (v0 ∷ v1 ∷ status ∷ reserved ∷ response)
        (take_frame has_client sends from v0 v1 status reserved refused go)
unfolding take_frame
take_frame-IsDrained has_client sends (some old) v0 v1 status reserved response go h = ground arith
take_frame-IsDrained has_client sends none v0 v1 status reserved response go h = ground (
  arith,
  h none,
  h (some status),
  IsDrained-progress v0 v1 status reserved response (go none),
  IsDrained-final v0 v1 status reserved response (go (some status)),
)

drain_frames-IsDrained :
    (has_client sends : Bool) (from : Option ℕ) (response : List ℕ)
    → IsDrained from response (drain_frames has_client sends from response)
unfolding drain_frames
drain_frames-IsDrained has_client sends from [] = ([], refl, refl)
drain_frames-IsDrained has_client sends from (a ∷ []) = ([], refl, refl)
drain_frames-IsDrained has_client sends from (a ∷ b ∷ []) = ([], refl, refl)
drain_frames-IsDrained has_client sends from (a ∷ b ∷ c ∷ []) = ([], refl, refl)
drain_frames-IsDrained has_client sends from (v0 ∷ v1 ∷ status ∷ reserved ∷ response) =
    take_frame-IsDrained has_client sends from v0 v1 status reserved response _
      λ next. drain_frames-IsDrained has_client sends next response

IsReport-append :
    (from to end : Option ℕ) (front back : List ℕ)
    → IsReport from front to
    → IsReport to back end
    → IsReport from (front ++ back) end
IsReport-append from to end [] back f b = rw f b
IsReport-append from to end (v0 ∷ v1 ∷ status ∷ reserved ∷ rest) back f b = ground (
  arith,
  λ (h : IsReport none rest to). IsReport-append none to end rest back h b,
  λ (h : IsReport (some status) rest to). IsReport-append (some status) to end rest back h b,
)
IsReport-append from to end (a ∷ []) back f b = absurd f
IsReport-append from to end (a ∷ b' ∷ []) back f b = absurd f
IsReport-append from to end (a ∷ b' ∷ c ∷ []) back f b = absurd f

-- The first round in which the worker has exited.
abbrev pub exit_round : List Round → Option Round
exit_round [] = none
exit_round (r ∷ rounds) = elim r.wait [
  | exited success ↦ some r
  | running ↦ exit_round rounds
  | failed ↦ none
]

-- What the worker has written up to that round.
abbrev pub received : List Round → List ℕ
received [] = []
received (r ∷ rounds) =
    read_chunks r.reads
    ++ (elim r.wait [ exited success ↦ [] | running ↦ received rounds | failed ↦ [] ])

-- The worker exited by itself, without a fault and in time, before an absent client was noticed.
abbrev pub IsCleanExit : Bool → ℕ → Option Round → Type 0
IsCleanExit has_client deadline none = ⊥
IsCleanExit has_client deadline (some r) =
    (r.wait ≡ exited true)
    × (r.now_at_exit < deadline)
    × (has_client && r.disconnected_at_exit ≡ false)

-- What stands behind a success.
abbrev pub IsGenuine : Bool → ℕ → Option ℕ → List ℕ → List Round → Type 0
IsGenuine has_client deadline from response rounds =
    IsCleanExit has_client deadline (exit_round rounds)
    × IsReport from (response ++ received rounds) (some status_success)

exit_status-success :
    (has_client : Bool) (deadline : ℕ) (r : Round) (success : Bool) (response : List ℕ)
    (final : Option ℕ)
    → exit_status has_client deadline r success response final ≡ status_success
    → (success ≡ true)
      × (r.now_at_exit < deadline)
      × (has_client && r.disconnected_at_exit ≡ false)
      × (response ≡ [])
      × (final ≡ some status_success)
unfolding exit_status is_expired
exit_status-success has_client deadline r success [] none e = ground arith
exit_status-success has_client deadline r success [] (some n) e = ground arith
exit_status-success has_client deadline r success (a ∷ response) final e = ground arith

after_wait-success :
    (has_client : Bool) (deadline : ℕ) (r : Round) (wait : Wait) (rest : List ℕ) (to : Option ℕ)
    (go : Option (ℕ × Slot)) (slot : Slot)
    → after_wait has_client deadline r wait rest to go ≡ some (status_success, slot)
    → ((wait ≡ exited true) × (exit_status has_client deadline r true rest to ≡ status_success))
      ⊎ ((wait ≡ running) × (go ≡ some (status_success, slot)))
after_wait-success has_client deadline r (exited true) rest to go slot e = inl (refl, ground arith)
after_wait-success has_client deadline r (exited false) rest to go slot e =
    absurd (ground (arith, exit_status-success has_client deadline r false rest to))
after_wait-success has_client deadline r running rest to go slot e = inr (refl, e)
after_wait-success has_client deadline r failed rest to go slot e = absurd (ground arith)

after_drain-success :
    (has_client : Bool) (deadline : ℕ) (r : Round) (from : Option ℕ) (response : List ℕ)
    (d : Drained) (go : List ℕ → Option ℕ → Option (ℕ × Slot)) (slot : Slot)
    → IsDrained from response d
    → after_drain has_client deadline r d go ≡ some (status_success, slot)
    → (rest : List ℕ) × (to : Option ℕ) × IsDrained from response (left rest to)
      × (after_wait has_client deadline r r.wait rest to (go rest to) ≡ some (status_success, slot))
after_drain-success has_client deadline r from response (refused status) go slot h e =
    absurd (ground arith)
after_drain-success has_client deadline r from response (left rest to) go slot h e =
    (rest, to, h, e)

-- A round's frames, then those of the later rounds.
IsReport-heard :
    (from to end : Option ℕ) (response chunk front rest later : List ℕ)
    → response ++ chunk ≡ front ++ rest
    → IsReport from front to
    → IsReport to (rest ++ later) end
    → IsReport from (response ++ (chunk ++ later)) end
IsReport-heard from to end response chunk front rest later split f l =
    let same : front ++ (rest ++ later) ≡ response ++ (chunk ++ later) =
      sym (append_assoc front rest later)
      ∙ ap (λ t. t ++ later) (sym split)
      ∙ append_assoc response chunk later in
    subst (λ t. IsReport from t end) same (IsReport-append from to end front (rest ++ later) f l)

supervise_loop-success :
    (has_client : Bool) (deadline : ℕ) (response : List ℕ) (from : Option ℕ) (rounds : List Round)
    (slot : Slot)
    → supervise_loop has_client deadline response from rounds ≡ some (status_success, slot)
    → IsGenuine has_client deadline from response rounds
unfolding supervise_loop
supervise_loop-success has_client deadline response from [] slot e = absurd (ground arith)
supervise_loop-success has_client deadline response from (r ∷ rounds) slot e =
    let heard = response ++ read_chunks r.reads in
    let drained = drain_frames has_client r.sends from heard in
    let is_drained = drain_frames-IsDrained has_client r.sends from heard in
    let go = λ (response' : List ℕ) (final' : Option ℕ).
      supervise_loop has_client deadline response' final' rounds in
    let (rest, to, is_left, next) =
      after_drain-success has_client deadline r from heard drained go slot is_drained
        (ground arith) in
    let (front, split, report) = is_left in
    elim (after_wait-success has_client deadline r r.wait rest to (go rest to) slot next) [
      | inl (w, exit) ↦
          let (_, in_time, present, nothing, final) =
            exit_status-success has_client deadline r true rest to exit in
          rw w (
            (w, in_time, present),
            IsReport-heard from to _ response _ front rest [] split report (rw nothing final),
          )
      | inr (w, more) ↦
          let (clean, later) =
            supervise_loop-success has_client deadline rest to rounds slot more in
          rw w (clean, IsReport-heard from to _ response _ front rest _ split report later)
    ]

run_worker-success :
    (has_client : Bool) (deadline : ℕ) (s : Start) (rounds : List Round) (slot : Slot)
    → run_worker has_client deadline s rounds ≡ some (status_success, slot)
    → IsGenuine has_client deadline none [] rounds
unfolding run_worker
run_worker-success has_client deadline s rounds slot e =
    supervise_loop-success has_client deadline [] none rounds slot (ground arith)

with_limiter-success :
    (limiter : Attempts) (result : Option (ℕ × Slot)) (status : ℕ) (state : Supervision)
    → with_limiter limiter result ≡ some (status, state)
    → result ≡ some (status, state.slot)
with_limiter-success limiter none status state e = absurd (ground arith)
with_limiter-success limiter (some (why, slot)) status state e = ground arith

-- `supervise_auth_worker` returns a success only when the worker wrote, in whatever pieces, whole
-- frames of version 2, progress frames first and then exactly one final frame, with the status of
-- success and nothing behind it, and exited by itself, without a fault, before the deadline, with
-- the client still connected.
pub supervise_auth_worker-IsGenuine :
    (uid : ℕ) (has_client : Bool) (deadline : ℕ) (s : Start) (rounds : List Round)
    (state state' : Supervision)
    → supervise_auth_worker uid has_client deadline s rounds state ≡ some (status_success, state')
    → IsGenuine has_client deadline none [] rounds
unfolding supervise_auth_worker
supervise_auth_worker-IsGenuine uid has_client deadline s rounds state state' e =
    run_worker-success has_client deadline s rounds state'.slot (
      with_limiter-success (allow_at state.limiter uid s.attempt_at).1
        (run_worker has_client deadline s rounds) status_success state' (ground arith))
