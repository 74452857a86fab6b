-- ===== src/Daemon/Undisturbed.antt =====
-- engine/daemon/src/lib.rs: a report that arrives undisturbed is what `supervise_auth_worker`
-- returns.
use loofi_face_id.Prelude.{
  ℕ, ◌≤◌, ◌<◌, ◌≡◌, refl, sym, ap, ◌∙◌, ◌⊎◌, inl, inr, Bool, true, false, not, ◌&&◌, Option, none,
  some, List, [], ◌∷◌, ◌++◌, append_assoc, arith, leb,
}
use loofi_face_id.Daemon.Status.{is_expired, status_cancelled, status_progress}
use loofi_face_id.Daemon.RateLimiter.{allow_at}
use loofi_face_id.Daemon.Supervise.{
  exited, running, Round, read_chunks, Drained, refused, left, take_frame, drain_frames,
  exit_status, after_drain, supervise_loop, Start, Supervision, with_limiter, run_worker,
  supervise_auth_worker,
}
use mathlib.Core.Path.{subst}
use loofi_face_id.Daemon.Supervise.{vacant, is_reaped}
use loofi_face_id.Daemon.Reports.{IsReport, received}

take_frame-progress :
    (has_client sends : Bool) (v0 v1 status reserved : ℕ) (go : Option ℕ → Drained)
    → has_client && not sends ≡ false
    → (v0 ≡ 0) × (v1 ≡ 2) × (reserved ≡ 0) × (status ≡ status_progress)
    → take_frame has_client sends none v0 v1 status reserved refused go ≡ go none
unfolding take_frame
take_frame-progress has_client sends v0 v1 status reserved go q h = ground arith

take_frame-final :
    (has_client sends : Bool) (v0 v1 status reserved : ℕ) (go : Option ℕ → Drained)
    → (v0 ≡ 0) × (v1 ≡ 2) × (reserved ≡ 0) × (status ≤ status_cancelled)
    → take_frame has_client sends none v0 v1 status reserved refused go ≡ go (some status)
unfolding take_frame
take_frame-final has_client sends v0 v1 status reserved go h = ground arith

-- The front of a report, drained: what is left begins the rest of the report.
abbrev IsFront : List ℕ → Option ℕ → Drained → Type 0
IsFront more to d =
    (rest : List ℕ) × (next : Option ℕ) × (d ≡ left rest next)
    × IsReport next (rest ++ more) to
    × (more ≡ [] → rest ≡ [])

drain_frames-IsFront :
    (has_client sends : Bool) (from to : Option ℕ) (response more : List ℕ)
    → has_client && not sends ≡ false
    → IsReport from (response ++ more) to
    → IsFront more to (drain_frames has_client sends from response)
unfolding drain_frames
drain_frames-IsFront has_client sends from to [] more q h = ([], from, refl, h, λ _. refl)
drain_frames-IsFront has_client sends from to (a ∷ []) more q h =
    (a ∷ [], from, refl, h, λ e. absurd (subst (λ m. IsReport from (a ∷ m) to) e h))
drain_frames-IsFront has_client sends from to (a ∷ b ∷ []) more q h =
    (a ∷ b ∷ [], from, refl, h, λ e. absurd (subst (λ m. IsReport from (a ∷ b ∷ m) to) e h))
drain_frames-IsFront has_client sends from to (a ∷ b ∷ c ∷ []) more q h =
    (a ∷ b ∷ c ∷ [], from, refl, h, λ e. absurd (subst (λ m. IsReport from (a ∷ b ∷ c ∷ m) to) e h))
drain_frames-IsFront has_client sends from to (v0 ∷ v1 ∷ status ∷ reserved ∷ response) more q
      (a, b, c, n, h) =
    let go = λ (next : Option ℕ). drain_frames has_client sends next response in
    elim h [
      | inl (p, later) ↦
          rw (n, take_frame-progress has_client sends v0 v1 status reserved go q (a, b, c, p))
            (drain_frames-IsFront has_client sends none to response more q later)
      | inr (p, later) ↦
          rw (n, take_frame-final has_client sends v0 v1 status reserved go (a, b, c, p))
            (drain_frames-IsFront has_client sends (some status) to response more q later)
    ]

-- In this round nothing ends the supervision but the worker's own frames and exit.
pub record IsCalm (has_client : Bool) (deadline : ℕ) (r : Round) : Type 0 where
  pub connected : has_client && r.disconnected ≡ false
  pub in_time : r.now < deadline
  pub readable : r.read_fails ≡ false
  pub sent : has_client && not r.sends ≡ false

-- Calm rounds in which the worker runs, and a last one in which it exits without a fault, with the
-- client still there and before the deadline.
abbrev pub AreCalm : Bool → ℕ → List Round → Type 0
AreCalm has_client deadline [] = ⊥
AreCalm has_client deadline (r ∷ rounds) =
    IsCalm has_client deadline r
    × (((r.wait ≡ exited true)
          × (has_client && r.disconnected_at_exit ≡ false)
          × (r.now_at_exit < deadline))
        ⊎ ((r.wait ≡ running) × AreCalm has_client deadline rounds))

supervise_loop-calm :
    (has_client : Bool) (deadline : ℕ) (response : List ℕ) (from : Option ℕ) (r : Round)
    (rounds : List Round)
    → IsCalm has_client deadline r
    → supervise_loop has_client deadline response from (r ∷ rounds)
      ≡ after_drain has_client deadline r
          (drain_frames has_client r.sends from (response ++ read_chunks r.reads))
          λ response' final'. supervise_loop has_client deadline response' final' rounds
unfolding supervise_loop is_expired
supervise_loop-calm has_client deadline response from r rounds calm =
    let early : leb deadline r.now ≡ false = ground (arith, calm.in_time) in
    rw (calm.connected, early, calm.readable) refl

exit_status-calm :
    (has_client : Bool) (deadline : ℕ) (r : Round) (status : ℕ)
    → (has_client && r.disconnected_at_exit ≡ false) × (r.now_at_exit < deadline)
    → exit_status has_client deadline r true [] (some status) ≡ status
unfolding exit_status is_expired
exit_status-calm has_client deadline r status h = ground arith

IsReport-regroup :
    (from : Option ℕ) (response chunk all more : List ℕ) (status : ℕ)
    → all ≡ chunk ++ more
    → IsReport from (response ++ all) (some status)
    → IsReport from ((response ++ chunk) ++ more) (some status)
IsReport-regroup from response chunk all more status e h =
    subst (λ t. IsReport from t (some status))
      (ap (λ t. response ++ t) e ∙ sym (append_assoc response chunk more)) h

supervise_loop-report :
    (has_client : Bool) (deadline : ℕ) (response : List ℕ) (from : Option ℕ) (rounds : List Round)
    (status : ℕ)
    → AreCalm has_client deadline rounds
    → IsReport from (response ++ received rounds) (some status)
    → supervise_loop has_client deadline response from rounds ≡ some (status, vacant)
unfolding exit_status
supervise_loop-report has_client deadline response from [] status calm h = absurd calm
supervise_loop-report has_client deadline response from (r ∷ rounds) status (calm, next) h =
    let heard = response ++ read_chunks r.reads in
    elim next [
      | inl (w, present, exit) ↦
          let got : received (r ∷ rounds) ≡ read_chunks r.reads ++ [] = rw w refl in
          let report = IsReport-regroup from response (read_chunks r.reads) _ [] status got h in
          let (rest, mid, e, tail, done) =
            drain_frames-IsFront has_client r.sends from (some status) heard [] calm.sent report in
          let final : mid ≡ some status =
            subst (λ t. IsReport mid (t ++ []) (some status)) (done refl) tail in
          supervise_loop-calm has_client deadline response from r rounds calm
          ∙ rw (e, w, done refl, final)
              (ap (λ code. some (code, vacant))
                (exit_status-calm has_client deadline r status (present, exit)))
      | inr (w, later) ↦
          let got : received (r ∷ rounds) ≡ read_chunks r.reads ++ received rounds = rw w refl in
          let report =
            IsReport-regroup from response (read_chunks r.reads) _ (received rounds) status got h in
          let (rest, mid, e, tail, done) =
            drain_frames-IsFront has_client r.sends from (some status) heard (received rounds)
              calm.sent report in
          supervise_loop-calm has_client deadline response from r rounds calm
          ∙ rw (e, w) (supervise_loop-report has_client deadline rest mid rounds status later tail)
    ]

-- When the slot is free, the limiter allows the attempt and the worker starts, calm rounds in which
-- the worker writes whole frames, progress frames first and then one final frame, make
-- `supervise_auth_worker` return that frame's status and leave the slot vacant, in whatever pieces
-- the frames arrive.
pub supervise_auth_worker-report :
    (uid : ℕ) (has_client : Bool) (deadline : ℕ) (s : Start) (rounds : List Round)
    (state : Supervision) (status : ℕ)
    → (s.locked ≡ false) × (is_reaped state.slot s.old_child ≡ true) × (s.now < deadline)
    → (allow_at state.limiter uid s.attempt_at).0 ≡ true
    → (s.spawns ≡ true) × (s.writes ≡ true) × (s.sets_nonblocking ≡ true)
    → AreCalm has_client deadline rounds
    → IsReport none (received rounds) (some status)
    → supervise_auth_worker uid has_client deadline s rounds state
      ≡ some
          (status, record { limiter = (allow_at state.limiter uid s.attempt_at).1; slot = vacant })
unfolding supervise_auth_worker run_worker is_expired
supervise_auth_worker-report uid has_client deadline s rounds state status (free, reaped, early)
      allowed (spawns, writes, nonblocking) calm report =
    let on_time : leb deadline s.now ≡ false = ground arith in
    rw (free, reaped, on_time, allowed, spawns, writes, nonblocking)
      (ap (with_limiter (allow_at state.limiter uid s.attempt_at).1)
        (supervise_loop-report has_client deadline [] none rounds status calm report))
