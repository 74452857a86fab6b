-- ===== src/Daemon/RateLimiter.antt =====
-- engine/daemon/src/lib.rs: `AuthRateLimiter`. Instants are numbers of nanoseconds; the hash map
-- is a function. The lock is never poisoned, since nothing panics while it is held.
use loofi_face_id.Prelude.{
  ℕ, ◌-◌, ◌≤◌, Bool, true, false, List, [], ◌∷◌, ◌++◌, Option, none, some, length, ltb, leb, ◌==◌,
  if◌then◌else◌,
}

-- 30 seconds
abbrev pub pam_attempt_window : ℕ
pam_attempt_window = 30000000000

abbrev pub pam_attempts_per_window : ℕ
pam_attempts_per_window = 3

-- The deque of each uid, the oldest attempt first.
abbrev pub Attempts : Type 0
Attempts = ℕ → Option (List ℕ)

abbrev pub no_attempts : Attempts
no_attempts uid = none

-- `now.saturating_duration_since(at) < PAM_ATTEMPT_WINDOW`
abbrev pub is_recent : ℕ → ℕ → Bool
is_recent now at = ltb (now - at) pam_attempt_window

-- `times.retain(..)`
unfoldable pub retain_recent : ℕ → List ℕ → List ℕ
retain_recent now [] = []
retain_recent now (at ∷ times) =
    if is_recent now at then at ∷ retain_recent now times else retain_recent now times

-- An empty deque goes.
abbrev pub unless_empty : List ℕ → Option (List ℕ)
unless_empty [] = none
unless_empty (at ∷ times) = some (at ∷ times)

-- The closure of `attempts.retain(..)`.
unfoldable pub retain_entry : ℕ → Option (List ℕ) → Option (List ℕ)
unfolding retain_recent
retain_entry now none = none
retain_entry now (some times) = unless_empty (retain_recent now times)

unfoldable pub retain_attempts : ℕ → Attempts → Attempts
unfolding retain_entry
retain_attempts now attempts uid = retain_entry now (attempts uid)

abbrev pub times_or_default : Option (List ℕ) → List ℕ
times_or_default none = []
times_or_default (some times) = times

abbrev pub put : ℕ → List ℕ → Attempts → Attempts
put uid times attempts other = if other == uid then some times else attempts other

-- The answer, and the map that is left.
unfoldable pub allow_at : Attempts → ℕ → ℕ → Bool × Attempts
unfolding retain_attempts
allow_at attempts uid now =
    let kept = retain_attempts now attempts in
    let times = times_or_default (kept uid) in
    if leb pam_attempts_per_window (length times)
    then (false, put uid times kept)
    else (true, put uid (times ++ (now ∷ [])) kept)

-- `clear`
unfoldable pub clear_attempts : Attempts → ℕ → Attempts
clear_attempts attempts uid other = if other == uid then none else attempts other

-- The calls on a limiter, in the order in which they hold its lock.
pub data LimiterCall : Type 0 where
  attempt : (uid now : ℕ) → LimiterCall
  clear : (uid : ℕ) → LimiterCall

-- The answers to the attempts of a sequence of calls.
unfoldable pub run_calls : Attempts → List LimiterCall → List Bool
unfolding allow_at clear_attempts
run_calls attempts [] = []
run_calls attempts (attempt uid now ∷ calls) =
    let (answer, attempts') = allow_at attempts uid now in answer ∷ run_calls attempts' calls
run_calls attempts (clear uid ∷ calls) = run_calls (clear_attempts attempts uid) calls

-- The calls come in the order of their instants, none before the given one.
abbrev pub IsTimed : ℕ → List LimiterCall → Type 0
IsTimed now [] = Unit {0}
IsTimed now (attempt uid at ∷ calls) = (now ≤ at) × IsTimed at calls
IsTimed now (clear uid ∷ calls) = IsTimed now calls
