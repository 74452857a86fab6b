-- ===== src/Daemon/Limits.antt =====
-- engine/daemon/src/lib.rs: what `AuthRateLimiter` promises.
use loofi_face_id.Prelude.{
  ℕ, suc, ◌≤◌, ◌≡◌, refl, sym, ap, ◌∙◌, inl, inr, Bool, true, false, Option, none, some, List, [],
  ◌∷◌, ◌++◌, arith, ltb, leb, ◌==◌, if◌then◌else◌, Bool-cases, length,
}
use loofi_face_id.Daemon.RateLimiter.{
  pam_attempts_per_window, Attempts, no_attempts, is_recent, retain_recent, retain_attempts,
  retain_entry, unless_empty, times_or_default, put, allow_at, clear_attempts, LimiterCall, attempt,
  clear, run_calls, IsTimed,
}

-- The specification: every granted attempt of every uid since it was last cleared, for ever.
abbrev pub Granted : Type 0
Granted = ℕ → List ℕ

abbrev pub none_granted : Granted
none_granted uid = []

-- How many of these instants lie less than the window before `now`.
unfoldable pub recent_count : ℕ → List ℕ → ℕ
recent_count now [] = 0
recent_count now (at ∷ times) =
    if is_recent now at then suc (recent_count now times) else recent_count now times

-- An attempt is granted when fewer than three were granted in the window before it.
unfoldable pub grants : Granted → ℕ → ℕ → Bool
unfolding recent_count
grants granted uid now = ltb (recent_count now (granted uid)) pam_attempts_per_window

abbrev pub log_after : Bool → List ℕ → ℕ → List ℕ
log_after answer times now = if answer then times ++ (now ∷ []) else times

unfoldable pub record_grant : Bool → Granted → ℕ → ℕ → Granted
record_grant answer granted uid now other =
    if other == uid then log_after answer (granted uid) now else granted other

unfoldable pub forget : Granted → ℕ → Granted
forget granted uid other = if other == uid then [] else granted other

unfoldable pub expected_answers : Granted → List LimiterCall → List Bool
unfolding grants record_grant forget
expected_answers granted [] = []
expected_answers granted (attempt uid now ∷ calls) =
    let answer = grants granted uid now in
    answer ∷ expected_answers (record_grant answer granted uid now) calls
expected_answers granted (clear uid ∷ calls) = expected_answers (forget granted uid) calls

-- The map agrees with the log on what is recent, now and later.
abbrev pub Agrees : ℕ → Attempts → Granted → Type 0
Agrees now attempts granted =
    (uid later : ℕ)
    → now ≤ later
    → retain_recent later (times_or_default (attempts uid)) ≡ retain_recent later (granted uid)

retain_recent-retain_recent :
    (now later : ℕ) (times : List ℕ)
    → now ≤ later
    → retain_recent later (retain_recent now times) ≡ retain_recent later times
unfolding retain_recent
retain_recent-retain_recent now later [] h = refl
retain_recent-retain_recent now later (at ∷ times) h =
    ground (arith, retain_recent-retain_recent now later times h)

retain_recent-append :
    (now : ℕ) (front back : List ℕ)
    → retain_recent now (front ++ back) ≡ retain_recent now front ++ retain_recent now back
unfolding retain_recent
retain_recent-append now [] back = refl
retain_recent-append now (at ∷ front) back = ground (arith, retain_recent-append now front back)

length-retain_recent :
    (now : ℕ) (times : List ℕ) → length (retain_recent now times) ≡ recent_count now times
unfolding retain_recent recent_count
length-retain_recent now [] = refl
length-retain_recent now (at ∷ times) = ground (arith, length-retain_recent now times)

times_or_default-unless_empty : (times : List ℕ) → times_or_default (unless_empty times) ≡ times
times_or_default-unless_empty [] = refl
times_or_default-unless_empty (at ∷ times) = refl

times_or_default-retain_entry :
    (now : ℕ) (entry : Option (List ℕ))
    → times_or_default (retain_entry now entry) ≡ retain_recent now (times_or_default entry)
unfolding retain_entry retain_recent
times_or_default-retain_entry now none = refl
times_or_default-retain_entry now (some times) =
    times_or_default-unless_empty (retain_recent now times)

put-Agrees :
    (now uid : ℕ) (kept : Attempts) (granted : Granted) (times log : List ℕ)
    → Agrees now kept granted
    → ((later : ℕ) → now ≤ later → retain_recent later times ≡ retain_recent later log)
    → Agrees now (put uid times kept) (λ other. if other == uid then log else granted other)
put-Agrees now uid kept granted times log agrees same u later h = elim (Bool-cases (u == uid)) [
  | inl t ↦ rw t (same later h)
  | inr t ↦ rw t (agrees u later h)
]

retain_attempts-Agrees :
    (last now : ℕ) (attempts : Attempts) (granted : Granted)
    → last ≤ now
    → Agrees last attempts granted
    → Agrees now (retain_attempts now attempts) granted
unfolding retain_attempts
retain_attempts-Agrees last now attempts granted h agrees u later g =
    ap (retain_recent later) (times_or_default-retain_entry now (attempts u))
    ∙ retain_recent-retain_recent now later (times_or_default (attempts u)) g
    ∙ agrees u later (omega arith)

-- One attempt: the answer is the specification's, and the map goes on agreeing with the log.
allow_at-Agrees :
    (last now uid : ℕ) (attempts : Attempts) (granted : Granted)
    → last ≤ now
    → Agrees last attempts granted
    → let answer = grants granted uid now in
      ((allow_at attempts uid now).0 ≡ answer)
      × Agrees now (allow_at attempts uid now).1 (record_grant answer granted uid now)
unfolding allow_at grants record_grant
allow_at-Agrees last now uid attempts granted h agrees =
    let times = times_or_default (retain_attempts now attempts uid) in
    let kept = retain_attempts-Agrees last now attempts granted h agrees in
    let counted : length times ≡ recent_count now (granted uid) =
      ap length (times_or_default-retain_entry now (attempts uid) ∙ agrees uid now h)
      ∙ length-retain_recent now (granted uid) in
    elim (Bool-cases (leb 3 (length times))) [
      | inl full ↦
          let refused : ltb (recent_count now (granted uid)) 3 ≡ false = ground arith in
          rw (full, refused) (refl, put-Agrees now uid _ granted times _ kept (kept uid))
      | inr free ↦
          let granted_now : ltb (recent_count now (granted uid)) 3 ≡ true = ground arith in
          rw (free, granted_now)
            (
              refl,
              put-Agrees now uid _ granted (times ++ (now ∷ [])) (granted uid ++ (now ∷ [])) kept
                  λ later g.
                    retain_recent-append later times _
                    ∙ ap (λ t. t ++ retain_recent later (now ∷ [])) (kept uid later g)
                    ∙ sym (retain_recent-append later (granted uid) _),
            )
    ]

clear_attempts-Agrees :
    (last uid : ℕ) (attempts : Attempts) (granted : Granted)
    → Agrees last attempts granted
    → Agrees last (clear_attempts attempts uid) (forget granted uid)
unfolding clear_attempts forget
clear_attempts-Agrees last uid attempts granted agrees u later h = elim (Bool-cases (u == uid)) [
  | inl t ↦ rw t refl
  | inr t ↦ rw t (agrees u later h)
]

run_calls-Agrees :
    (calls : List LimiterCall) (last : ℕ) (attempts : Attempts) (granted : Granted)
    → Agrees last attempts granted
    → IsTimed last calls
    → run_calls attempts calls ≡ expected_answers granted calls
unfolding run_calls expected_answers
run_calls-Agrees [] last attempts granted agrees h = refl
run_calls-Agrees (attempt uid now ∷ calls) last attempts granted agrees (h, timed) =
    let (same, agrees') = allow_at-Agrees last now uid attempts granted h agrees in
    ap (λ answer. answer ∷ run_calls (allow_at attempts uid now).1 calls) same
    ∙ ap (λ answers. grants granted uid now ∷ answers)
        (run_calls-Agrees calls now _ _ agrees' timed)
run_calls-Agrees (clear uid ∷ calls) last attempts granted agrees timed =
    run_calls-Agrees calls last _ _ (clear_attempts-Agrees last uid attempts granted agrees) timed

-- On calls that come in the order of their instants, a new limiter answers each attempt as if it
-- kept every granted attempt for ever: it grants one exactly when fewer than three attempts of the
-- same uid were granted in the 30 seconds before it, since the uid was last cleared.
pub run_calls-expected_answers :
    (calls : List LimiterCall)
    → IsTimed 0 calls
    → run_calls no_attempts calls ≡ expected_answers none_granted calls
run_calls-expected_answers calls timed =
    run_calls-Agrees calls 0 no_attempts none_granted (λ uid later h. refl) timed
