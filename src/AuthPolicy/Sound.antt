-- ===== src/AuthPolicy/Sound.antt =====
-- engine/templates/src/auth_policy.rs: the parser on any bytes at all. Every loop ends, and what is
-- accepted satisfies the invariant of a policy.
pub mod Tables
pub mod Policy
use loofi_face_id.Prelude.{
  ℕ, zero, suc, ◌+◌, ◌*◌, ◌-◌, ◌^◌, ◌≤◌, ◌<◌, ◌≡◌, ◌≢◌, refl, arith, Bool, true, false, not, ◌&&◌,
  ◌||◌, List, [], ◌∷◌, ◌++◌, Option, none, some, IsU32, if◌then◌else◌, ltb, leb, ◌==◌, ltb→lt,
  ==_iff, length, Outcome, ok, err, panic, stuck, ◌>>=◌, Bool-cases, inl, inr, Option-cases,
  Ensures, Ensures->>=, Ensures-weaken, Ensures-ok_or, Ensures-guard, guard, ok_or,
}
use loofi_face_id.BTreeMap.{get, insert}
use loofi_face_id.AuthPolicy.Table.{
  AuthTarget, AuthPolicyMode, AuthPolicyError, invalid, off, AuthPolicy, Targets, Users,
  parse_target, parse_mode, target_rank, uid_rank, is_off, IsTargets, AreUsers, IsPolicy,
}
use loofi_face_id.BTreeMap.Laws.{insert-IsSorted}
use loofi_face_id.AuthPolicy.Modes.{insert-IsEnabled, insert-AreUsers}
use loofi_face_id.AuthPolicy.Parser.{
  Parsed, skip_whitespace, consume, expect, string_body, string, span_digits, u32_digits, parse_u32,
  number, separator, store_target, store_user, target_entry, targets_loop, parse_targets,
  user_entry, users_loop, parse_users, Seen, policy_field, policy_entry, policy_loop, parse_policy,
  parse_json,
}

pub skip_whitespace-le : (s : List ℕ) → length (skip_whitespace s) ≤ length s
unfolding skip_whitespace
skip_whitespace-le [] = omega arith
skip_whitespace-le (b ∷ s) = ground (arith, skip_whitespace-le s)

pub consume_shorter : (c : ℕ) (s r : List ℕ) → consume c s ≡ some r → length r < length s
unfolding consume
consume_shorter c [] r e = cc
consume_shorter c (b ∷ s) r e = ground arith

pub expect-Ensures : (c : ℕ) (s : List ℕ) → Ensures (λ r. length r < length s) (expect c s)
unfolding expect
expect-Ensures c s =
    Ensures-ok_or (λ r. length r < length s) (consume c (skip_whitespace s)) invalid
      λ r e. omega (arith, consume_shorter c (skip_whitespace s) r e, skip_whitespace-le s)

-- What a method of the parser leaves is shorter than what it was given.
abbrev pub Shrinks : {A : Type 0} → List ℕ → A × List ℕ → Type 0
Shrinks s t = length t.1 < length s

string_body-Ensures : (s : List ℕ) → Ensures (Shrinks s) (string_body s)
unfolding string_body
string_body-Ensures [] = tt
string_body-Ensures (b ∷ s) = ground (arith, string_body-Ensures s)

pub string-Ensures : (s : List ℕ) → Ensures (Shrinks s) (string s)
unfolding string
string-Ensures s =
    Ensures->>= (λ r. length r < length (skip_whitespace s)) (Shrinks s)
      (expect b'"' (skip_whitespace s)) string_body (expect-Ensures b'"' (skip_whitespace s))
      λ r h.
        Ensures-weaken (Shrinks r) (Shrinks s) (string_body r) (string_body-Ensures r)
          λ t k. omega (arith, skip_whitespace-le s)

-- Parsers of a whole text answer.
parse_target-Ensures : (v : List ℕ) → Ensures (λ _. Unit {0}) (parse_target v)
unfolding parse_target
parse_target-Ensures v = ground arith

parse_mode-Ensures : (v : List ℕ) → Ensures (λ _. Unit {0}) (parse_mode v)
unfolding parse_mode
parse_mode-Ensures v = ground arith

u32_digits_bound : (acc : ℕ) (s : List ℕ) (n : ℕ) → IsU32 acc → u32_digits acc s ≡ some n → IsU32 n
unfolding u32_digits
u32_digits_bound acc [] n h e = ground arith
u32_digits_bound acc (b ∷ s) n h e = ground (arith, u32_digits_bound (acc * 10 + (b - b'0')) s n)

pub parse_u32_bound : (s : List ℕ) (n : ℕ) → parse_u32 s ≡ some n → IsU32 n
unfolding parse_u32
parse_u32_bound [] n e = cc
parse_u32_bound (b ∷ []) n e = u32_digits_bound 0 (b ∷ []) n (omega arith) e
parse_u32_bound (b ∷ c ∷ s) n e = ground (
  arith,
  u32_digits_bound 0 (c ∷ s) n (omega arith),
  u32_digits_bound 0 (b ∷ c ∷ s) n (omega arith),
)

span_digits-le : (s : List ℕ) → length (span_digits s).1 ≤ length s
unfolding span_digits
span_digits-le [] = omega arith
span_digits-le (b ∷ s) = ground (arith, span_digits-le s)

pub number-Ensures : (s : List ℕ) → Ensures (λ t. length t.1 ≤ length s) (number s)
unfolding number
number-Ensures s =
    let ds = (span_digits (skip_whitespace s)).0 in
    let h : length (span_digits (skip_whitespace s)).1 ≤ length s =
      omega (arith, span_digits-le (skip_whitespace s), skip_whitespace-le s) in
    ground (arith, h, Option-cases (parse_u32 ds))

pub separator-Ensures :
    (first : Bool) (s : List ℕ) → Ensures (λ r. length r ≤ length s) (separator first s)
unfolding separator
separator-Ensures true s = omega arith
separator-Ensures false s =
    Ensures-weaken (λ r. length r < length s) (λ r. length r ≤ length s) (expect b',' s)
      (expect-Ensures b',' s) λ r h. omega arith

-- A table that a round of `parse_targets` leaves.
abbrev pub TargetsLeft : List ℕ → Targets × List ℕ → Type 0
TargetsLeft s t = IsTargets t.0 × (length t.1 < length s)

store_target-Ensures :
    (acc : Targets) (target : AuthTarget) (mode : AuthPolicyMode) (s r : List ℕ)
    → IsTargets acc
    → length r < length s
    → Ensures (TargetsLeft s) (store_target acc target mode r)
unfolding store_target
store_target-Ensures acc target mode s r h n = ground (
  arith,
  insert-IsSorted target_rank target mode acc h.sorted,
  insert-IsEnabled target mode acc,
  h.enabled,
)

target_entry-Ensures :
    (acc : Targets) (s : List ℕ) → IsTargets acc → Ensures (TargetsLeft s) (target_entry acc s)
unfolding target_entry
target_entry-Ensures acc s h =
    Ensures->>= (Shrinks s) (TargetsLeft s) (string s) _ (string-Ensures s) λ name k1.
      Ensures->>= (λ _. Unit {0}) (TargetsLeft s) (parse_target name.0) _
        (parse_target-Ensures name.0)
        λ target _.
          Ensures->>= (λ r. length r < length name.1) (TargetsLeft s) (expect b':' name.1) _
            (expect-Ensures b':' name.1)
            λ s2 k2.
              Ensures->>= (Shrinks s2) (TargetsLeft s) (string s2) _ (string-Ensures s2) λ text k3.
                Ensures->>= (λ _. Unit {0}) (TargetsLeft s) (parse_mode text.0) _
                  (parse_mode-Ensures text.0)
                  λ mode _. store_target-Ensures acc target mode s text.1 h (omega arith)

targets_loop-Ensures :
    (fuel : ℕ) (first : Bool) (acc : Targets) (s : List ℕ)
    → length s < fuel
    → IsTargets acc
    → Ensures (TargetsLeft s) (targets_loop fuel first acc s)
unfolding targets_loop
targets_loop-Ensures zero first acc s n h = absurd (omega arith)
targets_loop-Ensures (suc fuel) first acc s n h =
    elim (Option-cases (consume b'}' (skip_whitespace s))) [
      | inr (rest, e) ↦
          rw (e, targets_loop)
            (
              h,
              omega (arith, consume_shorter b'}' (skip_whitespace s) rest e, skip_whitespace-le s),
            )
      | inl e ↦
          rw (e, targets_loop)
            (Ensures->>= (λ r. length r ≤ length (skip_whitespace s)) (TargetsLeft s)
              (separator first (skip_whitespace s)) _ (separator-Ensures first (skip_whitespace s))
              λ s1 k.
                Ensures->>= (TargetsLeft s1) (TargetsLeft s) (target_entry acc s1) _
                  (target_entry-Ensures acc s1 h)
                  λ t j.
                    Ensures-weaken (TargetsLeft t.1) (TargetsLeft s)
                      (targets_loop fuel false t.0 t.1)
                      (targets_loop-Ensures fuel false t.0 t.1 (omega (arith, skip_whitespace-le s))
                        j.0)
                      λ u i. (i.0, omega (arith, skip_whitespace-le s)))
    ]

pub parse_targets-Ensures : (s : List ℕ) → Ensures (TargetsLeft s) (parse_targets s)
unfolding parse_targets
parse_targets-Ensures s =
    Ensures->>= (λ r. length r < length s) (TargetsLeft s) (expect b'{' s) _ (expect-Ensures b'{' s)
      λ s1 k.
        Ensures-weaken (TargetsLeft s1) (TargetsLeft s) (targets_loop (suc (length s1)) true [] s1)
          (targets_loop-Ensures (suc (length s1)) true [] s1 (omega arith)
            (record { sorted = tt; enabled = tt }))
          λ u i. (i.0, omega arith)
