-- ===== src/AuthPolicy/Sound/Policy.antt =====
-- engine/templates/src/auth_policy.rs: `parse_policy` and `parse_json` on any bytes at all.
use loofi_face_id.Prelude.{
  ℕ, zero, suc, ◌≤◌, ◌<◌, ◌≡◌, arith, Bool, true, false, not, ◌||◌, List, Option, none, some, ltb,
  ◌==◌, length, Outcome, ok, ◌>>=◌, inl, inr, Option-cases, is_empty, Ensures, Ensures->>=,
  Ensures-weaken, Ensures-ok_or, Ensures-guard, guard, ok_or, ◌>>◌,
}
use loofi_face_id.AuthPolicy.Table.{AuthPolicyError, invalid, AuthPolicy, Users, IsPolicy}
use loofi_face_id.AuthPolicy.Parser.{
  skip_whitespace, consume, expect, string, number, separator, parse_users, Seen, policy_field,
  policy_entry, policy_loop, parse_policy, parse_json, max_policy_bytes, is_ascii,
}
use loofi_face_id.AuthPolicy.Sound.{
  skip_whitespace-le, consume_shorter, expect-Ensures, Shrinks, string-Ensures, number-Ensures,
  separator-Ensures,
}
use loofi_face_id.AuthPolicy.Sound.Tables.{UsersLeft, parse_users-Ensures}

-- The fields that a round of the loop in `parse_policy` leaves.
abbrev IsSeen : Option Users → Type 0
IsSeen none = Unit {0}
IsSeen (some users) = IsPolicy (record { users = users })

abbrev SeenLeft : List ℕ → Seen × List ℕ → Type 0
SeenLeft s t = IsSeen t.0.users × (length t.1 ≤ length s)

version_field-Ensures :
    (seen : Seen) (s : List ℕ)
    → IsSeen seen.users
    → Ensures
        (SeenLeft s)
        (number s >>= λ t. guard (t.0 == 1) invalid >> ok (record seen { version = true }, t.1))
version_field-Ensures seen s h =
    Ensures->>= (λ t. length t.1 ≤ length s) (SeenLeft s) (number s) _ (number-Ensures s)
      λ t k. Ensures-guard (SeenLeft s) (t.0 == 1) invalid _ λ g. (h, k)

users_field-Ensures :
    (seen : Seen) (s : List ℕ)
    → Ensures (SeenLeft s) (parse_users s >>= λ t. ok (record seen { users = some t.0 }, t.1))
users_field-Ensures seen s =
    Ensures->>= (UsersLeft s) (SeenLeft s) (parse_users s) _ (parse_users-Ensures s)
      λ t k. (k.0, omega arith)

policy_field-Ensures :
    (name : List ℕ) (seen : Seen) (s : List ℕ)
    → IsSeen seen.users
    → Ensures (SeenLeft s) (policy_field name seen s)
unfolding policy_field
policy_field-Ensures name seen s h =
    ground (arith, version_field-Ensures seen s h, users_field-Ensures seen s)

policy_entry-Ensures :
    (seen : Seen) (s : List ℕ)
    → IsSeen seen.users
    → Ensures (λ t. IsSeen t.0.users × (length t.1 < length s)) (policy_entry seen s)
unfolding policy_entry
policy_entry-Ensures seen s h =
    let Q : Seen × List ℕ → Type 0 = λ t. IsSeen t.0.users × (length t.1 < length s) in
    Ensures->>= (Shrinks s) Q (string s) _ (string-Ensures s) λ name k1.
      Ensures->>= (λ r. length r < length name.1) Q (expect b':' name.1) _
        (expect-Ensures b':' name.1)
        λ s2 k2.
          Ensures-weaken (SeenLeft s2) Q (policy_field name.0 seen s2)
            (policy_field-Ensures name.0 seen s2 h) λ t k. (k.0, omega arith)

policy_loop-Ensures :
    (fuel : ℕ) (first : Bool) (seen : Seen) (s : List ℕ)
    → length s < fuel
    → IsSeen seen.users
    → Ensures (SeenLeft s) (policy_loop fuel first seen s)
unfolding policy_loop
policy_loop-Ensures zero first seen s n h = absurd (omega arith)
policy_loop-Ensures (suc fuel) first seen s n h =
    elim (Option-cases (consume b'}' (skip_whitespace s))) [
      | inr (rest, e) ↦
          rw (e, policy_loop)
            (
              h,
              omega (arith, consume_shorter b'}' (skip_whitespace s) rest e, skip_whitespace-le s),
            )
      | inl e ↦
          rw (e, policy_loop)
            (Ensures->>= (λ r. length r ≤ length (skip_whitespace s)) (SeenLeft s)
              (separator first (skip_whitespace s)) _ (separator-Ensures first (skip_whitespace s))
              λ s1 k.
                Ensures->>= (λ t. IsSeen t.0.users × (length t.1 < length s1)) (SeenLeft s)
                  (policy_entry seen s1) _ (policy_entry-Ensures seen s1 h)
                  λ t j.
                    Ensures-weaken (SeenLeft t.1) (SeenLeft s) (policy_loop fuel false t.0 t.1)
                      (policy_loop-Ensures fuel false t.0 t.1 (omega (arith, skip_whitespace-le s))
                        j.0)
                      λ u i. (i.0, omega (arith, skip_whitespace-le s)))
    ]

seen_users :
    (o : Option Users) → IsSeen o → (us : Users) → o ≡ some us → IsPolicy (record { users = us })
seen_users none h us e = cc
seen_users (some vs) h us e = let p : vs ≡ us = cc in rw (← p) h

parse_policy-Ensures : (s : List ℕ) → Ensures (λ t. IsPolicy t.0) (parse_policy s)
unfolding parse_policy
parse_policy-Ensures s =
    let Q : AuthPolicy × List ℕ → Type 0 = λ t. IsPolicy t.0 in
    Ensures->>= (λ r. length r < length s) Q (expect b'{' s) _ (expect-Ensures b'{' s)
      λ s1 k.
        Ensures->>= (SeenLeft s1) Q
          (policy_loop (suc (length s1)) true (record { version = false; users = none }) s1) _
          (policy_loop-Ensures (suc (length s1)) true (record { version = false; users = none }) s1
            (omega arith) tt)
          λ t j. Ensures-guard Q t.0.version invalid _ λ g.
            Ensures->>= (λ us. IsPolicy (record { users = us })) Q (ok_or t.0.users invalid) _
              (Ensures-ok_or (λ us. IsPolicy (record { users = us })) t.0.users invalid
                (seen_users t.0.users j.0))
              λ us h. h

-- `parse_json` ends on any bytes at all, with a policy or an error, and a policy that it returns
-- satisfies the invariant: no entry for uid 0, every uid of 32 bits, no stored `Off`, users and
-- targets in order and without repetition.
pub parse_json-Ensures : (bytes : List ℕ) → Ensures IsPolicy (parse_json bytes)
unfolding parse_json
parse_json-Ensures bytes =
    let finish : AuthPolicy × List ℕ → Outcome AuthPolicyError AuthPolicy =
      λ t. guard (is_empty (skip_whitespace t.1)) invalid >> ok t.0 in
    Ensures-guard IsPolicy (not (ltb max_policy_bytes (length bytes) || not (is_ascii bytes)))
      invalid (parse_policy bytes >>= finish)
      λ g.
        Ensures->>= (λ t. IsPolicy t.0) IsPolicy (parse_policy bytes) finish
          (parse_policy-Ensures bytes)
          λ t h. Ensures-guard IsPolicy (is_empty (skip_whitespace t.1)) invalid (ok t.0) λ k. h
