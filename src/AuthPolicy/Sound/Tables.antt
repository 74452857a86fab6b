-- ===== src/AuthPolicy/Sound/Tables.antt =====
-- engine/templates/src/auth_policy.rs: `parse_users` on any bytes at all.
use loofi_face_id.Prelude.{
  ℕ, zero, suc, ◌≤◌, ◌<◌, ◌≡◌, arith, Bool, true, false, not, ◌||◌, List, [], IsU32, ◌==◌, length,
  inl, inr, Option-cases, Ensures, Ensures->>=, Ensures-weaken, Ensures-ok_or, Ensures-guard, ok_or,
}
use loofi_face_id.BTreeMap.{get}
use loofi_face_id.AuthPolicy.Table.{invalid, Targets, Users, uid_rank, IsTargets, IsPolicy}
use loofi_face_id.BTreeMap.Laws.{insert-IsSorted}
use loofi_face_id.AuthPolicy.Modes.{insert-AreUsers}
use loofi_face_id.AuthPolicy.Parser.{
  skip_whitespace, consume, expect, string, parse_u32, separator, store_user, parse_targets,
  user_entry, users_loop, parse_users,
}
use loofi_face_id.AuthPolicy.Sound.{
  skip_whitespace-le, consume_shorter, expect-Ensures, Shrinks, string-Ensures, parse_u32_bound,
  separator-Ensures, TargetsLeft, parse_targets-Ensures,
}

-- A table that a round of `parse_users` leaves.
abbrev pub UsersLeft : List ℕ → Users × List ℕ → Type 0
UsersLeft s t = IsPolicy (record { users = t.0 }) × (length t.1 < length s)

store_user-Ensures :
    (acc : Users) (uid : ℕ) (targets : Targets) (s r : List ℕ)
    → IsPolicy (record { users = acc })
    → 0 < uid
    → IsU32 uid
    → IsTargets targets
    → length r < length s
    → Ensures (UsersLeft s) (store_user acc uid targets r)
unfolding store_user
store_user-Ensures acc uid targets s r h p w t n = elim (Option-cases (get uid_rank uid acc)) [
  | inl e ↦
      rw (e, store_user)
        (
          record {
            sorted = insert-IsSorted uid_rank uid targets acc h.sorted;
            users = insert-AreUsers uid targets acc p w t h.users;
          },
          n,
        )
  | inr (old, e) ↦ rw (e, store_user) tt
]

nonzero_of : (a : ℕ) (b : Bool) → not (a == 0 || b) ≡ true → 0 < a
nonzero_of a b h = ground arith

user_entry-Ensures :
    (acc : Users) (s : List ℕ)
    → IsPolicy (record { users = acc })
    → Ensures (UsersLeft s) (user_entry acc s)
unfolding user_entry
user_entry-Ensures acc s h =
    Ensures->>= (Shrinks s) (UsersLeft s) (string s) _ (string-Ensures s) λ text k1.
      Ensures->>= IsU32 (UsersLeft s) (ok_or (parse_u32 text.0) invalid) _
        (Ensures-ok_or IsU32 (parse_u32 text.0) invalid (parse_u32_bound text.0))
        λ uid w. Ensures-guard (UsersLeft s) _ invalid _ λ g.
          Ensures->>= (λ r. length r < length text.1) (UsersLeft s) (expect b':' text.1) _
            (expect-Ensures b':' text.1)
            λ s2 k2.
              Ensures->>= (TargetsLeft s2) (UsersLeft s) (parse_targets s2) _
                (parse_targets-Ensures s2)
                λ t k3.
                  store_user-Ensures acc uid t.0 s t.1 h (nonzero_of uid _ g) w k3.0 (omega arith)

users_loop-Ensures :
    (fuel : ℕ) (first : Bool) (acc : Users) (s : List ℕ)
    → length s < fuel
    → IsPolicy (record { users = acc })
    → Ensures (UsersLeft s) (users_loop fuel first acc s)
unfolding users_loop
users_loop-Ensures zero first acc s n h = absurd (omega arith)
users_loop-Ensures (suc fuel) first acc s n h =
    elim (Option-cases (consume b'}' (skip_whitespace s))) [
      | inr (rest, e) ↦
          rw (e, users_loop)
            (
              h,
              omega (arith, consume_shorter b'}' (skip_whitespace s) rest e, skip_whitespace-le s),
            )
      | inl e ↦
          rw (e, users_loop)
            (Ensures->>= (λ r. length r ≤ length (skip_whitespace s)) (UsersLeft s)
              (separator first (skip_whitespace s)) _ (separator-Ensures first (skip_whitespace s))
              λ s1 k.
                Ensures->>= (UsersLeft s1) (UsersLeft s) (user_entry acc s1) _
                  (user_entry-Ensures acc s1 h)
                  λ t j.
                    Ensures-weaken (UsersLeft t.1) (UsersLeft s) (users_loop fuel false t.0 t.1)
                      (users_loop-Ensures fuel false t.0 t.1 (omega (arith, skip_whitespace-le s))
                        j.0)
                      λ u i. (i.0, omega (arith, skip_whitespace-le s)))
    ]

pub parse_users-Ensures : (s : List ℕ) → Ensures (UsersLeft s) (parse_users s)
unfolding parse_users
parse_users-Ensures s =
    Ensures->>= (λ r. length r < length s) (UsersLeft s) (expect b'{' s) _ (expect-Ensures b'{' s)
      λ s1 k.
        Ensures-weaken (UsersLeft s1) (UsersLeft s) (users_loop (suc (length s1)) true [] s1)
          (users_loop-Ensures (suc (length s1)) true [] s1 (omega arith)
            (record { sorted = tt; users = tt }))
          λ u i. (i.0, omega arith)
