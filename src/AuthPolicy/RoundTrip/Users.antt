-- ===== src/AuthPolicy/RoundTrip/Users.antt =====
-- engine/templates/src/auth_policy.rs: the whole policy, written and read back.
use loofi_face_id.Prelude.{
  ℕ, zero, suc, ◌≤◌, ◌<◌, ◌≡◌, refl, sym, ap, ◌∙◌, arith, Bool, true, false, List, [], ◌∷◌, ◌++◌,
  none, some, append_assoc, append-nil, All, All-append, IsU32, ◌==◌, length, length-append, ok,
  err, ascii, bytes_eq_refl, ne→==_false, le→ltb_false, lt→ltb,
}
use loofi_face_id.BTreeMap.{get, insert, IsSorted, AreBelow}
use loofi_face_id.BTreeMap.Laws.{get_below, insert_below, below_step, below_nil}
use loofi_face_id.AuthPolicy.Table.{
  AuthTarget, AuthPolicyMode, invalid, sddm, plasma_lock, off, on_activity, manual, key, as_str,
  AuthPolicy, Targets, Users, uid_rank, IsTargets, AreUsers, IsPolicy,
}
use loofi_face_id.AuthPolicy.Json.{to_json, users_json, targets_json, comma, to_string}
use loofi_face_id.AuthPolicy.Decimal.{IsDigit, to_string-IsDigit, parse_u32-to_string}
use loofi_face_id.AuthPolicy.Parser.{
  expect, consume, skip_whitespace, separator, store_user, user_entry, users_loop, parse_users,
  policy_entry, policy_loop, parse_policy, parse_json, is_ascii, max_policy_bytes, Seen,
}
use loofi_face_id.AuthPolicy.RoundTrip.Targets.{string-digits, parse_targets-targets_json}

-- One user as `to_json` writes it.
abbrev user_text : ℕ → Targets → List ℕ → List ℕ
user_text uid ts tail =
    b'"' ∷ (to_string uid ++ (ascii "\":{" ++ (targets_json 0 ts ++ (b'}' ∷ tail))))

user_entry-text :
    (uid : ℕ) (ts : Targets) (acc : Users) (tail : List ℕ)
    → 0 < uid
    → IsU32 uid
    → IsTargets ts
    → get uid_rank uid acc ≡ none
    → user_entry acc (user_text uid ts tail) ≡ ok (insert uid_rank uid ts acc, tail)
unfolding user_entry expect
user_entry-text uid ts acc tail p w h e = rw (
  string-digits (to_string uid) (b':' ∷ b'{' ∷ (targets_json 0 ts ++ (b'}' ∷ tail)))
      (to_string-IsDigit uid),
  parse_u32-to_string uid w,
  ne→==_false uid 0 (omega arith),
  bytes_eq_refl (to_string uid),
  parse_targets-targets_json ts tail h,
  e,
  store_user,
)

users_json-append :
    (i uid : ℕ) (ts : Targets) (us : Users) (tail : List ℕ)
    → users_json i ((uid, ts) ∷ us) ++ tail
      ≡ comma i ++ user_text uid ts (users_json (suc i) us ++ tail)
unfolding users_json
users_json-append i uid ts us tail = simp append_assoc

users_loop_end :
    (fuel : ℕ) (first : Bool) (acc : Users) (rest : List ℕ)
    → users_loop (suc fuel) first acc (b'}' ∷ rest) ≡ ok (acc, rest)
unfolding users_loop consume skip_whitespace
users_loop_end fuel first acc rest = refl

users_loop_round :
    (fuel i : ℕ) (first : Bool) (acc acc' : Users) (s rest : List ℕ)
    → (i == 0) ≡ first
    → user_entry acc (b'"' ∷ s) ≡ ok (acc', rest)
    → users_loop (suc fuel) first acc (comma i ++ (b'"' ∷ s)) ≡ users_loop fuel false acc' rest
unfolding users_loop consume skip_whitespace separator
users_loop_round fuel i true acc acc' s rest f e = rw (f, e)
users_loop_round fuel i false acc acc' s rest f e = rw (f, e)

users_loop-users_json :
    (fuel i : ℕ) (first : Bool) (acc us : Users) (rest : List ℕ)
    → length us < fuel
    → (i == 0) ≡ first
    → IsSorted uid_rank us
    → AreUsers us
    → AreBelow uid_rank acc us
    → users_loop fuel first acc (users_json i us ++ (b'}' ∷ rest)) ≡ ok (acc ++ us, rest)
users_loop-users_json zero i first acc us rest n f s e b = absurd (omega arith)
users_loop-users_json (suc fuel) i first acc [] rest n f s e b =
    unfold users_json in
    users_loop_end fuel first acc rest ∙ ap (λ t. ok (t, rest)) (sym (append-nil acc))
users_loop-users_json (suc fuel) i first acc ((uid, ts) ∷ us) rest n f s e b =
    rw (users_json-append i uid ts us (b'}' ∷ rest)) (
      users_loop_round fuel i first acc _ _ _ f
        (user_entry-text uid ts acc _ e.0 e.1 e.2 (get_below uid_rank uid acc b.0))
      ∙ ap (λ a. users_loop fuel false a (users_json (suc i) us ++ (b'}' ∷ rest)))
          (insert_below uid_rank uid ts acc b.0)
      ∙ users_loop-users_json fuel (suc i) false (acc ++ ((uid, ts) ∷ [])) us rest (omega arith)
          (ne→==_false (suc i) 0 (omega arith)) s.1 e.3 (below_step uid_rank uid ts acc us s.0 b.1)
      ∙ ap (λ a. ok (a, rest)) (append_assoc acc ((uid, ts) ∷ []) us))

length-users_json : (i : ℕ) (us : Users) → length us ≤ length (users_json i us)
unfolding users_json
length-users_json i [] = omega arith
length-users_json i ((uid, ts) ∷ us) =
    omega (arith, length-append {0}, length-users_json (suc i) us)

parse_users-users_json :
    (us : Users) (rest : List ℕ)
    → IsSorted uid_rank us
    → AreUsers us
    → parse_users (b'{' ∷ (users_json 0 us ++ (b'}' ∷ rest))) ≡ ok (us, rest)
unfolding parse_users
parse_users-users_json us rest s h =
    users_loop-users_json (suc (length (users_json 0 us ++ (b'}' ∷ rest)))) 0 true [] us rest
      (omega (arith, length-users_json 0 us, length-append (users_json 0 us) (b'}' ∷ rest))) refl s
      h (below_nil uid_rank us)

abbrev nothing_seen : Seen
nothing_seen = record { version = false; users = none }

abbrev version_seen : Seen
version_seen = record { version = true; users = none }

version_entry :
    (s : List ℕ)
    → policy_entry nothing_seen (ascii "\"version\":1," ++ s) ≡ ok (version_seen, b',' ∷ s)
unfolding policy_entry
version_entry s = refl

users_entry :
    (us : Users) (rest : List ℕ)
    → IsSorted uid_rank us
    → AreUsers us
    → policy_entry version_seen (ascii "\"users\":{" ++ (users_json 0 us ++ (b'}' ∷ rest)))
      ≡ ok (record { version = true; users = some us }, rest)
unfolding policy_entry
users_entry us rest s h = rw (parse_users-users_json us rest s h)

-- The two rounds of the loop over the fields, and its end.
policy_rounds :
    (fuel : ℕ) (us : Users) (s1 s2 : List ℕ)
    → policy_entry nothing_seen (b'"' ∷ s1) ≡ ok (version_seen, b',' ∷ b'"' ∷ s2)
    → policy_entry version_seen (b'"' ∷ s2)
      ≡ ok (record { version = true; users = some us }, b'}' ∷ b'\n' ∷ [])
    → policy_loop (suc (suc (suc fuel))) true nothing_seen (b'"' ∷ s1)
      ≡ ok (record { version = true; users = some us }, b'\n' ∷ [])
unfolding policy_loop consume skip_whitespace separator
policy_rounds fuel us s1 s2 e f = rw (e, f)

parse_policy-to_json : (p : AuthPolicy) → IsPolicy p → parse_policy (to_json p) ≡ ok (p, b'\n' ∷ [])
unfolding parse_policy to_json
parse_policy-to_json p h =
    let users = ascii "users\":{" ++ (users_json 0 p.users ++ ascii "}}\n") in
    let loop =
      policy_rounds (length (ascii "ersion\":1,\"" ++ users)) p.users
        (ascii "version\":1,\"" ++ users) users (version_entry (b'"' ∷ users))
        (users_entry p.users (ascii "}\n") h.sorted h.users) in
    rw loop

-- Text with no byte above 127.
abbrev IsAscii : ℕ → Type 0
IsAscii b = b < 128

is_ascii-All : (s : List ℕ) → All IsAscii s → is_ascii s ≡ true
is_ascii-All [] h = refl
is_ascii-All (b ∷ s) h = ground (arith, is_ascii-All s h.1)

All-IsDigit : (s : List ℕ) → All IsDigit s → All IsAscii s
All-IsDigit [] h = tt
All-IsDigit (b ∷ s) h = (omega arith, All-IsDigit s h.1)

comma-IsAscii : (i : ℕ) → All IsAscii (comma i)
comma-IsAscii i = ground arith

key-IsAscii : (t : AuthTarget) → All IsAscii (key t)
unfolding key
key-IsAscii sddm = omega arith
key-IsAscii plasma_lock = omega arith

as_str-IsAscii : (m : AuthPolicyMode) → All IsAscii (as_str m)
unfolding as_str
as_str-IsAscii off = omega arith
as_str-IsAscii on_activity = omega arith
as_str-IsAscii manual = omega arith

targets_json-IsAscii : (i : ℕ) (ts : Targets) → All IsAscii (targets_json i ts)
unfolding targets_json
targets_json-IsAscii i [] = tt
targets_json-IsAscii i ((t, m) ∷ ts) = All-append IsAscii (comma i) _ (comma-IsAscii i) (
  omega arith,
  All-append IsAscii (key t) _ (key-IsAscii t) (
      All-append IsAscii (ascii "\":\"") _ (omega arith) (
        All-append IsAscii (as_str m) _ (as_str-IsAscii m)
          (omega arith, targets_json-IsAscii (suc i) ts))),
)

users_json-IsAscii : (i : ℕ) (us : Users) → All IsAscii (users_json i us)
unfolding users_json
users_json-IsAscii i [] = tt
users_json-IsAscii i ((uid, ts) ∷ us) = All-append IsAscii (comma i) _ (comma-IsAscii i) (
  omega arith,
  All-append IsAscii (to_string uid) _ (All-IsDigit _ (to_string-IsDigit uid)) (
      All-append IsAscii (ascii "\":{") _ (omega arith) (
        All-append IsAscii (targets_json 0 ts) _ (targets_json-IsAscii 0 ts)
          (omega arith, users_json-IsAscii (suc i) us))),
)

to_json-IsAscii : (p : AuthPolicy) → All IsAscii (to_json p)
unfolding to_json
to_json-IsAscii p =
    All-append IsAscii (ascii "{\"version\":1,\"users\":{") _ (omega arith)
      (All-append IsAscii (users_json 0 p.users) _ (users_json-IsAscii 0 p.users) (omega arith))

-- A policy that satisfies its invariant, and whose text has at most 64 KiB, is read back from the
-- text that `to_json` writes.
pub parse_json-to_json :
    (p : AuthPolicy)
    → IsPolicy p
    → length (to_json p) ≤ max_policy_bytes
    → parse_json (to_json p) ≡ ok p
unfolding parse_json
parse_json-to_json p h n = rw (
  le→ltb_false max_policy_bytes (length (to_json p)) n,
  is_ascii-All (to_json p) (to_json-IsAscii p),
  parse_policy-to_json p h,
)

-- `to_json` has no bound of its own: a longer text, which `write_atomic` stores without complaint,
-- is refused by every later load.
pub parse_json_oversized :
    (p : AuthPolicy) → max_policy_bytes < length (to_json p) → parse_json (to_json p) ≡ err invalid
unfolding parse_json
parse_json_oversized p h = rw (lt→ltb max_policy_bytes (length (to_json p)) h)
