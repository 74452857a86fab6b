-- ===== src/AuthPolicy/Parser.antt =====
-- engine/templates/src/auth_policy.rs: `PolicyParser` and `parse_json`. The parser's state is the
-- text from its position on; a method returns what it leaves. `stuck` would mean that a loop ran
-- out of fuel.
use loofi_face_id.Prelude.{
  ℕ, zero, suc, ◌+◌, ◌-◌, ◌*◌, ◌^◌, Bool, true, false, not, ◌&&◌, ◌||◌, List, [], ◌∷◌, Option, none,
  some, Outcome, ok, err, stuck, ◌>>=◌, ◌>>◌, guard, ok_or, ascii, bytes_eq, ltb, leb, ◌==◌,
  if◌then◌else◌, length, is_empty,
}
use loofi_face_id.BTreeMap.{get, insert}
use loofi_face_id.AuthPolicy.Table.{
  AuthTarget, AuthPolicyMode, AuthPolicyError, invalid, Targets, Users, AuthPolicy, target_rank,
  uid_rank, is_off, parse_target, parse_mode,
}
use loofi_face_id.AuthPolicy.Json.{to_string}

abbrev pub Parsed : Type 0 → Type 0
Parsed A = Outcome AuthPolicyError (A × List ℕ)

abbrev pub max_policy_bytes : ℕ
max_policy_bytes = 64 * 1024

-- `u8::is_ascii_whitespace`: space, tab, line feed, form feed, carriage return.
abbrev pub is_whitespace : ℕ → Bool
is_whitespace b = b == 0x20 || b == 0x09 || b == 0x0a || b == 0x0c || b == 0x0d

abbrev pub is_digit : ℕ → Bool
is_digit b = leb b'0' b && leb b b'9'

unfoldable pub skip_whitespace : List ℕ → List ℕ
skip_whitespace [] = []
skip_whitespace (b ∷ s) = if is_whitespace b then skip_whitespace s else b ∷ s

-- The rest behind `expected`, if that is the next byte.
unfoldable pub consume : ℕ → List ℕ → Option (List ℕ)
consume expected [] = none
consume expected (b ∷ s) = if b == expected then some s else none

unfoldable pub expect : ℕ → List ℕ → Outcome AuthPolicyError (List ℕ)
unfolding skip_whitespace consume
expect expected s = ok_or (consume expected (skip_whitespace s)) invalid

-- The loop of `string`, behind the opening quote. The text is ASCII here, since `parse_json` has
-- checked it, so `from_utf8` succeeds.
unfoldable pub string_body : List ℕ → Parsed (List ℕ)
string_body [] = err invalid
string_body (b ∷ s) =
    let rest = string_body s >>= λ t. ok (b ∷ t.0, t.1) in
    if b == b'"' then ok ([], s) else if b == b'\\' || ltb b 0x20 then err invalid else rest

unfoldable pub string : List ℕ → Parsed (List ℕ)
unfolding expect string_body
string s = expect b'"' (skip_whitespace s) >>= string_body

-- The digits at the front, and what follows them.
unfoldable pub span_digits : List ℕ → List ℕ × List ℕ
span_digits [] = ([], [])
span_digits (b ∷ s) =
    let (ds, rest) = span_digits s in if is_digit b then (b ∷ ds, rest) else ([], b ∷ s)

-- `str::parse::<u32>` behind the sign: `None` for a character that is no digit, or for overflow.
unfoldable pub u32_digits : ℕ → List ℕ → Option ℕ
u32_digits acc [] = some acc
u32_digits acc (b ∷ s) =
    let n = acc * 10 + (b - b'0') in
    let rest = u32_digits n s in if is_digit b && ltb n (2 ^ 32) then rest else none

-- `str::parse::<u32>`: a single sign, or no text, is refused; a leading `+` is accepted.
unfoldable pub parse_u32 : List ℕ → Option ℕ
unfolding u32_digits
parse_u32 [] = none
parse_u32 (b ∷ []) = u32_digits 0 (b ∷ [])
parse_u32 (b ∷ c ∷ s) = if b == b'+' then u32_digits 0 (c ∷ s) else u32_digits 0 (b ∷ c ∷ s)

-- `bytes.len() > 1 && bytes[0] == b'0'`
abbrev pub has_leading_zero : List ℕ → Bool
has_leading_zero (b ∷ c ∷ s) = b == b'0'
has_leading_zero _ = false

unfoldable pub number : List ℕ → Parsed ℕ
unfolding skip_whitespace span_digits parse_u32
number s =
    let (ds, rest) = span_digits (skip_whitespace s) in
    if is_empty ds || has_leading_zero ds
    then err invalid
    else (ok_or (parse_u32 ds) invalid >>= λ n. ok (n, rest))

-- `if !first { self.expect(b',')?; }`
unfoldable pub separator : Bool → List ℕ → Outcome AuthPolicyError (List ℕ)
unfolding expect
separator true s = ok s
separator false s = expect b',' s

-- `if mode == Off || targets.insert(target, mode).is_some()`
unfoldable pub store_target : Targets → AuthTarget → AuthPolicyMode → List ℕ → Parsed Targets
store_target targets target mode s = elim (get target_rank target targets) [
  | none ↦ if is_off mode then err invalid else ok (insert target_rank target mode targets, s)
  | some old ↦ err invalid
]

-- One round of the loop in `parse_targets`, behind the separator.
unfoldable pub target_entry : Targets → List ℕ → Parsed Targets
unfolding string expect parse_target parse_mode store_target
target_entry targets s = do
  (name, s1) ← string s
  target ← parse_target name
  s2 ← expect b':' s1
  (text, s3) ← string s2
  mode ← parse_mode text
  store_target targets target mode s3

unfoldable pub targets_loop : ℕ → Bool → Targets → List ℕ → Parsed Targets
targets_loop zero first targets s = stuck
targets_loop (suc fuel) first targets s = elim (consume b'}' (skip_whitespace s)) [
  | some rest ↦ ok (targets, rest)
  | none ↦ separator first (skip_whitespace s) >>= λ s1.
      target_entry targets s1 >>= λ t. targets_loop fuel false t.0 t.1
]

unfoldable pub parse_targets : List ℕ → Parsed Targets
unfolding expect targets_loop
parse_targets s = expect b'{' s >>= λ s1. targets_loop (suc (length s1)) true [] s1

-- `if users.insert(uid, targets).is_some()`
unfoldable pub store_user : Users → ℕ → Targets → List ℕ → Parsed Users
store_user users uid targets s = elim (get uid_rank uid users) [
  | none ↦ ok (insert uid_rank uid targets users, s)
  | some old ↦ err invalid
]

-- One round of the loop in `parse_users`, behind the separator.
unfoldable pub user_entry : Users → List ℕ → Parsed Users
unfolding string expect parse_u32 parse_targets store_user
user_entry users s = do
  (uid_text, s1) ← string s
  uid ← ok_or (parse_u32 uid_text) invalid
  guard (not (uid == 0 || not (bytes_eq (to_string uid) uid_text))) invalid
  s2 ← expect b':' s1
  (targets, s3) ← parse_targets s2
  store_user users uid targets s3

unfoldable pub users_loop : ℕ → Bool → Users → List ℕ → Parsed Users
users_loop zero first users s = stuck
users_loop (suc fuel) first users s = elim (consume b'}' (skip_whitespace s)) [
  | some rest ↦ ok (users, rest)
  | none ↦ separator first (skip_whitespace s) >>= λ s1.
      user_entry users s1 >>= λ t. users_loop fuel false t.0 t.1
]

unfoldable pub parse_users : List ℕ → Parsed Users
unfolding expect users_loop
parse_users s = expect b'{' s >>= λ s1. users_loop (suc (length s1)) true [] s1

-- What the loop of `parse_policy` has seen.
pub record Seen : Type 0 where
  pub version : Bool
  pub users : Option Users

abbrev pub is_none : Option Users → Bool
is_none none = true
is_none (some u) = false

-- The `match` on the key of a field, and the field's value.
unfoldable pub policy_field : List ℕ → Seen → List ℕ → Parsed Seen
unfolding number parse_users
policy_field name seen s =
    if bytes_eq name (ascii "version") && not seen.version
    then (do (n, s1) ← number s; guard (n == 1) invalid; ok (record seen { version = true }, s1))
    else if bytes_eq name (ascii "users") && is_none seen.users
    then (do (users, s1) ← parse_users s; ok (record seen { users = some users }, s1))
    else err invalid

-- One round of that loop, behind the separator.
unfoldable pub policy_entry : Seen → List ℕ → Parsed Seen
unfolding string expect policy_field
policy_entry seen s = do (name, s1) ← string s; s2 ← expect b':' s1; policy_field name seen s2

unfoldable pub policy_loop : ℕ → Bool → Seen → List ℕ → Parsed Seen
policy_loop zero first seen s = stuck
policy_loop (suc fuel) first seen s = elim (consume b'}' (skip_whitespace s)) [
  | some rest ↦ ok (seen, rest)
  | none ↦ separator first (skip_whitespace s) >>= λ s1.
      policy_entry seen s1 >>= λ t. policy_loop fuel false t.0 t.1
]

unfoldable pub parse_policy : List ℕ → Parsed AuthPolicy
unfolding expect
parse_policy s = do
  s1 ← expect b'{' s
  (seen, s2) ← policy_loop (suc (length s1)) true (record { version = false; users = none }) s1
  guard seen.version invalid
  users ← ok_or seen.users invalid
  ok (record { users = users }, s2)

-- `bytes.is_ascii()`
abbrev pub is_ascii : List ℕ → Bool
is_ascii [] = true
is_ascii (b ∷ s) = ltb b 128 && is_ascii s

unfoldable pub parse_json : List ℕ → Outcome AuthPolicyError AuthPolicy
unfolding parse_policy skip_whitespace
parse_json bytes = do
  guard (not (ltb max_policy_bytes (length bytes) || not (is_ascii bytes))) invalid
  (policy, rest) ← parse_policy bytes
  guard (is_empty (skip_whitespace rest)) invalid
  ok policy
