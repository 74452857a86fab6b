-- ===== src/AuthPolicy/Json.antt =====
-- engine/templates/src/auth_policy.rs: `to_json`, and the decimal text of a uid.
use loofi_face_id.Prelude.{
  ℕ, zero, suc, ◌+◌, ◌/◌, ◌%◌, List, [], ◌∷◌, ◌++◌, ascii, ltb, ◌==◌, if◌then◌else◌,
}
use loofi_face_id.AuthPolicy.Table.{Targets, Users, AuthPolicy, key, as_str}

-- The decimal digits of a number below 10 ^ (k + 1).
unfoldable pub digits : ℕ → ℕ → List ℕ
digits zero n = (b'0' + n % 10) ∷ []
digits (suc k) n =
    let front = digits k (n / 10) in
    if ltb n 10 then (b'0' + n) ∷ [] else front ++ ((b'0' + n % 10) ∷ [])

-- `u32::to_string`: a u32 has ten digits at most.
abbrev pub to_string : ℕ → List ℕ
to_string n = digits 9 n

-- `if index != 0 { output.push(',') }`
abbrev pub comma : ℕ → List ℕ
comma index = if index == 0 then [] else b',' ∷ []

-- The loop over the targets of one user.
unfoldable pub targets_json : ℕ → Targets → List ℕ
targets_json index [] = []
targets_json index ((target, mode) ∷ targets) =
    comma index
    ++ (b'"'
        ∷ (key target
            ++ (ascii "\":\"" ++ (as_str mode ++ (b'"' ∷ targets_json (suc index) targets)))))

-- The loop over the users.
unfoldable pub users_json : ℕ → Users → List ℕ
users_json index [] = []
users_json index ((uid, targets) ∷ users) =
    comma index
    ++ (b'"'
        ∷ (to_string uid
            ++ (ascii "\":{" ++ (targets_json 0 targets ++ (b'}' ∷ users_json (suc index) users)))))

unfoldable pub to_json : AuthPolicy → List ℕ
to_json policy = ascii "{\"version\":1,\"users\":{" ++ (users_json 0 policy.users ++ ascii "}}\n")
