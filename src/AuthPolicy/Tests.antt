-- ===== src/AuthPolicy/Tests.antt =====
-- The source's own tests of the policy text.
use loofi_face_id.Prelude.{ℕ, ◌≡◌, refl, List, [], ◌∷◌, ok, err, ascii, arith, Ensures}
use loofi_face_id.AuthPolicy.Table.{
  AuthPolicy, sddm, plasma_lock, manual, on_activity, off, invalid, key, as_str, IsPolicy, mode_for,
  set_mode,
}
use loofi_face_id.AuthPolicy.Modes.{mode_for-set_mode, set_mode-IsPolicy}
use loofi_face_id.AuthPolicy.RoundTrip.Users.{parse_json-to_json}
use loofi_face_id.AuthPolicy.Sound.Policy.{parse_json-Ensures}
use loofi_face_id.AuthPolicy.Json.{to_json, users_json, targets_json, digits}
use loofi_face_id.AuthPolicy.Parser.{
  parse_json, separator, target_entry, user_entry, policy_entry, consume, parse_policy, policy_loop,
  users_loop, targets_loop,
}

abbrev two_users : AuthPolicy
two_users = record {
  users =
      (1000, (sddm, on_activity) ∷ (plasma_lock, manual) ∷ []) ∷ (1001, (sddm, manual) ∷ []) ∷ [];
}

abbrev two_users_text : List ℕ
two_users_text =
    ascii
      "{\"version\":1,\"users\":{\"1000\":{\"sddm\":\"on-activity\",\"plasma-lock\":\"manual\"},\"1001\":{\"sddm\":\"manual\"}}}\n"

prints : to_json two_users ≡ two_users_text
unfolding to_json users_json targets_json digits key as_str
prints = refl

reads : parse_json two_users_text ≡ ok two_users
unfolding parse_json parse_policy policy_loop policy_entry separator user_entry target_entry consume
    users_loop targets_loop digits
reads = refl

wrong_version : parse_json (ascii "{\"version\":2,\"users\":{}}") ≡ err invalid
unfolding parse_json parse_policy policy_loop policy_entry separator consume
wrong_version = refl

stored_off :
    parse_json (ascii "{\"version\":1,\"users\":{\"1000\":{\"sddm\":\"off\"}}}") ≡ err invalid
unfolding parse_json parse_policy policy_loop policy_entry separator user_entry target_entry consume
    users_loop targets_loop digits
stored_off = refl

padded_uid :
    parse_json (ascii "{\"version\":1,\"users\":{\"01000\":{\"sddm\":\"manual\"}}}") ≡ err invalid
unfolding parse_json parse_policy policy_loop policy_entry separator user_entry target_entry consume
    users_loop targets_loop digits
padded_uid = refl

twice :
    parse_json
      (ascii "{\"version\":1,\"users\":{\"1000\":{\"sddm\":\"manual\",\"sddm\":\"manual\"}}}")
    ≡ err invalid
unfolding parse_json parse_policy policy_loop policy_entry separator user_entry target_entry consume
    users_loop targets_loop digits
twice = refl

two_users-IsPolicy : IsPolicy two_users
two_users-IsPolicy = ground arith

parse_json-to_json_example : parse_json (to_json two_users) ≡ ok two_users
parse_json-to_json_example =
    parse_json-to_json two_users two_users-IsPolicy (rw prints (omega arith))

parse_json-Ensures_example : Ensures IsPolicy (parse_json two_users_text)
parse_json-Ensures_example = parse_json-Ensures two_users_text

mode_for-set_mode_example :
    mode_for (set_mode two_users 1000 sddm off).1 1000 plasma_lock
    ≡ mode_for two_users 1000 plasma_lock
mode_for-set_mode_example =
    mode_for-set_mode two_users 1000 1000 sddm plasma_lock off two_users-IsPolicy (omega arith)

set_mode-IsPolicy_example :
    IsPolicy (set_mode two_users 1001 sddm off).1
    × ((set_mode two_users 1001 sddm off).0 ≡ ok tt)
    × (◌≡◌ {A = ℕ} 1001 0 → (set_mode two_users 1001 sddm off).1 ≡ two_users)
set_mode-IsPolicy_example =
    set_mode-IsPolicy two_users 1001 sddm off two_users-IsPolicy (omega arith)
