-- ===== src/AuthPolicy/RoundTrip/Targets.antt =====
-- engine/templates/src/auth_policy.rs: the targets of one user, written and read back.
use loofi_face_id.Prelude.{
  ℕ, zero, suc, ◌≤◌, ◌<◌, ◌≡◌, refl, sym, ap, ◌∙◌, arith, Bool, true, false, List, [], ◌∷◌, ◌++◌,
  none, append_assoc, append-nil, All, ◌==◌, length, length-append, ok, ascii, ne→==_false,
}
use loofi_face_id.BTreeMap.{get, insert, IsSorted, AreBelow}
use loofi_face_id.BTreeMap.Laws.{get_below, insert_below, below_step, below_nil}
use loofi_face_id.AuthPolicy.Table.{
  AuthTarget, AuthPolicyMode, sddm, plasma_lock, off, on_activity, manual, key, as_str, Targets,
  target_rank, is_off, IsEnabled, IsTargets,
}
use loofi_face_id.AuthPolicy.Json.{targets_json, comma}
use loofi_face_id.AuthPolicy.Decimal.{IsDigit}
use loofi_face_id.AuthPolicy.Parser.{
  consume, skip_whitespace, string, string_body, separator, store_target, target_entry,
  targets_loop, parse_targets,
}

string_body-digits :
    (text rest : List ℕ) → All IsDigit text → string_body (text ++ (b'"' ∷ rest)) ≡ ok (text, rest)
unfolding string_body
string_body-digits [] rest h = refl
string_body-digits (b ∷ s) rest h = rw (string_body-digits s rest h.1) (ground arith)

-- A text of digits in quotes.
pub string-digits :
    (text rest : List ℕ)
    → All IsDigit text
    → string (b'"' ∷ (text ++ (b'"' ∷ rest))) ≡ ok (text, rest)
unfolding string
string-digits text rest h = string_body-digits text rest h

-- One target as `to_json` writes it.
abbrev target_text : AuthTarget → AuthPolicyMode → List ℕ → List ℕ
target_text t m tail = b'"' ∷ (key t ++ (ascii "\":\"" ++ (as_str m ++ (b'"' ∷ tail))))

target_entry-text :
    (t : AuthTarget) (m : AuthPolicyMode) (acc : Targets) (tail : List ℕ)
    → is_off m ≡ false
    → get target_rank t acc ≡ none
    → target_entry acc (target_text t m tail) ≡ ok (insert target_rank t m acc, tail)
unfolding target_entry key as_str
target_entry-text t off acc tail h e = cc
target_entry-text sddm on_activity acc tail h e = rw (e, store_target)
target_entry-text sddm manual acc tail h e = rw (e, store_target)
target_entry-text plasma_lock on_activity acc tail h e = rw (e, store_target)
target_entry-text plasma_lock manual acc tail h e = rw (e, store_target)

targets_json-append :
    (i : ℕ) (t : AuthTarget) (m : AuthPolicyMode) (ts : Targets) (tail : List ℕ)
    → targets_json i ((t, m) ∷ ts) ++ tail
      ≡ comma i ++ target_text t m (targets_json (suc i) ts ++ tail)
unfolding targets_json
targets_json-append i t m ts tail = simp append_assoc

targets_loop_end :
    (fuel : ℕ) (first : Bool) (acc : Targets) (rest : List ℕ)
    → targets_loop (suc fuel) first acc (b'}' ∷ rest) ≡ ok (acc, rest)
unfolding targets_loop consume skip_whitespace
targets_loop_end fuel first acc rest = refl

-- One round, with the comma that `to_json` writes before every target but the first.
targets_loop_round :
    (fuel i : ℕ) (first : Bool) (acc acc' : Targets) (s rest : List ℕ)
    → (i == 0) ≡ first
    → target_entry acc (b'"' ∷ s) ≡ ok (acc', rest)
    → targets_loop (suc fuel) first acc (comma i ++ (b'"' ∷ s)) ≡ targets_loop fuel false acc' rest
unfolding targets_loop consume skip_whitespace separator
targets_loop_round fuel i true acc acc' s rest f e = rw (f, e)
targets_loop_round fuel i false acc acc' s rest f e = rw (f, e)

-- The loop reads the targets that are left, after those in `acc`.
targets_loop-targets_json :
    (fuel i : ℕ) (first : Bool) (acc ts : Targets) (rest : List ℕ)
    → length ts < fuel
    → (i == 0) ≡ first
    → IsSorted target_rank ts
    → IsEnabled ts
    → AreBelow target_rank acc ts
    → targets_loop fuel first acc (targets_json i ts ++ (b'}' ∷ rest)) ≡ ok (acc ++ ts, rest)
targets_loop-targets_json zero i first acc ts rest n f s e b = absurd (omega arith)
targets_loop-targets_json (suc fuel) i first acc [] rest n f s e b =
    unfold targets_json in
    targets_loop_end fuel first acc rest ∙ ap (λ t. ok (t, rest)) (sym (append-nil acc))
targets_loop-targets_json (suc fuel) i first acc ((t, m) ∷ ts) rest n f s e b =
    rw (targets_json-append i t m ts (b'}' ∷ rest)) (
      targets_loop_round fuel i first acc _ _ _ f
        (target_entry-text t m acc _ e.0 (get_below target_rank t acc b.0))
      ∙ ap (λ a. targets_loop fuel false a (targets_json (suc i) ts ++ (b'}' ∷ rest)))
          (insert_below target_rank t m acc b.0)
      ∙ targets_loop-targets_json fuel (suc i) false (acc ++ ((t, m) ∷ [])) ts rest (omega arith)
          (ne→==_false (suc i) 0 (omega arith)) s.1 e.1 (below_step target_rank t m acc ts s.0 b.1)
      ∙ ap (λ a. ok (a, rest)) (append_assoc acc ((t, m) ∷ []) ts))

-- Each entry has a character at least, so that the loops have fuel enough.
length-targets_json : (i : ℕ) (ts : Targets) → length ts ≤ length (targets_json i ts)
unfolding targets_json
length-targets_json i [] = omega arith
length-targets_json i ((t, m) ∷ ts) =
    omega (arith, length-append {0}, length-targets_json (suc i) ts)

pub parse_targets-targets_json :
    (ts : Targets) (rest : List ℕ)
    → IsTargets ts
    → parse_targets (b'{' ∷ (targets_json 0 ts ++ (b'}' ∷ rest))) ≡ ok (ts, rest)
unfolding parse_targets
parse_targets-targets_json ts rest h =
    targets_loop-targets_json (suc (length (targets_json 0 ts ++ (b'}' ∷ rest)))) 0 true [] ts rest
      (omega (arith, length-targets_json 0 ts, length-append (targets_json 0 ts) (b'}' ∷ rest)))
      refl h.sorted h.enabled (below_nil target_rank ts)
