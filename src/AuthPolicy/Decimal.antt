-- ===== src/AuthPolicy/Decimal.antt =====
-- engine/templates/src/auth_policy.rs: the decimal text of a uid, and its reading.
use loofi_face_id.Prelude.{
  ℕ, zero, suc, ◌+◌, ◌-◌, ◌*◌, ◌/◌, ◌%◌, ◌^◌, ◌≤◌, ◌<◌, ◌≡◌, refl, ap, ◌∙◌, arith, List, [], ◌∷◌,
  ◌++◌, some, append_assoc, append-nil, All, All-append, IsU32, ltb, sym, Bool-cases, inl, inr,
  ltb→lt, ne→==_false,
}
use native.Mathlib.Nat.{pow-suc}
use loofi_face_id.AuthPolicy.Json.{digits, to_string}
use loofi_face_id.AuthPolicy.Parser.{u32_digits, parse_u32}

abbrev pub IsDigit : ℕ → Type 0
IsDigit b = (b'0' ≤ b) × (b ≤ b'9')

digits-IsDigit : (k n : ℕ) → All IsDigit (digits k n)
unfolding digits
digits-IsDigit zero n = omega arith
digits-IsDigit (suc k) n = ground (
  arith,
  All-append IsDigit (digits k (n / 10)) ((b'0' + n % 10) ∷ []) (digits-IsDigit k (n / 10))
      (omega arith),
)

pub to_string-IsDigit : (n : ℕ) → All IsDigit (to_string n)
to_string-IsDigit n = digits-IsDigit 9 n

u32_digits_step :
    (acc d : ℕ) (ys : List ℕ)
    → d < 10
    → acc * 10 + d < 2 ^ 32
    → u32_digits acc ((b'0' + d) ∷ ys) ≡ u32_digits (acc * 10 + d) ys
unfolding u32_digits
u32_digits_step acc d ys h w = let e : b'0' + d - b'0' ≡ d = omega arith in rw e (ground arith)

tenth_below : (k n : ℕ) → n < 10 ^ suc (suc k) → n / 10 < 10 ^ suc k
tenth_below k n h = omega (arith, pow-suc 10 (suc k))

u32_digits-digits :
    (k n : ℕ) (ys : List ℕ)
    → n < 10 ^ suc k
    → n < 2 ^ 32
    → u32_digits 0 (digits k n ++ ys) ≡ u32_digits n ys
unfolding digits
u32_digits-digits zero n ys h w =
    let e : n % 10 ≡ n = omega arith in
    rw e
      (u32_digits_step 0 n ys (omega arith) (omega arith) ∙ ap (λ t. u32_digits t ys) (omega arith))
u32_digits-digits (suc k) n ys h w = elim (Bool-cases (ltb n 10)) [
  | inl small ↦ rw small (
      u32_digits_step 0 n ys (ltb→lt n 10 small) (omega arith)
      ∙ ap (λ t. u32_digits t ys) (omega arith))
  | inr large ↦
      let d : List ℕ = (b'0' + n % 10) ∷ [] in
      rw large (
        ap (u32_digits 0) (append_assoc (digits k (n / 10)) d ys)
        ∙ u32_digits-digits k (n / 10) (d ++ ys) (tenth_below k n h) (omega arith)
        ∙ u32_digits_step (n / 10) (n % 10) ys (omega arith) (omega arith)
        ∙ ap (λ t. u32_digits t ys) (omega arith))
]

digits_head : (k n : ℕ) → (b : ℕ) × (s : List ℕ) × (digits k n ≡ b ∷ s)
unfolding digits
digits_head zero n = (b'0' + n % 10, [], refl)
digits_head (suc k) n = elim (Bool-cases (ltb n 10)) [
  | inl small ↦ (b'0' + n, [], rw small)
  | inr large ↦
      let (b, s, e) = digits_head k (n / 10) in (b, s ++ ((b'0' + n % 10) ∷ []), rw (large, e))
]

-- Text that starts with a digit has no sign.
parse_u32_unsigned : (b : ℕ) (s : List ℕ) → IsDigit b → parse_u32 (b ∷ s) ≡ u32_digits 0 (b ∷ s)
unfolding parse_u32
parse_u32_unsigned b [] h = refl
parse_u32_unsigned b (c ∷ s) h = rw (ne→==_false b b'+' (omega arith))

-- A uid is read back from its decimal text.
pub parse_u32-to_string : (n : ℕ) → IsU32 n → parse_u32 (to_string n) ≡ some n
parse_u32-to_string n h =
    let (b, s, e) = digits_head 9 n in
    let d : IsDigit b = (rw e at (to_string-IsDigit n)).0 in
    rw e (parse_u32_unsigned b s d)
    ∙ ap (u32_digits 0) (sym (append-nil (digits 9 n) ∙ e))
    ∙ u32_digits-digits 9 n [] (omega arith) h
    ∙ unfold u32_digits in refl
