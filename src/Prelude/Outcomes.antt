-- ===== src/Prelude/Outcomes.antt =====
-- The outcome of a Rust computation that may return an error, panic, or, in a loop on fuel, be
-- cut short: `stuck` is no Rust value, and the loops are proved never to give it.
use Prim.Native.Nat.{ℕ, zero, suc, ◌<◌}
use mathlib.Core.Path.{◌≡◌, refl}
use mathlib.Core.Bool.{Bool, true, false}
use mathlib.Core.Option.{Option, none, some}
use mathlib.Core.List.{List, [], ◌∷◌}
use native.Mathlib.Omega.{arith}
use loofi_face_id.Prelude.Tests.{if◌then◌else◌}
use loofi_face_id.Prelude.Lists.{length, get_elem?}

pub data Outcome {ℓ κ} (E : Type ℓ) (A : Type κ) : Type (ℓ ⊔ κ) where
  ok : A → Outcome E A
  err : E → Outcome E A
  panic : Outcome E A
  stuck : Outcome E A

-- The `?` operator: an error, a panic or a cut goes past the rest.
infixl 5 ◌>>=◌ ◌>>◌
abbrev pub ◌>>=◌ {ℓ κ μ} :
    {E : Type ℓ} {A : Type κ} {B : Type μ} → Outcome E A → (A → Outcome E B) → Outcome E B
outcome >>= rest = elim outcome [
  | ok value ↦ rest value
  | err why ↦ err why
  | panic ↦ panic
  | stuck ↦ stuck
]

abbrev pub ◌>>◌ {ℓ κ} : {E : Type ℓ} {B : Type κ} → Outcome E (Unit {0}) → Outcome E B → Outcome E B
check >> rest = check >>= λ _. rest

-- `if !test { return Err(e) }`
abbrev pub guard {ℓ} : {E : Type ℓ} → Bool → E → Outcome E (Unit {0})
guard test why = elim test [ true ↦ ok tt | false ↦ err why ]

-- `ok_or` and `map_err`
abbrev pub ok_or {ℓ κ} : {E : Type ℓ} {A : Type κ} → Option A → E → Outcome E A
ok_or none e = err e
ok_or (some a) e = ok a

-- `bytes[i]`: an index out of range panics.
abbrev pub unwrap_index {ℓ κ} : {E : Type ℓ} {A : Type κ} → Option A → Outcome E A
unwrap_index none = panic
unwrap_index (some a) = ok a

abbrev pub index {ℓ κ} : {E : Type ℓ} {A : Type κ} → List A → ℕ → Outcome E A
index xs i = unwrap_index (get_elem? xs i)

-- The code neither panics nor runs out of fuel.
abbrev pub IsAnswer {ℓ κ} : {E : Type ℓ} {A : Type κ} → Outcome E A → Type 0
IsAnswer (ok a) = Unit {0}
IsAnswer (err e) = Unit {0}
IsAnswer panic = ⊥
IsAnswer stuck = ⊥

-- A bind answers if its first part does and every continuation of a success does.
pub >>=-IsAnswer {ℓ κ μ} :
    {E : Type ℓ} {A : Type κ} {B : Type μ} (m : Outcome E A) (f : A → Outcome E B)
    → IsAnswer m
    → ((a : A) → m ≡ ok a → IsAnswer (f a))
    → IsAnswer (m >>= f)
>>=-IsAnswer (ok a) f h k = k a refl
>>=-IsAnswer (err e) f h k = tt
>>=-IsAnswer panic f h k = h
>>=-IsAnswer stuck f h k = h

pub index-lt {ℓ κ} :
    {E : Type ℓ} {A : Type κ} (xs : List A) (i : ℕ)
    → i < length xs
    → (a : A) × (index {E = E} xs i ≡ ok a)
index-lt [] i h = elim h [ ]
index-lt (x ∷ xs) zero h = (x, refl)
index-lt (x ∷ xs) (suc i) h = index-lt xs i (omega arith)

pub guard-IsAnswer {ℓ} : {E : Type ℓ} (b : Bool) (e : E) → IsAnswer (guard b e)
guard-IsAnswer true e = tt
guard-IsAnswer false e = tt

-- Total correctness: the code answers, and what it returns satisfies `Q`.
abbrev pub Ensures {ℓ κ} : {E : Type ℓ} {A : Type κ} → (A → Type 0) → Outcome E A → Type 0
Ensures Q (ok a) = Q a
Ensures Q (err e) = Unit {0}
Ensures Q panic = ⊥
Ensures Q stuck = ⊥

pub Ensures-IsAnswer {ℓ κ} :
    {E : Type ℓ} {A : Type κ} (Q : A → Type 0) (m : Outcome E A) → Ensures Q m → IsAnswer m
Ensures-IsAnswer Q (ok a) h = tt
Ensures-IsAnswer Q (err e) h = tt
Ensures-IsAnswer Q panic h = h
Ensures-IsAnswer Q stuck h = h

pub Ensures->>= {ℓ κ μ} :
    {E : Type ℓ} {A : Type κ} {B : Type μ} (P : A → Type 0) (Q : B → Type 0) (m : Outcome E A)
    (f : A → Outcome E B)
    → Ensures P m
    → ((a : A) → P a → Ensures Q (f a))
    → Ensures Q (m >>= f)
Ensures->>= P Q (ok a) f h k = k a h
Ensures->>= P Q (err e) f h k = tt
Ensures->>= P Q panic f h k = h
Ensures->>= P Q stuck f h k = h

pub Ensures-ok_or {ℓ κ} :
    {E : Type ℓ} {A : Type κ} (Q : A → Type 0) (o : Option A) (e : E)
    → ((a : A) → o ≡ some a → Q a)
    → Ensures Q (ok_or o e)
Ensures-ok_or Q none e h = tt
Ensures-ok_or Q (some a) e h = h a refl

-- A check: what follows may rely on its test.
pub Ensures-guard {ℓ κ} :
    {E : Type ℓ} {B : Type κ} (Q : B → Type 0) (b : Bool) (e : E) (m : Outcome E B)
    → (b ≡ true → Ensures Q m)
    → Ensures Q (guard b e >> m)
Ensures-guard Q true e m h = h refl
Ensures-guard Q false e m h = tt

pub Ensures-weaken {ℓ κ} :
    {E : Type ℓ} {A : Type κ} (P Q : A → Type 0) (m : Outcome E A)
    → Ensures P m
    → ((a : A) → P a → Q a)
    → Ensures Q m
Ensures-weaken P Q (ok a) h k = k a h
Ensures-weaken P Q (err e) h k = tt
Ensures-weaken P Q panic h k = h
Ensures-weaken P Q stuck h k = h

-- A branch: each side may rely on the test.
pub Ensures-if {ℓ κ} :
    {E : Type ℓ} {A : Type κ} (Q : A → Type 0) (b : Bool) (m n : Outcome E A)
    → (b ≡ true → Ensures Q m)
    → (b ≡ false → Ensures Q n)
    → Ensures Q (if b then m else n)
Ensures-if Q true m n h k = h refl
Ensures-if Q false m n h k = k refl
