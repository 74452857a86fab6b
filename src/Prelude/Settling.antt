-- ===== src/Prelude/Settling.antt =====
-- Total correctness with a claim about the errors too: the code returns a value that satisfies `Q`
-- or an error that satisfies `P`.
use Prim.Native.Nat.{ℕ, ◌<◌}
use mathlib.Core.Path.{◌≡◌, refl}
use mathlib.Core.Bool.{Bool, true, false}
use mathlib.Core.Option.{Option, none, some}
use mathlib.Core.List.{List}
use loofi_face_id.Prelude.Tests.{if◌then◌else◌}
use loofi_face_id.Prelude.Lists.{length}
use loofi_face_id.Prelude.Words.{index_be16, index_be32}
use loofi_face_id.Prelude.Outcomes.{
  Outcome, ok, err, panic, stuck, ◌>>=◌, ◌>>◌, guard, ok_or, index, index-lt,
}

abbrev pub Settles {ℓ κ} :
    {E : Type ℓ} {A : Type κ} → (E → Type 0) → (A → Type 0) → Outcome E A → Type 0
Settles P Q (ok a) = Q a
Settles P Q (err e) = P e
Settles P Q panic = ⊥
Settles P Q stuck = ⊥

pub Settles->>= {ℓ κ μ} :
    {E : Type ℓ} {A : Type κ} {B : Type μ} (P : E → Type 0) (R : A → Type 0) (Q : B → Type 0)
    (m : Outcome E A) (f : A → Outcome E B)
    → Settles P R m
    → ((a : A) → R a → Settles P Q (f a))
    → Settles P Q (m >>= f)
Settles->>= P R Q (ok a) f h k = k a h
Settles->>= P R Q (err e) f h k = h
Settles->>= P R Q panic f h k = h
Settles->>= P R Q stuck f h k = h

pub Settles-guard {ℓ κ} :
    {E : Type ℓ} {B : Type κ} (P : E → Type 0) (Q : B → Type 0) (b : Bool) (e : E) (m : Outcome E B)
    → P e
    → (b ≡ true → Settles P Q m)
    → Settles P Q (guard b e >> m)
Settles-guard P Q true e m p h = h refl
Settles-guard P Q false e m p h = p

pub Settles-ok_or {ℓ κ μ} :
    {E : Type ℓ} {A : Type κ} {B : Type μ} (P : E → Type 0) (Q : B → Type 0) (o : Option A) (e : E)
    (f : A → Outcome E B)
    → P e
    → ((a : A) → o ≡ some a → Settles P Q (f a))
    → Settles P Q (ok_or o e >>= f)
Settles-ok_or P Q none e f p h = p
Settles-ok_or P Q (some a) e f p h = h a refl

pub Settles-weaken {ℓ κ} :
    {E : Type ℓ} {A : Type κ} (P : E → Type 0) {R : A → Type 0} (Q : A → Type 0) (m : Outcome E A)
    → Settles P R m
    → ((a : A) → R a → Q a)
    → Settles P Q m
Settles-weaken P Q (ok a) h k = k a h
Settles-weaken P Q (err e) h k = h
Settles-weaken P Q panic h k = h
Settles-weaken P Q stuck h k = h

pub Settles-if {ℓ κ} :
    {E : Type ℓ} {A : Type κ} (P : E → Type 0) (Q : A → Type 0) (b : Bool) (m n : Outcome E A)
    → (b ≡ true → Settles P Q m)
    → (b ≡ false → Settles P Q n)
    → Settles P Q (if b then m else n)
Settles-if P Q true m n h k = h refl
Settles-if P Q false m n h k = k refl

-- A read at an index in range.
pub Settles-index {ℓ κ} :
    {E : Type ℓ} {B : Type κ} (P : E → Type 0) (Q : B → Type 0) (xs : List ℕ) (i : ℕ)
    (f : ℕ → Outcome E B)
    → i < length xs
    → ((a : ℕ) → Settles P Q (f a))
    → Settles P Q (index xs i >>= f)
Settles-index {E = E} P Q xs i f h k = let (a, e) = index-lt {E = E} xs i h in rw e (k a)

pub Settles-index_be16 {ℓ κ} :
    {E : Type ℓ} {B : Type κ} (P : E → Type 0) (Q : B → Type 0) (xs : List ℕ) (i j : ℕ)
    (f : ℕ → Outcome E B)
    → i < length xs
    → j < length xs
    → ((a : ℕ) → Settles P Q (f a))
    → Settles P Q (index_be16 xs i j >>= f)
Settles-index_be16 {E = E} P Q xs i j f h h' k =
    let (a, e) = index-lt {E = E} xs i h in
    let (b, e') = index-lt {E = E} xs j h' in rw (e, e') (k _)

pub Settles-index_be32 {ℓ κ} :
    {E : Type ℓ} {B : Type κ} (P : E → Type 0) (Q : B → Type 0) (xs : List ℕ) (i j k l : ℕ)
    (f : ℕ → Outcome E B)
    → i < length xs
    → j < length xs
    → k < length xs
    → l < length xs
    → ((a : ℕ) → Settles P Q (f a))
    → Settles P Q (index_be32 xs i j k l >>= f)
Settles-index_be32 {E = E} P Q xs i j k l f hi hj hk hl next =
    let (a, e) = index-lt {E = E} xs i hi in
    let (b, e') = index-lt {E = E} xs j hj in
    let (c, e'') = index-lt {E = E} xs k hk in
    let (d, e''') = index-lt {E = E} xs l hl in rw (e, e', e'', e''') (next _)
