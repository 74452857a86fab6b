-- ===== src/BTreeMap.antt =====
-- The standard library's `BTreeMap`, as the list of its entries in the order of the keys. `rank`
-- gives the order: `k` comes before `j` when `rank k < rank j`.
pub mod Laws
use loofi_face_id.Prelude.{
  ℕ, ◌<◌, ◌≡◌, Bool, List, [], ◌∷◌, Option, none, some, All, ltb, ◌==◌, if◌then◌else◌,
}

module _ {ℓ κ} {K : Type ℓ} {V : Type κ} (rank : K → ℕ) where
  abbrev pub get : K → List (K × V) → Option V
  get k [] = none
  get k ((j, v) ∷ m) = if rank j == rank k then some v else get k m

  abbrev pub insert : K → V → List (K × V) → List (K × V)
  insert k v [] = (k, v) ∷ []
  insert k v ((j, w) ∷ m) =
      if ltb (rank k) (rank j)
      then (k, v) ∷ (j, w) ∷ m
      else if rank j == rank k
      then (k, v) ∷ m
      else (j, w) ∷ insert k v m

  abbrev pub remove : K → List (K × V) → List (K × V)
  remove k [] = []
  remove k ((j, w) ∷ m) = if rank j == rank k then m else (j, w) ∷ remove k m

  -- Every key comes behind `k`.
  abbrev pub IsAbove : K → List (K × V) → Type 0
  IsAbove k [] = Unit {0}
  IsAbove k ((j, w) ∷ m) = (rank k < rank j) × IsAbove k m

  -- Every key comes before `k`.
  abbrev pub IsBelow : K → List (K × V) → Type 0
  IsBelow k [] = Unit {0}
  IsBelow k ((j, w) ∷ m) = (rank j < rank k) × IsBelow k m

  abbrev pub IsSorted : List (K × V) → Type 0
  IsSorted [] = Unit {0}
  IsSorted ((k, v) ∷ m) = IsAbove k m × IsSorted m

  -- Every key of the second table comes behind every key of the first.
  abbrev pub AreBelow : List (K × V) → List (K × V) → Type 0
  AreBelow acc [] = Unit {0}
  AreBelow acc ((k, v) ∷ m) = IsBelow k acc × AreBelow acc m
