-- ===== src/BTreeMap/Laws.antt =====
-- What lookups see after a write, and that writes keep the entries in order.
use loofi_face_id.Prelude.{
  ℕ, ◌<◌, ◌≡◌, refl, arith, List, [], ◌∷◌, ◌++◌, none, some, ◌==◌, if◌then◌else◌,
}
use loofi_face_id.BTreeMap.{get, insert, remove, IsAbove, IsBelow, IsSorted, AreBelow}

module _ {ℓ κ} {K : Type ℓ} {V : Type κ} (rank : K → ℕ) where
  pub get-insert :
      (k j : K) (v : V) (m : List (K × V))
      → get rank j (insert rank k v m) ≡ (if rank k == rank j then some v else get rank j m)
  get-insert k j v [] = refl
  get-insert k j v ((i, w) ∷ m) = ground (arith, get-insert k j v m)

  pub get_above : (k : K) (m : List (K × V)) → IsAbove rank k m → get rank k m ≡ none
  get_above k [] h = refl
  get_above k ((j, w) ∷ m) h = ground (arith, get_above k m h.1)

  pub get_below : (k : K) (m : List (K × V)) → IsBelow rank k m → get rank k m ≡ none
  get_below k [] h = refl
  get_below k ((j, w) ∷ m) h = ground (arith, get_below k m h.1)

  IsAbove-of_eq :
      (k j : K) (m : List (K × V)) → rank k ≡ rank j → IsAbove rank k m → IsAbove rank j m
  IsAbove-of_eq k j [] e h = tt
  IsAbove-of_eq k j ((i, w) ∷ m) e h = (omega arith, IsAbove-of_eq k j m e h.1)

  pub IsAbove-of_lt :
      (k j : K) (m : List (K × V)) → rank k < rank j → IsAbove rank j m → IsAbove rank k m
  IsAbove-of_lt k j [] e h = tt
  IsAbove-of_lt k j ((i, w) ∷ m) e h = (omega arith, IsAbove-of_lt k j m e h.1)

  pub get-remove :
      (k j : K) (m : List (K × V))
      → IsSorted rank m
      → get rank j (remove rank k m) ≡ (if rank k == rank j then none else get rank j m)
  get-remove k j [] h = ground arith
  get-remove k j ((i, w) ∷ m) h = ground (
    arith,
    get-remove k j m h.1,
    λ (e : rank i ≡ rank j). get_above j m (IsAbove-of_eq i j m e h.0),
  )

  insert-IsAbove :
      (i k : K) (v : V) (m : List (K × V))
      → rank i < rank k
      → IsAbove rank i m
      → IsAbove rank i (insert rank k v m)
  insert-IsAbove i k v [] e h = (e, tt)
  insert-IsAbove i k v ((j, w) ∷ m) e h = ground (arith, insert-IsAbove i k v m e h.1)

  pub insert-IsSorted :
      (k : K) (v : V) (m : List (K × V)) → IsSorted rank m → IsSorted rank (insert rank k v m)
  insert-IsSorted k v [] h = (tt, tt)
  insert-IsSorted k v ((j, w) ∷ m) h = ground (
    arith,
    insert-IsSorted k v m h.1,
    λ (e : rank j < rank k). insert-IsAbove j k v m e h.0,
    λ (e : rank j ≡ rank k). IsAbove-of_eq j k m e h.0,
    λ (e : rank k < rank j). IsAbove-of_lt k j m e h.0,
  )

  remove-IsAbove :
      (i k : K) (m : List (K × V)) → IsAbove rank i m → IsAbove rank i (remove rank k m)
  remove-IsAbove i k [] h = tt
  remove-IsAbove i k ((j, w) ∷ m) h = ground (arith, remove-IsAbove i k m h.1)

  pub remove-IsSorted :
      (k : K) (m : List (K × V)) → IsSorted rank m → IsSorted rank (remove rank k m)
  remove-IsSorted k [] h = tt
  remove-IsSorted k ((j, w) ∷ m) h =
      ground (arith, remove-IsSorted k m h.1, remove-IsAbove j k m h.0)

  -- A key behind all the others goes to the end.
  pub insert_below :
      (k : K) (v : V) (m : List (K × V)) → IsBelow rank k m → insert rank k v m ≡ m ++ ((k, v) ∷ [])
  insert_below k v [] h = refl
  insert_below k v ((j, w) ∷ m) h = ground (arith, insert_below k v m h.1)

  IsBelow-append :
      (k j : K) (v : V) (m : List (K × V))
      → IsBelow rank k m
      → rank j < rank k
      → IsBelow rank k (m ++ ((j, v) ∷ []))
  IsBelow-append k j v [] h e = (e, tt)
  IsBelow-append k j v ((i, w) ∷ m) h e = (h.0, IsBelow-append k j v m h.1 e)

  pub below_step :
      (j : K) (v : V) (acc m : List (K × V))
      → IsAbove rank j m
      → AreBelow rank acc m
      → AreBelow rank (acc ++ ((j, v) ∷ [])) m
  below_step j v acc [] h b = tt
  below_step j v acc ((k, w) ∷ m) h b =
      (IsBelow-append k j v acc b.0 h.0, below_step j v acc m h.1 b.1)

  pub below_nil : (m : List (K × V)) → AreBelow rank [] m
  below_nil [] = tt
  below_nil ((k, v) ∷ m) = (tt, below_nil m)
