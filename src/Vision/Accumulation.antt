-- ===== src/Vision/Accumulation.antt =====
-- engine/vision/src/lib.rs: what is accumulated pixel by pixel comes to what an image's lumas and
-- the differences of neighbours measure.
use Prim.Native.Nat.{max}
use native.Mathlib.Nat.{div-lt_iff_lt-mul}
use loofi_face_id.Prelude.{
  ℕ, suc, ◌+◌, ◌*◌, ◌^◌, ◌≤◌, ◌<◌, ◌≡◌, List, [], ◌∷◌, ◌++◌, Option, none, some, arith, All, IsByte,
  length, length-append, min,
}
use loofi_face_id.Vision.Quality.{Lumas, abs_diff, add_luma}
use loofi_face_id.Vision.Measures.{steps_from, total, least, greatest, mean}

-- What comes to the accumulated numbers with the lumas and the differences.
pub record Adds (lumas steps : List ℕ) (before after : Lumas) : Type 0 where
  pub sum : after.sum ≡ before.sum + total lumas
  pub minimum : after.minimum ≡ min before.minimum (least lumas)
  pub maximum : after.maximum ≡ max before.maximum (greatest lumas)
  pub difference_sum : after.difference_sum ≡ before.difference_sum + total steps
  pub difference_count : after.difference_count ≡ before.difference_count + length steps

-- There is room for `count` more pixels.
pub record HasRoom (m : Lumas) (count : ℕ) : Type 0 where
  pub sum : m.sum + 255 * count < 2 ^ 64
  pub minimum : m.minimum ≤ 255
  pub difference_sum : m.difference_sum + 255 * count < 2 ^ 64
  pub difference_count : m.difference_count + count < 2 ^ 64

-- The numbers after a row's lumas.
unfoldable pub measure : Option ℕ → Lumas → List ℕ → Lumas
unfolding add_luma
measure previous m [] = m
measure previous m (luma ∷ lumas) = measure (some luma) (add_luma m previous luma) lumas

pub HasRoom-le : (m : Lumas) (more fewer : ℕ) → HasRoom m more → fewer ≤ more → HasRoom m fewer
HasRoom-le m more fewer room h = record {
  sum = omega (arith, room.sum, h);
  minimum = room.minimum;
  difference_sum = omega (arith, room.difference_sum, h);
  difference_count = omega (arith, room.difference_count, h);
}

abbrev pub IsPrevious : Option ℕ → Type 0
IsPrevious none = Unit {0}
IsPrevious (some previous) = IsByte previous

abs_diff_le : (a b : ℕ) → IsByte a → IsByte b → abs_diff a b ≤ 255
abs_diff_le a b ha hb = ground arith

-- A pixel leaves room for the others.
HasRoom-add_luma :
    (previous : Option ℕ) (m : Lumas) (luma count : ℕ)
    → IsPrevious previous
    → IsByte luma
    → HasRoom m (suc count)
    → HasRoom (add_luma m previous luma) count
unfolding add_luma
HasRoom-add_luma none m luma count p h room = record {
  sum = omega (arith, room.sum);
  minimum = omega (arith, room.minimum);
  difference_sum = omega (arith, room.difference_sum);
  difference_count = omega (arith, room.difference_count);
}
HasRoom-add_luma (some previous) m luma count p h room = record {
  sum = omega (arith, room.sum);
  minimum = omega (arith, room.minimum);
  difference_sum = omega (arith, room.difference_sum, abs_diff_le luma previous h p);
  difference_count = omega (arith, room.difference_count);
}

pub Adds-nothing : (m : Lumas) → m.minimum ≤ 255 → Adds [] [] m m
Adds-nothing m h = record {
  sum = omega arith;
  minimum = omega arith;
  maximum = omega arith;
  difference_sum = omega arith;
  difference_count = omega arith;
}

pub Adds-measure :
    (previous : Option ℕ) (m : Lumas) (lumas : List ℕ)
    → IsPrevious previous
    → All IsByte lumas
    → HasRoom m (length lumas)
    → Adds lumas (steps_from previous lumas) m (measure previous m lumas)
unfolding measure steps_from add_luma
Adds-measure none m [] p h room = Adds-nothing m room.minimum
Adds-measure (some previous) m [] p h room = Adds-nothing m room.minimum
Adds-measure none m (luma ∷ lumas) p h room =
    let next = add_luma m none luma in
    let rest =
      Adds-measure (some luma) next lumas h.0 h.1
        (HasRoom-add_luma none m luma (length lumas) tt h.0 room) in
    record {
      sum = omega (arith, rest.sum, room.sum, h.0);
      minimum = omega (arith, rest.minimum);
      maximum = omega (arith, rest.maximum);
      difference_sum = rest.difference_sum;
      difference_count = rest.difference_count;
    }
Adds-measure (some previous) m (luma ∷ lumas) p h room =
    let next = add_luma m (some previous) luma in
    let rest =
      Adds-measure (some luma) next lumas h.0 h.1
        (HasRoom-add_luma (some previous) m luma (length lumas) p h.0 room) in
    let step = abs_diff_le luma previous h.0 p in
    record {
      sum = omega (arith, rest.sum, room.sum, h.0);
      minimum = omega (arith, rest.minimum);
      maximum = omega (arith, rest.maximum);
      difference_sum = omega (arith, rest.difference_sum, room.difference_sum, step);
      difference_count = omega (arith, rest.difference_count, room.difference_count);
    }

total-append : (ms ns : List ℕ) → total (ms ++ ns) ≡ total ms + total ns
total-append [] ns = omega arith
total-append (m ∷ ms) ns = omega (arith, total-append ms ns)

pub least_le : (ns : List ℕ) → least ns ≤ 255
least_le [] = omega arith
least_le (n ∷ ns) = omega (arith, least_le ns)

least-append : (ms ns : List ℕ) → least (ms ++ ns) ≡ min (least ms) (least ns)
least-append [] ns = omega (arith, least_le ns)
least-append (m ∷ ms) ns = omega (arith, least-append ms ns)

pub greatest_le : (ns : List ℕ) → All IsByte ns → greatest ns ≤ 255
greatest_le [] h = omega arith
greatest_le (n ∷ ns) h = omega (arith, h.0, greatest_le ns h.1)

pub least_le_greatest : (n : ℕ) (ns : List ℕ) → least (n ∷ ns) ≤ greatest (n ∷ ns)
least_le_greatest n ns = omega arith

greatest-append : (ms ns : List ℕ) → greatest (ms ++ ns) ≡ max (greatest ms) (greatest ns)
greatest-append [] ns = omega arith
greatest-append (m ∷ ms) ns = omega (arith, greatest-append ms ns)

-- What two parts add comes together.
pub Adds-append :
    (lumas lumas' steps steps' : List ℕ) (a b c : Lumas)
    → Adds lumas steps a b
    → Adds lumas' steps' b c
    → Adds (lumas ++ lumas') (steps ++ steps') a c
Adds-append lumas lumas' steps steps' a b c h h' = record {
  sum = omega (arith, h.sum, h'.sum, total-append lumas lumas');
  minimum = omega (arith, h.minimum, h'.minimum, least-append lumas lumas');
  maximum = omega (arith, h.maximum, h'.maximum, greatest-append lumas lumas');
  difference_sum = omega (arith, h.difference_sum, h'.difference_sum, total-append steps steps');
  difference_count =
      omega (arith, h.difference_count, h'.difference_count, length-append steps steps');
}

total_le : (ns : List ℕ) → All IsByte ns → total ns ≤ 255 * length ns
total_le [] h = omega arith
total_le (n ∷ ns) h = omega (arith, h.0, total_le ns h.1)

length-steps_from :
    (previous : Option ℕ) (lumas : List ℕ) → length (steps_from previous lumas) ≤ length lumas
unfolding steps_from
length-steps_from none [] = omega arith
length-steps_from none (luma ∷ lumas) = omega (arith, length-steps_from (some luma) lumas)
length-steps_from (some previous) [] = omega arith
length-steps_from (some previous) (luma ∷ lumas) =
    omega (arith, length-steps_from (some luma) lumas)

pub steps_from-IsByte :
    (previous : Option ℕ) (lumas : List ℕ)
    → IsPrevious previous
    → All IsByte lumas
    → All IsByte (steps_from previous lumas)
unfolding steps_from
steps_from-IsByte none [] p h = tt
steps_from-IsByte none (luma ∷ lumas) p h = steps_from-IsByte (some luma) lumas h.0 h.1
steps_from-IsByte (some previous) [] p h = tt
steps_from-IsByte (some previous) (luma ∷ lumas) p h =
    (omega (arith, abs_diff_le luma previous h.0 p), steps_from-IsByte (some luma) lumas h.0 h.1)

-- What the pixels of a row take of the room.
pub HasRoom-measure :
    (m : Lumas) (lumas : List ℕ) (count : ℕ)
    → All IsByte lumas
    → HasRoom m (length lumas + count)
    → HasRoom (measure none m lumas) count
HasRoom-measure m lumas count h room =
    let adds = Adds-measure none m lumas tt h (record {
      sum = omega (arith, room.sum);
      minimum = room.minimum;
      difference_sum = omega (arith, room.difference_sum);
      difference_count = omega (arith, room.difference_count);
    }) in
    let steps = steps_from none lumas in
    let few = length-steps_from none lumas in
    record {
      sum = omega (arith, room.sum, adds.sum, total_le lumas h);
      minimum = omega (arith, room.minimum, adds.minimum);
      difference_sum = omega (
        arith,
        room.difference_sum,
        adds.difference_sum,
        total_le steps (steps_from-IsByte none lumas tt h),
        few,
      );
      difference_count = omega (arith, room.difference_count, adds.difference_count, few);
    }

-- A mean of bytes is a byte.
pub mean-IsByte : (ns : List ℕ) → All IsByte ns → IsByte (mean ns)
mean-IsByte [] h = omega arith
mean-IsByte (n ∷ ns) h =
    let small = total_le (n ∷ ns) h in
    (div-lt_iff_lt-mul {k = suc (length ns)} (omega arith)).1 (omega (arith, small))
