-- ===== src/Vision/Grading.antt =====
-- engine/vision/src/lib.rs: `calculate_quality` ends on every image, and comes to the quality that
-- the image's lumas have.
use loofi_face_id.Prelude.{
  ℕ, All-append, expect_u8_small, zero, suc, ◌+◌, ◌-◌, ◌*◌, ◌%◌, ◌≤◌, ◌<◌, ◌≡◌, refl, sym, Bool,
  true, false, ◌&&◌, List, [], ◌∷◌, none, arith, All, IsByte, length, length-append, ok, Settles,
  Settles->>=, ne→==_false, ltb,
}
use native.Mathlib.Nat.{mul-le-mul, mul-pos}
use loofi_face_id.Vision.Image.{ImageView, ProcessingControl, QualityMetrics}
use loofi_face_id.Vision.Parsing.{IsImage}
use loofi_face_id.Vision.Response.{has_bad_flags}
use loofi_face_id.Vision.Quality.{
  Lumas, no_lumas, set_flag, flags_of, sharpness_of, grade, scan_rows, calculate_quality,
}
use loofi_face_id.Vision.Measures.{
  row_lumas, image_lumas, joined, joined_steps, steps_from, total, least, greatest, mean,
  quality_of,
}
use loofi_face_id.Vision.Accumulation.{
  Adds, HasRoom, steps_from-IsByte, mean-IsByte, least_le, greatest_le, least_le_greatest,
}
use loofi_face_id.Vision.Scanning.{
  row_lumas-IsByte, length-row_lumas, AreRows, IsCheckError, Settles-check_control, scan_rows-Adds,
}

joined-IsByte :
    (image : ImageView) (y count : ℕ)
    → All IsByte image.bytes
    → let rows = image_lumas image y count in
      All IsByte (joined rows) × All IsByte (joined_steps rows)
unfolding image_lumas
joined-IsByte image y zero h = (tt, tt)
joined-IsByte image y (suc count) h =
    let row = row_lumas image (y * image.stride) 0 image.width in
    let first = row_lumas-IsByte image (y * image.stride) 0 image.width h in
    let (lumas, steps) = joined-IsByte image (y + 1) count h in
    (
      All-append IsByte row _ first lumas,
      All-append IsByte (steps_from none row) _ (steps_from-IsByte none row tt first) steps,
    )

length-joined :
    (image : ImageView) (y count : ℕ)
    → length (joined (image_lumas image y count)) ≡ image.width * count
unfolding image_lumas
length-joined image y zero = omega arith
length-joined image y (suc count) =
    let row = row_lumas image (y * image.stride) 0 image.width in
    let rest = joined (image_lumas image (y + 1) count) in
    omega (
      arith,
      length-append row rest,
      length-row_lumas image (y * image.stride) 0 image.width,
      length-joined image (y + 1) count,
    )

sharpness_of-mean :
    {E : Type 0} (m : Lumas) (steps : List ℕ)
    → All IsByte steps
    → m.difference_sum ≡ total steps
    → m.difference_count ≡ length steps
    → sharpness_of {E = E} m ≡ ok (mean steps)
sharpness_of-mean m [] h sum count = rw count refl
sharpness_of-mean m (step ∷ steps) h sum count =
    rw (count, sum, ne→==_false (suc (length steps)) 0 (omega arith))
      (expect_u8_small (mean (step ∷ steps)) (mean-IsByte (step ∷ steps) h))

grade-mean :
    {E : Type 0} (image : ImageView) (lumas steps : List ℕ) (m : Lumas)
    → length lumas ≡ image.width * image.height
    → 0 < length lumas
    → All IsByte lumas
    → All IsByte steps
    → Adds lumas steps no_lumas m
    → let brightness = mean lumas in
      let contrast = greatest lumas - least lumas in
      let sharpness = mean steps in
      grade {E = E} image m
      ≡ ok (record {
        brightness = brightness;
        contrast = contrast;
        sharpness = sharpness;
        flags = flags_of brightness contrast sharpness;
      })
unfolding grade
grade-mean image [] steps m size some_pixel bytes steps_bytes adds = absurd (omega arith)
grade-mean {E = E} image (luma ∷ lumas) steps m size some_pixel bytes steps_bytes adds =
    let all = luma ∷ lumas in
    let contrast : (m.maximum + 256 - m.minimum) % 256 ≡ greatest all - least all = omega (
      arith,
      adds.minimum,
      adds.maximum,
      greatest_le all bytes,
      least_le_greatest luma lumas,
      least_le all,
    ) in
    let sum : m.sum ≡ total all = omega (arith, adds.sum) in
    rw
      (
        sym size,
        sum,
        ne→==_false (length all) 0 (omega arith),
        expect_u8_small {E = E} (mean all) (mean-IsByte all bytes),
        sharpness_of-mean {E = E} m steps steps_bytes (omega (arith, adds.difference_sum))
            (omega (arith, adds.difference_count)),
        contrast,
      )
      refl

set_flags_good :
    (dark bright flat blurred : Bool)
    → dark && bright ≡ false
    → has_bad_flags (set_flag blurred 8 (set_flag flat 4 (set_flag bright 2 (set_flag dark 1 0))))
      ≡ false
set_flags_good true true flat blurred h = absurd (cc)
set_flags_good true false true true h = refl
set_flags_good true false true false h = refl
set_flags_good true false false true h = refl
set_flags_good true false false false h = refl
set_flags_good false true true true h = refl
set_flags_good false true true false h = refl
set_flags_good false true false true h = refl
set_flags_good false true false false h = refl
set_flags_good false false true true h = refl
set_flags_good false false true false h = refl
set_flags_good false false false true h = refl
set_flags_good false false false false h = refl

flags_of-good :
    (brightness contrast sharpness : ℕ)
    → has_bad_flags (flags_of brightness contrast sharpness) ≡ false
unfolding flags_of
flags_of-good brightness contrast sharpness =
    set_flags_good (ltb brightness 20) (ltb 220 brightness) (ltb contrast 16) (ltb sharpness 1)
      (ground arith)

-- Metrics in their bytes, with flags that the worker does not refuse.
pub record IsGrade (q : QualityMetrics) : Type 0 where
  pub brightness : IsByte q.brightness
  pub contrast : IsByte q.contrast
  pub sharpness : IsByte q.sharpness
  pub flags : has_bad_flags q.flags ≡ false

-- `calculate_quality` ends on every checked image of bytes without an index or a slice out of range,
-- a division by 0, a number that does not fit its byte or an overflow: with the error of a check at
-- one of the instants, or with the quality that the lumas of all the image's pixels have, row by
-- row: their mean, their range, and the mean difference of neighbours in a row. These are bytes, and
-- the worker does not refuse their flags.
pub calculate_quality-quality_of :
    (now : ℕ → ℕ) (control : ProcessingControl) (image : ImageView)
    → IsImage image
    → All IsByte image.bytes
    → Settles
        (IsCheckError now control)
        (λ q. (q ≡ quality_of (image_lumas image 0 image.height)) × IsGrade q)
        (calculate_quality now control image)
unfolding calculate_quality quality_of
calculate_quality-quality_of now control image is bytes =
    let P = IsCheckError now control in
    let lumas = joined (image_lumas image 0 image.height) in
    let steps = joined_steps (image_lumas image 0 image.height) in
    let quality = quality_of (image_lumas image 0 image.height) in
    let Q : QualityMetrics → Type 0 = λ q. (q ≡ quality) × IsGrade q in
    let (lumas_bytes, steps_bytes) = joined-IsByte image 0 image.height bytes in
    let size = length-joined image 0 image.height in
    let positive : 0 < image.width * image.height = mul-pos is.width_positive is.height_positive in
    let are : AreRows image 0 image.height = record {
      bytes = bytes;
      row_fits = is.row_fits;
      inside = omega (arith, is.exact_length);
    } in
    let room : HasRoom no_lumas (image.height * image.width) =
      let few : image.height * image.width ≤ 1080 * 1920 =
        mul-le-mul is.height_bound is.width_bound in
      record {
        sum = omega (arith, few);
        minimum = omega arith;
        difference_sum = omega (arith, few);
        difference_count = omega (arith, few);
      } in
    let grade_of : IsGrade quality = record {
      brightness = mean-IsByte lumas lumas_bytes;
      contrast = omega (arith, greatest_le lumas lumas_bytes);
      sharpness = mean-IsByte steps steps_bytes;
      flags = flags_of-good (mean lumas) (greatest lumas - least lumas) (mean steps);
    } in
    Settles->>= P (Adds lumas steps no_lumas) Q
      (scan_rows now control image 0 image.height no_lumas) _
      (scan_rows-Adds now control image 0 image.height no_lumas are room)
      λ m adds. Settles-check_control Q now control image.height (grade image m) (
        rw
          (grade-mean image lumas steps m size (omega (arith, size, positive)) lumas_bytes
            steps_bytes adds)
          (refl, grade_of))
