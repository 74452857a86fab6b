-- ===== src/Vision/Quality.antt =====
-- engine/vision/src/lib.rs: the luma of a pixel, and the quality of an image as every analysis
-- reports it. Numbers of 32 and 64 bits wrap around; `usize` has 64 bits.
use Prim.Native.Nat.{max, bit_or}
use loofi_face_id.Prelude.{
  ℕ, expect_u8, zero, suc, ◌+◌, ◌-◌, ◌*◌, ◌/◌, ◌%◌, ◌^◌, Bool, List, Option, none, some, Outcome,
  ok, panic, ◌>>=◌, ◌>>◌, index, min, ltb, ◌==◌, if◌then◌else◌,
}
use loofi_face_id.Vision.Image.{
  PixelFormat, rgb8, rgba8, gray8, bytes_per_pixel, ImageView, VisionError, ProcessingControl,
  check_control, QualityMetrics, quality_too_dark, quality_too_bright, quality_low_contrast,
  quality_low_sharpness,
}
use loofi_face_id.Vision.Request.{tail_from}

abbrev pub weighted_luma {ℓ} : {E : Type ℓ} → List ℕ → Outcome E ℕ
weighted_luma bytes = do
  red ← index bytes 0
  green ← index bytes 1
  blue ← index bytes 2
  expect_u8 ((red * 77 + green * 150 + blue * 29) % 2 ^ 32 / 2 ^ 8)

unfoldable pub pixel_luma {ℓ} : {E : Type ℓ} → PixelFormat → List ℕ → Outcome E ℕ
pixel_luma rgb8 bytes = weighted_luma bytes
pixel_luma rgba8 bytes = weighted_luma bytes
pixel_luma gray8 bytes = index bytes 0

-- What `calculate_quality` accumulates.
pub record Lumas : Type 0 where
  pub sum : ℕ  -- u64
  pub minimum : ℕ  -- u8
  pub maximum : ℕ  -- u8
  pub difference_sum : ℕ  -- u64
  pub difference_count : ℕ  -- u64

abbrev pub no_lumas : Lumas
no_lumas = record { sum = 0; minimum = 255; maximum = 0; difference_sum = 0; difference_count = 0 }

-- `u8::abs_diff`
abbrev pub abs_diff : ℕ → ℕ → ℕ
abs_diff a b = if ltb a b then b - a else a - b

-- The luma of one pixel, after the one before it in the row.
unfoldable pub add_luma : Lumas → Option ℕ → ℕ → Lumas
add_luma m none luma = record {
  sum = (m.sum + luma) % 2 ^ 64;
  minimum = min m.minimum luma;
  maximum = max m.maximum luma;
  difference_sum = m.difference_sum;
  difference_count = m.difference_count;
}
add_luma m (some previous) luma = record {
  sum = (m.sum + luma) % 2 ^ 64;
  minimum = min m.minimum luma;
  maximum = max m.maximum luma;
  difference_sum = (m.difference_sum + abs_diff luma previous) % 2 ^ 64;
  difference_count = (m.difference_count + 1) % 2 ^ 64;
}

-- The pixels of a row from column `x` on; `row` is where the row begins.
unfoldable pub scan_row {ℓ} :
    {E : Type ℓ} → ImageView → (row x count : ℕ) → Option ℕ → Lumas → Outcome E Lumas
unfolding bytes_per_pixel pixel_luma add_luma
scan_row image row x zero previous m = ok m
scan_row image row x (suc count) previous m = do
  rest ← tail_from (row + x * bytes_per_pixel image.format) image.bytes
  luma ← pixel_luma image.format rest
  scan_row image row (x + 1) count (some luma) (add_luma m previous luma)

-- The rows from row `y` on; `now y` is the instant at which that row begins.
unfoldable pub scan_rows :
    (ℕ → ℕ) → ProcessingControl → ImageView → (y count : ℕ) → Lumas → Outcome VisionError Lumas
unfolding check_control scan_row
scan_rows now control image y zero m = ok m
scan_rows now control image y (suc count) m = do
  check_control control (now y)
  m' ← scan_row image (y * image.stride) 0 image.width none m
  scan_rows now control image (y + 1) count m'

-- `sum / count`
abbrev pub divide {ℓ} : {E : Type ℓ} → ℕ → ℕ → Outcome E ℕ
divide sum count = if count == 0 then panic else ok (sum / count)

-- `checked_div` and what follows.
abbrev pub sharpness_of {ℓ} : {E : Type ℓ} → Lumas → Outcome E ℕ
sharpness_of m =
    if m.difference_count == 0 then ok 0 else expect_u8 (m.difference_sum / m.difference_count)

abbrev pub set_flag : Bool → ℕ → ℕ → ℕ
set_flag test mask flags = if test then bit_or flags mask else flags

unfoldable pub flags_of : (brightness contrast sharpness : ℕ) → ℕ
flags_of brightness contrast sharpness =
    let dark = set_flag (ltb brightness 20) quality_too_dark 0 in
    let bright = set_flag (ltb 220 brightness) quality_too_bright dark in
    let flat = set_flag (ltb contrast 16) quality_low_contrast bright in
    set_flag (ltb sharpness 1) quality_low_sharpness flat

-- What follows the last check.
unfoldable pub grade {ℓ} : {E : Type ℓ} → ImageView → Lumas → Outcome E QualityMetrics
unfolding flags_of
grade image m = do
  average ← divide m.sum (image.width * image.height)
  brightness ← expect_u8 average
  sharpness ← sharpness_of m
  let contrast = (m.maximum + 256 - m.minimum) % 256 in
      ok (record {
        brightness = brightness;
        contrast = contrast;
        sharpness = sharpness;
        flags = flags_of brightness contrast sharpness;
      })

-- The last check is at the instant `now image.height`.
unfoldable pub calculate_quality :
    (ℕ → ℕ) → ProcessingControl → ImageView → Outcome VisionError QualityMetrics
unfolding check_control scan_rows grade
calculate_quality now control image = do
  m ← scan_rows now control image 0 image.height no_lumas
  check_control control (now image.height)
  grade image m
