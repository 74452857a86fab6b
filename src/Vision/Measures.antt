-- ===== src/Vision/Measures.antt =====
-- engine/vision/src/lib.rs: what the quality of an image means, written without the loops.
use Prim.Native.Nat.{max}
use loofi_face_id.Prelude.{
  ℕ, zero, suc, ◌+◌, ◌-◌, ◌*◌, ◌/◌, List, [], ◌∷◌, ◌++◌, Option, none, some, drop, length, min,
}
use loofi_face_id.Vision.Image.{
  PixelFormat, rgb8, rgba8, gray8, bytes_per_pixel, ImageView, QualityMetrics,
}
use loofi_face_id.Vision.Quality.{abs_diff, flags_of}

abbrev pub weighted : List ℕ → ℕ
weighted (red ∷ green ∷ blue ∷ bytes) = (red * 77 + green * 150 + blue * 29) / 256
weighted _ = 0

abbrev pub gray : List ℕ → ℕ
gray [] = 0
gray (luma ∷ bytes) = luma

-- The luma of the pixel whose bytes come first.
abbrev pub luma_of : PixelFormat → List ℕ → ℕ
luma_of rgb8 = weighted
luma_of rgba8 = weighted
luma_of gray8 = gray

-- The luma of the pixel in column `x` of the row that begins at `row`.
abbrev pub luma_at : ImageView → ℕ → ℕ → ℕ
luma_at image row x =
    luma_of image.format (drop (row + x * bytes_per_pixel image.format) image.bytes)

unfoldable pub row_lumas : ImageView → (row x count : ℕ) → List ℕ
row_lumas image row x zero = []
row_lumas image row x (suc count) = luma_at image row x ∷ row_lumas image row (x + 1) count

-- The lumas, row by row, from row `y` on.
unfoldable pub image_lumas : ImageView → (y count : ℕ) → List (List ℕ)
unfolding row_lumas
image_lumas image y zero = []
image_lumas image y (suc count) =
    row_lumas image (y * image.stride) 0 image.width ∷ image_lumas image (y + 1) count

-- The differences of neighbours.
unfoldable pub steps_from : Option ℕ → List ℕ → List ℕ
steps_from none [] = []
steps_from none (luma ∷ lumas) = steps_from (some luma) lumas
steps_from (some previous) [] = []
steps_from (some previous) (luma ∷ lumas) = abs_diff luma previous ∷ steps_from (some luma) lumas

abbrev pub joined : List (List ℕ) → List ℕ
joined [] = []
joined (row ∷ rows) = row ++ joined rows

abbrev pub joined_steps : List (List ℕ) → List ℕ
joined_steps [] = []
joined_steps (row ∷ rows) = steps_from none row ++ joined_steps rows

abbrev pub total : List ℕ → ℕ
total [] = 0
total (n ∷ ns) = n + total ns

abbrev pub least : List ℕ → ℕ
least [] = 255
least (n ∷ ns) = min n (least ns)

abbrev pub greatest : List ℕ → ℕ
greatest [] = 0
greatest (n ∷ ns) = max n (greatest ns)

-- The mean, rounded down; 0 of nothing.
abbrev pub mean : List ℕ → ℕ
mean [] = 0
mean (n ∷ ns) = total (n ∷ ns) / length (n ∷ ns)

-- The quality of an image from the lumas of its rows.
unfoldable pub quality_of : List (List ℕ) → QualityMetrics
unfolding flags_of steps_from
quality_of rows =
    let brightness = mean (joined rows) in
    let contrast = greatest (joined rows) - least (joined rows) in
    let sharpness = mean (joined_steps rows) in
    record {
      brightness = brightness;
      contrast = contrast;
      sharpness = sharpness;
      flags = flags_of brightness contrast sharpness;
    }
