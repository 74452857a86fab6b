-- ===== src/Vision/Scanning.antt =====
-- engine/vision/src/lib.rs: `calculate_quality` reads every pixel of an image and comes to its
-- quality.
use loofi_face_id.Prelude.{
  ℕ, All-drop, expect_u8_small, zero, suc, ◌+◌, ◌*◌, ◌/◌, ◌%◌, ◌^◌, ◌≤◌, ◌≡◌, refl, List, [], ◌∷◌,
  ◌++◌, Option, none, some, arith, All, IsByte, drop, length, length-drop, Outcome, ok, err,
  Settles, Settles-weaken, panic, stuck, IsAnswer, >>=-IsAnswer, guard-IsAnswer, guard, not, ◌>>◌,
  ltb, le→leb, ap,
}
use loofi_face_id.Vision.Image.{
  PixelFormat, rgb8, rgba8, gray8, bytes_per_pixel, ImageView, VisionError, ProcessingControl,
  check_control, cancelled, deadline_exceeded,
}
use loofi_face_id.Vision.Quality.{weighted_luma, Lumas, pixel_luma, add_luma, scan_row, scan_rows}
use loofi_face_id.Vision.Measures.{
  weighted, luma_of, luma_at, row_lumas, image_lumas, joined, joined_steps, steps_from,
}
use loofi_face_id.Vision.Accumulation.{
  measure, Adds, HasRoom, Adds-nothing, Adds-measure, HasRoom-measure, HasRoom-le, Adds-append,
}

weighted-IsByte : (bytes : List ℕ) → All IsByte bytes → IsByte (weighted bytes)
weighted-IsByte [] h = omega arith
weighted-IsByte (a ∷ []) h = omega arith
weighted-IsByte (a ∷ b ∷ []) h = omega arith
weighted-IsByte (a ∷ b ∷ c ∷ bytes) h = omega (arith, h.0, h.1.0, h.1.1.0)

luma_of-IsByte :
    (format : PixelFormat) (bytes : List ℕ) → All IsByte bytes → IsByte (luma_of format bytes)
luma_of-IsByte rgb8 bytes h = weighted-IsByte bytes h
luma_of-IsByte rgba8 bytes h = weighted-IsByte bytes h
luma_of-IsByte gray8 [] h = omega arith
luma_of-IsByte gray8 (a ∷ bytes) h = h.0

weighted_luma-weighted :
    {E : Type 0} (bytes : List ℕ)
    → All IsByte bytes
    → 3 ≤ length bytes
    → weighted_luma {E = E} bytes ≡ ok (weighted bytes)
weighted_luma-weighted [] h room = absurd (omega arith)
weighted_luma-weighted (a ∷ []) h room = absurd (omega arith)
weighted_luma-weighted (a ∷ b ∷ []) h room = absurd (omega arith)
weighted_luma-weighted (a ∷ b ∷ c ∷ bytes) h room =
    let luma = (a * 77 + b * 150 + c * 29) / 256 in
    let same : (a * 77 + b * 150 + c * 29) % 2 ^ 32 / 256 ≡ luma =
      omega (arith, h.0, h.1.0, h.1.1.0) in
    rw same (expect_u8_small luma (weighted-IsByte (a ∷ b ∷ c ∷ bytes) h))

pixel_luma-luma_of :
    {E : Type 0} (format : PixelFormat) (bytes : List ℕ)
    → All IsByte bytes
    → bytes_per_pixel format ≤ length bytes
    → pixel_luma {E = E} format bytes ≡ ok (luma_of format bytes)
unfolding pixel_luma bytes_per_pixel
pixel_luma-luma_of rgb8 bytes h room = weighted_luma-weighted bytes h room
pixel_luma-luma_of rgba8 bytes h room = weighted_luma-weighted bytes h (omega arith)
pixel_luma-luma_of gray8 [] h room = absurd (omega arith)
pixel_luma-luma_of gray8 (a ∷ bytes) h room = refl

pub row_lumas-IsByte :
    (image : ImageView) (row x count : ℕ)
    → All IsByte image.bytes
    → All IsByte (row_lumas image row x count)
unfolding row_lumas
row_lumas-IsByte image row x zero h = tt
row_lumas-IsByte image row x (suc count) h =
    let offset = row + x * bytes_per_pixel image.format in
    (
      luma_of-IsByte image.format (drop offset image.bytes) (All-drop IsByte offset image.bytes h),
      row_lumas-IsByte image row (x + 1) count h,
    )

pub length-row_lumas :
    (image : ImageView) (row x count : ℕ) → length (row_lumas image row x count) ≡ count
unfolding row_lumas
length-row_lumas image row x zero = refl
length-row_lumas image row x (suc count) = ap suc (length-row_lumas image row (x + 1) count)

-- The pixels that are left of a row lie in the image.
IsInRow : ImageView → (row x count : ℕ) → Type 0
IsInRow image row x count =
    row + x * bytes_per_pixel image.format + count * bytes_per_pixel image.format
    ≤ length image.bytes

next_column :
    (row x count b n : ℕ)
    → row + x * b + suc count * b ≤ n
    → (row + x * b + b ≤ n) × (row + (x + 1) * b + count * b ≤ n)
next_column row x count b n h = (omega arith, omega arith)

scan_row-measure :
    {E : Type 0} (image : ImageView) (row x count : ℕ) (previous : Option ℕ) (m : Lumas)
    → All IsByte image.bytes
    → IsInRow image row x count
    → scan_row {E = E} image row x count previous m
      ≡ ok (measure previous m (row_lumas image row x count))
unfolding scan_row measure row_lumas IsInRow
scan_row-measure image row x zero previous m h inside = refl
scan_row-measure image row x (suc count) previous m h inside =
    let b = bytes_per_pixel image.format in
    let offset = row + x * b in
    let (front, rest) = next_column row x count b (length image.bytes) inside in
    rw
      (
        le→leb offset (length image.bytes) (omega arith),
        pixel_luma-luma_of image.format (drop offset image.bytes)
            (All-drop IsByte offset image.bytes h) (omega (arith, length-drop offset image.bytes)),
      )
      (scan_row-measure image row (x + 1) count (some (luma_at image row x))
        (add_luma m previous (luma_at image row x)) h rest)

-- The error of a check at one of the instants.
abbrev pub IsCheckError : (ℕ → ℕ) → ProcessingControl → VisionError → Type 0
IsCheckError now control e = (y : ℕ) × (check_control control (now y) ≡ err e)

Settles-answer :
    {E A : Type 0} (P : E → Type 0) (Q : A → Type 0) (check : Outcome E (Unit {0}))
    (m : Outcome E A)
    → IsAnswer check
    → ((e : E) → check ≡ err e → P e)
    → Settles P Q m
    → Settles P Q (check >> m)
Settles-answer P Q (ok done) m answer p h = h
Settles-answer P Q (err e) m answer p h = p e refl
Settles-answer P Q panic m answer p h = answer
Settles-answer P Q stuck m answer p h = answer

check_control-IsAnswer :
    (control : ProcessingControl) (now : ℕ) → IsAnswer (check_control control now)
unfolding check_control
check_control-IsAnswer control now =
    >>=-IsAnswer (guard (not control.is_cancelled) cancelled)
      (λ _. guard (ltb now control.deadline) deadline_exceeded)
      (guard-IsAnswer (not control.is_cancelled) cancelled)
      λ _ _. guard-IsAnswer (ltb now control.deadline) deadline_exceeded

pub Settles-check_control :
    {A : Type 0} (Q : A → Type 0) (now : ℕ → ℕ) (control : ProcessingControl) (y : ℕ)
    (m : Outcome VisionError A)
    → Settles (IsCheckError now control) Q m
    → Settles (IsCheckError now control) Q (check_control control (now y) >> m)
Settles-check_control Q now control y m h =
    Settles-answer (IsCheckError now control) Q (check_control control (now y)) m
      (check_control-IsAnswer control (now y)) (λ e failed. (y, failed)) h

-- The rows that are left lie in the image.
pub record AreRows (image : ImageView) (y count : ℕ) : Type 0 where
  pub bytes : All IsByte image.bytes
  pub row_fits : image.width * bytes_per_pixel image.format ≤ image.stride
  pub inside : y * image.stride + count * image.stride ≤ length image.bytes

pub scan_rows-Adds :
    (now : ℕ → ℕ) (control : ProcessingControl) (image : ImageView) (y count : ℕ) (m : Lumas)
    → AreRows image y count
    → HasRoom m (count * image.width)
    → let rows = image_lumas image y count in
      Settles
        (IsCheckError now control)
        (Adds (joined rows) (joined_steps rows) m)
        (scan_rows now control image y count m)
unfolding scan_rows image_lumas IsInRow
scan_rows-Adds now control image y zero m are room = Adds-nothing m room.minimum
scan_rows-Adds now control image y (suc count) m are room =
    let rows = image_lumas image (y + 1) count in
    let row = row_lumas image (y * image.stride) 0 image.width in
    let bytes = row_lumas-IsByte image (y * image.stride) 0 image.width are.bytes in
    let m' = measure none m row in
    let P = IsCheckError now control in
    let Q = Adds (row ++ joined rows) (steps_from none row ++ joined_steps rows) m in
    let inside : IsInRow image (y * image.stride) 0 image.width =
      omega (arith, are.inside, are.row_fits) in
    let wide = length-row_lumas image (y * image.stride) 0 image.width in
    let first : Adds row (steps_from none row) m m' =
      Adds-measure none m row tt bytes
        (HasRoom-le m (suc count * image.width) (length row) room (omega (arith, wide))) in
    let room' : HasRoom m' (count * image.width) =
      HasRoom-measure m row (count * image.width) bytes (
        HasRoom-le m (suc count * image.width) (length row + count * image.width) room
          (omega (arith, wide))) in
    let are' : AreRows image (y + 1) count = record {
      bytes = are.bytes;
      row_fits = are.row_fits;
      inside = omega (arith, are.inside);
    } in
    Settles-check_control Q now control y _ (
      rw
        (scan_row-measure {E = VisionError} image (y * image.stride) 0 image.width none m are.bytes
          inside)
        (Settles-weaken P Q (scan_rows now control image (y + 1) count m')
          (scan_rows-Adds now control image (y + 1) count m' are' room')
          λ m'' more.
            Adds-append row (joined rows) (steps_from none row) (joined_steps rows) m m' m'' first
              more))
