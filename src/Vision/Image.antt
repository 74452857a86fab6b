-- ===== src/Vision/Image.antt =====
-- engine/vision/src/lib.rs: pixel formats, the checked view of a frame, deadlines, and what an
-- analysis holds.
use loofi_face_id.Prelude.{
  ℕ, ◌+◌, ◌*◌, ◌^◌, Bool, false, ◌||◌, List, Option, none, some, Outcome, ok, err, ◌>>=◌, ◌>>◌,
  guard, ok_or, length, ltb, leb, ◌==◌, ◌⊎◌, inl, inr, not, if◌then◌else◌,
}

abbrev pub max_width : ℕ
max_width = 1920

abbrev pub max_height : ℕ
max_height = 1080

abbrev pub max_frame_bytes : ℕ
max_frame_bytes = 1920 * 1080 * 4

abbrev pub max_faces : ℕ
max_faces = 8

abbrev pub quality_too_dark : ℕ
quality_too_dark = 1

abbrev pub quality_too_bright : ℕ
quality_too_bright = 2

abbrev pub quality_low_contrast : ℕ
quality_low_contrast = 4

abbrev pub quality_low_sharpness : ℕ
quality_low_sharpness = 8

pub data PixelFormat : Type 0 where
  rgb8 rgba8 gray8 : PixelFormat

unfoldable pub bytes_per_pixel : PixelFormat → ℕ
bytes_per_pixel rgb8 = 3
bytes_per_pixel rgba8 = 4
bytes_per_pixel gray8 = 1

pub data ImageError : Type 0 where
  unsupported_pixel_format invalid_dimensions invalid_stride : ImageError
  arithmetic_overflow frame_too_large length_mismatch : ImageError

-- `PixelFormat::try_from`
unfoldable pub pixel_format : ℕ → Outcome ImageError PixelFormat
pixel_format value =
    if value == 1
    then ok rgb8
    else if value == 2
    then ok rgba8
    else if value == 3
    then ok gray8
    else err unsupported_pixel_format

pub record ImageView : Type 0 where
  pub format : PixelFormat
  pub width : ℕ  -- u32
  pub height : ℕ  -- u32
  pub stride : ℕ  -- u32
  pub bytes : List ℕ

-- `u32::checked_add` and `u32::checked_mul`
abbrev pub checked32 : ℕ → Option ℕ
checked32 n = if ltb n (2 ^ 32) then some n else none

abbrev pub has_bad_dimensions : ℕ → ℕ → Bool
has_bad_dimensions width height =
    width == 0 || height == 0 || ltb max_width width || ltb max_height height

-- `ImageView::new`. A `u32` always fits in `usize` where this program runs.
unfoldable pub new_image : PixelFormat → ℕ → ℕ → ℕ → List ℕ → Outcome ImageError ImageView
new_image format width height stride bytes = do
  guard (not (has_bad_dimensions width height)) invalid_dimensions
  minimum_stride ← ok_or (checked32 (width * bytes_per_pixel format)) arithmetic_overflow
  guard (leb minimum_stride stride) invalid_stride
  expected ← ok_or (checked32 (stride * height)) arithmetic_overflow
  guard (leb expected max_frame_bytes) frame_too_large
  guard (length bytes == expected) length_mismatch
  ok (record { format = format; width = width; height = height; stride = stride; bytes = bytes })

pub data VisionError : Type 0 where
  cancelled deadline_exceeded face_at_edge runtime_failure invalid_runtime_output : VisionError

-- What `ProcessingControl` refers to: the token's flag and the deadline, in milliseconds.
pub record ProcessingControl : Type 0 where
  pub is_cancelled : Bool
  pub deadline : ℕ

-- `ProcessingControl::with_timeout` at the instant `now`, where `last` is the last instant that can
-- be represented, with a token that was just made.
unfoldable pub with_timeout : (now last timeout : ℕ) → VisionError ⊎ ProcessingControl
with_timeout now last timeout =
    if leb (now + timeout) last
    then inr (record { is_cancelled = false; deadline = now + timeout })
    else inl deadline_exceeded

-- `ProcessingControl::check` at the instant `now`.
unfoldable pub check_control : ProcessingControl → ℕ → Outcome VisionError (Unit {0})
check_control control now = do
  guard (not control.is_cancelled) cancelled
  guard (ltb now control.deadline) deadline_exceeded

pub record FaceRectangle : Type 0 where
  pub x : ℕ  -- u16
  pub y : ℕ  -- u16
  pub width : ℕ  -- u16
  pub height : ℕ  -- u16

-- `[u16; 10]`, point by point.
pub record Point : Type 0 where
  pub x : ℕ  -- u16
  pub y : ℕ  -- u16

pub record FaceLandmarks : Type 0 where
  pub right_eye : Point
  pub left_eye : Point
  pub nose : Point
  pub right_mouth : Point
  pub left_mouth : Point

pub record FaceObservation : Type 0 where
  pub rectangle : FaceRectangle
  pub landmarks : FaceLandmarks

pub record QualityMetrics : Type 0 where
  pub brightness : ℕ  -- u8
  pub contrast : ℕ  -- u8
  pub sharpness : ℕ  -- u8
  pub flags : ℕ  -- u8

pub record VisionAnalysis : Type 0 where
  pub faces : List FaceObservation
  pub quality : QualityMetrics
