-- ===== src/Daemon/Frames.antt =====
-- engine/daemon/src/lib.rs: what a capture gives.
use loofi_face_id.Prelude.{
  ℕ, ◌+◌, ◌*◌, ◌≤◌, ◌<◌, ◌≡◌, refl, inl, inr, List, ◌∷◌, Option, none, some, ok, arith, length,
  take, length-take_le, Bool-cases, true, false, ◌^◌, le→leb, ==_refl, le→ltb_false, ltb,
}
use native.Mathlib.Nat.{mul-le-mul}
use loofi_face_id.Daemon.Status.{status_device_busy}
use loofi_face_id.Daemon.Capture.{
  CapturedFrame, Captured, test_frame_fields, load_test_frame, CameraAnswer, sized_frame,
  camera_frame, captured_pixel_bytes, capture_camera_frame, FrameSource, test_frame, camera,
  capture_frame, image_of,
}
use loofi_face_id.Vision.Image.{
  max_width, max_height, max_frame_bytes, PixelFormat, rgb8, rgba8, gray8, bytes_per_pixel,
  ImageView, has_bad_dimensions, pixel_format, new_image, checked32,
}

-- The only error of a capture.
abbrev pub IsBusyOr : Captured → Type 0
IsBusyOr (inl status) = status ≡ status_device_busy
IsBusyOr (inr frame) = Unit {0}

test_frame_fields-IsBusyOr : (bytes : List ℕ) → IsBusyOr (test_frame_fields bytes)
unfolding test_frame_fields
test_frame_fields-IsBusyOr
      (w0 ∷ w1 ∷ w2 ∷ w3 ∷ h0 ∷ h1 ∷ h2 ∷ h3 ∷ s0 ∷ s1 ∷ s2 ∷ s3 ∷ format ∷ bytes) =
    tt
test_frame_fields-IsBusyOr _ = refl

load_test_frame-IsBusyOr : (file : Option (List ℕ)) → IsBusyOr (load_test_frame file)
unfolding load_test_frame
load_test_frame-IsBusyOr none = refl
load_test_frame-IsBusyOr (some contents) =
    let bytes = take (max_frame_bytes + 14) contents in
    elim (Bool-cases (ltb (max_frame_bytes + 13) (length bytes))) [
      | inl long ↦ rw long refl
      | inr short ↦ rw short (test_frame_fields-IsBusyOr bytes)
    ]

sized_frame-IsBusyOr :
    (c : CameraAnswer) (stride : ℕ) (size : Option ℕ) → IsBusyOr (sized_frame c stride size)
sized_frame-IsBusyOr c stride none = refl
sized_frame-IsBusyOr c stride (some expected) = elim (Bool-cases (ltb (length c.buffer) expected)) [
  | inl short ↦ rw short refl
  | inr whole ↦ rw whole tt
]

camera_frame-IsBusyOr :
    (c : CameraAnswer) (stride : Option ℕ) (size : ℕ → Option ℕ)
    → IsBusyOr (camera_frame c stride size)
camera_frame-IsBusyOr c none size = refl
camera_frame-IsBusyOr c (some stride) size = sized_frame-IsBusyOr c stride (size stride)

capture_camera_frame-IsBusyOr :
    (answer : Option CameraAnswer) → IsBusyOr (capture_camera_frame answer)
unfolding capture_camera_frame
capture_camera_frame-IsBusyOr none = refl
capture_camera_frame-IsBusyOr (some c) = elim (Bool-cases (ltb c.format 256)) [
  | inl byte ↦ rw byte (
      camera_frame-IsBusyOr c (checked32 (c.width * captured_pixel_bytes c.format))
        λ stride. checked32 (stride * c.height))
  | inr large ↦ rw large refl
]

pub capture_frame-IsBusyOr : (source : FrameSource) → IsBusyOr (capture_frame source)
unfolding capture_frame
capture_frame-IsBusyOr (test_frame file) = load_test_frame-IsBusyOr file
capture_frame-IsBusyOr (camera answer) = capture_camera_frame-IsBusyOr answer

-- The byte of a pixel format.
abbrev pub format_of : PixelFormat → ℕ
format_of rgb8 = 1
format_of rgba8 = 2
format_of gray8 = 3

bytes_per_pixel_le : (format : PixelFormat) → bytes_per_pixel format ≤ 4
unfolding bytes_per_pixel
bytes_per_pixel_le rgb8 = omega arith
bytes_per_pixel_le rgba8 = omega arith
bytes_per_pixel_le gray8 = omega arith

format_of_lem :
    (format : PixelFormat)
    → (ltb (format_of format) 256 ≡ true)
      × (captured_pixel_bytes (format_of format) ≡ bytes_per_pixel format)
unfolding bytes_per_pixel
format_of_lem rgb8 = (refl, refl)
format_of_lem rgba8 = (refl, refl)
format_of_lem gray8 = (refl, refl)

checked32_small : (n : ℕ) → n < 2 ^ 32 → checked32 n ≡ some n
checked32_small n h = ground arith

new_image_made :
    (format : PixelFormat) (width height stride : ℕ) (bytes : List ℕ)
    → has_bad_dimensions width height ≡ false
    → width * bytes_per_pixel format ≡ stride
    → stride < 2 ^ 32
    → stride * height ≤ max_frame_bytes
    → length bytes ≡ stride * height
    → new_image format width height stride bytes
      ≡ ok (record {
        format = format;
        width = width;
        height = height;
        stride = stride;
        bytes = bytes;
      })
unfolding new_image
new_image_made format width height stride bytes good row small fits exact =
    rw
      (
        good,
        row,
        checked32_small stride small,
        le→leb stride stride (omega arith),
        checked32_small (stride * height) (omega arith),
        le→leb (stride * height) max_frame_bytes fits,
        exact,
        ==_refl (stride * height),
      )
      refl

frame_bounds :
    (format : PixelFormat) (width height : ℕ)
    → width ≤ max_width
    → height ≤ max_height
    → (width * bytes_per_pixel format < 2 ^ 32)
      × (width * bytes_per_pixel format * height ≤ max_frame_bytes)
frame_bounds format width height w h =
    let row : width * bytes_per_pixel format ≤ 1920 * 4 =
      mul-le-mul w (bytes_per_pixel_le format) in
    (omega arith, mul-le-mul row h)

captured_whole :
    (format : PixelFormat) (width height : ℕ) (buffer : List ℕ)
    → width * bytes_per_pixel format < 2 ^ 32
    → width * bytes_per_pixel format * height ≤ max_frame_bytes
    → width * bytes_per_pixel format * height ≤ length buffer
    → capture_camera_frame (
        some
          (record { width = width; height = height; format = format_of format; buffer = buffer }))
      ≡ inr (record {
        width = width;
        height = height;
        stride = width * bytes_per_pixel format;
        format = format_of format;
        bytes = take (width * bytes_per_pixel format * height) buffer;
      })
unfolding capture_camera_frame
captured_whole format width height buffer small fits room =
    let stride = width * bytes_per_pixel format in
    let (byte, pixels) = format_of_lem format in
    rw
      (
        byte,
        pixels,
        checked32_small stride small,
        checked32_small (stride * height) (omega arith),
        le→ltb_false (length buffer) (stride * height) room,
      )
      refl

made_of_byte :
    (format : PixelFormat) (width height stride : ℕ) (bytes : List ℕ)
    → let image : ImageView = record {
      format = format;
      width = width;
      height = height;
      stride = stride;
      bytes = bytes;
    } in
      new_image format width height stride bytes ≡ ok image
      → image_of (record {
        width = width;
        height = height;
        stride = stride;
        format = format_of format;
        bytes = bytes;
      })
        ≡ ok image
unfolding image_of pixel_format
made_of_byte rgb8 width height stride bytes h = h
made_of_byte rgba8 width height stride bytes h = h
made_of_byte gray8 width height stride bytes h = h

-- A frame of the camera in a known format and within the bounds is captured, and the image that is
-- made of it is the front of the buffer, row by row.
pub image_of-capture_camera_frame :
    (format : PixelFormat) (width height : ℕ) (buffer : List ℕ)
    → 0 < width
    → width ≤ max_width
    → 0 < height
    → height ≤ max_height
    → width * bytes_per_pixel format * height ≤ length buffer
    → let stride = width * bytes_per_pixel format in
      let bytes = take (stride * height) buffer in
      let frame : CapturedFrame = record {
        width = width;
        height = height;
        stride = stride;
        format = format_of format;
        bytes = bytes;
      } in
      let answer : CameraAnswer = record {
        width = width;
        height = height;
        format = format_of format;
        buffer = buffer;
      } in
      (capture_camera_frame (some answer) ≡ inr frame)
      × (image_of frame
          ≡ ok (record {
            format = format;
            width = width;
            height = height;
            stride = stride;
            bytes = bytes;
          }))
image_of-capture_camera_frame format width height buffer w0 w1 h0 h1 room =
    let (small, fits) = frame_bounds format width height w1 h1 in
    let stride = width * bytes_per_pixel format in
    (
      captured_whole format width height buffer small fits room,
      made_of_byte format width height stride (take (stride * height) buffer) (
          new_image_made format width height stride (take (stride * height) buffer) (ground arith)
            refl small fits (length-take_le (stride * height) buffer room)),
    )
