-- ===== src/Daemon/Capture.antt =====
-- engine/daemon/src/lib.rs: where the frame of a login comes from, `load_test_frame` and
-- `capture_camera_frame`, and the image that is made of it. Wiping of buffers is not observable.
use loofi_face_id.Prelude.{
  ℕ, ◌+◌, ◌*◌, List, ◌∷◌, Option, none, some, Outcome, ◌>>=◌, ◌⊎◌, inl, inr, take, length, ltb,
  ◌==◌, if◌then◌else◌, from_be32,
}
use loofi_face_id.Daemon.Status.{status_device_busy}
use loofi_face_id.Vision.Image.{
  max_frame_bytes, ImageView, ImageError, pixel_format, new_image, checked32,
}

pub record CapturedFrame : Type 0 where
  pub width : ℕ  -- u32
  pub height : ℕ  -- u32
  pub stride : ℕ  -- u32
  pub format : ℕ  -- u8
  pub bytes : List ℕ

-- An error is a status.
abbrev pub Captured : Type 0
Captured = ℕ ⊎ CapturedFrame

-- The fields of a test frame; there is none in fewer than 13 bytes.
unfoldable pub test_frame_fields : List ℕ → Captured
test_frame_fields (w0 ∷ w1 ∷ w2 ∷ w3 ∷ h0 ∷ h1 ∷ h2 ∷ h3 ∷ s0 ∷ s1 ∷ s2 ∷ s3 ∷ format ∷ bytes) =
    inr (record {
      width = from_be32 w0 w1 w2 w3;
      height = from_be32 h0 h1 h2 h3;
      stride = from_be32 s0 s1 s2 s3;
      format = format;
      bytes = bytes;
    })
test_frame_fields _ = inl status_device_busy

-- On what the file has, if it can be read.
unfoldable pub load_test_frame : Option (List ℕ) → Captured
unfolding test_frame_fields
load_test_frame none = inl status_device_busy
load_test_frame (some contents) =
    let bytes = take (max_frame_bytes + 14) contents in
    if ltb (max_frame_bytes + 13) (length bytes)
    then inl status_device_busy
    else test_frame_fields bytes

-- What `v4l2_capture` gives, with the buffer after the call.
pub record CameraAnswer : Type 0 where
  pub width : ℕ  -- u32
  pub height : ℕ  -- u32
  pub format : ℕ  -- u32
  pub buffer : List ℕ

-- The bytes of a pixel, by the format's byte.
abbrev pub captured_pixel_bytes : ℕ → ℕ
captured_pixel_bytes format = if format == 3 then 1 else if format == 2 then 4 else 3

-- What follows the test of the length `stride * height`.
abbrev pub sized_frame : CameraAnswer → ℕ → Option ℕ → Captured
sized_frame c stride none = inl status_device_busy
sized_frame c stride (some expected) =
    if ltb (length c.buffer) expected
    then inl status_device_busy
    else inr (record {
      width = c.width;
      height = c.height;
      stride = stride;
      format = c.format;
      bytes = take expected c.buffer;
    })

-- What follows the test of the stride.
abbrev pub camera_frame : CameraAnswer → Option ℕ → (ℕ → Option ℕ) → Captured
camera_frame c none size = inl status_device_busy
camera_frame c (some stride) size = sized_frame c stride (size stride)

unfoldable pub capture_camera_frame : Option CameraAnswer → Captured
capture_camera_frame none = inl status_device_busy
capture_camera_frame (some c) =
    if ltb c.format 256
    then camera_frame c (checked32 (c.width * captured_pixel_bytes c.format))
        (λ stride. checked32 (stride * c.height))
    else inl status_device_busy

-- `config.test_frame_path`, and what the file or the camera answers.
pub data FrameSource : Type 0 where
  test_frame : Option (List ℕ) → FrameSource
  camera : Option CameraAnswer → FrameSource

unfoldable pub capture_frame : FrameSource → Captured
unfolding load_test_frame capture_camera_frame
capture_frame (test_frame file) = load_test_frame file
capture_frame (camera answer) = capture_camera_frame answer

-- `PixelFormat::try_from` and `ImageView::new`
unfoldable pub image_of : CapturedFrame → Outcome ImageError ImageView
unfolding pixel_format new_image
image_of frame = do
  format ← pixel_format frame.format
  new_image format frame.width frame.height frame.stride frame.bytes
