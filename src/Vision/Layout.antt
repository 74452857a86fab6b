-- ===== src/Vision/Layout.antt =====
-- engine/vision/src/worker.rs: the layout of a request, and what `parse_request` makes of it.
use loofi_face_id.Prelude.{
  ℕ, ◌*◌, ◌/◌, ◌%◌, ◌^◌, ◌≤◌, ◌<◌, ◌≡◌, refl, ◌≢◌, List, ◌∷◌, ◌++◌, arith, ok, IsU32, byte_of,
  to_be16, to_be32, from_be16-byte_of, from_be32-byte_of, IsU64, from_be64, to_be64,
}
use loofi_face_id.Vision.Image.{
  PixelFormat, rgb8, rgba8, gray8, ImageView, bytes_per_pixel, pixel_format, new_image,
  max_frame_bytes,
}
use loofi_face_id.Vision.Request.{
  AnalyzeRequest, parse_request, worker_protocol_version, op_analyze,
}
use loofi_face_id.Vision.Parsing.{IsImage}

-- The byte that stands for a pixel format.
unfoldable pub format_byte : PixelFormat → ℕ
format_byte rgb8 = 1
format_byte rgba8 = 2
format_byte gray8 = 3

-- A request's header, field by field, and the image's bytes behind it.
abbrev pub request_payload : AnalyzeRequest → List ℕ
request_payload r =
    to_be16 worker_protocol_version
    ++ (op_analyze ∷ format_byte r.image.format ∷ to_be64 r.generation)
    ++ to_be32 r.timeout_ms
    ++ to_be16 r.image.width
    ++ to_be16 r.image.height
    ++ to_be32 r.image.stride
    ++ r.image.bytes

pixel_format-format_byte : (format : PixelFormat) → pixel_format (format_byte format) ≡ ok format
unfolding pixel_format format_byte
pixel_format-format_byte rgb8 = refl
pixel_format-format_byte rgba8 = refl
pixel_format-format_byte gray8 = refl

bytes_per_pixel-le : (format : PixelFormat) → bytes_per_pixel format ≤ 4
unfolding bytes_per_pixel
bytes_per_pixel-le rgb8 = omega arith
bytes_per_pixel-le rgba8 = omega arith
bytes_per_pixel-le gray8 = omega arith

stride-IsU32 : (image : ImageView) → IsImage image → IsU32 image.stride
stride-IsU32 image h =
    let one : 0 < image.height = h.height_positive in
    let bound : image.stride * image.height ≤ max_frame_bytes = h.frame_bound in
    let le : image.stride ≤ image.stride * image.height = grind arith in omega arith

new_image-IsImage :
    (image : ImageView)
    → IsImage image
    → new_image image.format image.width image.height image.stride image.bytes ≡ ok image
unfolding new_image
new_image-IsImage image h = ground (
  arith,
  h.width_positive,
  h.width_bound,
  h.height_positive,
  h.height_bound,
  h.row_fits,
  h.frame_bound,
  h.exact_length,
  stride-IsU32 image h,
)

from_be64-byte_of :
    (n : ℕ)
    → IsU64 n
    → from_be64
        (byte_of (n / 2 ^ 32) 16777216)
        (byte_of (n / 2 ^ 32) 65536)
        (byte_of (n / 2 ^ 32) 256)
        (byte_of (n / 2 ^ 32) 1)
        (byte_of (n % 2 ^ 32) 16777216)
        (byte_of (n % 2 ^ 32) 65536)
        (byte_of (n % 2 ^ 32) 256)
        (byte_of (n % 2 ^ 32) 1)
      ≡ n
from_be64-byte_of n h = omega (
  arith,
  from_be32-byte_of (n / 2 ^ 32) (omega arith),
  from_be32-byte_of (n % 2 ^ 32) (omega arith),
)

-- `parse_request` reads back every request that is laid out as the worker protocol says: the
-- generation is not 0 and fits in 64 bits, the timeout is 1 to 5000 ms, and the image's rows lie
-- inside its bytes.
pub parse_request-request_payload :
    (r : AnalyzeRequest)
    → r.generation ≢ 0
    → IsU64 r.generation
    → 1 ≤ r.timeout_ms
    → r.timeout_ms ≤ 5000
    → IsImage r.image
    → parse_request (request_payload r) ≡ ok r
unfolding parse_request
parse_request-request_payload r some_generation g low high h =
    let width = from_be16-byte_of r.image.width (omega (arith, h.width_bound)) in
    let height = from_be16-byte_of r.image.height (omega (arith, h.height_bound)) in
    rw
      (
        from_be64-byte_of r.generation g,
        from_be32-byte_of r.timeout_ms (omega arith),
        width,
        height,
        from_be32-byte_of r.image.stride (stride-IsU32 r.image h),
        pixel_format-format_byte r.image.format,
      )
      (ground (arith, new_image-IsImage r.image h))
