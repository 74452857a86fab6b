-- ===== src/Vision/Parsing.antt =====
-- engine/vision/src/worker.rs and lib.rs: what `ImageView::new` and `parse_request` accept.
use loofi_face_id.Prelude.{
  ℕ, ◌*◌, ◌≤◌, ◌<◌, ◌≡◌, refl, ◌≢◌, not, some, List, arith, leb, ◌==◌, length, drop, Outcome, ok,
  err, panic, stuck, Settles, Settles->>=, Settles-guard, Settles-ok_or, Settles-index,
  Settles-index_be16, Settles-index_be32,
}
use loofi_face_id.Vision.Image.{
  PixelFormat, ImageView, ImageError, bytes_per_pixel, pixel_format, new_image, checked32,
  has_bad_dimensions, max_width, max_height, max_frame_bytes, invalid_dimensions, invalid_stride,
  arithmetic_overflow, frame_too_large, length_mismatch,
}
use loofi_face_id.Vision.Request.{
  AnalyzeRequest, RequestError, WorkerErrorCode, parse_request, generation_of, tail_from, map_err,
  map_image_error, has_timeout, request_header_bytes, worker_protocol_version, op_analyze,
  unsupported_pixel_format_code, invalid_request, unsupported_version, unsupported_operation,
  invalid_timeout,
}

-- A view whose rows lie inside its bytes.
pub record IsImage (image : ImageView) : Type 0 where
  pub width_positive : 0 < image.width
  pub width_bound : image.width ≤ max_width
  pub height_positive : 0 < image.height
  pub height_bound : image.height ≤ max_height
  pub row_fits : image.width * bytes_per_pixel image.format ≤ image.stride
  pub frame_bound : image.stride * image.height ≤ max_frame_bytes
  pub exact_length : length image.bytes ≡ image.stride * image.height

checked32-some : (n m : ℕ) → checked32 n ≡ some m → n ≡ m
checked32-some n m h = ground arith

-- The view that `ImageView::new` returns has the arguments it was given.
abbrev pub IsViewOf : List ℕ → ImageView → Type 0
IsViewOf bytes image = IsImage image × (image.bytes ≡ bytes)

pub new_image-Settles :
    (format : PixelFormat) (width height stride : ℕ) (bytes : List ℕ)
    → Settles (λ e. Unit {0}) (IsViewOf bytes) (new_image format width height stride bytes)
unfolding new_image
new_image-Settles format width height stride bytes =
    let P : ImageError → Type 0 = λ e. Unit {0} in
    let Q = IsViewOf bytes in
    Settles-guard P Q (not (has_bad_dimensions width height)) invalid_dimensions _ tt λ dims.
      Settles-ok_or P Q (checked32 (width * bytes_per_pixel format)) arithmetic_overflow _ tt
        λ row e. Settles-guard P Q (leb row stride) invalid_stride _ tt λ wide.
          Settles-ok_or P Q (checked32 (stride * height)) arithmetic_overflow _ tt λ size e'.
            Settles-guard P Q (leb size max_frame_bytes) frame_too_large _ tt λ small.
              Settles-guard P Q (length bytes == size) length_mismatch _ tt λ exact.
                let row_eq = checked32-some (width * bytes_per_pixel format) row e in
                let size_eq = checked32-some (stride * height) size e' in
                (
                  record {
                    width_positive = ground arith;
                    width_bound = ground arith;
                    height_positive = ground arith;
                    height_bound = ground arith;
                    row_fits = ground arith;
                    frame_bound = ground arith;
                    exact_length = ground arith;
                  },
                  refl,
                )

-- What `parse_request` accepts: the header's generation, a timeout in bounds, and the bytes behind
-- the header as a checked view.
abbrev pub IsAccepted : List ℕ → AnalyzeRequest → Type 0
IsAccepted payload request =
    (request.generation ≡ generation_of payload)
    × (request.generation ≢ 0)
    × (1 ≤ request.timeout_ms)
    × (request.timeout_ms ≤ 5000)
    × IsViewOf (drop 24 payload) request.image

pub map_err-Settles :
    {E F A : Type 0} (P : F → Type 0) (Q : A → Type 0) (f : E → F) (m : Outcome E A)
    → ((e : E) → P (f e))
    → Settles (λ e. Unit {0}) Q m
    → Settles P Q (map_err f m)
map_err-Settles P Q f (ok a) p h = h
map_err-Settles P Q f (err e) p h = p e
map_err-Settles P Q f panic p h = h
map_err-Settles P Q f stuck p h = h

pub tail_from-drop {ℓ} :
    {E : Type ℓ} (n : ℕ) (bytes : List ℕ)
    → n ≤ length bytes
    → tail_from {E = E} n bytes ≡ ok (drop n bytes)
tail_from-drop n bytes h = ground arith

pub pixel_format-Settles :
    (value : ℕ) → Settles (λ e. Unit {0}) (λ format. Unit {0}) (pixel_format value)
unfolding pixel_format
pixel_format-Settles value = ground arith

-- `parse_request` ends on any payload without an index or a slice out of range, and without an
-- overflow: it gives a request whose generation is the header's and not 0, whose timeout is 1 to
-- 5000 ms and whose image is the rest of the payload with geometry that lies inside it, or an error
-- that carries the generation of the payload, 0 where the payload is too short for one.
pub parse_request-Settles :
    (payload : List ℕ)
    → Settles
        (λ e. e.generation ≡ generation_of payload)
        (IsAccepted payload)
        (parse_request payload)
unfolding parse_request
parse_request-Settles payload =
    let generation = generation_of payload in
    let failure : WorkerErrorCode → RequestError =
      λ code. record { code = code; generation = generation } in
    let P : RequestError → Type 0 = λ e. e.generation ≡ generation in
    let Q = IsAccepted payload in
    Settles-guard P Q (leb request_header_bytes (length payload)) (failure invalid_request) _ refl
      λ t.
        let long : 24 ≤ length payload = ground arith in
        Settles-index_be16 P Q payload 0 1 _ (omega arith) (omega arith) λ version.
          Settles-guard P Q (version == worker_protocol_version) (failure unsupported_version) _
            refl
            λ _.
              Settles-guard P Q (not (generation == 0)) (failure invalid_request) _ refl
                λ some_generation. Settles-index P Q payload 2 _ (omega arith) λ operation.
                  Settles-guard P Q (operation == op_analyze) (failure unsupported_operation) _ refl
                    λ _. Settles-index P Q payload 3 _ (omega arith) λ format_byte.
                      Settles->>= P (λ format. Unit {0}) Q _ _
                        (map_err-Settles P (λ format. Unit {0})
                          (λ _. failure unsupported_pixel_format_code) (pixel_format format_byte)
                          (λ _. refl) (pixel_format-Settles format_byte))
                        λ format _.
                          Settles-index_be32 P Q payload 12 13 14 15 _ (omega arith) (omega arith)
                            (omega arith) (omega arith)
                            λ timeout.
                              Settles-guard P Q (has_timeout timeout) (failure invalid_timeout) _
                                refl
                                λ in_time.
                                  Settles-index_be16 P Q payload 16 17 _ (omega arith) (omega arith)
                                    λ width.
                                      Settles-index_be16 P Q payload 18 19 _ (omega arith)
                                        (omega arith)
                                        λ height.
                                          Settles-index_be32 P Q payload 20 21 22 23 _ (omega arith)
                                            (omega arith) (omega arith) (omega arith)
                                            λ stride.
                                              rw (tail_from-drop {E = RequestError} 24 payload long)
                                                (Settles->>= P (IsViewOf (drop 24 payload)) Q _ _
                                                  (map_err-Settles P (IsViewOf (drop 24 payload))
                                                    (λ e. failure (map_image_error e))
                                                    (new_image format width height stride
                                                      (drop 24 payload))
                                                    (λ _. refl)
                                                    (new_image-Settles format width height stride
                                                      (drop 24 payload)))
                                                  λ image view. (
                                                    refl,
                                                    ground arith,
                                                    ground arith,
                                                    ground arith,
                                                    view,
                                                  ))
