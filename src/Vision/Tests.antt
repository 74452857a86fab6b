-- ===== src/Vision/Tests.antt =====
-- Runs of the vision worker: two requests in one session, a gray image of two pixels and a payload
-- that is too short.
use loofi_face_id.Prelude.{
  ℕ, ◌*◌, ◌≡◌, refl, inl, inr, arith, List, [], ◌∷◌, none, ok, false, IsAnswer, Settles, ascii,
}
use loofi_face_id.Protocol.Stream.{Reader, piece, interrupted, failure, other, pending, Writer}
use loofi_face_id.Vision.Image.{
  ImageView, gray8, ProcessingControl, check_control, VisionAnalysis, FaceObservation, Point,
  bytes_per_pixel,
}
use loofi_face_id.Vision.Request.{AnalyzeRequest, parse_request, generation_of, internal_error}
use loofi_face_id.Vision.Response.{Runtime}
use loofi_face_id.Vision.Session.{
  serve_once_with_provider, serve_once_with_provider_factory, serve_session_with_provider,
  serve_session_with_provider_factory,
}
use loofi_face_id.Vision.Parsing.{IsImage, IsAccepted, parse_request-Settles}
use loofi_face_id.Vision.Layout.{format_byte, request_payload, parse_request-request_payload}
use loofi_face_id.Session.Dialogue.{frames, HasSaid}
use loofi_face_id.Vision.Conversation.{analyses, serve_session_with_provider-answers}
use loofi_face_id.Vision.Ending.{serve_ends}
use loofi_face_id.Vision.Sha256.{
  digest_hex, digest, digest_software, final_state, hex_of, compress_chunks, compress, extend_words,
  compress_rounds, zeros,
}
use loofi_face_id.Vision.Quality.{
  calculate_quality, scan_rows, scan_row, grade, flags_of, pixel_luma, add_luma,
}
use loofi_face_id.Vision.Measures.{image_lumas, quality_of}
use loofi_face_id.Vision.Scanning.{IsCheckError}
use loofi_face_id.Vision.Grading.{IsGrade, calculate_quality-quality_of}
use loofi_face_id.Vision.Padding.{digest_padded, digest_software-digest_padded}

-- The test vectors of the source.
digest_hex_empty :
    digest_hex (λ input. none) []
    ≡ ascii "e3b0c44298fc1c149afbf4c8996fb92427ae41e4649b934ca495991b7852b855"
unfolding digest_hex digest digest_software final_state hex_of compress_chunks compress extend_words
    compress_rounds zeros
digest_hex_empty = refl

digest_hex_abc :
    digest_hex (λ input. none) (ascii "abc")
    ≡ ascii "ba7816bf8f01cfea414140de5dae2223b00361a396177a9cb410ff61f20015ad"
unfolding digest_hex digest digest_software final_state hex_of compress_chunks compress extend_words
    compress_rounds zeros
digest_hex_abc = refl

-- A message of two blocks.
abbrev two_blocks : List ℕ
two_blocks = ascii "abcdbcdecdefdefgefghfghighijhijkijkljklmklmnlmnomnopnopq"

digest_software-digest_padded_example : digest_software two_blocks ≡ digest_padded two_blocks
digest_software-digest_padded_example = digest_software-digest_padded two_blocks

abbrev two_pixels : ImageView
two_pixels = record { format = gray8; width = 2; height = 1; stride = 2; bytes = 10 ∷ 200 ∷ [] }

two_pixels-IsImage : IsImage two_pixels
unfolding bytes_per_pixel
two_pixels-IsImage = record {
  width_positive = omega arith;
  width_bound = omega arith;
  height_positive = omega arith;
  height_bound = omega arith;
  row_fits = omega arith;
  frame_bound = omega arith;
  exact_length = refl;
}

abbrev two_pixels_request : AnalyzeRequest
two_pixels_request = record { generation = 7; timeout_ms = 100; image = two_pixels }

abbrev two_pixels_payload : List ℕ
two_pixels_payload =
    0 ∷ 2 ∷ 1 ∷ 3 ∷ 0 ∷ 0 ∷ 0 ∷ 0 ∷ 0 ∷ 0 ∷ 0 ∷ 7 ∷ 0 ∷ 0 ∷ 0 ∷ 100 ∷ 0 ∷ 2 ∷ 0 ∷ 1 ∷ 0 ∷ 0 ∷ 0 ∷ 2
    ∷ 10 ∷ 200 ∷ []

request_payload_two_pixels : request_payload two_pixels_request ≡ two_pixels_payload
unfolding format_byte
request_payload_two_pixels = refl

parse_request-request_payload_example :
    parse_request (request_payload two_pixels_request) ≡ ok two_pixels_request
parse_request-request_payload_example =
    parse_request-request_payload two_pixels_request (λ e. absurd (omega (arith, e))) (omega arith)
      (omega arith) (omega arith) two_pixels-IsImage

-- A payload whose generation can be read, but not the rest of its header.
abbrev short_payload : List ℕ
short_payload = 0 ∷ 2 ∷ 1 ∷ 3 ∷ 0 ∷ 0 ∷ 0 ∷ 0 ∷ 0 ∷ 0 ∷ 0 ∷ 9 ∷ []

parse_request-Settles_example :
    Settles
      (λ e. e.generation ≡ generation_of short_payload)
      (IsAccepted short_payload)
      (parse_request short_payload)
parse_request-Settles_example = parse_request-Settles short_payload

-- One face of one pixel.
abbrev origin : Point
origin = record { x = 0; y = 0 }

abbrev one_face : FaceObservation
one_face = record {
  rectangle = record { x = 0; y = 0; width = 1; height = 1 };
  landmarks = record {
    right_eye = origin;
    left_eye = origin;
    nose = origin;
    right_mouth = origin;
    left_mouth = origin;
  };
}

abbrev analysis : VisionAnalysis
analysis = record {
  faces = one_face ∷ [];
  quality = record { brightness = 105; contrast = 190; sharpness = 190; flags = 0 };
}

abbrev runtime : Runtime
runtime = record {
  now = λ moment. moment * 10;
  last_instant = 1000000;
  analyze = λ moment image control. inr analysis;
}

-- Both requests, in three pieces with an interruption.
abbrev requests : Reader
requests =
    piece (0 ∷ 0 ∷ 0 ∷ 26 ∷ 0 ∷ 2 ∷ 1 ∷ 3 ∷ 0 ∷ 0 ∷ [])
    ∷ interrupted
    ∷ piece (
        0 ∷ 0 ∷ 0 ∷ 0 ∷ 0 ∷ 7 ∷ 0 ∷ 0 ∷ 0 ∷ 100 ∷ 0 ∷ 2 ∷ 0 ∷ 1 ∷ 0 ∷ 0 ∷ 0 ∷ 2 ∷ 10 ∷ 200 ∷ 0 ∷ [])
    ∷ piece (0 ∷ 0 ∷ 12 ∷ 0 ∷ 2 ∷ 1 ∷ 3 ∷ 0 ∷ 0 ∷ 0 ∷ 0 ∷ 0 ∷ 0 ∷ 0 ∷ 9 ∷ [])
    ∷ []

abbrev empty_writer : Writer
empty_writer = record { written = []; room = 1000 }

requests-frames : pending requests ≡ frames (two_pixels_payload ∷ short_payload ∷ [])
unfolding pending frames
requests-frames = refl

serve_session_with_provider-answers_example :
    HasSaid empty_writer
      (frames (analyses runtime 0 (two_pixels_payload ∷ short_payload ∷ [])))
      tt
      (serve_session_with_provider runtime 0 requests empty_writer)
serve_session_with_provider-answers_example =
    serve_session_with_provider-answers (two_pixels_payload ∷ short_payload ∷ []) 0 runtime requests
      empty_writer tt ((omega arith, omega arith), ((omega arith, omega arith), tt)) requests-frames
      (omega arith)

-- A stream that breaks in the first header.
abbrev broken_stream : Reader
broken_stream = piece (0 ∷ 0 ∷ []) ∷ failure (other 5) ∷ []

serve_ends_example :
    IsAnswer (serve_once_with_provider runtime broken_stream empty_writer).result
    × IsAnswer
        (serve_once_with_provider_factory (inl internal_error) broken_stream empty_writer).result
    × IsAnswer (serve_session_with_provider runtime 3 broken_stream empty_writer).result
    × IsAnswer
        (serve_session_with_provider_factory (inl internal_error) broken_stream empty_writer).result
serve_ends_example = serve_ends runtime (inl internal_error) 3 broken_stream empty_writer

-- A check at the instant 5 and a deadline at 100.
abbrev unhurried : ProcessingControl
unhurried = record { is_cancelled = false; deadline = 100 }

-- A mean of 105, a range of 190 and a step of 190.
two_pixels_quality :
    calculate_quality (λ y. 5) unhurried two_pixels
    ≡ ok (record { brightness = 105; contrast = 190; sharpness = 190; flags = 0 })
unfolding calculate_quality scan_rows scan_row grade flags_of pixel_luma bytes_per_pixel add_luma
    check_control
two_pixels_quality = refl

calculate_quality-quality_of_example :
    Settles
      (IsCheckError (λ y. 5) unhurried)
      (λ q. (q ≡ quality_of (image_lumas two_pixels 0 1)) × IsGrade q)
      (calculate_quality (λ y. 5) unhurried two_pixels)
calculate_quality-quality_of_example =
    calculate_quality-quality_of (λ y. 5) unhurried two_pixels two_pixels-IsImage
      (omega arith, (omega arith, tt))
