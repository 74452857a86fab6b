-- ===== src/Protocol/Tests.antt =====
-- Runs of the protocol at concrete inputs.
use loofi_face_id.Prelude.{◌≡◌, refl, arith, [], ◌∷◌, ok, some}
use loofi_face_id.Protocol.Types.{Response, local_capabilities}
use loofi_face_id.Protocol.Codec.Response.{encode_response}
use loofi_face_id.Protocol.Codec.Decode.{decode_response}
use loofi_face_id.Protocol.Codec.RoundTrip.{decode_response-encode_response}
use loofi_face_id.Protocol.Stream.{Reader, piece, interrupted, pending, read, weight, write_all}
use loofi_face_id.Protocol.Frame.Read.{read_frame_or_eof, fill, read_payload}
use loofi_face_id.Protocol.Frame.Write.{write_frame}
use loofi_face_id.Protocol.Frame.Transport.{
  frame_of, read_frame_or_eof-frame_of, read_frame_or_eof-write_frame,
}

-- The status request in a frame, cut in pieces, with an interruption, and two bytes behind it.
abbrev cut : Reader
cut =
    piece (0 ∷ 0 ∷ []) ∷ interrupted ∷ piece (0 ∷ 4 ∷ 0 ∷ []) ∷ piece (2 ∷ 2 ∷ 0 ∷ 9 ∷ 8 ∷ []) ∷ []

cut_reads : (read_frame_or_eof cut 4096).0 ≡ ok (some (0 ∷ 2 ∷ 2 ∷ 0 ∷ []))
unfolding read_frame_or_eof read_payload fill read weight
cut_reads = refl

decode_response-encode_response_example :
    decode_response (encode_response (Response.capabilities local_capabilities))
    ≡ ok (Response.capabilities local_capabilities)
unfolding local_capabilities
decode_response-encode_response_example =
    decode_response-encode_response (Response.capabilities local_capabilities) (omega arith)

read_frame_or_eof-frame_of_example : (read_frame_or_eof cut 4096).0 ≡ frame_of (pending cut) 4096
read_frame_or_eof-frame_of_example = read_frame_or_eof-frame_of cut 4096 tt

-- The header of a frame of 4097 bytes, and one byte behind it.
abbrev oversized : Reader
oversized = piece (0 ∷ 0 ∷ 16 ∷ 1 ∷ 7 ∷ []) ∷ []

read_frame_or_eof-write_frame_example :
    ((read_frame_or_eof cut 4096).0 ≡ ok (some (0 ∷ 2 ∷ 2 ∷ 0 ∷ [])))
    × (pending (read_frame_or_eof cut 4096).1 ≡ 9 ∷ 8 ∷ [])
unfolding pending write_all
read_frame_or_eof-write_frame_example =
    read_frame_or_eof-write_frame 100 (0 ∷ 2 ∷ 2 ∷ 0 ∷ []) 4096 cut (9 ∷ 8 ∷ []) (omega arith)
      (omega arith) (omega arith) (omega arith) tt (unfold write_frame in refl)
