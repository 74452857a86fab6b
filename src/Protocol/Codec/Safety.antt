-- ===== src/Protocol/Codec/Safety.antt =====
-- engine/protocol/src/lib.rs: the decoders on any input at all: no index is out of range, and only
-- canonical requests are accepted.
use loofi_face_id.Prelude.{
  ℕ, ◌≡◌, ◌<◌, ◌≤◌, ◌+◌, ◌>>◌, not, is_empty, Bool, true, false, ==_iff, leb→le, from_be16,
  from_be32, refl, ok, arith, List, [], ◌∷◌, length, All, IsByte, Outcome, IsAnswer, index,
  index-lt, guard, guard-IsAnswer, >>=-IsAnswer, ◌>>=◌, take, drop, length-drop, length-take_le,
  leb, ◌==◌, index_be16, index_be32,
}
use loofi_face_id.Protocol.Types.{Request, CodecError, OperationSupport}
use loofi_face_id.Protocol.Codec.Request.{
  encode_request, decode_request, validate_payload, validate_version,
}
use loofi_face_id.Protocol.Codec.Response.{SupportArray, from_wire, decode_support}
use loofi_face_id.Protocol.Codec.Decode.{
  decode_response, decode_body, decode_capabilities, decode_status, error_of_byte,
}

-- `decode_request` accepts a payload only if it is the encoding of the request that it returns.
pub decode_request_canonical :
    (payload : List ℕ) (request : Request)
    → All IsByte payload
    → decode_request payload ≡ ok request
    → payload ≡ encode_request request
unfolding decode_request encode_request
decode_request_canonical (a ∷ b ∷ c ∷ d ∷ []) request h e = ground arith
decode_request_canonical [] request h e = cc
decode_request_canonical (a ∷ []) request h e = cc
decode_request_canonical (a ∷ b ∷ []) request h e = cc
decode_request_canonical (a ∷ b ∷ c ∷ []) request h e = cc
decode_request_canonical (a ∷ b ∷ c ∷ d ∷ x ∷ rest) request h e = ground arith

decode_request-IsAnswer : (payload : List ℕ) → IsAnswer (decode_request payload)
unfolding decode_request
decode_request-IsAnswer [] = tt
decode_request-IsAnswer (a ∷ []) = tt
decode_request-IsAnswer (a ∷ b ∷ []) = tt
decode_request-IsAnswer (a ∷ b ∷ c ∷ []) = tt
decode_request-IsAnswer (a ∷ b ∷ c ∷ d ∷ rest) = ground arith

from_wire-IsAnswer : (b : ℕ) → IsAnswer (from_wire b)
unfolding from_wire
from_wire-IsAnswer b = ground arith

-- A bind whose first part reads a byte that is there.
index->>=-IsAnswer :
    {A : Type 0} (xs : List ℕ) (i : ℕ) (f : ℕ → Outcome CodecError A)
    → i < length xs
    → ((b : ℕ) → IsAnswer (f b))
    → IsAnswer (index xs i >>= f)
index->>=-IsAnswer xs i f h k = let (b, e) = index-lt {E = CodecError} xs i h in rw e (k b)

wire->>=-IsAnswer :
    {A : Type 0} (b : ℕ) (f : OperationSupport → Outcome CodecError A)
    → ((s : OperationSupport) → IsAnswer (f s))
    → IsAnswer (from_wire b >>= f)
wire->>=-IsAnswer b f k = >>=-IsAnswer (from_wire b) f (from_wire-IsAnswer b) (λ s e. k s)

-- One entry of the array that `decode_support` reads.
entry->>=-IsAnswer :
    {A : Type 0} (xs : List ℕ) (i : ℕ) (f : OperationSupport → Outcome CodecError A)
    → i < length xs
    → ((s : OperationSupport) → IsAnswer (f s))
    → IsAnswer (index xs i >>= λ b. from_wire b >>= f)
entry->>=-IsAnswer xs i f h k =
    index->>=-IsAnswer xs i (λ b. from_wire b >>= f) h (λ b. wire->>=-IsAnswer b f k)

decode_support-IsAnswer : (xs : List ℕ) → length xs ≡ 14 → IsAnswer (decode_support xs)
unfolding decode_support
decode_support-IsAnswer xs h = entry->>=-IsAnswer xs 0 _ (omega arith) λ s0.
    entry->>=-IsAnswer xs 1 _ (omega arith) λ s1. entry->>=-IsAnswer xs 2 _ (omega arith) λ s2.
      entry->>=-IsAnswer xs 3 _ (omega arith) λ s3. entry->>=-IsAnswer xs 4 _ (omega arith) λ s4.
        entry->>=-IsAnswer xs 5 _ (omega arith) λ s5. entry->>=-IsAnswer xs 6 _ (omega arith) λ s6.
          entry->>=-IsAnswer xs 7 _ (omega arith) λ s7.
            entry->>=-IsAnswer xs 8 _ (omega arith) λ s8.
              entry->>=-IsAnswer xs 9 _ (omega arith) λ s9.
                entry->>=-IsAnswer xs 10 _ (omega arith) λ s10.
                  entry->>=-IsAnswer xs 11 _ (omega arith) λ s11.
                    entry->>=-IsAnswer xs 12 _ (omega arith)
                      λ s12. entry->>=-IsAnswer xs 13 _ (omega arith) λ s13. tt

-- A check: what follows may rely on its test.
guard->>-IsAnswer :
    {A : Type 0} (b : Bool) (e : CodecError) (m : Outcome CodecError A)
    → (b ≡ true → IsAnswer m)
    → IsAnswer (guard b e >> m)
guard->>-IsAnswer true e m k = k refl
guard->>-IsAnswer false e m k = tt

be16->>=-IsAnswer :
    {A : Type 0} (xs : List ℕ) (i j : ℕ) (f : ℕ → Outcome CodecError A)
    → i < length xs
    → j < length xs
    → ((n : ℕ) → IsAnswer (f n))
    → IsAnswer (index_be16 xs i j >>= f)
be16->>=-IsAnswer xs i j f hi hj k =
    let (a, p) = index-lt {E = CodecError} xs i hi in
    let (b, q) = index-lt {E = CodecError} xs j hj in rw (p, q) (k (from_be16 a b))

be32->>=-IsAnswer :
    {A : Type 0} (xs : List ℕ) (i : ℕ) (f : ℕ → Outcome CodecError A)
    → i + 3 < length xs
    → ((n : ℕ) → IsAnswer (f n))
    → IsAnswer (index_be32 xs i (i + 1) (i + 2) (i + 3) >>= f)
be32->>=-IsAnswer xs i f h k =
    let (a, p) = index-lt {E = CodecError} xs i (omega arith) in
    let (b, q) = index-lt {E = CodecError} xs (i + 1) (omega arith) in
    let (c, r) = index-lt {E = CodecError} xs (i + 2) (omega arith) in
    let (d, t) = index-lt {E = CodecError} xs (i + 3) (omega arith) in
    rw (p, q, r, t) (k (from_be32 a b c d))

-- The fourteen bytes that start at `n`.
slice-IsAnswer :
    {A : Type 0} (xs : List ℕ) (n : ℕ) (f : SupportArray → Outcome CodecError A)
    → n + 14 ≤ length xs
    → ((a : SupportArray) → IsAnswer (f a))
    → IsAnswer (decode_support (take 14 (drop n xs)) >>= f)
slice-IsAnswer xs n f h k =
    >>=-IsAnswer (decode_support (take 14 (drop n xs))) f
      (decode_support-IsAnswer _ (length-take_le 14 (drop n xs) (omega (arith, length-drop n xs))))
      (λ a e. k a)

decode_capabilities-IsAnswer : (xs : List ℕ) → IsAnswer (decode_capabilities xs)
unfolding decode_capabilities
decode_capabilities-IsAnswer xs = guard->>-IsAnswer (length xs == 34) _ _ λ t.
    let n : length xs ≡ 34 = (==_iff _ _).0 t in
    index->>=-IsAnswer xs 32 _ (omega arith) λ first. guard->>-IsAnswer (first == 0) _ _ λ _.
      index->>=-IsAnswer xs 33 _ (omega arith) λ second. guard->>-IsAnswer (second == 0) _ _ λ _.
        slice-IsAnswer xs 18 _ (omega arith) λ support.
          be16->>=-IsAnswer xs 4 5 _ (omega arith) (omega arith) λ protocol_min.
            be16->>=-IsAnswer xs 6 7 _ (omega arith) (omega arith) λ protocol_max.
              be32->>=-IsAnswer xs 8 _ (omega arith) λ max_request.
                be32->>=-IsAnswer xs 12 _ (omega arith) λ max_response.
                  be16->>=-IsAnswer xs 16 17 _ (omega arith) (omega arith) λ operations. tt

decode_status-IsAnswer : (xs : List ℕ) → IsAnswer (decode_status xs)
unfolding decode_status
decode_status-IsAnswer xs = guard->>-IsAnswer (length xs == 19) _ _ λ t.
    let n : length xs ≡ 19 = (==_iff _ _).0 t in
    index->>=-IsAnswer xs 4 _ (omega arith) λ state.
      guard->>-IsAnswer (state == 2) _ _ λ _. slice-IsAnswer xs 5 _ (omega arith) λ support. tt

error_of_byte-IsAnswer : (b : ℕ) → IsAnswer (error_of_byte b)
unfolding error_of_byte
error_of_byte-IsAnswer b = ground arith

decode_body-IsAnswer : (kind : ℕ) (xs : List ℕ) → 5 ≤ length xs → IsAnswer (decode_body kind xs)
unfolding decode_body
decode_body-IsAnswer kind xs h =
    let (b, e) = index-lt {E = CodecError} xs 4 (omega arith) in
    ground (
      arith,
      decode_capabilities-IsAnswer xs,
      decode_status-IsAnswer xs,
      index->>=-IsAnswer xs 4 error_of_byte (omega arith) error_of_byte-IsAnswer,
    )

validate_payload-IsAnswer : (xs : List ℕ) (maximum : ℕ) → IsAnswer (validate_payload xs maximum)
unfolding validate_payload
validate_payload-IsAnswer xs maximum =
    guard->>-IsAnswer (not (is_empty xs)) _ _ λ _. guard-IsAnswer (leb (length xs) maximum) _

validate_version-IsAnswer : (xs : List ℕ) → IsAnswer (validate_version xs)
unfolding validate_version
validate_version-IsAnswer xs = guard->>-IsAnswer (leb 2 (length xs)) _ _ λ t.
    let n : 2 ≤ length xs = leb→le _ _ t in
    index->>=-IsAnswer xs 0 _ (omega arith) λ high.
      index->>=-IsAnswer xs 1 _ (omega arith) λ low. guard-IsAnswer (from_be16 high low == 2) _

decode_response-IsAnswer : (xs : List ℕ) → IsAnswer (decode_response xs)
unfolding decode_response
decode_response-IsAnswer xs =
    >>=-IsAnswer (validate_payload xs _) _ (validate_payload-IsAnswer xs _) λ _ _.
      guard->>-IsAnswer (leb 5 (length xs)) _ _ λ t.
        let n : 5 ≤ length xs = leb→le _ _ t in
        index->>=-IsAnswer xs 3 _ (omega arith) λ reserved.
          guard->>-IsAnswer (reserved == 0) _ _ λ _.
            >>=-IsAnswer (validate_version xs) _ (validate_version-IsAnswer xs)
              λ _ _. index->>=-IsAnswer xs 2 _ (omega arith) λ kind. decode_body-IsAnswer kind xs n

-- Neither decoder panics: on any payload at all each returns a value or an error, so every index is
-- in range where it is read.
pub decode_IsAnswer :
    (payload : List ℕ) → IsAnswer (decode_request payload) × IsAnswer (decode_response payload)
decode_IsAnswer payload = (decode_request-IsAnswer payload, decode_response-IsAnswer payload)
