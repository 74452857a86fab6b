-- ===== src/Daemon/Wire.antt =====
-- engine/daemon/src/lib.rs: what `decode_daemon_request` accepts, against the layout of a request.
use loofi_face_id.Prelude.{
  ℕ, zero, suc, ◌+◌, ◌≤◌, ◌≡◌, refl, sym, ap, true, false, not, ◌&&◌, ◌||◌, List, [], ◌∷◌, ◌++◌,
  arith, ltb, ◌==◌, ==_iff, ==_refl, length, take, All, ok, Ensures, Ensures-guard, Ensures-if,
  IsByte, IsU16, IsU32, from_be16, from_be32, to_be16, to_be32, from_be16-byte_of,
  from_be32-byte_of,
}
use loofi_face_id.Daemon.Request.{
  DaemonRequest, invalid_length, unsupported_version, malformed_pam, invalid_bounds, invalid_target,
  invalid_encoding, invalid_username, pam_auth, status, freshness, op_pam_auth, op_status,
  op_freshness, contains_nul, is_auth_target, is_out_of_bounds, in_range, decode_pam_auth,
  decode_opcode, decode_freshness, decode_daemon_request, max_daemon_request_bytes,
}
use loofi_face_id.Utf8.{is_utf8}

-- The layout of a request on the wire.
abbrev pub request_bytes : DaemonRequest → List ℕ
request_bytes (pam_auth uid auth_target timeout_ms username) =
    0
    ∷ 2
    ∷ op_pam_auth
    ∷ auth_target
    ∷ (to_be32 uid ++ to_be32 timeout_ms ++ to_be16 (length username) ++ username)
request_bytes (status uid) = 0 ∷ 2 ∷ op_status ∷ 0 ∷ to_be32 uid
request_bytes (freshness uid local_digest) =
    0 ∷ 3 ∷ op_freshness ∷ 0 ∷ (to_be32 uid ++ local_digest)

-- The bounds on a request's fields.
abbrev pub IsRequest : DaemonRequest → Type 0
IsRequest (pam_auth uid auth_target timeout_ms username) =
    IsU32 uid
    × (is_auth_target auth_target ≡ true)
    × (1 ≤ timeout_ms)
    × (timeout_ms ≤ 2000)
    × (1 ≤ length username)
    × (length username ≤ 255)
    × (is_utf8 username ≡ true)
    × (contains_nul username ≡ false)
IsRequest (status uid) = IsU32 uid
IsRequest (freshness uid local_digest) = IsU32 uid × (length local_digest ≡ 32)

abbrev pub IsAccepted : List ℕ → DaemonRequest → Type 0
IsAccepted payload request = IsRequest request × (payload ≡ request_bytes request)

take-all : (n : ℕ) (xs : List ℕ) → length xs ≡ n → take n xs ≡ xs
take-all zero [] h = refl
take-all zero (x ∷ xs) h = absurd (omega arith)
take-all (suc n) [] h = refl
take-all (suc n) (x ∷ xs) h = ap (λ t. x ∷ t) (take-all n xs (omega arith))

to_be16-from_be16 : (a b : ℕ) → IsByte a → IsByte b → to_be16 (from_be16 a b) ≡ a ∷ b ∷ []
to_be16-from_be16 a b ha hb = ground arith

to_be32-from_be32 :
    (a b c d : ℕ)
    → IsByte a
    → IsByte b
    → IsByte c
    → IsByte d
    → to_be32 (from_be32 a b c d) ≡ a ∷ b ∷ c ∷ d ∷ []
to_be32-from_be32 a b c d ha hb hc hd = ground arith

-- Every request within its bounds is read back from its layout.
pub decode_daemon_request-request_bytes :
    (request : DaemonRequest)
    → IsRequest request
    → decode_daemon_request (request_bytes request) ≡ ok request
unfolding decode_daemon_request decode_opcode decode_freshness decode_pam_auth
decode_daemon_request-request_bytes (status uid) h = simp (from_be32-byte_of uid h)
decode_daemon_request-request_bytes (freshness uid digest) (h, n) =
    simp (from_be32-byte_of uid h, n, take-all 32 digest n)
decode_daemon_request-request_bytes (pam_auth uid target timeout name)
      (h, t, lo, hi, one, many, u, z) =
    let len : length (request_bytes (pam_auth uid target timeout name)) ≡ 14 + length name =
      omega arith in
    let longer : ltb (14 + length name) 8 ≡ false = ground arith in
    let long : ltb (14 + length name) 14 ≡ false = ground arith in
    let short : ltb max_daemon_request_bytes (14 + length name) ≡ false = ground arith in
    let bound : IsU16 (length name) = omega arith in
    let low : in_range 1 2000 timeout ≡ true = ground arith in
    let size : in_range 1 255 (length name) ≡ true = ground arith in
    simp (
      from_be32-byte_of uid h,
      from_be32-byte_of timeout (omega arith),
      from_be16-byte_of (length name) bound,
      len,
      longer,
      long,
      short,
      t,
      u,
      z,
      low,
      size,
      ==_refl (14 + length name),
    )

-- What `decode_pam_auth` has checked when it succeeds.
pam_auth_checks :
    (Q : DaemonRequest → Type 0) (a b c target u0 u1 u2 u3 t0 t1 t2 t3 n0 n1 uid : ℕ)
    (name : List ℕ)
    → (is_auth_target target ≡ true
        → in_range 1 2000 (from_be32 t0 t1 t2 t3) ≡ true
        → in_range 1 255 (from_be16 n0 n1) ≡ true
        → length name ≡ from_be16 n0 n1
        → is_utf8 name ≡ true
        → contains_nul name ≡ false
        → Q (pam_auth uid target (from_be32 t0 t1 t2 t3) name))
    → Ensures Q (
        decode_pam_auth
          (a ∷ b ∷ c ∷ target ∷ u0 ∷ u1 ∷ u2 ∷ u3 ∷ t0 ∷ t1 ∷ t2 ∷ t3 ∷ n0 ∷ n1 ∷ name)
          uid)
unfolding decode_pam_auth
pam_auth_checks Q a b c target u0 u1 u2 u3 t0 t1 t2 t3 n0 n1 uid name k =
    let payload = a ∷ b ∷ c ∷ target ∷ u0 ∷ u1 ∷ u2 ∷ u3 ∷ t0 ∷ t1 ∷ t2 ∷ t3 ∷ n0 ∷ n1 ∷ name in
    Ensures-guard Q (not (ltb (length payload) 14)) malformed_pam _ λ long.
      Ensures-guard Q (is_auth_target target) invalid_target _ λ is_target.
        Ensures-guard Q
          (not (is_out_of_bounds (from_be32 t0 t1 t2 t3) (from_be16 n0 n1) (length payload)))
          invalid_bounds _
          λ bounds. Ensures-guard Q (is_utf8 name) invalid_encoding _ λ utf8.
            Ensures-guard Q (not (contains_nul name)) invalid_username _
              λ nul. k is_target (ground arith) (ground arith) (ground arith) utf8 (ground arith)

-- A payload of at least fourteen bytes, under the opcode.
pam_auth_accepts :
    (target u0 u1 u2 u3 t0 t1 t2 t3 n0 n1 : ℕ) (name : List ℕ)
    → All IsByte (u0 ∷ u1 ∷ u2 ∷ u3 ∷ t0 ∷ t1 ∷ t2 ∷ t3 ∷ n0 ∷ n1 ∷ [])
    → let payload =
        0 ∷ 2 ∷ op_pam_auth ∷ target ∷ u0 ∷ u1 ∷ u2 ∷ u3 ∷ t0 ∷ t1 ∷ t2 ∷ t3 ∷ n0 ∷ n1 ∷ name in
      Ensures (IsAccepted payload) (decode_pam_auth payload (from_be32 u0 u1 u2 u3))
pam_auth_accepts target u0 u1 u2 u3 t0 t1 t2 t3 n0 n1 name h =
    pam_auth_checks _ 0 2 op_pam_auth target u0 u1 u2 u3 t0 t1 t2 t3 n0 n1 _ name
      λ is_target timeout_range size_range size utf8 nul.
        let uid : to_be32 (from_be32 u0 u1 u2 u3) ≡ u0 ∷ u1 ∷ u2 ∷ u3 ∷ [] =
          to_be32-from_be32 u0 u1 u2 u3 (omega arith) (omega arith) (omega arith) (omega arith) in
        let timeout : to_be32 (from_be32 t0 t1 t2 t3) ≡ t0 ∷ t1 ∷ t2 ∷ t3 ∷ [] =
          to_be32-from_be32 t0 t1 t2 t3 (omega arith) (omega arith) (omega arith) (omega arith) in
        let len : to_be16 (length name) ≡ n0 ∷ n1 ∷ [] =
          rw size (to_be16-from_be16 n0 n1 (omega arith) (omega arith)) in
        (
          (
            omega arith,
            is_target,
            ground arith,
            ground arith,
            ground arith,
            ground arith,
            utf8,
            nul,
          ),
          λ i. 0 ∷ 2 ∷ op_pam_auth ∷ target ∷ (sym uid i ++ sym timeout i ++ sym len i ++ name),
        )

-- `decode_pam_auth` on any payload of at least eight bytes.
decode_pam_auth_accepts :
    (target u0 u1 u2 u3 : ℕ) (rest : List ℕ)
    → All IsByte (u0 ∷ u1 ∷ u2 ∷ u3 ∷ rest)
    → let payload = 0 ∷ 2 ∷ op_pam_auth ∷ target ∷ u0 ∷ u1 ∷ u2 ∷ u3 ∷ rest in
      Ensures (IsAccepted payload) (decode_pam_auth payload (from_be32 u0 u1 u2 u3))
unfolding decode_pam_auth
decode_pam_auth_accepts target u0 u1 u2 u3 [] h = tt
decode_pam_auth_accepts target u0 u1 u2 u3 (a ∷ []) h = tt
decode_pam_auth_accepts target u0 u1 u2 u3 (a ∷ b ∷ []) h = tt
decode_pam_auth_accepts target u0 u1 u2 u3 (a ∷ b ∷ c ∷ []) h = tt
decode_pam_auth_accepts target u0 u1 u2 u3 (a ∷ b ∷ c ∷ d ∷ []) h = tt
decode_pam_auth_accepts target u0 u1 u2 u3 (a ∷ b ∷ c ∷ d ∷ e ∷ []) h = tt
decode_pam_auth_accepts target u0 u1 u2 u3 (t0 ∷ t1 ∷ t2 ∷ t3 ∷ n0 ∷ n1 ∷ name) h =
    pam_auth_accepts target u0 u1 u2 u3 t0 t1 t2 t3 n0 n1 name (omega arith)

empty : (xs : List ℕ) → length xs ≡ 0 → xs ≡ []
empty [] h = refl
empty (x ∷ xs) h = absurd (omega arith)

-- `decode_opcode` under version 2.
decode_opcode_accepts :
    (op third u0 u1 u2 u3 : ℕ) (rest : List ℕ)
    → All IsByte (u0 ∷ u1 ∷ u2 ∷ u3 ∷ rest)
    → let payload = 0 ∷ 2 ∷ op ∷ third ∷ u0 ∷ u1 ∷ u2 ∷ u3 ∷ rest in
      Ensures (IsAccepted payload) (decode_opcode payload)
unfolding decode_opcode
decode_opcode_accepts op third u0 u1 u2 u3 rest h =
    let payload = 0 ∷ 2 ∷ op ∷ third ∷ u0 ∷ u1 ∷ u2 ∷ u3 ∷ rest in
    let uid : to_be32 (from_be32 u0 u1 u2 u3) ≡ u0 ∷ u1 ∷ u2 ∷ u3 ∷ [] =
      to_be32-from_be32 u0 u1 u2 u3 (omega arith) (omega arith) (omega arith) (omega arith) in
    Ensures-if (IsAccepted payload) (op == op_pam_auth) _ _
      (λ t. rw ((==_iff op op_pam_auth).0 t) (decode_pam_auth_accepts third u0 u1 u2 u3 rest h))
      λ _.
        Ensures-if (IsAccepted payload) (op == op_status && length payload == 8 && third == 0) _ _
          (λ t.
            let is_status : op ≡ op_status = ground arith in
            let reserved : third ≡ 0 = ground arith in
            let end : rest ≡ [] = empty rest (ground arith) in
            (omega arith, λ i. 0 ∷ 2 ∷ is_status i ∷ reserved i ∷ (sym uid i ++ end i)))
          λ _. tt

-- `decode_freshness` on a payload of forty bytes.
decode_freshness_accepts :
    (u0 u1 u2 u3 : ℕ) (digest : List ℕ)
    → All IsByte (u0 ∷ u1 ∷ u2 ∷ u3 ∷ [])
    → length digest ≡ 32
    → let payload = 0 ∷ 3 ∷ op_freshness ∷ 0 ∷ u0 ∷ u1 ∷ u2 ∷ u3 ∷ digest in
      Ensures (IsAccepted payload) (decode_freshness payload)
unfolding decode_freshness
decode_freshness_accepts u0 u1 u2 u3 digest h n =
    let uid : to_be32 (from_be32 u0 u1 u2 u3) ≡ u0 ∷ u1 ∷ u2 ∷ u3 ∷ [] =
      to_be32-from_be32 u0 u1 u2 u3 (omega arith) (omega arith) (omega arith) (omega arith) in
    rw (take-all 32 digest n)
      ((omega arith, n), λ i. 0 ∷ 3 ∷ op_freshness ∷ 0 ∷ (sym uid i ++ digest))

-- `decode_daemon_request` ends on any payload of bytes, without a panic. A request that it returns
-- is within its bounds, and the payload is the layout of that request and nothing else.
pub decode_daemon_request-Ensures :
    (payload : List ℕ)
    → All IsByte payload
    → Ensures (IsAccepted payload) (decode_daemon_request payload)
unfolding decode_daemon_request
decode_daemon_request-Ensures [] h = tt
decode_daemon_request-Ensures (a ∷ []) h = tt
decode_daemon_request-Ensures (a ∷ b ∷ []) h = tt
decode_daemon_request-Ensures (a ∷ b ∷ c ∷ []) h = tt
decode_daemon_request-Ensures (a ∷ b ∷ c ∷ d ∷ []) h = tt
decode_daemon_request-Ensures (a ∷ b ∷ c ∷ d ∷ e ∷ []) h = tt
decode_daemon_request-Ensures (a ∷ b ∷ c ∷ d ∷ e ∷ f ∷ []) h = tt
decode_daemon_request-Ensures (a ∷ b ∷ c ∷ d ∷ e ∷ f ∷ g ∷ []) h = tt
decode_daemon_request-Ensures (a ∷ b ∷ op ∷ third ∷ u0 ∷ u1 ∷ u2 ∷ u3 ∷ rest) h =
    let payload = a ∷ b ∷ op ∷ third ∷ u0 ∷ u1 ∷ u2 ∷ u3 ∷ rest in
    let Q = IsAccepted payload in
    let is_fresh = from_be16 a b == 3 && length payload == 40 && op == op_freshness && third == 0 in
    Ensures-guard Q (not (ltb (length payload) 8 || ltb max_daemon_request_bytes (length payload)))
      invalid_length _
      λ _.
        Ensures-if Q is_fresh _ _
          (λ t.
            let ea : a ≡ 0 = ground arith in
            let eb : b ≡ 3 = ground arith in
            let eo : op ≡ op_freshness = ground arith in
            let et : third ≡ 0 = ground arith in
            rw (ea, eb, eo, et)
              (decode_freshness_accepts u0 u1 u2 u3 rest (omega arith) (ground arith)))
          λ _. Ensures-guard Q (from_be16 a b == 2) unsupported_version _ λ t.
            let ea : a ≡ 0 = ground arith in
            let eb : b ≡ 2 = ground arith in
            rw (ea, eb) (decode_opcode_accepts op third u0 u1 u2 u3 rest h.1.1.1.1)
