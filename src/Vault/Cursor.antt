-- ===== src/Vault/Cursor.antt =====
-- engine/templates/src/lib.rs: `VaultError`, `Cursor` and `push_string`. A cursor is the bytes from
-- its offset on; a method returns what it reads and what it leaves.
use loofi_face_id.Prelude.{
  ℕ, zero, suc, List, [], ◌∷◌, ◌++◌, Option, none, some, Outcome, ok, err, ◌>>=◌, ◌>>◌, guard,
  ok_or, length, leb, from_be16, from_be32,
}
use loofi_face_id.Utf8.{is_utf8}

-- `VaultError`, without what the system says of an I/O or a cryptographic error.
pub data VaultError : Type 0 where
  io crypto key_provider unavailable not_found unsafe_filesystem lock_timeout oversized : VaultError
  corrupt unknown_schema wrong_uid model_mismatch profile_bounds invalid_embedding : VaultError

abbrev pub Read : Type 0 → Type 0
Read A = Outcome VaultError (A × List ℕ)

abbrev pub prepend : ℕ → Option (List ℕ × List ℕ) → Option (List ℕ × List ℕ)
prepend b none = none
prepend b (some (front, rest)) = some (b ∷ front, rest)

-- `get(offset..offset + count)`, and what follows it.
abbrev pub split_at? : ℕ → List ℕ → Option (List ℕ × List ℕ)
split_at? zero bytes = some ([], bytes)
split_at? (suc count) [] = none
split_at? (suc count) (b ∷ bytes) = prepend b (split_at? count bytes)

-- `Cursor::take`
abbrev pub take_bytes : ℕ → List ℕ → Read (List ℕ)
take_bytes count bytes = ok_or (split_at? count bytes) corrupt

-- `Cursor::u8`
abbrev pub read_u8 : List ℕ → Read ℕ
read_u8 [] = err corrupt
read_u8 (b ∷ bytes) = ok (b, bytes)

-- `Cursor::u16`
abbrev pub read_u16 : List ℕ → Read ℕ
read_u16 (a ∷ b ∷ bytes) = ok (from_be16 a b, bytes)
read_u16 [] = err corrupt
read_u16 (a ∷ []) = err corrupt

-- `Cursor::u32`
abbrev pub read_u32 : List ℕ → Read ℕ
read_u32 (a ∷ b ∷ c ∷ d ∷ bytes) = ok (from_be32 a b c d, bytes)
read_u32 [] = err corrupt
read_u32 (a ∷ []) = err corrupt
read_u32 (a ∷ b ∷ []) = err corrupt
read_u32 (a ∷ b ∷ c ∷ []) = err corrupt

-- `Cursor::string`
unfoldable pub read_string : List ℕ → Read (List ℕ)
read_string bytes = do
  (count, rest) ← read_u8 bytes
  (text, rest') ← take_bytes count rest
  guard (is_utf8 text) corrupt
  ok (text, rest')

-- `push_string`: the output behind it.
unfoldable pub push_string : List ℕ → List ℕ → Outcome VaultError (List ℕ)
push_string output value = do
  guard (leb (length value) 255) corrupt
  ok (output ++ (length value ∷ value))
