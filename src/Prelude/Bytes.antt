-- ===== src/Prelude/Bytes.antt =====
-- Bytes and the big-endian words of `to_be_bytes` and `from_be_bytes`.
use Prim.Native.Nat.{ℕ, ◌+◌, ◌*◌, ◌/◌, ◌%◌, ◌^◌, ◌<◌}
use Prim.Native.Char.{code}
use Prim.Native.String.{String}
use mathlib.Core.Path.{◌≡◌, refl}
use mathlib.Core.Bool.{Bool, true, false, ◌&&◌}
use mathlib.Core.List.{List, [], ◌∷◌}
use native.Mathlib.Omega.{arith}
use loofi_face_id.Prelude.Tests.{◌==◌}

abbrev pub IsByte : ℕ → Type 0
IsByte b = b < 256

abbrev pub IsU16 : ℕ → Type 0
IsU16 n = n < 2 ^ 16

abbrev pub IsU32 : ℕ → Type 0
IsU32 n = n < 2 ^ 32

abbrev pub IsU64 : ℕ → Type 0
IsU64 n = n < 2 ^ 64

abbrev pub from_be16 : ℕ → ℕ → ℕ
from_be16 a b = a * 256 + b

abbrev pub from_be32 : ℕ → ℕ → ℕ → ℕ → ℕ
from_be32 a b c d = a * 16777216 + b * 65536 + c * 256 + d

-- Byte `i` of a number, counted from the least significant one.
abbrev pub byte_of : ℕ → ℕ → ℕ
byte_of n scale = n / scale % 256

abbrev pub to_be16 : ℕ → List ℕ
to_be16 n = byte_of n 256 ∷ byte_of n 1 ∷ []

abbrev pub to_be32 : ℕ → List ℕ
to_be32 n = byte_of n 16777216 ∷ byte_of n 65536 ∷ byte_of n 256 ∷ byte_of n 1 ∷ []

pub from_be16-byte_of : (n : ℕ) → IsU16 n → from_be16 (byte_of n 256) (byte_of n 1) ≡ n
from_be16-byte_of n h = omega arith

pub from_be32-byte_of :
    (n : ℕ)
    → IsU32 n
    → from_be32 (byte_of n 16777216) (byte_of n 65536) (byte_of n 256) (byte_of n 1) ≡ n
from_be32-byte_of n h = omega arith

abbrev pub from_be64 : ℕ → ℕ → ℕ → ℕ → ℕ → ℕ → ℕ → ℕ → ℕ
from_be64 a b c d e f g h = from_be32 a b c d * 2 ^ 32 + from_be32 e f g h

-- The upper and the lower half.
abbrev pub to_be64 : ℕ → List ℕ
to_be64 n =
    byte_of (n / 2 ^ 32) 16777216
    ∷ byte_of (n / 2 ^ 32) 65536
    ∷ byte_of (n / 2 ^ 32) 256
    ∷ byte_of (n / 2 ^ 32) 1
    ∷ to_be32 (n % 2 ^ 32)

-- Equality of byte strings.
abbrev pub bytes_eq : List ℕ → List ℕ → Bool
bytes_eq [] [] = true
bytes_eq [] (y ∷ ys) = false
bytes_eq (x ∷ xs) [] = false
bytes_eq (x ∷ xs) (y ∷ ys) = x == y && bytes_eq xs ys

pub bytes_eq_refl : (xs : List ℕ) → bytes_eq xs xs ≡ true
bytes_eq_refl [] = refl
bytes_eq_refl (x ∷ xs) = ground (arith, bytes_eq_refl xs)

pub bytes_eq→eq : (xs ys : List ℕ) → bytes_eq xs ys ≡ true → xs ≡ ys
bytes_eq→eq [] [] h = refl
bytes_eq→eq [] (y ∷ ys) h = cc
bytes_eq→eq (x ∷ xs) [] h = cc
bytes_eq→eq (x ∷ xs) (y ∷ ys) h = ground (arith, bytes_eq→eq xs ys)

-- The bytes of an ASCII text.
abbrev pub ascii : String → List ℕ
ascii String.[] = []
ascii (String.◌∷◌ c s) = code c ∷ ascii s
