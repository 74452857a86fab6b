-- ===== src/Prelude/Words.antt =====
-- `u16::from_be_bytes` and `u32::from_be_bytes` on the bytes of a slice, and the conversion to a byte.
use Prim.Native.Nat.{ℕ, ◌<◌}
use mathlib.Core.Path.{◌≡◌, refl}
use native.Mathlib.Omega.{arith}
use mathlib.Core.List.{List}
use loofi_face_id.Prelude.Outcomes.{Outcome, ok, panic, ◌>>=◌, index}
use loofi_face_id.Prelude.Tests.{leb, le→leb, if◌then◌else◌}
use loofi_face_id.Prelude.Bytes.{from_be16, from_be32}

-- `u16::from_be_bytes([bytes[i], bytes[j]])`
abbrev pub index_be16 {ℓ} : {E : Type ℓ} → List ℕ → ℕ → ℕ → Outcome E ℕ
index_be16 bytes i j = do a ← index bytes i; b ← index bytes j; ok (from_be16 a b)

abbrev pub index_be32 {ℓ} : {E : Type ℓ} → List ℕ → ℕ → ℕ → ℕ → ℕ → Outcome E ℕ
index_be32 bytes i j k l = do
  a ← index bytes i
  b ← index bytes j
  c ← index bytes k
  d ← index bytes l
  ok (from_be32 a b c d)

-- `u8::try_from(n).expect(..)`
abbrev pub expect_u8 {ℓ} : {E : Type ℓ} → ℕ → Outcome E ℕ
expect_u8 n = if leb n 255 then ok n else panic

pub expect_u8_small {ℓ} : {E : Type ℓ} (n : ℕ) → n < 256 → expect_u8 {E = E} n ≡ ok n
expect_u8_small n small = rw (le→leb n 255 (omega arith)) refl
