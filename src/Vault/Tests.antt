-- ===== src/Vault/Tests.antt =====
-- Runs of the vault codec, with a cipher that hides nothing.
use loofi_face_id.Prelude.{
  ℕ, zero, suc, ◌≡◌, refl, sym, ap, Bool, false, Option, none, some, List, [], ◌∷◌, arith, ◌==◌,
  length, All, ok, ◌>>=◌, Ensures, IsU32,
}
use loofi_face_id.Vault.Codec.{Sample, Profile}
use loofi_face_id.Vault.Profiles.{IsSample, IsProfile, plaintext_of}
use loofi_face_id.Vault.Envelope.{Cipher, encode_vault, decode_vault}
use loofi_face_id.Vault.Opening.{IsCipher, decode_vault-encode_vault}
use loofi_face_id.Vault.Safety.{IsDecoded, decode_vault-Ensures}

abbrev pub zeros : ℕ → List ℕ
zeros zero = []
zeros (suc n) = 0 ∷ zeros n

-- `0.0` has the bit pattern 0, `1.0` the bit pattern 0x3f800000.
abbrev unit_sample : Sample
unit_sample = 0x3f800000 ∷ zeros 127

-- Whether the first value is `1.0`.
abbrev pub starts_with_one : Sample → Bool
starts_with_one [] = false
starts_with_one (v ∷ vs) = v == 0x3f800000

abbrev pub three_samples : Profile
three_samples = unit_sample ∷ unit_sample ∷ unit_sample ∷ []

zeros-IsU32 : (n : ℕ) → All IsU32 (zeros n)
zeros-IsU32 zero = tt
zeros-IsU32 (suc n) = (omega arith, zeros-IsU32 n)

unit_sample-IsSample : IsSample unit_sample
unit_sample-IsSample = (refl, (omega arith, zeros-IsU32 127))

pub three_samples-IsProfile : IsProfile starts_with_one three_samples
three_samples-IsProfile = (
  omega arith,
  omega arith,
  (unit_sample-IsSample, refl, (unit_sample-IsSample, refl, (unit_sample-IsSample, refl, tt))),
)

abbrev pub plain_cipher : Cipher
plain_cipher = record {
  encrypt = λ key nonce aad plaintext. some (plaintext, zeros 16);
  decrypt = λ key nonce aad ciphertext tag. some ciphertext;
}

abbrev text_of : Option (List ℕ × List ℕ) → List ℕ
text_of none = []
text_of (some (text, tag)) = text

abbrev tag_of : Option (List ℕ × List ℕ) → List ℕ
tag_of none = []
tag_of (some (text, tag)) = tag

pub plain_cipher-IsCipher : IsCipher plain_cipher
plain_cipher-IsCipher = record {
  sizes = λ key nonce aad plaintext ciphertext tag e.
      let texts : plaintext ≡ ciphertext = ap (λ o. text_of o) e in
      let tags : zeros 16 ≡ tag = ap (λ o. tag_of o) e in
      (ap length (sym texts), ap length (sym tags));
  opens = λ key nonce aad plaintext ciphertext tag e. ap (λ o. some (text_of o)) (sym e);
}

decode_vault-encode_vault_example :
    (encode_vault plain_cipher starts_with_one (some (zeros 12)) three_samples (zeros 32) 1000
      >>= λ bytes. decode_vault plain_cipher starts_with_one bytes (zeros 32) 1000)
    ≡ ok three_samples
decode_vault-encode_vault_example =
    decode_vault-encode_vault plain_cipher starts_with_one three_samples (zeros 32) (zeros 12)
      (plaintext_of starts_with_one three_samples 1000) (zeros 16) 1000 plain_cipher-IsCipher
      (omega arith) three_samples-IsProfile refl refl

decode_vault-Ensures_example :
    Ensures
      (IsDecoded starts_with_one)
      (decode_vault plain_cipher starts_with_one (zeros 50) (zeros 32) 1000)
decode_vault-Ensures_example =
    decode_vault-Ensures plain_cipher starts_with_one (zeros 50) (zeros 32) 1000
