-- ===== src/Vault/Reopening.antt =====
-- engine/templates/src/lib.rs: a profile that was committed is the one that is opened later.
use loofi_face_id.Prelude.{ℕ, ◌≡◌, Bool, Option, none, List, ok}
use loofi_face_id.Vault.Codec.{Sample, Profile}
use loofi_face_id.Vault.Envelope.{Cipher}
use loofi_face_id.Vault.Files.{passed, Node, Owner, ReadCalls, validate_directory, read_secure_file}
use loofi_face_id.Vault.Store.{open_profile}
use loofi_face_id.Vault.Claims.{Claim}

-- The calls of a read that nothing disturbs.
abbrev pub undisturbed : ReadCalls
undisturbed = record {
  stats = passed;
  opens = passed;
  replaced = none;
  fstats = passed;
  reads = passed;
}

-- What a success must have established of the root and the vault.
abbrev pub OnSuccess : (Option Node → Option Node → Type 0) → Claim
OnSuccess Q result root vault = result ≡ ok tt → Q root vault

module _ (cipher : Cipher) (is_normalized : Sample → Bool) where
  -- Both checks of `open_profile` on the file pass, and the bytes are `bytes`.
  abbrev pub IsStored : Owner → List ℕ → Option Node → Option Node → Type 0
  IsStored o bytes root vault =
      (validate_directory o passed root ≡ ok tt) × (read_secure_file o undisturbed vault ≡ ok bytes)

  abbrev pub Opens : Owner → List ℕ → Profile → Option Node → Option Node → Type 0
  Opens o key profile root vault =
      (temporary : Option Node) (is_locked : Bool)
      → open_profile cipher is_normalized o passed undisturbed key
          (record { root = root; vault = vault; temporary = temporary; is_locked = is_locked })
        ≡ ok profile
