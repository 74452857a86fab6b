-- ===== src/AuthPolicy/Storing.antt =====
-- engine/templates/src/auth_policy.rs: what `write_atomic` leaves, and what a load makes of it.
use loofi_face_id.Prelude.{
  ℕ, zero, suc, ◌≤◌, ◌≡◌, refl, sym, ap, ◌∙◌, ◌⊎◌, inl, inr, Bool, true, false, Option, none, some,
  List, [], ◌∷◌, arith, Bool-cases, length, take, Outcome, ok, err, panic, stuck, ◌>>=◌, ok_or,
  IsAnswer, Ensures, Ensures->>=, Ensures-ok_or, Ensures-guard,
}
use loofi_face_id.AuthPolicy.Table.{AuthPolicy, AuthPolicyError, unsafe_filesystem, io, IsPolicy}
use loofi_face_id.AuthPolicy.Json.{to_json}
use loofi_face_id.AuthPolicy.Parser.{parse_json, max_policy_bytes}
use loofi_face_id.AuthPolicy.RoundTrip.Users.{parse_json-to_json}
use loofi_face_id.AuthPolicy.Sound.Policy.{parse_json-Ensures}
use loofi_face_id.AuthPolicy.Files.{
  Metadata, Entry, not_found, unreadable, found, Identity, policy_identity, same_identity,
  PolicyDirectory, AuthPolicySnapshot, validate_root_directory, is_root_directory, is_plain_file,
  require_plain_file, is_policy_file, snapshot_from_directory, load_from_directory,
}
use loofi_face_id.AuthPolicy.Writing.{
  StoredFile, Store, WriteCalls, staged, complete, Written, write_staging, remove_staging,
  after_checks, write_checks, write_atomic,
}

-- The policy file is either untouched or complete.
abbrev pub IsOldOrComplete : List ℕ → Store → Written → Type 0
IsOldOrComplete text store (result, store') =
    ((store'.policy ≡ store.policy) ⊎ (store'.policy ≡ some (complete text)))
    × (result ≡ ok tt → (store'.policy ≡ some (complete text)) × (store'.staging ≡ none))
    × IsAnswer result

write_staging-IsOldOrComplete :
    (c : WriteCalls) (text : List ℕ) (store : Store)
    → IsOldOrComplete text store (write_staging c text store)
unfolding write_staging
write_staging-IsOldOrComplete c text store = ground arith

remove_staging-IsOldOrComplete :
    (c : WriteCalls) (text : List ℕ) (store : Store) (w : Written)
    → IsOldOrComplete text store w
    → IsOldOrComplete text store (remove_staging c w)
remove_staging-IsOldOrComplete c text store (ok done, store') h = h
remove_staging-IsOldOrComplete c text store (err why, store') h = ground (arith, h)
remove_staging-IsOldOrComplete c text store (panic, store') h = h
remove_staging-IsOldOrComplete c text store (stuck, store') h = h

after_checks-IsOldOrComplete :
    (checks : Outcome AuthPolicyError (Unit {0})) (text : List ℕ) (store : Store) (w : Written)
    → IsAnswer checks
    → IsOldOrComplete text store w
    → IsOldOrComplete text store (after_checks checks store w)
after_checks-IsOldOrComplete (ok done) text store w a h = h
after_checks-IsOldOrComplete (err why) text store w a h = (inl refl, λ e. cc, tt)
after_checks-IsOldOrComplete panic text store w a h = absurd a
after_checks-IsOldOrComplete stuck text store w a h = absurd a

-- Whichever system call fails, and wherever, `write_atomic` leaves the policy file as it was or
-- holding the whole of the new text, owned by root with mode 0o644. When it succeeds the file holds
-- the new text and no staging file is left.
pub write_atomic-IsOldOrComplete :
    (p : AuthPolicy) (c : WriteCalls) (store : Store)
    → IsOldOrComplete (to_json p) store (write_atomic p c store)
unfolding write_atomic write_checks validate_root_directory
write_atomic-IsOldOrComplete p c store =
    after_checks-IsOldOrComplete (write_checks c) (to_json p) store _ (ground arith) (
      remove_staging-IsOldOrComplete c (to_json p) store _
        (write_staging-IsOldOrComplete c (to_json p) (staged store [] 384 false)))

-- Metadata and names that the loader accepts, around these bytes.
pub record IsSafe (d : PolicyDirectory) (bytes : List ℕ) : Type 0 where
  pub directory : Metadata
  pub directory_found : d.directory ≡ some directory
  pub directory_safe : is_root_directory true directory ≡ true
  pub file : Metadata
  pub entry : d.entry ≡ found false true false
  pub opens : d.opens ≡ true
  pub before : d.before ≡ some file
  pub safe : is_policy_file file ≡ true
  pub contents : d.contents ≡ some bytes
  pub after : d.after ≡ some file

same_identity_refl : (a : Identity) → same_identity a a ≡ true
same_identity_refl a = ground arith

snapshot_from_directory-parse_json :
    (d : PolicyDirectory) (bytes : List ℕ) (h : IsSafe d bytes)
    → snapshot_from_directory d ≡ (
        parse_json (take (suc max_policy_bytes) bytes) >>= λ policy.
        ok (record { policy = policy; identity = policy_identity h.file }))
unfolding snapshot_from_directory validate_root_directory
snapshot_from_directory-parse_json d bytes h = simp (
  h.directory_found,
  h.directory_safe,
  h.entry,
  h.opens,
  h.before,
  h.safe,
  h.contents,
  h.after,
  same_identity_refl (policy_identity h.file),
)

-- The metadata that the loader has insisted on.
abbrev pub IsFound : Option Metadata → (Metadata → Type 0) → Type 0
IsFound none P = ⊥
IsFound (some m) P = P m

-- What a snapshot vouches for.
pub record IsVouched (d : PolicyDirectory) (s : AuthPolicySnapshot) : Type 0 where
  pub policy : IsPolicy s.policy
  pub directory : IsFound d.directory λ m. is_root_directory true m ≡ true
  pub entry : is_plain_file d.entry ≡ true
  pub before : IsFound d.before λ m. (is_policy_file m ≡ true) × (s.identity ≡ policy_identity m)
  pub after : IsFound d.after λ m. same_identity (policy_identity m) s.identity ≡ true

validate_root_directory-Ensures :
    (directory : Option Metadata) (config : Bool)
    → Ensures
        (λ _. IsFound directory λ m. is_root_directory config m ≡ true)
        (validate_root_directory directory config)
unfolding validate_root_directory
validate_root_directory-Ensures none config = tt
validate_root_directory-Ensures (some m) config = elim (Bool-cases (is_root_directory config m)) [
  | inl e ↦ rw e refl
  | inr e ↦ rw e tt
]

require_plain_file-Ensures :
    (entry : Entry) → Ensures (λ _. is_plain_file entry ≡ true) (require_plain_file entry)
require_plain_file-Ensures not_found = tt
require_plain_file-Ensures unreadable = tt
require_plain_file-Ensures (found is_dir is_file is_symlink) = ground arith

IsFound-some :
    (o : Option Metadata) (m : Metadata) (P : Metadata → Type 0) → o ≡ some m → P m → IsFound o P
IsFound-some o m P e h = rw e h

-- A snapshot is taken, on whatever the system calls answer, without a panic, and only from a
-- policy file that root alone can write, in a directory of the same kind, of the same identity
-- before and after it was read; its policy satisfies the invariant.
pub snapshot_from_directory-Ensures :
    (d : PolicyDirectory) → Ensures (IsVouched d) (snapshot_from_directory d)
unfolding snapshot_from_directory
snapshot_from_directory-Ensures d =
    let Q = IsVouched d in
    Ensures->>= (λ _. IsFound d.directory λ m. is_root_directory true m ≡ true) Q
      (validate_root_directory d.directory true) _
      (validate_root_directory-Ensures d.directory true)
      λ _ directory.
        Ensures->>= (λ _. is_plain_file d.entry ≡ true) Q (require_plain_file d.entry) _
          (require_plain_file-Ensures d.entry)
          λ _ entry. Ensures-guard Q d.opens unsafe_filesystem _ λ _.
            Ensures->>= (λ m. d.before ≡ some m) Q (ok_or d.before io) _
              (Ensures-ok_or _ d.before io λ m e. e)
              λ before is_before.
                Ensures-guard Q (is_policy_file before) unsafe_filesystem _ λ safe.
                  Ensures->>= (λ _. Unit {0}) Q (ok_or d.contents io) _
                    (Ensures-ok_or _ d.contents io λ _ _. tt)
                    λ bytes _.
                      Ensures->>= IsPolicy Q (parse_json (take (suc max_policy_bytes) bytes)) _
                        (parse_json-Ensures _)
                        λ policy is_policy.
                          Ensures->>= (λ m. d.after ≡ some m) Q (ok_or d.after io) _
                            (Ensures-ok_or _ d.after io λ m e. e)
                            λ after is_after.
                              Ensures-guard Q
                                (same_identity (policy_identity after) (policy_identity before))
                                unsafe_filesystem _
                                λ same. record {
                                  policy = is_policy;
                                  directory = directory;
                                  entry = entry;
                                  before = IsFound-some d.before before _ is_before (safe, refl);
                                  after = IsFound-some d.after after _ is_after same;
                                }

abbrev bytes_of : Option StoredFile → List ℕ
bytes_of none = []
bytes_of (some file) = file.bytes

take-all_le : (n : ℕ) (xs : List ℕ) → length xs ≤ n → take n xs ≡ xs
take-all_le zero [] h = refl
take-all_le zero (x ∷ xs) h = absurd (omega arith)
take-all_le (suc n) [] h = refl
take-all_le (suc n) (x ∷ xs) h = ap (λ t. x ∷ t) (take-all_le n xs (omega arith))

load_from_directory-IsSafe :
    (d : PolicyDirectory) (p : AuthPolicy)
    → IsPolicy p
    → length (to_json p) ≤ max_policy_bytes
    → IsSafe d (to_json p)
    → load_from_directory d.directory d.entry d ≡ ok p
unfolding load_from_directory validate_root_directory
load_from_directory-IsSafe d p h n safe = simp (
  safe.directory_found,
  safe.directory_safe,
  safe.entry,
  snapshot_from_directory-parse_json d (to_json p) safe,
  take-all_le (suc max_policy_bytes) (to_json p) (omega arith),
  parse_json-to_json p h n,
)

-- After a successful `write_atomic` of a policy that satisfies its invariant and whose text has at
-- most 64 KiB, a load that meets the stored file under safe metadata returns that policy.
pub load_from_directory-write_atomic :
    (p : AuthPolicy) (c : WriteCalls) (store : Store) (file : StoredFile) (d : PolicyDirectory)
    → IsPolicy p
    → length (to_json p) ≤ max_policy_bytes
    → (write_atomic p c store).0 ≡ ok tt
    → (write_atomic p c store).1.policy ≡ some file
    → IsSafe d file.bytes
    → load_from_directory d.directory d.entry d ≡ ok p
load_from_directory-write_atomic p c store file d h n done stored safe =
    let (old, whole, answers) = write_atomic-IsOldOrComplete p c store in
    let same : some (complete (to_json p)) ≡ some file = sym (whole done).0 ∙ stored in
    let bytes : to_json p ≡ file.bytes = ap (λ f. bytes_of f) same in
    load_from_directory-IsSafe d p h n (rw (bytes) safe)
