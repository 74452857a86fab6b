-- ===== src/Vault/Keeping.antt =====
-- engine/templates/src/lib.rs: what the operations of the vault leave in its directory.
use loofi_face_id.Prelude.{
  ℕ, zero, suc, ◌≤◌, ◌≡◌, refl, sym, ap, ◌≢◌, ◌⊎◌, inl, inr, Bool, true, not, ◌||◌, Option, some,
  List, [], ◌∷◌, arith, ltb, leb, leb→le, Bool-cases, length, take, is_empty, Outcome, ok, err,
  panic, stuck, ◌>>◌, guard, Ensures, Ensures->>=, Ensures-guard,
}
use mathlib.Core.Path.{subst}
use loofi_face_id.Vault.Cursor.{VaultError, io, crypto, oversized, unsafe_filesystem}
use loofi_face_id.Vault.Codec.{Sample, Profile, maximum_vault_bytes}
use loofi_face_id.Vault.Envelope.{Cipher, decode_vault}
use loofi_face_id.Vault.Files.{
  IoAnswer, passed, vanished, failed, io_result, Node, Owner, ReadCalls, or_else,
  validate_secure_path, read_secure_file, open_nofollow, is_same_secure_file, is_secure_node,
  has_mode, file_mode,
}
use loofi_face_id.Vault.Lock.{permissions_set}
use loofi_face_id.Vault.Replacement.{
  Folder, Written, attempt, ReplaceCalls, temporary_node, remove_temporary, is_free, replace_from,
  write_verified_atomic,
}

-- What `read_secure_file` returns is the whole file that it opened, of at most 16384 bytes.
take_whole : (n : ℕ) (xs : List ℕ) → length (take (suc n) xs) ≤ n → take (suc n) xs ≡ xs
take_whole zero [] h = refl
take_whole zero (x ∷ xs) h = absurd (omega arith)
take_whole (suc n) [] h = refl
take_whole (suc n) (x ∷ xs) h = ap (λ t. x ∷ t) (take_whole n xs (omega arith))

-- What `read_secure_file` has checked when it returns these bytes, of the name and of the file that
-- it opened.
pub record IsRead (o : Owner) (node file : Node) (bytes : List ℕ) : Type 0 where
  pub secure : is_secure_node o node ≡ true
  pub mode : has_mode (file_mode o.kind) node.metadata ≡ true
  pub small : leb node.metadata.len maximum_vault_bytes ≡ true
  pub plain : not file.is_symlink ≡ true
  pub same : is_same_secure_file o node.metadata file.metadata ≡ true
  pub whole : bytes ≡ file.contents
  pub bound : length bytes ≤ maximum_vault_bytes

Ensures-io_result :
    {B : Type 0} (Q : B → Type 0) (answer : IoAnswer) (m : Outcome VaultError B)
    → Ensures Q m
    → Ensures Q (io_result answer >> m)
Ensures-io_result Q passed m h = h
Ensures-io_result Q vanished m h = tt
Ensures-io_result Q failed m h = tt

abbrev pub IsSecure : Owner → Node → Node → Type 0
IsSecure o node before =
    (before ≡ node)
    × (is_secure_node o node ≡ true)
    × (has_mode (file_mode o.kind) node.metadata ≡ true)

pub validate_secure_path-Ensures :
    (o : Owner) (answer : IoAnswer) (node : Node)
    → Ensures (IsSecure o node) (validate_secure_path o answer (some node))
unfolding validate_secure_path
validate_secure_path-Ensures o vanished node = tt
validate_secure_path-Ensures o failed node = tt
validate_secure_path-Ensures o passed node =
    let Q = IsSecure o node in
    Ensures-guard Q (is_secure_node o node) unsafe_filesystem _ λ secure.
      Ensures-guard Q (has_mode (file_mode o.kind) node.metadata) unsafe_filesystem _
        λ mode. (refl, secure, mode)

open_nofollow-Ensures :
    (answer : IoAnswer) (node : Node)
    → Ensures (λ file. (file ≡ node) × (not node.is_symlink ≡ true)) (open_nofollow answer node)
open_nofollow-Ensures answer node =
    Ensures-io_result (λ file. (file ≡ node) × (not node.is_symlink ≡ true)) answer _
      (Ensures-guard (λ file. (file ≡ node) × (not node.is_symlink ≡ true)) (not node.is_symlink) io
        _ λ h. (refl, h))

pub read_secure_file-Ensures :
    (o : Owner) (c : ReadCalls) (node : Node)
    → Ensures (IsRead o node (or_else c.replaced node)) (read_secure_file o c (some node))
unfolding read_secure_file validate_secure_path
read_secure_file-Ensures o c node =
    let file = or_else c.replaced node in
    let Q = IsRead o node file in
    Ensures->>= (IsSecure o node) Q (validate_secure_path o c.stats (some node)) _
      (validate_secure_path-Ensures o c.stats node)
      λ before (same_node, secure, mode). rw same_node (
        Ensures-guard Q (leb node.metadata.len maximum_vault_bytes) oversized _ λ small.
          Ensures->>= (λ f. (f ≡ file) × (not file.is_symlink ≡ true)) Q
            (open_nofollow c.opens file) _ (open_nofollow-Ensures c.opens file)
            λ f (same_file, plain). rw same_file (
              Ensures-io_result Q c.fstats _ (
                Ensures-guard Q (is_same_secure_file o node.metadata file.metadata)
                  unsafe_filesystem _
                  λ same. Ensures-io_result Q c.reads _ (
                    Ensures-guard Q
                      (leb (length (take (suc maximum_vault_bytes) file.contents))
                        maximum_vault_bytes)
                      oversized _
                      λ bound. record {
                        secure = secure;
                        mode = mode;
                        small = small;
                        plain = plain;
                        same = same;
                        whole = take_whole maximum_vault_bytes file.contents (leb→le _ _ bound);
                        bound = leb→le _ _ bound;
                      }))))

pub read_secure_file-IsRead :
    (o : Owner) (c : ReadCalls) (node : Node) (bytes : List ℕ)
    → read_secure_file o c (some node) ≡ ok bytes
    → IsRead o node (or_else c.replaced node) bytes
read_secure_file-IsRead o c node bytes h =
    subst (Ensures (IsRead o node (or_else c.replaced node))) h (read_secure_file-Ensures o c node)

-- A step that fails leaves the directory as it is at that step.
pub attempt-Ensures {ℓ} :
    {A : Type ℓ} (Q : Written → Type 0) (m : Outcome VaultError A) (folder : Folder)
    (next : A → Written)
    → ((o : Outcome VaultError (Unit {0})) → o ≢ ok tt → Q (o, folder))
    → ((a : A) → m ≡ ok a → Q (next a))
    → Q (attempt m folder next)
attempt-Ensures Q (ok a) folder next h k = k a refl
attempt-Ensures Q (err e) folder next h k = h (err e) λ p. cc
attempt-Ensures Q panic folder next h k = h panic λ p. cc
attempt-Ensures Q stuck folder next h k = h stuck λ p. cc

-- A last step that changes nothing in the model gives the operation its result.
pub attempt-io_result :
    (answer : IoAnswer) (folder : Folder)
    → attempt (io_result answer) folder (λ _. (ok tt, folder)) ≡ (io_result answer, folder)
attempt-io_result passed folder = refl
attempt-io_result vanished folder = refl
attempt-io_result failed folder = refl

module _ (cipher : Cipher) (is_normalized : Sample → Bool) where
  -- A file whose whole contents open under the key.
  abbrev pub IsVerified : List ℕ → ℕ → Option Node → Type 0
  IsVerified key uid entry =
      (node : Node) × (profile : Profile) × (entry ≡ some node)
      × (decode_vault cipher is_normalized node.contents key uid ≡ ok profile)

  -- A failure that leaves the vault as it was, or a vault that was verified before it took the name;
  -- then the result is that of the sync of the directory.
  abbrev pub IsReplaced : ReplaceCalls → List ℕ → ℕ → Folder → Written → Type 0
  IsReplaced c key uid start result =
      ((result.1.vault ≡ start.vault) × (result.0 ≢ ok tt))
      ⊎ ((result.0 ≡ io_result c.syncs_directory) × IsVerified key uid result.1.vault)

  replace_from-IsReplaced :
      (o : Owner) (c : ReplaceCalls) (bytes key : List ℕ) (folder : Folder)
      → IsReplaced c key o.uid folder (replace_from cipher is_normalized o c bytes key folder)
  unfolding replace_from
  replace_from-IsReplaced o c bytes key folder =
      let Q = IsReplaced c key o.uid folder in
      let node = temporary_node c bytes in
      attempt-Ensures Q (guard (permissions_set o.kind c.sets_permissions) unsafe_filesystem) _ _
        (λ o h. inl (refl, h))
        λ _ _.
          attempt-Ensures Q (io_result c.writes) _ _ (λ o h. inl (refl, h))
            λ _ _.
              attempt-Ensures Q (io_result c.syncs) _ _ (λ o h. inl (refl, h))
                λ _ _.
                  attempt-Ensures Q (read_secure_file o c.reread (some node)) _ _
                    (λ o h. inl (refl, h))
                    λ verified read.
                      attempt-Ensures Q (decode_vault cipher is_normalized verified key o.uid) _ _
                        (λ o h. inl (refl, h))
                        λ profile opened.
                          attempt-Ensures Q (io_result c.renames) _ _ (λ o h. inl (refl, h))
                            λ _ _.
                              let present = or_else c.reread.replaced node in
                              let good : IsVerified key o.uid (some present) = (
                                present,
                                profile,
                                refl,
                                rw (← (read_secure_file-IsRead o c.reread node verified read).whole)
                                    opened,
                              ) in
                              subst Q (sym (attempt-io_result c.syncs_directory _))
                                (inr (refl, good))

  remove_temporary-IsReplaced :
      (uid : ℕ) (c : ReplaceCalls) (key : List ℕ) (folder : Folder) (result : Written)
      → IsReplaced c key uid folder result
      → IsReplaced c key uid folder (remove_temporary c result)
  remove_temporary-IsReplaced uid c key folder result h = elim (Bool-cases c.removes) [
    | inl removed ↦ rw removed h
    | inr left ↦ rw left h
  ]

  pub write_verified_atomic-IsReplaced :
      (o : Owner) (c : ReplaceCalls) (bytes key : List ℕ) (folder : Folder)
      → IsReplaced c key o.uid folder
          (write_verified_atomic cipher is_normalized o c bytes key folder)
  unfolding write_verified_atomic
  write_verified_atomic-IsReplaced o c bytes key folder =
      let Q = IsReplaced c key o.uid folder in
      attempt-Ensures Q
        (guard (not (is_empty bytes || ltb maximum_vault_bytes (length bytes))) oversized) _ _
        (λ o h. inl (refl, h))
        λ _ _.
          attempt-Ensures Q (guard c.has_suffix crypto) _ _ (λ o h. inl (refl, h))
            λ _ _. remove_temporary-IsReplaced o.uid c key folder _ (
              attempt-Ensures Q (guard (is_free folder.temporary) io >> io_result c.creates) _ _
                (λ o h. inl (refl, h)) λ _ _. replace_from-IsReplaced o c bytes key folder)
