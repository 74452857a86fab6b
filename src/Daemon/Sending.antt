-- ===== src/Daemon/Sending.antt =====
-- engine/daemon/src/lib.rs: what `write_client_progress` sends to the client.
use loofi_face_id.Prelude.{
  ℕ, zero, suc, ◌+◌, ◌^◌, ◌≤◌, ◌<◌, ◌≡◌, refl, sym, ap, ◌∙◌, List, [], ◌∷◌, ◌++◌, append_assoc,
  append-nil, none, some, ok, err, panic, stuck, IsU32, take, drop, take-append-drop, length, leb,
  le→leb, lt→ltb, arith, Bool-cases, inl, inr, leb,
}
use loofi_face_id.Protocol.Frame.Write.{write_frame}
use loofi_face_id.Protocol.Frame.Transport.{fresh, write_frame_writes}
use loofi_face_id.Daemon.Status.{is_expired}
use loofi_face_id.Daemon.Progress.{
  Pass, WriteAnswer, takes, would_block, interrupted, fails, Progress, taken, after_write,
  write_loop, progress_frame, write_client_progress,
}

-- A success has sent the whole frame, an error only a part of it.
abbrev pub IsFrontOf : List ℕ → Progress → Type 0
IsFrontOf frame none = ⊥
IsFrontOf frame (some (ok _, sent)) = sent ≡ frame
IsFrontOf frame (some (err e, sent)) = (left : List ℕ) × (0 < length left) × (sent ++ left ≡ frame)
IsFrontOf frame (some (panic, sent)) = ⊥
IsFrontOf frame (some (stuck, sent)) = ⊥

moved : (sent frame : List ℕ) (n : ℕ) → (sent ++ take n frame) ++ drop n frame ≡ sent ++ frame
moved sent frame n =
    append_assoc sent (take n frame) (drop n frame) ∙ ap (λ t. sent ++ t) (take-append-drop n frame)

after_write-IsFrontOf :
    (answer : WriteAnswer) (frame sent rest : List ℕ) (go : List ℕ → List ℕ → Progress)
    → 0 < length rest
    → sent ++ rest ≡ frame
    → ((sent' rest' : List ℕ) → sent' ++ rest' ≡ frame → IsFrontOf frame (go sent' rest'))
    → IsFrontOf frame (after_write answer sent rest go)
after_write-IsFrontOf (takes zero) frame sent rest go some_left e h = (rest, some_left, e)
after_write-IsFrontOf (takes (suc n)) frame sent rest go some_left e h =
    h _ _ (moved sent rest (taken (suc n) rest) ∙ e)
after_write-IsFrontOf would_block frame sent rest go some_left e h = h sent rest e
after_write-IsFrontOf interrupted frame sent rest go some_left e h = h sent rest e
after_write-IsFrontOf (fails io) frame sent rest go some_left e h = (rest, some_left, e)

write_loop-IsFrontOf :
    (deadline : ℕ) (frame sent rest : List ℕ) (before after : List Pass) (late : Pass)
    → deadline ≤ late.now
    → sent ++ rest ≡ frame
    → IsFrontOf frame (write_loop deadline sent rest (before ++ (late ∷ after)))
unfolding write_loop is_expired
write_loop-IsFrontOf deadline frame sent [] before after late h e = sym (append-nil sent) ∙ e
write_loop-IsFrontOf deadline frame sent (b ∷ rest) [] after late h e =
    rw (le→leb deadline late.now h) (b ∷ rest, omega arith, e)
write_loop-IsFrontOf deadline frame sent (b ∷ rest) (pass ∷ before) after late h e =
    elim (Bool-cases (leb deadline pass.now)) [
      | inl out ↦ rw out (b ∷ rest, omega arith, e)
      | inr early ↦ rw early (
          after_write-IsFrontOf pass.answer frame sent (b ∷ rest) _ (omega arith) e
            λ sent' rest' e'.
              write_loop-IsFrontOf deadline frame sent' rest' before after late h e')
    ]

-- `write_client_progress` ends by the first pass at or after the deadline. When it succeeds, the
-- bytes that `write_frame` writes of the payload have gone to the client; when it fails, a front of
-- them that is not all of them. The payload has 1 byte up to `write_frame`'s maximum and fewer than
-- 2 ^ 32.
pub write_client_progress-write_frame :
    (deadline maximum : ℕ) (payload : List ℕ) (before after : List Pass) (late : Pass)
    → 0 < length payload
    → length payload ≤ maximum
    → IsU32 (length payload)
    → deadline ≤ late.now
    → IsFrontOf
        (write_frame (fresh (4 + length payload)) payload maximum).1.written
        (write_client_progress deadline payload (before ++ (late ∷ after)))
unfolding write_client_progress
write_client_progress-write_frame deadline maximum payload before after late some_byte few small h =
    let frame = progress_frame payload in
    rw
      (
        lt→ltb (length payload) (2 ^ 32) small,
        (write_frame_writes (fresh (4 + length payload)) payload maximum some_byte few small
            (omega arith)).1,
      )
      (write_loop-IsFrontOf deadline frame [] frame before after late h refl)
