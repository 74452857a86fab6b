-- ===== src/Daemon/Progress.antt =====
-- engine/daemon/src/lib.rs: `write_client_progress`, over what the clock and the client's socket
-- answer at each pass of its loop; `none` stands for passes that end before the loop does. A payload
-- whose length does not fit `u32` is refused.
use loofi_face_id.Prelude.{
  ℕ, zero, suc, ◌^◌, List, [], ◌∷◌, ◌++◌, Option, none, some, Outcome, ok, err, to_be32, take, drop,
  length, ltb, min, if◌then◌else◌,
}
use loofi_face_id.Protocol.Stream.{IoError}
use loofi_face_id.Daemon.Status.{is_expired}

-- One `write` on the non-blocking socket: it takes at most so many bytes, would block, is
-- interrupted, or fails.
pub data WriteAnswer : Type 0 where
  takes : ℕ → WriteAnswer
  would_block interrupted : WriteAnswer
  fails : IoError → WriteAnswer

pub record Pass : Type 0 where
  pub now : ℕ
  pub answer : WriteAnswer

pub data ProgressError : Type 0 where
  too_large expired write_failed : ProgressError
  io_failed : IoError → ProgressError

-- The result, and the bytes that have gone to the client.
abbrev pub Progress : Type 0
Progress = Option (Outcome ProgressError (Unit {0}) × List ℕ)

-- `write` takes at most what is there.
abbrev pub taken : ℕ → List ℕ → ℕ
taken count rest = min count (length rest)

-- What follows a `write`; `go` is the next pass on what has gone and what is to go.
abbrev pub after_write : WriteAnswer → List ℕ → List ℕ → (List ℕ → List ℕ → Progress) → Progress
after_write (takes zero) sent rest go = some (err write_failed, sent)
after_write (takes (suc n)) sent rest go =
    go (sent ++ take (taken (suc n) rest) rest) (drop (taken (suc n) rest) rest)
after_write would_block sent rest go = go sent rest
after_write interrupted sent rest go = go sent rest
after_write (fails e) sent rest go = some (err (io_failed e), sent)

-- `while sent < frame.len()`: `sent` are the bytes that have gone, `rest` those to go.
unfoldable pub write_loop : ℕ → List ℕ → List ℕ → List Pass → Progress
unfolding is_expired
write_loop deadline sent [] passes = some (ok tt, sent)
write_loop deadline sent (b ∷ rest) [] = none
write_loop deadline sent (b ∷ rest) (pass ∷ passes) =
    if is_expired deadline pass.now
    then some (err expired, sent)
    else after_write pass.answer sent (b ∷ rest)
        λ sent' rest'. write_loop deadline sent' rest' passes

abbrev pub progress_frame : List ℕ → List ℕ
progress_frame payload = to_be32 (length payload) ++ payload

unfoldable pub write_client_progress : ℕ → List ℕ → List Pass → Progress
unfolding write_loop
write_client_progress deadline payload passes =
    if ltb (length payload) (2 ^ 32)
    then write_loop deadline [] (progress_frame payload) passes
    else some (err too_large, [])
