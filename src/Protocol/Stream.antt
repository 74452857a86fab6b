-- ===== src/Protocol/Stream.antt =====
-- The byte streams that engine/protocol/src/lib.rs reads and writes through `std::io::Read` and
-- `std::io::Write`, which may deliver data in pieces of any size, be interrupted, and fail.
use loofi_face_id.Prelude.{
  ℕ, suc, ◌+◌, ◌-◌, List, [], ◌∷◌, ◌++◌, length, take, drop, leb, if◌then◌else◌,
}

-- `io::ErrorKind`, as far as the code or the standard library tells the kinds apart.
pub data IoError : Type 0 where
  unexpected_eof : IoError
  write_zero : IoError
  other : ℕ → IoError

-- What a reader will do at its next calls: hand over bytes that have arrived, be interrupted by a
-- signal, or fail. An empty list is the end of the stream; so is an empty piece, once.
pub data Arrival : Type 0 where
  piece : List ℕ → Arrival
  interrupted : Arrival
  failure : IoError → Arrival

abbrev pub Reader : Type 0
Reader = List Arrival

-- The result of one `read`: `Ok(n)` with the bytes stored, `ErrorKind::Interrupted`, or `Err`.
pub data ReadResult : Type 0 where
  got : List ℕ → ReadResult
  again : ReadResult
  failed : IoError → ReadResult

-- What is left of a piece goes back to the front.
abbrev pub push_back : List ℕ → Reader → Reader
push_back [] r = r
push_back (b ∷ bs) r = piece (b ∷ bs) ∷ r

-- `reader.read(&mut buffer)` with room for `n` bytes, where `n` is not 0.
unfoldable pub read : ℕ → Reader → ReadResult × Reader
read n [] = (got [], [])
read n (piece bs ∷ r) = (got (take n bs), push_back (drop n bs) r)
read n (interrupted ∷ r) = (again, r)
read n (failure e ∷ r) = (failed e, r)

-- The bytes that are still to come, if no call fails.
unfoldable pub pending : Reader → List ℕ
pending [] = []
pending (piece bs ∷ r) = bs ++ pending r
pending (interrupted ∷ r) = pending r
pending (failure e ∷ r) = pending r

-- How many calls of `read` can store something or be interrupted.
unfoldable pub weight : Reader → ℕ
weight [] = 0
weight (piece bs ∷ r) = suc (length bs + weight r)
weight (interrupted ∷ r) = suc (weight r)
weight (failure e ∷ r) = suc (weight r)

-- A reader that ends only at its end and never fails; interruptions are allowed.
abbrev pub IsHealthy : Reader → Type 0
IsHealthy [] = Unit {0}
IsHealthy (piece [] ∷ r) = ⊥
IsHealthy (piece (b ∷ bs) ∷ r) = IsHealthy r
IsHealthy (interrupted ∷ r) = IsHealthy r
IsHealthy (failure e ∷ r) = ⊥

-- A writer keeps what was written, and has room for so many bytes more.
pub record Writer : Type 0 where
  pub written : List ℕ
  pub room : ℕ

pub data WriteResult : Type 0 where
  done : WriteResult
  refused : IoError → WriteResult

-- `write_all`: a writer that takes no more bytes makes it fail after what still fits.
unfoldable pub write_all : List ℕ → Writer → WriteResult × Writer
write_all bytes w =
    if leb (length bytes) w.room
    then (done, record { written = w.written ++ bytes; room = w.room - length bytes })
    else (refused write_zero, record { written = w.written ++ take w.room bytes; room = 0 })
