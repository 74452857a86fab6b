-- ===== src/Protocol/Frame/Fill.antt =====
-- engine/protocol/src/lib.rs: the loops over `read`, on readers that deliver in any pieces.
use loofi_face_id.Prelude.{
  ℕ, zero, suc, ◌+◌, ◌-◌, ◌≤◌, ◌<◌, ◌≡◌, refl, sym, ap, ◌∙◌, ◌≢◌, arith, List, [], ◌∷◌, ◌++◌,
  length, take, drop, length-drop, length-append, length-take, take-append-drop, append_assoc,
  append-nil,
}
use loofi_face_id.Protocol.Stream.{
  Reader, piece, interrupted, failure, read, pending, weight, IsHealthy, push_back,
}
use loofi_face_id.Protocol.Frame.Read.{fill, full, ended, exhausted}

-- What one `read` takes from a piece, and what it leaves, together give what all the pieces give.
take-split {ℓ} :
    {A : Type ℓ} (m : ℕ) (xs ys : List A)
    → take m xs ++ take (m - length (take m xs)) (drop m xs ++ ys) ≡ take m (xs ++ ys)
take-split zero xs ys = refl
take-split (suc m) [] ys = let e : suc m - 0 ≡ suc m = omega arith in rw e
take-split (suc m) (x ∷ xs) ys =
    let e : suc m - suc (length (take m xs)) ≡ m - length (take m xs) = omega arith in
    rw e (ap (λ t. x ∷ t) (take-split m xs ys))

drop-split {ℓ} :
    {A : Type ℓ} (m : ℕ) (xs ys : List A)
    → drop (m - length (take m xs)) (drop m xs ++ ys) ≡ drop m (xs ++ ys)
drop-split zero xs ys = refl
drop-split (suc m) [] ys = let e : suc m - 0 ≡ suc m = omega arith in rw e
drop-split (suc m) (x ∷ xs) ys =
    let e : suc m - suc (length (take m xs)) ≡ m - length (take m xs) = omega arith in
    rw e (drop-split m xs ys)

pub pending-push_back : (bs : List ℕ) (r : Reader) → pending (push_back bs r) ≡ bs ++ pending r
unfolding pending
pending-push_back [] r = refl
pending-push_back (b ∷ bs) r = refl

pub push_back-IsHealthy : (bs : List ℕ) (r : Reader) → IsHealthy r → IsHealthy (push_back bs r)
push_back-IsHealthy [] r h = h
push_back-IsHealthy (b ∷ bs) r h = h

pub weight-push_back :
    (bs : List ℕ) (r : Reader) → weight (push_back bs r) ≤ suc (length bs + weight r)
unfolding weight
weight-push_back [] r = omega arith
weight-push_back (b ∷ bs) r = omega arith

-- After a read of a piece fewer arrivals and bytes are left.
pub weight-rest :
    (m b : ℕ) (bs : List ℕ) (r : Reader)
    → weight (push_back (drop m bs) r) < weight (piece (b ∷ bs) ∷ r)
unfolding weight
weight-rest m b bs r = omega (arith, weight-push_back (drop m bs) r, length-drop m bs)

-- The bytes that a round stores and those that the later rounds store.
stored-split :
    (m b : ℕ) (bs stored : List ℕ) (r : Reader)
    → (stored ++ (b ∷ take m bs))
        ++ take (m - length (take m bs)) (pending (push_back (drop m bs) r))
      ≡ stored ++ (b ∷ take m (bs ++ pending r))
stored-split m b bs stored r =
    append_assoc stored (b ∷ take m bs) _
    ∙ ap (λ t. stored ++ (b ∷ t))
        (rw (pending-push_back (drop m bs) r) (take-split m bs (pending r)))

rest-split :
    (m : ℕ) (bs : List ℕ) (r : Reader)
    → drop (m - length (take m bs)) (pending (push_back (drop m bs) r)) ≡ drop m (bs ++ pending r)
rest-split m bs r = rw (pending-push_back (drop m bs) r) (drop-split m bs (pending r))

-- A round leaves enough in the stream for what is still missing.
length-rest :
    (m : ℕ) (bs : List ℕ) (r : Reader)
    → m ≤ length bs + length (pending r)
    → m - length (take m bs) ≤ length (pending (push_back (drop m bs) r))
length-rest m bs r h =
    rw (pending-push_back (drop m bs) r)
      (omega (arith, length-append (drop m bs) (pending r), length-drop m bs, length-take m bs))

-- Where the stream holds enough, the loop stores exactly the first `missing` bytes, whatever the
-- pieces and interruptions, and leaves the others.
pub fill_full :
    (fuel missing : ℕ) (stored : List ℕ) (r : Reader)
    → IsHealthy r
    → weight r < fuel
    → missing ≤ length (pending r)
    → ((fill fuel missing stored r).0 ≡ full (stored ++ take missing (pending r)))
      × (pending (fill fuel missing stored r).1 ≡ drop missing (pending r))
      × IsHealthy (fill fuel missing stored r).1
unfolding fill read pending
fill_full fuel zero stored r h w n = (ap full (sym (append-nil stored)), refl, h)
fill_full zero (suc m) stored r h w n = absurd (omega arith)
fill_full (suc f) (suc m) stored [] h w n = absurd (omega arith)
fill_full (suc f) (suc m) stored (piece [] ∷ r) h w n = absurd h
fill_full (suc f) (suc m) stored (piece (b ∷ bs) ∷ r) h w n =
    let (e, p, k) =
      fill_full f (m - length (take m bs)) (stored ++ (b ∷ take m bs)) (push_back (drop m bs) r)
        (push_back-IsHealthy (drop m bs) r h) (omega (arith, weight-rest m b bs r))
        (length-rest m bs r (omega (arith, length-append bs (pending r)))) in
    (e ∙ ap full (stored-split m b bs stored r), p ∙ rest-split m bs r, k)
fill_full (suc f) (suc m) stored (interrupted ∷ r) h w n =
    fill_full f (suc m) stored r h (unfold weight in omega arith) n
fill_full (suc f) (suc m) stored (failure e ∷ r) h w n = absurd h

short-rest :
    (m : ℕ) (bs : List ℕ) (r : Reader)
    → length bs + length (pending r) < m
    → length (pending (push_back (drop m bs) r)) < m - length (take m bs)
short-rest m bs r h =
    rw (pending-push_back (drop m bs) r)
      (omega (arith, length-append (drop m bs) (pending r), length-drop m bs, length-take m bs))

ended-split :
    (m b : ℕ) (bs stored : List ℕ) (r : Reader)
    → (stored ++ (b ∷ take m bs)) ++ pending (push_back (drop m bs) r)
      ≡ stored ++ (b ∷ (bs ++ pending r))
ended-split m b bs stored r =
    append_assoc stored (b ∷ take m bs) _
    ∙ ap (λ t. stored ++ (b ∷ t))
        (rw (pending-push_back (drop m bs) r) (
          sym (append_assoc (take m bs) (drop m bs) (pending r))
          ∙ ap (λ t. t ++ pending r) (take-append-drop m bs)))

-- Where the stream ends too early, the loop stores all that there is and sees the end.
pub fill_ended :
    (fuel missing : ℕ) (stored : List ℕ) (r : Reader)
    → IsHealthy r
    → weight r < fuel
    → length (pending r) < missing
    → (fill fuel missing stored r).0 ≡ ended (stored ++ pending r)
unfolding fill read pending
fill_ended fuel zero stored r h w n = absurd (omega arith)
fill_ended zero (suc m) stored r h w n = absurd (omega arith)
fill_ended (suc f) (suc m) stored [] h w n = ap ended (sym (append-nil stored))
fill_ended (suc f) (suc m) stored (piece [] ∷ r) h w n = absurd h
fill_ended (suc f) (suc m) stored (piece (b ∷ bs) ∷ r) h w n =
    fill_ended f (m - length (take m bs)) (stored ++ (b ∷ take m bs)) (push_back (drop m bs) r)
      (push_back-IsHealthy (drop m bs) r h) (omega (arith, weight-rest m b bs r))
      (short-rest m bs r (omega (arith, length-append bs (pending r))))
    ∙ ap ended (ended-split m b bs stored r)
fill_ended (suc f) (suc m) stored (interrupted ∷ r) h w n =
    fill_ended f (suc m) stored r h (unfold weight in omega arith) n
fill_ended (suc f) (suc m) stored (failure e ∷ r) h w n = absurd h

-- The loop never runs out of fuel, on any reader, one that fails included.
pub fill-ne-exhausted :
    (fuel missing : ℕ) (stored : List ℕ) (r : Reader)
    → weight r < fuel
    → (fill fuel missing stored r).0 ≢ exhausted
unfolding fill read
fill-ne-exhausted fuel zero stored r w e = cc
fill-ne-exhausted zero (suc m) stored r w e = absurd (omega arith)
fill-ne-exhausted (suc f) (suc m) stored [] w e = cc
fill-ne-exhausted (suc f) (suc m) stored (piece [] ∷ r) w e = cc
fill-ne-exhausted (suc f) (suc m) stored (piece (b ∷ bs) ∷ r) w e =
    fill-ne-exhausted f (m - length (take m bs)) (stored ++ (b ∷ take m bs))
      (push_back (drop m bs) r) (omega (arith, weight-rest m b bs r)) e
fill-ne-exhausted (suc f) (suc m) stored (interrupted ∷ r) w e =
    fill-ne-exhausted f (suc m) stored r (unfold weight in omega arith) e
fill-ne-exhausted (suc f) (suc m) stored (failure x ∷ r) w e = cc
