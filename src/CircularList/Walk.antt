-- ===== src/CircularList/Walk.antt =====
-- Walks along a circular list: counting, and steps in both directions.
use intrusive.Base.{
  ℕ, zero, suc, ◌+◌, ◌<◌, ◌≡◌, ◌≢◌, [], ◌∷◌, List, ◌++◌, arith, last, length, count, count-append,
}
use intrusive.Machine.{Ptr, null, ok}
use intrusive.CircularList
use intrusive.CircularList.{
  Links, get_next, get_previous, next_n, previous_n, distance, distance_loop, count_loop,
}
use intrusive.CircularList.Ring.{Ring, Seg, Seg-split}

pub get_next-ok : (p : Ptr) (h : Links) → p ≢ null → get_next p h ≡ ok (h.next p) h
unfolding get_next
get_next-ok p h n = ground arith

count_loop-length :
    {h : Links} (k : ℕ) (this p : Ptr) (xs : List Ptr) (r : ℕ)
    → Seg h p xs
    → h.next (last p xs) ≡ this
    → count this xs ≡ 0
    → count null (p ∷ xs) ≡ 0
    → length xs < k
    → count_loop k this p r h ≡ ok (r + suc (length xs)) h
unfolding count_loop
count_loop-length zero this p xs r s c d n f = absurd (omega arith)
count_loop-length (suc k) this p [] r s c d n f = ground arith
count_loop-length (suc k) this p (x ∷ xs) r s c d n f =
    ground (arith, count_loop-length k this x xs (r + 1) s.1 c, s.0.forth)

-- `count`, with fuel for each node of the circular list, ends with their number, the one it
-- starts from included, and leaves the store as it is.
pub count-length :
    {h : Links} {p : Ptr} {xs : List Ptr} (fuel : ℕ)
    → Ring h p xs
    → length xs < fuel
    → CircularList.count fuel p h ≡ ok (suc (length xs)) h
unfolding CircularList.count
count-length {p} {xs} fuel r f =
    ground (arith, count_loop-length fuel p p xs 0 r.seg r.closed.forth, r.distinct p)

distance_loop-length :
    {h : Links} (k : ℕ) (p l : Ptr) (xs : List Ptr) (r : ℕ)
    → Seg h p xs
    → h.next (last p xs) ≡ l
    → count l (p ∷ xs) ≡ 0
    → count null (p ∷ xs) ≡ 0
    → suc (length xs) < k
    → distance_loop k p l r h ≡ ok (r + suc (length xs)) h
unfolding distance_loop
distance_loop-length zero p l xs r s c d n f = absurd (omega arith)
distance_loop-length (suc zero) p l xs r s c d n f = absurd (omega arith)
distance_loop-length (suc (suc k)) p l [] r s c d n f = ground arith
distance_loop-length (suc (suc k)) p l (x ∷ xs) r s c d n f =
    ground (arith, distance_loop-length (suc k) x l xs (r + 1) s.1 c, s.0.forth)

-- `distance` from a node to another one of its circular list, with fuel for each step and one
-- round more, ends with the number of steps between them, and leaves the store as it is.
pub distance-length :
    {h : Links} {p : Ptr} (xs : List Ptr) (l : Ptr) (ys : List Ptr) (fuel : ℕ)
    → Ring h p (xs ++ l ∷ ys)
    → suc (length xs) < fuel
    → distance fuel p l h ≡ ok (suc (length xs)) h
unfolding distance
distance-length {p} xs l ys fuel r f =
    let (front, link, back) = Seg-split p xs l ys r.seg in
    ground (
      arith,
      distance_loop-length fuel p l xs 0 front link.forth,
      r.distinct l,
      r.nonnull,
      count-append l xs (l ∷ ys),
      count-append null xs (l ∷ ys),
    )

pub next_n-length :
    {h : Links} (p : Ptr) (xs : List Ptr) (y : Ptr)
    → Seg h p xs
    → h.next (last p xs) ≡ y
    → count null (p ∷ xs) ≡ 0
    → next_n (suc (length xs)) p h ≡ ok y h
unfolding next_n
next_n-length p [] y s l n = ground arith
next_n-length p (x ∷ xs) y s l n = ground (arith, next_n-length x xs y s.1 l, s.0.forth)

previous_n-snoc :
    {h : Links} (n : ℕ) (p q y : Ptr)
    → previous_n n p h ≡ ok q h
    → q ≢ null
    → h.prev q ≡ y
    → previous_n (suc n) p h ≡ ok y h
unfolding previous_n
previous_n-snoc zero p q y e n b = ground arith
previous_n-snoc {h} (suc k) p q y e n b = ground (arith, previous_n-snoc {h = h} k (h.prev p) q y)

pub previous_n-length :
    {h : Links} (p : Ptr) (xs : List Ptr) (y : Ptr)
    → Seg h p xs
    → h.prev p ≡ y
    → count null (p ∷ xs) ≡ 0
    → previous_n (suc (length xs)) (last p xs) h ≡ ok y h
unfolding previous_n
previous_n-length p [] y s l n = ground arith
previous_n-length p (x ∷ xs) y s l n =
    previous_n-snoc (suc (length xs)) (last x xs) p y
      (previous_n-length x xs p s.1 s.0.back (omega arith)) (ground arith) l

pub get_previous-ok : (p : Ptr) (h : Links) → p ≢ null → get_previous p h ≡ ok (h.prev p) h
unfolding get_previous
get_previous-ok p h n = ground arith
