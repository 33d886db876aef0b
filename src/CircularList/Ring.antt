-- ===== src/CircularList/Ring.antt =====
-- What a circular list is: nodes that point to each other in a ring, forwards and backwards.
use intrusive.Base.{
  ◌≤◌, ◌≡◌, ◌≢◌, List, [], ◌∷◌, ◌++◌, arith, last, last-append, count, count-append, count-last,
  Distinct,
}
use intrusive.Machine.{Ptr, null}
use intrusive.CircularList.{Links}

-- `b` follows `a`.
pub record Linked (h : Links) (a b : Ptr) : Type 0 where
  pub forth : h.next a ≡ b
  pub back : h.prev b ≡ a

-- Each node of `x ∷ xs` but the last is followed by the next one of the list.
abbrev pub Seg : Links → Ptr → List Ptr → Type 0
Seg h x [] = Unit {0}
Seg h x (y ∷ ys) = Linked h x y × Seg h y ys

-- The distinct nodes `x ∷ xs` form a circular list.
pub record Ring (h : Links) (x : Ptr) (xs : List Ptr) : Type 0 where
  pub seg : Seg h x xs
  pub closed : Linked h (last x xs) x
  pub distinct : Distinct (x ∷ xs)
  pub nonnull : count null (x ∷ xs) ≡ 0

-- No node outside `xs` has changed.
abbrev pub SameOutside : List Ptr → Links → Links → Type 0
SameOutside xs h g = (a : Ptr) → count a xs ≡ 0 → (g.next a ≡ h.next a) × (g.prev a ≡ h.prev a)

pub Seg-frame :
    {h g : Links} (x : Ptr) (xs : List Ptr)
    → Seg h x xs
    → Distinct (x ∷ xs)
    → ((a : Ptr) → 1 ≤ count a (x ∷ xs) → a ≢ last x xs → g.next a ≡ h.next a)
    → ((a : Ptr) → 1 ≤ count a xs → g.prev a ≡ h.prev a)
    → Seg g x xs
Seg-frame x [] s d fn fp = tt
Seg-frame x (y ∷ ys) s d fn fp = (
  record {
    forth = ground (arith, fn x, d x, d (last y ys), count-last y ys);
    back = ground (arith, fp y);
  },
  Seg-frame y ys s.1 (λ a. omega (arith, d a)) (λ a m. fn a (omega arith))
      (λ a m. fp a (omega arith)),
)

pub Seg-append :
    {h : Links} (x : Ptr) (xs : List Ptr) (y : Ptr) (ys : List Ptr)
    → Seg h x xs
    → Linked h (last x xs) y
    → Seg h y ys
    → Seg h x (xs ++ y ∷ ys)
Seg-append x [] y ys s l t = (l, t)
Seg-append x (z ∷ xs) y ys s l t = (s.0, Seg-append z xs y ys s.1 l t)

pub Seg-split :
    {h : Links} (x : Ptr) (xs : List Ptr) (y : Ptr) (ys : List Ptr)
    → Seg h x (xs ++ y ∷ ys)
    → Seg h x xs × Linked h (last x xs) y × Seg h y ys
Seg-split x [] y ys s = (tt, s.0, s.1)
Seg-split x (z ∷ xs) y ys s =
    let (front, l, back) = Seg-split z xs y ys s.1 in ((s.0, front), l, back)

-- The same ring, seen from another of its nodes.
pub Ring-rotate :
    {h : Links} (x : Ptr) (xs : List Ptr) (y : Ptr) (ys : List Ptr)
    → Ring h x (xs ++ y ∷ ys)
    → Ring h y (ys ++ x ∷ xs)
Ring-rotate {h} x xs y ys r =
    let (front, l, back) = Seg-split x xs y ys r.seg in
    record {
      seg = Seg-append y ys x xs back (rw last-append at r.closed) front;
      closed = rw last-append l;
      distinct =
          λ a. omega (arith, r.distinct a, count-append a xs (y ∷ ys), count-append a ys (x ∷ xs));
      nonnull =
          omega (arith, r.nonnull, count-append null xs (y ∷ ys), count-append null ys (x ∷ xs));
    }

pub SameOutside-trans :
    (xs ys zs : List Ptr) {h g k : Links}
    → SameOutside xs h g
    → SameOutside ys g k
    → ((a : Ptr) → count a zs ≡ 0 → (count a xs ≡ 0) × (count a ys ≡ 0))
    → SameOutside zs h k
SameOutside-trans xs ys zs s t sub a o = let (p, q) = sub a o in ground (arith, s a p, t a q)

-- The node from which a ring is seen does not occur again.
pub Ring-fresh : {h : Links} {x : Ptr} {xs : List Ptr} → Ring h x xs → count x xs ≡ 0
Ring-fresh {x} r = ground (arith, r.distinct x)

-- A ring depends on its own nodes only.
pub Ring-frame :
    {h g : Links} {x : Ptr} {xs : List Ptr}
    → Ring h x xs
    → ((a : Ptr) → 1 ≤ count a (x ∷ xs) → (g.next a ≡ h.next a) × (g.prev a ≡ h.prev a))
    → Ring g x xs
Ring-frame {x} {xs} r same = record {
  seg = Seg-frame x xs r.seg r.distinct (λ a m n. (same a m).0) (λ a m. (same a (omega arith)).1);
  closed = ground (arith, same (last x xs), same x, count-last x xs);
  distinct = r.distinct;
  nonnull = r.nonnull;
}
