-- ===== src/CircularList/Swap.antt =====
-- Swapping the positions of two nodes, in one circular list or in two, adjacent or not.
use mathlib.Core.List.{map}
use intrusive.Base.{
  ◌≡◌, ◌≢◌, refl, [], ◌∷◌, List, arith, ◌==◌, if◌then◌else◌, last, count, count-last,
}
use intrusive.Machine.{Ptr, null, Returns, returns, ok, update}
use intrusive.CircularList.{Links, swap_prev, swap_next, swap_links, swap_nodes}
use intrusive.CircularList.Ring.{Ring, Linked, Seg, Ring-frame, Ring-fresh}

-- `f` with its values at `a` and `b` exchanged.
abbrev exchange : (Ptr → Ptr) → Ptr → Ptr → Ptr → Ptr
exchange f a b = update (update f a (f b)) b (f a)

swap_prev-ok :
    (a b : Ptr) (h : Links)
    → a ≢ null
    → b ≢ null
    → swap_prev a b h ≡ ok tt (record h { prev = exchange h.prev a b })
unfolding swap_prev
swap_prev-ok a b h n m = ground arith

swap_next-ok :
    (a b : Ptr) (h : Links)
    → a ≢ null
    → b ≢ null
    → swap_next a b h ≡ ok tt (record h { next = exchange h.next a b })
unfolding swap_next
swap_next-ok a b h n m = ground arith

-- The address with `this` and `other` exchanged.
abbrev pub exchanged : (this other : Ptr) → Ptr → Ptr
exchanged this other a = if a == this then other else if a == other then this else a

abbrev swapped : (this other : Ptr) → Links → Links
swapped t o h = record {
  next = exchange (exchange h.next (h.prev t) (h.prev o)) t o;
  prev = exchange (exchange h.prev (h.next t) (h.next o)) t o;
}

-- `n` stands in a circular list.
record Placed (h : Links) (n : Ptr) : Type 0 where
  before : Linked h (h.prev n) n
  behind : Linked h n (h.next n)
  self : n ≢ null
  prev_ne : h.prev n ≢ null
  next_ne : h.next n ≢ null

Ring-Placed : {h : Links} {n : Ptr} {xs : List Ptr} → Ring h n xs → Placed h n
Ring-Placed {xs = []} r = ground arith
Ring-Placed {xs = x ∷ xs} r = ground (arith, count-last x xs)

swap_links-ok :
    (t o : Ptr) (h : Links)
    → t ≢ o
    → Placed h t
    → Placed h o
    → swap_links t o h ≡ ok tt (swapped t o h)
unfolding swap_links swap_prev swap_next
swap_links-ok t o h d p q = ground arith

swap_nodes-ok :
    (t o : Ptr) (h : Links)
    → t ≢ o
    → Placed h t
    → Placed h o
    → swap_nodes t o h ≡ ok tt (swapped t o h)
unfolding swap_nodes
swap_nodes-ok t o h d p q = ground (arith, swap_links-ok t o h d p q)

swapped-Linked :
    {h : Links} {a b : Ptr} (t o : Ptr)
    → t ≢ o
    → Placed h t
    → Placed h o
    → Linked h a b
    → Linked (swapped t o h) (exchanged t o a) (exchanged t o b)
swapped-Linked t o d p q l = ground arith

last-map : (f : Ptr → Ptr) (x : Ptr) (xs : List Ptr) → last (f x) (map f xs) ≡ f (last x xs)
last-map f x [] = refl
last-map f x (y ∷ ys) = last-map f y ys

count-map-exchanged :
    (t o : Ptr) (xs : List Ptr) (a : Ptr)
    → count a (map (exchanged t o) xs) ≡ count (exchanged t o a) xs
count-map-exchanged t o [] a = refl
count-map-exchanged t o (x ∷ xs) a = ground (arith, count-map-exchanged t o xs a)

module _ {h : Links} (t o : Ptr) (d : t ≢ o) (p : Placed h t) (q : Placed h o) where
  Seg-map :
      (x : Ptr) (xs : List Ptr)
      → Seg h x xs
      → Seg (swapped t o h) (exchanged t o x) (map (exchanged t o) xs)
  Seg-map x [] s = tt
  Seg-map x (y ∷ ys) s = (swapped-Linked t o d p q s.0, Seg-map y ys s.1)

  Ring-map :
      (x : Ptr) (xs : List Ptr)
      → Ring h x xs
      → Ring (swapped t o h) (exchanged t o x) (map (exchanged t o) xs)
  Ring-map x xs r = record {
    seg = Seg-map x xs r.seg;
    closed = rw (last-map (exchanged t o) x xs) (swapped-Linked t o d p q r.closed);
    distinct = λ a. rw (count-map-exchanged t o (x ∷ xs) a) (r.distinct (exchanged t o a));
    nonnull =
        rw (count-map-exchanged t o (x ∷ xs) null) (ground (arith, p.self, q.self, r.nonnull));
  }

-- `swap_nodes` of two different nodes that stand in circular lists, in the same one or not,
-- adjacent or not: every circular list of the store, seen from any node `x`, is as before with
-- the two nodes exchanged.
pub swap_nodes-Ring :
    {h : Links} {this other x : Ptr} {ys zs xs : List Ptr}
    → this ≢ other
    → Ring h this ys
    → Ring h other zs
    → Ring h x xs
    → Returns
        (λ _ g. Ring g (exchanged this other x) (map (exchanged this other) xs))
        (swap_nodes this other h)
swap_nodes-Ring {this} {other} {x} {xs} d r s w =
    rw (swap_nodes-ok this other _ d (Ring-Placed r) (Ring-Placed s))
      (returns (Ring-map this other d (Ring-Placed r) (Ring-Placed s) x xs w))

-- The store in which the node `n` is a circular list of its own.
abbrev alone : Ptr → Links → Links
alone n h = record { next = update h.next n n; prev = update h.prev n n }

-- The store in which the node `n` is in no list.
abbrev unused : Ptr → Links → Links
unused n h = record { next = update h.next n null; prev = update h.prev n null }

swap_nodes-inited :
    (t o : Ptr) (h : Links)
    → t ≢ o
    → t ≢ null
    → h.next t ≡ null
    → o ≢ null
    → h.next o ≢ null
    → swap_links t o (alone t h) ≡ ok tt (swapped t o (alone t h))
    → swap_nodes t o h ≡ ok tt (unused o (swapped t o (alone t h)))
unfolding swap_nodes
swap_nodes-inited t o h d n i m k e = ground arith

map-exchanged :
    (t o : Ptr) (xs : List Ptr) → count t xs ≡ 0 → count o xs ≡ 0 → map (exchanged t o) xs ≡ xs
map-exchanged t o [] a b = refl
map-exchanged t o (x ∷ xs) a b = ground (arith, map-exchanged t o xs)

-- `swap_nodes` of a node in no list, whose next pointer is null, with one of a circular list: it
-- takes the place of the other one, whose two pointers become null.
pub swap_nodes-Ring_inited :
    {h : Links} {this other : Ptr} {ys : List Ptr}
    → this ≢ null
    → h.next this ≡ null
    → Ring h other ys
    → count this (other ∷ ys) ≡ 0
    → Returns
        (λ _ g. Ring g this ys × (g.next other ≡ null) × (g.prev other ≡ null))
        (swap_nodes this other h)
swap_nodes-Ring_inited {h} {this} {other} {ys} n i s out =
    let d : this ≢ other = ground arith in
    let own : Ring (alone this h) this [] = record {
      seg = tt;
      closed = ground arith;
      distinct = λ a. ground arith;
      nonnull = ground arith;
    } in
    let there : Ring (alone this h) other ys = Ring-frame s (λ a m. ground arith) in
    let p = Ring-Placed own in
    let q = Ring-Placed there in
    let placed = Ring-Placed s in
    let e : exchanged this other other ≡ this = ground arith in
    let moved =
      rw (e, map-exchanged this other ys (omega (arith, out)) (Ring-fresh s)) at
        (Ring-map this other d p q other ys there) in
    rw
      (swap_nodes-inited this other h d n i placed.self placed.next_ne
        (swap_links-ok this other (alone this h) d p q))
      (returns (Ring-frame moved (λ a m. ground (arith, Ring-fresh s)), ground arith, ground arith))
