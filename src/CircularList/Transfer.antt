-- ===== src/CircularList/Transfer.antt =====
-- Moving a range of nodes in front of another node, within a circular list or between two.
use intrusive.Base.{
  ◌+◌, ◌≤◌, ◌≡◌, ◌≢◌, [], ◌∷◌, List, ◌++◌, arith, last, last-append, count, count-append,
  count-last,
}
use intrusive.Machine.{Ptr, null, Returns, returns, ok, update}
use intrusive.CircularList.{Links, transfer, transfer_one}
use intrusive.CircularList.Ring.{Ring, SameOutside, Seg-frame, Seg-append, Seg-split}

-- The store after `transfer`.
abbrev transferred : Ptr → Ptr → Ptr → Links → Links
transferred p b e h = record {
  next = update (update (update h.next (h.prev e) p) (h.prev b) e) (h.prev p) b;
  prev = update (update (update h.prev p (h.prev e)) e (h.prev b)) b (h.prev p);
}

transfer-ok :
    (p b e : Ptr) (h : Links)
    → b ≢ e
    → p ≢ b
    → p ≢ e
    → p ≢ null
    → b ≢ null
    → e ≢ null
    → h.prev p ≢ null
    → h.prev b ≢ null
    → h.prev e ≢ null
    → transfer p b e h ≡ ok tt (transferred p b e h)
unfolding transfer
transfer-ok p b e h x y z a c d i j k = ground arith

-- `transfer` between two circular lists with no node in common: the nodes from `b` up to `e`, at
-- least one, leave the list of `e` and stand, in their order, in front of `p`. No node outside
-- of the two lists has changed.
pub transfer-Ring :
    {h : Links} {p e : Ptr} (xs ys : List Ptr) (b : Ptr) (bs : List Ptr)
    → Ring h p xs
    → Ring h e (ys ++ b ∷ bs)
    → ((a : Ptr) → count a (p ∷ xs) + count a (e ∷ ys ++ b ∷ bs) ≤ 1)
    → Returns
        (λ _ g.
          Ring g p (xs ++ b ∷ bs) × Ring g e ys × SameOutside (p ∷ xs ++ e ∷ ys ++ b ∷ bs) h g)
        (transfer p b e h)
transfer-Ring {h} {p} {e} xs ys b bs r s apart =
    let (front, l, back) = Seg-split e ys b bs s.seg in
    let bp : h.prev p ≡ last p xs = r.closed.back in
    let be : h.prev e ≡ last b bs = rw (← last-append e ys b bs) s.closed.back in
    let ce = λ (a : Ptr). count-append a ys (b ∷ bs) in
    let lp = count-last p xs in
    let le = count-last e ys in
    let lb = count-last b bs in
    rw
      (transfer-ok p b e h (ground (arith, apart b, ce b)) (ground (arith, apart b, ce b))
        (ground (arith, apart e)) (ground (arith, r.nonnull)) (ground (arith, s.nonnull, ce null))
        (ground (arith, s.nonnull)) (ground (arith, r.nonnull, lp))
        (ground (arith, s.nonnull, l.back, ce null, le))
        (ground (arith, s.nonnull, be, ce null, lb)))
      (returns (
        record {
          seg =
              Seg-append p xs b bs
                (Seg-frame p xs r.seg r.distinct (λ a m d. ground (arith, apart a, ce a, l.back))
                  (λ a m. ground (arith, apart a, ce a, l.back)))
                (ground (arith, apart (last p xs), apart b, ce (last p xs), ce b, l.back))
                (Seg-frame b bs back (λ a. omega (arith, apart a, ce a))
                  (λ a m d. ground (arith, apart a, ce a, l.back))
                  (λ a m. ground (arith, apart a, ce a, l.back)));
          closed =
              rw last-append
                (ground (arith, apart (last b bs), apart p, ce (last b bs), ce p, l.back));
          distinct = λ a. omega (arith, apart a, ce a, count-append a xs (b ∷ bs));
          nonnull = omega (arith, r.nonnull, s.nonnull, ce null, count-append null xs (b ∷ bs));
        },
        record {
          seg =
              Seg-frame e ys front (λ a. omega (arith, apart a, ce a))
                (λ a m d. ground (arith, apart a, ce a, l.back))
                (λ a m. ground (arith, apart a, ce a, l.back));
          closed = ground (arith, apart (last e ys), apart e, ce (last e ys), ce e, l.back);
          distinct = λ a. omega (arith, apart a, ce a);
          nonnull = omega (arith, s.nonnull, ce null);
        },
        λ a o.
            ground
              (arith, l.back, count-append a xs (e ∷ ys), count-append a (xs ++ e ∷ ys) (b ∷ bs)),
      ))

-- `transfer` within one circular list: the nodes from `b` up to `e` and those from `e` up to
-- `p`, at least one each, change places, so that the former stand in front of `p`. No node
-- outside of the list has changed.
pub transfer-Ring_same :
    {h : Links} {p : Ptr} (xs : List Ptr) (b : Ptr) (bs : List Ptr) (e : Ptr) (ys : List Ptr)
    → Ring h p (xs ++ (b ∷ bs ++ e ∷ ys))
    → Returns
        (λ _ g.
          Ring g p (xs ++ (e ∷ ys ++ b ∷ bs)) × SameOutside (p ∷ (xs ++ (b ∷ bs ++ e ∷ ys))) h g)
        (transfer p b e h)
transfer-Ring_same {h} {p} xs b bs e ys r =
    let (front, lb, rest) = Seg-split p xs b (bs ++ e ∷ ys) r.seg in
    let (middle, le, back) = Seg-split b bs e ys rest in
    let lp : h.prev p ≡ last e ys =
      rw (← last-append b bs e ys, ← last-append p xs b (bs ++ e ∷ ys)) r.closed.back in
    let cs : (a : Ptr)
        → count a (xs ++ (b ∷ bs ++ e ∷ ys)) ≡ count a xs + count a (b ∷ bs) + count a (e ∷ ys) =
      λ a. omega (arith, count-append a xs (b ∷ bs ++ e ∷ ys), count-append a bs (e ∷ ys)) in
    let dt : (a : Ptr)
        → count a (xs ++ (e ∷ ys ++ b ∷ bs)) ≡ count a xs + count a (b ∷ bs) + count a (e ∷ ys) =
      λ a. omega (arith, count-append a xs (e ∷ ys ++ b ∷ bs), count-append a ys (b ∷ bs)) in
    let np = r.nonnull in
    let d = λ (a : Ptr). r.distinct a in
    let kx = count-last p xs in
    let kb = count-last b bs in
    let ke = count-last e ys in
    rw
      (transfer-ok p b e h (ground (arith, d b, cs b)) (ground (arith, d b, cs b))
        (ground (arith, d e, cs e)) (ground arith) (ground (arith, cs null))
        (ground (arith, cs null)) (ground (arith, cs null)) (ground (arith, cs null, lb.back))
        (ground (arith, cs null, le.back)))
      (returns (
        record {
          seg =
              Seg-append p xs e (ys ++ b ∷ bs)
                (Seg-frame p xs front (λ a. omega (arith, d a, cs a))
                  (λ a m n. ground (arith, d a, cs a, lb.back, le.back))
                  (λ a m. ground (arith, d a, cs a)))
                (ground (arith, d (last p xs), d e, cs (last p xs), cs e, lb.back, le.back))
                (Seg-append e ys b bs
                  (Seg-frame e ys back (λ a. omega (arith, d a, cs a))
                    (λ a m n. ground (arith, d a, cs a, lb.back, le.back))
                    (λ a m. ground (arith, d a, cs a)))
                  (ground (arith, d (last e ys), d b, cs (last e ys), cs b, lb.back, le.back))
                  (Seg-frame b bs middle (λ a. omega (arith, d a, cs a))
                    (λ a m n. ground (arith, d a, cs a, lb.back, le.back))
                    (λ a m. ground (arith, d a, cs a))));
          closed =
              rw (last-append p xs e (ys ++ b ∷ bs), last-append e ys b bs)
                (ground (arith, d (last b bs), d p, cs (last b bs), cs p, lb.back, le.back));
          distinct = λ a. omega (arith, d a, cs a, dt a);
          nonnull = omega (arith, r.nonnull, cs null, dt null);
        },
        λ a o. ground (arith, cs a, lb.back, le.back),
      ))

-- The store after `transfer(p, i)`.
abbrev transferred_one : Ptr → Ptr → Links → Links
transferred_one p i h = record {
  next = update (update (update h.next (h.prev p) i) i p) (h.prev i) (h.next i);
  prev = update (update (update h.prev i (h.prev p)) p i) (h.next i) (h.prev i);
}

transfer_one-ok :
    (p i : Ptr) (h : Links)
    → h.next i ≢ p
    → i ≢ p
    → p ≢ null
    → i ≢ null
    → h.next i ≢ null
    → h.prev p ≢ null
    → h.prev i ≢ null
    → transfer_one p i h ≡ ok tt (transferred_one p i h)
unfolding transfer_one
transfer_one-ok p i h x y a c d j k = ground arith

-- The overload of `transfer` for one node, between two circular lists with no node in common:
-- `i`, which has others in its list, leaves it and stands in front of `p`. No node outside of
-- the two lists has changed.
pub transfer_one-Ring :
    {h : Links} {p i e : Ptr} (xs ys : List Ptr)
    → Ring h p xs
    → Ring h i (e ∷ ys)
    → ((a : Ptr) → count a (p ∷ xs) + count a (i ∷ e ∷ ys) ≤ 1)
    → Returns
        (λ _ g. Ring g p (xs ++ i ∷ []) × Ring g e ys × SameOutside (p ∷ xs ++ i ∷ e ∷ ys) h g)
        (transfer_one p i h)
transfer_one-Ring {h} {p} {i} {e} xs ys r s apart =
    let kp = count-last p xs in
    let ke = count-last e ys in
    rw
      (transfer_one-ok p i h (ground (arith, apart p, s.seg.0.forth)) (ground (arith, apart p))
        (ground (arith, r.nonnull)) (ground (arith, s.nonnull))
        (ground (arith, s.nonnull, s.seg.0.forth)) (ground (arith, r.nonnull))
        (ground (arith, s.nonnull)))
      (returns (
        record {
          seg =
              Seg-append p xs i []
                (Seg-frame p xs r.seg r.distinct (λ a m n. ground (arith, apart a))
                  (λ a m. ground (arith, apart a)))
                (ground (arith, apart i, apart (last p xs))) tt;
          closed = rw last-append (ground (arith, apart i, apart p));
          distinct = λ a. omega (arith, apart a, count-append a xs (i ∷ []));
          nonnull = omega (arith, r.nonnull, s.nonnull, count-append null xs (i ∷ []));
        },
        record {
          seg =
              Seg-frame e ys s.seg.1 (λ a. omega (arith, apart a))
                (λ a m n. ground (arith, apart a)) (λ a m. ground (arith, apart a, apart e));
          closed = ground (arith, apart e, apart (last e ys));
          distinct = λ a. omega (arith, apart a);
          nonnull = omega (arith, s.nonnull);
        },
        λ a o. ground (arith, count-append a xs (i ∷ e ∷ ys)),
      ))
