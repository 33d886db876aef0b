-- ===== src/CircularList/Link.antt =====
-- Linking a node into a circular list.
use intrusive.Base.{
  ◌≡◌, ◌≢◌, List, [], ◌∷◌, ◌++◌, arith, last, last-append, count, count-append, count-last,
}
use intrusive.Machine.{Ptr, null, Returns, returns, ok, update}
use intrusive.CircularList.{Links, link_before, link_after}
use intrusive.CircularList.Ring.{Ring, SameOutside, Seg-frame, Seg-append}

link_before-ok :
    (p n : Ptr) (h : Links)
    → p ≢ null
    → n ≢ null
    → h.prev p ≢ null
    → link_before p n h
      ≡ ok tt (record {
        next = update (update h.next n p) (h.prev p) n;
        prev = update (update h.prev n (h.prev p)) p n;
      })
unfolding link_before
link_before-ok p n h a b c = ground arith

-- `link_before` of a node `n`, not null and not in the circular list of `p`, makes it the last
-- one of that list, seen from `p`; nothing but `n` and the nodes of the list has changed.
pub link_before-Ring :
    {h : Links} {p : Ptr} {xs : List Ptr} (n : Ptr)
    → Ring h p xs
    → n ≢ null
    → count n (p ∷ xs) ≡ 0
    → Returns (λ _ g. Ring g p (xs ++ n ∷ []) × SameOutside (n ∷ p ∷ xs) h g) (link_before p n h)
link_before-Ring {h} {p} {xs} n r ne out =
    rw (link_before-ok p n h (ground arith) ne (ground (arith, count-last p xs))) (
      returns (
        record {
          seg =
              Seg-append p xs n []
                (Seg-frame p xs r.seg r.distinct (λ a m e. ground (arith, r.distinct p))
                  (λ a m. ground (arith, r.distinct p)))
                (ground (arith, count-last p xs)) tt;
          closed = rw last-append (ground (arith, count-last p xs));
          distinct = λ a. ground (arith, count-append a xs (n ∷ []), r.distinct a, r.distinct n);
          nonnull = ground (arith, count-append null xs (n ∷ []));
        },
        λ a o. ground (arith, count-last p xs),
      ))

link_after-ok :
    (p n : Ptr) (h : Links)
    → p ≢ null
    → n ≢ null
    → h.next p ≢ null
    → link_after p n h
      ≡ ok tt (record {
        next = update (update h.next n (h.next p)) p n;
        prev = update (update h.prev n p) (h.next p) n;
      })
unfolding link_after
link_after-ok p n h a b c = ground arith

-- `link_after` of a node `n`, not null and not in the circular list of `p`, makes it the first
-- one behind `p`; nothing but `n` and the nodes of the list has changed.
pub link_after-Ring :
    {h : Links} {p : Ptr} (xs : List Ptr) (n : Ptr)
    → Ring h p xs
    → n ≢ null
    → count n (p ∷ xs) ≡ 0
    → Returns (λ _ g. Ring g p (n ∷ xs) × SameOutside (n ∷ p ∷ xs) h g) (link_after p n h)
link_after-Ring {h} {p} [] n r ne out = rw (link_after-ok p n h (ground arith) ne (ground arith)) (
    returns (
      record {
        seg = (ground arith, tt);
        closed = ground arith;
        distinct = λ a. ground arith;
        nonnull = ground arith;
      },
      λ a o. ground arith,
    ))
link_after-Ring {h} {p} (x ∷ xs) n r ne out =
    rw (link_after-ok p n h (ground arith) ne (ground arith)) (
      returns (
        record {
          seg = (
            ground arith,
            (
              ground (arith, r.distinct p),
              Seg-frame x xs r.seg.1 (λ a. omega (arith, r.distinct a))
                  (λ a m e. ground (arith, r.distinct p))
                  (λ a m. ground (arith, r.distinct x, r.distinct p)),
            ),
          );
          closed = ground (arith, count-last x xs, r.distinct p, r.distinct (last x xs));
          distinct = λ a. ground (arith, r.distinct a, r.distinct n);
          nonnull = ground arith;
        },
        λ a o. ground arith,
      ))
