-- ===== src/CircularList/Unlink.antt =====
-- Unlinking a node, or a range of nodes, from a circular list.
use intrusive.Base.{◌≡◌, ◌≢◌, ◌∷◌, List, ◌++◌, arith, count-append, count-last}
use intrusive.Machine.{Ptr, null, Returns, returns, ok, update}
use intrusive.CircularList.{Links, unlink, unlink_range}
use intrusive.CircularList.Ring.{Ring, SameOutside, Seg-frame, Seg-split}

unlink-ok :
    (n : Ptr) (h : Links)
    → n ≢ null
    → h.next n ≢ null
    → h.prev n ≢ null
    → unlink n h
      ≡ ok (h.next n) (record {
        next = update h.next (h.prev n) (h.next n);
        prev = update h.prev (h.next n) (h.prev n);
      })
unfolding unlink
unlink-ok n h a b c = ground arith

-- `unlink` of a node that has others in its circular list returns the one behind it and leaves a
-- circular list of the others, in their order; nothing but these others has changed, so the node
-- itself keeps its pointers.
pub unlink-Ring :
    {h : Links} {n x : Ptr} {xs : List Ptr}
    → Ring h n (x ∷ xs)
    → Returns (λ next g. (next ≡ x) × Ring g x xs × SameOutside (x ∷ xs) h g) (unlink n h)
unlink-Ring {h} {n} {x} {xs} r =
    rw (unlink-ok n h (ground arith) (ground arith) (ground (arith, count-last x xs))) (
      returns (
        ground arith,
        record {
          seg =
              Seg-frame x xs r.seg.1 (λ a. omega (arith, r.distinct a)) (λ a m e. ground arith)
                (λ a m. ground (arith, r.distinct x));
          closed = ground (arith, count-last x xs);
          distinct = λ a. omega (arith, r.distinct a);
          nonnull = omega (arith, r.nonnull);
        },
        λ a o. ground (arith, count-last x xs),
      ))

unlink_range-ok :
    (b e : Ptr) (h : Links)
    → b ≢ e
    → b ≢ null
    → e ≢ null
    → h.prev b ≢ null
    → unlink_range b e h
      ≡ ok tt (record { next = update h.next (h.prev b) e; prev = update h.prev e (h.prev b) })
unfolding unlink_range
unlink_range-ok b e h d n m k = ground arith

-- The overload of `unlink` for a range takes the nodes from `b` up to `e`, where `b` is not `e`,
-- out of the circular list of `e`: the others form a circular list, and nothing else has
-- changed, so the links between the removed nodes stay.
pub unlink_range-Ring :
    {h : Links} {e : Ptr} (xs : List Ptr) (b : Ptr) (bs : List Ptr)
    → Ring h e (xs ++ b ∷ bs)
    → Returns (λ _ g. Ring g e xs × SameOutside (e ∷ xs) h g) (unlink_range b e h)
unlink_range-Ring {h} {e} xs b bs r =
    let (front, l, back) = Seg-split e xs b bs r.seg in
    rw
      (unlink_range-ok b e h (ground (arith, r.distinct e, count-append e xs (b ∷ bs)))
        (ground (arith, r.nonnull, count-append null xs (b ∷ bs))) (ground (arith, r.nonnull))
        (ground (arith, r.nonnull, l.back, count-append null xs (b ∷ bs), count-last e xs)))
      (returns (
        record {
          seg =
              Seg-frame e xs front (λ a. omega (arith, r.distinct a, count-append a xs (b ∷ bs)))
                (λ a m d. ground (arith, l.back))
                (λ a m. ground (arith, r.distinct e, count-append e xs (b ∷ bs)));
          closed = ground (arith, l.back);
          distinct = λ a. omega (arith, r.distinct a, count-append a xs (b ∷ bs));
          nonnull = omega (arith, r.nonnull, count-append null xs (b ∷ bs));
        },
        λ a o. ground (arith, l.back, count-last e xs),
      ))
