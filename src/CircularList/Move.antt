-- ===== src/CircularList/Move.antt =====
-- Moving the first node of reference along its circular list, in both directions.
use intrusive.Base.{
  suc, ◌≡◌, ◌≢◌, [], ◌∷◌, List, ◌++◌, arith, false, ◌==◌, last, last-append, but_last,
  but_last-last, ap, length, count, count-append, count-last, append_assoc,
}
use intrusive.Machine.{Ptr, null, Returns, Returns-bind, Returns-imp}
use intrusive.CircularList.{Links, move_backwards, move_forward}
use intrusive.CircularList.Ring.{Ring, Ring-fresh, Ring-rotate, Seg-split}
use intrusive.CircularList.Link.{link_before-Ring, link_after-Ring}
use intrusive.CircularList.Unlink.{unlink-Ring}
use intrusive.CircularList.Walk.{get_next-ok, get_previous-ok, next_n-length, previous_n-length}

-- `move_backwards` by `n`, where more than `n` nodes stand behind `p` and `n` is not 0: the
-- first `n` nodes behind `p` stand behind the others, so `p` has stepped over them.
pub move_backwards-Ring :
    {h : Links} {p : Ptr} (x : Ptr) (xs : List Ptr) (y : Ptr) (ys : List Ptr)
    → Ring h p (x ∷ xs ++ y ∷ ys)
    → Returns (λ _ g. Ring g p (y ∷ ys ++ x ∷ xs)) (move_backwards p (suc (length xs)) h)
unfolding move_backwards
move_backwards-Ring {h} {p} x xs y ys r =
    let n0 : (suc (length xs) == 0) ≡ false = ground arith in
    let lp : h.prev p ≡ last y ys = rw (← last-append x xs y ys) r.closed.back in
    let ca = λ (a : Ptr). count-append a xs (y ∷ ys) in
    let nl : (x == last y ys) ≡ false = ground (arith, r.distinct x, ca x, count-last y ys) in
    let np : p ≢ null = ground (arith, r.nonnull) in
    rw (n0, get_next-ok p h np, r.seg.0.forth, get_previous-ok p h np, lp, nl)
      (Returns-bind (unlink-Ring r) λ next g (e, ring, same).
        let (front, l, back) = Seg-split x xs y ys ring.seg in
        rw (next_n-length x xs y front l.forth (omega (arith, ring.nonnull, ca null))) (
          Returns-imp
            (link_before-Ring p (Ring-rotate x xs y ys ring) np
              (omega (arith, Ring-fresh r, ca p, count-append p ys (x ∷ xs))))
            λ _ m (linked, same'). Ring-rotate y (ys ++ x ∷ xs) p [] linked))

Ring-last :
    {h : Links} (x : Ptr) (xs : List Ptr) (y : Ptr) (ys : List Ptr)
    → Ring h x (xs ++ y ∷ ys)
    → Ring h (last x xs) (y ∷ (ys ++ but_last x xs))
Ring-last x xs y ys r =
    Ring-rotate y (ys ++ but_last x xs) (last x xs) []
      (rw (but_last-last, ← append_assoc) at (Ring-rotate x xs y ys r))

-- `move_forward` by `n`, where more than `n` nodes stand behind `p` and `n` is not 0: the last
-- `n` nodes of the list stand in front of the others, so `p` has stepped back over them.
pub move_forward-Ring :
    {h : Links} {p : Ptr} (x : Ptr) (xs : List Ptr) (y : Ptr) (ys : List Ptr)
    → Ring h p (x ∷ xs ++ y ∷ ys)
    → Returns (λ _ g. Ring g p (y ∷ ys ++ x ∷ xs)) (move_forward p (suc (length ys)) h)
unfolding move_forward
move_forward-Ring {h} {p} x xs y ys r =
    let n0 : (suc (length ys) == 0) ≡ false = ground arith in
    let lp : h.prev p ≡ last y ys = rw (← last-append x xs y ys) r.closed.back in
    let ca = λ (a : Ptr). count-append a xs (y ∷ ys) in
    let nl : (last y ys == x) ≡ false = ground (arith, r.distinct x, ca x, count-last y ys) in
    let np : p ≢ null = ground (arith, r.nonnull) in
    rw (n0, get_previous-ok p h np, lp, get_next-ok p h np, r.seg.0.forth, nl)
      (Returns-bind (unlink-Ring r) λ next g (e, ring, same).
        let (front, l, back) = Seg-split x xs y ys ring.seg in
        rw (previous_n-length y ys (last x xs) back l.back (omega (arith, ring.nonnull, ca null))) (
          let l' = last x xs in
          let front' = but_last x xs in
          let seen : Ring g l' (y ∷ (ys ++ front')) = Ring-last x xs y ys ring in
          Returns-imp
            (link_after-Ring (y ∷ (ys ++ front')) p seen np (
              omega (
                arith,
                Ring-fresh r,
                ap (count p) (but_last-last x xs),
                ca p,
                count-append p ys front',
                count-append p front' (l' ∷ []),
              )))
            λ _ m (linked, same').
              rw (append_assoc, ← but_last-last) at
                (Ring-rotate l' [] p (y ∷ (ys ++ front')) linked)))
