-- ===== src/CircularList/Reverse.antt =====
-- Reversing a circular list in place.
use mathlib.Core.List.{reverse_aux}
use mathlib.Core.List
use intrusive.Base.{
  ℕ, zero, suc, ◌<◌, ◌≡◌, ◌≢◌, refl, [], ◌∷◌, List, ◌++◌, arith, true, false, ◌==◌, last, length,
  count-append, append_assoc,
}
use intrusive.Machine.{Ptr, null, Returns, returns, Returns-bind, Returns-imp, ok}
use intrusive.CircularList.{Links, reverse_loop, reverse}
use intrusive.CircularList.Ring.{Ring, Seg, SameOutside, SameOutside-trans, Ring-rotate, Seg-split}
use intrusive.CircularList.Transfer.{transfer-Ring_same}
use intrusive.CircularList.Walk.{get_next-ok}

-- The head of a list, or `e` behind its end, and what follows it up to `e`.
abbrev head_or : Ptr → List Ptr → Ptr
head_or e [] = e
head_or e (x ∷ xs) = x

abbrev tail_to : Ptr → List Ptr → List Ptr
tail_to e [] = []
tail_to e (x ∷ xs) = xs ++ e ∷ []

head_tail : (e : Ptr) (xs : List Ptr) → xs ++ e ∷ [] ≡ head_or e xs ∷ tail_to e xs
head_tail e [] = refl
head_tail e (x ∷ xs) = refl

-- The nodes turned round so far are `f ∷ done`, and `rest` is left.
reverse_loop-Ring :
    {h : Links} (k : ℕ) (e f : Ptr) (done rest : List Ptr)
    → Ring h f (done ++ (rest ++ e ∷ []))
    → length rest < k
    → Returns
        (λ _ g.
          Ring g e (reverse_aux rest (f ∷ done)) × SameOutside (f ∷ done ++ (rest ++ e ∷ [])) h g)
        (reverse_loop k e f (head_or e rest) h)
unfolding reverse_loop
reverse_loop-Ring zero e f done rest r fuel = absurd (omega arith)
reverse_loop-Ring (suc k) e f done [] r fuel =
    let same : (e == e) ≡ true = ground arith in
    rw same (returns (Ring-rotate f done e [] r, λ a o. (refl, refl)))
reverse_loop-Ring {h} (suc k) e f done (i ∷ rest) r fuel =
    let j = head_or e rest in
    let ys = tail_to e rest in
    let s : Ring h f (done ++ (i ∷ j ∷ ys)) = rw (head_tail e rest) at r in
    let following = (Seg-split f done i (j ∷ ys) s.seg).2.0.forth in
    let cs = λ (a : Ptr). count-append a done (i ∷ (rest ++ e ∷ [])) in
    let ce = λ (a : Ptr). count-append a rest (e ∷ []) in
    let other : (i == e) ≡ false = ground (arith, r.distinct e, cs e, ce e) in
    let ni : i ≢ null = ground (arith, r.nonnull, cs null) in
    rw (other, get_next-ok i h ni, following)
      (Returns-bind (transfer-Ring_same done i [] j ys s) λ _ g (ring, same).
        let turned = Ring-rotate f (done ++ j ∷ ys) i [] (rw (← append_assoc) at ring) in
        let next = rw (← head_tail e rest) at turned in
        Returns-imp (reverse_loop-Ring k e i (f ∷ done) rest next (omega arith))
          λ _ m (whole, same'). (
            whole,
            SameOutside-trans (f ∷ (done ++ i ∷ (rest ++ e ∷ [])))
                ((i ∷ f ∷ done) ++ (rest ++ e ∷ [])) (f ∷ (done ++ i ∷ (rest ++ e ∷ [])))
                (rw (← head_tail e rest) at same) same'
                (λ a o. (o, omega (arith, o, cs a, count-append a done (rest ++ e ∷ [])))),
          ))

reverse_loop_end : {h : Links} (k : ℕ) (e f : Ptr) → reverse_loop (suc k) e f e h ≡ ok tt h
unfolding reverse_loop
reverse_loop_end k e f = ground arith

-- The node behind `x` is the next of the list, or the node behind its end.
following-Seg :
    (h : Links) {e : Ptr} (x : Ptr) (xs : List Ptr)
    → Seg h x xs
    → h.next (last x xs) ≡ e
    → h.next x ≡ head_or e xs
following-Seg h x [] s l = l
following-Seg h x (y ∷ ys) s l = s.0.forth

-- `reverse`, with fuel for each node behind `p` and one round more, leaves the nodes behind `p`
-- in the opposite order. No node outside of the circular list has changed.
pub reverse-Ring :
    {h : Links} {p : Ptr} (xs : List Ptr) (fuel : ℕ)
    → Ring h p xs
    → length xs < fuel
    → Returns (λ _ g. Ring g p (List.reverse xs) × SameOutside (p ∷ xs) h g) (reverse fuel p h)
unfolding reverse
reverse-Ring [] zero r f = elim f [ ]
reverse-Ring {h} {p} [] (suc k) r f =
    rw
      (
        get_next-ok p h (ground (arith, r.nonnull)),
        r.closed.forth,
        get_next-ok p h (ground (arith, r.nonnull)),
        r.closed.forth,
        reverse_loop_end k p p,
      )
      (returns (r, λ a o. (refl, refl)))
reverse-Ring {h} {p} (x ∷ xs) fuel r f =
    rw
      (
        get_next-ok p h (ground (arith, r.nonnull)),
        r.seg.0.forth,
        get_next-ok x h (ground (arith, r.nonnull)),
        following-Seg h x xs r.seg.1 r.closed.forth,
      )
      (Returns-imp (reverse_loop-Ring fuel p x [] xs (Ring-rotate p [] x xs r) (omega arith))
        λ _ g (ring, same). (ring, λ a o. same a (omega (arith, o, count-append a xs (p ∷ [])))))
