-- ===== src/Treap/Climb.antt =====
-- The rotations of a new node keep the heap order.
use intrusive.Base.{◌≡◌, refl, ap, arith, Bool, true, false, Option, none, some, ℕ, zero, suc}
use mathlib.Core.Option.{some-injective, none-ne-some}
use intrusive.Machine.{Ptr}
use intrusive.BsTree.Shape.{Tree, node, PathUp, top, left_of, right_of, plug}
use intrusive.Treap.Raise.{raised, whole}
use intrusive.Treap.Insertion.{climbs_one, climbs}
use intrusive.Treap.Heap.{IsWeakOrder, Under, IsHeap, IsHeap-part, IsHeap-replaced, Fits-below}

climbs_no_more : (b : Bool) (m : Option ℕ) → climbs_one (some b) m ≡ some 0 → b ≡ false
climbs_no_more false m e = refl
climbs_no_more true none e = absurd (none-ne-some 0 e)
climbs_no_more true (some j) e = absurd (let f = some-injective _ _ e in omega (arith, f))

climbs_on :
    (b : Bool) (m : Option ℕ) (n : ℕ)
    → climbs_one (some b) m ≡ some (suc n)
    → (b ≡ true) × (m ≡ some n)
climbs_on false m n e = absurd (let f = some-injective _ _ e in omega (arith, f))
climbs_on true none n e = absurd (none-ne-some (suc n) e)
climbs_on true (some j) n e =
    let f = some-injective _ _ e in let g : j ≡ n = omega (arith, f) in (refl, ap some g)

climbs_one-total :
    (b : Bool) (m : Option ℕ) (n : ℕ) → m ≡ some n → (k : ℕ) × (climbs_one (some b) m ≡ some k)
climbs_one-total false m n e = (0, refl)
climbs_one-total true none n e = absurd (none-ne-some n e)
climbs_one-total true (some j) n e = (suc j, refl)

module _ (above : Ptr → Ptr → Bool) (p : Ptr) where
  abbrev pub passes : Ptr → Option Bool
  passes x = some (above p x)

  pub climbs-total : (c : PathUp) → (n : ℕ) × (climbs passes c ≡ some n)
  climbs-total top = (0, refl)
  climbs-total (left_of c x m) =
      let q = climbs-total c in climbs_one-total (above p x) (climbs passes c) q.0 q.1
  climbs-total (right_of m x c) =
      let q = climbs-total c in climbs_one-total (above p x) (climbs passes c) q.0 q.1

  module _ (order : IsWeakOrder above) where
    -- The child that goes over to the node that was passed leaves its place to the other child.
    lifted :
        (c : PathUp) (t l r : Tree) (x : Ptr)
        → IsHeap above (plug c (node l x r))
        → Under above t x
        → IsHeap above t
        → IsHeap above (plug c t)
    lifted c t l r x e f i =
        let g = IsHeap-part above c (node l x r) e in
        IsHeap-replaced above c (node l x r) t e (Fits-below above order c t l r x f g.0) i

    pub raised-IsHeap :
        (n : ℕ) (c : PathUp) (l r : Tree)
        → climbs passes c ≡ some n
        → IsHeap above (plug c l)
        → IsHeap above (plug c r)
        → Under above l p
        → Under above r p
        → IsHeap above (whole p (raised n c l r))
    raised-IsHeap zero top l r e hl hr ul ur = ((ul, ur), (hl, hr))
    raised-IsHeap (suc n) top l r e hl hr ul ur = ((ul, ur), (hl, hr))
    raised-IsHeap zero (left_of c x m) l r e hl hr ul ur =
        IsHeap-replaced above (left_of c x m) l (node l p r) hl
          (climbs_no_more (above p x) (climbs passes c) e)
          (
            (ul, ur),
            (
              (IsHeap-part above (left_of c x m) l hl).1,
              (IsHeap-part above (left_of c x m) r hr).1,
            ),
          )
    raised-IsHeap zero (right_of m x c) l r e hl hr ul ur =
        IsHeap-replaced above (right_of m x c) l (node l p r) hl
          (climbs_no_more (above p x) (climbs passes c) e)
          (
            (ul, ur),
            (
              (IsHeap-part above (right_of m x c) l hl).1,
              (IsHeap-part above (right_of m x c) r hr).1,
            ),
          )
    raised-IsHeap (suc n) (left_of c x m) l r e hl hr ul ur =
        let q = climbs_on (above p x) (climbs passes c) n e in
        let f = IsHeap-part above (left_of c x m) l hl in
        raised-IsHeap n c l (node r x m) q.1 (lifted c l l m x hl f.0 f.1) hr ul
          (order.asymmetric p x q.0)
    raised-IsHeap (suc n) (right_of m x c) l r e hl hr ul ur =
        let q = climbs_on (above p x) (climbs passes c) n e in
        let f = IsHeap-part above (right_of m x c) r hr in
        raised-IsHeap n c (node m x l) r q.1 hl (lifted c r m r x hr f.0 f.1)
          (order.asymmetric p x q.0) ur
