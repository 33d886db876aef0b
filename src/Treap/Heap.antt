-- ===== src/Treap/Heap.antt =====
-- The heap order of a treap: no node has a higher priority than the one above it.
use intrusive.Base.{◌≡◌, refl, ap, ◌∙◌, inl, inr, Bool, true, false, Bool-cases, Option, some}
use mathlib.Core.Option.{map}
use intrusive.Machine.{Ptr}
use intrusive.BsTree.Shape.{Tree, leaf, node, PathUp, top, left_of, right_of, plug}
use intrusive.Treap.Merge.{merged, merged-chosen}

-- A strict weak order: what the library asks of a comparison of priorities.
pub record IsWeakOrder (above : Ptr → Ptr → Bool) : Type 0 where
  pub asymmetric : (x y : Ptr) → above x y ≡ true → above y x ≡ false
  pub transitive : (x y z : Ptr) → above x y ≡ false → above y z ≡ false → above x z ≡ false

module _ (above : Ptr → Ptr → Bool) where
  -- The root does not have a higher priority than `x`.
  abbrev pub Under : Tree → Ptr → Type 0
  Under leaf x = Unit {0}
  Under (node l y r) x = above y x ≡ false

  abbrev pub IsHeap : Tree → Type 0
  IsHeap leaf = Unit {0}
  IsHeap (node l x r) = (Under l x × Under r x) × (IsHeap l × IsHeap r)

  -- The same for the node above a place.
  abbrev Fits : PathUp → Tree → Type 0
  Fits top t = Unit {0}
  Fits (left_of c x m) t = Under t x
  Fits (right_of m x c) t = Under t x

  pub IsHeap-part : (c : PathUp) (t : Tree) → IsHeap (plug c t) → Fits c t × IsHeap t
  IsHeap-part top t e = (tt, e)
  IsHeap-part (left_of c x m) t e = let f = (IsHeap-part c (node t x m) e).1 in (f.0.0, f.1.0)
  IsHeap-part (right_of m x c) t e = let f = (IsHeap-part c (node m x t) e).1 in (f.0.1, f.1.1)

  Fits-same :
      (c : PathUp) (l l' r r' : Tree) (x : Ptr) → Fits c (node l x r) → Fits c (node l' x r')
  Fits-same top l l' r r' x e = tt
  Fits-same (left_of c y m) l l' r r' x e = e
  Fits-same (right_of m y c) l l' r r' x e = e

  -- Another heap at the place of a part.
  pub IsHeap-replaced :
      (c : PathUp) (t u : Tree) → IsHeap (plug c t) → Fits c u → IsHeap u → IsHeap (plug c u)
  IsHeap-replaced top t u e f i = i
  IsHeap-replaced (left_of c x m) t u e f i =
      let g = IsHeap-part c (node t x m) e in
      IsHeap-replaced c (node t x m) (node u x m) e (Fits-same c t u m m x g.0)
        ((f, g.1.0.1), (i, g.1.1.1))
  IsHeap-replaced (right_of m x c) t u e f i =
      let g = IsHeap-part c (node m x t) e in
      IsHeap-replaced c (node m x t) (node m x u) e (Fits-same c m m t u x g.0)
        ((g.1.0.0, f), (g.1.1.0, i))

  module _ (order : IsWeakOrder above) where
    Under-trans : (t : Tree) (x y : Ptr) → Under t x → above x y ≡ false → Under t y
    Under-trans leaf x y e f = tt
    Under-trans (node l z r) x y e f = order.transitive z x y e f

    pub Fits-below :
        (c : PathUp) (t l r : Tree) (x : Ptr) → Under t x → Fits c (node l x r) → Fits c t
    Fits-below top t l r x e f = tt
    Fits-below (left_of c y m) t l r x e f = Under-trans t x y e f
    Fits-below (right_of m y c) t l r x e f = Under-trans t x y e f

    abbrev pub pcomp : Ptr → Ptr → Option Bool
    pcomp x y = some (above x y)

    -- A merge that is a heap, and under each node that both parts are under.
    pub record MergeOf (l r : Tree) (o : Option Tree) : Type 0 where
      pub tree : Tree
      pub is : o ≡ some tree
      pub under : (x : Ptr) → Under l x → Under r x → Under tree x
      pub heap : IsHeap tree

    pub merged-MergeOf : (l r : Tree) → IsHeap l → IsHeap r → MergeOf l r (merged pcomp l r)
    merged-MergeOf leaf r i j = record { tree = r; is = refl; under = λ x e f. f; heap = j }
    merged-MergeOf (node a q b) leaf i j = record {
      tree = node a q b;
      is = refl;
      under = λ x e f. e;
      heap = i;
    }
    merged-MergeOf (node a q b) (node c p d) i j =
        let m = merged-MergeOf b (node c p d) i.1.1 j in
        let n = merged-MergeOf (node a q b) c i j.1.0 in
        elim (Bool-cases (above q p)) [
          | inl e ↦ record {
            tree = node a q m.tree;
            is = merged-chosen pcomp a q b c p d (ap some e) ∙ ap (map (node a q)) m.is;
            under = λ x f g. f;
            heap = ((i.0.0, m.under q i.0.1 (order.asymmetric q p e)), (i.1.0, m.heap));
          }
          | inr e ↦ record {
            tree = node n.tree p d;
            is = merged-chosen pcomp a q b c p d (ap some e) ∙ ap (map (λ t. node t p d)) n.is;
            under = λ x f g. g;
            heap = ((n.under p e j.0.0, j.0.1), (n.heap, j.1.1));
          }
        ]
