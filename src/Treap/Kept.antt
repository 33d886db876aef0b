-- ===== src/Treap/Kept.antt =====
-- Insertion into a treap and removal from one leave a treap.
use intrusive.Base.{ℕ, ◌<◌, ◌≡◌, ◌≢◌, ap, ◌∙◌, ◌∷◌, ◌++◌, List, length, Bool, some}
use intrusive.Machine.{Ptr, null, Returns, Returns-imp}
use intrusive.BsTree.{Nodes}
use intrusive.BsTree.Shape.{Tree, leaf, node, inorder, PathUp, top, plug, times_up, above, levels}
use intrusive.BsTree.Hang.{Side, Standing}
use intrusive.BsTree.Commit.{Ends, before, after, inorder-split}
use intrusive.BsTree.Insert.{commit_at}
use intrusive.BsTree.Erase.Whole.{HasTree}
use intrusive.Treap.{erase, rebalance_check_and_commit}
use intrusive.Treap.Removal.{erase-HasTree}
use intrusive.Treap.Insertion.{rebalance_check_and_commit-HasTree}
use intrusive.Treap.Heap.{
  IsWeakOrder, IsHeap, IsHeap-part, IsHeap-replaced, Fits-below, merged-MergeOf,
}
use intrusive.Treap.Climb.{climbs-total, raised-IsHeap}

-- In `g` a heap with the nodes `xs` stands, whose further fields are as in `h`.
pub record HasTreap {X : Type 0} (higher : Ptr → Ptr → Bool) (h g : Nodes X) (header : Ptr)
    (xs : List Ptr) : Type 0 where
  pub tree : Tree
  pub stands : HasTree h g header tree
  pub nodes : inorder tree ≡ xs
  pub heap : IsHeap higher tree

module _ {X : Type 0} (h : Nodes X) (header : Ptr) (higher : Ptr → Ptr → Bool)
    (order : IsWeakOrder higher) where
  -- `erase` of a node of a treap, with fuel for each node and one round more, when the comparison
  -- of priorities is a strict weak order and never throws: it returns the node, and a treap
  -- remains, in the heap order, whose nodes are the others in their order. The header's left and
  -- right are at its ends, and the further fields of all nodes are as before.
  pub erase-HasTreap :
      (c : PathUp) (l : Tree) (z : Ptr) (r : Tree) (fuel : ℕ)
      → Standing h header top (plug c (node l z r))
      → Ends h header (plug c (node l z r))
      → IsHeap higher (plug c (node l z r))
      → length (inorder (plug c (node l z r))) < fuel
      → Returns
          (λ p g.
            (p ≡ z)
            × HasTreap higher h g header (before c ++ ((inorder l ++ inorder r) ++ after c)))
          (erase (λ x y. some (higher x y)) fuel header z h)
  erase-HasTreap c l z r fuel s ends heap enough =
      let part = (IsHeap-part higher c (node l z r) heap) in
      let m = merged-MergeOf higher order l r part.1.1.0 part.1.1.1 in
      Returns-imp (erase-HasTree (λ x y. some (higher x y)) c l z r fuel s ends enough m.tree m.is)
        λ p g q. (
          q.0,
          record {
            tree = plug c m.tree;
            stands = q.1;
            nodes = inorder-split c m.tree ∙ ap (λ xs. before c ++ (xs ++ after c)) q.2;
            heap =
                IsHeap-replaced higher c (node l z r) m.tree heap
                  (Fits-below higher order c m.tree l r z (m.under z part.1.0.0 part.1.0.1) part.0)
                  m.heap;
          },
        )

  -- `rebalance_check_and_commit` of a new node at an empty place of a treap, which the commit data
  -- name, with fuel for each level above the place and one round more, when the comparison of
  -- priorities is a strict weak order and never throws: it returns, and a treap stands, in the heap
  -- order, whose nodes are the old ones in their order and the new one among them at that place.
  -- The header's left and right are at its ends, and the further fields are as before.
  pub rebalance_check_and_commit-HasTreap :
      (c : PathUp) (p : Ptr) (b : Bool) (fuel : ℕ)
      → Standing h header top (plug c leaf)
      → Ends h header (plug c leaf)
      → IsHeap higher (plug c leaf)
      → Side c b
      → p ≢ null
      → p ≢ header
      → times_up p c ≡ 0
      → levels c < fuel
      → Returns
          (λ _ g. HasTreap higher h g header (before c ++ p ∷ after c))
          (rebalance_check_and_commit
            (λ x. some (higher p x))
            fuel
            header
            p
            (commit_at b (above header c))
            h)
  rebalance_check_and_commit-HasTreap c p b fuel s ends heap side p0 ph fresh enough =
      let n = climbs-total higher p c in
      Returns-imp
        (rebalance_check_and_commit-HasTree h header (λ x. some (higher p x)) c p b s ends side p0
          ph fresh fuel n.0 enough n.1)
        λ _ g q. record {
          tree = _;
          stands = q.0;
          nodes = q.1;
          heap = raised-IsHeap higher p order n.0 c leaf leaf n.1 heap heap tt tt;
        }
