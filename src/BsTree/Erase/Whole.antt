-- ===== src/BsTree/Erase/Whole.antt =====
-- `erase` of a node of a tree.
pub mod One
pub mod Two
use intrusive.Base.{ℕ, ◌+◌, ◌≤◌, ◌≡◌, ap, arith, List, ◌∷◌, ◌++◌}
use intrusive.Machine.{Ptr, Returns}
use intrusive.BsTree.{Nodes}
use intrusive.BsTree.Shape.{Tree, leaf, node, inorder, PathUp, top, plug}
use intrusive.BsTree.Hang.{Standing}
use intrusive.BsTree.Commit.{Ends}
use intrusive.BsTree.Order.{depth_of}
use intrusive.BsTree.Step.{levels-depth}
use intrusive.BsTree.Locate.{Standing-unplug, in_front, behind, locate_at}
use intrusive.BsTree.Erase.{erase}
use intrusive.BsTree.Erase.Ends.{only_right, only_left}
use intrusive.BsTree.Erase.Whole.One.{erase_one}
use intrusive.BsTree.Erase.Whole.Two.{erase_two}
pub use intrusive.BsTree.Erase.Whole.One.{HasNodes, HasTree, erase_one-HasTree}

erase_any :
    {X : Type 0} {h : Nodes X} {header : Ptr} (c : PathUp) (fuel : ℕ) (l : Tree) (z : Ptr)
    (r : Tree)
    → Standing h header c (node l z r)
    → Ends h header (plug c (node l z r))
    → depth_of (node l z r) ≤ fuel
    → Returns (λ _ g. HasNodes h g header (in_front c l ++ behind c r)) (erase fuel header z h)
erase_any c fuel leaf z r s ends enough =
    erase_one c fuel leaf z r s ends only_right s.sub.4 (λ a. omega arith) (omega (arith, enough))
erase_any c fuel (node ll v lr) z leaf s ends enough =
    erase_one c fuel (node ll v lr) z leaf s ends only_left s.sub.3 (λ a. omega arith)
      (omega (arith, enough))
erase_any c fuel (node ll v lr) z (node rl w rr) s ends enough =
    erase_two c fuel ll v lr z rl w rr s ends enough

-- `erase` of a node of a tree, with fuel for each level, in a tree with the header's left and
-- right at its ends: no null pointer is used, and a tree remains whose nodes are the others in
-- their order, again with the header's left and right at its ends, and with the further fields
-- of all nodes as before.
pub erase-HasNodes :
    {X : Type 0} {h : Nodes X} {header : Ptr} (t : Tree) (xs : List Ptr) (z : Ptr) (ys : List Ptr)
    (fuel : ℕ)
    → Standing h header top t
    → Ends h header t
    → inorder t ≡ xs ++ z ∷ ys
    → depth_of t ≤ fuel
    → Returns (λ _ g. HasNodes h g header (xs ++ ys)) (erase fuel header z h)
erase-HasNodes t xs z ys fuel s ends e enough =
    let p = locate_at t xs z ys (λ a. omega (arith, s.distinct a)) e in
    let q = p.at in
    rw (p.front, p.back)
      (erase_any q.path fuel q.left z q.right
        (Standing-unplug q.path (node q.left z q.right) (rw q.whole s)) (rw q.whole ends)
        (omega (arith, enough, levels-depth q.path (node q.left z q.right), ap depth_of q.whole)))
