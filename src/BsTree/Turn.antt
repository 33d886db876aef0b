-- ===== src/BsTree/Turn.antt =====
-- What both rotations share: the accesses, and the side on which a subtree hangs.
use intrusive.Base.{◌≢◌, arith, ◌==◌, if◌then◌else◌}
use intrusive.Machine.{Ptr, null, update}
use intrusive.BsTree.{Nodes}
use intrusive.BsTree.Shape.{
  Tree, leaf, node, PathUp, top, left_of, right_of, above, ne_of_hit, hit_self,
}
use intrusive.BsTree.Hang.{Side, Standing}

-- The parents after the node `r`, unless it is null, has been given the parent `p`.
abbrev pub adopt : (Ptr → Ptr) → Ptr → Ptr → Ptr → Ptr
adopt f r p = if r == null then f else update f r p

module _ {X : Type 0} where
  pub above_ne :
      {h : Nodes X} {header : Ptr} (c : PathUp) {t : Tree}
      → Standing h header c t
      → above header c ≢ null
  above_ne top s = ground (arith, s.nonnull)
  above_ne (left_of c x r) s = ground (arith, s.nonnull)
  above_ne (right_of l x c) s = ground (arith, s.nonnull)

  -- The node above has the root of the subtree on its left exactly when the path says so.
  pub Side-of :
      {h : Nodes X} {header : Ptr} (c : PathUp) (l : Tree) (p : Ptr) (r : Tree)
      → Standing h header c (node l p r)
      → Side c (h.left (above header c) == p)
  Side-of top l p r s = tt
  Side-of (left_of c x t) l p r s = ground (arith, s.around)
  Side-of (right_of leaf x c) l p r s = ground (arith, s.around, s.nonnull)
  Side-of (right_of (node tl y tr) x c) l p r s = ground (arith, s.around, s.distinct p)

  -- The node above a subtree is another one than its root.
  pub above-ne :
      {h : Nodes X} {header : Ptr} (c : PathUp) (p : Ptr) {l r : Tree}
      → Standing h header c (node l p r)
      → above header c ≢ p
  above-ne {header} top p s = ne_of_hit (omega (arith, s.distinct header, hit_self header))
  above-ne (left_of c x t) p s = ne_of_hit (omega (arith, s.distinct x, hit_self x))
  above-ne (right_of t x c) p s = ne_of_hit (omega (arith, s.distinct x, hit_self x))
