-- ===== src/RbTree/DoubleRight.antt =====
-- The double rotations of the final step: the first one leaves out the link from the grandparent,
-- which the second one overwrites.
use mathlib.Core.Path.{fun_ext}
use intrusive.Base.{◌≡◌, ◌≢◌, sym, ◌∙◌, arith, ◌==◌}
use intrusive.Machine.{Ptr, null, Returns, Returns-ok, Returns-imp, ok, update}
use intrusive.BsTree.{Nodes, set_child}
use intrusive.BsTree.Rotate.{rotate_left, rotate_right}
use intrusive.BsTree.Access.{get_left-ok, set_parent-ok}
use intrusive.BsTree.Shape.{Tree, node, PathUp, left_of, above, ne_of_hit, hit_self}
use intrusive.BsTree.Hang.{Standing, Spared, Spared-trans, Standing-left, Standing-up_left}
use intrusive.BsTree.Turn.{above_ne, above-ne}
use intrusive.BsTree.TurnLeft.{turned_left, spun_left, turn_left-ok, rotate_left-Standing}
use intrusive.BsTree.TurnRight.{turned_right, spun_right, turn_right-ok, rotate_right-Standing}

module _ {X : Type 0} where
  -- The store after the whole first rotation, at the left child of `g`.
  abbrev linked_left : (x p g : Ptr) → Nodes X → Nodes X
  linked_left x p g h = let k = spun_left x p g h in record k { left = update k.left g p }

  rotate_left-ok :
      (x p g header : Ptr) (h : Nodes X)
      → x ≢ null
      → p ≢ null
      → g ≢ null
      → g ≢ header
      → h.left g ≡ x
      → rotate_left x p g header h ≡ ok tt (linked_left x p g h)
  unfolding rotate_left set_child
  rotate_left-ok x p g header h nx np ng gh e =
      rw (get_left-ok g h ng, turn_left-ok x p h nx np, set_parent-ok p g (turned_left x p h) np)
        (ground arith)

  spun_right-linked :
      (x p g u : Ptr) (h : Nodes X)
      → spun_right g p u (turned_left x p h) ≡ spun_right g p u (linked_left x p g h)
  spun_right-linked x p g u h = λ i. record {
    parent =
        fun_ext {f = (spun_right g p u (turned_left x p h)).parent}
          {g = (spun_right g p u (linked_left x p g h)).parent} (λ z. ground arith) i;
    left =
        fun_ext {f = (spun_right g p u (turned_left x p h)).left}
          {g = (spun_right g p u (linked_left x p g h)).left} (λ z. ground arith) i;
    right = (spun_right g p u (turned_left x p h)).right;
    tag = h.tag;
  }

  rotate_right-set_child :
      (g p u header : Ptr) (h : Nodes X)
      → p ≢ null
      → g ≢ null
      → u ≢ null
      → rotate_right g p u header h ≡ set_child header p u (h.left u == g) (spun_right g p u h)
  unfolding rotate_right
  rotate_right-set_child g p u header h np ng nu =
      rw (get_left-ok u h nu, turn_right-ok g p h ng np, set_parent-ok p u (turned_right g p h) np)

  second_right :
      (x p g u header : Ptr) (h : Nodes X)
      → p ≢ null
      → g ≢ null
      → u ≢ null
      → u ≢ g
      → rotate_right g p u header (turned_left x p h)
        ≡ rotate_right g p u header (linked_left x p g h)
  second_right x p g u header h np ng nu ug =
      let e : (turned_left x p h).left u ≡ (linked_left x p g h).left u = ground arith in
      rotate_right-set_child g p u header (turned_left x p h) np ng nu
      ∙ (λ i. set_child header p u (e i == g) (spun_right-linked x p g u h i))
      ∙ sym (rotate_right-set_child g p u header (linked_left x p g h) np ng nu)

  -- The two rotations when `p` is the right child of the left child `x` of `g`.
  pub double_right-Standing :
      {h : Nodes X} {header : Ptr} (c : PathUp) (a : Tree) (x : Ptr) (b : Tree) (p : Ptr) (d : Tree)
      (g : Ptr) (e : Tree)
      → Standing h header c (node (node a x (node b p d)) g e)
      → Returns
          (λ _ k. Standing k header c (node (node a x b) p (node d g e)) × Spared h k header)
          (rotate_right g p (above header c) header (turned_left x p h))
  double_right-Standing {h} {header} c a x b p d g e s =
      let nx : x ≢ null = ground (arith, s.nonnull) in
      let np : p ≢ null = ground (arith, s.nonnull) in
      let ng : g ≢ null = ground (arith, s.nonnull) in
      let gh : g ≢ header = ne_of_hit (omega (arith, s.distinct g, hit_self g)) in
      let (inner, spared) = Returns-ok (
        rw (rotate_left-ok x p g header h nx np ng gh s.sub.1) at (
          rotate_left-Standing (left_of c g e) a x b p d
            (Standing-left c (node a x (node b p d)) g e s))) in
      let outer = Standing-up_left c (node (node a x b) p d) g e inner in
      rw (second_right x p g (above header c) header h np ng (above_ne c s) (above-ne c g outer)) (
        Returns-imp (rotate_right-Standing c e g d p (node a x b) outer)
          λ _ k (stands, spared'). (stands, Spared-trans spared spared'))
