-- ===== src/RbTree/DoubleLeft.antt =====
-- The double rotations of the final step: the first one leaves out the link from the grandparent,
-- which the second one overwrites.
use mathlib.Core.Path.{fun_ext}
use intrusive.Base.{◌≡◌, ◌≢◌, sym, ◌∙◌, arith, ◌==◌}
use intrusive.Machine.{Ptr, null, Returns, Returns-ok, Returns-imp, ok, update}
use intrusive.BsTree.{Nodes, set_child}
use intrusive.BsTree.Rotate.{rotate_right, rotate_left}
use intrusive.BsTree.Access.{get_left-ok, set_parent-ok}
use intrusive.BsTree.Shape.{Tree, node, PathUp, right_of, above, ne_of_hit, hit_self, root-ne}
use intrusive.BsTree.Hang.{Standing, Spared, Spared-trans, Standing-right, Standing-up_right}
use intrusive.BsTree.Turn.{above_ne}
use intrusive.BsTree.TurnRight.{turned_right, spun_right, turn_right-ok, rotate_right-Standing}
use intrusive.BsTree.TurnLeft.{turned_left, spun_left, turn_left-ok, rotate_left-Standing}

module _ {X : Type 0} where
  -- The store after the whole first rotation, at the right child of `g`.
  abbrev linked_right : (x p g : Ptr) → Nodes X → Nodes X
  linked_right x p g h = let k = spun_right x p g h in record k { right = update k.right g p }

  rotate_right-ok :
      (x p g header : Ptr) (h : Nodes X)
      → x ≢ null
      → p ≢ null
      → g ≢ null
      → g ≢ header
      → h.left g ≢ x
      → rotate_right x p g header h ≡ ok tt (linked_right x p g h)
  unfolding rotate_right set_child
  rotate_right-ok x p g header h nx np ng gh e =
      rw (get_left-ok g h ng, turn_right-ok x p h nx np, set_parent-ok p g (turned_right x p h) np)
        (ground arith)

  spun_left-linked :
      (x p g u : Ptr) (h : Nodes X)
      → spun_left g p u (turned_right x p h) ≡ spun_left g p u (linked_right x p g h)
  spun_left-linked x p g u h = λ i. record {
    parent =
        fun_ext {f = (spun_left g p u (turned_right x p h)).parent}
          {g = (spun_left g p u (linked_right x p g h)).parent} (λ z. ground arith) i;
    left = (spun_left g p u (turned_right x p h)).left;
    right =
        fun_ext {f = (spun_left g p u (turned_right x p h)).right}
          {g = (spun_left g p u (linked_right x p g h)).right} (λ z. ground arith) i;
    tag = h.tag;
  }

  rotate_left-set_child :
      (g p u header : Ptr) (h : Nodes X)
      → p ≢ null
      → g ≢ null
      → u ≢ null
      → rotate_left g p u header h ≡ set_child header p u (h.left u == g) (spun_left g p u h)
  unfolding rotate_left
  rotate_left-set_child g p u header h np ng nu =
      rw (get_left-ok u h nu, turn_left-ok g p h ng np, set_parent-ok p u (turned_left g p h) np)

  second_left :
      (x p g u header : Ptr) (h : Nodes X)
      → p ≢ null
      → g ≢ null
      → u ≢ null
      → rotate_left g p u header (turned_right x p h)
        ≡ rotate_left g p u header (linked_right x p g h)
  second_left x p g u header h np ng nu =
      rotate_left-set_child g p u header (turned_right x p h) np ng nu
      ∙ (λ i.
          set_child header p u ((turned_right x p h).left u == g) (spun_left-linked x p g u h i))
      ∙ sym (rotate_left-set_child g p u header (linked_right x p g h) np ng nu)

  -- The two rotations when `p` is the left child of the right child `x` of `g`.
  pub double_left-Standing :
      {h : Nodes X} {header : Ptr} (c : PathUp) (e : Tree) (g : Ptr) (d : Tree) (p : Ptr) (b : Tree)
      (x : Ptr) (a : Tree)
      → Standing h header c (node e g (node (node d p b) x a))
      → Returns
          (λ _ k. Standing k header c (node (node e g d) p (node b x a)) × Spared h k header)
          (rotate_left g p (above header c) header (turned_right x p h))
  double_left-Standing {h} {header} c e g d p b x a s =
      let nx : x ≢ null = ground (arith, s.nonnull) in
      let np : p ≢ null = ground (arith, s.nonnull) in
      let ng : g ≢ null = ground (arith, s.nonnull) in
      let gh : g ≢ header = ne_of_hit (omega (arith, s.distinct g, hit_self g)) in
      let left_ne : h.left g ≢ x =
        λ q. root-ne e x (omega (arith, s.distinct x, hit_self x)) nx (sym q ∙ s.sub.1) in
      let (inner, spared) = Returns-ok (
        rw (rotate_right-ok x p g header h nx np ng gh left_ne) at (
          rotate_right-Standing (right_of e g c) a x b p d
            (Standing-right c e g (node (node d p b) x a) s))) in
      let outer = Standing-up_right c e g (node d p (node b x a)) inner in
      rw (second_left x p g (above header c) header h np ng (above_ne c s)) (
        Returns-imp (rotate_left-Standing c e g d p (node b x a) outer)
          λ _ k (stands, spared'). (stands, Spared-trans spared spared'))
