-- ===== src/RbTree/FinalStep.antt =====
-- The final step of the rebalancing after an insertion.
use intrusive.Base.{◌≡◌, ◌≢◌, sym, ◌∙◌, arith, true, false, ◌==◌}
use intrusive.Machine.{Ptr, null, Returns, returns, Returns-bind, update}
use intrusive.BsTree.Access.{get_left-ok, get_parent-ok}
use intrusive.BsTree.Shape.{Tree, node, times, PathUp, ne_of_hit, hit_self, root_of, root-ne}
use intrusive.BsTree.Hang.{Standing, Standing-retag, Spared}
use intrusive.BsTree.TurnLeft.{turned_left, turn_left-ok, rotate_left-Standing}
use intrusive.BsTree.TurnRight.{turned_right, turn_right-ok, rotate_right-Standing}
use intrusive.RbTree.{black, RbNodes, final_step_left, final_step_right}
use intrusive.RbTree.DoubleRight.{double_right-Standing}
use intrusive.RbTree.DoubleLeft.{double_left-Standing}
use intrusive.RbTree.Recolor.{set_color-ok}

-- What the final step leaves: the subtree `t`, whose root `m` is black.
pub record Finished (h k : RbNodes) (header : Ptr) (c : PathUp) (t : Tree) (m : Ptr) : Type 0 where
  pub stands : Standing k header c t
  pub leftmost : k.left header ≡ h.left header
  pub rightmost : k.right header ≡ h.right header
  pub black_root : k.tag m ≡ black
  pub others : (a : Ptr) → a ≢ m → k.tag a ≡ h.tag a

painted :
    {h k : RbNodes} {header : Ptr} {c : PathUp} {t : Tree} (m : Ptr)
    → Standing k header c t
    → Spared h k header
    → Finished h (record k { tag = update k.tag m black }) header c t m
painted m s e = record {
  stands = Standing-retag _ s;
  leftmost = e.leftmost;
  rightmost = e.rightmost;
  black_root = ground arith;
  others = λ a n. ground (arith, e.tag a);
}

ne-false : {a b : Ptr} → a ≢ b → (a == b) ≡ false
ne-false n = ground arith

root_ne_of : (t : Tree) (a : Ptr) → times a t ≡ 0 → a ≢ null → root_of t ≢ a
root_ne_of t a z n e = root-ne t a z n (sym e)

-- The first rotation of two leaves the parent of the grandparent.
turned_left-parent :
    (x p : Ptr) (b : Tree) (h : RbNodes) (z : Ptr)
    → h.left p ≡ root_of b
    → z ≢ x
    → z ≢ root_of b
    → (turned_left x p h).parent z ≡ h.parent z
turned_left-parent x p b h z e n m = ground arith

turned_right-parent :
    (x p : Ptr) (b : Tree) (h : RbNodes) (z : Ptr)
    → h.right p ≡ root_of b
    → z ≢ x
    → z ≢ root_of b
    → (turned_right x p h).parent z ≡ h.parent z
turned_right-parent x p b h z e n m = ground arith

module _ {h : RbNodes} {header : Ptr} (c : PathUp) where
  pub final_left_single :
      (a : Tree) (p : Ptr) (b : Tree) (x : Ptr) (d : Tree) (g : Ptr) (e : Tree)
      → Standing h header c (node (node (node a p b) x d) g e)
      → Returns
          (λ _ k. Finished h k header c (node (node a p b) x (node d g e)) x)
          (final_step_left header p x g h)
  unfolding final_step_left
  final_left_single a p b x d g e s =
      let nx : x ≢ null = ground (arith, s.nonnull) in
      let ng : g ≢ null = ground (arith, s.nonnull) in
      let same : (p == p) ≡ true = ground arith in
      rw (get_left-ok x h nx, s.sub.3.1, same, get_parent-ok g h ng, s.sub.0)
        (Returns-bind (rotate_right-Standing c e g d x (node a p b) s)
          λ _ k (st, sp). rw (set_color-ok x black k nx) (returns (painted x st sp)))

  pub final_left_double :
      (a : Tree) (x : Ptr) (b : Tree) (p : Ptr) (d : Tree) (g : Ptr) (e : Tree)
      → Standing h header c (node (node a x (node b p d)) g e)
      → Returns
          (λ _ k. Finished h k header c (node (node a x b) p (node d g e)) p)
          (final_step_left header p x g h)
  unfolding final_step_left
  final_left_double a x b p d g e s =
      let nx : x ≢ null = ground (arith, s.nonnull) in
      let np : p ≢ null = ground (arith, s.nonnull) in
      let ng : g ≢ null = ground (arith, s.nonnull) in
      let other : (root_of a == p) ≡ false =
        ne-false (root_ne_of a p (omega (arith, s.distinct p, hit_self p)) np) in
      let up =
        turned_left-parent x p b h g s.sub.3.4.1
          (ne_of_hit (omega (arith, s.distinct g, hit_self g)))
          (root-ne b g (omega (arith, s.distinct g, hit_self g)) ng)
        ∙ s.sub.0 in
      rw
        (
          get_left-ok x h nx,
          s.sub.3.1,
          other,
          turn_left-ok x p h nx np,
          get_parent-ok g (turned_left x p h) ng,
          up,
        )
        (Returns-bind (double_right-Standing c a x b p d g e s)
          λ _ k (st, sp). rw (set_color-ok p black k np) (returns (painted p st sp)))

  pub final_right_single :
      (e : Tree) (g : Ptr) (d : Tree) (x : Ptr) (a : Tree) (p : Ptr) (b : Tree)
      → Standing h header c (node e g (node d x (node a p b)))
      → Returns
          (λ _ k. Finished h k header c (node (node e g d) x (node a p b)) x)
          (final_step_right header p x g h)
  unfolding final_step_right
  final_right_single e g d x a p b s =
      let nx : x ≢ null = ground (arith, s.nonnull) in
      let np : p ≢ null = ground (arith, s.nonnull) in
      let ng : g ≢ null = ground (arith, s.nonnull) in
      let other : (root_of d == p) ≡ false =
        ne-false (root_ne_of d p (omega (arith, s.distinct p, hit_self p)) np) in
      rw (get_left-ok x h nx, s.sub.4.1, other, get_parent-ok g h ng, s.sub.0)
        (Returns-bind (rotate_left-Standing c e g d x (node a p b) s)
          λ _ k (st, sp). rw (set_color-ok x black k nx) (returns (painted x st sp)))

  pub final_right_double :
      (e : Tree) (g : Ptr) (d : Tree) (p : Ptr) (b : Tree) (x : Ptr) (a : Tree)
      → Standing h header c (node e g (node (node d p b) x a))
      → Returns
          (λ _ k. Finished h k header c (node (node e g d) p (node b x a)) p)
          (final_step_right header p x g h)
  unfolding final_step_right
  final_right_double e g d p b x a s =
      let nx : x ≢ null = ground (arith, s.nonnull) in
      let np : p ≢ null = ground (arith, s.nonnull) in
      let ng : g ≢ null = ground (arith, s.nonnull) in
      let same : (p == p) ≡ true = ground arith in
      let up =
        turned_right-parent x p b h g s.sub.4.3.2
          (ne_of_hit (omega (arith, s.distinct g, hit_self g)))
          (root-ne b g (omega (arith, s.distinct g, hit_self g)) ng)
        ∙ s.sub.0 in
      rw
        (
          get_left-ok x h nx,
          s.sub.4.1,
          same,
          turn_right-ok x p h nx np,
          get_parent-ok g (turned_right x p h) ng,
          up,
        )
        (Returns-bind (double_left-Standing c e g d p b x a s)
          λ _ k (st, sp). rw (set_color-ok p black k np) (returns (painted p st sp)))
