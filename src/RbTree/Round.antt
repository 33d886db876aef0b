-- ===== src/RbTree/Round.antt =====
-- What `recolor_or_rotate` runs, by the side of the parent and the colour of the uncle.
use intrusive.Base.{◌≡◌, ◌≢◌, arith, true, false, ◌==◌, none, some}
use intrusive.Machine.{Ptr, null, ok, and_then, update}
use intrusive.BsTree.Access.{get_left-ok, get_right-ok}
use intrusive.BsTree.Shape.{Tree, node, times, root_of, root-ne, PathUp, hit_self}
use intrusive.BsTree.Hang.{Standing}
use intrusive.RbTree.{
  red, black, RbNodes, is_red, recolor_or_rotate, final_step_left, final_step_right,
}
use intrusive.RbTree.Invariant.{root_color, root_color-frame}
use intrusive.RbTree.Recolor.{set_color-ok, is_red_node-ok}

-- The colours after the grandparent `g` has been made red.
abbrev pub reddened : Ptr → RbNodes → RbNodes
reddened g h = record h { tag = update h.tag g red }

-- The colours after the parent `x` and the uncle `y` have been made black, too.
abbrev pub recolored : (x y g : Ptr) → RbNodes → RbNodes
recolored x y g h = record h { tag = update (update (update h.tag g red) y black) x black }

uncle_color :
    (h : RbNodes) (g : Ptr) (e : Tree)
    → times g e ≡ 0
    → root_color (reddened g h).tag e ≡ root_color h.tag e
uncle_color h g e z = root_color-frame h.tag (reddened g h).tag e (λ a m. ground arith)

module _ {h : RbNodes} {header : Ptr} {c : PathUp} (p : Ptr) (s1 : Tree) (x : Ptr) (s2 : Tree)
    (g : Ptr) where
  pub recolor_left :
      (el : Tree) (y : Ptr) (er : Tree)
      → Standing h header c (node (node s1 x s2) g (node el y er))
      → h.tag y ≡ red
      → recolor_or_rotate header p x g h ≡ ok (some g) (recolored x y g h)
  unfolding recolor_or_rotate
  recolor_left el y er s red_y =
      let n = s.nonnull in
      let same : (x == x) ≡ true = ground arith in
      let is : is_red (root_color (reddened g h).tag (node el y er)) ≡ true =
        rw (uncle_color h g (node el y er) (omega (arith, s.distinct g, hit_self g)), red_y) in
      rw (
        set_color-ok g red h (ground (arith, n)),
        get_left-ok g (reddened g h) (ground (arith, n)),
        s.sub.1,
        same,
        get_right-ok g (reddened g h) (ground (arith, n)),
        s.sub.2,
        is_red_node-ok (node el y er) (reddened g h) (omega (arith, n)),
        is,
        set_color-ok y black (reddened g h) (ground (arith, n)),
        set_color-ok x black (record h { tag = update (update h.tag g red) y black })
            (ground (arith, n)),
      )

  pub rotate_left_child :
      (e : Tree)
      → Standing h header c (node (node s1 x s2) g e)
      → root_color h.tag e ≡ black
      → recolor_or_rotate header p x g h
        ≡ and_then (final_step_left header p x g (reddened g h)) (λ _. ok none)
  unfolding recolor_or_rotate
  rotate_left_child e s black_e =
      let n = s.nonnull in
      let same : (x == x) ≡ true = ground arith in
      let is : is_red (root_color (reddened g h).tag e) ≡ false =
        rw (uncle_color h g e (omega (arith, s.distinct g, hit_self g)), black_e) in
      rw (
        set_color-ok g red h (ground (arith, n)),
        get_left-ok g (reddened g h) (ground (arith, n)),
        s.sub.1,
        same,
        get_right-ok g (reddened g h) (ground (arith, n)),
        s.sub.2,
        is_red_node-ok e (reddened g h) (omega (arith, n)),
        is,
      )

  pub recolor_right :
      (el : Tree) (y : Ptr) (er : Tree)
      → Standing h header c (node (node el y er) g (node s1 x s2))
      → h.tag y ≡ red
      → recolor_or_rotate header p x g h ≡ ok (some g) (recolored x y g h)
  unfolding recolor_or_rotate
  recolor_right el y er s red_y =
      let n = s.nonnull in
      let other : (x == y) ≡ false = ground (arith, s.distinct x) in
      let is : is_red (root_color (reddened g h).tag (node el y er)) ≡ true =
        rw (uncle_color h g (node el y er) (omega (arith, s.distinct g, hit_self g)), red_y) in
      rw (
        set_color-ok g red h (ground (arith, n)),
        get_left-ok g (reddened g h) (ground (arith, n)),
        s.sub.1,
        other,
        is_red_node-ok (node el y er) (reddened g h) (omega (arith, n)),
        is,
        set_color-ok y black (reddened g h) (ground (arith, n)),
        set_color-ok x black (record h { tag = update (update h.tag g red) y black })
            (ground (arith, n)),
      )

  pub rotate_right_child :
      (e : Tree)
      → Standing h header c (node e g (node s1 x s2))
      → root_color h.tag e ≡ black
      → recolor_or_rotate header p x g h
        ≡ and_then (final_step_right header p x g (reddened g h)) (λ _. ok none)
  unfolding recolor_or_rotate
  rotate_right_child e s black_e =
      let n = s.nonnull in
      let nx : x ≢ null = ground (arith, n) in
      let ne = root-ne e x (omega (arith, s.distinct x, hit_self x)) nx in
      let other : (x == root_of e) ≡ false = ground (arith, ne) in
      let is : is_red (root_color (reddened g h).tag e) ≡ false =
        rw (uncle_color h g e (omega (arith, s.distinct g, hit_self g)), black_e) in
      rw (
        set_color-ok g red h (ground (arith, n)),
        get_left-ok g (reddened g h) (ground (arith, n)),
        s.sub.1,
        other,
        is_red_node-ok e (reddened g h) (omega (arith, n)),
        is,
      )
