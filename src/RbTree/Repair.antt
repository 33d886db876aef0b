-- ===== src/RbTree/Repair.antt =====
-- What one round of the rebalancing leaves, below the node above the grandparent.
use intrusive.Base.{
  ℕ, ◌+◌, ◌≤◌, ◌≡◌, ◌≢◌, refl, sym, ◌∙◌, append_assoc, arith, hit, Option, none, some,
}
use intrusive.Machine.{Ptr, Returns, returns, Returns-bind}
use intrusive.BsTree.Shape.{Tree, node, inorder, times, root_of, PathUp, ne_of_hit, hit_self}
use intrusive.BsTree.Hang.{Standing, Standing-retag}
use intrusive.RbTree.{Color, red, black, RbNodes, recolor_or_rotate}
use intrusive.RbTree.Invariant.{
  height, root_color, IsRb, height-frame, IsRb-frame, root_color-frame,
}
use intrusive.RbTree.FinalStep.{
  Finished, final_left_single, final_left_double, final_right_single, final_right_double,
}
use intrusive.RbTree.Round.{
  reddened, recolored, recolor_left, rotate_left_child, recolor_right, rotate_right_child,
}

-- The subtree's root after a round: black, or the red node to go on with.
abbrev pub Next : (Ptr → Color) → Tree → Option Ptr → Type 0
Next color t none = root_color color t ≡ black
Next color t (some q) = (root_of t ≡ q) × (root_color color t ≡ red)

pub record Repaired (h k : RbNodes) (header : Ptr) (c : PathUp) (t0 : Tree) (next : Option Ptr)
    : Type 0 where
  pub tree : Tree
  pub stands : Standing k header c tree
  pub order : inorder tree ≡ inorder t0
  pub rb : IsRb k.tag tree
  pub height_kept : height k.tag tree ≡ height h.tag t0
  pub goes_on : Next k.tag tree next
  pub outside : (a : Ptr) → times a t0 ≡ 0 → k.tag a ≡ h.tag a
  pub leftmost : k.left header ≡ h.left header
  pub rightmost : k.right header ≡ h.right header

-- A subtree that satisfies the invariant, with the height `n`.
abbrev pub Good : (Ptr → Color) → Tree → ℕ → Type 0
Good color t n = IsRb color t × (height color t ≡ n)

pub Good-frame :
    (color paint : Ptr → Color) (t : Tree) (n : ℕ)
    → Good color t n
    → ((a : Ptr) → 1 ≤ times a t → paint a ≡ color a)
    → Good paint t n
Good-frame color paint t n g same =
    (IsRb-frame color paint t g.0 same, height-frame color paint t same ∙ g.1)

module _ (color : Ptr → Color) (s1 : Tree) (x : Ptr) (s2 : Tree) (g : Ptr) (s3 : Tree) (y : Ptr)
    (s4 : Tree) (n : ℕ) where
  black_children :
      Good color s1 n
      → Good color s2 n
      → Good color s3 n
      → Good color s4 n
      → color x ≡ black
      → color g ≡ red
      → color y ≡ black
      → Good color (node (node s1 x s2) g (node s3 y s4)) (n + 1)
  black_children a b d e cx cg cy = (
    (
      ground arith,
      ground arith,
      ground arith,
      (ground arith, ground arith, ground arith, a.0, b.0),
      (ground arith, ground arith, ground arith, d.0, e.0),
    ),
    ground arith,
  )

  red_children :
      Good color s1 n
      → Good color s2 n
      → Good color s3 n
      → Good color s4 n
      → root_color color s1 ≡ black
      → root_color color s2 ≡ black
      → root_color color s3 ≡ black
      → root_color color s4 ≡ black
      → color x ≡ red
      → color g ≡ black
      → color y ≡ red
      → Good color (node (node s1 x s2) g (node s3 y s4)) (n + 1)
  red_children a b d e ra rb rd re cx cg cy = (
    (
      ground arith,
      ground arith,
      ground arith,
      (ground arith, ground arith, ground arith, a.0, b.0),
      (ground arith, ground arith, ground arith, d.0, e.0),
    ),
    ground arith,
  )

module _ (h : RbNodes) (x y g : Ptr) where
  recolored_others : (a : Ptr) → a ≢ x → a ≢ y → a ≢ g → (recolored x y g h).tag a ≡ h.tag a
  recolored_others a nx ny ng = ground arith

  recolored_three :
      g ≢ x
      → g ≢ y
      → ((recolored x y g h).tag x ≡ black)
        × ((recolored x y g h).tag y ≡ black)
        × ((recolored x y g h).tag g ≡ red)
  recolored_three nx ny = (ground arith, ground arith, ground arith)

-- After recolouring, whichever child of the grandparent is the parent.
Repaired-recolored :
    {h k : RbNodes} {header : Ptr} {c : PathUp} (s1 : Tree) (x : Ptr) (s2 : Tree) (g : Ptr)
    (s3 : Tree) (y : Ptr) (s4 : Tree) (n : ℕ)
    → Standing h header c (node (node s1 x s2) g (node s3 y s4))
    → Good h.tag s1 n
    → Good h.tag s2 n
    → Good h.tag s3 n
    → Good h.tag s4 n
    → height h.tag (node (node s1 x s2) g (node s3 y s4)) ≡ n + 1
    → Standing k header c (node (node s1 x s2) g (node s3 y s4))
    → ((a : Ptr) → a ≢ x → a ≢ y → a ≢ g → k.tag a ≡ h.tag a)
    → k.tag x ≡ black
    → k.tag y ≡ black
    → k.tag g ≡ red
    → k.left header ≡ h.left header
    → k.right header ≡ h.right header
    → Repaired h k header c (node (node s1 x s2) g (node s3 y s4)) (some g)
Repaired-recolored {h} {k} s1 x s2 g s3 y s4 n s a b d e high st others kx ky kg el er =
    let dz = s.distinct in
    let far = λ (z : Ptr) (nx : hit z x ≡ 0) (ny : hit z y ≡ 0) (ng : hit z g ≡ 0).
      others z (ne_of_hit nx) (ne_of_hit ny) (ne_of_hit ng) in
    let good : Good k.tag (node (node s1 x s2) g (node s3 y s4)) (n + 1) =
      black_children k.tag s1 x s2 g s3 y s4 n
        (Good-frame h.tag k.tag s1 n a
          (λ z m. far z (omega (arith, dz z)) (omega (arith, dz z)) (omega (arith, dz z))))
        (Good-frame h.tag k.tag s2 n b
          (λ z m. far z (omega (arith, dz z)) (omega (arith, dz z)) (omega (arith, dz z))))
        (Good-frame h.tag k.tag s3 n d
          (λ z m. far z (omega (arith, dz z)) (omega (arith, dz z)) (omega (arith, dz z))))
        (Good-frame h.tag k.tag s4 n e
          (λ z m. far z (omega (arith, dz z)) (omega (arith, dz z)) (omega (arith, dz z))))
        kx kg ky in
    record {
      tree = node (node s1 x s2) g (node s3 y s4);
      stands = st;
      order = refl;
      rb = good.0;
      height_kept = good.1 ∙ sym high;
      goes_on = (refl, kg);
      outside = λ z o. far z (omega (arith, o)) (omega (arith, o)) (omega (arith, o));
      leftmost = el;
      rightmost = er;
    }

module _ {h : RbNodes} {header : Ptr} {c : PathUp} (p : Ptr) (s1 : Tree) (x : Ptr) (s2 : Tree)
    (g : Ptr) (el : Tree) (y : Ptr) (er : Tree) (n : ℕ) (a : Good h.tag s1 n) (b : Good h.tag s2 n)
    (d : Good h.tag el n) (e : Good h.tag er n) (red_x : h.tag x ≡ red) (red_y : h.tag y ≡ red)
    (black_g : h.tag g ≡ black) where
  pub Repaired-left :
      Standing h header c (node (node s1 x s2) g (node el y er))
      → Returns
          (λ o k. Repaired h k header c (node (node s1 x s2) g (node el y er)) o)
          (recolor_or_rotate header p x g h)
  Repaired-left s =
      let three =
        recolored_three h x y g (ne_of_hit (omega (arith, s.distinct g, hit_self g)))
          (ne_of_hit (omega (arith, s.distinct g, hit_self g))) in
      rw (recolor_left p s1 x s2 g el y er s red_y) (
        returns (
          Repaired-recolored s1 x s2 g el y er n s a b d e (rw (red_x, black_g, a.1) (omega arith))
            (Standing-retag _ s) (recolored_others h x y g) three.0 three.1 three.2 refl refl))

  pub Repaired-right :
      Standing h header c (node (node el y er) g (node s1 x s2))
      → Returns
          (λ o k. Repaired h k header c (node (node el y er) g (node s1 x s2)) o)
          (recolor_or_rotate header p x g h)
  Repaired-right s =
      let three =
        recolored_three h x y g (ne_of_hit (omega (arith, s.distinct g, hit_self g)))
          (ne_of_hit (omega (arith, s.distinct g, hit_self g))) in
      rw (recolor_right p s1 x s2 g el y er s red_y) (
        returns (
          Repaired-recolored el y er g s1 x s2 n s d e a b (rw (red_y, black_g, d.1) (omega arith))
            (Standing-retag _ s) (λ z ny nx ng. recolored_others h x y g z nx ny ng) three.1 three.0
            three.2 refl refl))

reddened_others : (h : RbNodes) (g a : Ptr) → a ≢ g → (reddened g h).tag a ≡ h.tag a
reddened_others h g a n = ground arith

reddened_self : (h : RbNodes) (g : Ptr) → (reddened g h).tag g ≡ red
reddened_self h g = ground arith

-- After the final step: the middle one of three nodes has become black, above two red ones.
Repaired-Finished :
    {h k : RbNodes} {header : Ptr} {c : PathUp} (t0 : Tree) (s1 : Tree) (l : Ptr) (s2 : Tree)
    (m : Ptr) (s3 : Tree) (r g : Ptr) (s4 : Tree) (n : ℕ)
    → Finished (reddened g h) k header c (node (node s1 l s2) m (node s3 r s4)) m
    → inorder (node (node s1 l s2) m (node s3 r s4)) ≡ inorder t0
    → ((a : Ptr) → times a (node (node s1 l s2) m (node s3 r s4)) ≡ times a t0)
    → Good h.tag s1 n
    → Good h.tag s2 n
    → Good h.tag s3 n
    → Good h.tag s4 n
    → root_color h.tag s1 ≡ black
    → root_color h.tag s2 ≡ black
    → root_color h.tag s3 ≡ black
    → root_color h.tag s4 ≡ black
    → height h.tag t0 ≡ n + 1
    → (reddened g h).tag l ≡ red
    → (reddened g h).tag r ≡ red
    → ((a : Ptr) → hit a g ≤ hit a l + hit a r)
    → Repaired h k header c t0 none
Repaired-Finished {h} {k} t0 s1 l s2 m s3 r g s4 n f order same a b d e ra rb rd re high kl kr
      within =
    let dz = f.stands.distinct in
    let far = λ (z : Ptr) (nm : hit z m ≡ 0) (ng : hit z g ≡ 0).
      f.others z (ne_of_hit nm) ∙ reddened_others h g z (ne_of_hit ng) in
    let f1 = λ (z : Ptr) (i : 1 ≤ times z s1).
      far z (omega (arith, dz z)) (omega (arith, dz z, within z)) in
    let f2 = λ (z : Ptr) (i : 1 ≤ times z s2).
      far z (omega (arith, dz z)) (omega (arith, dz z, within z)) in
    let f3 = λ (z : Ptr) (i : 1 ≤ times z s3).
      far z (omega (arith, dz z)) (omega (arith, dz z, within z)) in
    let f4 = λ (z : Ptr) (i : 1 ≤ times z s4).
      far z (omega (arith, dz z)) (omega (arith, dz z, within z)) in
    let good : Good k.tag (node (node s1 l s2) m (node s3 r s4)) (n + 1) =
      red_children k.tag s1 l s2 m s3 r s4 n (Good-frame h.tag k.tag s1 n a f1)
        (Good-frame h.tag k.tag s2 n b f2) (Good-frame h.tag k.tag s3 n d f3)
        (Good-frame h.tag k.tag s4 n e f4) (root_color-frame h.tag k.tag s1 f1 ∙ ra)
        (root_color-frame h.tag k.tag s2 f2 ∙ rb) (root_color-frame h.tag k.tag s3 f3 ∙ rd)
        (root_color-frame h.tag k.tag s4 f4 ∙ re)
        (f.others l (ne_of_hit (omega (arith, dz l, hit_self l))) ∙ kl) f.black_root
        (f.others r (ne_of_hit (omega (arith, dz r, hit_self r))) ∙ kr) in
    record {
      tree = node (node s1 l s2) m (node s3 r s4);
      stands = f.stands;
      order = order;
      rb = good.0;
      height_kept = good.1 ∙ sym high;
      goes_on = f.black_root;
      outside = λ z o. far z (omega (arith, o, same z)) (omega (arith, o, same z, within z));
      leftmost = f.leftmost;
      rightmost = f.rightmost;
    }

module _ {h : RbNodes} {header : Ptr} {c : PathUp} (n : ℕ) (g p x : Ptr) (a b d e : Tree)
    (ga : Good h.tag a n) (gb : Good h.tag b n) (gd : Good h.tag d n) (ge : Good h.tag e n)
    (ra : root_color h.tag a ≡ black) (rb : root_color h.tag b ≡ black)
    (rd : root_color h.tag d ≡ black) (re : root_color h.tag e ≡ black) (red_p : h.tag p ≡ red)
    (red_x : h.tag x ≡ red) (black_g : h.tag g ≡ black) where
  pub Repaired-left_left :
      Standing h header c (node (node (node a p b) x d) g e)
      → Returns
          (λ o k. Repaired h k header c (node (node (node a p b) x d) g e) o)
          (recolor_or_rotate header p x g h)
  Repaired-left_left s = rw (rotate_left_child p (node a p b) x d g e s re) (
      Returns-bind (final_left_single c a p b x d g e (Standing-retag _ s)) λ _ k f. returns (
        Repaired-Finished (node (node (node a p b) x d) g e) a p b x d g g e n f (simp append_assoc)
          (λ z. omega arith) ga gb gd ge ra rb rd re
          (rw (red_p, red_x, black_g, ga.1) (omega arith))
          (reddened_others h g p (ne_of_hit (omega (arith, s.distinct p, hit_self p))) ∙ red_p)
          (reddened_self h g) (λ z. omega arith)))

  pub Repaired-left_right :
      Standing h header c (node (node a x (node b p d)) g e)
      → Returns
          (λ o k. Repaired h k header c (node (node a x (node b p d)) g e) o)
          (recolor_or_rotate header p x g h)
  Repaired-left_right s = rw (rotate_left_child p a x (node b p d) g e s re) (
      Returns-bind (final_left_double c a x b p d g e (Standing-retag _ s)) λ _ k f. returns (
        Repaired-Finished (node (node a x (node b p d)) g e) a x b p d g g e n f (simp append_assoc)
          (λ z. omega arith) ga gb gd ge ra rb rd re (rw (red_x, black_g, ga.1) (omega arith))
          (reddened_others h g x (ne_of_hit (omega (arith, s.distinct x, hit_self x))) ∙ red_x)
          (reddened_self h g) (λ z. omega arith)))

  pub Repaired-right_right :
      Standing h header c (node e g (node d x (node a p b)))
      → Returns
          (λ o k. Repaired h k header c (node e g (node d x (node a p b))) o)
          (recolor_or_rotate header p x g h)
  Repaired-right_right s = rw (rotate_right_child p d x (node a p b) g e s re) (
      Returns-bind (final_right_single c e g d x a p b (Standing-retag _ s)) λ _ k f. returns (
        Repaired-Finished (node e g (node d x (node a p b))) e g d x a p g b n f (simp append_assoc)
          (λ z. omega arith) ge gd ga gb re rd ra rb (rw (black_g, ge.1) (omega arith))
          (reddened_self h g)
          (reddened_others h g p (ne_of_hit (omega (arith, s.distinct p, hit_self p))) ∙ red_p)
          (λ z. omega arith)))

  pub Repaired-right_left :
      Standing h header c (node e g (node (node d p b) x a))
      → Returns
          (λ o k. Repaired h k header c (node e g (node (node d p b) x a)) o)
          (recolor_or_rotate header p x g h)
  Repaired-right_left s = rw (rotate_right_child p (node d p b) x a g e s re) (
      Returns-bind (final_right_double c e g d p b x a (Standing-retag _ s)) λ _ k f. returns (
        Repaired-Finished (node e g (node (node d p b) x a)) e g d p b x g a n f (simp append_assoc)
          (λ z. omega arith) ge gd gb ga re rd rb ra (rw (black_g, ge.1) (omega arith))
          (reddened_self h g)
          (reddened_others h g x (ne_of_hit (omega (arith, s.distinct x, hit_self x))) ∙ red_x)
          (λ z. omega arith)))
