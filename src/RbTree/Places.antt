-- ===== src/RbTree/Places.antt =====
-- A round in the four places of a red node below its grandparent, for both colours of the uncle.
use intrusive.Base.{◌+◌, ◌≡◌, refl, sym, ◌∙◌, ◌⊎◌, inl, inr, arith}
use native.Mathlib.Nat.{add-zero}
use intrusive.Machine.{Ptr, Returns}
use intrusive.BsTree.Shape.{Tree, leaf, node, PathUp}
use intrusive.BsTree.Hang.{Standing}
use intrusive.RbTree.{Color, red, black, RbNodes, recolor_or_rotate}
use intrusive.RbTree.Invariant.{weight, height, root_color, Calm, IsRb}
use intrusive.RbTree.Repair.{
  Good, Repaired, Repaired-left, Repaired-right, Repaired-left_left, Repaired-left_right,
  Repaired-right_right, Repaired-right_left,
}

pub Color-cases : (c : Color) → (c ≡ red) ⊎ (c ≡ black)
Color-cases red = inl refl
Color-cases black = inr refl

not-Calm : {a b : Color} → Calm a b → a ≡ red → b ≡ black
not-Calm c e = ground arith

-- The node `p` and its parent `x` are red; `d` is the sibling, and `g` the grandparent.
module _ (h : RbNodes) (header : Ptr) (c : PathUp) (l : Tree) (p : Ptr) (r : Tree) (x : Ptr)
    (d : Tree) (g : Ptr) (red_p : h.tag p ≡ red) (rb : IsRb h.tag (node l p r))
    (red_x : h.tag x ≡ red) (same : height h.tag d ≡ height h.tag (node l p r))
    (calm : Calm (h.tag x) (root_color h.tag d)) (above : Calm (h.tag x) (h.tag g))
    (rb_d : IsRb h.tag d) where
  sub_height : height h.tag (node l p r) ≡ height h.tag l
  sub_height = rw red_p (omega arith)

  Good-p : Good h.tag (node l p r) (height h.tag l)
  Good-p = (rb, sub_height)

  Good-l : Good h.tag l (height h.tag l)
  Good-l = (rb.3, refl)

  Good-r : Good h.tag r (height h.tag l)
  Good-r = (rb.4, sym rb.0)

  Good-d : Good h.tag d (height h.tag l)
  Good-d = (rb_d, same ∙ sub_height)

  left_left_red :
      (e : Tree)
      → IsRb h.tag e
      → Good h.tag e (height h.tag l)
      → root_color h.tag e ≡ red
      → Standing h header c (node (node (node l p r) x d) g e)
      → Returns
          (λ o k. Repaired h k header c (node (node (node l p r) x d) g e) o)
          (recolor_or_rotate header p x g h)
  left_left_red leaf b w e s = cc
  left_left_red (node el y er) b w e s =
      let up : height h.tag el ≡ height h.tag l = rw (e, add-zero) at w.1 in
      Repaired-left p (node l p r) x d g el y er (height h.tag l) Good-p Good-d (b.3, up)
        (b.4, sym b.0 ∙ up) red_x e (not-Calm above red_x) s

  left_right_red :
      (e : Tree)
      → IsRb h.tag e
      → Good h.tag e (height h.tag l)
      → root_color h.tag e ≡ red
      → Standing h header c (node (node d x (node l p r)) g e)
      → Returns
          (λ o k. Repaired h k header c (node (node d x (node l p r)) g e) o)
          (recolor_or_rotate header p x g h)
  left_right_red leaf b w e s = cc
  left_right_red (node el y er) b w e s =
      let up : height h.tag el ≡ height h.tag l = rw (e, add-zero) at w.1 in
      Repaired-left p d x (node l p r) g el y er (height h.tag l) Good-d Good-p (b.3, up)
        (b.4, sym b.0 ∙ up) red_x e (not-Calm above red_x) s

  right_right_red :
      (e : Tree)
      → IsRb h.tag e
      → Good h.tag e (height h.tag l)
      → root_color h.tag e ≡ red
      → Standing h header c (node e g (node d x (node l p r)))
      → Returns
          (λ o k. Repaired h k header c (node e g (node d x (node l p r))) o)
          (recolor_or_rotate header p x g h)
  right_right_red leaf b w e s = cc
  right_right_red (node el y er) b w e s =
      let up : height h.tag el ≡ height h.tag l = rw (e, add-zero) at w.1 in
      Repaired-right p d x (node l p r) g el y er (height h.tag l) Good-d Good-p (b.3, up)
        (b.4, sym b.0 ∙ up) red_x e (not-Calm above red_x) s

  right_left_red :
      (e : Tree)
      → IsRb h.tag e
      → Good h.tag e (height h.tag l)
      → root_color h.tag e ≡ red
      → Standing h header c (node e g (node (node l p r) x d))
      → Returns
          (λ o k. Repaired h k header c (node e g (node (node l p r) x d)) o)
          (recolor_or_rotate header p x g h)
  right_left_red leaf b w e s = cc
  right_left_red (node el y er) b w e s =
      let up : height h.tag el ≡ height h.tag l = rw (e, add-zero) at w.1 in
      Repaired-right p (node l p r) x d g el y er (height h.tag l) Good-p Good-d (b.3, up)
        (b.4, sym b.0 ∙ up) red_x e (not-Calm above red_x) s

  module _ (e : Tree) (rb_e : IsRb h.tag e)
      (level : height h.tag e ≡ height h.tag (node l p r) + weight (h.tag x)) where
    Good-e : Good h.tag e (height h.tag l)
    Good-e = (rb_e, level ∙ rw (sub_height, red_x) (omega arith))

    pub left_left :
        Standing h header c (node (node (node l p r) x d) g e)
        → Returns
            (λ o k. Repaired h k header c (node (node (node l p r) x d) g e) o)
            (recolor_or_rotate header p x g h)
    left_left s = elim (Color-cases (root_color h.tag e)) [
      | inr be ↦
          Repaired-left_left (height h.tag l) g p x l r d e Good-l Good-r Good-d Good-e
            (not-Calm rb.1 red_p) (not-Calm rb.2 red_p) (not-Calm calm red_x) be red_p red_x
            (not-Calm above red_x) s
      | inl re ↦ left_left_red e rb_e Good-e re s
    ]

    pub left_right :
        Standing h header c (node (node d x (node l p r)) g e)
        → Returns
            (λ o k. Repaired h k header c (node (node d x (node l p r)) g e) o)
            (recolor_or_rotate header p x g h)
    left_right s = elim (Color-cases (root_color h.tag e)) [
      | inr be ↦
          Repaired-left_right (height h.tag l) g p x d l r e Good-d Good-l Good-r Good-e
            (not-Calm calm red_x) (not-Calm rb.1 red_p) (not-Calm rb.2 red_p) be red_p red_x
            (not-Calm above red_x) s
      | inl re ↦ left_right_red e rb_e Good-e re s
    ]

    pub right_right :
        Standing h header c (node e g (node d x (node l p r)))
        → Returns
            (λ o k. Repaired h k header c (node e g (node d x (node l p r))) o)
            (recolor_or_rotate header p x g h)
    right_right s = elim (Color-cases (root_color h.tag e)) [
      | inr be ↦
          Repaired-right_right (height h.tag l) g p x l r d e Good-l Good-r Good-d Good-e
            (not-Calm rb.1 red_p) (not-Calm rb.2 red_p) (not-Calm calm red_x) be red_p red_x
            (not-Calm above red_x) s
      | inl re ↦ right_right_red e rb_e Good-e re s
    ]

    pub right_left :
        Standing h header c (node e g (node (node l p r) x d))
        → Returns
            (λ o k. Repaired h k header c (node e g (node (node l p r) x d)) o)
            (recolor_or_rotate header p x g h)
    right_left s = elim (Color-cases (root_color h.tag e)) [
      | inr be ↦
          Repaired-right_left (height h.tag l) g p x d r l e Good-d Good-r Good-l Good-e
            (not-Calm calm red_x) (not-Calm rb.2 red_p) (not-Calm rb.1 red_p) be red_p red_x
            (not-Calm above red_x) s
      | inl re ↦ right_left_red e rb_e Good-e re s
    ]
