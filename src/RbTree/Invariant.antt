-- ===== src/RbTree/Invariant.antt =====
-- The red-black invariant: no red node has a red child, and all paths down from a node have the
-- same number of black nodes.
use intrusive.Base.{ℕ, ◌+◌, ◌≤◌, ◌≡◌, refl, sym, ap, ◌∙◌, ◌⊎◌, ◌∷◌, ◌++◌, arith}
use intrusive.Machine.{Ptr}
use intrusive.BsTree.Shape.{
  Tree, leaf, node, inorder, times, PathUp, top, left_of, right_of, plug, times_up,
}
use intrusive.RbTree.{Color, red, black}

abbrev pub weight : Color → ℕ
weight red = 0
weight black = 1

module _ (color : Ptr → Color) where
  -- The black nodes on the way down to the left.
  abbrev pub height : Tree → ℕ
  height leaf = 0
  height (node l x r) = height l + weight (color x)

  -- A null child counts as black.
  abbrev pub root_color : Tree → Color
  root_color leaf = black
  root_color (node l x r) = color x

  -- Above the root stands the header, which asks for a black root.
  abbrev pub up_color : PathUp → Color
  up_color top = red
  up_color (left_of c x r) = color x
  up_color (right_of l x c) = color x

-- Not both are red.
abbrev pub Calm : Color → Color → Type 0
Calm a b = (a ≡ black) ⊎ (b ≡ black)

module _ (color : Ptr → Color) where
  abbrev pub IsRb : Tree → Type 0
  IsRb leaf = Unit {0}
  IsRb (node l x r) =
      (height color l ≡ height color r)
      × Calm (color x) (root_color color l)
      × Calm (color x) (root_color color r)
      × IsRb l
      × IsRb r

  -- The surroundings of a subtree of height `k` satisfy the invariant, but for the colours of
  -- the subtree's root and the node above it.
  abbrev pub IsRbUp : PathUp → ℕ → Type 0
  IsRbUp top k = Unit {0}
  IsRbUp (left_of c x r) k =
      (height color r ≡ k)
      × Calm (color x) (root_color color r)
      × Calm (color x) (up_color color c)
      × IsRb r
      × IsRbUp c (k + weight (color x))
  IsRbUp (right_of l x c) k =
      (height color l ≡ k)
      × Calm (color x) (root_color color l)
      × Calm (color x) (up_color color c)
      × IsRb l
      × IsRbUp c (k + weight (color x))

  pub IsRb-plug :
      (c : PathUp) (t : Tree)
      → IsRb t
      → IsRbUp c (height color t)
      → Calm (root_color color t) (up_color color c)
      → IsRb (plug c t) × (root_color color (plug c t) ≡ black)
  IsRb-plug top t b u calm = (b, ground arith)
  IsRb-plug (left_of c x r) t b u calm =
      IsRb-plug c (node t x r) (ground arith, ground arith, u.1, b, u.3) u.4 u.2
  IsRb-plug (right_of l x c) t b u calm =
      IsRb-plug c (node l x t) (u.0, u.1, ground arith, u.3, b)
        (let e : height color l + weight (color x) ≡ height color t + weight (color x) =
            omega (arith, u.0) in
          rw e u.4)
        u.2

module _ (color paint : Ptr → Color) where
  pub height-frame :
      (t : Tree) → ((a : Ptr) → 1 ≤ times a t → paint a ≡ color a) → height paint t ≡ height color t
  height-frame leaf same = refl
  height-frame (node l x r) same =
      let e = same x (ground arith) in
      let k = height-frame l (λ a m. same a (omega arith)) in ground arith

  pub root_color-frame :
      (t : Tree)
      → ((a : Ptr) → 1 ≤ times a t → paint a ≡ color a)
      → root_color paint t ≡ root_color color t
  root_color-frame leaf same = refl
  root_color-frame (node l x r) same = same x (ground arith)

  pub IsRb-frame :
      (t : Tree) → IsRb color t → ((a : Ptr) → 1 ≤ times a t → paint a ≡ color a) → IsRb paint t
  IsRb-frame leaf b same = tt
  IsRb-frame (node l x r) b same =
      let e = same x (ground arith) in
      let fl = λ (a : Ptr) (m : 1 ≤ times a l). same a (omega arith) in
      let fr = λ (a : Ptr) (m : 1 ≤ times a r). same a (omega arith) in
      (
        height-frame l fl ∙ b.0 ∙ sym (height-frame r fr),
        rw (e, root_color-frame l fl) b.1,
        rw (e, root_color-frame r fr) b.2,
        IsRb-frame l b.3 fl,
        IsRb-frame r b.4 fr,
      )

  up_color-frame :
      (c : PathUp)
      → ((a : Ptr) → 1 ≤ times_up a c → paint a ≡ color a)
      → up_color paint c ≡ up_color color c
  up_color-frame top same = refl
  up_color-frame (left_of c x r) same = same x (ground arith)
  up_color-frame (right_of l x c) same = same x (ground arith)

  pub IsRbUp-frame :
      (c : PathUp) (k : ℕ)
      → IsRbUp color c k
      → ((a : Ptr) → 1 ≤ times_up a c → paint a ≡ color a)
      → IsRbUp paint c k
  IsRbUp-frame top k b same = tt
  IsRbUp-frame (left_of c x r) k b same =
      let e = same x (ground arith) in
      let fr = λ (a : Ptr) (m : 1 ≤ times a r). same a (omega arith) in
      let fc = λ (a : Ptr) (m : 1 ≤ times_up a c). same a (omega arith) in
      (
        height-frame r fr ∙ b.0,
        rw (e, root_color-frame r fr) b.1,
        rw (e, up_color-frame c fc) b.2,
        IsRb-frame r b.3 fr,
        rw e (IsRbUp-frame c (k + weight (color x)) b.4 fc),
      )
  IsRbUp-frame (right_of l x c) k b same =
      let e = same x (ground arith) in
      let fr = λ (a : Ptr) (m : 1 ≤ times a l). same a (omega arith) in
      let fc = λ (a : Ptr) (m : 1 ≤ times_up a c). same a (omega arith) in
      (
        height-frame l fr ∙ b.0,
        rw (e, root_color-frame l fr) b.1,
        rw (e, up_color-frame c fc) b.2,
        IsRb-frame l b.3 fr,
        rw e (IsRbUp-frame c (k + weight (color x)) b.4 fc),
      )

-- The order of the nodes of the whole tree depends on that of the subtree's nodes.
pub inorder-plug :
    (c : PathUp) (t u : Tree) → inorder t ≡ inorder u → inorder (plug c t) ≡ inorder (plug c u)
inorder-plug top t u e = e
inorder-plug (left_of c x r) t u e =
    inorder-plug c (node t x r) (node u x r) (ap (λ l. l ++ x ∷ inorder r) e)
inorder-plug (right_of l x c) t u e =
    inorder-plug c (node l x t) (node l x u) (ap (λ m. inorder l ++ x ∷ m) e)
