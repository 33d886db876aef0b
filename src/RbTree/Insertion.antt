-- ===== src/RbTree/Insertion.antt =====
-- The rebalancing after an insertion restores the red-black invariant and keeps the order.
use intrusive.Base.{
  ℕ, zero, suc, ◌+◌, ◌≤◌, ◌<◌, ◌≡◌, ◌≢◌, refl, ◌∙◌, inl, inr, arith, true, false, ◌==◌, Option,
  none, some,
}
use intrusive.Machine.{Ptr, null, Cmd, Returns, returns, Returns-bind, Returns-imp, ok, pure}
use intrusive.BsTree.Access.{get_parent-ok}
use intrusive.BsTree.Shape.{
  levels, Tree, leaf, node, inorder, times, PathUp, top, left_of, right_of, plug, times_up, above,
  ne_of_hit, ne_of_pos,
}
use intrusive.BsTree.Hang.{Standing, Standing-up_left, Standing-up_right}
use intrusive.BsTree.Locate.{Standing-plug}
use intrusive.RbTree.{
  Color, red, black, RbNodes, recolor_or_rotate, insertion_round, insertion_loop,
}
use intrusive.RbTree.Invariant.{
  height, up_color, Calm, IsRb, IsRbUp, IsRb-plug, IsRbUp-frame, inorder-plug,
}
use intrusive.RbTree.Recolor.{get_color-ok}
use intrusive.RbTree.Repair.{Next, Repaired}
use intrusive.RbTree.Places.{Color-cases, left_left, left_right, right_left, right_right}

-- A red-black tree with the nodes of `t0` in their order; its root may be red.
pub record Rebalanced (h k : RbNodes) (header : Ptr) (t0 : Tree) : Type 0 where
  pub tree : Tree
  pub stands : Standing k header top tree
  pub order : inorder tree ≡ inorder t0
  pub rb : IsRb k.tag tree
  pub leftmost : k.left header ≡ h.left header
  pub rightmost : k.right header ≡ h.right header

round_top :
    {h : RbNodes} {header : Ptr} {l : Tree} {p : Ptr} {r : Tree}
    → Standing h header top (node l p r)
    → insertion_round header p h ≡ ok none h
unfolding insertion_round
round_top {h} {header} {l} {p} s =
    let same : (header == header) ≡ true = ground arith in
    rw (
      get_parent-ok p h (ground (arith, s.nonnull)),
      s.sub.0,
      get_parent-ok header h (ground (arith, s.nonnull)),
      same,
    )

round_black :
    (h : RbNodes) (header p x : Ptr)
    → p ≢ null
    → x ≢ null
    → x ≢ header
    → h.parent p ≡ x
    → h.tag x ≡ black
    → insertion_round header p h ≡ ok none h
unfolding insertion_round
round_black h header p x np nx nh e b =
    let other : (x == header) ≡ false = ground arith in
    rw (get_parent-ok p h np, e, get_parent-ok x h nx, other, get_color-ok x h nx, b)

round_red :
    (h : RbNodes) (header p x g : Ptr)
    → p ≢ null
    → x ≢ null
    → x ≢ header
    → g ≢ header
    → h.parent p ≡ x
    → h.parent x ≡ g
    → h.tag x ≡ red
    → insertion_round header p h ≡ recolor_or_rotate header p x g h
unfolding insertion_round
round_red h header p x g np nx nh gh e f b =
    let other : (x == header) ≡ false = ground arith in
    let other' : (g == header) ≡ false = ground arith in
    rw (get_parent-ok p h np, e, get_parent-ok x h nx, f, other, get_color-ok x h nx, b, other')

-- What the loop does with `k` rounds left, below any surroundings.
abbrev LoopOk : ℕ → Type 0
LoopOk k =
    (h : RbNodes) (header : Ptr) (c : PathUp) (l : Tree) (p : Ptr) (r : Tree)
    → Standing h header c (node l p r)
    → h.tag p ≡ red
    → IsRb h.tag (node l p r)
    → IsRbUp h.tag c (height h.tag (node l p r))
    → levels c < k
    → Returns (λ _ g. Rebalanced h g header (plug c (node l p r))) (insertion_loop k header p h)

-- The rest of the loop, after a round.
abbrev next_round : ℕ → Ptr → Option Ptr → Cmd RbNodes (Unit {0})
next_round k header next = elim next [ none ↦ pure tt | some q ↦ insertion_loop k header q ]

module _ {h g : RbNodes} {header : Ptr} (c : PathUp) (t0 : Tree)
    (up : IsRbUp h.tag c (height h.tag t0))
    (apart : (a : Ptr) → times_up a c + times a t0 ≤ 1) where
  still :
      (next : Option Ptr) (rep : Repaired h g header c t0 next)
      → IsRbUp g.tag c (height g.tag rep.tree)
  still next rep = rw rep.height_kept (
      IsRbUp-frame h.tag g.tag c (height h.tag t0) up
        (λ a m. rep.outside a (omega (arith, apart a))))

  after_round :
      (k : ℕ)
      → LoopOk k
      → levels c < k
      → (next : Option Ptr) → Repaired h g header c t0 next
      → Returns (λ _ m. Rebalanced h m header (plug c t0)) (next_round k header next g)
  after_round k ih fuel none rep =
      let whole = IsRb-plug g.tag c rep.tree rep.rb (still none rep) (inl rep.goes_on) in
      returns (record {
        tree = plug c rep.tree;
        stands = Standing-plug c rep.tree rep.stands;
        order = inorder-plug c rep.tree t0 rep.order;
        rb = whole.0;
        leftmost = rep.leftmost;
        rightmost = rep.rightmost;
      })
  after_round k ih fuel (some q) rep =
      go rep.tree rep.stands rep.order rep.rb (still (some q) rep) rep.goes_on
    where
      go :
          (t : Tree)
          → Standing g header c t
          → inorder t ≡ inorder t0
          → IsRb g.tag t
          → IsRbUp g.tag c (height g.tag t)
          → Next g.tag t (some q)
          → Returns (λ _ m. Rebalanced h m header (plug c t0)) (next_round k header (some q) g)
      go leaf st o b u n = absurd (cc)
      go (node l x r) st o b u n = rw (← n.0) (
          Returns-imp (ih g header c l x r st n.1 b u fuel) λ _ m reb. record {
            tree = reb.tree;
            stands = reb.stands;
            order = reb.order ∙ inorder-plug c (node l x r) t0 o;
            rb = reb.rb;
            leftmost = reb.leftmost ∙ rep.leftmost;
            rightmost = reb.rightmost ∙ rep.rightmost;
          })

stopped :
    {h : RbNodes} {header : Ptr} (c : PathUp) (t : Tree)
    → Standing h header c t
    → IsRb h.tag t
    → IsRbUp h.tag c (height h.tag t)
    → up_color h.tag c ≡ black
    → Rebalanced h h header (plug c t)
stopped c t s rb up b = record {
  tree = plug c t;
  stands = Standing-plug c t s;
  order = refl;
  rb = (IsRb-plug _ c t rb up (inr b)).0;
  leftmost = refl;
  rightmost = refl;
}

module _ {h : RbNodes} {header : Ptr} (c : PathUp) (x p g : Ptr) {l r : Tree}
    (s : Standing h header c (node l p r)) (x0 : 1 ≤ times_up x c) (up : above header c ≡ x) where
  under : (p ≢ null) × (x ≢ null) × (x ≢ header) × (h.parent p ≡ x)
  under = (
    ground (arith, s.nonnull),
    ne_of_pos (λ z. times_up z c) x null (omega (arith, s.nonnull)) x0,
    ne_of_hit (omega (arith, s.distinct x, x0)),
    s.sub.0 ∙ up,
  )

  stop_black : h.tag x ≡ black → insertion_round header p h ≡ ok none h
  stop_black b = round_black h header p x under.0 under.1 under.2 under.3 b

  go_red :
      h.tag x ≡ red
      → h.parent x ≡ g
      → 1 ≤ times_up g c
      → insertion_round header p h ≡ recolor_or_rotate header p x g h
  go_red b e g0 =
      round_red h header p x g under.0 under.1 under.2 (ne_of_hit (omega (arith, s.distinct g, g0)))
        under.3 e b

-- A path of one step below the header hangs under a black root.
one_step : {a : Color} → Calm a red → a ≡ red → ⊥
one_step c e = ground arith

module _ (k : ℕ) (ih : LoopOk k) (h : RbNodes) (header : Ptr) where
  step_left :
      (c1 : PathUp) (x : Ptr) (d l : Tree) (p : Ptr) (r : Tree)
      → Standing h header (left_of c1 x d) (node l p r)
      → h.tag p ≡ red
      → IsRb h.tag (node l p r)
      → IsRbUp h.tag (left_of c1 x d) (height h.tag (node l p r))
      → levels c1 < k
      → h.tag x ≡ red
      → Returns
          (λ _ g. Rebalanced h g header (plug c1 (node (node l p r) x d)))
          (insertion_loop (suc k) header p h)
  unfolding insertion_loop
  step_left top x d l p r s red_p rb up fuel red_x = absurd (one_step up.2 red_x)
  step_left (left_of c g e) x d l p r s red_p rb up fuel red_x =
      let whole =
        Standing-up_left c (node (node l p r) x d) g e
          (Standing-up_left (left_of c g e) (node l p r) x d s) in
      rw
        (go_red (left_of (left_of c g e) x d) x p g s (ground arith) refl red_x s.around.0
          (ground arith))
        (Returns-bind
          (left_left h header c l p r x d g red_p rb red_x up.0 up.1 up.2 up.3 e up.4.3 up.4.0
            whole)
          λ o m rep.
            after_round c (node (node (node l p r) x d) g e) up.4.4
              (λ a. omega (arith, whole.distinct a)) k ih (omega (arith, fuel)) o rep)
  step_left (right_of e g c) x d l p r s red_p rb up fuel red_x =
      let whole =
        Standing-up_right c e g (node (node l p r) x d)
          (Standing-up_left (right_of e g c) (node l p r) x d s) in
      rw
        (go_red (left_of (right_of e g c) x d) x p g s (ground arith) refl red_x s.around.0
          (ground arith))
        (Returns-bind
          (right_left h header c l p r x d g red_p rb red_x up.0 up.1 up.2 up.3 e up.4.3 up.4.0
            whole)
          λ o m rep.
            after_round c (node e g (node (node l p r) x d)) (rw up.4.0 up.4.4)
              (λ a. omega (arith, whole.distinct a)) k ih (omega (arith, fuel)) o rep)

  step_right :
      (d : Tree) (x : Ptr) (c1 : PathUp) (l : Tree) (p : Ptr) (r : Tree)
      → Standing h header (right_of d x c1) (node l p r)
      → h.tag p ≡ red
      → IsRb h.tag (node l p r)
      → IsRbUp h.tag (right_of d x c1) (height h.tag (node l p r))
      → levels c1 < k
      → h.tag x ≡ red
      → Returns
          (λ _ g. Rebalanced h g header (plug c1 (node d x (node l p r))))
          (insertion_loop (suc k) header p h)
  unfolding insertion_loop
  step_right d x top l p r s red_p rb up fuel red_x = absurd (one_step up.2 red_x)
  step_right d x (left_of c g e) l p r s red_p rb up fuel red_x =
      let whole =
        Standing-up_left c (node d x (node l p r)) g e
          (Standing-up_right (left_of c g e) d x (node l p r) s) in
      rw
        (go_red (right_of d x (left_of c g e)) x p g s (ground arith) refl red_x s.around.0
          (ground arith))
        (Returns-bind
          (left_right h header c l p r x d g red_p rb red_x up.0 up.1 up.2 up.3 e up.4.3 up.4.0
            whole)
          λ o m rep.
            after_round c (node (node d x (node l p r)) g e) (rw up.0 up.4.4)
              (λ a. omega (arith, whole.distinct a)) k ih (omega (arith, fuel)) o rep)
  step_right d x (right_of e g c) l p r s red_p rb up fuel red_x =
      let whole =
        Standing-up_right c e g (node d x (node l p r))
          (Standing-up_right (right_of e g c) d x (node l p r) s) in
      rw
        (go_red (right_of d x (right_of e g c)) x p g s (ground arith) refl red_x s.around.0
          (ground arith))
        (Returns-bind
          (right_right h header c l p r x d g red_p rb red_x up.0 up.1 up.2 up.3 e up.4.3 up.4.0
            whole)
          λ o m rep.
            after_round c (node e g (node d x (node l p r))) (rw up.4.0 up.4.4)
              (λ a. omega (arith, whole.distinct a)) k ih (omega (arith, fuel)) o rep)

loop_step : (k : ℕ) → LoopOk k → LoopOk (suc k)
unfolding insertion_loop
loop_step k ih h header top l p r s red_p rb up fuel = rw (round_top s) (
    returns (record {
      tree = node l p r;
      stands = s;
      order = refl;
      rb = rb;
      leftmost = refl;
      rightmost = refl;
    }))
loop_step k ih h header (left_of c x d) l p r s red_p rb up fuel = elim (Color-cases (h.tag x)) [
  | inl e ↦ step_left k ih h header c x d l p r s red_p rb up (omega (arith, fuel)) e
  | inr e ↦
      rw (stop_black (left_of c x d) x p x s (ground arith) refl e)
        (returns (stopped (left_of c x d) (node l p r) s rb up e))
]
loop_step k ih h header (right_of d x c) l p r s red_p rb up fuel = elim (Color-cases (h.tag x)) [
  | inl e ↦ step_right k ih h header d x c l p r s red_p rb up (omega (arith, fuel)) e
  | inr e ↦
      rw (stop_black (right_of d x c) x p x s (ground arith) refl e)
        (returns (stopped (right_of d x c) (node l p r) s rb up e))
]

pub insertion_loop-Rebalanced : (k : ℕ) → LoopOk k
insertion_loop-Rebalanced zero = λ h header c l p r s red_p rb up fuel. absurd (omega (arith, fuel))
insertion_loop-Rebalanced (suc k) = loop_step k (insertion_loop-Rebalanced k)
