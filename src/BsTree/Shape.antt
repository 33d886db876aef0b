-- ===== src/BsTree/Shape.antt =====
-- What a tree in the store is: the nodes of a binary tree, linked to their children and parents,
-- and the surroundings of a subtree, from its parent up to the header.
use intrusive.Base.{
  ℕ, suc, ◌⊎◌, inl, inr, ◌+◌, ◌≤◌, ◌≡◌, ◌≢◌, refl, ap, [], ◌∷◌, List, ◌++◌, arith, hit, count,
  count-append,
}
use intrusive.Machine.{Ptr, null}
use intrusive.BsTree.{Nodes}

pub data Tree : Type 0 where
  leaf : Tree
  node : Tree → Ptr → Tree → Tree

abbrev pub inorder : Tree → List Ptr
inorder leaf = []
inorder (node l x r) = inorder l ++ x ∷ inorder r

-- How often a node occurs.
abbrev pub times : Ptr → Tree → ℕ
times a leaf = 0
times a (node l x r) = times a l + hit a x + times a r

pub times-count : (a : Ptr) (t : Tree) → count a (inorder t) ≡ times a t
times-count a leaf = refl
times-count a (node l x r) =
    omega (arith, count-append a (inorder l) (x ∷ inorder r), times-count a l, times-count a r)

abbrev pub root_of : Tree → Ptr
root_of leaf = null
root_of (node l x r) = x

-- The root of a tree is null, or one of its nodes.
pub root-times : (t : Tree) → (root_of t ≡ null) ⊎ (1 ≤ times (root_of t) t)
root-times leaf = inl refl
root-times (node l x r) = inr (ground arith)

pub hit_self : (a : Ptr) → hit a a ≡ 1
hit_self a = ground arith

pub ne_of_hit : {a x : Ptr} → hit a x ≡ 0 → a ≢ x
ne_of_hit h = ground arith

pub ne_of_pos : (f : Ptr → ℕ) (a b : Ptr) → f b ≡ 0 → 1 ≤ f a → a ≢ b
ne_of_pos f a b n m e = absurd (omega (arith, ap f e))

-- A node that is not in a tree is not its root.
pub root-ne : (t : Tree) (a : Ptr) → times a t ≡ 0 → a ≢ null → a ≢ root_of t
root-ne leaf a z n = n
root-ne (node l x r) a z n = ground arith

-- From the root to a subtree: it hangs to the left or to the right of a node, whose other
-- subtree is given.
pub data PathUp : Type 0 where
  top : PathUp
  left_of : PathUp → Ptr → Tree → PathUp
  right_of : Tree → Ptr → PathUp → PathUp

abbrev pub plug : PathUp → Tree → Tree
plug top t = t
plug (left_of c x r) t = plug c (node t x r)
plug (right_of l x c) t = plug c (node l x t)

abbrev pub times_up : Ptr → PathUp → ℕ
times_up a top = 0
times_up a (left_of c x r) = times_up a c + hit a x + times a r
times_up a (right_of l x c) = times_up a c + hit a x + times a l

pub times-plug : (a : Ptr) (c : PathUp) (t : Tree) → times a (plug c t) ≡ times_up a c + times a t
times-plug a top t = omega arith
times-plug a (left_of c x r) t = omega (arith, times-plug a c (node t x r))
times-plug a (right_of l x c) t = omega (arith, times-plug a c (node l x t))

-- The node above a subtree, which is the header for the whole tree.
abbrev pub above : Ptr → PathUp → Ptr
above header top = header
above header (left_of c x r) = x
above header (right_of l x c) = x

-- The levels between a subtree and the header.
abbrev pub levels : PathUp → ℕ
levels top = 0
levels (left_of c x r) = suc (levels c)
levels (right_of l x c) = suc (levels c)

module _ {X : Type 0} where
  -- `t` hangs under the node `p`.
  abbrev pub Sub : Nodes X → Ptr → Tree → Type 0
  Sub h p leaf = Unit {0}
  Sub h p (node l x r) =
      (h.parent x ≡ p) × (h.left x ≡ root_of l) × (h.right x ≡ root_of r) × Sub h x l × Sub h x r

  -- The surroundings of a subtree with root `q`.
  abbrev pub Around : Nodes X → Ptr → PathUp → Ptr → Type 0
  Around h header top q = h.parent header ≡ q
  Around h header (left_of c x r) q =
      (h.parent x ≡ above header c)
      × (h.left x ≡ q)
      × (h.right x ≡ root_of r)
      × Sub h x r
      × Around h header c x
  Around h header (right_of l x c) q =
      (h.parent x ≡ above header c)
      × (h.right x ≡ q)
      × (h.left x ≡ root_of l)
      × Sub h x l
      × Around h header c x

  -- `g` agrees with `h` at the node `a`.
  abbrev pub SameAt : Nodes X → Nodes X → Ptr → Type 0
  SameAt h g a = (g.parent a ≡ h.parent a) × (g.left a ≡ h.left a) × (g.right a ≡ h.right a)

  pub Sub-frame :
      (h g : Nodes X) (p : Ptr) (t : Tree)
      → Sub h p t
      → ((a : Ptr) → 1 ≤ times a t → SameAt h g a)
      → Sub g p t
  Sub-frame h g p leaf s same = tt
  Sub-frame h g p (node l x r) s same =
      let e = same x (ground arith) in
      (
        ground arith,
        ground arith,
        ground arith,
        Sub-frame h g x l s.3 (λ a m. same a (omega arith)),
        Sub-frame h g x r s.4 (λ a m. same a (omega arith)),
      )

  -- A subtree that gets another parent.
  pub Sub-adopt :
      (h g : Nodes X) (p q : Ptr) (t : Tree)
      → Sub h p t
      → ((a : Ptr) → 1 ≤ times a t → (g.left a ≡ h.left a) × (g.right a ≡ h.right a))
      → ((a : Ptr) → 1 ≤ times a t → a ≢ root_of t → g.parent a ≡ h.parent a)
      → (root_of t ≢ null → g.parent (root_of t) ≡ q)
      → ((a : Ptr) → times a t ≤ 1)
      → times null t ≡ 0
      → Sub g q t
  Sub-adopt h g p q leaf s lr up e d n = tt
  Sub-adopt h g p q (node l x r) s lr up e d n =
      let k = lr x (ground arith) in
      let x0 : x ≢ null = ground arith in
      (
        e x0,
        ground arith,
        ground arith,
        Sub-frame h g x l s.3 (λ a m. (
          up a (omega arith) (ground (arith, d a)),
          (lr a (omega arith)).0,
          (lr a (omega arith)).1,
        )),
        Sub-frame h g x r s.4 (λ a m. (
          up a (omega arith) (ground (arith, d a)),
          (lr a (omega arith)).0,
          (lr a (omega arith)).1,
        )),
      )

  -- The surroundings survive a change outside of them, that keeps the header's parent.
  pub Around-frame :
      (h g : Nodes X) (header : Ptr) (c : PathUp) (q : Ptr)
      → Around h header c q
      → ((a : Ptr) → 1 ≤ times_up a c → SameAt h g a)
      → g.parent header ≡ h.parent header
      → Around g header c q
  Around-frame h g header top q s same e = ground arith
  Around-frame h g header (left_of c x r) q s same e =
      let k = same x (ground arith) in
      (
        ground arith,
        ground arith,
        ground arith,
        Sub-frame h g x r s.3 (λ a m. same a (omega arith)),
        Around-frame h g header c x s.4 (λ a m. same a (omega arith)) e,
      )
  Around-frame h g header (right_of l x c) q s same e =
      let k = same x (ground arith) in
      (
        ground arith,
        ground arith,
        ground arith,
        Sub-frame h g x l s.3 (λ a m. same a (omega arith)),
        Around-frame h g header c x s.4 (λ a m. same a (omega arith)) e,
      )

  -- A subtree in its surroundings is the whole tree.
  pub Sub-plug :
      (h : Nodes X) (header : Ptr) (c : PathUp) (t : Tree)
      → Around h header c (root_of t)
      → Sub h (above header c) t
      → Sub h header (plug c t) × (h.parent header ≡ root_of (plug c t))
  Sub-plug h header top t s u = (u, s)
  Sub-plug h header (left_of c x r) t s u =
      Sub-plug h header c (node t x r) s.4 (s.0, s.1, s.2, u, s.3)
  Sub-plug h header (right_of l x c) t s u =
      Sub-plug h header c (node l x t) s.4 (s.0, s.2, s.1, s.3, u)
