-- ===== src/BsTree/Erase/Spine.antt =====
-- The successor of a node: the way to the left end of its right subtree, without which the rest
-- of that subtree remains.
use intrusive.Base.{
  ◌+◌, ◌≤◌, ◌≡◌, ◌≢◌, refl, sym, ap, ◌∙◌, arith, hit, ◌==◌, if◌then◌else◌, ℕ, List, [], ◌∷◌, ◌++◌,
  append_assoc, append-nil, inl, inr, Bool-cases, ltb,
}
use intrusive.Machine.{Ptr}
use intrusive.BsTree.{Nodes}
use intrusive.BsTree.Shape.{
  Tree, leaf, node, top, inorder, times, root_of, PathUp, left_of, right_of, times_up, above, Sub,
  Around, Sub-frame, ne_of_hit,
}
use intrusive.BsTree.Hang.{Standing, Standing-left}
use intrusive.BsTree.Commit.{first_or}
use intrusive.BsTree.Step.{first_or-append}

-- Steps to the left, the last one outermost: the node above and its right subtree.
pub data Spine : Type 0 where
  done : Spine
  under : Spine → Ptr → Tree → Spine

abbrev pub extend : PathUp → Spine → PathUp
extend c done = c
extend c (under ss x m) = left_of (extend c ss) x m

abbrev pub tree_of : Spine → Tree → Tree
tree_of done t = t
tree_of (under ss x m) t = tree_of ss (node t x m)

abbrev pub times_in : Ptr → Spine → ℕ
times_in a done = 0
times_in a (under ss x m) = times_in a ss + hit a x + times a m

pub times-tree_of :
    (a : Ptr) (ss : Spine) (t : Tree) → times a (tree_of ss t) ≡ times_in a ss + times a t
times-tree_of a done t = omega arith
times-tree_of a (under ss x m) t = omega (arith, times-tree_of a ss (node t x m))

pub times-extend :
    (a : Ptr) (c : PathUp) (ss : Spine) → times_up a (extend c ss) ≡ times_up a c + times_in a ss
times-extend a c done = omega arith
times-extend a c (under ss x m) = omega (arith, times-extend a c ss)

pub root-tree_of :
    (ss : Spine) (x : Ptr) (m t t' : Tree)
    → root_of (tree_of ss (node t x m)) ≡ root_of (tree_of ss (node t' x m))
root-tree_of done x m t t' = refl
root-tree_of (under ss y n) x m t t' = root-tree_of ss y n (node t x m) (node t' x m)

abbrev pub behind_spine : Spine → List Ptr
behind_spine done = []
behind_spine (under ss x m) = x ∷ (inorder m ++ behind_spine ss)

pub inorder-tree_of :
    (ss : Spine) (t : Tree) → inorder (tree_of ss t) ≡ inorder t ++ behind_spine ss
inorder-tree_of done t = sym (append-nil (inorder t))
inorder-tree_of (under ss x m) t =
    inorder-tree_of ss (node t x m) ∙ append_assoc (inorder t) (x ∷ inorder m) (behind_spine ss)

module _ {X : Type 0} (h : Nodes X) (header : Ptr) (c : PathUp) where
  -- The node `y` is the first of `r`, below the spine.
  pub record Least (r : Tree) (y : Ptr) : Type 0 where
    pub spine : Spine
    pub rest : Tree
    pub whole : tree_of spine (node leaf y rest) ≡ r
    pub stands : Standing h header (extend c spine) (node leaf y rest)

  pub least :
      (ss : Spine) (l : Tree) (x : Ptr) (r : Tree)
      → Standing h header (extend c ss) (node l x r)
      → Least (tree_of ss (node l x r)) (first_or x (inorder l))
  least ss leaf x r s = record { spine = ss; rest = r; whole = refl; stands = s }
  least ss (node a b d) x r s =
      rw (first_or-append x (inorder a) (inorder d) b)
        (least (under ss x r) a b d (Standing-left (extend c ss) (node a b d) x r s))

module _ {X : Type 0} (h : Nodes X) where
  -- The parents of the nodes in a subtree are the node above and nodes of it.
  pub parent-ne :
      (z p : Ptr) (t : Tree)
      → Sub h p t
      → p ≢ z
      → times z t ≡ 0
      → (a : Ptr) → 1 ≤ times a t
      → h.parent a ≢ z
  parent-ne z p leaf s n m a i = absurd (omega (arith, i))
  parent-ne z p (node l x r) s n m a i =
      let xz : x ≢ z = λ o. ne_of_hit {a = z} {x = x} (omega (arith, m)) (sym o) in
      elim (Bool-cases (ltb 0 (times a l))) [
        | inl e ↦ parent-ne z x l s.3 xz (omega (arith, m)) a (ground arith)
        | inr e ↦ elim (Bool-cases (a == x)) [
          | inl f ↦ λ o. n (sym s.0 ∙ ap h.parent (let q : x ≡ a = ground arith in q) ∙ o)
          | inr f ↦ parent-ne z x r s.4 xz (omega (arith, m)) a (ground arith)
        ]
      ]

  -- With respect to the node `z` that `y` replaces: in `g` the links of the nodes at hand are as
  -- before, but that `y` is the parent of the children of `z`.
  abbrev pub Renamed : Nodes X → Ptr → Ptr → Ptr → Type 0
  Renamed g z y a =
      (g.parent a ≡ (if h.parent a == z then y else h.parent a))
      × (g.left a ≡ h.left a)
      × (g.right a ≡ h.right a)

  pub kept : {p z : Ptr} (y : Ptr) → p ≢ z → (if p == z then y else p) ≡ p
  kept y e = ground arith

  -- The parent of the first node of a spine below the right child of `z`.
  pub parent_of :
      (header : Ptr) (c : PathUp) (l : Tree) (z y x : Ptr) (ss : Spine)
      → times_in z ss ≡ 0
      → h.parent x ≡ above header (extend (right_of l z c) ss)
      → (if h.parent x == z then y else h.parent x) ≡ above y (extend top ss)
  parent_of header c l z y x done n e = ground arith
  parent_of header c l z y x (under ss w b) n e =
      rw e (kept y λ o. ne_of_hit {a = z} {x = w} (omega (arith, n)) (sym o))

  -- A subtree of the right child of `z`.
  pub Renamed-Sub :
      (g : Nodes X) (z y x : Ptr) (t : Tree)
      → Sub h x t
      → x ≢ z
      → times z t ≡ 0
      → ((a : Ptr) → 1 ≤ times a t → Renamed g z y a)
      → Sub g x t
  Renamed-Sub g z y x t s xz m f =
      Sub-frame h g x t s
        (λ a i. let k = f a i in (k.0 ∙ kept y (parent-ne z x t s xz m a i), k.1, k.2))

  -- Of the nodes below `z`, only the child has the parent `z`.
  pub child-only :
      (z : Ptr) (l : Tree) (w : Ptr) (r : Tree)
      → Sub h z (node l w r)
      → times z (node l w r) ≡ 0
      → (a : Ptr) → 1 ≤ times a (node l w r)
      → a ≢ w
      → h.parent a ≢ z
  child-only z l w r s n a i e =
      let wz : w ≢ z = λ o. ne_of_hit {a = z} {x = w} (omega (arith, n)) (sym o) in
      elim (Bool-cases (ltb 0 (times a l))) [
        | inl p ↦ parent-ne z w l s.3 wz (omega (arith, n)) a (ground arith)
        | inr p ↦ parent-ne z w r s.4 wz (omega (arith, n)) a (ground arith)
      ]

  pub spine-Sub :
      (g : Nodes X) (header : Ptr) (c : PathUp) (l : Tree) (z y : Ptr) (ss : Spine) (t : Tree)
      → Around h header (extend (right_of l z c) ss) (root_of t)
      → Sub g (above y (extend top ss)) t
      → ((a : Ptr) → 1 ≤ times_in a ss → Renamed g z y a)
      → times_in z ss ≡ 0
      → Sub g y (tree_of ss t)
  spine-Sub g header c l z y done t s u f m = u
  spine-Sub g header c l z y (under ss x b) t s u f m =
      let at_x = f x (ground arith) in
      let xz : x ≢ z = λ o. ne_of_hit {a = z} {x = x} (omega (arith, m)) (sym o) in
      spine-Sub g header c l z y ss (node t x b) s.4
        (
          at_x.0 ∙ parent_of header c l z y x ss (omega (arith, m)) s.0,
          at_x.1 ∙ s.1,
          at_x.2 ∙ s.2,
          u,
          Renamed-Sub g z y x b s.3 xz (omega (arith, m)) (λ a i. f a (omega arith)),
        )
        (λ a i. f a (omega arith)) (omega (arith, m))
