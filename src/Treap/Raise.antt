-- ===== src/Treap/Raise.antt =====
-- `rotate_up_n`: a node goes up by rotations, and the order of the nodes stays.
use intrusive.Base.{
  ℕ, zero, suc, ◌≤◌, ◌≡◌, ◌≢◌, refl, sym, ap, ◌∙◌, arith, hit, ◌==◌, true, false, ◌∷◌, ◌++◌,
  append_assoc,
}
use intrusive.Machine.{Ptr, null, Returns, returns, Returns-bind, Returns-imp, ◌>>=◌}
use intrusive.BsTree.{Nodes, get_parent}
use intrusive.BsTree.Access.{get_left-ok, get_parent-ok}
use intrusive.BsTree.Shape.{
  root-ne, Tree, node, inorder, root_of, PathUp, top, left_of, right_of, plug, above, levels,
  ne_of_pos, hit_self,
}
use intrusive.BsTree.Hang.{Standing, Standing-up_left, Standing-up_right, Spared, Spared-trans}
use intrusive.BsTree.Turn.{above_ne}
use intrusive.BsTree.Step.{==-true, ==-false}
use intrusive.BsTree.TurnLeft.{rotate_left-Standing}
use intrusive.BsTree.TurnRight.{rotate_right-Standing}
use intrusive.Treap.{rotate_up_loop, rotate_up_n}

-- A node with its subtrees, and its surroundings.
pub record Spot : Type 0 where
  pub path : PathUp
  pub left : Tree
  pub right : Tree

-- The place of a node after `n` rotations upward.
abbrev pub raised : ℕ → PathUp → Tree → Tree → Spot
raised zero c l r = record { path = c; left = l; right = r }
raised (suc n) top l r = record { path = top; left = l; right = r }
raised (suc n) (left_of c x m) l r = raised n c l (node r x m)
raised (suc n) (right_of m x c) l r = raised n c (node m x l) r

abbrev pub whole : Ptr → Spot → Tree
whole p s = plug s.path (node s.left p s.right)

plug-order :
    (c : PathUp) (t u : Tree) → inorder t ≡ inorder u → inorder (plug c t) ≡ inorder (plug c u)
plug-order top t u e = e
plug-order (left_of c x r) t u e =
    plug-order c (node t x r) (node u x r) (ap (λ xs. xs ++ x ∷ inorder r) e)
plug-order (right_of l x c) t u e =
    plug-order c (node l x t) (node l x u) (ap (λ xs. inorder l ++ x ∷ xs) e)

pub raised-order :
    (n : ℕ) (c : PathUp) (l : Tree) (p : Ptr) (r : Tree)
    → inorder (whole p (raised n c l r)) ≡ inorder (plug c (node l p r))
raised-order zero c l p r = refl
raised-order (suc n) top l p r = refl
raised-order (suc n) (left_of c x m) l p r =
    raised-order n c l p (node r x m)
    ∙ plug-order c (node l p (node r x m)) (node (node l p r) x m)
        (sym (append_assoc (inorder l) (p ∷ inorder r) (x ∷ inorder m)))
raised-order (suc n) (right_of m x c) l p r =
    raised-order n c (node m x l) p r
    ∙ plug-order c (node (node m x l) p r) (node m x (node l p r))
        (append_assoc (inorder m) (x ∷ inorder l) (p ∷ inorder r))

abbrev pub Raised : {X : Type 0} → Nodes X → Ptr → Ptr → Spot → Nodes X → Type 0
Raised h header p s g = Standing g header s.path (node s.left p s.right) × Spared h g header

module _ {X : Type 0} where
  -- The rounds after the first one.
  next_round :
      {h g : Nodes X} {header : Ptr} (n : ℕ) (c : PathUp) (l : Tree) (p : Ptr) (r : Tree)
      → ((k : Nodes X)
          → Standing k header c (node l p r)
          → n ≤ levels c
          → Returns
              (λ _ m. Raised k header p (raised n c l r) m)
              (rotate_up_loop header p n (above header c) (k.parent (above header c)) k))
      → Standing g header c (node l p r)
      → Spared h g header
      → n ≤ levels c
      → Returns
          (λ _ m. Raised h header p (raised n c l r) m)
          ((do next ← get_parent (above header c); rotate_up_loop header p n (above header c) next)
            g)
  next_round {h} {g} {header} n c l p r ih s spared small =
      rw (get_parent-ok (above header c) g (above_ne c s))
        (Returns-imp (ih g s small) λ _ m done. (done.0, Spared-trans spared done.1))

  rotate_up_loop-Raised :
      {header : Ptr} (n : ℕ) (h : Nodes X) (c : PathUp) (l : Tree) (p : Ptr) (r : Tree)
      → Standing h header c (node l p r)
      → n ≤ levels c
      → Returns
          (λ _ g. Raised h header p (raised n c l r) g)
          (rotate_up_loop header p n (above header c) (h.parent (above header c)) h)
  unfolding rotate_up_loop
  rotate_up_loop-Raised zero h c l p r s e =
      returns (s, record { leftmost = refl; rightmost = refl; tag = λ a. refl })
  rotate_up_loop-Raised (suc n) h top l p r s e = absurd (omega (arith, e))
  rotate_up_loop-Raised {header} (suc n) h (left_of c x m) l p r s e =
      let same : (p == p) ≡ true = ==-true refl in
      rw (get_left-ok x h (above_ne (left_of c x m) s), s.around.1, same, s.around.0)
        (Returns-bind (rotate_right-Standing c m x r p l (Standing-up_left c (node l p r) x m s))
          λ _ g turned.
            next_round n c l p (node r x m)
              (λ k st i. rotate_up_loop-Raised n k c l p (node r x m) st i) turned.0 turned.1
              (omega (arith, e)))
  rotate_up_loop-Raised {header} (suc n) h (right_of m x c) l p r s e =
      let other : (p == root_of m) ≡ false = ==-false (
        root-ne m p (omega (arith, s.distinct p, hit_self p)) (
          ne_of_pos (λ a. hit a p) p null (omega (arith, s.nonnull))
            (omega (arith, hit_self p)))) in
      rw (get_left-ok x h (above_ne (right_of m x c) s), s.around.2, other, s.around.0)
        (Returns-bind (rotate_left-Standing c m x l p r (Standing-up_right c m x (node l p r) s))
          λ _ g turned.
            next_round n c (node m x l) p r
              (λ k st i. rotate_up_loop-Raised n k c (node m x l) p r st i) turned.0 turned.1
              (omega (arith, e)))

  -- `rotate_up_n` with at most as many rotations as there are levels above the node: the node stands
  -- where these rotations bring it, and the header's left and right and the further fields of all
  -- nodes are as before.
  pub rotate_up_n-Raised :
      {h : Nodes X} {header : Ptr} (n : ℕ) (c : PathUp) (l : Tree) (p : Ptr) (r : Tree)
      → Standing h header c (node l p r)
      → n ≤ levels c
      → Returns (λ _ g. Raised h header p (raised n c l r) g) (rotate_up_n header p n h)
  unfolding rotate_up_n
  rotate_up_n-Raised {h} {header} n c l p r s e =
      let p0 : p ≢ null =
        ne_of_pos (λ a. hit a p) p null (omega (arith, s.nonnull)) (omega (arith, hit_self p)) in
      rw (get_parent-ok p h p0, s.sub.0, get_parent-ok (above header c) h (above_ne c s))
        (rotate_up_loop-Raised n h c l p r s e)
