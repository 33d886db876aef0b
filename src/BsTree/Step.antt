-- ===== src/BsTree/Step.antt =====
-- `next_node`: the step from a node to the next one in order, and from the last to the header.
use intrusive.Base.{
  ℕ, zero, suc, ◌+◌, ◌≤◌, ◌<◌, ◌≡◌, ◌≢◌, refl, sym, ap, inl, inr, List, [], ◌∷◌, ◌++◌, append_assoc,
  arith, hit, length, true, false, Bool-cases, ◌==◌,
}
use intrusive.Machine.{Ptr, null, ok}
use intrusive.BsTree.{Nodes}
use intrusive.BsTree.Navigate.{minimum, climb_right, next_node}
use intrusive.BsTree.Access.{get_left-ok, get_right-ok, get_parent-ok}
use intrusive.BsTree.Shape.{
  levels, Tree, leaf, node, inorder, times, root_of, root-ne, PathUp, top, left_of, right_of, plug,
  above, Sub, ne_of_pos, hit_self,
}
use intrusive.BsTree.Hang.{Standing, Standing-up_right}
use intrusive.BsTree.Commit.{after, first_or}
use intrusive.BsTree.Order.{depth_of, depth-length}
use intrusive.BsTree.Locate.{Standing-unplug, locate_at}

pub ==-false : {a b : Ptr} → a ≢ b → (a == b) ≡ false
==-false n = ground arith

pub ==-true : {a b : Ptr} → a ≡ b → (a == b) ≡ true
==-true e = ground arith

pub first_or-append :
    (d : Ptr) (xs ys : List Ptr) (x : Ptr) → first_or d ((xs ++ x ∷ ys)) ≡ first_or x xs
first_or-append d [] ys x = refl
first_or-append d (y ∷ xs) ys x = refl

module _ {X : Type 0} where
  pub minimum-first :
      {h : Nodes X} (k : ℕ) (p : Ptr) (l : Tree) (x : Ptr) (r : Tree)
      → Sub h p (node l x r)
      → times null (node l x r) ≡ 0
      → depth_of (node l x r) ≤ k
      → minimum k x h ≡ ok (first_or x (inorder l)) h
  unfolding minimum
  minimum-first zero p l x r s z e = absurd (omega (arith, e))
  minimum-first {h} (suc k) p leaf x r s z e =
      let x0 : x ≢ null = ne_of_pos (λ a. hit a x) x null (omega (arith, z)) (ground arith) in
      rw (get_left-ok x h x0, s.1)
  minimum-first {h} (suc k) p (node l y m) x r s z e =
      let x0 : x ≢ null = ne_of_pos (λ a. hit a x) x null (omega (arith, z)) (ground arith) in
      let y0 : (y == null) ≡ false =
        ==-false (ne_of_pos (λ a. hit a y) y null (omega (arith, z)) (ground arith)) in
      rw (get_left-ok x h x0, s.1, y0, first_or-append x (inorder l) (inorder m) y)
        (minimum-first k x l y m s.3 (omega (arith, z)) (omega (arith, e)))

  -- A node of a subtree is not the root of a tree that it is not in.
  apart_root :
      {h : Nodes X} {header : Ptr} (c : PathUp) (l : Tree) (x : Ptr) (t : Tree)
      → Standing h header c (node l x t)
      → (a : Ptr) → a ≢ null
      → times a t ≡ 0
      → a ≢ root_of t
  apart_root c l x t s a a0 z = root-ne t a z a0

  pub climb_right-first :
      {h : Nodes X} {header : Ptr} (k : ℕ) (c : PathUp) (l : Tree) (n : Ptr) (r : Tree)
      → Standing h header c (node l n r)
      → levels c + 1 < k
      → climb_right k n (above header c) h ≡ ok (first_or header (after c)) h
  unfolding climb_right
  climb_right-first zero c l n r s enough = absurd (omega (arith, enough))
  climb_right-first {h} {header} (suc k) (left_of c x m) l n r s enough =
      let n0 : n ≢ null =
        ne_of_pos (λ a. hit a n) n null (omega (arith, s.nonnull)) (ground arith) in
      let x0 : x ≢ null =
        ne_of_pos (λ a. hit a x) x null (omega (arith, s.nonnull)) (ground arith) in
      let f : (n == root_of m) ≡ false =
        ==-false (root-ne m n (omega (arith, s.distinct n, hit_self n)) n0) in
      let g : (root_of r == x) ≡ false =
        ==-false (λ o. root-ne r x (omega (arith, s.distinct x, hit_self x)) x0 (sym o)) in
      rw (get_right-ok x h x0, s.around.2, f, get_right-ok n h n0, s.sub.2, g)
  climb_right-first {h} {header} (suc k) (right_of m x c) l n r s enough =
      let x0 : x ≢ null =
        ne_of_pos (λ a. hit a x) x null (omega (arith, s.nonnull)) (ground arith) in
      rw
        (
          get_right-ok x h x0,
          s.around.1,
          (==-true {a = n} {b = n} refl),
          get_parent-ok x h x0,
          s.around.0,
        )
        (climb_right-first k c m x (node l n r) (Standing-up_right c m x (node l n r) s)
          (omega (arith, enough)))
  climb_right-first {h} {header} (suc zero) top l n r s enough = absurd (omega (arith, enough))
  climb_right-first {h} {header} (suc (suc k)) top l n r s enough =
      let n0 : n ≢ null =
        ne_of_pos (λ a. hit a n) n null (omega (arith, s.nonnull)) (ground arith) in
      let h0 : header ≢ null =
        ne_of_pos (λ a. hit a header) header null (omega (arith, s.nonnull)) (ground arith) in
      let f : (header == root_of r) ≡ false =
        ==-false (root-ne r header (omega (arith, s.distinct header, hit_self header)) h0) in
      let g : (root_of r == header) ≡ false =
        ==-false
          (λ o. root-ne r header (omega (arith, s.distinct header, hit_self header)) h0 (sym o)) in
      elim (Bool-cases (n == h.right header)) [
        | inl o ↦
            let q : h.right header ≡ n = ground arith in
            rw (
              get_right-ok header h h0,
              q,
              (==-true {a = n} {b = n} refl),
              get_parent-ok header h h0,
              s.around,
              get_right-ok n h n0,
              s.sub.2,
              f,
              get_right-ok header h h0,
              q,
              (==-true {a = n} {b = n} refl),
            )
        | inr o ↦ rw (get_right-ok header h h0, o, get_right-ok n h n0, s.sub.2, g)
      ]

  pub next_node-first :
      {h : Nodes X} {header : Ptr} (fuel : ℕ) (c : PathUp) (l : Tree) (n : Ptr) (r : Tree)
      → Standing h header c (node l n r)
      → levels c + 1 < fuel
      → depth_of r ≤ fuel
      → next_node fuel n h ≡ ok (first_or header (inorder r ++ after c)) h
  unfolding next_node
  next_node-first {h} {header} fuel c l n leaf s up down =
      let n0 : n ≢ null =
        ne_of_pos (λ a. hit a n) n null (omega (arith, s.nonnull)) (ground arith) in
      rw (get_right-ok n h n0, s.sub.2, get_parent-ok n h n0, s.sub.0)
        (climb_right-first fuel c l n leaf s up)
  next_node-first {h} {header} fuel c l n (node m x r) s up down =
      let n0 : n ≢ null =
        ne_of_pos (λ a. hit a n) n null (omega (arith, s.nonnull)) (ground arith) in
      let x0 : (x == null) ≡ false =
        ==-false (ne_of_pos (λ a. hit a x) x null (omega (arith, s.nonnull)) (ground arith)) in
      rw
        (
          get_right-ok n h n0,
          s.sub.2,
          x0,
          append_assoc (inorder m) (x ∷ inorder r) (after c),
          first_or-append header (inorder m) (inorder r ++ after c) x,
        )
        (minimum-first fuel n m x r s.sub.4 (omega (arith, s.nonnull)) down)

-- The way up and the subtree are no longer than the whole tree.
pub levels-depth : (c : PathUp) (t : Tree) → levels c + depth_of t ≤ depth_of (plug c t)
levels-depth top t = omega arith
levels-depth (left_of c x r) t = omega (arith, levels-depth c (node t x r))
levels-depth (right_of l x c) t = omega (arith, levels-depth c (node l x t))

-- `next_node` from a node of a tree, with fuel for each node of the tree and one round more, ends
-- with the node behind it in the order of the tree, or with the header from the last one; the
-- store is as before.
pub next_node-behind :
    {X : Type 0} {h : Nodes X} {header : Ptr} (t : Tree) (xs : List Ptr) (n : Ptr) (ys : List Ptr)
    (fuel : ℕ)
    → Standing h header top t
    → inorder t ≡ xs ++ n ∷ ys
    → length (inorder t) < fuel
    → next_node fuel n h ≡ ok (first_or header ys) h
next_node-behind {X} {h} {header} t xs n ys fuel s e enough =
    let p = locate_at t xs n ys (λ a. omega (arith, s.distinct a)) e in
    let q = p.at in
    let small = levels-depth q.path (node q.left n q.right) in
    let size = depth-length t in
    rw p.back (
      next_node-first fuel q.path q.left n q.right
        (Standing-unplug q.path (node q.left n q.right) (rw q.whole s))
        (omega (arith, small, size, enough, ap depth_of q.whole))
        (omega (arith, small, size, enough, ap depth_of q.whole)))
