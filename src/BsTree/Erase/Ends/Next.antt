-- ===== src/BsTree/Erase/Ends/Next.antt =====
-- The nodes next to a removed node with at most one child.
use intrusive.Base.{
  false, ◌≤◌, ◌≡◌, ◌≢◌, refl, sym, ap, ◌∙◌, arith, hit, ◌==◌, if◌then◌else◌, ℕ, zero, suc, List, [],
  ◌∷◌, ◌++◌, append-nil, append_assoc, last, last-append, length, length-append,
}
use intrusive.Machine.{Ptr, null, pure, ok}
use intrusive.BsTree.{Nodes}
use intrusive.BsTree.Navigate.{minimum, maximum}
use intrusive.BsTree.Access.{get_right-ok}
use intrusive.BsTree.Shape.{
  Tree, leaf, node, inorder, times, root_of, PathUp, top, left_of, right_of, plug, above, Sub,
  ne_of_pos,
}
use intrusive.BsTree.Commit.{before, after, first_or, inorder-split}
use intrusive.BsTree.Order.{depth_of}
use intrusive.BsTree.Step.{==-false, minimum-first, first_or-append}
use intrusive.BsTree.Locate.{in_front, behind}

module _ {X : Type 0} where
  maximum-last :
      {h : Nodes X} (k : ℕ) (p : Ptr) (l : Tree) (x : Ptr) (r : Tree)
      → Sub h p (node l x r)
      → times null (node l x r) ≡ 0
      → depth_of (node l x r) ≤ k
      → maximum k x h ≡ ok (last x (inorder r)) h
  unfolding maximum
  maximum-last zero p l x r s z e = absurd (omega (arith, e))
  maximum-last {h} (suc k) p l x leaf s z e =
      let x0 : x ≢ null = ne_of_pos (λ a. hit a x) x null (omega (arith, z)) (ground arith) in
      rw (get_right-ok x h x0, s.2)
  maximum-last {h} (suc k) p l x (node m y r) s z e =
      let x0 : x ≢ null = ne_of_pos (λ a. hit a x) x null (omega (arith, z)) (ground arith) in
      let y0 : (y == null) ≡ false =
        ==-false (ne_of_pos (λ a. hit a y) y null (omega (arith, z)) (ground arith)) in
      rw (get_right-ok x h x0, s.2, y0, last-append x (inorder m) y (inorder r))
        (maximum-last k x m y r s.4 (omega (arith, z)) (omega (arith, e)))

-- The node above the first place is the next one, and the node above the last place the last.
above-first :
    (header : Ptr) (c : PathUp) → before c ≡ [] → above header c ≡ first_or header (after c)
above-first header top e = refl
above-first header (left_of c x r) e = refl
above-first header (right_of l x c) e = absurd (
    omega (
      arith,
      ap length e,
      length-append (before c) (inorder l ++ x ∷ []),
      length-append (inorder l) (x ∷ []),
    ))

above-last : (header : Ptr) (c : PathUp) → after c ≡ [] → above header c ≡ last header (before c)
above-last header top e = refl
above-last header (left_of c x r) e = absurd (omega (arith, ap length e))
above-last header (right_of l x c) e = sym (
    ap (last header) (sym (append_assoc (before c) (inorder l) (x ∷ [])))
    ∙ last-append header (before c ++ inorder l) x [])

-- The one child subtree of a node with at most one child.
pub data Only : Tree → Tree → Tree → Type 0 where
  only_right : {r : Tree} → Only leaf r r
  only_left : {l : Tree} → Only l leaf l

pub around-left :
    (c : PathUp) {l r t : Tree} → Only l r t → inorder (plug c t) ≡ in_front c l ++ behind c r
around-left c {r} only_right =
    inorder-split c r ∙ ap (λ xs. xs ++ behind c r) (sym (append-nil (before c)))
around-left c {l} only_left =
    inorder-split c l ∙ sym (append_assoc (before c) (inorder l) (after c))

empty_front : (xs ys : List Ptr) → xs ++ ys ≡ [] → xs ≡ []
empty_front [] ys e = refl
empty_front (x ∷ xs) ys e = absurd (omega (arith, ap length e))

empty_back : (xs ys : List Ptr) → xs ++ ys ≡ [] → ys ≡ []
empty_back [] ys e = e
empty_back (x ∷ xs) ys e = absurd (omega (arith, ap length e))

module _ {X : Type 0} {k : Nodes X} (header : Ptr) (c : PathUp) (fuel : ℕ) where
  pub next_first :
      {l r t : Tree}
      → Only l r t
      → Sub k (above header c) t
      → times null t ≡ 0
      → depth_of t ≤ fuel
      → in_front c l ≡ []
      → (if root_of r == null then pure (above header c) else minimum fuel (root_of r)) k
        ≡ ok (first_or header (behind c r)) k
  next_first {l} {r = leaf} o s z e f =
      ap (λ p. ok p k) (above-first header c (empty_front (before c) (inorder l) f))
  next_first {r = node rl x rr} only_right s z e f =
      let x0 : (x == null) ≡ false =
        ==-false (ne_of_pos (λ a. hit a x) x null (omega (arith, z)) (ground arith)) in
      rw
        (
          x0,
          append_assoc (inorder rl) (x ∷ inorder rr) (after c),
          first_or-append header (inorder rl) (inorder rr ++ after c) x,
        )
        (minimum-first fuel (above header c) rl x rr s z e)

  pub next_last :
      {l r t : Tree}
      → Only l r t
      → Sub k (above header c) t
      → times null t ≡ 0
      → depth_of t ≤ fuel
      → behind c r ≡ []
      → (if root_of l == null then pure (above header c) else maximum fuel (root_of l)) k
        ≡ ok (last header (in_front c l)) k
  next_last {l = leaf} {r} o s z e f =
      ap (λ p. ok p k)
        (above-last header c (empty_back (inorder r) (after c) f)
          ∙ ap (last header) (sym (append-nil (before c))))
  next_last {l = node ll x lr} only_left s z e f =
      let x0 : (x == null) ≡ false =
        ==-false (ne_of_pos (λ a. hit a x) x null (omega (arith, z)) (ground arith)) in
      rw
        (
          x0,
          ← append_assoc (before c) (inorder ll) (x ∷ inorder lr),
          last-append header (before c ++ inorder ll) x (inorder lr),
        )
        (maximum-last fuel (above header c) ll x lr s z e)
