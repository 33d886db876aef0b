-- ===== src/Treap/Erasure.antt =====
-- `rebalance_for_erasure`: the node to erase sinks by rotations until it has no children; when a
-- comparison of priorities throws, the rotations are taken back.
use intrusive.Base.{
  ℕ, zero, suc, ◌+◌, ◌≤◌, ◌<◌, ◌≡◌, ◌≢◌, ap, ◌∙◌, arith, hit, ◌==◌, false, ◌∷◌, Bool, Option, none,
  some, length, length-append, inl, inr, sym,
}
use intrusive.Machine.{
  Ptr, null, Outcome, returned, threw, Returns, returns, Run, throws, and_then, ◌>>=◌,
}
use intrusive.BsTree.{Nodes, get_left, get_right}
use intrusive.BsTree.Access.{get_left-ok, get_right-ok, get_parent-ok}
use intrusive.BsTree.Shape.{
  Tree, leaf, node, inorder, root_of, PathUp, left_of, right_of, above, plug, levels, ne_of_pos,
  hit_self,
}
use intrusive.BsTree.Hang.{Standing, Standing-left, Standing-right, Spared, Spared-trans}
use intrusive.BsTree.Step.{==-false}
use intrusive.BsTree.TurnLeft.{rotate_left-Standing}
use intrusive.BsTree.TurnRight.{rotate_right-Standing}
use intrusive.BsTree.Rotate.{rotate_left, rotate_right}
use intrusive.Treap.{goes_right, sink_loop, rotate_up_n}
use mathlib.Core.Option.{map, map-map}
use intrusive.Treap.Merge.{answers, merged, merged-leaf, merged-chosen}
use intrusive.Treap.Raise.{Spot, raised, Raised, rotate_up_n-Raised}

-- A node without children, at a place from which `n` rotations would bring it to the spot `s`, in
-- the tree `rest`.
pub record Sunk {X : Type 0} (h g : Nodes X) (header z : Ptr) (s : Spot) (rest : Option Tree)
    : Type 0 where
  pub steps : ℕ
  pub path : PathUp
  pub back : raised steps path leaf leaf ≡ s
  pub left_over : rest ≡ some (plug path leaf)
  pub stands : Standing g header path (node leaf z leaf)
  pub spared : Spared h g header

-- Returns or throws, after a part that returns.
pub Outcome-bind :
    {S A B : Type 0} {P : A → S → Type 0} {Q : B → S → Type 0} {R : S → Type 0} {r : Run S A}
    {k : A → S → Run S B}
    → Returns P r
    → ((a : A) (s : S) → P a s → Outcome Q R (k a s))
    → Outcome Q R (and_then r k)
Outcome-bind (returns p) next = next _ _ p

throw_after :
    {S A B : Type 0} {P : A → S → Type 0} {Q : B → S → Type 0} {R : S → Type 0} {r : Run S A}
    → Returns P r
    → ((a : A) (s : S) → P a s → R s)
    → Outcome Q R (and_then r (λ _. throws))
throw_after (returns p) f = threw (f _ _ p)

module _ {X : Type 0} (h : Nodes X) (header z : Ptr) (s : Spot) (pcomp : Ptr → Ptr → Option Bool)
    (rest : Option Tree) where
  -- It ends normally with the tree `rest` around the node, or throws when there is no such tree.
  abbrev pub Sinks : Run (Nodes X) (Unit {0}) → Type 0
  Sinks r = Outcome (λ _ g. Sunk h g header z s rest) (λ g. (rest ≡ none) × Raised h header z s g) r

  -- The subtrees merge to the tree `rest`.
  abbrev Merge : PathUp → Tree → Tree → Type 0
  Merge c l r = map (plug c) (merged pcomp l r) ≡ rest

  abbrev next_round : ℕ → ℕ → Nodes X → Run (Nodes X) (Unit {0})
  next_round k n = do
    next_left ← get_left z
    next_right ← get_right z
    sink_loop pcomp k header z n next_left next_right

  -- What is to show of the rounds with fuel `k`.
  abbrev pub Rounds : ℕ → Type 0
  Rounds k =
      (n : ℕ) (m : Nodes X) (c : PathUp) (l r : Tree)
      → Standing m header c (node l z r)
      → Spared h m header
      → raised n c l r ≡ s
      → Merge c l r
      → n ≤ levels c
      → length (inorder l) + length (inorder r) < k
      → Sinks (sink_loop pcomp k header z n (root_of l) (root_of r) m)

  module _ (k : ℕ) (rounds : Rounds k) (n : ℕ) (m : Nodes X) (c : PathUp) where
    round_after :
        (g : Nodes X) (c' : PathUp) (l r : Tree)
        → Standing g header c' (node l z r)
        → Spared h g header
        → raised (suc n) c' l r ≡ s
        → Merge c' l r
        → n < levels c'
        → length (inorder l) + length (inorder r) < k
        → Sinks (next_round k (n + 1) g)
    round_after g c' l r st spared e o small enough =
        let z0 : z ≢ null =
          ne_of_pos (λ a. hit a z) z null (omega (arith, st.nonnull)) (omega (arith, hit_self z)) in
        let one : n + 1 ≡ suc n = omega arith in
        rw (get_left-ok z g z0, st.sub.1, get_right-ok z g z0, st.sub.2)
          (rounds (n + 1) g c' l r st spared (ap (λ i. raised i c' l r) one ∙ e) o
            (omega (arith, small)) enough)

    turn_right :
        (a : Tree) (q : Ptr) (b r : Tree)
        → Standing m header c (node (node a q b) z r)
        → Spared h m header
        → raised n c (node a q b) r ≡ s
        → Merge (right_of a q c) b r
        → n ≤ levels c
        → length (inorder (node a q b)) + length (inorder r) < suc k
        → Sinks (and_then (rotate_right z q (above header c) header m) (λ _. next_round k (n + 1)))
    turn_right a q b r st spared e o small enough =
        Outcome-bind (rotate_right-Standing c r z b q a st) λ _ g turned.
          round_after g (right_of a q c) b r (Standing-right c a q (node b z r) turned.0)
            (Spared-trans spared turned.1) e o (omega (arith, small))
            (omega (arith, enough, length-append (inorder a) (q ∷ inorder b)))

    turn_left :
        (l a : Tree) (q : Ptr) (b : Tree)
        → Standing m header c (node l z (node a q b))
        → Spared h m header
        → raised n c l (node a q b) ≡ s
        → Merge (left_of c q b) l a
        → n ≤ levels c
        → length (inorder l) + length (inorder (node a q b)) < suc k
        → Sinks (and_then (rotate_left z q (above header c) header m) (λ _. next_round k (n + 1)))
    turn_left l a q b st spared e o small enough =
        Outcome-bind (rotate_left-Standing c l z a q b st) λ _ g turned.
          round_after g (left_of c q b) l a (Standing-left c (node l z a) q b turned.0)
            (Spared-trans spared turned.1) e o (omega (arith, small))
            (omega (arith, enough, length-append (inorder a) (q ∷ inorder b)))

    take_back :
        (l r : Tree)
        → Standing m header c (node l z r)
        → Spared h m header
        → raised n c l r ≡ s
        → rest ≡ none
        → n ≤ levels c
        → Sinks (and_then (rotate_up_n header z n m) (λ _. throws))
    take_back l r st spared e o small =
        throw_after {P = λ _ g. Raised m header z s g}
          (rw (← e) (rotate_up_n-Raised n c l z r st small))
          λ _ g done. (o, (done.0, Spared-trans spared done.1))

  pub sink_loop-Sinks : (k : ℕ) → Rounds k
  unfolding sink_loop goes_right
  sink_loop-Sinks zero n m c l r st spared e o small enough = absurd (omega (arith, enough))
  sink_loop-Sinks (suc k) n m c leaf leaf st spared e o small enough =
      returned
        (record { steps = n; path = c; back = e; left_over = sym o; stands = st; spared = spared })
  sink_loop-Sinks (suc k) n m c (node a q b) leaf st spared e o small enough =
      let z0 : z ≢ null =
        ne_of_pos (λ a. hit a z) z null (omega (arith, st.nonnull)) (omega (arith, hit_self z)) in
      let q0 : (q == null) ≡ false =
        ==-false (
          ne_of_pos (λ a. hit a q) q null (omega (arith, st.nonnull))
            (omega (arith, hit_self q))) in
      rw (q0, get_parent-ok z m z0, st.sub.0)
        (turn_right k (sink_loop-Sinks k) n m c a q b leaf st spared e (rw (merged-leaf pcomp b) o)
          small enough)
  sink_loop-Sinks (suc k) n m c leaf (node a q b) st spared e o small enough =
      let z0 : z ≢ null =
        ne_of_pos (λ a. hit a z) z null (omega (arith, st.nonnull)) (omega (arith, hit_self z)) in
      let q0 : (q == null) ≡ false =
        ==-false (
          ne_of_pos (λ a. hit a q) q null (omega (arith, st.nonnull))
            (omega (arith, hit_self q))) in
      rw (q0, get_parent-ok z m z0, st.sub.0)
        (turn_left k (sink_loop-Sinks k) n m c leaf a q b st spared e o small enough)
  sink_loop-Sinks (suc k) n m c (node a q b) (node a' q' b') st spared e o small enough =
      let z0 : z ≢ null =
        ne_of_pos (λ a. hit a z) z null (omega (arith, st.nonnull)) (omega (arith, hit_self z)) in
      let q0 : (q == null) ≡ false =
        ==-false (
          ne_of_pos (λ a. hit a q) q null (omega (arith, st.nonnull))
            (omega (arith, hit_self q))) in
      let q1 : (q' == null) ≡ false = ==-false (
        ne_of_pos (λ a. hit a q') q' null (omega (arith, st.nonnull))
          (omega (arith, hit_self q'))) in
      rw (q0, q1, get_parent-ok z m z0, st.sub.0)
        (elim (answers (pcomp q q')) [
          | inl t ↦
              let o' : rest ≡ none =
                sym o ∙ ap (map (plug c)) (merged-chosen pcomp a q b a' q' b' t) in
              rw t (
                take_back k (sink_loop-Sinks k) n m c (node a q b) (node a' q' b') st spared e o'
                  small)
          | inr (inl t) ↦
              let o' : Merge (right_of a q c) b (node a' q' b') =
                sym (map-map (plug c) (node a q) (merged pcomp b (node a' q' b')))
                ∙ sym (ap (map (plug c)) (merged-chosen pcomp a q b a' q' b' t))
                ∙ o in
              rw t (
                turn_right k (sink_loop-Sinks k) n m c a q b (node a' q' b') st spared e o' small
                  enough)
          | inr (inr t) ↦
              let o' : Merge (left_of c q' b') (node a q b) a' =
                sym (map-map (plug c) (λ u. node u q' b') (merged pcomp (node a q b) a'))
                ∙ sym (ap (map (plug c)) (merged-chosen pcomp a q b a' q' b' t))
                ∙ o in
              rw t (
                turn_left k (sink_loop-Sinks k) n m c (node a q b) a' q' b' st spared e o' small
                  enough)
        ])
