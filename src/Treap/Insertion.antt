-- ===== src/Treap/Insertion.antt =====
-- The insertions into a treap: the rotations are counted before anything changes, since a comparison
-- of priorities may throw.
use intrusive.Base.{
  ℕ, zero, suc, ◌+◌, ◌≤◌, ◌<◌, ◌≡◌, ◌≢◌, refl, sym, ap, ◌∙◌, arith, last, ◌∷◌, ◌++◌, Bool, Option,
  ◌==◌, true, false, none, some, inl, inr,
}
use mathlib.Core.Option.{map, some-injective, none-ne-some}
use intrusive.Machine.{
  Ptr, null, Outcome, returned, threw, Outcome-imp, Throws, thrown, Returns, Returns-imp,
  Returns-bind, Run, and_then,
}
use intrusive.BsTree.{Nodes}
use intrusive.BsTree.Access.{get_parent-ok}
use intrusive.BsTree.Shape.{
  Tree, leaf, node, inorder, PathUp, top, left_of, right_of, plug, times_up, above, levels,
  ne_of_hit, hit_self,
}
use intrusive.BsTree.Hang.{Side, Standing, Standing-up_left, Standing-up_right}
use intrusive.BsTree.Turn.{above_ne}
use intrusive.BsTree.Step.{==-true, ==-false}
use intrusive.BsTree.Commit.{Ends, first_or, before, after, inorder-split, insert_commit-Standing}
use intrusive.BsTree.Insert.{commit_at}
use intrusive.BsTree.Locate.{Standing-plug, Standing-unplug}
use intrusive.BsTree.Erase.Whole.{HasTree}
use intrusive.Treap.{
  count_rotations, rebalance_after_insertion_check, insert_unique_commit,
  rebalance_check_and_commit,
}
use intrusive.Treap.Raise.{raised, whole, raised-order, rotate_up_n-Raised}
use intrusive.Treap.Merge.{answers}

abbrev pub climbs_one : Option Bool → Option ℕ → Option ℕ
climbs_one none n = none
climbs_one (some false) n = some 0
climbs_one (some true) n = map suc n

-- How many nodes above a place the new one passes, which `passes` says of each; none exactly when a
-- comparison that this asks for throws.
abbrev pub climbs : (passes : Ptr → Option Bool) → PathUp → Option ℕ
climbs passes top = some 0
climbs passes (left_of c x m) = climbs_one (passes x) (climbs passes c)
climbs passes (right_of m x c) = climbs_one (passes x) (climbs passes c)

module _ {X : Type 0} (h : Nodes X) (header : Ptr) (passes : Ptr → Option Bool) where
  -- From `i` on, the nodes are counted that `n` says, if it says so; the store does not change.
  abbrev Counted : ℕ → ℕ → Option ℕ → Run (Nodes X) ℕ → Type 0
  Counted i m n r =
      Outcome (λ k g. (g ≡ h) × ((j : ℕ) × (n ≡ some j) × (k ≡ i + j) × (j ≤ m)))
        (λ g. (n ≡ none) × (g ≡ h)) r

  one_up :
      (k i : ℕ) (c c' : PathUp) (x : Ptr)
      → above header c ≡ x
      → x ≢ header
      → x ≢ null
      → h.parent x ≡ above header c'
      → levels c ≡ suc (levels c')
      → Counted
          (i + 1)
          (levels c')
          (climbs passes c')
          (count_rotations passes k header (above header c') (i + 1) h)
      → Counted i
          (levels c)
          (climbs_one (passes x) (climbs passes c'))
          (count_rotations passes (suc k) header (above header c) i h)
  unfolding count_rotations
  one_up k i c c' x e xh x0 p l rest =
      rw (e, ==-false xh)
        (elim (answers (passes x)) [
          | inl t ↦ rw t (threw (refl, refl))
          | inr (inl t) ↦
              rw (t, get_parent-ok x h x0, p)
                (Outcome-imp rest
                  (λ n g q. (
                    q.0,
                    (suc q.1.0, ap (map suc) q.1.1, omega (arith, q.1.2), omega (arith, q.1.3, l)),
                  ))
                  (λ g q. (ap (map suc) q.0, q.1)))
          | inr (inr t) ↦ rw t (returned (refl, (0, refl, omega arith, omega arith)))
        ])

  count_rotations-Counted :
      (k i : ℕ) (c : PathUp) (t : Tree)
      → Standing h header c t
      → levels c < k
      → Counted i
          (levels c)
          (climbs passes c)
          (count_rotations passes k header (above header c) i h)
  unfolding count_rotations
  count_rotations-Counted zero i c t s e = absurd (omega (arith, e))
  count_rotations-Counted (suc k) i top t s e =
      let same : (header == header) ≡ true = ==-true refl in
      rw same (returned (refl, (0, refl, omega arith, omega arith)))
  count_rotations-Counted (suc k) i (left_of c x m) t s e =
      one_up k i (left_of c x m) c x refl (ne_of_hit (omega (arith, s.distinct x, hit_self x)))
        (above_ne (left_of c x m) s) s.around.0 refl
        (count_rotations-Counted k (i + 1) c (node t x m) (Standing-up_left c t x m s)
          (omega (arith, e)))
  count_rotations-Counted (suc k) i (right_of m x c) t s e =
      one_up k i (right_of m x c) c x refl (ne_of_hit (omega (arith, s.distinct x, hit_self x)))
        (above_ne (right_of m x c) s) s.around.0 refl
        (count_rotations-Counted k (i + 1) c (node m x t) (Standing-up_right c m x t s)
          (omega (arith, e)))

  module _ (c : PathUp) (p : Ptr) (b : Bool) (s : Standing h header top (plug c leaf))
      (ends : Ends h header (plug c leaf)) (side : Side c b) (p0 : p ≢ null) (ph : p ≢ header)
      (fresh : times_up p c ≡ 0) where
    -- The tree with the new node after `n` rotations.
    abbrev climbed : ℕ → Tree
    climbed n = whole p (raised n c leaf leaf)

    commit-HasTree :
        (n : ℕ)
        → n ≤ levels c
        → Returns
            (λ _ g. HasTree h g header (climbed n))
            (insert_unique_commit header p
              (record { place = commit_at b (above header c); rotations = n })
              h)
    unfolding insert_unique_commit
    commit-HasTree n e =
        Returns-bind (insert_commit-Standing c p b (Standing-unplug c leaf s) ends side p0 ph fresh)
          λ _ k new. Returns-imp (rotate_up_n-Raised n c leaf p leaf new.0 e) λ _ g up.
            let order = raised-order n c leaf p leaf in
            record {
              stands =
                  Standing-plug (raised n c leaf leaf).path
                    (node (raised n c leaf leaf).left p (raised n c leaf leaf).right) up.0;
              ends = (
                up.1.leftmost ∙ new.1.0 ∙ ap (first_or header) (sym order),
                up.1.rightmost ∙ new.1.1 ∙ ap (last header) (sym order),
              );
              tag = λ a. up.1.tag a ∙ new.2 a;
            }

    then_commit :
        (n : ℕ)
        → climbs passes c ≡ some n
        → {r : Run (Nodes X) ℕ} → Counted 0 (levels c) (climbs passes c) r
        → Returns
            (λ _ g.
              HasTree h g header (climbed n) × (inorder (climbed n) ≡ before c ++ p ∷ after c))
            (and_then r (λ n.
              insert_unique_commit header p
                (record { place = commit_at b (above header c); rotations = n })))
    then_commit n e (returned {a = k} q) =
        let same : k ≡ n = let f = some-injective _ _ (sym q.1.1 ∙ e) in omega (arith, q.1.2, f) in
        rw (q.0, same)
          (Returns-imp (commit-HasTree n (omega (arith, q.1.2, q.1.3, same)))
            λ _ g up. (up, raised-order n c leaf p leaf ∙ inorder-split c (node leaf p leaf)))
    then_commit n e (threw q) = absurd (none-ne-some n (sym q.0 ∙ e))

    then_throw :
        climbs passes c ≡ none
        → {r : Run (Nodes X) ℕ} → Counted 0 (levels c) (climbs passes c) r
        → Throws
            (λ g. g ≡ h)
            (and_then r (λ n.
              insert_unique_commit header p
                (record { place = commit_at b (above header c); rotations = n })))
    then_throw e (returned q) = absurd (none-ne-some q.1.0 (sym e ∙ q.1.1))
    then_throw e (threw q) = thrown q.1

    -- `rebalance_check_and_commit` of a new node at an empty place of a treap, which the commit data
    -- name, with fuel for each level above the place and one round more, when the comparisons of
    -- the priorities on the way up say that the new node passes exactly `n` nodes: it returns, and
    -- the node stands where `n` rotations bring it, the nodes being the old ones in their order and
    -- the new one among them at that place. The header's left and right are at the ends of the
    -- tree, and the further fields are as before.
    pub rebalance_check_and_commit-HasTree :
        (fuel n : ℕ)
        → levels c < fuel
        → climbs passes c ≡ some n
        → Returns
            (λ _ g.
              HasTree h g header (climbed n) × (inorder (climbed n) ≡ before c ++ p ∷ after c))
            (rebalance_check_and_commit passes fuel header p (commit_at b (above header c)) h)
    unfolding rebalance_check_and_commit rebalance_after_insertion_check
    rebalance_check_and_commit-HasTree fuel n enough e =
        then_commit n e (count_rotations-Counted fuel 0 c leaf (Standing-unplug c leaf s) enough)

    -- `rebalance_check_and_commit` of a new node at an empty place of a treap, which the commit data
    -- name, with fuel for each level above the place and one round more, when a comparison of the
    -- priorities on the way up throws before one says that the new node passes no further: the
    -- exception is passed on, and nothing has changed.
    pub rebalance_check_and_commit-Throws :
        (fuel : ℕ)
        → levels c < fuel
        → climbs passes c ≡ none
        → Throws
            (λ g. g ≡ h)
            (rebalance_check_and_commit passes fuel header p (commit_at b (above header c)) h)
    unfolding rebalance_check_and_commit rebalance_after_insertion_check
    rebalance_check_and_commit-Throws fuel enough e =
        then_throw e (count_rotations-Counted fuel 0 c leaf (Standing-unplug c leaf s) enough)
