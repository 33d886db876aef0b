-- ===== src/TreeContainer/Insert.antt =====
-- `insert_unique` of a container over any kind of tree that keeps its laws.
use mathlib.Core.Path.{subst}
use intrusive.Base.{
  ℕ, ◌+◌, ◌%◌, ◌≡◌, ◌≢◌, ◌≤◌, ◌<◌, refl, sym, ap, ◌∙◌, List, ◌∷◌, ◌++◌, arith, Bool, true, false,
  length, length-append, count,
}
use intrusive.Machine.{Ptr, null, Run, Returns, returns, Returns-bind}
use intrusive.BsTree.{Nodes}
use intrusive.BsTree.Shape.{
  Tree, leaf, inorder, times-count, times-plug, PathUp, plug, times_up, above,
}
use intrusive.BsTree.Commit.{before, after, inorder-split}
use intrusive.BsTree.Insert.{CheckResult, insertable, present, commit_at}
use intrusive.BsTree.Order.{AllTrue, depth-length}
use intrusive.BsTree.CheckUnique.{Place, Checked, is_free, is_taken, insert_unique_check-Checked}
use intrusive.TreeContainer.{
  NodeAlgorithms, Container, size_mod, with_size, increment, insert_unique_commit, commit_if_free,
  insert_unique,
}
use intrusive.TreeContainer.Order.{
  IsStrictOrder, Sorted, Sorted-Falls-less, Sorted-Falls-greater, Sorted-insert,
}
use intrusive.TreeContainer.Interface.{GoodTree, TreeLaws}

-- The container holds the values `xs`: in a good tree, sorted, and counted.
pub record Holds {X : Type 0} (Good : Nodes X → Ptr → Tree → Type 0) (comp : Ptr → Ptr → Bool)
    (header : Ptr) (s : Container X) (xs : List Ptr) : Type 0 where
  pub tree : GoodTree Good s.store header xs
  pub sorted : Sorted comp xs
  pub counted : s.size_ ≡ length xs % size_mod

-- What `insert_unique` of the value `v` does to a container with the values `xs`: it returns an
-- equivalent value, or adds `v` at its place in the order.
pub data Inserted {X : Type 0} (Good : Nodes X → Ptr → Tree → Type 0) (comp : Ptr → Ptr → Bool)
    (header v : Ptr) (s : Container X) (xs : List Ptr) : Ptr × Bool → Container X → Type 0 where
  was_there :
      {p : Ptr} {g : Container X}
      → 1 ≤ count p xs
      → comp p v ≡ false
      → comp v p ≡ false
      → g.store ≡ s.store
      → g.size_ ≡ s.size_
      → Inserted Good comp header v s xs (p, false) g
  was_added :
      {g : Container X} (front back : List Ptr)
      → xs ≡ front ++ back
      → Holds Good comp header g (front ++ v ∷ back)
      → Inserted Good comp header v s xs (v, true) g

pub with_size-Returns :
    {X A : Type 0} {P : A → Nodes X → Type 0} {r : Run (Nodes X) A} (n : ℕ)
    → Returns P r
    → Returns (λ a g. P a g.store × (g.size_ ≡ n)) (with_size n r)
with_size-Returns n (returns p) = returns (p, refl)

-- The counter wraps as the length does.
one_more : (n : ℕ) → (n % size_mod + 1) % size_mod ≡ (n + 1) % size_mod
one_more n = omega arith

module _ {X : Type 0} {Good : Nodes X → Ptr → Tree → Type 0} (alg : NodeAlgorithms X)
    (laws : TreeLaws alg Good) (comp : Ptr → Ptr → Bool) (order : IsStrictOrder comp) (fuel : ℕ)
    (header : Ptr) (s : Container X) (xs : List Ptr) (holds : Holds Good comp header s xs)
    (enough : length xs < fuel) (v : Ptr) (v0 : v ≢ null) (vh : v ≢ header)
    (fresh : count v xs ≡ 0) where
  longer : (front back : List Ptr) → xs ≡ front ++ back → length xs + 1 ≡ length (front ++ v ∷ back)
  longer front back e =
      omega (arith, ap length e, length-append front back, length-append front (v ∷ back))

  commit-Holds :
      (g : Container X)
      → g.store ≡ s.store
      → g.size_ ≡ s.size_
      → (c : PathUp) (b : Bool) → Place (λ x. comp v x) holds.tree.tree c b
      → AllTrue (λ x. comp x v) (before c)
      → Returns
          (λ i m.
            (i ≡ v)
            × (xs ≡ before c ++ after c)
            × Holds Good comp header m (before c ++ v ∷ after c))
          (insert_unique_commit alg comp fuel header v (commit_at b (above header c)) g)
  unfolding insert_unique_commit increment
  commit-Holds g same size c b p l =
      let nodes : xs ≡ before c ++ after c =
        sym holds.tree.nodes ∙ ap inorder (sym p.hole) ∙ inorder-split c leaf in
      let whole : inorder (plug c leaf) ≡ xs = ap inorder p.hole ∙ holds.tree.nodes in
      let good : Good g.store header (plug c leaf) = rw (same, p.hole) holds.tree.good in
      let new : times_up v c ≡ 0 =
        omega
          (arith, fresh, times-plug v c leaf, times-count v (plug c leaf), ap (count v) whole) in
      let small : length (inorder (plug c leaf)) < fuel = omega (arith, enough, ap length whole) in
      Returns-bind
        (with_size-Returns g.size_
          (laws.commit fuel g.store header c v b good p.side v0 vh new small))
        λ o m done. returns (
          refl,
          nodes,
          record {
            tree = done.0;
            sorted =
                Sorted-insert comp v (before c) (after c) (subst (Sorted comp) nodes holds.sorted) l
                  p.greater_ones;
            counted =
                ap (λ n. (n + 1) % size_mod) (done.1 ∙ size ∙ holds.counted)
                ∙ one_more (length xs)
                ∙ ap (λ n. n % size_mod) (longer (before c) (after c) nodes);
          },
        )

  commit-Inserted :
      (g : Container X)
      → g.store ≡ s.store
      → g.size_ ≡ s.size_
      → (r : CheckResult) → Checked (λ x. comp x v) (λ x. comp v x) header holds.tree.tree r
      → Returns (Inserted Good comp header v s xs) (commit_if_free alg comp fuel header v r g)
  unfolding commit_if_free
  commit-Inserted g same size (present p) (is_taken m l q) = returns (
      was_there (omega (arith, m, times-count p holds.tree.tree, ap (count p) holds.tree.nodes)) l q
        same size)
  commit-Inserted g same size (insertable d) (is_free c b p l) =
      Returns-bind (commit-Holds g same size c b p l)
        λ i m done. rw done.0 (returns (was_added (before c) (after c) done.1 done.2))

  -- `insert_unique` of a value whose node is not null, not the header and not in the container,
  -- with fuel for each value and one round more, in a container whose values are sorted by a
  -- strict order, over tree algorithms that keep the laws of the
  -- interface: it returns a value that is neither less nor greater, and changes nothing, or it
  -- adds the new one so that the values stay sorted and counted, in a good tree again.
  pub insert_unique-Inserted :
      Returns (Inserted Good comp header v s xs) (insert_unique alg comp fuel header v s)
  unfolding insert_unique
  insert_unique-Inserted =
      let t = holds.tree.tree in
      let sorted : Sorted comp (inorder t) = rw holds.tree.nodes holds.sorted in
      Returns-bind
        (with_size-Returns s.size_ (
          insert_unique_check-Checked (λ x. comp x v) (λ x. comp v x) t
            (laws.stands s.store header t holds.tree.good)
            (Sorted-Falls-less comp order v (inorder t) sorted) fuel
            (Sorted-Falls-greater comp order v (inorder t) sorted)
            (omega (arith, enough, ap length holds.tree.nodes, depth-length t))))
        λ r g done. commit-Inserted g done.0.1 done.1 r done.0.0
