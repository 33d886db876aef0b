-- ===== src/TreeContainer/Erase.antt =====
-- `erase` of a container over any kind of tree whose removal keeps its laws.
use intrusive.Base.{
  ℕ, ◌+◌, ◌-◌, ◌%◌, ◌≡◌, ◌≢◌, ◌<◌, refl, ap, ◌∙◌, List, [], ◌∷◌, ◌++◌, arith, Bool, true, false,
  length, length-append, count, count-append, ◌==◌, inl, inr, Bool-cases, suc, zero,
}
use intrusive.Machine.{Ptr, null, when, pure, ◌>>◌, Returns, returns, Returns-bind, Returns-imp}
use intrusive.BsTree.{Nodes, init}
use intrusive.BsTree.Shape.{hit_self, ne_of_hit, ne_of_pos, Tree, inorder, times, times-count, top}
use intrusive.BsTree.Hang.{Standing}
use intrusive.BsTree.Commit.{first_or}
use intrusive.BsTree.Step.{next_node-behind, ==-false, ==-true}
use intrusive.TreeContainer.{
  NodeAlgorithms, Container, size_mod, on_nodes, decrement, erase, private_erase, erase_range,
}
use intrusive.TreeContainer.Order.{Sorted-remove}
use intrusive.TreeContainer.Interface.{RemovalLaws}
use intrusive.TreeContainer.Insert.{Holds, with_size-Returns}

-- The counter wraps as the length does.
one_less : (n : ℕ) → ((n + 1) % size_mod + size_mod - 1) % size_mod ≡ n % size_mod
one_less n = omega arith

first_or-ne :
    (m header : Ptr) (zs : List Ptr) → count m zs ≡ 0 → m ≢ header → m ≢ first_or header zs
first_or-ne m header [] d e = e
first_or-ne m header (z ∷ zs) d e = ne_of_hit (omega (arith, d))

module _ {X : Type 0} {Good : Nodes X → Ptr → Tree → Type 0} (alg : NodeAlgorithms X)
    (laws : RemovalLaws alg Good) (comp : Ptr → Ptr → Bool) (fuel : ℕ) (header : Ptr)
    (safemode_or_autounlink : Bool) where
  -- `erase` of a value of a container, over tree algorithms that keep the laws of removal, with fuel for each value and one round more, in each mode of
  -- the hooks: it returns the next value, or the header behind the last one, and the container
  -- holds the other values in their order, counted, in a good tree again.
  pub erase-Holds :
      (s : Container X) (xs : List Ptr) (z : Ptr) (ys : List Ptr)
      → Holds Good comp header s (xs ++ z ∷ ys)
      → length (xs ++ z ∷ ys) < fuel
      → Returns
          (λ i g. (i ≡ first_or header ys) × Holds Good comp header g (xs ++ ys))
          (erase alg comp fuel header safemode_or_autounlink z s)
  unfolding erase decrement
  erase-Holds s xs z ys holds enough =
      let t = holds.tree.tree in
      let st : Standing s.store header top t = laws.stands s.store header t holds.tree.good in
      let small : length (inorder t) < fuel = omega (arith, enough, ap length holds.tree.nodes) in
      let here : times z t ≡ count z xs + (1 + count z ys) = omega (
        arith,
        times-count z t,
        ap (count z) holds.tree.nodes,
        count-append z xs (z ∷ ys),
        hit_self z,
      ) in
      let z0 : z ≢ null =
        ne_of_pos (λ a. times a t) z null (omega (arith, st.nonnull)) (omega (arith, here)) in
      let zh : z ≢ header = ne_of_hit (omega (arith, st.distinct z, here)) in
      let size : (s.size_ + size_mod - 1) % size_mod ≡ length (xs ++ ys) % size_mod =
        ap (λ n. (n + size_mod - 1) % size_mod)
          (holds.counted
            ∙ ap (λ n. n % size_mod)
                (omega (arith, length-append xs (z ∷ ys), length-append xs ys)))
        ∙ one_less (length (xs ++ ys)) in
      rw (next_node-behind t xs z ys fuel st holds.tree.nodes small) (
        Returns-bind
          (with_size-Returns s.size_
            (laws.erases fuel s.store header t xs z ys holds.tree.good holds.tree.nodes small))
          λ _ g gone.
            let kept : Holds Good comp header
                (record g { size_ = (g.size_ + size_mod - 1) % size_mod }) (xs ++ ys) =
              record {
                tree = gone.0;
                sorted = Sorted-remove comp z xs ys holds.sorted;
                counted = ap (λ n. (n + size_mod - 1) % size_mod) gone.1 ∙ size;
              } in
            let off : times z gone.0.tree ≡ 0 = omega (
              arith,
              times-count z gone.0.tree,
              ap (count z) gone.0.nodes,
              count-append z xs ys,
              st.distinct z,
              here,
            ) in
            reset (record g { size_ = (g.size_ + size_mod - 1) % size_mod }) xs z ys kept z0 zh off)
    where
      reset :
          (g : Container X) (xs : List Ptr) (z : Ptr) (ys : List Ptr)
          (k : Holds Good comp header g (xs ++ ys))
          → z ≢ null
          → z ≢ header
          → times z k.tree.tree ≡ 0
          → Returns
              (λ i m. (i ≡ first_or header ys) × Holds Good comp header m (xs ++ ys))
              ((do when safemode_or_autounlink (on_nodes (init z)); pure (first_or header ys)) g)
      reset g xs z ys k z0 zh off = elim (Bool-cases safemode_or_autounlink) [
        | inl e ↦ rw e (
            Returns-bind
              (with_size-Returns g.size_
                (laws.resets g.store header k.tree.tree z k.tree.good z0 zh off))
              λ _ m done. returns (
                refl,
                record {
                  tree = record { tree = k.tree.tree; good = done.0; nodes = k.tree.nodes };
                  sorted = k.sorted;
                  counted = done.1 ∙ k.counted;
                },
              ))
        | inr e ↦ rw e (returns (refl, k))
      ]

  -- Values that stand behind each other, from `b` to `e`.
  private_erase-Holds :
      (k n : ℕ) (s : Container X) (xs ms zs : List Ptr)
      → Holds Good comp header s (xs ++ (ms ++ zs))
      → length (xs ++ (ms ++ zs)) < fuel
      → length ms < k
      → Returns
          (λ r g.
            (r.0 ≡ first_or header zs)
            × (r.1 ≡ n + length ms)
            × Holds Good comp header g (xs ++ zs))
          (private_erase alg comp fuel header safemode_or_autounlink k
            (first_or header (ms ++ zs))
            (first_or header zs)
            n
            s)
  unfolding private_erase
  private_erase-Holds zero n s xs ms zs holds enough small = absurd (omega (arith, small))
  private_erase-Holds (suc k) n s xs [] zs holds enough small =
      let same : (first_or header zs == first_or header zs) ≡ true = ==-true refl in
      rw same (returns (refl, omega arith, holds))
  private_erase-Holds (suc k) n s xs (m ∷ ms) zs holds enough small =
      let t = holds.tree.tree in
      let st : Standing s.store header top t = laws.stands s.store header t holds.tree.good in
      let here : times m t ≡ count m xs + (1 + (count m ms + count m zs)) = omega (
        arith,
        times-count m t,
        ap (count m) holds.tree.nodes,
        count-append m xs (m ∷ ms ++ zs),
        count-append m ms zs,
        hit_self m,
      ) in
      let other : (m == first_or header zs) ≡ false = ==-false (
        first_or-ne m header zs (omega (arith, st.distinct m, here))
          (ne_of_hit (omega (arith, st.distinct m, here)))) in
      let shorter : length (xs ++ (ms ++ zs)) < fuel =
        omega (arith, enough, length-append xs (m ∷ ms ++ zs), length-append xs (ms ++ zs)) in
      rw
        (
          other,
          next_node-behind t xs m (ms ++ zs) fuel st holds.tree.nodes
              (omega (arith, enough, ap length holds.tree.nodes)),
        )
        (Returns-bind (erase-Holds s xs m (ms ++ zs) holds enough) λ _ g done.
          Returns-imp
            (private_erase-Holds k (n + 1) g xs ms zs done.1 shorter (omega (arith, small)))
            λ r m' p. (p.0, omega (arith, p.1), p.2))

  -- `erase` of a range of values of a container, over tree algorithms that keep the laws of
  -- removal, with fuel for each value and one round more: it
  -- returns the end of the range, and the container holds the values outside of the range, in their
  -- order, counted, in a good tree again.
  pub erase_range-Holds :
      (s : Container X) (xs ms zs : List Ptr)
      → Holds Good comp header s (xs ++ (ms ++ zs))
      → length (xs ++ (ms ++ zs)) < fuel
      → Returns
          (λ i g. (i ≡ first_or header zs) × Holds Good comp header g (xs ++ zs))
          (erase_range alg comp fuel header safemode_or_autounlink
            (first_or header (ms ++ zs))
            (first_or header zs)
            s)
  unfolding erase_range
  erase_range-Holds s xs ms zs holds enough =
      Returns-bind
        (private_erase-Holds fuel 0 s xs ms zs holds enough
          (omega (arith, enough, length-append xs (ms ++ zs), length-append ms zs)))
        λ r g done. returns (done.0, done.2)
