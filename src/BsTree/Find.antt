-- ===== src/BsTree/Find.antt =====
-- `find`: a node with the key, if there is one.
use intrusive.Base.{
  ℕ, ◌≤◌, ◌<◌, ◌≡◌, ◌≢◌, refl, ap, inl, inr, ◌∷◌, arith, count, count-append, Bool, true, false,
  not, ◌==◌, ◌||◌, Bool-cases, if◌then◌else◌,
}
use intrusive.Machine.{Ptr, Returns, returns}
use intrusive.BsTree.{Nodes}
use intrusive.BsTree.Shape.{Tree, inorder, times, times-count, top, ne_of_hit, hit_self}
use intrusive.BsTree.Hang.{Standing}
use intrusive.BsTree.Search.{find}
use intrusive.BsTree.Order.{
  depth_of, Falls, first_false, Cut, all_true, cut_at, first_false-Cut, AllTrue-at, AllFalse-at,
  Falls-behind, in_front_or_behind,
}
use intrusive.BsTree.Bounds.{lower_bound-first}

-- `y` is a node of the tree with the key, or the header if there is none.
pub data Found (less greater : Ptr → Bool) (header : Ptr) (t : Tree) : Ptr → Type 0 where
  node_found :
      {y : Ptr} → 1 ≤ times y t → less y ≡ false → greater y ≡ false → Found less greater header t y
  none_found :
      ((a : Ptr) → 1 ≤ times a t → less a ≡ false → greater a ≡ true)
      → Found less greater header t header

module _ {X : Type 0} {h : Nodes X} {header : Ptr} (less greater : Ptr → Bool) (t : Tree)
    (s : Standing h header top t) where
  decide :
      (y : Ptr)
      → Falls (λ x. not (greater x)) (inorder t)
      → Cut less header (inorder t) y
      → Found less greater header t (if y == header || greater y then header else y)
  decide y fg (all_true a) =
      let same : (header == header) ≡ true = ground arith in
      rw same (
        none_found λ z m e.
          absurd
            (let c = AllTrue-at less (inorder t) z a (omega (arith, m, times-count z t)) in cc))
  decide y fg (cut_at front back e a b f) =
      let here : 1 ≤ count y (inorder t) =
        rw e (omega (arith, count-append y front (y ∷ back), hit_self y)) in
      let other : (y == header) ≡ false =
        let n : y ≢ header = ne_of_hit (omega (arith, s.distinct y, times-count y t, here)) in
        ground arith in
      rw other (elim (Bool-cases (greater y)) [
        | inr g ↦ rw g (node_found (omega (arith, here, times-count y t)) b g)
        | inl g ↦ rw g (
            none_found λ z m d.
              let tail = Falls-behind (λ x. not (greater x)) front (y ∷ back) (rw (← e) fg) in
              elim (in_front_or_behind z front (y ∷ back)
                (rw (← e) (omega (arith, m, times-count z t)))) [
                  | inl p ↦ absurd (let c = AllTrue-at less front z a p in cc)
                  | inr p ↦
                      let n =
                        AllFalse-at (λ x. not (greater x)) (y ∷ back) z
                          (ap not g, tail.0 (ap not g)) p in
                      ground arith
                ])
      ])

  -- With fuel for each level and one round more, `find` ends with a node that is neither less nor greater than the
  -- key, or with the header if the tree has no such node, in a tree whose nodes less than the key
  -- come first and those greater than it last.
  pub find-Found :
      (fuel : ℕ)
      → Falls less (inorder t)
      → Falls (λ x. not (greater x)) (inorder t)
      → depth_of t < fuel
      → Returns (λ y g. Found less greater header t y × (g ≡ h)) (find less greater fuel header h)
  unfolding find
  find-Found fuel fl fg e = rw (lower_bound-first t s fuel e less fl) (
      returns (
        decide (first_false less (inorder t) header) fg
            (first_false-Cut less (inorder t) header fl),
        refl,
      ))
