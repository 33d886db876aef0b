-- ===== src/BsTree/Range.antt =====
-- `bounded_range` and `equal_range`: the nodes between two keys.
use intrusive.Base.{
  ℕ, zero, suc, ◌<◌, ◌≡◌, ◌≢◌, refl, ap, ◌∙◌, inl, inr, List, arith, hit, Bool, true, false, not,
  ◌==◌, Bool-cases, if◌then◌else◌,
}
use intrusive.Machine.{Ptr, null, ok, ◌>>=◌}
use intrusive.BsTree.{Nodes, get_left, get_right}
use intrusive.BsTree.Access.{get_left-ok, get_right-ok, get_parent-ok}
use intrusive.BsTree.Shape.{Tree, leaf, node, inorder, times, root_of, top, Sub, ne_of_pos}
use intrusive.BsTree.Hang.{Standing}
use intrusive.BsTree.Search.{
  lower_bound_loop, upper_bound_loop, bounded_loop, bounded_range, equal_range,
}
use intrusive.BsTree.Order.{
  depth_of, Falls, first_false, Falls-left, Falls-right, first_false-left, first_false-right,
}
use intrusive.BsTree.Bounds.{lower_bound_loop-first, upper_bound_loop-lower}

-- What the comparisons with the two ends of a range say of a node: it does not lie in front of
-- the lower key and behind the upper key at once, and on either side the other tests agree.
pub record IsRange (below above above_lower below_upper : Ptr → Bool) : Type 0 where
  pub in_front :
      (x : Ptr)
      → below x ≡ true
      → (above x ≡ false) × (above_lower x ≡ false) × (below_upper x ≡ true)
  pub behind :
      (x : Ptr)
      → above x ≡ true
      → (below x ≡ false) × (above_lower x ≡ true) × (below_upper x ≡ false)

-- The lower bound of the lower key, or its upper bound if this end is open; and the upper bound of
-- the upper key, or its lower bound if this end is open.
abbrev pub range_start : (below above_lower : Ptr → Bool) → Bool → List Ptr → Ptr → Ptr
range_start below above_lower true xs y = first_false below xs y
range_start below above_lower false xs y = first_false (λ x. not (above_lower x)) xs y

abbrev pub range_end : (above below_upper : Ptr → Bool) → Bool → List Ptr → Ptr → Ptr
range_end above below_upper true xs y = first_false (λ x. not (above x)) xs y
range_end above below_upper false xs y = first_false below_upper xs y

not_of : {b c : Bool} → b ≡ c → not b ≡ not c
not_of e = ap not e

Bool-not : {b : Bool} → (b ≡ true → ⊥) → b ≡ false
Bool-not f = ground arith

module _ (below above above_lower below_upper : Ptr → Bool) where
  -- The four tests order the nodes.
  pub record IsOrdered (xs : List Ptr) : Type 0 where
    pub by_below : Falls below xs
    pub by_above : Falls (λ x. not (above x)) xs
    pub by_above_lower : Falls (λ x. not (above_lower x)) xs
    pub by_below_upper : Falls below_upper xs

  IsOrdered-left :
      (l : Tree) (x : Ptr) (r : Tree) → IsOrdered (inorder (node l x r)) → IsOrdered (inorder l)
  IsOrdered-left l x r o = record {
    by_below = Falls-left below l x r o.by_below;
    by_above = Falls-left (λ x. not (above x)) l x r o.by_above;
    by_above_lower = Falls-left (λ x. not (above_lower x)) l x r o.by_above_lower;
    by_below_upper = Falls-left below_upper l x r o.by_below_upper;
  }

  IsOrdered-right :
      (l : Tree) (x : Ptr) (r : Tree) → IsOrdered (inorder (node l x r)) → IsOrdered (inorder r)
  IsOrdered-right l x r o = record {
    by_below = Falls-right below l x r o.by_below;
    by_above = Falls-right (λ x. not (above x)) l x r o.by_above;
    by_above_lower = Falls-right (λ x. not (above_lower x)) l x r o.by_above_lower;
    by_below_upper = Falls-right below_upper l x r o.by_below_upper;
  }

  module _ (range : IsRange below above above_lower below_upper) where
    start-right :
        (lc : Bool) (l : Tree) (x : Ptr) (r : Tree) (y : Ptr)
        → IsOrdered (inorder (node l x r))
        → below x ≡ true
        → range_start below above_lower lc (inorder (node l x r)) y
          ≡ range_start below above_lower lc (inorder r) y
    start-right true l x r y o e = first_false-right below l x r y o.by_below e
    start-right false l x r y o e =
        first_false-right (λ x. not (above_lower x)) l x r y o.by_above_lower
          (not_of (range.in_front x e).1)

    end-right :
        (rc : Bool) (l : Tree) (x : Ptr) (r : Tree) (y : Ptr)
        → IsOrdered (inorder (node l x r))
        → below x ≡ true
        → range_end above below_upper rc (inorder (node l x r)) y
          ≡ range_end above below_upper rc (inorder r) y
    end-right true l x r y o e =
        first_false-right (λ x. not (above x)) l x r y o.by_above (not_of (range.in_front x e).0)
    end-right false l x r y o e =
        first_false-right below_upper l x r y o.by_below_upper (range.in_front x e).2

    start-left :
        (lc : Bool) (l : Tree) (x : Ptr) (r : Tree) (y : Ptr)
        → above x ≡ true
        → range_start below above_lower lc (inorder (node l x r)) y
          ≡ range_start below above_lower lc (inorder l) x
    start-left true l x r y e = first_false-left below l x r y (range.behind x e).0
    start-left false l x r y e =
        first_false-left (λ x. not (above_lower x)) l x r y (not_of (range.behind x e).1)

    end-left :
        (rc : Bool) (l : Tree) (x : Ptr) (r : Tree) (y : Ptr)
        → above x ≡ true
        → range_end above below_upper rc (inorder (node l x r)) y
          ≡ range_end above below_upper rc (inorder l) x
    end-left true l x r y e = first_false-left (λ x. not (above x)) l x r y (not_of e)
    end-left false l x r y e = first_false-left below_upper l x r y (range.behind x e).2

  module _ {X : Type 0} {h : Nodes X} where
    -- The searches from a node inside of the range.
    start_inside :
        (lc : Bool) (k : ℕ) (p : Ptr) (l : Tree) (x : Ptr) (r : Tree) (y : Ptr)
        → Sub h p (node l x r)
        → times null (node l x r) ≡ 0
        → IsOrdered (inorder (node l x r))
        → depth_of (node l x r) < suc k
        → below x ≡ false
        → (if lc
              then (do l' ← get_left x; lower_bound_loop below k l' x)
              else upper_bound_loop above_lower (suc k) x y)
            h
          ≡ ok (range_start below above_lower lc (inorder (node l x r)) y) h
    start_inside true k p l x r y s z o e b =
        let x0 : x ≢ null = ne_of_pos (λ a. hit a x) x null (omega (arith, z)) (ground arith) in
        rw (get_left-ok x h x0, s.1, first_false-left below l x r y b)
          (lower_bound_loop-first below k x l x s.3 (omega (arith, z))
            (Falls-left below l x r o.by_below) (omega (arith, e)))
    start_inside false k p l x r y s z o e b =
        upper_bound_loop-lower h above_lower (suc k) x y
        ∙ lower_bound_loop-first (λ x. not (above_lower x)) (suc k) p (node l x r) y s z
            o.by_above_lower e

    end_inside :
        (rc : Bool) (k : ℕ) (p : Ptr) (l : Tree) (x : Ptr) (r : Tree) (y : Ptr)
        → Sub h p (node l x r)
        → times null (node l x r) ≡ 0
        → IsOrdered (inorder (node l x r))
        → depth_of (node l x r) < suc k
        → above x ≡ false
        → (if rc
              then (do r' ← get_right x; upper_bound_loop above k r' y)
              else lower_bound_loop below_upper (suc k) x y)
            h
          ≡ ok (range_end above below_upper rc (inorder (node l x r)) y) h
    end_inside true k p l x r y s z o e b =
        let x0 : x ≢ null = ne_of_pos (λ a. hit a x) x null (omega (arith, z)) (ground arith) in
        rw
          (
            get_right-ok x h x0,
            s.2,
            first_false-right (λ x. not (above x)) l x r y o.by_above (not_of b),
          )
          (upper_bound_loop-lower h above k (root_of r) y
            ∙ lower_bound_loop-first (λ x. not (above x)) k x r y s.4 (omega (arith, z))
                (Falls-right (λ x. not (above x)) l x r o.by_above) (omega (arith, e)))
    end_inside false k p l x r y s z o e b =
        lower_bound_loop-first below_upper (suc k) p (node l x r) y s z o.by_below_upper e

    bounded_loop-ends :
        IsRange below above above_lower below_upper
        → (lc rc : Bool) (k : ℕ) (p : Ptr) (t : Tree) (y : Ptr) → Sub h p t
        → times null t ≡ 0
        → IsOrdered (inorder t)
        → depth_of t < k
        → bounded_loop below above above_lower below_upper lc rc k (root_of t) y h
          ≡ ok
              (
                range_start below above_lower lc (inorder t) y,
                range_end above below_upper rc (inorder t) y,
              )
              h
    unfolding bounded_loop
    bounded_loop-ends range lc rc zero p t y s z o e = absurd (omega (arith, e))
    bounded_loop-ends range true true (suc k) p leaf y s z o e = refl
    bounded_loop-ends range true false (suc k) p leaf y s z o e = refl
    bounded_loop-ends range false true (suc k) p leaf y s z o e = refl
    bounded_loop-ends range false false (suc k) p leaf y s z o e = refl
    bounded_loop-ends range lc rc (suc k) p (node l x r) y s z o e =
        let x0 : x ≢ null = ne_of_pos (λ a. hit a x) x null (omega (arith, z)) (ground arith) in
        let live : (x == null) ≡ false = ground arith in
        rw live (elim (Bool-cases (below x)) [
          | inl b ↦
              rw
                (
                  b,
                  get_right-ok x h x0,
                  s.2,
                  start-right range lc l x r y o b,
                  end-right range rc l x r y o b,
                )
                (bounded_loop-ends range lc rc k x r y s.4 (omega (arith, z))
                  (IsOrdered-right l x r o) (omega (arith, e)))
          | inr b ↦ elim (Bool-cases (above x)) [
            | inl a ↦
                rw
                  (
                    b,
                    a,
                    get_left-ok x h x0,
                    s.1,
                    start-left range lc l x r y a,
                    end-left range rc l x r y a,
                  )
                  (bounded_loop-ends range lc rc k x l x s.3 (omega (arith, z))
                    (IsOrdered-left l x r o) (omega (arith, e)))
            | inr a ↦
                rw
                  (b, a, start_inside lc k p l x r y s z o e b, end_inside rc k p l x r y s z o e a)
          ]
        ])

    -- With fuel for each level and one round more, `bounded_range` ends with the two nodes that the
    -- documentation names, by the searches for each key alone: the lower bound of the lower key if
    -- that end is closed, else its upper bound, and the upper bound of the upper key if that end is
    -- closed, else its lower bound.
    pub bounded_range-ends :
        {header : Ptr} (t : Tree) (lc rc : Bool) (fuel : ℕ)
        → IsRange below above above_lower below_upper
        → Standing h header top t
        → IsOrdered (inorder t)
        → depth_of t < fuel
        → bounded_range below above above_lower below_upper lc rc fuel header h
          ≡ ok
              (
                range_start below above_lower lc (inorder t) header,
                range_end above below_upper rc (inorder t) header,
              )
              h
    unfolding bounded_range
    bounded_range-ends {header} t lc rc fuel range s o e =
        let h0 : header ≢ null =
          ne_of_pos (λ a. hit a header) header null (omega (arith, s.nonnull)) (ground arith) in
        rw (get_parent-ok header h h0, s.around)
          (bounded_loop-ends range lc rc fuel header t header s.sub (omega (arith, s.nonnull)) o e)

-- With fuel for each level and one round more, `equal_range` ends with the first node that is not
-- less than the key and the first one that is greater, the header standing for the end of the tree,
-- in a tree whose nodes less than the key come first and those greater than it last, none being
-- both; the store is as before.
pub equal_range-ends :
    {X : Type 0} {h : Nodes X} {header : Ptr} (less greater : Ptr → Bool) (t : Tree) (fuel : ℕ)
    → ((x : Ptr) → less x ≡ true → greater x ≡ false)
    → Standing h header top t
    → Falls less (inorder t)
    → Falls (λ x. not (greater x)) (inorder t)
    → depth_of t < fuel
    → equal_range less greater fuel header h
      ≡ ok
          (
            first_false less (inorder t) header,
            first_false (λ x. not (greater x)) (inorder t) header,
          )
          h
unfolding equal_range
equal_range-ends less greater t fuel apart s fl fg e =
    bounded_range-ends less greater greater less t true true fuel
      (record {
        in_front = λ x b. (apart x b, apart x b, b);
        behind = λ x b.
            let c = apart x in
            (Bool-not (λ d. ground (arith, c d)), b, Bool-not (λ d. ground (arith, c d)));
      })
      s (record { by_below = fl; by_above = fg; by_above_lower = fg; by_below_upper = fl }) e
