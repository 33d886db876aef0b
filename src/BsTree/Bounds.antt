-- ===== src/BsTree/Bounds.antt =====
-- The searches find what they promise: bounds of a key among the nodes in their order.
use intrusive.Base.{
  ℕ, zero, suc, ◌<◌, ◌≡◌, ◌≢◌, refl, inl, inr, ◌∷◌, arith, hit, Bool, false, not, ◌==◌, Bool-cases,
}
use intrusive.Machine.{Ptr, null, ok}
use intrusive.BsTree.{Nodes, get_left, get_right}
use intrusive.BsTree.Access.{get_left-ok, get_right-ok, get_parent-ok}
use intrusive.BsTree.Shape.{Tree, leaf, node, inorder, times, root_of, top, Sub, ne_of_pos}
use intrusive.BsTree.Hang.{Standing}
use intrusive.BsTree.Search.{lower_bound_loop, upper_bound_loop, lower_bound, upper_bound}
use intrusive.BsTree.Order.{
  depth_of, Falls, Falls-front, Falls-behind, Falls-AllTrue, first_false, first_false-true,
  first_false-stop,
}

module _ {X : Type 0} where
  pub lower_bound_loop-first :
      {h : Nodes X} (less : Ptr → Bool) (k : ℕ) (p : Ptr) (t : Tree) (y : Ptr)
      → Sub h p t
      → times null t ≡ 0
      → Falls less (inorder t)
      → depth_of t < k
      → lower_bound_loop less k (root_of t) y h ≡ ok (first_false less (inorder t) y) h
  unfolding lower_bound_loop
  lower_bound_loop-first less zero p t y s z f e = absurd (omega (arith, e))
  lower_bound_loop-first less (suc k) p leaf y s z f e = refl
  lower_bound_loop-first {h} less (suc k) p (node l x r) y s z f e =
      let x0 : x ≢ null = ne_of_pos (λ a. hit a x) x null (omega (arith, z)) (ground arith) in
      let live : (x == null) ≡ false = ground arith in
      rw live (elim (Bool-cases (less x)) [
        | inl b ↦
            rw
              (
                b,
                get_right-ok x h x0,
                s.2,
                first_false-true less (inorder l) (x ∷ inorder r) y
                    (Falls-AllTrue less (inorder l) x (inorder r) f b),
                b,
              )
              (lower_bound_loop-first less k x r y s.4 (omega (arith, z))
                (Falls-behind less (inorder l) (x ∷ inorder r) f).1 (omega (arith, e)))
        | inr b ↦
            rw (b, get_left-ok x h x0, s.1, first_false-stop less (inorder l) x (inorder r) y b)
              (lower_bound_loop-first less k x l x s.3 (omega (arith, z))
                (Falls-front less (inorder l) (x ∷ inorder r) f) (omega (arith, e)))
      ])

  -- The upper bound is the lower bound of another test.
  pub upper_bound_loop-lower :
      (h : Nodes X) (greater : Ptr → Bool) (k : ℕ) (x y : Ptr)
      → upper_bound_loop greater k x y h ≡ lower_bound_loop (λ a. not (greater a)) k x y h
  unfolding upper_bound_loop lower_bound_loop get_left get_right
  upper_bound_loop-lower h greater zero x y = refl
  upper_bound_loop-lower h greater (suc k) x y = elim (Bool-cases (greater x)) [
    | inl b ↦ rw b (ground (arith, upper_bound_loop-lower h greater k (h.left x) x))
    | inr b ↦ rw b (ground (arith, upper_bound_loop-lower h greater k (h.right x) y))
  ]

  module _ {h : Nodes X} {header : Ptr} (t : Tree) (s : Standing h header top t) (fuel : ℕ)
      (enough : depth_of t < fuel) where
    header0 : header ≢ null
    header0 = ne_of_pos (λ a. hit a header) header null (omega (arith, s.nonnull)) (ground arith)

    -- With fuel for each level and one round more, `lower_bound` ends with the first node that is not less than the
    -- key, or the header if all are less, in a tree whose nodes less than the key come first.
    pub lower_bound-first :
        (less : Ptr → Bool)
        → Falls less (inorder t)
        → lower_bound less fuel header h ≡ ok (first_false less (inorder t) header) h
    unfolding lower_bound
    lower_bound-first less f =
        rw (get_parent-ok header h header0, s.around)
          (lower_bound_loop-first less fuel header t header s.sub (omega (arith, s.nonnull)) f
            enough)

    -- With fuel for each level and one round more, `upper_bound` ends with the first node that is greater than the
    -- key, or the header if none is, in a tree whose nodes greater than the key come last.
    pub upper_bound-first :
        (greater : Ptr → Bool)
        → Falls (λ x. not (greater x)) (inorder t)
        → upper_bound greater fuel header h
          ≡ ok (first_false (λ x. not (greater x)) (inorder t) header) h
    unfolding upper_bound
    upper_bound-first greater f =
        rw
          (
            get_parent-ok header h header0,
            s.around,
            upper_bound_loop-lower h greater fuel (root_of t) header,
          )
          (lower_bound_loop-first (λ x. not (greater x)) fuel header t header s.sub
            (omega (arith, s.nonnull)) f enough)
