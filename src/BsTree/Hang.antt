-- ===== src/BsTree/Hang.antt =====
-- `set_child`: a subtree is hung into the place of another one.
use intrusive.Base.{◌+◌, ◌≤◌, ◌≡◌, ◌≢◌, refl, ◌∙◌, arith, hit, Bool, true, false, ◌==◌}
use intrusive.Machine.{Ptr, null, Returns, returns, update}
use intrusive.BsTree.{Nodes, set_child}
use intrusive.BsTree.Shape.{
  Tree, node, times, root_of, PathUp, top, left_of, right_of, times_up, above, Sub, Around, SameAt,
  Sub-frame, Around-frame,
}

-- Whether the place is that of a left child; for the root it does not matter.
abbrev pub Side : PathUp → Bool → Type 0
Side top b = Unit {0}
Side (left_of c x r) b = b ≡ true
Side (right_of l x c) b = b ≡ false

module _ {X : Type 0} where
  -- `g` is `h` but for the links from above to the place.
  pub record Hung (h g : Nodes X) (header : Ptr) (c : PathUp) : Type 0 where
    pub parent : (a : Ptr) → a ≢ header → g.parent a ≡ h.parent a
    pub left : (a : Ptr) → times_up a c ≡ 0 → g.left a ≡ h.left a
    pub right : (a : Ptr) → times_up a c ≡ 0 → g.right a ≡ h.right a
    pub tag : (a : Ptr) → g.tag a ≡ h.tag a

  pub set_child-Around :
      {h : Nodes X} (header : Ptr) (c : PathUp) (q0 q : Ptr) (b : Bool)
      → Around h header c q0
      → Side c b
      → ((a : Ptr) → hit a header + times_up a c ≤ 1)
      → hit null header + times_up null c ≡ 0
      → Returns
          (λ _ g. Around g header c q × Hung h g header c)
          (set_child header q (above header c) b h)
  unfolding set_child
  set_child-Around {h} header top q0 q b s side d n =
      let e : (header == header) ≡ true = ground arith in
      let m : (header == null) ≡ false = ground arith in
      rw (e, m)
        (returns (
          ground arith,
          record {
            parent = ground arith;
            left = λ a o. refl;
            right = λ a o. refl;
            tag = λ a. refl;
          },
        ))
  set_child-Around {h} header (left_of c x r) q0 q b s side d n =
      let e : (x == header) ≡ false = ground (arith, d x) in
      let m : (x == null) ≡ false = ground arith in
      let g = record h { left = update h.left x q } in
      rw (e, side, m)
        (returns {s = g} (
          (
            s.0,
            ground arith,
            s.2,
            Sub-frame h g x r s.3 (λ a o. ground (arith, d a)),
            Around-frame h g header c x s.4 (λ a o. ground (arith, d a)) refl,
          ),
          record {
            parent = λ a o. refl;
            left = λ a o. ground arith;
            right = λ a o. refl;
            tag = λ a. refl;
          },
        ))
  set_child-Around {h} header (right_of l x c) q0 q b s side d n =
      let e : (x == header) ≡ false = ground (arith, d x) in
      let m : (x == null) ≡ false = ground arith in
      let g = record h { right = update h.right x q } in
      rw (e, side, m)
        (returns {s = g} (
          (
            s.0,
            ground arith,
            s.2,
            Sub-frame h g x l s.3 (λ a o. ground (arith, d a)),
            Around-frame h g header c x s.4 (λ a o. ground (arith, d a)) refl,
          ),
          record {
            parent = λ a o. refl;
            left = λ a o. refl;
            right = λ a o. ground arith;
            tag = λ a. refl;
          },
        ))

  -- The subtree `t` stands in the surroundings `c`, in the tree of `header`.
  pub record Standing (h : Nodes X) (header : Ptr) (c : PathUp) (t : Tree) : Type 0 where
    pub around : Around h header c (root_of t)
    pub sub : Sub h (above header c) t
    pub distinct : (a : Ptr) → hit a header + times_up a c + times a t ≤ 1
    pub nonnull : hit null header + times_up null c + times null t ≡ 0

  -- The header's leftmost and rightmost nodes, and the further field of all nodes, have not changed.
  pub record Spared (h g : Nodes X) (header : Ptr) : Type 0 where
    pub leftmost : g.left header ≡ h.left header
    pub rightmost : g.right header ≡ h.right header
    pub tag : (a : Ptr) → g.tag a ≡ h.tag a

  pub Hung-Spared :
      {h k g : Nodes X} {header : Ptr} {c : PathUp}
      → SameAt h k header
      → ((a : Ptr) → k.tag a ≡ h.tag a)
      → Hung k g header c
      → times_up header c ≡ 0
      → Spared h g header
  Hung-Spared {header} e t hung z = record {
    leftmost = hung.left header z ∙ e.1;
    rightmost = hung.right header z ∙ e.2;
    tag = λ a. hung.tag a ∙ t a;
  }

  -- A step down to a child, and back up.
  pub Standing-left :
      {h : Nodes X} {header : Ptr} (c : PathUp) (l : Tree) (x : Ptr) (r : Tree)
      → Standing h header c (node l x r)
      → Standing h header (left_of c x r) l
  Standing-left c l x r s = record {
    around = (s.sub.0, s.sub.1, s.sub.2, s.sub.4, s.around);
    sub = s.sub.3;
    distinct = λ a. omega (arith, s.distinct a);
    nonnull = omega (arith, s.nonnull);
  }

  pub Standing-right :
      {h : Nodes X} {header : Ptr} (c : PathUp) (l : Tree) (x : Ptr) (r : Tree)
      → Standing h header c (node l x r)
      → Standing h header (right_of l x c) r
  Standing-right c l x r s = record {
    around = (s.sub.0, s.sub.2, s.sub.1, s.sub.3, s.around);
    sub = s.sub.4;
    distinct = λ a. omega (arith, s.distinct a);
    nonnull = omega (arith, s.nonnull);
  }

  pub Standing-up_left :
      {h : Nodes X} {header : Ptr} (c : PathUp) (l : Tree) (x : Ptr) (r : Tree)
      → Standing h header (left_of c x r) l
      → Standing h header c (node l x r)
  Standing-up_left c l x r s = record {
    around = s.around.4;
    sub = (s.around.0, s.around.1, s.around.2, s.sub, s.around.3);
    distinct = λ a. omega (arith, s.distinct a);
    nonnull = omega (arith, s.nonnull);
  }

  pub Standing-up_right :
      {h : Nodes X} {header : Ptr} (c : PathUp) (l : Tree) (x : Ptr) (r : Tree)
      → Standing h header (right_of l x c) r
      → Standing h header c (node l x r)
  Standing-up_right c l x r s = record {
    around = s.around.4;
    sub = (s.around.0, s.around.2, s.around.1, s.around.3, s.sub);
    distinct = λ a. omega (arith, s.distinct a);
    nonnull = omega (arith, s.nonnull);
  }

  -- The further fields do not matter.
  pub Standing-retag :
      {h : Nodes X} {header : Ptr} {c : PathUp} {t : Tree} (f : Ptr → X)
      → Standing h header c t
      → Standing (record h { tag = f }) header c t
  Standing-retag {h} {header} {c} {t} f s = record {
    around =
        Around-frame h (record h { tag = f }) header c (root_of t) s.around
          (λ a m. (refl, refl, refl)) refl;
    sub = Sub-frame h (record h { tag = f }) (above header c) t s.sub (λ a m. (refl, refl, refl));
    distinct = s.distinct;
    nonnull = s.nonnull;
  }

  pub Spared-trans :
      {h k g : Nodes X} {header : Ptr} → Spared h k header → Spared k g header → Spared h g header
  Spared-trans s t = record {
    leftmost = t.leftmost ∙ s.leftmost;
    rightmost = t.rightmost ∙ s.rightmost;
    tag = λ a. t.tag a ∙ s.tag a;
  }
