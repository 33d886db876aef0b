-- ===== src/BsTree/TurnLeft.antt =====
-- The rotation to the left keeps the order of the nodes, and the surroundings of the subtree.
use intrusive.Base.{◌+◌, ◌≤◌, ◌≡◌, ◌≢◌, refl, ◌∙◌, inl, inr, arith, hit, ◌==◌}
use intrusive.Machine.{Ptr, null, Returns, Returns-imp, ok, update}
use intrusive.BsTree.{Nodes}
use intrusive.BsTree.Rotate.{rotate_left_no_parent_fix, rotate_left}
use intrusive.BsTree.Access.{get_left-ok, set_parent-ok}
use intrusive.BsTree.Shape.{
  Tree, node, times, root_of, PathUp, times_up, above, Sub, Around, SameAt, Sub-frame, Around-frame,
  Sub-adopt, root-times, root-ne, ne_of_hit, hit_self, ne_of_pos,
}
use intrusive.BsTree.Hang.{set_child-Around, Standing, Spared, Hung-Spared}
use intrusive.BsTree.Turn.{adopt, above_ne, Side-of}

module _ {X : Type 0} where
  abbrev pub turned_left : (p q : Ptr) → Nodes X → Nodes X
  turned_left p q h = record h {
    left = update h.left q p;
    right = update h.right p (h.left q);
    parent = update (adopt h.parent (h.left q) p) p q;
  }

  pub turn_left-ok :
      (p q : Ptr) (h : Nodes X)
      → p ≢ null
      → q ≢ null
      → rotate_left_no_parent_fix p q h ≡ ok tt (turned_left p q h)
  unfolding rotate_left_no_parent_fix
  turn_left-ok p q h n m = ground arith

  -- The store after the rotation, but for the link from above.
  abbrev pub spun_left : (p q u : Ptr) → Nodes X → Nodes X
  spun_left p q u h = let h1 = turned_left p q h in record h1 { parent = update h1.parent q u }

  spun_left-SameAt :
      (h : Nodes X) (p q u : Ptr) (b : Tree) (z : Ptr)
      → h.left q ≡ root_of b
      → z ≢ p
      → z ≢ q
      → z ≢ root_of b
      → SameAt h (spun_left p q u h) z
  spun_left-SameAt h p q u b z e np nq nb = ground arith

  spun_left-adopted :
      (h : Nodes X) (p q u : Ptr) (b : Tree) (z : Ptr)
      → h.left q ≡ root_of b
      → z ≢ p
      → z ≢ q
      → ((spun_left p q u h).left z ≡ h.left z)
        × ((spun_left p q u h).right z ≡ h.right z)
        × (z ≢ root_of b → (spun_left p q u h).parent z ≡ h.parent z)
        × (root_of b ≢ null → z ≡ root_of b → (spun_left p q u h).parent z ≡ p)
  spun_left-adopted h p q u b z e np nq = (ground arith, ground arith, ground arith, ground arith)

  spun_left-SameAt_p :
      (h : Nodes X) (p q u : Ptr) (b : Tree)
      → h.left q ≡ root_of b
      → p ≢ q
      → p ≢ root_of b
      → ((spun_left p q u h).parent p ≡ q)
        × ((spun_left p q u h).left p ≡ h.left p)
        × ((spun_left p q u h).right p ≡ root_of b)
  spun_left-SameAt_p h p q u b e n m = (ground arith, ground arith, ground arith)

  spun_left-SameAt_q :
      (h : Nodes X) (p q u : Ptr)
      → p ≢ q
      → ((spun_left p q u h).parent q ≡ u)
        × ((spun_left p q u h).left q ≡ p)
        × ((spun_left p q u h).right q ≡ h.right q)
  spun_left-SameAt_q h p q u n = (ground arith, ground arith, ground arith)

  module _ {h : Nodes X} {header : Ptr} (c : PathUp) (a : Tree) (p : Ptr) (b : Tree) (q : Ptr)
      (d : Tree) (s : Standing h header c (node a p (node b q d))) where
    abbrev spun : Nodes X
    spun = spun_left p q (above header c) h

    middle : h.left q ≡ root_of b
    middle = s.sub.4.1

    -- A node that is not among the two, nor in the tree that changes its parent, has not changed.
    other-SameAt :
        (z : Ptr) → hit z p ≡ 0 → hit z q ≡ 0 → times z b ≡ 0 → z ≢ null → SameAt h spun z
    other-SameAt z m n o k =
        spun_left-SameAt h p q (above header c) b z middle (ne_of_hit m) (ne_of_hit n)
          (root-ne b z o k)

    ne_null :
        (z : Ptr) → 1 ≤ hit z header + times_up z c + times z (node a p (node b q d)) → z ≢ null
    ne_null z m =
        ne_of_pos (λ y. hit y header + times_up y c + times y (node a p (node b q d))) z null
          s.nonnull m

    spun-header : SameAt h spun header
    spun-header =
        let one = hit_self header in
        let d = s.distinct header in
        other-SameAt header (omega (arith, d, one)) (omega (arith, d, one)) (omega (arith, d, one))
          (ne_null header (omega (arith, one)))

    spun-Around : Around spun header c p
    spun-Around =
        Around-frame h spun header c p s.around
          (λ z m.
            other-SameAt z (omega (arith, s.distinct z)) (omega (arith, s.distinct z))
              (omega (arith, s.distinct z)) (ne_null z (omega arith)))
          spun-header.0

    spun-Sub : Sub spun (above header c) (node (node a p b) q d)
    spun-Sub =
        let hp = hit_self p in
        let dp = s.distinct p in
        let at_p =
          spun_left-SameAt_p h p q (above header c) b middle (ne_of_hit (omega (arith, dp, hp)))
            (root-ne b p (omega (arith, dp, hp)) (ne_null p (omega (arith, hp)))) in
        let at_q = spun_left-SameAt_q h p q (above header c) (ne_of_hit (omega (arith, dp, hp))) in
        (
          at_q.0,
          at_q.1,
          at_q.2 ∙ s.sub.4.2,
          (
            at_p.0,
            at_p.1 ∙ s.sub.1,
            at_p.2,
            Sub-frame h spun p a s.sub.3 (λ z m.
                other-SameAt z (omega (arith, s.distinct z)) (omega (arith, s.distinct z))
                  (omega (arith, s.distinct z)) (ne_null z (omega arith))),
            Sub-adopt h spun q p b s.sub.4.3 (λ z m. let k = adopted z m in (k.0, k.1))
                (λ z m n. (adopted z m).2 n) (λ n. root-cases n) (λ z. omega (arith, s.distinct z))
                (omega (arith, s.nonnull)),
          ),
          Sub-frame h spun q d s.sub.4.4 (λ z m.
              other-SameAt z (omega (arith, s.distinct z)) (omega (arith, s.distinct z))
                (omega (arith, s.distinct z)) (ne_null z (omega arith))),
        )
      where
        adopted :
            (z : Ptr)
            → 1 ≤ times z b
            → (spun.left z ≡ h.left z)
              × (spun.right z ≡ h.right z)
              × (z ≢ root_of b → spun.parent z ≡ h.parent z)
              × (root_of b ≢ null → z ≡ root_of b → spun.parent z ≡ p)
        adopted z m =
            spun_left-adopted h p q (above header c) b z middle
              (ne_of_hit (omega (arith, s.distinct z))) (ne_of_hit (omega (arith, s.distinct z)))

        root-cases : root_of b ≢ null → spun.parent (root_of b) ≡ p
        root-cases n = elim (root-times b) [
          | inl e ↦ absurd (n e)
          | inr m ↦ (adopted (root_of b) m).3 n refl
        ]

  -- `rotate_left` at a node `p` with a right child `q`, anywhere in a tree: the subtree becomes
  -- that of `q` with `p` as its left child, the same nodes in the same order, its surroundings
  -- stay, and the header's leftmost and rightmost nodes and the further fields of all nodes are
  -- as before.
  pub rotate_left-Standing :
      {h : Nodes X} {header : Ptr} (c : PathUp) (a : Tree) (p : Ptr) (b : Tree) (q : Ptr) (d : Tree)
      → Standing h header c (node a p (node b q d))
      → Returns
          (λ _ g. Standing g header c (node (node a p b) q d) × Spared h g header)
          (rotate_left p q (above header c) header h)
  unfolding rotate_left
  rotate_left-Standing {h} {header} c a p b q d s =
      let np : p ≢ null = ground (arith, s.nonnull) in
      let nq : q ≢ null = ground (arith, s.nonnull) in
      let u = above header c in
      rw
        (
          get_left-ok u h (above_ne c s),
          turn_left-ok p q h np nq,
          set_parent-ok q u (turned_left p q h) nq,
        )
        (Returns-imp
          (set_child-Around {h = spun c a p b q d s} header c p q (h.left u == p)
            (spun-Around c a p b q d s) (Side-of c a p (node b q d) s)
            (λ z. omega (arith, s.distinct z)) (omega (arith, s.nonnull)))
          λ _ g (around, hung). (
            record {
              around = around;
              sub =
                  Sub-frame (spun c a p b q d s) g u (node (node a p b) q d)
                    (spun-Sub c a p b q d s)
                    (λ z m. (
                      hung.parent z (ne_of_hit (omega (arith, s.distinct z))),
                      hung.left z (omega (arith, s.distinct z)),
                      hung.right z (omega (arith, s.distinct z)),
                    ));
              distinct = λ z. omega (arith, s.distinct z);
              nonnull = omega (arith, s.nonnull);
            },
            Hung-Spared (spun-header c a p b q d s) (λ z. refl) hung
                (omega (arith, s.distinct header, hit_self header)),
          ))
