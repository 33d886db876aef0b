-- ===== src/BsTree/TurnRight.antt =====
-- The rotation to the right keeps the order of the nodes, and the surroundings of the subtree.
use intrusive.Base.{◌+◌, ◌≤◌, ◌≡◌, ◌≢◌, refl, ◌∙◌, inl, inr, arith, hit, ◌==◌}
use intrusive.Machine.{Ptr, null, Returns, Returns-imp, ok, update}
use intrusive.BsTree.{Nodes}
use intrusive.BsTree.Rotate.{rotate_right_no_parent_fix, rotate_right}
use intrusive.BsTree.Access.{get_left-ok, set_parent-ok}
use intrusive.BsTree.Shape.{
  Tree, node, times, root_of, PathUp, times_up, above, Sub, Around, SameAt, Sub-frame, Around-frame,
  Sub-adopt, root-times, root-ne, ne_of_hit, hit_self, ne_of_pos,
}
use intrusive.BsTree.Hang.{set_child-Around, Standing, Spared, Hung-Spared}
use intrusive.BsTree.Turn.{adopt, above_ne, Side-of}

module _ {X : Type 0} where
  abbrev pub turned_right : (p q : Ptr) → Nodes X → Nodes X
  turned_right p q h = record h {
    right = update h.right q p;
    left = update h.left p (h.right q);
    parent = update (adopt h.parent (h.right q) p) p q;
  }

  pub turn_right-ok :
      (p q : Ptr) (h : Nodes X)
      → p ≢ null
      → q ≢ null
      → rotate_right_no_parent_fix p q h ≡ ok tt (turned_right p q h)
  unfolding rotate_right_no_parent_fix
  turn_right-ok p q h n m = ground arith

  -- The store after the rotation, but for the link from above.
  abbrev pub spun_right : (p q u : Ptr) → Nodes X → Nodes X
  spun_right p q u h = let h1 = turned_right p q h in record h1 { parent = update h1.parent q u }

  spun_right-SameAt :
      (h : Nodes X) (p q u : Ptr) (b : Tree) (z : Ptr)
      → h.right q ≡ root_of b
      → z ≢ p
      → z ≢ q
      → z ≢ root_of b
      → SameAt h (spun_right p q u h) z
  spun_right-SameAt h p q u b z e np nq nb = ground arith

  spun_right-adopted :
      (h : Nodes X) (p q u : Ptr) (b : Tree) (z : Ptr)
      → h.right q ≡ root_of b
      → z ≢ p
      → z ≢ q
      → ((spun_right p q u h).left z ≡ h.left z)
        × ((spun_right p q u h).right z ≡ h.right z)
        × (z ≢ root_of b → (spun_right p q u h).parent z ≡ h.parent z)
        × (root_of b ≢ null → z ≡ root_of b → (spun_right p q u h).parent z ≡ p)
  spun_right-adopted h p q u b z e np nq = (ground arith, ground arith, ground arith, ground arith)

  spun_right-SameAt_p :
      (h : Nodes X) (p q u : Ptr) (b : Tree)
      → h.right q ≡ root_of b
      → p ≢ q
      → p ≢ root_of b
      → ((spun_right p q u h).parent p ≡ q)
        × ((spun_right p q u h).right p ≡ h.right p)
        × ((spun_right p q u h).left p ≡ root_of b)
  spun_right-SameAt_p h p q u b e n m = (ground arith, ground arith, ground arith)

  spun_right-SameAt_q :
      (h : Nodes X) (p q u : Ptr)
      → p ≢ q
      → ((spun_right p q u h).parent q ≡ u)
        × ((spun_right p q u h).right q ≡ p)
        × ((spun_right p q u h).left q ≡ h.left q)
  spun_right-SameAt_q h p q u n = (ground arith, ground arith, ground arith)

  module _ {h : Nodes X} {header : Ptr} (c : PathUp) (a : Tree) (p : Ptr) (b : Tree) (q : Ptr)
      (d : Tree) (s : Standing h header c (node (node d q b) p a)) where
    abbrev spun : Nodes X
    spun = spun_right p q (above header c) h

    middle : h.right q ≡ root_of b
    middle = s.sub.3.2

    -- A node that is not among the two, nor in the tree that changes its parent, has not changed.
    other-SameAt :
        (z : Ptr) → hit z p ≡ 0 → hit z q ≡ 0 → times z b ≡ 0 → z ≢ null → SameAt h spun z
    other-SameAt z m n o k =
        spun_right-SameAt h p q (above header c) b z middle (ne_of_hit m) (ne_of_hit n)
          (root-ne b z o k)

    ne_null :
        (z : Ptr) → 1 ≤ hit z header + times_up z c + times z (node (node d q b) p a) → z ≢ null
    ne_null z m =
        ne_of_pos (λ y. hit y header + times_up y c + times y (node (node d q b) p a)) z null
          s.nonnull m

    spun-header : SameAt h spun header
    spun-header =
        let one = hit_self header in
        let d = s.distinct header in
        other-SameAt header (omega (arith, d, one)) (omega (arith, d, one)) (omega (arith, d, one))
          (ne_null header (omega (arith, one)))

    spun-Around : Around spun header c p
    spun-Around =
        Around-frame h spun header c p s.around
          (λ z m.
            other-SameAt z (omega (arith, s.distinct z)) (omega (arith, s.distinct z))
              (omega (arith, s.distinct z)) (ne_null z (omega arith)))
          spun-header.0

    spun-Sub : Sub spun (above header c) (node d q (node b p a))
    spun-Sub =
        let hp = hit_self p in
        let dp = s.distinct p in
        let at_p =
          spun_right-SameAt_p h p q (above header c) b middle (ne_of_hit (omega (arith, dp, hp)))
            (root-ne b p (omega (arith, dp, hp)) (ne_null p (omega (arith, hp)))) in
        let at_q = spun_right-SameAt_q h p q (above header c) (ne_of_hit (omega (arith, dp, hp))) in
        (
          at_q.0,
          at_q.2 ∙ s.sub.3.1,
          at_q.1,
          Sub-frame h spun q d s.sub.3.3 (λ z m.
              other-SameAt z (omega (arith, s.distinct z)) (omega (arith, s.distinct z))
                (omega (arith, s.distinct z)) (ne_null z (omega arith))),
          (
            at_p.0,
            at_p.2,
            at_p.1 ∙ s.sub.2,
            Sub-adopt h spun q p b s.sub.3.4 (λ z m. let k = adopted z m in (k.0, k.1))
                (λ z m n. (adopted z m).2 n) (λ n. root-cases n) (λ z. omega (arith, s.distinct z))
                (omega (arith, s.nonnull)),
            Sub-frame h spun p a s.sub.4 (λ z m.
                other-SameAt z (omega (arith, s.distinct z)) (omega (arith, s.distinct z))
                  (omega (arith, s.distinct z)) (ne_null z (omega arith))),
          ),
        )
      where
        adopted :
            (z : Ptr)
            → 1 ≤ times z b
            → (spun.left z ≡ h.left z)
              × (spun.right z ≡ h.right z)
              × (z ≢ root_of b → spun.parent z ≡ h.parent z)
              × (root_of b ≢ null → z ≡ root_of b → spun.parent z ≡ p)
        adopted z m =
            spun_right-adopted h p q (above header c) b z middle
              (ne_of_hit (omega (arith, s.distinct z))) (ne_of_hit (omega (arith, s.distinct z)))

        root-cases : root_of b ≢ null → spun.parent (root_of b) ≡ p
        root-cases n = elim (root-times b) [
          | inl e ↦ absurd (n e)
          | inr m ↦ (adopted (root_of b) m).3 n refl
        ]

  -- `rotate_right` at a node `p` with a left child `q`, anywhere in a tree: the subtree becomes
  -- that of `q` with `p` as its right child, the same nodes in the same order, its surroundings
  -- stay, and the header's leftmost and rightmost nodes and the further fields of all nodes are
  -- as before.
  pub rotate_right-Standing :
      {h : Nodes X} {header : Ptr} (c : PathUp) (a : Tree) (p : Ptr) (b : Tree) (q : Ptr) (d : Tree)
      → Standing h header c (node (node d q b) p a)
      → Returns
          (λ _ g. Standing g header c (node d q (node b p a)) × Spared h g header)
          (rotate_right p q (above header c) header h)
  unfolding rotate_right
  rotate_right-Standing {h} {header} c a p b q d s =
      let np : p ≢ null = ground (arith, s.nonnull) in
      let nq : q ≢ null = ground (arith, s.nonnull) in
      let u = above header c in
      rw
        (
          get_left-ok u h (above_ne c s),
          turn_right-ok p q h np nq,
          set_parent-ok q u (turned_right p q h) nq,
        )
        (Returns-imp
          (set_child-Around {h = spun c a p b q d s} header c p q (h.left u == p)
            (spun-Around c a p b q d s) (Side-of c (node d q b) p a s)
            (λ z. omega (arith, s.distinct z)) (omega (arith, s.nonnull)))
          λ _ g (around, hung). (
            record {
              around = around;
              sub =
                  Sub-frame (spun c a p b q d s) g u (node d q (node b p a))
                    (spun-Sub c a p b q d s)
                    (λ z m. (
                      hung.parent z (ne_of_hit (omega (arith, s.distinct z))),
                      hung.left z (omega (arith, s.distinct z)),
                      hung.right z (omega (arith, s.distinct z)),
                    ));
              distinct = λ z. omega (arith, s.distinct z);
              nonnull = omega (arith, s.nonnull);
            },
            Hung-Spared (spun-header c a p b q d s) (λ z. refl) hung
                (omega (arith, s.distinct header, hit_self header)),
          ))
