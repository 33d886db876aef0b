-- ===== src/BsTree/Erase/Lift.antt =====
-- The first part of the removal of a node with at most one child: its subtree takes the node's
-- place.
use intrusive.Base.{◌+◌, ◌≤◌, ◌≡◌, ◌≢◌, refl, arith, hit, ◌==◌, not, Bool}
use intrusive.Machine.{Ptr, null, Returns, Returns-imp, ok, when}
use intrusive.BsTree.{Nodes, set_parent, set_child}
use intrusive.BsTree.Shape.{
  Tree, node, times, root_of, PathUp, times_up, above, Sub, SameAt, Sub-frame, Around-frame,
  Sub-adopt, root-ne, ne_of_hit, hit_self, ne_of_pos,
}
use intrusive.BsTree.Hang.{set_child-Around, Side, Standing, Spared, Hung-Spared}
use intrusive.BsTree.Turn.{adopt}

pub adopt-root : (f : Ptr → Ptr) (r p : Ptr) → r ≢ null → adopt f r p r ≡ p
adopt-root f r p e = ground arith

pub adopt-other : (f : Ptr → Ptr) (r p a : Ptr) → a ≢ r → adopt f r p a ≡ f a
adopt-other f r p a e = ground arith

module _ {X : Type 0} where
  pub adopt-ok :
      (r p : Ptr) (h : Nodes X)
      → when (not (r == null)) (set_parent r p) h ≡ ok tt (record h { parent = adopt h.parent r p })
  unfolding set_parent
  adopt-ok r p h = ground arith

  -- A subtree `t` is hung into the place of `t0`, whose nodes it is made of. Before, in `m`, it has
  -- its new form, and all outside of it is as in `h`.
  pub rehang :
      {h : Nodes X} {header : Ptr} (c : PathUp) (t0 t : Tree) (m : Nodes X) (b : Bool)
      → Standing h header c t0
      → ((a : Ptr) → times a t ≤ times a t0)
      → ((a : Ptr) → 1 ≤ hit a header + times_up a c → SameAt h m a)
      → ((a : Ptr) → m.tag a ≡ h.tag a)
      → Sub m (above header c) t
      → Side c b
      → Returns
          (λ _ g. Standing g header c t × Spared h g header)
          (set_child header (root_of t) (above header c) b m)
  rehang {h} {header} c t0 t m b s fewer same tag sub side =
      let at_header = same header (omega (arith, hit_self header)) in
      Returns-imp
        (set_child-Around {h = m} header c (root_of t0) (root_of t) b
          (Around-frame h m header c (root_of t0) s.around (λ a i. same a (omega (arith, i)))
            at_header.0)
          side (λ a. omega (arith, s.distinct a)) (omega (arith, s.nonnull)))
        λ _ g (around, hung). (
          record {
            around = around;
            sub = Sub-frame m g (above header c) t sub (λ a i. (
              hung.parent a (ne_of_hit (omega (arith, s.distinct a, fewer a))),
              hung.left a (omega (arith, s.distinct a, fewer a)),
              hung.right a (omega (arith, s.distinct a, fewer a)),
            ));
            distinct = λ a. omega (arith, s.distinct a, fewer a);
            nonnull = omega (arith, s.nonnull, fewer null);
          },
          Hung-Spared at_header tag hung (omega (arith, s.distinct header, hit_self header)),
        )

  module _ {h : Nodes X} {header : Ptr} (c : PathUp) (l : Tree) (z : Ptr) (r : Tree)
      (s : Standing h header c (node l z r)) (t : Tree) (hangs : Sub h z t)
      (part : (a : Ptr) → times a t ≤ times a l + times a r) where
    abbrev lifted : Nodes X
    lifted = record h { parent = adopt h.parent (root_of t) (above header c) }

    away : (a : Ptr) → 1 ≤ hit a header + times_up a c → a ≢ root_of t
    away a m =
        root-ne t a (omega (arith, s.distinct a, part a))
          (ne_of_pos (λ y. hit y header + times_up y c) a null (omega (arith, s.nonnull)) m)

    lifted-Sub : Sub lifted (above header c) t
    lifted-Sub =
        Sub-adopt h lifted z (above header c) t hangs (λ a m. (refl, refl))
          (λ a m n. adopt-other h.parent (root_of t) (above header c) a n)
          (λ n. adopt-root h.parent (root_of t) (above header c) n)
          (λ a. omega (arith, s.distinct a, part a)) (omega (arith, s.nonnull, part null))

    pub lift-Standing :
        (b : Bool)
        → Side c b
        → Returns
            (λ _ g. Standing g header c t × Spared h g header)
            (set_child header (root_of t) (above header c) b lifted)
    lift-Standing b side =
        rehang c (node l z r) t lifted b s (λ a. omega (arith, part a))
          (λ a i. (adopt-other h.parent (root_of t) (above header c) a (away a i), refl, refl))
          (λ a. refl) lifted-Sub side
