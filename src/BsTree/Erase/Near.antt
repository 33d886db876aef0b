-- ===== src/BsTree/Erase/Near.antt =====
-- The successor is the right child: it takes the place of the removed node.
use intrusive.Base.{◌≡◌, ◌≢◌, refl, ◌∙◌, arith, hit, Bool}
use intrusive.Machine.{Ptr, null, Returns, returns, Returns-bind, update}
use intrusive.BsTree.{Nodes}
use intrusive.BsTree.Access.{update-here, update-other}
use intrusive.BsTree.Shape.{
  Tree, leaf, node, root_of, PathUp, above, Sub, SameAt, Sub-frame, Sub-adopt, ne_of_hit, hit_self,
  ne_of_pos,
}
use intrusive.BsTree.Hang.{Side, Standing, Spared}
use intrusive.BsTree.Erase.{relink_successor}
use intrusive.BsTree.Erase.Relink.{moved_child, relink-moved_child}
use intrusive.BsTree.Erase.Lift.{rehang}

module _ {X : Type 0} {h : Nodes X} {header : Ptr} (c : PathUp) (ll : Tree) (v : Ptr) (lr : Tree)
    (z y : Ptr) (rest : Tree)
    (s : Standing h header c (node (node ll v lr) z (node leaf y rest))) where
  abbrev after_move : Nodes X
  after_move = moved_child h v (above header c) y

  unmoved : (a : Ptr) → a ≢ v → a ≢ y → SameAt h after_move a
  unmoved a av ay = (
    update-other (update h.parent v y) y (above header c) a ay ∙ update-other h.parent v y a av,
    update-other h.left y v a ay,
    refl,
  )

  left-Sub : Sub after_move y (node ll v lr)
  left-Sub =
      Sub-adopt h after_move z y (node ll v lr) s.sub.3
        (λ a i. (update-other h.left y v a (ne_of_hit (omega (arith, s.distinct a))), refl))
        (λ a i e. (unmoved a e (ne_of_hit (omega (arith, s.distinct a)))).0)
        (λ n.
          update-other (update h.parent v y) y (above header c) v
            (ne_of_hit (omega (arith, s.distinct v, hit_self v)))
          ∙ update-here h.parent v y)
        (λ a. omega (arith, s.distinct a)) (omega (arith, s.nonnull))

  pub relink_near-Standing :
      (b : Bool)
      → Side c b
      → Returns
          (λ p g. (p ≡ y) × Standing g header c (node (node ll v lr) y rest) × Spared h g header)
          (relink_successor header z v y (above header c) y (root_of rest) b h)
  relink_near-Standing b side =
      let v0 : v ≢ null =
        ne_of_pos (λ a. hit a v) v null (omega (arith, s.nonnull)) (omega (arith, hit_self v)) in
      let y0 : y ≢ null =
        ne_of_pos (λ a. hit a y) y null (omega (arith, s.nonnull)) (omega (arith, hit_self y)) in
      rw (relink-moved_child header h z v (above header c) y (root_of rest) b v0 y0) (
        Returns-bind
          (rehang c (node (node ll v lr) z (node leaf y rest)) (node (node ll v lr) y rest)
            after_move b s (λ a. omega arith)
            (λ a i.
              unmoved a (ne_of_hit (omega (arith, s.distinct a)))
                (ne_of_hit (omega (arith, s.distinct a))))
            (λ a. refl)
            (
              update-here (update h.parent v y) y (above header c),
              update-here h.left y v,
              s.sub.4.2,
              left-Sub,
              Sub-frame h after_move y rest s.sub.4.4 (λ a i.
                  unmoved a (ne_of_hit (omega (arith, s.distinct a)))
                    (ne_of_hit (omega (arith, s.distinct a)))),
            )
            side)
          λ _ g done. returns (refl, done.0, done.1))
