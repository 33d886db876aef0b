-- ===== src/BsTree/Erase/Far.antt =====
-- The successor stands further down in the right subtree: its right subtree takes its place there,
-- and it takes that of the removed node.
use intrusive.Base.{
  ◌+◌, ◌≤◌, ◌≡◌, ◌≢◌, refl, sym, ap, ◌∙◌, inl, inr, arith, hit, ◌==◌, Bool, if◌then◌else◌,
}
use intrusive.Machine.{Ptr, null, Returns, returns, Returns-bind, update}
use intrusive.BsTree.{Nodes}
use intrusive.BsTree.Access.{update-here, update-other}
use intrusive.BsTree.Shape.{
  Tree, leaf, node, times, root_of, PathUp, right_of, times_up, above, Sub, SameAt, Sub-adopt,
  root-times, root-ne, ne_of_hit, hit_self, ne_of_pos,
}
use intrusive.BsTree.Hang.{Side, Standing, Spared}
use intrusive.BsTree.Turn.{adopt}
use intrusive.BsTree.Erase.{relink_successor}
use intrusive.BsTree.Erase.Relink.{moved, relink-moved, moved-parent, moved-left, moved-right}
use intrusive.BsTree.Erase.Lift.{adopt-root, adopt-other, rehang}
use intrusive.BsTree.Erase.Spine.{
  Spine, under, extend, tree_of, times_in, times-tree_of, spine-Sub, parent_of, kept, root-tree_of,
  parent-ne, Renamed-Sub, child-only, Renamed,
}

module _ {X : Type 0} where
  module _ {h : Nodes X} {header : Ptr} (c : PathUp) (ll : Tree) (v : Ptr) (lr : Tree) (z : Ptr)
      (rl : Tree) (w : Ptr) (rr : Tree)
      (s : Standing h header c (node (node ll v lr) z (node rl w rr))) (ss : Spine) (x : Ptr)
      (m : Tree) (y : Ptr) (rest : Tree)
      (whole : tree_of (under ss x m) (node leaf y rest) ≡ node rl w rr)
      (stands : Standing h header
        (extend (right_of (node ll v lr) z c) (under ss x m))
        (node leaf y rest)) where
    abbrev after_move : Nodes X
    after_move = moved h v w (above header c) y (root_of rest) x

    abbrev l : Tree
    l = node ll v lr

    -- Where the nodes of the right subtree are.
    in_right :
        (a : Ptr)
        → times a (node rl w rr) ≡ times_in a ss + hit a x + times a m + hit a y + times a rest
    in_right a =
        omega (arith, ap (times a) (sym whole), times-tree_of a (under ss x m) (node leaf y rest))

    bound :
        (a : Ptr)
        → hit a header
            + times_up a c
            + times a l
            + hit a z
            + times_in a ss
            + hit a x
            + times a m
            + hit a y
            + times a rest
          ≤ 1
    bound a = omega (arith, s.distinct a, in_right a)

    none_null :
        hit null header
          + times_up null c
          + times null l
          + hit null z
          + times_in null ss
          + hit null x
          + times null m
          + hit null y
          + times null rest
        ≡ 0
    none_null = omega (arith, s.nonnull, in_right null)

    -- A node at another place than `y` and its right subtree.
    not_rest :
        (a : Ptr)
        → 1
          ≤ hit a header
            + times_up a c
            + times a l
            + hit a z
            + times_in a ss
            + hit a x
            + times a m
            + hit a y
        → a ≢ root_of rest
    not_rest a i = root-ne rest a (omega (arith, bound a)) (
        ne_of_pos
          (λ q.
            hit q header
            + times_up q c
            + times q l
            + hit q z
            + times_in q ss
            + hit q x
            + times q m
            + hit q y)
          a null (omega (arith, none_null)) i)

    right_parent :
        (a : Ptr)
        → 1 ≤ times_in a ss + hit a x + times a m
        → after_move.parent a ≡ (if h.parent a == z then y else h.parent a)
    right_parent a i =
        moved-parent h z v w (above header c) y (root_of rest) x a
          (ne_of_hit (omega (arith, bound a))) (not_rest a (omega (arith, i)))
          (ne_of_hit (omega (arith, bound a))) s.sub.4.0
          (child-only h z rl w rr s.sub.4 (omega (arith, bound z, in_right z, hit_self z)) a
            (omega (arith, in_right a, i)))

    spine-Renamed : (a : Ptr) → 1 ≤ times_in a ss + times a m → Renamed h after_move z y a
    spine-Renamed a i = (
      right_parent a (omega (arith, i)),
      moved-left h v w (above header c) y (root_of rest) x a (ne_of_hit (omega (arith, bound a)))
          (ne_of_hit (omega (arith, bound a))),
      moved-right h v w (above header c) y (root_of rest) x a (ne_of_hit (omega (arith, bound a))),
    )

    outside : (a : Ptr) → 1 ≤ hit a header + times_up a c → SameAt h after_move a
    outside a i = (
      update-other (adopt (update (update h.parent v y) w y) (root_of rest) x) y (above header c) a
            (ne_of_hit (omega (arith, bound a)))
          ∙ adopt-other (update (update h.parent v y) w y) (root_of rest) x a
              (not_rest a (omega (arith, i)))
          ∙ update-other (update h.parent v y) w y a (ne_of_hit (omega (arith, s.distinct a)))
          ∙ update-other h.parent v y a (ne_of_hit (omega (arith, bound a))),
      moved-left h v w (above header c) y (root_of rest) x a (ne_of_hit (omega (arith, bound a)))
          (ne_of_hit (omega (arith, bound a))),
      moved-right h v w (above header c) y (root_of rest) x a (ne_of_hit (omega (arith, bound a))),
    )

    -- The right subtree without the successor.
    abbrev remaining : Tree
    remaining = tree_of ss (node rest x m)

    rest-Sub : Sub after_move x rest
    rest-Sub =
        let yz : y ≢ z = ne_of_hit (omega (arith, bound y, hit_self y)) in
        Sub-adopt h after_move y x rest stands.sub.4
          (λ a i. (
            moved-left h v w (above header c) y (root_of rest) x a
                (ne_of_hit (omega (arith, bound a))) (ne_of_hit (omega (arith, bound a))),
            moved-right h v w (above header c) y (root_of rest) x a
                (ne_of_hit (omega (arith, bound a))),
          ))
          (λ a i e.
            moved-parent h z v w (above header c) y (root_of rest) x a
              (ne_of_hit (omega (arith, bound a))) e (ne_of_hit (omega (arith, bound a))) s.sub.4.0
              (λ n. parent-ne h z y rest stands.sub.4 yz (omega (arith, bound z, hit_self z)) a i)
            ∙ kept h y
                (parent-ne h z y rest stands.sub.4 yz (omega (arith, bound z, hit_self z)) a i))
          (λ n. root_parent n) (λ a. omega (arith, bound a)) (omega (arith, none_null))
      where
        root_parent : root_of rest ≢ null → after_move.parent (root_of rest) ≡ x
        root_parent n = elim (root-times rest) [
          | inl e ↦ absurd (n e)
          | inr i ↦
              update-other (adopt (update (update h.parent v y) w y) (root_of rest) x) y
                (above header c) (root_of rest) (ne_of_hit (omega (arith, bound (root_of rest), i)))
              ∙ adopt-root (update (update h.parent v y) w y) (root_of rest) x n
        ]

    remaining-Sub : Sub after_move y remaining
    remaining-Sub =
        let zm : times_in z ss + hit z x + times z m ≡ 0 = omega (arith, bound z, hit_self z) in
        let xz : x ≢ z = λ o. ne_of_hit {a = z} {x = x} (omega (arith, zm)) (sym o) in
        spine-Sub h after_move header c l z y ss (node rest x m) stands.around.4
          (
            right_parent x (omega (arith, hit_self x))
                ∙ parent_of h header c l z y x ss (omega (arith, zm)) stands.around.0,
            update-here (update h.left y v) x (root_of rest),
            moved-right h v w (above header c) y (root_of rest) x x
                  (ne_of_hit (omega (arith, bound x, hit_self x)))
                ∙ stands.around.2,
            rest-Sub,
            Renamed-Sub h after_move z y x m stands.around.3 xz (omega (arith, zm))
                (λ a i. spine-Renamed a (omega (arith, i))),
          )
          (λ a i. spine-Renamed a (omega (arith, i))) (omega (arith, zm))

    left-Sub : Sub after_move y l
    left-Sub =
        Sub-adopt h after_move z y l s.sub.3
          (λ a i. (
            moved-left h v w (above header c) y (root_of rest) x a
                (ne_of_hit (omega (arith, bound a))) (ne_of_hit (omega (arith, bound a))),
            moved-right h v w (above header c) y (root_of rest) x a
                (ne_of_hit (omega (arith, bound a))),
          ))
          (λ a i e.
            update-other (adopt (update (update h.parent v y) w y) (root_of rest) x) y
              (above header c) a (ne_of_hit (omega (arith, bound a)))
            ∙ adopt-other (update (update h.parent v y) w y) (root_of rest) x a
                (not_rest a (omega (arith, i)))
            ∙ update-other (update h.parent v y) w y a (ne_of_hit (omega (arith, s.distinct a)))
            ∙ update-other h.parent v y a e)
          (λ n.
            update-other (adopt (update (update h.parent v y) w y) (root_of rest) x) y
              (above header c) v (ne_of_hit (omega (arith, bound v, hit_self v)))
            ∙ adopt-other (update (update h.parent v y) w y) (root_of rest) x v
                (not_rest v (omega (arith, hit_self v)))
            ∙ update-other (update h.parent v y) w y v
                (ne_of_hit (omega (arith, s.distinct v, hit_self v)))
            ∙ update-here h.parent v y)
          (λ a. omega (arith, bound a)) (omega (arith, none_null))

    remaining-root : root_of remaining ≡ w
    remaining-root = root-tree_of ss x m rest (node leaf y rest) ∙ ap root_of whole

    pub relink_far-Standing :
        (b : Bool)
        → Side c b
        → Returns
            (λ p g. (p ≡ x) × Standing g header c (node l y remaining) × Spared h g header)
            (relink_successor header z v w (above header c) y (root_of rest) b h)
    relink_far-Standing b side =
        let y0 : y ≢ null =
          ne_of_pos (λ a. hit a y) y null (omega (arith, none_null)) (omega (arith, hit_self y)) in
        let x0 : x ≢ null =
          ne_of_pos (λ a. hit a x) x null (omega (arith, none_null)) (omega (arith, hit_self x)) in
        let xz : z ≢ x = ne_of_hit (omega (arith, bound z, hit_self z)) in
        let yw : y ≢ w = λ e. xz (sym s.sub.4.0 ∙ ap h.parent (sym e) ∙ stands.sub.0) in
        let at_y : Sub after_move (above header c) (node l y remaining) = (
          update-here (adopt (update (update h.parent v y) w y) (root_of rest) x) y
              (above header c),
          update-other (update h.left y v) x (root_of rest) y
                (ne_of_hit (omega (arith, bound y, hit_self y)))
              ∙ update-here h.left y v,
          update-here h.right y w ∙ sym remaining-root,
          left-Sub,
          remaining-Sub,
        ) in
        rw
          (
            relink-moved header h z v w (above header c) y (root_of rest) b
                (ne_of_pos (λ a. times a l) v null (omega (arith, none_null))
                  (omega (arith, hit_self v)))
                (ne_of_pos (λ a. times a (node rl w rr)) w null (omega (arith, s.nonnull))
                  (omega (arith, hit_self w)))
                y0 (rw stands.sub.0 x0) yw (ne_of_hit (omega (arith, bound y, hit_self y))),
            stands.sub.0,
          )
          (Returns-bind
            (rehang c (node l z (node rl w rr)) (node l y remaining) after_move b s
              (λ a. omega (arith, in_right a, times-tree_of a ss (node rest x m))) outside
              (λ a. refl) at_y side)
            λ _ g done. returns (refl, done.0, done.1))
