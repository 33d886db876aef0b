-- ===== src/BsTree/Commit.antt =====
-- `insert_commit`: a new node takes the place of an empty subtree.
pub mod Sides
pub mod Link
use intrusive.Base.{◌+◌, ◌≤◌, ◌≡◌, ◌≢◌, sym, ap, ◌∙◌, inl, inr, arith, last, hit, Bool}
use intrusive.Machine.{Ptr, null, Returns, returns, Returns-bind, update, ok, ◌>>◌}
use intrusive.BsTree.{Nodes, set_parent, set_left, set_right}
use intrusive.BsTree.Insert.{commit_at, insert_commit}
use intrusive.BsTree.Access.{update-here, update-other}
use intrusive.BsTree.Shape.{
  leaf, node, PathUp, plug, times_up, above, Around-frame, ne_of_pos, hit_self,
}
use intrusive.BsTree.Hang.{Side, Standing}
use intrusive.BsTree.Commit.Sides.{LinkedIn}
use intrusive.BsTree.Commit.Link.{link_child-LinkedIn}
pub use intrusive.BsTree.Commit.Sides.{first_or, before, after, inorder-split, times-sides, Ends}
pub use intrusive.BsTree.Commit.Link.{Ptr-cases}

ne_hit : {a x : Ptr} → a ≢ x → hit a x ≡ 0
ne_hit e = ground arith

module _ {X : Type 0} where
  own_links-ok :
      (k : Nodes X) (n p : Ptr)
      → n ≢ null
      → (do set_parent n p; set_right n null; set_left n null) k
        ≡ ok tt (record k {
          parent = update k.parent n p;
          right = update k.right n null;
          left = update k.left n null;
        })
  unfolding set_parent set_right set_left
  own_links-ok k n p e = ground arith

  Standing-own :
      (h k : Nodes X) (header : Ptr) (c : PathUp) (n : Ptr)
      → LinkedIn h k header c n
      → ((a : Ptr) → hit a header + times_up a c ≤ 1)
      → hit null header + times_up null c ≡ 0
      → n ≢ null
      → n ≢ header
      → times_up n c ≡ 0
      → Standing
          (record k {
            parent = update k.parent n (above header c);
            right = update k.right n null;
            left = update k.left n null;
          })
          header
          c
          (node leaf n leaf)
  Standing-own h k header c n linked d z n0 nh fresh =
      let g = record k {
        parent = update k.parent n (above header c);
        right = update k.right n null;
        left = update k.left n null;
      } in
      let away = λ (a : Ptr) (m : 1 ≤ times_up a c). ne_of_pos (λ y. times_up y c) a n fresh m in
      record {
        around =
            Around-frame k g header c n linked.0
              (λ a m. (
                update-other k.parent n (above header c) a (away a m),
                update-other k.left n null a (away a m),
                update-other k.right n null a (away a m),
              ))
              (update-other k.parent n (above header c) header (λ o. nh (sym o)));
        sub = (
          update-here k.parent n (above header c),
          update-here k.left n null,
          update-here k.right n null,
          tt,
          tt,
        );
        distinct = λ a. elim (Ptr-cases a n) [
          | inl e ↦ rw e (omega (arith, d n, fresh, ne_hit nh, hit_self n))
          | inr e ↦ omega (arith, d a, ne_hit e)
        ];
        nonnull = omega (arith, z, ne_hit (λ o. n0 (sym o)));
      }

  -- `insert_commit` of a new node at an empty place of a tree, which the commit data name by the
  -- node above it and the side: the node stands at that place with no children, the rest of the
  -- tree stays, the header's left and right are the first and the last node again, and the
  -- further fields of all nodes are as before.
  pub insert_commit-Standing :
      {h : Nodes X} {header : Ptr} (c : PathUp) (n : Ptr) (b : Bool)
      → Standing h header c leaf
      → Ends h header (plug c leaf)
      → Side c b
      → n ≢ null
      → n ≢ header
      → times_up n c ≡ 0
      → Returns
          (λ _ g.
            Standing g header c (node leaf n leaf)
            × Ends g header (plug c (node leaf n leaf))
            × ((a : Ptr) → g.tag a ≡ h.tag a))
          (insert_commit header n (commit_at b (above header c)) h)
  unfolding insert_commit
  insert_commit-Standing {h} {header} c n b s ends side n0 nh fresh =
      let d : (a : Ptr) → hit a header + times_up a c ≤ 1 = λ a. omega (arith, s.distinct a) in
      let z : hit null header + times_up null c ≡ 0 = omega (arith, s.nonnull) in
      let hn : header ≢ n = λ o. nh (sym o) in
      Returns-bind
        (link_child-LinkedIn h header n c b s.around side d z
          (ends.0 ∙ ap (first_or header) (inorder-split c leaf))
          (ends.1 ∙ ap (last header) (inorder-split c leaf)))
        λ o k linked. rw (own_links-ok k n (above header c) n0) (
          returns (
            Standing-own h k header c n linked d z n0 nh fresh,
            (
              update-other k.left n null header hn
                  ∙ linked.1
                  ∙ sym (ap (first_or header) (inorder-split c (node leaf n leaf))),
              update-other k.right n null header hn
                  ∙ linked.2
                  ∙ sym (ap (last header) (inorder-split c (node leaf n leaf))),
            ),
            λ a. linked.3 a,
          ))
