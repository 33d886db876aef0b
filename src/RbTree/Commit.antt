-- ===== src/RbTree/Commit.antt =====
-- The insertion of a node into a red-black tree, `insert_unique_commit`: linking and rebalancing.
use intrusive.Base.{
  ℕ, ◌≤◌, ◌<◌, ◌≡◌, ◌≢◌, refl, sym, ap, ◌∙◌, inl, inr, arith, hit, count, last, List, ◌∷◌, ◌++◌,
  Bool,
}
use intrusive.Machine.{Ptr, null, Returns, returns, ◌>>=◌, Returns-bind, update}
use intrusive.BsTree.{get_parent}
use intrusive.BsTree.Insert.{commit_at}
use intrusive.BsTree.Locate.{Standing-unplug}
use intrusive.BsTree.Access.{get_parent-ok, update-here, update-other}
use intrusive.BsTree.Shape.{
  levels, Tree, leaf, node, inorder, times, times-count, times-plug, PathUp, top, left_of, right_of,
  plug, times_up, above, ne_of_pos, hit_self,
}
use intrusive.BsTree.Hang.{Side, Standing, Standing-retag}
use intrusive.BsTree.Commit.{before, after, inorder-split, Ends, first_or, insert_commit-Standing}
use intrusive.RbTree.{
  Color, red, black, RbNodes, rebalance_after_insertion, insert_unique_commit, set_color,
}
use intrusive.RbTree.Invariant.{
  height, root_color, up_color, Calm, IsRb, IsRbUp, IsRb-frame, IsRbUp-frame, height-frame,
}
use intrusive.RbTree.Recolor.{set_color-ok}
use intrusive.RbTree.Insertion.{insertion_loop-Rebalanced}

-- A red-black tree in the store: the nodes of `t` hang under the header as `t` says, and the
-- header knows the first and the last of them.
pub record RbSet (h : RbNodes) (header : Ptr) (t : Tree) : Type 0 where
  pub stands : Standing h header top t
  pub ends : Ends h header t
  pub rb : IsRb h.tag t
  pub black_root : root_color h.tag t ≡ black

Calm-swap : {a b : Color} → Calm a b → Calm b a
Calm-swap (inl e) = inr e
Calm-swap (inr e) = inl e

module _ (color : Ptr → Color) where
  IsRb-unplug :
      (c : PathUp) (t : Tree)
      → IsRb color (plug c t)
      → root_color color (plug c t) ≡ black
      → IsRb color t
        × IsRbUp color c (height color t)
        × Calm (root_color color t) (up_color color c)
  IsRb-unplug top t b e = (b, tt, inl e)
  IsRb-unplug (left_of c x r) t b e =
      let (n, up, calm) = IsRb-unplug c (node t x r) b e in
      (n.3, (sym n.0, n.2, calm, n.4, up), Calm-swap n.1)
  IsRb-unplug (right_of l x c) t b e =
      let (n, up, calm) = IsRb-unplug c (node l x t) b e in
      (n.4, (n.0, n.1, calm, n.3, rw (← n.0) up), Calm-swap n.2)

-- The root of a red-black tree is painted black.
module _ (color : Ptr → Color) where
  IsRb-black :
      (l : Tree) (x : Ptr) (r : Tree)
      → times x l ≡ 0
      → times x r ≡ 0
      → IsRb color (node l x r)
      → IsRb (update color x black) (node l x r)
  IsRb-black l x r zl zr b =
      let paint = update color x black in
      let fl = λ (a : Ptr) (m : 1 ≤ times a l).
        update-other color x black a (ne_of_pos (λ y. times y l) a x zl m) in
      let fr = λ (a : Ptr) (m : 1 ≤ times a r).
        update-other color x black a (ne_of_pos (λ y. times y r) a x zr m) in
      (
        height-frame color paint l fl ∙ b.0 ∙ sym (height-frame color paint r fr),
        inl (update-here color x black),
        inl (update-here color x black),
        IsRb-frame color paint l b.3 fl,
        IsRb-frame color paint r b.4 fr,
      )

-- A red-black tree with the nodes `xs` in this order.
pub record RbSetOf (h : RbNodes) (header : Ptr) (xs : List Ptr) : Type 0 where
  pub tree : Tree
  pub set : RbSet h header tree
  pub order : inorder tree ≡ xs

-- The last statement of `rebalance_after_insertion`.
paint_root :
    (m : RbNodes) (header : Ptr) (t : Tree) (a : Ptr)
    → Standing m header top t
    → Ends m header t
    → IsRb m.tag t
    → 1 ≤ times a t
    → Returns
        (λ _ g. RbSetOf g header (inorder t))
        ((do root ← get_parent header; set_color root black) m)
paint_root m header leaf a s ends b some_node = absurd (omega (arith, some_node))
paint_root m header (node l x r) a s ends b some_node =
    let h0 : header ≢ null =
      ne_of_pos (λ y. hit y header) header null (omega (arith, s.nonnull)) (ground arith) in
    let x0 : x ≢ null = ne_of_pos (λ y. hit y x) x null (omega (arith, s.nonnull)) (ground arith) in
    rw (get_parent-ok header m h0, s.around, set_color-ok x black m x0)
      (returns (record {
        tree = node l x r;
        set = record {
          stands = Standing-retag (update m.tag x black) s;
          ends = ends;
          rb =
              IsRb-black m.tag l x r (omega (arith, s.distinct x, hit_self x))
                (omega (arith, s.distinct x, hit_self x)) b;
          black_root = update-here m.tag x black;
        };
        order = refl;
      }))

rebalance-RbSetOf :
    (fuel : ℕ) (k : RbNodes) (header : Ptr) (c : PathUp) (n : Ptr)
    → Standing k header c (node leaf n leaf)
    → Ends k header (plug c (node leaf n leaf))
    → IsRbUp k.tag c 0
    → levels c < fuel
    → Returns
        (λ _ g. RbSetOf g header (inorder (plug c (node leaf n leaf))))
        (rebalance_after_insertion fuel header n k)
unfolding rebalance_after_insertion
rebalance-RbSetOf fuel k header c n s ends up enough =
    let n0 : n ≢ null = ne_of_pos (λ y. hit y n) n null (omega (arith, s.nonnull)) (ground arith) in
    let fresh : times_up n c ≡ 0 = omega (arith, s.distinct n, hit_self n) in
    let paint = update k.tag n red in
    let painted : paint n ≡ red = update-here k.tag n red in
    let up' =
      IsRbUp-frame k.tag paint c 0 up
        (λ a m. update-other k.tag n red a (ne_of_pos (λ y. times_up y c) a n fresh m)) in
    rw (set_color-ok n red k n0) (
      Returns-bind
        (insertion_loop-Rebalanced fuel (record k { tag = paint }) header c leaf n leaf
          (Standing-retag paint s) painted (refl, inr refl, inr refl, tt, tt) (rw painted up')
          enough)
        λ o m reb. rw (← reb.order) (
          paint_root m header reb.tree n reb.stands
            (
              reb.leftmost ∙ ends.0 ∙ ap (first_or header) (sym reb.order),
              reb.rightmost ∙ ends.1 ∙ ap (last header) (sym reb.order),
            )
            reb.rb
            (omega (
              arith,
              times-count n reb.tree,
              times-count n (plug c (node leaf n leaf)),
              ap (count n) reb.order,
              times-plug n c (node leaf n leaf),
              hit_self n,
            ))))

-- `insert_unique_commit` of a new node at an empty place of a red-black tree, which the commit
-- data name, with fuel for each level above the place and one round more: no null pointer is
-- used, and the result is a red-black tree, with a black root, whose nodes are the old ones in
-- their order and the new one among them at that place; the header's left and right are the
-- first and the last of them.
pub insert_unique_commit-RbSetOf :
    (fuel : ℕ) (h : RbNodes) (header : Ptr) (c : PathUp) (n : Ptr) (b : Bool)
    → RbSet h header (plug c leaf)
    → Side c b
    → n ≢ null
    → n ≢ header
    → times_up n c ≡ 0
    → levels c < fuel
    → Returns
        (λ _ g. RbSetOf g header (before c ++ n ∷ after c))
        (insert_unique_commit fuel header n (commit_at b (above header c)) h)
unfolding insert_unique_commit
insert_unique_commit-RbSetOf fuel h header c n b rb side n0 nh fresh enough =
    let up = (IsRb-unplug h.tag c leaf rb.rb rb.black_root).1 in
    rw (← inorder-split c (node leaf n leaf)) (
      Returns-bind
        (insert_commit-Standing c n b (Standing-unplug c leaf rb.stands) rb.ends side n0 nh fresh)
        λ o k inserted.
          rebalance-RbSetOf fuel k header c n inserted.0 inserted.1
            (IsRbUp-frame h.tag k.tag c 0 up (λ a m. inserted.2 a)) enough)
