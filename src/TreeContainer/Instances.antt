-- ===== src/TreeContainer/Instances.antt =====
-- The kinds of trees that the containers use: the plain binary search tree, and the red-black
-- tree.
use intrusive.Base.{◌≤◌, ◌≡◌, ◌≢◌, sym, ◌∙◌, arith}
use intrusive.Machine.{Ptr, null, Returns, returns, update, Returns-bind, Returns-imp, pure, ◌>>=◌}
use intrusive.BsTree.{init, Nodes, init_header}
use intrusive.BsTree.Insert.{insert_commit}
use intrusive.BsTree.Place.{insert_equal_upper_bound, insert_before, push_back, push_front}
use intrusive.BsTree.Erase.{erase}
use intrusive.BsTree.Shape.{Sub-frame, times, ne_of_pos, Tree, leaf, node, top, plug}
use intrusive.BsTree.Access.{set_parent-ok, set_left-ok, set_right-ok, update-other}
use intrusive.BsTree.Erase.Whole.{erase-HasNodes}
use intrusive.BsTree.Hang.{Standing}
use intrusive.BsTree.Commit.{Ends, inorder-split, insert_commit-Standing}
use intrusive.BsTree.Order.{depth-length}
use intrusive.BsTree.Locate.{Standing-unplug, Standing-plug}
use intrusive.BsTree.Step.{levels-depth}
use intrusive.RbTree
use intrusive.RbTree.{RbNodes, Color, insert_unique_commit, rebalance_after_insertion}
use intrusive.RbTree.Equal
use intrusive.RbTree.Erase
use intrusive.RbTree.Commit.{RbSet, insert_unique_commit-RbSetOf}
use intrusive.TreeContainer.{NodeAlgorithms}
use intrusive.TreeContainer.Interface.{TreeLaws, RemovalLaws}

-- `bstree_algorithms`.
abbrev pub bs_algorithms : (X : Type 0) → NodeAlgorithms X
bs_algorithms X = record {
  init_header = init_header;
  insert_unique_commit = λ fuel header n d. insert_commit header n d;
  insert_equal_upper_bound = insert_equal_upper_bound;
  insert_before = insert_before;
  push_back = λ fuel header n. push_back header n;
  push_front = λ fuel header n. push_front header n;
  erase = λ fuel header z. (do info ← erase fuel header z; pure tt);
}

-- A tree in the store, with the header's left and right at its ends.
pub record BsSet {X : Type 0} (h : Nodes X) (header : Ptr) (t : Tree) : Type 0 where
  pub stands_there : Standing h header top t
  pub ends : Ends h header t

pub bs_algorithms-TreeLaws : (X : Type 0) → TreeLaws (bs_algorithms X) BsSet
bs_algorithms-TreeLaws X = record {
  stands = λ h header t good. good.stands_there;
  commit = λ fuel h header c n b good side n0 nh fresh enough.
      Returns-imp
        (insert_commit-Standing c n b (Standing-unplug c leaf good.stands_there) good.ends side n0
          nh fresh)
        λ o g done. record {
          tree = plug c (node leaf n leaf);
          good = record { stands_there = Standing-plug c (node leaf n leaf) done.0; ends = done.1 };
          nodes = inorder-split c (node leaf n leaf);
        };
}

-- `rbtree_algorithms`.
abbrev pub rb_algorithms : NodeAlgorithms Color
rb_algorithms = record {
  init_header = intrusive.RbTree.init_header;
  insert_unique_commit = λ fuel header n d. insert_unique_commit fuel header n d;
  insert_equal_upper_bound = Equal.insert_equal_upper_bound;
  insert_before = Equal.insert_before;
  push_back = Equal.push_back;
  push_front = Equal.push_front;
  erase = λ fuel header z. (do ret ← intrusive.RbTree.Erase.erase fuel header z; pure tt);
}

pub rb_algorithms-TreeLaws : TreeLaws rb_algorithms RbSet
rb_algorithms-TreeLaws = record {
  stands = λ h header t good. good.stands;
  commit = λ fuel h header c n b good side n0 nh fresh enough.
      Returns-imp
        (insert_unique_commit-RbSetOf fuel h header c n b good side n0 nh fresh
          (omega (arith, enough, levels-depth c leaf, depth-length (plug c leaf))))
        λ o g done. record { tree = done.tree; good = done.set; nodes = done.order };
}

-- A node outside of the tree gets other links.
BsSet-reset :
    {X : Type 0} (h : Nodes X) (header : Ptr) (t : Tree) (z : Ptr)
    → BsSet h header t
    → z ≢ null
    → z ≢ header
    → times z t ≡ 0
    → Returns (λ _ g. BsSet g header t) (init z h)
unfolding init
BsSet-reset h header t z good z0 zh off =
    let h1 = record h { parent = update h.parent z null } in
    let h2 = record h1 { left = update h.left z null } in
    let g = record h2 { right = update h.right z null } in
    let hz : header ≢ z = λ e. zh (sym e) in
    let away = λ (a : Ptr) (i : 1 ≤ times a t). ne_of_pos (λ q. times q t) a z off i in
    rw (set_parent-ok z null h z0, set_left-ok z null h1 z0, set_right-ok z null h2 z0)
      (returns {s = g} (record {
        stands_there = record {
          around = update-other h.parent z null header hz ∙ good.stands_there.around;
          sub = Sub-frame h g header t good.stands_there.sub (λ a i. (
            update-other h.parent z null a (away a i),
            update-other h.left z null a (away a i),
            update-other h.right z null a (away a i),
          ));
          distinct = good.stands_there.distinct;
          nonnull = good.stands_there.nonnull;
        };
        ends = (
          update-other h.left z null header hz ∙ good.ends.0,
          update-other h.right z null header hz ∙ good.ends.1,
        );
      }))

pub bs_algorithms-RemovalLaws : (X : Type 0) → RemovalLaws (bs_algorithms X) BsSet
bs_algorithms-RemovalLaws X = record {
  stands = λ h header t good. good.stands_there;
  erases = λ fuel h header t xs z ys good e enough.
      Returns-bind
        (erase-HasNodes t xs z ys fuel good.stands_there good.ends e
          (omega (arith, enough, depth-length t)))
        λ o g r. returns (record {
          tree = r.tree;
          good = record { stands_there = r.stands; ends = r.ends };
          nodes = r.nodes;
        });
  resets = λ h header t z good z0 zh off. BsSet-reset h header t z good z0 zh off;
}
