-- ===== src/RbTree/Examples.antt =====
-- Tests of the red-black trees: the header 1, the black root 2 and its red right child 3; the
-- node 4 is inserted behind 3, which makes the tree rotate.
use intrusive.Base.{refl, arith, inl, inr, [], ◌∷◌, ◌==◌, if◌then◌else◌, false}
use intrusive.Machine.{Returns}
use intrusive.BsTree.Shape.{leaf, node, top, right_of}
use intrusive.BsTree.Insert.{commit_at}
use intrusive.RbTree.{red, black, RbNodes, insert_unique_commit}
use intrusive.RbTree.Commit.{RbSet, RbSetOf, insert_unique_commit-RbSetOf}

abbrev store : RbNodes
store = record {
  parent = λ a. if a == 1 then 2 else if a == 2 then 1 else if a == 3 then 2 else 0;
  left = λ a. if a == 1 then 2 else 0;
  right = λ a. if a == 1 then 3 else if a == 2 then 3 else 0;
  tag = λ a. if a == 2 then black else red;
}

store-RbSet : RbSet store 1 (node leaf 2 (node leaf 3 leaf))
store-RbSet = record {
  stands = record {
    around = refl;
    sub = (refl, refl, refl, tt, (refl, refl, refl, tt, tt));
    distinct = λ a. ground arith;
    nonnull = refl;
  };
  ends = (refl, refl);
  rb = (refl, inl refl, inl refl, tt, (refl, inr refl, inr refl, tt, tt));
  black_root = refl;
}

insert_unique_commit_example :
    Returns
      (λ _ g. RbSetOf g 1 (2 ∷ 3 ∷ 4 ∷ []))
      (insert_unique_commit 3 1 4 (commit_at false 3) store)
insert_unique_commit_example =
    insert_unique_commit-RbSetOf 3 store 1 (right_of leaf 3 (right_of leaf 2 top)) 4 false
      store-RbSet refl (ground arith) (ground arith) refl (ground arith)
