-- ===== src/TreeContainer/Examples.antt =====
-- Tests of the containers: a red-black tree with the header 1, the black root 2 and its red right
-- child 3, which holds two values; the value 4 goes behind them.
use intrusive.Base.{true, ◌≡◌, refl, arith, inl, inr, [], ◌∷◌, ◌==◌, ltb, if◌then◌else◌, Bool}
use intrusive.Machine.{Ptr, Returns}
use intrusive.BsTree.Shape.{leaf, node}
use intrusive.RbTree.{Color, red, black, RbNodes}
use intrusive.RbTree.Commit.{RbSet}
use intrusive.TreeContainer.{Container, insert_unique, erase, erase_range}
use intrusive.TreeContainer.Order.{IsStrictOrder}
use intrusive.TreeContainer.Insert.{Holds, Inserted, insert_unique-Inserted}
use intrusive.TreeContainer.Erase.{erase-Holds, erase_range-Holds}
use intrusive.TreeContainer.Instances.{
  BsSet, bs_algorithms, bs_algorithms-RemovalLaws, rb_algorithms, rb_algorithms-TreeLaws,
}

abbrev nodes : RbNodes
nodes = record {
  parent = λ a. if a == 1 then 2 else if a == 2 then 1 else if a == 3 then 2 else 0;
  left = λ a. if a == 1 then 2 else 0;
  right = λ a. if a == 1 then 3 else if a == 2 then 3 else 0;
  tag = λ a. if a == 2 then black else red;
}

abbrev two_values : Container Color
two_values = record { store = nodes; size_ = 2 }

nodes-RbSet : RbSet nodes 1 (node leaf 2 (node leaf 3 leaf))
nodes-RbSet = record {
  stands = record {
    around = refl;
    sub = (refl, refl, refl, tt, (refl, refl, refl, tt, tt));
    distinct = λ a. ground arith;
    nonnull = refl;
  };
  ends = (refl, refl);
  rb = (refl, inl refl, inl refl, tt, (refl, inr refl, inr refl, tt, tt));
  black_root = refl;
}

abbrev less : Ptr → Ptr → Bool
less x y = ltb x y

less-IsStrictOrder : IsStrictOrder less
less-IsStrictOrder = record {
  irreflexive = λ x. ground arith;
  transitive = λ x y z a b. ground arith;
}

two_values-Holds : Holds RbSet less 1 two_values (2 ∷ 3 ∷ [])
two_values-Holds = record {
  tree = record { tree = node leaf 2 (node leaf 3 leaf); good = nodes-RbSet; nodes = refl };
  sorted = ((refl, tt), (tt, tt));
  counted = refl;
}

insert_unique_example :
    Returns
      (Inserted RbSet less 1 4 two_values (2 ∷ 3 ∷ []))
      (insert_unique rb_algorithms less 3 1 4 two_values)
insert_unique_example =
    insert_unique-Inserted rb_algorithms rb_algorithms-TreeLaws less less-IsStrictOrder 3 1
      two_values (2 ∷ 3 ∷ []) two_values-Holds (ground arith) 4 (ground arith) (ground arith) refl

nodes-BsSet : BsSet nodes 1 (node leaf 2 (node leaf 3 leaf))
nodes-BsSet = record { stands_there = nodes-RbSet.stands; ends = nodes-RbSet.ends }

two_values-BsSet : Holds BsSet less 1 two_values (2 ∷ 3 ∷ [])
two_values-BsSet = record {
  tree = record { tree = node leaf 2 (node leaf 3 leaf); good = nodes-BsSet; nodes = refl };
  sorted = two_values-Holds.sorted;
  counted = refl;
}

erase_value_example :
    Returns
      (λ i g. (i ≡ 3) × Holds BsSet less 1 g (3 ∷ []))
      (erase (bs_algorithms Color) less 3 1 true 2 two_values)
erase_value_example =
    erase-Holds (bs_algorithms Color) (bs_algorithms-RemovalLaws Color) less 3 1 true two_values []
      2 (3 ∷ []) two_values-BsSet (ground arith)

erase_range_example :
    Returns
      (λ i g. (i ≡ 1) × Holds BsSet less 1 g [])
      (erase_range (bs_algorithms Color) less 3 1 true 2 1 two_values)
erase_range_example =
    erase_range-Holds (bs_algorithms Color) (bs_algorithms-RemovalLaws Color) less 3 1 true
      two_values [] (2 ∷ 3 ∷ []) [] two_values-BsSet (ground arith)
