-- ===== src/Treap/Examples.antt =====
-- Tests of the treaps: the header 1 with the root 2 and its right child 3, and the header 1 with the
-- root 3, its children 2 and 5, and 4 as the left child of 5.
use intrusive.Base.{
  ℕ, ◌≡◌, refl, arith, [], ◌∷◌, ◌==◌, ltb, none, some, if◌then◌else◌, Bool, true, Option, ◌++◌,
  ◌||◌,
}
use intrusive.Machine.{Ptr, Returns, Throws}
use intrusive.BsTree.{Nodes}
use intrusive.BsTree.Shape.{Tree, leaf, node, inorder, top, left_of, right_of}
use intrusive.BsTree.Hang.{Standing}
use intrusive.BsTree.Erase.Whole.{HasTree}
use intrusive.BsTree.Insert.{commit_at}
use intrusive.Treap.{erase, rebalance_check_and_commit}
use intrusive.Treap.Insertion.{
  rebalance_check_and_commit-HasTree, rebalance_check_and_commit-Throws,
}
use intrusive.Treap.Removal.{erase-HasTree, erase-Throws}
use intrusive.Treap.Heap.{IsWeakOrder}
use intrusive.Treap.Kept.{HasTreap, erase-HasTreap, rebalance_check_and_commit-HasTreap}

abbrev two_nodes : Nodes Bool
two_nodes = record {
  parent = λ a. if a == 1 then 2 else if a == 2 then 1 else if a == 3 then 2 else 0;
  left = λ a. if a == 1 then 2 else 0;
  right = λ a. if a == 1 then 3 else if a == 2 then 3 else 0;
  tag = λ a. true;
}

abbrev chain_of_two : Tree
chain_of_two = node leaf 2 (node leaf 3 leaf)

two_nodes-Standing : Standing two_nodes 1 top chain_of_two
two_nodes-Standing = record {
  around = refl;
  sub = (refl, refl, refl, tt, (refl, refl, refl, tt, tt));
  distinct = λ a. ground arith;
  nonnull = refl;
}

abbrev four_nodes : Nodes Bool
four_nodes = record {
  parent = λ a.
      if a == 1
      then 3
      else if a == 3
      then 1
      else if a == 4
      then 5
      else if a == 2 || a == 5
      then 3
      else 0;
  left = λ a. if a == 1 || a == 3 then 2 else if a == 5 then 4 else 0;
  right = λ a. if a == 1 || a == 3 then 5 else 0;
  tag = λ a. true;
}

abbrev left_part : Tree
left_part = node leaf 2 leaf

abbrev right_part : Tree
right_part = node (node leaf 4 leaf) 5 leaf

abbrev tree_of_four : Tree
tree_of_four = node left_part 3 right_part

four_nodes-Standing : Standing four_nodes 1 top tree_of_four
four_nodes-Standing = record {
  around = refl;
  sub = (
    refl,
    refl,
    refl,
    (refl, refl, refl, tt, tt),
    (refl, refl, refl, (refl, refl, refl, tt, tt), tt),
  );
  distinct = λ a. ground arith;
  nonnull = refl;
}

abbrev higher_first : Ptr → Ptr → Option Bool
higher_first x y = some (ltb y x)

-- It throws at the second comparison, after one rotation.
abbrev throws_at_4 : Ptr → Ptr → Option Bool
throws_at_4 x y = if y == 4 then none else some (ltb y x)

abbrev without_3 : Tree
without_3 = node (node (node leaf 2 leaf) 4 leaf) 5 leaf

treap_erase_example :
    Returns
      (λ p g.
        (p ≡ 3)
        × HasTree four_nodes g 1 without_3
        × (inorder without_3 ≡ inorder left_part ++ inorder right_part))
      (erase higher_first 5 1 3 four_nodes)
treap_erase_example =
    erase-HasTree higher_first top left_part 3 right_part 5 four_nodes-Standing (refl, refl)
      (ground arith) without_3 refl

treap_erase-Throws_example :
    Throws (λ g. HasTree four_nodes g 1 tree_of_four) (erase throws_at_4 5 1 3 four_nodes)
treap_erase-Throws_example =
    erase-Throws throws_at_4 top left_part 3 right_part 5 four_nodes-Standing (refl, refl)
      (ground arith) refl

abbrev with_4 : Tree
with_4 = node leaf 2 (node leaf 4 (node leaf 3 leaf))

treap_insert_example :
    Returns
      (λ _ g. HasTree two_nodes g 1 with_4 × (inorder with_4 ≡ 2 ∷ 4 ∷ 3 ∷ []))
      (rebalance_check_and_commit (λ y. some (ltb 2 y)) 3 1 4 (commit_at true 3) two_nodes)
treap_insert_example =
    rebalance_check_and_commit-HasTree two_nodes 1 (λ y. some (ltb 2 y))
      (left_of (right_of leaf 2 top) 3 leaf) 4 true two_nodes-Standing (refl, refl) refl
      (ground arith) (ground arith) refl 3 1 (ground arith) refl

-- The new node passes 3, and the comparison with the root 2 throws.
abbrev throws_at_root : Ptr → Option Bool
throws_at_root y = if y == 2 then none else some true

treap_insert-Throws_example :
    Throws
      (λ g. g ≡ two_nodes)
      (rebalance_check_and_commit throws_at_root 3 1 4 (commit_at true 3) two_nodes)
treap_insert-Throws_example =
    rebalance_check_and_commit-Throws two_nodes 1 throws_at_root
      (left_of (right_of leaf 2 top) 3 leaf) 4 true two_nodes-Standing (refl, refl) refl
      (ground arith) (ground arith) refl 3 (ground arith) refl

-- Priorities that are numbers.
by_rank-IsWeakOrder : (rank : Ptr → ℕ) → IsWeakOrder (λ x y. ltb (rank y) (rank x))
by_rank-IsWeakOrder rank = record {
  asymmetric = λ x y e. ground arith;
  transitive = λ x y z e f. ground arith;
}

-- The root 3 has the highest priority, and 5 a higher one than 4.
abbrev rank_3 : Ptr → ℕ
rank_3 a = if a == 3 then 9 else a

treap_erase_heap_example :
    Returns
      (λ p g. (p ≡ 3) × HasTreap (λ x y. ltb (rank_3 y) (rank_3 x)) four_nodes g 1 (2 ∷ 4 ∷ 5 ∷ []))
      (erase (λ x y. some (ltb (rank_3 y) (rank_3 x))) 5 1 3 four_nodes)
treap_erase_heap_example =
    erase-HasTreap four_nodes 1 (λ x y. ltb (rank_3 y) (rank_3 x)) (by_rank-IsWeakOrder rank_3) top
      left_part 3 right_part 5 four_nodes-Standing (refl, refl)
      ((refl, refl), (((tt, tt), (tt, tt)), ((refl, tt), (((tt, tt), (tt, tt)), tt))))
      (ground arith)

-- The root 2 has the highest priority, and 4 a higher one than 3.
abbrev rank_2 : Ptr → ℕ
rank_2 a = if a == 2 then 9 else a

treap_insert_heap_example :
    Returns
      (λ _ g. HasTreap (λ x y. ltb (rank_2 y) (rank_2 x)) two_nodes g 1 (2 ∷ 4 ∷ 3 ∷ []))
      (rebalance_check_and_commit
        (λ y. some (ltb (rank_2 y) (rank_2 4)))
        3
        1
        4
        (commit_at true 3)
        two_nodes)
treap_insert_heap_example =
    rebalance_check_and_commit-HasTreap two_nodes 1 (λ x y. ltb (rank_2 y) (rank_2 x))
      (by_rank-IsWeakOrder rank_2) (left_of (right_of leaf 2 top) 3 leaf) 4 true 3
      two_nodes-Standing (refl, refl) ((tt, refl), (tt, ((tt, tt), (tt, tt)))) refl (ground arith)
      (ground arith) refl (ground arith)
