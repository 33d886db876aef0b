-- ===== src/BsTree/Examples.antt =====
-- Tests of the binary search trees: the header 1, the root 2 and its right child 3; 4 is not in
-- the tree.
use intrusive.Base.{
  ◌≡◌, refl, arith, [], ◌∷◌, ltb, not, Bool, true, false, ◌==◌, ◌||◌, if◌then◌else◌,
}
use intrusive.Machine.{Ptr, ok, Returns}
use intrusive.BsTree.{Nodes}
use intrusive.BsTree.Shape.{Tree, leaf, node, top, left_of, right_of}
use intrusive.BsTree.Hang.{Standing, Spared}
use intrusive.BsTree.Rotate.{rotate_left, rotate_right}
use intrusive.BsTree.Insert.{commit_at, insert_commit}
use intrusive.BsTree.Commit.{Ends, insert_commit-Standing}
use intrusive.BsTree.Navigate.{next_node, size}
use intrusive.BsTree.Search.{lower_bound, upper_bound, bounded_range, equal_range, find, count}
use intrusive.BsTree.Insert.{insert_unique_check}
use intrusive.BsTree.Order.{Falls}
use intrusive.BsTree.Bounds.{lower_bound-first, upper_bound-first}
use intrusive.BsTree.Range.{IsRange, IsOrdered, equal_range-ends}
use intrusive.BsTree.Between.{Between, bounded_range-Between}
use intrusive.BsTree.Find.{Found, find-Found}
use intrusive.BsTree.CheckUnique.{Checked, insert_unique_check-Checked}
use intrusive.BsTree.Step.{next_node-behind}
use intrusive.BsTree.Count.{size-length, count-matches}
use intrusive.BsTree.Erase.{erase}
use intrusive.BsTree.Erase.Whole.{HasNodes, erase-HasNodes}
use intrusive.BsTree.TurnLeft.{rotate_left-Standing}
use intrusive.BsTree.TurnRight.{rotate_right-Standing}

abbrev up : Ptr → Ptr
up a = if a == 1 then 2 else if a == 2 then 1 else if a == 3 then 2 else 0

-- The tree of root 2.
abbrev right_chain : Nodes Bool
right_chain = record {
  parent = up;
  left = λ a. if a == 1 then 2 else 0;
  right = λ a. if a == 1 then 3 else if a == 2 then 3 else 0;
  tag = λ a. true;
}

-- The tree of root 2 with 3 as its left child.
abbrev left_chain : Nodes Bool
left_chain = record {
  parent = up;
  left = λ a. if a == 1 then 3 else if a == 2 then 3 else 0;
  right = λ a. if a == 1 then 2 else 0;
  tag = λ a. true;
}

right_chain-Standing : Standing right_chain 1 top (node leaf 2 (node leaf 3 leaf))
right_chain-Standing = record {
  around = refl;
  sub = (refl, refl, refl, tt, (refl, refl, refl, tt, tt));
  distinct = λ a. ground arith;
  nonnull = refl;
}

left_chain-Standing : Standing left_chain 1 top (node (node leaf 3 leaf) 2 leaf)
left_chain-Standing = record {
  around = refl;
  sub = (refl, refl, refl, (refl, refl, refl, tt, tt), tt);
  distinct = λ a. ground arith;
  nonnull = refl;
}

rotate_left_example :
    Returns
      (λ _ g. Standing g 1 top (node (node leaf 2 leaf) 3 leaf) × Spared right_chain g 1)
      (rotate_left 2 3 1 1 right_chain)
rotate_left_example = rotate_left-Standing top leaf 2 leaf 3 leaf right_chain-Standing

rotate_right_example :
    Returns
      (λ _ g. Standing g 1 top (node leaf 3 (node leaf 2 leaf)) × Spared left_chain g 1)
      (rotate_right 2 3 1 1 left_chain)
rotate_right_example = rotate_right-Standing top leaf 2 leaf 3 leaf left_chain-Standing

-- The place to the left of 3.
middle-Standing : Standing right_chain 1 (left_of (right_of leaf 2 top) 3 leaf) leaf
middle-Standing = record {
  around = (refl, refl, refl, tt, (refl, refl, refl, tt, refl));
  sub = tt;
  distinct = λ a. ground arith;
  nonnull = refl;
}

insert_commit_example :
    Returns
      (λ _ g.
        Standing g 1 (left_of (right_of leaf 2 top) 3 leaf) (node leaf 4 leaf)
        × Ends g 1 (node leaf 2 (node (node leaf 4 leaf) 3 leaf))
        × ((a : Ptr) → g.tag a ≡ true))
      (insert_commit 1 4 (commit_at true 3) right_chain)
insert_commit_example =
    insert_commit-Standing (left_of (right_of leaf 2 top) 3 leaf) 4 true middle-Standing
      (refl, refl) refl (ground arith) (ground arith) refl

-- The tests for the key 3.
abbrev less3 : Ptr → Bool
less3 x = ltb x 3

abbrev greater3 : Ptr → Bool
greater3 x = ltb 3 x

abbrev chain_tree : Tree
chain_tree = node leaf 2 (node leaf 3 leaf)

less3-Falls : Falls less3 (2 ∷ 3 ∷ [])
less3-Falls = ((λ e. (refl, tt)), ((λ e. tt), tt))

greater3-Falls : Falls (λ x. not (greater3 x)) (2 ∷ 3 ∷ [])
greater3-Falls = ((λ e. absurd (let f = e in ground arith)), ((λ e. tt), tt))

apart3 : (x : Ptr) → less3 x ≡ true → greater3 x ≡ false
apart3 x e = ground arith

lower_bound_example : lower_bound less3 3 1 right_chain ≡ ok 3 right_chain
lower_bound_example =
    lower_bound-first chain_tree right_chain-Standing 3 (ground arith) less3 less3-Falls

upper_bound_example : upper_bound greater3 3 1 right_chain ≡ ok 1 right_chain
upper_bound_example =
    upper_bound-first chain_tree right_chain-Standing 3 (ground arith) greater3 greater3-Falls

equal_range_example : equal_range less3 greater3 3 1 right_chain ≡ ok (3, 1) right_chain
equal_range_example =
    equal_range-ends less3 greater3 chain_tree 3 apart3 right_chain-Standing less3-Falls
      greater3-Falls (ground arith)

-- The values between 2 and 4, both excluded.
range24 : IsRange (λ x. ltb x 2) (ltb 4) (ltb 2) (λ x. ltb x 4)
range24 = record {
  in_front = λ x e. (ground arith, ground arith, ground arith);
  behind = λ x e. (ground arith, ground arith, ground arith);
}

range24_proper : (x : Ptr) → (false || false || ltb 2 x || ltb x 4) ≡ true
range24_proper x = ground arith

range24-IsOrdered : IsOrdered (λ x. ltb x 2) (ltb 4) (ltb 2) (λ x. ltb x 4) (2 ∷ 3 ∷ [])
range24-IsOrdered = record {
  by_below = ((λ e. (refl, tt)), ((λ e. tt), tt));
  by_above = ((λ e. absurd (let f = e in ground arith)), ((λ e. tt), tt));
  by_above_lower = ((λ e. absurd (let f = e in ground arith)), ((λ e. tt), tt));
  by_below_upper = ((λ e. absurd (let f = e in ground arith)), ((λ e. tt), tt));
}

bounded_range_example :
    Returns
      (λ r g.
        Between (λ x. ltb x 2) (ltb 4) (ltb 2) (λ x. ltb x 4) false false 1 (2 ∷ 3 ∷ []) r
        × (g ≡ right_chain))
      (bounded_range (λ x. ltb x 2) (ltb 4) (ltb 2) (λ x. ltb x 4) false false 3 1 right_chain)
bounded_range_example =
    bounded_range-Between (λ x. ltb x 2) (ltb 4) (ltb 2) (λ x. ltb x 4) chain_tree false false 3
      range24 range24_proper right_chain-Standing range24-IsOrdered (ground arith)

find_example :
    Returns
      (λ y g. Found less3 greater3 1 chain_tree y × (g ≡ right_chain))
      (find less3 greater3 3 1 right_chain)
find_example =
    find-Found less3 greater3 chain_tree right_chain-Standing 3 less3-Falls greater3-Falls
      (ground arith)

insert_unique_check_example :
    Returns
      (λ r g. Checked less3 greater3 1 chain_tree r × (g ≡ right_chain))
      (insert_unique_check less3 greater3 3 1 right_chain)
insert_unique_check_example =
    insert_unique_check-Checked less3 greater3 chain_tree right_chain-Standing less3-Falls 3
      greater3-Falls (ground arith)

next_node_example : next_node 3 2 right_chain ≡ ok 3 right_chain
next_node_example =
    next_node-behind chain_tree [] 2 (3 ∷ []) 3 right_chain-Standing refl (ground arith)

size_example : size 3 1 right_chain ≡ ok 2 right_chain
size_example = size-length chain_tree right_chain-Standing 3 (refl, refl) (ground arith)

count_key_example : count less3 greater3 3 1 right_chain ≡ ok 1 right_chain
count_key_example =
    count-matches less3 greater3 chain_tree 3 apart3 right_chain-Standing less3-Falls greater3-Falls
      (ground arith)

erase_example : Returns (λ _ g. HasNodes right_chain g 1 (3 ∷ [])) (erase 2 1 2 right_chain)
erase_example =
    erase-HasNodes chain_tree [] 2 (3 ∷ []) 2 right_chain-Standing (refl, refl) refl (ground arith)
