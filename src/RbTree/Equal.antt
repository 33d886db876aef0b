-- ===== src/RbTree/Equal.antt =====
-- The insertions of include/boost/intrusive/rbtree_algorithms.hpp that allow equal keys, or whose
-- place the caller names: those of the plain tree, and then the repair of the colours.
use intrusive.Base.{ℕ, Bool}
use intrusive.Machine.{Ptr, Cmd, pure, ◌>>◌}
use intrusive.BsTree.Place
use intrusive.RbTree.{RbNodes, rebalance_after_insertion}

unfoldable pub insert_equal_upper_bound :
    (before : Ptr → Bool) → ℕ → (h new_node : Ptr) → Cmd RbNodes Ptr
unfolding Place.insert_equal_upper_bound rebalance_after_insertion
insert_equal_upper_bound before fuel h new_node = do
  Place.insert_equal_upper_bound before fuel h new_node
  rebalance_after_insertion fuel h new_node
  pure new_node

unfoldable pub insert_equal_lower_bound :
    (after : Ptr → Bool) → ℕ → (h new_node : Ptr) → Cmd RbNodes Ptr
unfolding Place.insert_equal_lower_bound rebalance_after_insertion
insert_equal_lower_bound after fuel h new_node = do
  Place.insert_equal_lower_bound after fuel h new_node
  rebalance_after_insertion fuel h new_node
  pure new_node

unfoldable pub insert_equal :
    (before after : Ptr → Bool) → ℕ → (header hint new_node : Ptr) → Cmd RbNodes Ptr
unfolding Place.insert_equal rebalance_after_insertion
insert_equal before after fuel header hint new_node = do
  Place.insert_equal before after fuel header hint new_node
  rebalance_after_insertion fuel header new_node
  pure new_node

unfoldable pub insert_before : ℕ → (header pos new_node : Ptr) → Cmd RbNodes Ptr
unfolding Place.insert_before rebalance_after_insertion
insert_before fuel header pos new_node = do
  Place.insert_before fuel header pos new_node
  rebalance_after_insertion fuel header new_node
  pure new_node

unfoldable pub push_back : ℕ → (header new_node : Ptr) → Cmd RbNodes (Unit {0})
unfolding Place.push_back rebalance_after_insertion
push_back fuel header new_node = do
  Place.push_back header new_node
  rebalance_after_insertion fuel header new_node

unfoldable pub push_front : ℕ → (header new_node : Ptr) → Cmd RbNodes (Unit {0})
unfolding Place.push_front rebalance_after_insertion
push_front fuel header new_node = do
  Place.push_front header new_node
  rebalance_after_insertion fuel header new_node
