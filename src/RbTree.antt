-- ===== src/RbTree.antt =====
-- include/boost/intrusive/rbtree_algorithms.hpp: a binary search tree whose nodes have colours.
pub mod Invariant
pub mod Recolor
pub mod FinalStep
pub mod Round
pub mod Repair
pub mod Places
pub mod DoubleLeft
pub mod DoubleRight
pub mod Insertion
pub mod Commit
pub mod Equal
pub mod Erase
pub mod Examples
use intrusive.Base.{
  ℕ, zero, suc, Bool, true, false, ◌==◌, ◌||◌, not, Option, none, some, if◌then◌else◌,
}
use intrusive.Machine.{Ptr, null, out_of_fuel, Cmd, pure, and_then, ◌>>=◌, ◌>>◌}
use intrusive.BsTree
use intrusive.BsTree.{Nodes, get_parent, get_left, get_right, get_tag, set_tag}
use intrusive.BsTree.Insert.{InsertCommitData, insert_commit}
use intrusive.BsTree.Rotate.{
  rotate_left_no_parent_fix, rotate_left, rotate_right_no_parent_fix, rotate_right,
}

pub data Color : Type 0 where
  red black : Color

abbrev pub is_red : Color → Bool
is_red red = true
is_red black = false

abbrev pub RbNodes : Type 0
RbNodes = Nodes Color

unfoldable pub get_color : Ptr → Cmd RbNodes Color
unfolding get_tag
get_color n = get_tag n

unfoldable pub set_color : Ptr → Color → Cmd RbNodes (Unit {0})
unfolding set_tag
set_color n c = set_tag n c

unfoldable pub init_header : Ptr → Cmd RbNodes (Unit {0})
unfolding intrusive.BsTree.init_header set_color
init_header header = do intrusive.BsTree.init_header header; set_color header red

-- The final step of `rebalance_after_insertion`, when the parent is a left child.
unfoldable pub final_step_left : (header p p_parent p_grandparent : Ptr) → Cmd RbNodes (Unit {0})
unfolding get_parent get_left set_color
final_step_left header p p_parent p_grandparent = do
  parent_left ← get_left p_parent
  top ←
      (if parent_left == p
        then pure p_parent
        else (do rotate_left_no_parent_fix p_parent p; pure p))
  above ← get_parent p_grandparent
  rotate_right p_grandparent top above header
  set_color top black

-- The final step, when the parent is a right child.
unfoldable pub final_step_right : (header p p_parent p_grandparent : Ptr) → Cmd RbNodes (Unit {0})
unfolding get_parent get_left set_color
final_step_right header p p_parent p_grandparent = do
  parent_left ← get_left p_parent
  top ←
      (if parent_left == p
        then (do rotate_right_no_parent_fix p_parent p; pure p)
        else pure p_parent)
  above ← get_parent p_grandparent
  rotate_left p_grandparent top above header
  set_color top black

-- `x && get_color(x) == red()`.
unfoldable pub is_red_node : Ptr → Cmd RbNodes Bool
unfolding get_color
is_red_node x = if x == null then pure false else do c ← get_color x; pure (is_red c)

-- The rest of a round of `rebalance_after_insertion`, below a red parent that is not the root:
-- the node to go on with, or none after the final step.
unfoldable pub recolor_or_rotate :
    (header p p_parent p_grandparent : Ptr) → Cmd RbNodes (Option Ptr)
unfolding get_left get_right set_color is_red_node
recolor_or_rotate header p p_parent p_grandparent = do
  set_color p_grandparent red
  p_grandparent_left ← get_left p_grandparent
  x ← (if p_parent == p_grandparent_left then get_right p_grandparent else pure p_grandparent_left)
  x_red ← is_red_node x
  if x_red
      then (do set_color x black; set_color p_parent black; pure (some p_grandparent))
      else if p_parent == p_grandparent_left
      then (do final_step_left header p p_parent p_grandparent; pure none)
      else (do final_step_right header p p_parent p_grandparent; pure none)

-- One round of `rebalance_after_insertion`.
unfoldable pub insertion_round : (header p : Ptr) → Cmd RbNodes (Option Ptr)
unfolding get_parent get_color
insertion_round header p = do
  p_parent ← get_parent p
  p_grandparent ← get_parent p_parent
  if p_parent == header then pure none else do
    c ← get_color p_parent
    if not (is_red c) || p_grandparent == header
        then pure none
        else recolor_or_rotate header p p_parent p_grandparent

pub insertion_loop : ℕ → (header p : Ptr) → Cmd RbNodes (Unit {0})
insertion_loop zero header p = λ _. out_of_fuel
insertion_loop (suc k) header p = do
  next ← insertion_round header p
  elim next [ none ↦ pure tt | some q ↦ insertion_loop k header q ]

unfoldable pub rebalance_after_insertion : ℕ → (header p : Ptr) → Cmd RbNodes (Unit {0})
unfolding get_parent set_color insertion_loop
rebalance_after_insertion fuel header p = do
  set_color p red
  insertion_loop fuel header p
  root ← get_parent header
  set_color root black

unfoldable pub insert_unique_commit :
    ℕ → (header new_value : Ptr) → InsertCommitData → Cmd RbNodes (Unit {0})
unfolding insert_commit rebalance_after_insertion
insert_unique_commit fuel header new_value commit_data = do
  insert_commit header new_value commit_data
  rebalance_after_insertion fuel header new_value
