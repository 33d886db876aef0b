-- ===== src/BsTree/Rotate.antt =====
-- The rotations of include/boost/intrusive/bstree_algorithms.hpp.
use intrusive.Base.{◌==◌, if◌then◌else◌}
use intrusive.Machine.{Ptr, null, Cmd, pure, ◌>>=◌, ◌>>◌}
use intrusive.BsTree.{Nodes, get_left, get_right, set_parent, set_left, set_right, set_child}

module _ {X : Type 0} where
  unfoldable pub rotate_left_no_parent_fix : (p p_right : Ptr) → Cmd (Nodes X) (Unit {0})
  unfolding get_left set_parent set_left set_right
  rotate_left_no_parent_fix p p_right = do
    p_right_left ← get_left p_right
    set_right p p_right_left
    if p_right_left == null then pure tt else set_parent p_right_left p
    set_left p_right p
    set_parent p p_right

  unfoldable pub rotate_left : (p p_right p_parent header : Ptr) → Cmd (Nodes X) (Unit {0})
  unfolding get_left set_parent rotate_left_no_parent_fix set_child
  rotate_left p p_right p_parent header = do
    parent_left ← get_left p_parent
    rotate_left_no_parent_fix p p_right
    set_parent p_right p_parent
    set_child header p_right p_parent (parent_left == p)

  unfoldable pub rotate_right_no_parent_fix : (p p_left : Ptr) → Cmd (Nodes X) (Unit {0})
  unfolding get_right set_parent set_left set_right
  rotate_right_no_parent_fix p p_left = do
    p_left_right ← get_right p_left
    set_left p p_left_right
    if p_left_right == null then pure tt else set_parent p_left_right p
    set_right p_left p
    set_parent p p_left

  unfoldable pub rotate_right : (p p_left p_parent header : Ptr) → Cmd (Nodes X) (Unit {0})
  unfolding get_left set_parent rotate_right_no_parent_fix set_child
  rotate_right p p_left p_parent header = do
    parent_left ← get_left p_parent
    rotate_right_no_parent_fix p p_left
    set_parent p_left p_parent
    set_child header p_left p_parent (parent_left == p)
