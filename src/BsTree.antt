-- ===== src/BsTree.antt =====
-- include/boost/intrusive/bstree_algorithms.hpp over include/boost/intrusive/detail/tree_node.hpp.
-- A node has a parent, a left and a right pointer. The algorithms of balanced trees extend these,
-- with a further field of type `X` in each node (the colour of a red-black tree).
-- The header's parent is the root, its left and right the leftmost and the rightmost node.
pub mod Navigate
pub mod Access
pub mod Shape
pub mod Hang
pub mod Turn
pub mod TurnLeft
pub mod TurnRight
pub mod Search
pub mod Order
pub mod Split
pub mod Bounds
pub mod Range
pub mod Between
pub mod Find
pub mod CheckUnique
pub mod Step
pub mod Count
pub mod Locate
pub mod Insert
pub mod Commit
pub mod Rotate
pub mod Place
pub mod Replace
pub mod Erase
pub mod Vine
pub mod Examples
use intrusive.Base.{Bool, ◌==◌, ◌&&◌, if◌then◌else◌}
use intrusive.Machine.{Ptr, null, ok, Cmd, pure, and_then, ◌>>=◌, ◌>>◌, deref, update}

-- `parent_`, `left_`, `right_` and the further field of every node.
pub record Nodes (X : Type 0) : Type 0 where
  pub parent : Ptr → Ptr
  pub left : Ptr → Ptr
  pub right : Ptr → Ptr
  pub tag : Ptr → X

module _ {X : Type 0} where
  unfoldable pub get_parent : Ptr → Cmd (Nodes X) Ptr
  get_parent n = deref n λ h. ok (h.parent n) h

  unfoldable pub get_left : Ptr → Cmd (Nodes X) Ptr
  get_left n = deref n λ h. ok (h.left n) h

  unfoldable pub get_right : Ptr → Cmd (Nodes X) Ptr
  get_right n = deref n λ h. ok (h.right n) h

  unfoldable pub set_parent : Ptr → Ptr → Cmd (Nodes X) (Unit {0})
  set_parent n p = deref n λ h. ok tt (record h { parent = update h.parent n p })

  unfoldable pub set_left : Ptr → Ptr → Cmd (Nodes X) (Unit {0})
  set_left n p = deref n λ h. ok tt (record h { left = update h.left n p })

  unfoldable pub set_right : Ptr → Ptr → Cmd (Nodes X) (Unit {0})
  set_right n p = deref n λ h. ok tt (record h { right = update h.right n p })

  unfoldable pub get_tag : Ptr → Cmd (Nodes X) X
  get_tag n = deref n λ h. ok (h.tag n) h

  unfoldable pub set_tag : Ptr → X → Cmd (Nodes X) (Unit {0})
  set_tag n x = deref n λ h. ok tt (record h { tag = update h.tag n x })

  unfoldable pub init : Ptr → Cmd (Nodes X) (Unit {0})
  unfolding set_parent set_left set_right
  init n = do set_parent n null; set_left n null; set_right n null

  unfoldable pub inited : Ptr → Cmd (Nodes X) Bool
  unfolding get_parent get_left get_right
  inited n = do
    p ← get_parent n
    l ← get_left n
    r ← get_right n
    pure (p == null && (l == null && r == null))

  unfoldable pub init_header : Ptr → Cmd (Nodes X) (Unit {0})
  unfolding set_parent set_left set_right
  init_header header = do set_parent header null; set_left header header; set_right header header

  unfoldable pub begin_node : Ptr → Cmd (Nodes X) Ptr
  unfolding get_left
  begin_node header = get_left header

  unfoldable pub end_node : Ptr → Cmd (Nodes X) Ptr
  end_node header = pure header

  unfoldable pub root_node : Ptr → Cmd (Nodes X) Ptr
  unfolding get_parent
  root_node header = do p ← get_parent header; pure (if p == null then header else p)

  unfoldable pub unique : Ptr → Cmd (Nodes X) Bool
  unfolding get_parent
  unique n = do p ← get_parent n; pure (p == null)

  unfoldable pub is_left_child : Ptr → Cmd (Nodes X) Bool
  unfolding get_parent get_left
  is_left_child p = do parent ← get_parent p; l ← get_left parent; pure (l == p)

  unfoldable pub is_right_child : Ptr → Cmd (Nodes X) Bool
  unfolding get_parent get_right
  is_right_child p = do parent ← get_parent p; r ← get_right parent; pure (r == p)

  -- Makes `new_child` the root, or a child of `new_parent`.
  unfoldable pub set_child : (header new_child new_parent : Ptr) → Bool → Cmd (Nodes X) (Unit {0})
  unfolding set_parent set_left set_right
  set_child header new_child new_parent link_left =
      if new_parent == header
      then set_parent header new_child
      else if link_left
      then set_left new_parent new_child
      else set_right new_parent new_child
