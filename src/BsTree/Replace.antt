-- ===== src/BsTree/Replace.antt =====
-- `replace_node`, `swap_nodes` and `swap_tree` of include/boost/intrusive/bstree_algorithms.hpp.
use intrusive.Base.{◌==◌, not, if◌then◌else◌}
use intrusive.Machine.{Ptr, null, Cmd, pure, ◌>>=◌, ◌>>◌, when}
use intrusive.BsTree.{Nodes, get_parent, get_left, get_right, set_parent, set_left, set_right}

module _ {X : Type 0} where
  -- If a field of the header names `old`, it names `new` instead.
  replace_left : (n old new : Ptr) → Cmd (Nodes X) (Unit {0})
  unfolding get_left set_left
  replace_left n old new = do l ← get_left n; when (old == l) (set_left n new)

  replace_right : (n old new : Ptr) → Cmd (Nodes X) (Unit {0})
  unfolding get_right set_right
  replace_right n old new = do r ← get_right n; when (old == r) (set_right n new)

  replace_parent : (n old new : Ptr) → Cmd (Nodes X) (Unit {0})
  unfolding get_parent set_parent
  replace_parent n old new = do p ← get_parent n; when (old == p) (set_parent n new)

  -- The children of `n`, if any, get `n` as their parent.
  adopt_children : Ptr → Cmd (Nodes X) (Unit {0})
  unfolding get_left get_right set_parent
  adopt_children n = do
    l ← get_left n
    when (not (l == null)) (set_parent l n)
    r ← get_right n
    when (not (r == null)) (set_parent r n)

  -- The parent of `n`, if it is neither null nor the header, gets `n` as a child in place of `old`.
  tell_parent : (header n old : Ptr) → Cmd (Nodes X) (Unit {0})
  unfolding get_parent replace_left replace_right
  tell_parent header n old = do
    p ← get_parent n
    if p == null
        then pure tt
        else when (not (p == header)) (do replace_left p old n; replace_right p old n)

  unfoldable pub replace_node :
      (node_to_be_replaced header new_node : Ptr) → Cmd (Nodes X) (Unit {0})
  unfolding get_parent get_left get_right set_parent set_left set_right replace_left replace_right
      replace_parent adopt_children tell_parent
  replace_node node_to_be_replaced header new_node = do
    replace_left header node_to_be_replaced new_node
    replace_right header node_to_be_replaced new_node
    replace_parent header node_to_be_replaced new_node
    l ← get_left node_to_be_replaced
    set_left new_node l
    r ← get_right node_to_be_replaced
    set_right new_node r
    p ← get_parent node_to_be_replaced
    set_parent new_node p
    adopt_children new_node
    tell_parent header new_node node_to_be_replaced

  -- The headers, when the nodes are in different trees.
  swap_in_headers : (node1 header1 node2 header2 : Ptr) → Cmd (Nodes X) (Unit {0})
  unfolding replace_left replace_right replace_parent
  swap_in_headers node1 header1 node2 header2 = do
    replace_left header1 node1 node2
    replace_right header1 node1 node2
    replace_parent header1 node1 node2
    replace_left header2 node2 node1
    replace_right header2 node2 node1
    replace_parent header2 node2 node1

  -- The header, when the nodes are in the same tree.
  swap_in_header : (node1 header1 node2 header2 : Ptr) → Cmd (Nodes X) (Unit {0})
  unfolding get_parent get_left get_right set_parent set_left set_right replace_left replace_right
      replace_parent
  swap_in_header node1 header1 node2 header2 = do
    l ← get_left header1
    (if node1 == l then set_left header1 node2 else replace_left header2 node2 node1)
    r ← get_right header1
    (if node1 == r then set_right header1 node2 else replace_right header2 node2 node1)
    p ← get_parent header1
    (if node1 == p then set_parent header1 node2 else replace_parent header2 node2 node1)

  -- When one is the parent of the other, its links to the other become links to itself.
  prepare_neighbours : (node1 node2 : Ptr) → Cmd (Nodes X) (Unit {0})
  unfolding get_parent get_right set_parent set_left set_right
  prepare_neighbours node1 node2 = do
    p2 ← get_parent node2
    if node1 == p2
        then (do
          set_parent node2 node2
          r1 ← get_right node1
          if node2 == r1 then set_right node1 node1 else set_left node1 node1)
        else (do
          p1 ← get_parent node1
          when (node2 == p1) (do
            set_parent node1 node1
            r2 ← get_right node2
            if node1 == r2 then set_right node2 node2 else set_left node2 node2))

  swap_all_links : (node1 node2 : Ptr) → Cmd (Nodes X) (Unit {0})
  unfolding get_parent get_left get_right set_parent set_left set_right
  swap_all_links node1 node2 = do
    left1 ← get_left node1
    left2 ← get_left node2
    set_left node1 left2
    set_left node2 left1
    right1 ← get_right node1
    right2 ← get_right node2
    set_right node1 right2
    set_right node2 right1
    parent1 ← get_parent node1
    parent2 ← get_parent node2
    set_parent node1 parent2
    set_parent node2 parent1

  swap_in_parents : (node1 header1 node2 header2 : Ptr) → Cmd (Nodes X) (Unit {0})
  unfolding get_parent get_left get_right set_left set_right tell_parent
  swap_in_parents node1 header1 node2 header2 = do
    p1 ← get_parent node1
    p2 ← get_parent node2
    if p1 == p2
        then (do l ← get_left p1; r ← get_right p1; set_left p1 r; set_right p1 l)
        else (do tell_parent header2 node1 node2; tell_parent header1 node2 node1)

  unfoldable pub swap_nodes : (node1 header1 node2 header2 : Ptr) → Cmd (Nodes X) (Unit {0})
  unfolding swap_in_headers swap_in_header prepare_neighbours swap_all_links adopt_children
      swap_in_parents
  swap_nodes node1 header1 node2 header2 = if node1 == node2 then pure tt else do
    (if header1 == header2
        then (do swap_in_header node1 header1 node2 header2; prepare_neighbours node1 node2)
        else swap_in_headers node1 header1 node2 header2)
    swap_all_links node1 node2
    adopt_children node1
    adopt_children node2
    swap_in_parents node1 header1 node2 header2

  -- The root, if any, gets the header as its parent; with no root the header becomes that of an
  -- empty tree.
  settle_header : Ptr → Cmd (Nodes X) (Unit {0})
  unfolding get_parent set_parent set_left set_right
  settle_header header = do
    parent ← get_parent header
    if parent == null
        then (do set_left header header; set_right header header)
        else set_parent parent header

  unfoldable pub swap_tree : (header1 header2 : Ptr) → Cmd (Nodes X) (Unit {0})
  unfolding get_parent get_left get_right set_parent set_left set_right settle_header
  swap_tree header1 header2 = if header1 == header2 then pure tt else do
    parent1 ← get_parent header1
    parent2 ← get_parent header2
    set_parent header1 parent2
    set_parent header2 parent1
    left1 ← get_left header1
    left2 ← get_left header2
    set_left header1 left2
    set_left header2 left1
    right1 ← get_right header1
    right2 ← get_right header2
    set_right header1 right2
    set_right header2 right1
    settle_header header1
    settle_header header2
