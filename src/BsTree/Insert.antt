-- ===== src/BsTree/Insert.antt =====
-- The insertions of include/boost/intrusive/bstree_algorithms.hpp: a check finds the place, and
-- the commit links the node there. The depth that some callers ask for is not computed here.
use intrusive.Base.{ℕ, zero, suc, Bool, true, false, ◌==◌, ◌||◌, if◌then◌else◌}
use intrusive.Machine.{Ptr, null, out_of_fuel, Cmd, pure, ◌>>=◌, ◌>>◌}
use intrusive.BsTree.{Nodes, get_parent, get_left, get_right, set_parent, set_left, set_right}

-- `insert_commit_data`.
pub record InsertCommitData : Type 0 where
  pub link_left : Bool
  pub node : Ptr

abbrev pub commit_at : Bool → Ptr → InsertCommitData
commit_at l n = record { link_left = l; node = n }

-- The place to insert at, or the node that has the key.
pub data CheckResult : Type 0 where
  insertable : InsertCommitData → CheckResult
  present : Ptr → CheckResult

module _ {X : Type 0} where
  -- The links to the new node, the header's leftmost and rightmost node included.
  unfoldable pub link_child : (header new_node : Ptr) → InsertCommitData → Cmd (Nodes X) (Unit {0})
  unfolding get_left get_right set_parent set_left set_right
  link_child header new_node commit_data =
      if commit_data.node == header
      then (do set_parent header new_node; set_right header new_node; set_left header new_node)
      else if commit_data.link_left
      then (do
        set_left commit_data.node new_node
        leftmost ← get_left header
        if commit_data.node == leftmost then set_left header new_node else pure tt)
      else (do
        set_right commit_data.node new_node
        rightmost ← get_right header
        if commit_data.node == rightmost then set_right header new_node else pure tt)

  unfoldable pub insert_commit :
      (header new_node : Ptr) → InsertCommitData → Cmd (Nodes X) (Unit {0})
  unfolding set_parent set_left set_right link_child
  insert_commit header new_node commit_data = do
    link_child header new_node commit_data
    set_parent new_node commit_data.node
    set_right new_node null
    set_left new_node null

  -- What the descent of `insert_unique_check` has found when it ends.
  unfoldable pub descend_unique :
      (greater : Ptr → Bool) → ℕ → (x y prev : Ptr) → Bool → Cmd (Nodes X) (Bool × Ptr × Ptr)
  unfolding get_left get_right
  descend_unique greater zero x y prev left_child = λ _. out_of_fuel
  descend_unique greater (suc k) x y prev left_child =
      if x == null
      then pure (left_child, y, prev)
      else if greater x
      then (do l ← get_left x; descend_unique greater k l x prev true)
      else (do r ← get_right x; descend_unique greater k r x x false)

  unfoldable pub insert_unique_check :
      (less greater : Ptr → Bool) → ℕ → (header : Ptr) → Cmd (Nodes X) CheckResult
  unfolding get_parent descend_unique
  insert_unique_check less greater fuel header = do
    root ← get_parent header
    (left_child, y, prev) ← descend_unique greater fuel root header null true
    pure (if prev == null || less prev then insertable (commit_at left_child y) else present prev)
