-- ===== src/BsTree/Erase.antt =====
-- The removals of include/boost/intrusive/bstree_algorithms.hpp.
pub mod Lift
pub mod Ends
pub mod Spine
pub mod Relink
pub mod Far
pub mod Near
pub mod Whole
use intrusive.Base.{ℕ, zero, suc, Bool, true, false, ◌==◌, not, if◌then◌else◌}
use intrusive.Machine.{Ptr, null, out_of_fuel, Cmd, pure, ◌>>=◌, ◌>>◌, when}
use intrusive.BsTree.{
  Nodes, get_parent, get_left, get_right, set_parent, set_left, set_right, set_child,
}
use intrusive.BsTree.Navigate.{minimum, maximum, is_header}
use intrusive.BsTree.Insert.{CheckResult, insertable, present, insert_commit}
use intrusive.BsTree.Place.{insert_equal_upper_bound_check}

-- `data_for_rebalance`.
pub record DataForRebalance : Type 0 where
  pub x : Ptr
  pub x_parent : Ptr
  pub y : Ptr

-- A node of two children is replaced by its successor, any other by its child or null.
pub record Successor : Type 0 where
  pub y : Ptr
  pub x : Ptr

module _ {X : Type 0} where
  pub choose_successor : ℕ → (z z_left z_right : Ptr) → Cmd (Nodes X) Successor
  unfolding get_right minimum
  choose_successor fuel z z_left z_right =
      if z_left == null
      then pure (record { y = z; x = z_right })
      else if z_right == null
      then pure (record { y = z; x = z_left })
      else do y ← minimum fuel z_right; x ← get_right y; pure (record { y = y; x = x })

  -- `y != z`: the successor `y` takes the place of `z`. The result is `x_parent`.
  pub relink_successor : (header z z_left z_right z_parent y x : Ptr) → Bool → Cmd (Nodes X) Ptr
  unfolding get_parent set_parent set_left set_right set_child
  relink_successor header z z_left z_right z_parent y x z_is_leftchild = do
    set_parent z_left y
    set_left y z_left
    x_parent ←
        (if not (y == z_right)
          then (do
            set_right y z_right
            set_parent z_right y
            y_parent ← get_parent y
            when (not (x == null)) (set_parent x y_parent)
            set_left y_parent x
            pure y_parent)
          else pure y)
    set_parent y z_parent
    set_child header y z_parent z_is_leftchild
    pure x_parent

  -- `z` had at most one child: the header's leftmost and rightmost nodes.
  pub update_ends : ℕ → (header z z_left z_right z_parent : Ptr) → Cmd (Nodes X) (Unit {0})
  unfolding get_left get_right set_left set_right minimum maximum
  update_ends fuel header z z_left z_right z_parent = do
    leftmost ← get_left header
    when (leftmost == z) (do
      next ← (if z_right == null then pure z_parent else minimum fuel z_right)
      set_left header next)
    rightmost ← get_right header
    when (rightmost == z) (do
      prev ← (if z_left == null then pure z_parent else maximum fuel z_left)
      set_right header prev)

  unfoldable pub erase : ℕ → (header z : Ptr) → Cmd (Nodes X) DataForRebalance
  unfolding get_parent get_left get_right set_parent set_child choose_successor relink_successor
      update_ends
  erase fuel header z = do
    z_left ← get_left z
    z_right ← get_right z
    s ← choose_successor fuel z z_left z_right
    z_parent ← get_parent z
    parent_left ← get_left z_parent
    x_parent ←
        (if not (s.y == z)
          then relink_successor header z z_left z_right z_parent s.y s.x (parent_left == z)
          else (do
            when (not (s.x == null)) (set_parent s.x z_parent)
            set_child header s.x z_parent (parent_left == z)
            update_ends fuel header z z_left z_right z_parent
            pure z_parent))
    pure (record { x = s.x; x_parent = x_parent; y = s.y })

  -- `while (!is_header(x)) x = get_parent(x);`
  pub find_header : ℕ → Ptr → Cmd (Nodes X) Ptr
  unfolding get_parent is_header
  find_header zero x = λ _. out_of_fuel
  find_header (suc k) x = do
    at_header ← is_header x
    if at_header then pure x else do p ← get_parent x; find_header k p

  unfoldable pub unlink : ℕ → Ptr → Cmd (Nodes X) (Unit {0})
  unfolding get_parent erase find_header
  unlink fuel n = do
    x ← get_parent n
    when (not (x == null)) (do header ← find_header fuel x; info ← erase fuel header n; pure tt)

  unfoldable pub unlink_leftmost_without_rebalance : ℕ → Ptr → Cmd (Nodes X) Ptr
  unfolding get_parent get_left get_right set_parent set_left set_right minimum
  unlink_leftmost_without_rebalance fuel header = do
    leftmost ← get_left header
    if leftmost == header then pure null else do
      leftmost_parent ← get_parent leftmost
      leftmost_right ← get_right leftmost
      (if not (leftmost_right == null)
          then (do
            set_parent leftmost_right leftmost_parent
            first ← minimum fuel leftmost_right
            set_left header first
            if leftmost_parent == header
                then set_parent header leftmost_right
                else (do root ← get_parent header; set_left root leftmost_right))
          else if leftmost_parent == header
          then (do set_parent header null; set_left header header; set_right header header)
          else (do set_left leftmost_parent null; set_left header leftmost_parent))
      pure leftmost

  -- The transfers between trees. `check` is `insert_unique_check` with the comparisons of `z`;
  -- `info` is left as it was when the key is present.
  transfer_checked :
      ℕ
      → (header1 header2 z : Ptr) → DataForRebalance
      → CheckResult
      → Cmd (Nodes X) (Bool × DataForRebalance)
  unfolding erase insert_commit
  transfer_checked fuel header1 header2 z info (insertable commit_data) = do
    info' ← erase fuel header2 z
    insert_commit header1 z commit_data
    pure (true, info')
  transfer_checked fuel header1 header2 z info (present other) = pure (false, info)

  unfoldable pub transfer_unique :
      Cmd (Nodes X) CheckResult
      → ℕ
      → (header1 header2 z : Ptr) → DataForRebalance
      → Cmd (Nodes X) (Bool × DataForRebalance)
  unfolding transfer_checked
  transfer_unique check fuel header1 header2 z info = do
    r ← check
    transfer_checked fuel header1 header2 z info r

  unfoldable pub transfer_equal :
      (before : Ptr → Bool) → ℕ → (header1 header2 z : Ptr) → Cmd (Nodes X) DataForRebalance
  unfolding erase insert_commit insert_equal_upper_bound_check
  transfer_equal before fuel header1 header2 z = do
    commit_data ← insert_equal_upper_bound_check before fuel header1
    info ← erase fuel header2 z
    insert_commit header1 z commit_data
    pure info
