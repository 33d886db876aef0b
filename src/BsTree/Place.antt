-- ===== src/BsTree/Place.antt =====
-- The insertions of include/boost/intrusive/bstree_algorithms.hpp that allow equal keys, or whose
-- place the caller names. `before y` is the comparison of the new node with `y`, `after y` that
-- of `y` with the new node. The depth that some callers ask for is not computed here.
use intrusive.Base.{ℕ, zero, suc, Bool, true, false, ◌==◌, ◌||◌, not, if◌then◌else◌}
use intrusive.Machine.{Ptr, null, out_of_fuel, Cmd, pure, ◌>>=◌, ◌>>◌}
use intrusive.BsTree.{Nodes, get_parent, get_left, get_right, unique}
use intrusive.BsTree.Navigate.{prev_node}
use intrusive.BsTree.Insert.{InsertCommitData, commit_at, insert_commit}

module _ {X : Type 0} where
  -- `unique(header) || !get_left(pos)`, and the commit data it decides on.
  choose_side : (header pos prev : Ptr) → Cmd (Nodes X) InsertCommitData
  unfolding get_left unique
  choose_side header pos prev = do
    no_nodes ← unique header
    if no_nodes then pure (commit_at true pos) else do
      l ← get_left pos
      pure (if l == null then commit_at true pos else commit_at false prev)

  unfoldable pub insert_before_check : ℕ → (header pos : Ptr) → Cmd (Nodes X) InsertCommitData
  unfolding get_left prev_node choose_side
  insert_before_check fuel header pos = do
    leftmost ← get_left header
    prev ← (if pos == leftmost then pure pos else prev_node fuel pos)
    choose_side header pos prev

  unfoldable pub push_back_check : Ptr → Cmd (Nodes X) InsertCommitData
  unfolding get_right
  push_back_check header = do prev ← get_right header; pure (commit_at false prev)

  unfoldable pub push_front_check : Ptr → Cmd (Nodes X) InsertCommitData
  unfolding get_left
  push_front_check header = do pos ← get_left header; pure (commit_at true pos)

  unfoldable pub insert_before : ℕ → (header pos new_node : Ptr) → Cmd (Nodes X) Ptr
  unfolding insert_before_check insert_commit
  insert_before fuel header pos new_node = do
    commit_data ← insert_before_check fuel header pos
    insert_commit header new_node commit_data
    pure new_node

  unfoldable pub push_back : (header new_node : Ptr) → Cmd (Nodes X) (Unit {0})
  unfolding push_back_check insert_commit
  push_back header new_node = do
    commit_data ← push_back_check header
    insert_commit header new_node commit_data

  unfoldable pub push_front : (header new_node : Ptr) → Cmd (Nodes X) (Unit {0})
  unfolding push_front_check insert_commit
  push_front header new_node = do
    commit_data ← push_front_check header
    insert_commit header new_node commit_data

  -- The descent from `x` below `y`; it goes left where `goes_left` says so.
  pub descend : (goes_left : Ptr → Bool) → ℕ → (x y : Ptr) → Cmd (Nodes X) Ptr
  unfolding get_left get_right
  descend goes_left zero x y = λ _. out_of_fuel
  descend goes_left (suc k) x y =
      if x == null
      then pure y
      else if goes_left x
      then (do l ← get_left x; descend goes_left k l x)
      else (do r ← get_right x; descend goes_left k r x)

  unfoldable pub insert_equal_upper_bound_check :
      (before : Ptr → Bool) → ℕ → Ptr → Cmd (Nodes X) InsertCommitData
  unfolding get_parent descend
  insert_equal_upper_bound_check before fuel h = do
    root ← get_parent h
    y ← descend before fuel root h
    pure (commit_at (y == h || before y) y)

  unfoldable pub insert_equal_lower_bound_check :
      (after : Ptr → Bool) → ℕ → Ptr → Cmd (Nodes X) InsertCommitData
  unfolding get_parent descend
  insert_equal_lower_bound_check after fuel h = do
    root ← get_parent h
    y ← descend (λ x. not (after x)) fuel root h
    pure (commit_at (y == h || not (after y)) y)

  unfoldable pub insert_equal_check :
      (before after : Ptr → Bool) → ℕ → (header hint : Ptr) → Cmd (Nodes X) InsertCommitData
  unfolding get_left prev_node choose_side insert_equal_upper_bound_check
      insert_equal_lower_bound_check
  insert_equal_check before after fuel header hint =
      if hint == header || not (after hint)
      then (do
        leftmost ← get_left header
        if hint == leftmost then choose_side header hint hint else do
          prev ← prev_node fuel hint
          if before prev
              then insert_equal_upper_bound_check before fuel header
              else choose_side header hint prev)
      else insert_equal_lower_bound_check after fuel header

  unfoldable pub insert_equal :
      (before after : Ptr → Bool) → ℕ → (h hint new_node : Ptr) → Cmd (Nodes X) Ptr
  unfolding insert_equal_check insert_commit
  insert_equal before after fuel h hint new_node = do
    commit_data ← insert_equal_check before after fuel h hint
    insert_commit h new_node commit_data
    pure new_node

  unfoldable pub insert_equal_upper_bound :
      (before : Ptr → Bool) → ℕ → (h new_node : Ptr) → Cmd (Nodes X) Ptr
  unfolding insert_equal_upper_bound_check insert_commit
  insert_equal_upper_bound before fuel h new_node = do
    commit_data ← insert_equal_upper_bound_check before fuel h
    insert_commit h new_node commit_data
    pure new_node

  unfoldable pub insert_equal_lower_bound :
      (after : Ptr → Bool) → ℕ → (h new_node : Ptr) → Cmd (Nodes X) Ptr
  unfolding insert_equal_lower_bound_check insert_commit
  insert_equal_lower_bound after fuel h new_node = do
    commit_data ← insert_equal_lower_bound_check after fuel h
    insert_commit h new_node commit_data
    pure new_node
