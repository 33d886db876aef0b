-- ===== src/Treap.antt =====
-- include/boost/intrusive/treap_algorithms.hpp: a binary search tree that is a heap by the
-- priorities of its nodes. A comparison of priorities returns `none` when it throws.
pub mod Raise
pub mod Merge
pub mod Erasure
pub mod Removal
pub mod Insertion
pub mod Heap
pub mod Climb
pub mod Kept
pub mod Transfer
pub mod Examples
use intrusive.Base.{
  ℕ, zero, suc, ◌+◌, Bool, true, false, ◌==◌, ◌&&◌, not, Option, none, some, if◌then◌else◌,
}
use intrusive.Machine.{Ptr, null, when, throws, out_of_fuel, Cmd, pure, and_then, ◌>>=◌, ◌>>◌}
use intrusive.BsTree.{Nodes, get_parent, get_left, get_right}
use intrusive.BsTree.Rotate.{rotate_left, rotate_right}
use intrusive.BsTree.Insert.{InsertCommitData, insert_commit, CheckResult, insertable, present}
use intrusive.BsTree.Insert
use intrusive.BsTree.Place.{
  insert_before_check, push_back_check, push_front_check, insert_equal_check,
  insert_equal_upper_bound_check, insert_equal_lower_bound_check,
}
use intrusive.BsTree.Erase.{find_header}
use intrusive.BsTree.Erase

-- The answer of a comparison, or its exception.
abbrev pub asked : {S : Type 0} → Option Bool → Cmd S Bool
asked none = throws
asked (some b) = pure b

-- `insert_commit_data`: the place and the number of rotations.
pub record TreapCommitData : Type 0 where
  pub place : InsertCommitData
  pub rotations : ℕ

-- What `insert_unique_check` finds.
pub data TreapCheck : Type 0 where
  insertable_at : TreapCommitData → TreapCheck
  present_as : Ptr → TreapCheck

-- Whether a round of `rebalance_for_erasure` rotates to the right.
unfoldable pub goes_right : (pcomp : Ptr → Ptr → Option Bool) → (z_left z_right : Ptr) → Option Bool
goes_right pcomp z_left z_right =
    if z_right == null
    then some true
    else if z_left == null
    then some false
    else pcomp z_left z_right

module _ {X : Type 0} where
  -- The rounds of `rotate_up_n`.
  unfoldable pub rotate_up_loop :
      (header p : Ptr) → ℕ → (p_parent p_grandparent : Ptr) → Cmd (Nodes X) (Unit {0})
  unfolding get_parent get_left rotate_left rotate_right
  rotate_up_loop header p zero p_parent p_grandparent = pure tt
  rotate_up_loop header p (suc n) p_parent p_grandparent = do
    parent_left ← get_left p_parent
    (if p == parent_left
        then rotate_right p_parent p p_grandparent header
        else rotate_left p_parent p p_grandparent header)
    next ← get_parent p_grandparent
    rotate_up_loop header p n p_grandparent next

  unfoldable pub rotate_up_n : (header p : Ptr) → ℕ → Cmd (Nodes X) (Unit {0})
  unfolding get_parent rotate_up_loop
  rotate_up_n header p n = do
    p_parent ← get_parent p
    p_grandparent ← get_parent p_parent
    rotate_up_loop header p n p_parent p_grandparent

  -- The rounds of `rebalance_for_erasure`; `rerotate_on_destroy` rotates `z` back up when `pcomp`
  -- throws.
  unfoldable pub sink_loop :
      (pcomp : Ptr → Ptr → Option Bool)
      → ℕ
      → (header z : Ptr) → ℕ
      → (z_left z_right : Ptr) → Cmd (Nodes X) (Unit {0})
  unfolding get_parent get_left get_right rotate_left rotate_right goes_right rotate_up_n
  sink_loop pcomp zero header z n z_left z_right = λ _. out_of_fuel
  sink_loop pcomp (suc k) header z n z_left z_right =
      if z_left == null && z_right == null then pure tt else do
        z_parent ← get_parent z
        elim (goes_right pcomp z_left z_right) [
          | none ↦ do rotate_up_n header z n; throws
          | some right ↦ do
            (if right
                then rotate_right z z_left z_parent header
                else rotate_left z z_right z_parent header)
            next_left ← get_left z
            next_right ← get_right z
            sink_loop pcomp k header z (n + 1) next_left next_right
        ]

  unfoldable pub rebalance_for_erasure :
      (pcomp : Ptr → Ptr → Option Bool) → ℕ → (header z : Ptr) → Cmd (Nodes X) (Unit {0})
  unfolding get_left get_right sink_loop
  rebalance_for_erasure pcomp fuel header z = do
    z_left ← get_left z
    z_right ← get_right z
    sink_loop pcomp fuel header z 0 z_left z_right

  unfoldable pub erase :
      (pcomp : Ptr → Ptr → Option Bool) → ℕ → (header z : Ptr) → Cmd (Nodes X) Ptr
  unfolding rebalance_for_erasure intrusive.BsTree.Erase.erase
  erase pcomp fuel header z = do
    rebalance_for_erasure pcomp fuel header z
    info ← intrusive.BsTree.Erase.erase fuel header z
    pure z

  unfoldable pub unlink : (pcomp : Ptr → Ptr → Option Bool) → ℕ → Ptr → Cmd (Nodes X) (Unit {0})
  unfolding get_parent erase
  unlink pcomp fuel n = do
    x ← get_parent n
    when (not (x == null)) (do header ← find_header fuel x; z ← erase pcomp fuel header n; pure tt)

  -- `rebalance_after_insertion_check`: the number of nodes from `up` on that the new one passes.
  -- `above y` is the comparison of the new node's priority with that of `y`.
  unfoldable pub count_rotations :
      (above : Ptr → Option Bool) → ℕ → (header upnode : Ptr) → ℕ → Cmd (Nodes X) ℕ
  unfolding get_parent
  count_rotations above zero header upnode n = λ _. out_of_fuel
  count_rotations above (suc k) header upnode n = if upnode == header then pure n else do
    passes ← asked (above upnode)
    (if passes
        then (do up ← get_parent upnode; count_rotations above k header up (n + 1))
        else pure n)

  unfoldable pub rebalance_after_insertion_check :
      (above : Ptr → Option Bool) → ℕ → (header up : Ptr) → Cmd (Nodes X) ℕ
  unfolding count_rotations
  rebalance_after_insertion_check above fuel header up = count_rotations above fuel header up 0

  unfoldable pub insert_unique_commit :
      (header new_node : Ptr) → TreapCommitData → Cmd (Nodes X) (Unit {0})
  unfolding insert_commit rotate_up_n
  insert_unique_commit header new_node commit_data = do
    insert_commit header new_node commit_data.place
    rotate_up_n header new_node commit_data.rotations

  unfoldable pub rebalance_check_and_commit :
      (above : Ptr → Option Bool)
      → ℕ
      → (h new_node : Ptr) → InsertCommitData
      → Cmd (Nodes X) (Unit {0})
  unfolding rebalance_after_insertion_check insert_unique_commit
  rebalance_check_and_commit above fuel h new_node place = do
    rotations ← rebalance_after_insertion_check above fuel h place.node
    insert_unique_commit h new_node (record { place = place; rotations = rotations })

  add_rotations :
      (above : Ptr → Option Bool) → ℕ → (header : Ptr) → CheckResult → Cmd (Nodes X) TreapCheck
  unfolding rebalance_after_insertion_check
  add_rotations above fuel header (insertable place) = do
    rotations ← rebalance_after_insertion_check above fuel header place.node
    pure (insertable_at (record { place = place; rotations = rotations }))
  add_rotations above fuel header (present other) = pure (present_as other)

  unfoldable pub insert_unique_check :
      (less greater : Ptr → Bool)
      → (above : Ptr → Option Bool) → ℕ
      → (header : Ptr) → Cmd (Nodes X) TreapCheck
  unfolding intrusive.BsTree.Insert.insert_unique_check add_rotations
  insert_unique_check less greater above fuel header = do
    ret ← intrusive.BsTree.Insert.insert_unique_check less greater fuel header
    add_rotations above fuel header ret

  unfoldable pub insert_equal_upper_bound :
      (before : Ptr → Bool)
      → (above : Ptr → Option Bool) → ℕ
      → (h new_node : Ptr) → Cmd (Nodes X) Ptr
  unfolding insert_equal_upper_bound_check rebalance_check_and_commit
  insert_equal_upper_bound before above fuel h new_node = do
    commit_data ← insert_equal_upper_bound_check before fuel h
    rebalance_check_and_commit above fuel h new_node commit_data
    pure new_node

  unfoldable pub insert_equal_lower_bound :
      (after : Ptr → Bool)
      → (above : Ptr → Option Bool) → ℕ
      → (h new_node : Ptr) → Cmd (Nodes X) Ptr
  unfolding insert_equal_lower_bound_check rebalance_check_and_commit
  insert_equal_lower_bound after above fuel h new_node = do
    commit_data ← insert_equal_lower_bound_check after fuel h
    rebalance_check_and_commit above fuel h new_node commit_data
    pure new_node

  unfoldable pub insert_equal :
      (before after : Ptr → Bool)
      → (above : Ptr → Option Bool) → ℕ
      → (h hint new_node : Ptr) → Cmd (Nodes X) Ptr
  unfolding insert_equal_check rebalance_check_and_commit
  insert_equal before after above fuel h hint new_node = do
    commit_data ← insert_equal_check before after fuel h hint
    rebalance_check_and_commit above fuel h new_node commit_data
    pure new_node

  unfoldable pub insert_before :
      (above : Ptr → Option Bool) → ℕ → (header pos new_node : Ptr) → Cmd (Nodes X) Ptr
  unfolding insert_before_check rebalance_check_and_commit
  insert_before above fuel header pos new_node = do
    commit_data ← insert_before_check fuel header pos
    rebalance_check_and_commit above fuel header new_node commit_data
    pure new_node

  unfoldable pub push_back :
      (above : Ptr → Option Bool) → ℕ → (header new_node : Ptr) → Cmd (Nodes X) (Unit {0})
  unfolding push_back_check rebalance_check_and_commit
  push_back above fuel header new_node = do
    commit_data ← push_back_check header
    rebalance_check_and_commit above fuel header new_node commit_data

  unfoldable pub push_front :
      (above : Ptr → Option Bool) → ℕ → (header new_node : Ptr) → Cmd (Nodes X) (Unit {0})
  unfolding push_front_check rebalance_check_and_commit
  push_front above fuel header new_node = do
    commit_data ← push_front_check header
    rebalance_check_and_commit above fuel header new_node commit_data
