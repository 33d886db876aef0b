-- ===== src/Treap/Transfer.antt =====
-- The transfers of include/boost/intrusive/treap_algorithms.hpp, between two treaps, and its check of
-- the heap order.
use intrusive.Base.{ℕ, zero, suc, Bool, true, false, ◌==◌, Option, if◌then◌else◌}
use intrusive.Machine.{Ptr, out_of_fuel, Cmd, pure, ◌>>=◌, ◌>>◌}
use intrusive.BsTree.{Nodes, get_parent, begin_node, end_node}
use intrusive.BsTree.Navigate.{next_node}
use intrusive.BsTree.Insert.{insert_commit}
use intrusive.BsTree.Place.{insert_equal_upper_bound_check}
use intrusive.BsTree.Erase
use intrusive.Treap.{
  asked, TreapCheck, insertable_at, present_as, rotate_up_n, rebalance_for_erasure,
  rebalance_after_insertion_check, insert_unique_check, insert_unique_commit, erase,
}

module _ {X : Type 0} where
  -- The second part of `transfer_unique`.
  transfer_checked :
      (pcomp : Ptr → Ptr → Option Bool)
      → ℕ
      → (header1 header2 z : Ptr) → TreapCheck
      → Cmd (Nodes X) Bool
  unfolding erase insert_unique_commit
  transfer_checked pcomp fuel header1 header2 z (insertable_at commit_data) = do
    erased ← erase pcomp fuel header2 z
    insert_unique_commit header1 z commit_data
    pure true
  transfer_checked pcomp fuel header1 header2 z (present_as other) = pure false

  unfoldable pub transfer_unique :
      (less greater : Ptr → Bool)
      → (pcomp : Ptr → Ptr → Option Bool) → ℕ
      → (header1 header2 z : Ptr) → Cmd (Nodes X) Bool
  unfolding insert_unique_check transfer_checked
  transfer_unique less greater pcomp fuel header1 header2 z = do
    transferable ← insert_unique_check less greater (λ y. pcomp z y) fuel header1
    transfer_checked pcomp fuel header1 header2 z transferable

  unfoldable pub transfer_equal :
      (before : Ptr → Bool)
      → (pcomp : Ptr → Ptr → Option Bool) → ℕ
      → (header1 header2 z : Ptr) → Cmd (Nodes X) (Unit {0})
  unfolding insert_equal_upper_bound_check rebalance_after_insertion_check rebalance_for_erasure
      intrusive.BsTree.Erase.erase insert_commit rotate_up_n
  transfer_equal before pcomp fuel header1 header2 z = do
    commit_data ← insert_equal_upper_bound_check before fuel header1
    rotations ← rebalance_after_insertion_check (λ y. pcomp z y) fuel header1 commit_data.node
    rebalance_for_erasure pcomp fuel header2 z
    info ← intrusive.BsTree.Erase.erase fuel header2 z
    insert_commit header1 z commit_data
    rotate_up_n header1 z rotations

  -- Whether the node `beg` comes before its parent, which the header is not.
  out_of_order : (pcomp : Ptr → Ptr → Option Bool) → (header beg : Ptr) → Cmd (Nodes X) Bool
  unfolding get_parent
  out_of_order pcomp header beg = do
    p ← get_parent beg
    if p == header then pure false else asked (pcomp beg p)

  check_loop :
      (pcomp : Ptr → Ptr → Option Bool) → (fuel k : ℕ) → (header beg end : Ptr) → Cmd (Nodes X) Bool
  unfolding next_node out_of_order
  check_loop pcomp fuel zero header beg end = λ _. out_of_fuel
  check_loop pcomp fuel (suc k) header beg end = if beg == end then pure true else do
    bad ← out_of_order pcomp header beg
    (if bad
        then pure false
        else do next ← next_node fuel beg; check_loop pcomp fuel k header next end)

  unfoldable pub check_invariant :
      (pcomp : Ptr → Ptr → Option Bool) → ℕ → (header : Ptr) → Cmd (Nodes X) Bool
  unfolding begin_node end_node check_loop
  check_invariant pcomp fuel header = do
    beg ← begin_node header
    end ← end_node header
    check_loop pcomp fuel fuel header beg end
