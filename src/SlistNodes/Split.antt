-- ===== src/SlistNodes/Split.antt =====
-- `stable_partition` of include/boost/intrusive/detail/common_slist_algorithms.hpp. The test
-- returns `none` when it throws.
use intrusive.Base.{ℕ, zero, suc, ◌+◌, Bool, true, false, ◌==◌, Option, none, some, if◌then◌else◌}
use intrusive.Machine.{Ptr, throws, out_of_fuel, Cmd, pure, ◌>>=◌, ◌>>◌}
use intrusive.SlistNodes.{Nexts, get_next, set_next}

-- `stable_partition_info`.
pub record StablePartitionInfo : Type 0 where
  pub num_1st_partition : ℕ
  pub num_2nd_partition : ℕ
  pub beg_2st_partition : Ptr
  pub new_last_node : Ptr

abbrev pub partition_info : ℕ → ℕ → (new_f bcur : Ptr) → StablePartitionInfo
partition_info num1 num2 new_f bcur = record {
  num_1st_partition = num1;
  num_2nd_partition = num2;
  beg_2st_partition = new_f;
  new_last_node = bcur;
}

-- The main loop, its exception handler included.
main_loop :
    (Ptr → Option Bool)
    → ℕ
    → (end new_f last_to_remove bcur cur : Ptr) → (num1 num2 : ℕ) → Cmd Nexts StablePartitionInfo
unfolding get_next set_next
main_loop pred zero end new_f last_to_remove bcur cur num1 num2 = λ _. out_of_fuel
main_loop pred (suc k) end new_f last_to_remove bcur cur num1 num2 =
    if cur == end
    then (do set_next last_to_remove new_f; pure (partition_info num1 num2 new_f bcur))
    else elim (pred cur) [
      | none ↦ do set_next last_to_remove new_f; throws
      | some true ↦ do
        set_next last_to_remove cur
        nxt ← get_next cur
        set_next bcur nxt
        main_loop pred k end new_f cur bcur nxt (num1 + 1) num2
      | some false ↦ do
        nxt ← get_next cur
        main_loop pred k end new_f last_to_remove cur nxt num1 (num2 + 1)
    ]

-- The loop over the nodes in front of the first one that fails the test.
front_loop :
    (Ptr → Option Bool) → ℕ → (end bcur cur : Ptr) → (num1 : ℕ) → Cmd Nexts StablePartitionInfo
unfolding get_next main_loop
front_loop pred zero end bcur cur num1 = λ _. out_of_fuel
front_loop pred (suc k) end bcur cur num1 =
    if cur == end then pure (partition_info num1 0 end bcur) else elim (pred cur) [
      | none ↦ throws
      | some true ↦ do nxt ← get_next cur; front_loop pred k end cur nxt (num1 + 1)
      | some false ↦ do nxt ← get_next cur; main_loop pred k end cur bcur cur nxt num1 1
    ]

unfoldable pub stable_partition :
    (Ptr → Option Bool) → ℕ → (before_beg end : Ptr) → Cmd Nexts StablePartitionInfo
unfolding get_next front_loop
stable_partition pred fuel before_beg end = do
  cur ← get_next before_beg
  front_loop pred fuel end before_beg cur 0
