-- ===== src/BsTree/Vine.antt =====
-- `rebalance` of include/boost/intrusive/bstree_algorithms.hpp: a tree becomes a vine, a list
-- along the right links, and the vine a balanced tree.
use intrusive.Base.{ℕ, zero, suc, ◌+◌, ◌-◌, ◌/◌, ◌^◌, ◌==◌, ltb, not, if◌then◌else◌}
use intrusive.Machine.{Ptr, null, out_of_fuel, Cmd, pure, ◌>>=◌, ◌>>◌, when}
use intrusive.BsTree.{
  Nodes, get_parent, get_left, get_right, set_parent, set_left, set_right, is_right_child,
}

-- `floor_log2` of include/boost/intrusive/detail/math.hpp, the portable version for a 64-bit
-- `size_t`: the shifts are 32, 16, 8, 4, 2 and 1, `2 ^ k` for `k` from 5 down to 0.
floor_log2_loop : ℕ → (n log2 : ℕ) → ℕ
floor_log2_loop zero n log2 = log2
floor_log2_loop (suc k) n log2 =
    let keep = floor_log2_loop k n log2 in
    let shifted = floor_log2_loop k (n / 2 ^ (2 ^ k)) (log2 + 2 ^ k) in
    if n / 2 ^ (2 ^ k) == 0 then keep else shifted

unfoldable pub floor_log2 : ℕ → ℕ
unfolding floor_log2_loop
floor_log2 x = floor_log2_loop 6 x 0

module _ {X : Type 0} where
  subtree_to_vine_loop : ℕ → (vine_tail remainder : Ptr) → (len : ℕ) → Cmd (Nodes X) ℕ
  unfolding get_left get_right set_left set_right
  subtree_to_vine_loop zero vine_tail remainder len = λ _. out_of_fuel
  subtree_to_vine_loop (suc k) vine_tail remainder len = if remainder == null then pure len else do
    tempptr ← get_left remainder
    if tempptr == null
        then (do next ← get_right remainder; subtree_to_vine_loop k remainder next (suc len))
        else (do
          temp_right ← get_right tempptr
          set_left remainder temp_right
          set_right tempptr remainder
          set_right vine_tail tempptr
          subtree_to_vine_loop k vine_tail tempptr len)

  unfoldable pub subtree_to_vine : ℕ → Ptr → Cmd (Nodes X) ℕ
  unfolding get_right subtree_to_vine_loop
  subtree_to_vine fuel vine_tail = do
    remainder ← get_right vine_tail
    subtree_to_vine_loop fuel vine_tail remainder 0

  unfoldable pub compress_subtree : (scanner : Ptr) → (count : ℕ) → Cmd (Nodes X) (Unit {0})
  unfolding get_left get_right set_parent set_left set_right
  compress_subtree scanner zero = pure tt
  compress_subtree scanner (suc count) = do
    child ← get_right scanner
    child_right ← get_right child
    set_right scanner child_right
    scanner_left ← get_left child_right
    set_right child scanner_left
    when (not (scanner_left == null)) (set_parent scanner_left child)
    set_left child_right child
    set_parent child child_right
    compress_subtree child_right count

  compress_loop : ℕ → (super_root : Ptr) → (vine_nodes : ℕ) → Cmd (Nodes X) (Unit {0})
  unfolding compress_subtree
  compress_loop zero super_root vine_nodes = λ _. out_of_fuel
  compress_loop (suc k) super_root vine_nodes =
      if ltb 1 vine_nodes
      then (do
        compress_subtree super_root (vine_nodes / 2)
        compress_loop k super_root (vine_nodes / 2))
      else pure tt

  -- The parents of the nodes that are still in the vine.
  fix_parents : ℕ → (q p : Ptr) → Cmd (Nodes X) (Unit {0})
  unfolding get_right set_parent
  fix_parents zero q p = λ _. out_of_fuel
  fix_parents (suc k) q p =
      if p == null then pure tt else do set_parent p q; next ← get_right p; fix_parents k p next

  unfoldable pub vine_to_subtree : ℕ → (super_root : Ptr) → (count : ℕ) → Cmd (Nodes X) (Unit {0})
  unfolding get_right compress_subtree compress_loop fix_parents floor_log2
  vine_to_subtree fuel super_root count =
      let leaf_nodes = count + 1 - 2 ^ floor_log2 (count + 1) in
      do
        compress_subtree super_root leaf_nodes
        compress_loop fuel super_root (count - leaf_nodes)
        p ← get_right super_root
        fix_parents fuel super_root p

  unfoldable pub rebalance_subtree : ℕ → Ptr → Cmd (Nodes X) Ptr
  unfolding get_parent get_right set_parent set_left set_right is_right_child subtree_to_vine
      vine_to_subtree
  rebalance_subtree fuel old_root = do
    super_root ← get_parent old_root
    super_root_right_backup ← get_right super_root
    super_parent ← get_parent super_root
    old_root_is_right ← is_right_child old_root
    set_right super_root old_root
    size ← subtree_to_vine fuel super_root
    vine_to_subtree fuel super_root size
    new_root ← get_right super_root
    (if super_parent == old_root
        then (do set_right super_root super_root_right_backup; set_parent super_root new_root)
        else if old_root_is_right
        then set_right super_root new_root
        else (do set_right super_root super_root_right_backup; set_left super_root new_root))
    pure new_root

  unfoldable pub rebalance : ℕ → Ptr → Cmd (Nodes X) (Unit {0})
  unfolding get_parent rebalance_subtree
  rebalance fuel header = do
    root ← get_parent header
    when (not (root == null)) (do new_root ← rebalance_subtree fuel root; pure tt)
