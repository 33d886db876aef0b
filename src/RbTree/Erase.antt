-- ===== src/RbTree/Erase.antt =====
-- The removals of include/boost/intrusive/rbtree_algorithms.hpp, and the functions that carry
-- the colours along with the links.
use intrusive.Base.{ℕ, zero, suc, Bool, true, false, ◌==◌, not, if◌then◌else◌}
use intrusive.Machine.{Ptr, null, out_of_fuel, Cmd, pure, ◌>>=◌, ◌>>◌, when}
use intrusive.BsTree.{get_parent, get_left, get_right}
use intrusive.BsTree.Navigate
use intrusive.BsTree.Rotate.{rotate_left, rotate_right}
use intrusive.BsTree.Erase.{DataForRebalance}
use intrusive.BsTree.Insert.{CheckResult}
use intrusive.RbTree.{
  red, black, RbNodes, is_red, get_color, set_color, is_red_node, rebalance_after_insertion,
}

-- `!x || get_color(x) == black()`.
is_black_or_null : Ptr → Cmd RbNodes Bool
unfolding is_red_node
is_black_or_null x = do r ← is_red_node x; pure (not r)

-- The last case of a round, for a left child `x`: it ends the loop.
last_case_left : (header x_parent w w_left w_right : Ptr) → Cmd RbNodes (Unit {0})
unfolding get_parent get_right get_color set_color is_black_or_null
last_case_left header x_parent w w_left w_right = do
  right_black ← is_black_or_null w_right
  w' ←
      (if right_black
        then (do
          set_color w_left black
          set_color w red
          w_parent ← get_parent w
          rotate_right w w_left w_parent header
          get_right x_parent)
        else pure w)
  c ← get_color x_parent
  set_color w' c
  set_color x_parent black
  new_wright ← get_right w'
  when (not (new_wright == null)) (set_color new_wright black)
  r ← get_right x_parent
  p ← get_parent x_parent
  rotate_left x_parent r p header

last_case_right : (header x_parent w w_left w_right : Ptr) → Cmd RbNodes (Unit {0})
unfolding get_parent get_left get_color set_color is_black_or_null
last_case_right header x_parent w w_left w_right = do
  left_black ← is_black_or_null w_left
  w' ←
      (if left_black
        then (do
          set_color w_right black
          set_color w red
          w_parent ← get_parent w
          rotate_left w w_right w_parent header
          get_left x_parent)
        else pure w)
  c ← get_color x_parent
  set_color w' c
  set_color x_parent black
  new_wleft ← get_left w'
  when (not (new_wleft == null)) (set_color new_wleft black)
  l ← get_left x_parent
  p ← get_parent x_parent
  rotate_right x_parent l p header

-- A round below the header at a node `x` that is null or black: whether the loop goes on.
erasure_round_left : (header x_parent : Ptr) → Cmd RbNodes Bool
unfolding get_parent get_left get_right get_color set_color is_black_or_null last_case_left
erasure_round_left header x_parent = do
  w0 ← get_right x_parent
  c ← get_color w0
  w ←
      (if is_red c
        then (do
          set_color w0 black
          set_color x_parent red
          p ← get_parent x_parent
          rotate_left x_parent w0 p header
          get_right x_parent)
        else pure w0)
  w_left ← get_left w
  w_right ← get_right w
  left_black ← is_black_or_null w_left
  right_black ← (if left_black then is_black_or_null w_right else pure false)
  if right_black
      then (do set_color w red; pure true)
      else (do last_case_left header x_parent w w_left w_right; pure false)

erasure_round_right : (header x_parent x_parent_left : Ptr) → Cmd RbNodes Bool
unfolding get_parent get_left get_right get_color set_color is_black_or_null last_case_right
erasure_round_right header x_parent x_parent_left = do
  c ← get_color x_parent_left
  w ←
      (if is_red c
        then (do
          set_color x_parent_left black
          set_color x_parent red
          p ← get_parent x_parent
          rotate_right x_parent x_parent_left p header
          get_left x_parent)
        else pure x_parent_left)
  w_left ← get_left w
  w_right ← get_right w
  right_black ← is_black_or_null w_right
  left_black ← (if right_black then is_black_or_null w_left else pure false)
  if left_black
      then (do set_color w red; pure true)
      else (do last_case_right header x_parent w w_left w_right; pure false)

-- The loop; the result is the last `x`.
erasure_loop : ℕ → (header x x_parent : Ptr) → Cmd RbNodes Ptr
unfolding get_parent get_left is_red_node erasure_round_left erasure_round_right
erasure_loop zero header x x_parent = λ _. out_of_fuel
erasure_loop (suc k) header x x_parent = if x_parent == header then pure x else do
  x_red ← is_red_node x
  if x_red then pure x else do
    x_parent_left ← get_left x_parent
    goes_on ←
        (if x == x_parent_left
          then erasure_round_left header x_parent
          else erasure_round_right header x_parent x_parent_left)
    if goes_on then (do p ← get_parent x_parent; erasure_loop k header x_parent p) else pure x

unfoldable pub rebalance_after_erasure_restore_invariants :
    ℕ → (header x x_parent : Ptr) → Cmd RbNodes (Unit {0})
unfolding set_color erasure_loop
rebalance_after_erasure_restore_invariants fuel header x x_parent = do
  last_x ← erasure_loop fuel header x x_parent
  when (not (last_x == null)) (set_color last_x black)

unfoldable pub rebalance_after_erasure :
    ℕ → (header z : Ptr) → DataForRebalance → Cmd RbNodes (Unit {0})
unfolding get_color set_color rebalance_after_erasure_restore_invariants
rebalance_after_erasure fuel header z info = do
  new_z_color ←
      (if not (info.y == z)
        then (do c ← get_color info.y; z_color ← get_color z; set_color info.y z_color; pure c)
        else get_color z)
  when (not (is_red new_z_color))
      (rebalance_after_erasure_restore_invariants fuel header info.x info.x_parent)

unfoldable pub erase : ℕ → (header z : Ptr) → Cmd RbNodes Ptr
unfolding intrusive.BsTree.Erase.erase rebalance_after_erasure
erase fuel header z = do
  info ← intrusive.BsTree.Erase.erase fuel header z
  rebalance_after_erasure fuel header z info
  pure z

-- A header is red, and is one by its links, which are read only then.
unfoldable pub is_header : Ptr → Cmd RbNodes Bool
unfolding get_color intrusive.BsTree.Navigate.is_header
is_header p = do
  c ← get_color p
  if is_red c then intrusive.BsTree.Navigate.is_header p else pure false

-- `while (!is_header(x)) x = get_parent(x);`
find_header : ℕ → Ptr → Cmd RbNodes Ptr
unfolding get_parent is_header
find_header zero x = λ _. out_of_fuel
find_header (suc k) x = do
  at_header ← is_header x
  if at_header then pure x else do p ← get_parent x; find_header k p

unfoldable pub unlink : ℕ → Ptr → Cmd RbNodes (Unit {0})
unfolding get_parent erase find_header
unlink fuel n = do
  x ← get_parent n
  when (not (x == null)) (do header ← find_header fuel x; z ← erase fuel header n; pure tt)

unfoldable pub replace_node : (node_to_be_replaced header new_node : Ptr) → Cmd RbNodes (Unit {0})
unfolding get_color set_color intrusive.BsTree.Replace.replace_node
replace_node node_to_be_replaced header new_node = do
  intrusive.BsTree.Replace.replace_node node_to_be_replaced header new_node
  c ← get_color node_to_be_replaced
  set_color new_node c

unfoldable pub swap_nodes : (node1 header1 node2 header2 : Ptr) → Cmd RbNodes (Unit {0})
unfolding get_color set_color intrusive.BsTree.Replace.swap_nodes
swap_nodes node1 header1 node2 header2 = if node1 == node2 then pure tt else do
  intrusive.BsTree.Replace.swap_nodes node1 header1 node2 header2
  c ← get_color node1
  c2 ← get_color node2
  set_color node1 c2
  set_color node2 c

-- `info` before it is assigned: `data_for_rebalance` has null pointers by default.
abbrev blank : DataForRebalance
blank = record { x = null; x_parent = null; y = null }

-- The transfers between trees. `check` is `insert_unique_check` with the comparisons of `z`.
unfoldable pub transfer_unique :
    Cmd RbNodes CheckResult → ℕ → (header1 header2 z : Ptr) → Cmd RbNodes Bool
unfolding intrusive.BsTree.Erase.transfer_unique rebalance_after_erasure rebalance_after_insertion
transfer_unique check fuel header1 header2 z = do
  (transferred, info) ← intrusive.BsTree.Erase.transfer_unique check fuel header1 header2 z blank
  when transferred
      (do rebalance_after_erasure fuel header2 z info; rebalance_after_insertion fuel header1 z)
  pure transferred

unfoldable pub transfer_equal :
    (before : Ptr → Bool) → ℕ → (header1 header2 z : Ptr) → Cmd RbNodes (Unit {0})
unfolding intrusive.BsTree.Erase.transfer_equal rebalance_after_erasure rebalance_after_insertion
transfer_equal before fuel header1 header2 z = do
  info ← intrusive.BsTree.Erase.transfer_equal before fuel header1 header2 z
  rebalance_after_erasure fuel header2 z info
  rebalance_after_insertion fuel header1 z
