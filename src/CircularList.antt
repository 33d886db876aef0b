-- ===== src/CircularList.antt =====
-- include/boost/intrusive/circular_list_algorithms.hpp over include/boost/intrusive/detail/list_node.hpp.
-- A node has a next and a previous pointer; each function is a command on the two maps.
-- The loops take fuel.
pub mod Ring
pub mod Link
pub mod Walk
pub mod Reverse
pub mod Move
pub mod Swap
pub mod Partition
pub mod Examples
pub mod Transfer
pub mod Unlink
use intrusive.Base.{
  ℕ, zero, suc, ◌+◌, ◌-◌, Bool, true, false, ◌&&◌, ◌||◌, not, Option, none, some, ◌==◌,
  if◌then◌else◌,
}
use intrusive.Machine.{
  when, Ptr, null, Run, ok, throws, out_of_fuel, Cmd, pure, and_then, ◌>>=◌, ◌>>◌, deref, update,
}

-- `next_` and `prev_` of every `list_node`.
pub record Links : Type 0 where
  pub next : Ptr → Ptr
  pub prev : Ptr → Ptr

unfoldable pub get_next : Ptr → Cmd Links Ptr
get_next n = deref n λ h. ok (h.next n) h

unfoldable pub get_previous : Ptr → Cmd Links Ptr
get_previous n = deref n λ h. ok (h.prev n) h

unfoldable pub set_next : Ptr → Ptr → Cmd Links (Unit {0})
set_next n p = deref n λ h. ok tt (record h { next = update h.next n p })

unfoldable pub set_previous : Ptr → Ptr → Cmd Links (Unit {0})
set_previous n p = deref n λ h. ok tt (record h { prev = update h.prev n p })

unfoldable pub init : Ptr → Cmd Links (Unit {0})
unfolding set_next set_previous
init this = do set_next this null; set_previous this null

unfoldable pub inited : Ptr → Cmd Links Bool
unfolding get_next
inited this = do next ← get_next this; pure (next == null)

unfoldable pub init_header : Ptr → Cmd Links (Unit {0})
unfolding set_next set_previous
init_header this = do set_next this this; set_previous this this

unfoldable pub is_empty : Ptr → Cmd Links Bool
unfolding get_next
is_empty this = do next ← get_next this; pure (next == this)

unfoldable pub unique : Ptr → Cmd Links Bool
unfolding get_next
unique this = do next ← get_next this; pure (next == null || next == this)

unfoldable pub unlink : Ptr → Cmd Links Ptr
unfolding get_next get_previous set_next set_previous
unlink this = do
  next ← get_next this
  prev ← get_previous this
  set_next prev next
  set_previous next prev
  pure next

-- The overload `unlink(b, e)`.
unfoldable pub unlink_range : Ptr → Ptr → Cmd Links (Unit {0})
unfolding get_next get_previous set_next set_previous
unlink_range b e =
    if b == e then pure tt else do prevb ← get_previous b; set_previous e prevb; set_next prevb e

unfoldable pub link_before : Ptr → Ptr → Cmd Links (Unit {0})
unfolding get_next get_previous set_next set_previous
link_before nxt_node this = do
  prev ← get_previous nxt_node
  set_previous this prev
  set_next this nxt_node
  set_previous nxt_node this
  set_next prev this

unfoldable pub link_after : Ptr → Ptr → Cmd Links (Unit {0})
unfolding get_next get_previous set_next set_previous
link_after prev_node this = do
  next ← get_next prev_node
  set_previous this prev_node
  set_next this next
  set_next prev_node this
  set_previous next this

unfoldable pub transfer : Ptr → Ptr → Ptr → Cmd Links (Unit {0})
unfolding get_next get_previous set_next set_previous
transfer p b e = if b == e || p == b || p == e then pure tt else do
  prev_p ← get_previous p
  prev_b ← get_previous b
  prev_e ← get_previous e
  set_next prev_e p
  set_previous p prev_e
  set_next prev_b e
  set_previous e prev_b
  set_next prev_p b
  set_previous b prev_p

-- The overload `transfer(p, i)`.
unfoldable pub transfer_one : Ptr → Ptr → Cmd Links (Unit {0})
unfolding get_next get_previous set_next set_previous
transfer_one p i = do
  n ← get_next i
  if n == p || i == p then pure tt else do
    prev_p ← get_previous p
    prev_i ← get_previous i
    set_next prev_p i
    set_previous i prev_p
    set_next i p
    set_previous p i
    set_previous n prev_i
    set_next prev_i n

-- The `do`-`while` of `count`, with the result so far.
count_loop : ℕ → (this p : Ptr) → ℕ → Cmd Links ℕ
unfolding get_next
count_loop zero this p result = λ _. out_of_fuel
count_loop (suc k) this p result = do
  q ← get_next p
  if q == this then pure (result + 1) else count_loop k this q (result + 1)

-- `fuel` bounds the number of nodes.
unfoldable pub count : ℕ → Ptr → Cmd Links ℕ
unfolding count_loop
count fuel this = count_loop fuel this this 0

distance_loop : ℕ → (f l : Ptr) → ℕ → Cmd Links ℕ
unfolding get_next
distance_loop zero f l result = λ _. out_of_fuel
distance_loop (suc k) f l result =
    if f == l then pure result else do g ← get_next f; distance_loop k g l (result + 1)

unfoldable pub distance : ℕ → (f l : Ptr) → Cmd Links ℕ
unfolding distance_loop
distance fuel f l = distance_loop fuel f l 0

reverse_loop : ℕ → (e f i : Ptr) → Cmd Links (Unit {0})
unfolding get_next transfer
reverse_loop zero e f i = λ _. out_of_fuel
reverse_loop (suc k) e f i =
    if i == e then pure tt else do j ← get_next i; transfer f i j; reverse_loop k e i j

unfoldable pub reverse : ℕ → Ptr → Cmd Links (Unit {0})
unfolding get_next reverse_loop
reverse fuel p = do f ← get_next p; i ← get_next f; reverse_loop fuel p f i

unfoldable pub swap_prev : Ptr → Ptr → Cmd Links (Unit {0})
unfolding get_previous set_previous
swap_prev this other = do
  temp ← get_previous this
  set_previous this (← get_previous other)
  set_previous other temp

unfoldable pub swap_next : Ptr → Ptr → Cmd Links (Unit {0})
unfolding get_next set_next
swap_next this other = do
  temp ← get_next this
  set_next this (← get_next other)
  set_next other temp

-- The eight statements of `swap_nodes` that exchange the links.
unfoldable pub swap_links : Ptr → Ptr → Cmd Links (Unit {0})
unfolding get_next get_previous
swap_links this other = do
  next_this ← get_next this
  prev_this ← get_previous this
  next_other ← get_next other
  prev_other ← get_previous other
  swap_prev next_this next_other
  swap_next prev_this prev_other
  swap_next this other
  swap_prev this other

unfoldable pub swap_nodes : Ptr → Ptr → Cmd Links (Unit {0})
unfolding inited init init_header
swap_nodes this other = if other == this then pure tt else do
  this_inited ← inited this
  other_inited ← inited other
  when this_inited (init_header this)
  when other_inited (init_header other)
  swap_links this other
  when this_inited (init other)
  when other_inited (init this)

-- `while (n--) first = next(first);`
pub next_n : ℕ → Ptr → Cmd Links Ptr
unfolding get_next
next_n zero first = pure first
next_n (suc n) first = do q ← get_next first; next_n n q

pub previous_n : ℕ → Ptr → Cmd Links Ptr
unfolding get_previous
previous_n zero last = pure last
previous_n (suc n) last = do q ← get_previous last; previous_n n q

unfoldable pub move_backwards : Ptr → ℕ → Cmd Links (Unit {0})
unfolding get_next get_previous unlink next_n link_before
move_backwards p n = if n == 0 then pure tt else do
  first ← get_next p
  prev ← get_previous p
  if first == prev then pure tt else do unlink p; first' ← next_n n first; link_before first' p

unfoldable pub move_forward : Ptr → ℕ → Cmd Links (Unit {0})
unfolding get_next get_previous unlink previous_n link_after
move_forward p n = if n == 0 then pure tt else do
  last ← get_previous p
  next ← get_next p
  if last == next then pure tt else do unlink p; last' ← previous_n n last; link_after last' p

-- `stable_partition_info`.
pub record PartitionInfo : Type 0 where
  pub num_1st_partition : ℕ
  pub num_2nd_partition : ℕ
  pub beg_2st_partition : Ptr

abbrev pub partition_info : ℕ → ℕ → Ptr → PartitionInfo
partition_info num1 num2 new_f = record {
  num_1st_partition = num1;
  num_2nd_partition = num2;
  beg_2st_partition = new_f;
}

-- The two writes that close the gap behind the first partition.
pub relink : (last_to_remove new_f : Ptr) → Cmd Links (Unit {0})
unfolding set_next set_previous
relink last_to_remove new_f = do set_next last_to_remove new_f; set_previous new_f last_to_remove

-- The statements of the main loop that process a node which passes; the next node is returned.
pub pass_node : (last_to_remove bcur cur : Ptr) → Cmd Links Ptr
unfolding get_next set_next set_previous
pass_node last_to_remove bcur cur = do
  set_next last_to_remove cur
  set_previous cur last_to_remove
  nxt ← get_next cur
  set_next bcur nxt
  set_previous nxt bcur
  pure nxt

-- The main loop, its exception handler included: `pred` returns `none` when it throws.
partition_loop :
    (Ptr → Option Bool)
    → ℕ
    → (end new_f last_to_remove bcur cur : Ptr) → (num1 num2 : ℕ) → Cmd Links PartitionInfo
unfolding relink pass_node
partition_loop pred zero end new_f last_to_remove bcur cur num1 num2 = λ _. out_of_fuel
partition_loop pred (suc k) end new_f last_to_remove bcur cur num1 num2 =
    if cur == end
    then (do relink last_to_remove new_f; pure (partition_info num1 num2 new_f))
    else elim (pred cur) [
      | none ↦ do relink last_to_remove new_f; throws
      | some true ↦ do
        nxt ← pass_node last_to_remove bcur cur
        partition_loop pred k end new_f cur bcur nxt (num1 + 1) num2
      | some false ↦ do
        nxt ← get_next cur
        partition_loop pred k end new_f last_to_remove cur nxt num1 (num2 + 1)
    ]

-- The loop over the nodes in front of the first one that fails the test.
partition_front :
    (Ptr → Option Bool) → ℕ → (end bcur cur : Ptr) → (num1 : ℕ) → Cmd Links PartitionInfo
unfolding partition_loop
partition_front pred zero end bcur cur num1 = λ _. out_of_fuel
partition_front pred (suc k) end bcur cur num1 =
    if cur == end then pure (partition_info num1 0 end) else elim (pred cur) [
      | none ↦ throws
      | some true ↦ do nxt ← get_next cur; partition_front pred k end cur nxt (num1 + 1)
      | some false ↦ do nxt ← get_next cur; partition_loop pred k end cur bcur cur nxt num1 1
    ]

unfoldable pub stable_partition :
    (Ptr → Option Bool) → ℕ → (beg end : Ptr) → Cmd Links PartitionInfo
unfolding get_previous partition_front
stable_partition pred fuel beg end = do
  bcur ← get_previous beg
  partition_front pred fuel end bcur beg 0
