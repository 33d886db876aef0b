-- ===== src/SlistNodes/Circular.antt =====
-- include/boost/intrusive/circular_slist_algorithms.hpp.
use intrusive.Base.{
  ℕ, zero, suc, ◌+◌, ◌-◌, ◌%◌, Bool, true, false, ◌==◌, ◌||◌, ◌&&◌, ltb, leb, not, Option, none,
  some, if◌then◌else◌,
}
use intrusive.Machine.{Ptr, null, out_of_fuel, Cmd, pure, ◌>>=◌, ◌>>◌, when}
use intrusive.SlistNodes.{
  Nexts, get_next, set_next, get_previous_node, unlink_after, link_after, transfer_after,
  unlink_after_and_dispose,
}

unfoldable pub init_header : Ptr → Cmd Nexts (Unit {0})
unfolding set_next
init_header this_node = set_next this_node this_node

unfoldable pub is_empty : Ptr → Cmd Nexts Bool
unfolding get_next
is_empty this_node = do next ← get_next this_node; pure (next == this_node)

unfoldable pub is_sentinel : Ptr → Cmd Nexts Bool
unfolding get_next
is_sentinel this_node = do next ← get_next this_node; pure (next == null)

unfoldable pub set_sentinel : Ptr → Cmd Nexts (Unit {0})
unfolding set_next
set_sentinel this_node = set_next this_node null

unfoldable pub get_previous : ℕ → Ptr → Cmd Nexts Ptr
get_previous fuel this_node = get_previous_node fuel this_node this_node

previous_previous_loop : ℕ → (this_node p p_next p_next_next : Ptr) → Cmd Nexts Ptr
unfolding get_next
previous_previous_loop zero this_node p p_next p_next_next = λ _. out_of_fuel
previous_previous_loop (suc k) this_node p p_next p_next_next =
    if this_node == p_next_next
    then pure p
    else do next ← get_next p_next_next; previous_previous_loop k this_node p_next p_next_next next

unfoldable pub get_previous_previous_node : ℕ → (p this_node : Ptr) → Cmd Nexts Ptr
unfolding get_next previous_previous_loop
get_previous_previous_node fuel p this_node = do
  p_next ← get_next p
  p_next_next ← get_next p_next
  previous_previous_loop fuel this_node p p_next p_next_next

count_loop : ℕ → (this_node p : Ptr) → (result : ℕ) → Cmd Nexts ℕ
unfolding get_next
count_loop zero this_node p result = λ _. out_of_fuel
count_loop (suc k) this_node p result = do
  next ← get_next p
  if next == this_node then pure (result + 1) else count_loop k this_node next (result + 1)

unfoldable pub count : ℕ → Ptr → Cmd Nexts ℕ
unfolding count_loop
count fuel this_node = count_loop fuel this_node this_node 0

unfoldable pub unlink : ℕ → Ptr → Cmd Nexts (Unit {0})
unfolding get_next get_previous unlink_after
unlink fuel this_node = do
  next ← get_next this_node
  when (not (next == null)) (do prev ← get_previous fuel this_node; unlink_after prev)

unfoldable pub link_before : ℕ → (nxt_node this_node : Ptr) → Cmd Nexts (Unit {0})
unfolding get_previous link_after
link_before fuel nxt_node this_node = do
  prev ← get_previous fuel nxt_node
  link_after prev this_node

unfoldable pub swap_nodes : ℕ → (this_node other_node : Ptr) → Cmd Nexts (Unit {0})
unfolding get_next set_next get_previous
swap_nodes fuel this_node other_node = if other_node == this_node then pure tt else do
  this_next ← get_next this_node
  other_next ← get_next other_node
  when (not (other_next == null || other_next == other_node)) (do
    p ← (if this_next == other_node then pure other_node else get_previous fuel other_node)
    set_next p this_node)
  when (not (this_next == null || this_next == this_node)) (do
    p ← (if other_next == this_node then pure this_node else get_previous fuel this_node)
    set_next p other_node)
  set_next this_node (
      if other_next == other_node
      then this_node
      else if other_next == this_node
      then other_node
      else other_next)
  set_next other_node (
      if this_next == this_node
      then other_node
      else if this_next == other_node
      then this_node
      else this_next)

reverse_loop : ℕ → (i e : Ptr) → Cmd Nexts (Unit {0})
unfolding get_next transfer_after
reverse_loop zero i e = λ _. out_of_fuel
reverse_loop (suc k) i e = do
  nxt ← get_next i
  if nxt == e then pure tt else do transfer_after e i nxt; reverse_loop k i e

unfoldable pub reverse : ℕ → Ptr → Cmd Nexts (Unit {0})
unfolding get_next reverse_loop
reverse fuel p = do i ← get_next p; reverse_loop fuel i p

-- What the search of `move_backwards` ends with.
pub record Shift : Type 0 where
  pub first : Ptr
  pub new_last : Ptr
  pub end_found : Bool

abbrev pub shift : (first new_last : Ptr) → Bool → Shift
shift first new_last end_found = record {
  first = first;
  new_last = new_last;
  end_found = end_found;
}

-- The search for the new last node; none when the shift is a multiple of the size.
shift_loop : ℕ → (p : Ptr) → (i n : ℕ) → (first new_last : Ptr) → Bool → Cmd Nexts (Option Shift)
unfolding get_next unlink_after
shift_loop zero p i n first new_last end_found = λ _. out_of_fuel
shift_loop (suc k) p i n first new_last end_found =
    if ltb n i then pure (some (shift first new_last end_found)) else do
      next ← get_next first
      if not (next == p)
          then shift_loop k p (i + 1) n next first end_found
          else if n % i == 0
          then pure none
          else do start ← get_next p; unlink_after first; shift_loop k p 1 (n % i) start first true

finish_backwards : ℕ → (p : Ptr) → Option Shift → Cmd Nexts Ptr
unfolding get_next unlink_after link_after
finish_backwards fuel p none = pure null
finish_backwards fuel p (some s) = do
  when (not s.end_found) (do prev ← get_previous_node fuel s.first p; unlink_after prev)
  link_after s.new_last p
  pure s.new_last

unfoldable pub move_backwards : ℕ → (p : Ptr) → (n : ℕ) → Cmd Nexts Ptr
unfolding get_next shift_loop finish_backwards
move_backwards fuel p n = if n == 0 then pure null else do
  first ← get_next p
  second ← get_next first
  if second == p
      then pure null
      else do s ← shift_loop fuel p 1 n first null false; finish_backwards fuel p s

-- The walk to the last node: `old_last`, `new_last` and the number of nodes.
last_loop :
    ℕ → (p : Ptr) → (n : ℕ) → (old_last new_last : Ptr) → (distance : ℕ) → Cmd Nexts (Ptr × Ptr × ℕ)
unfolding get_next
last_loop zero p n old_last new_last distance = λ _. out_of_fuel
last_loop (suc k) p n old_last new_last distance = do
  next_to_it ← get_next old_last
  if p == next_to_it then pure (old_last, new_last, distance) else do
    new_last' ← (if ltb n (distance + 1) then get_next new_last else pure new_last)
    last_loop k p n next_to_it new_last' (distance + 1)

pub walk : ℕ → Ptr → Cmd Nexts Ptr
unfolding get_next
walk zero p = pure p
walk (suc k) p = do next ← get_next p; walk k next

unfoldable pub move_forward : ℕ → (p : Ptr) → (n : ℕ) → Cmd Nexts Ptr
unfolding get_next unlink_after link_after last_loop
move_forward fuel p n = if n == 0 then pure null else do
  first ← get_next p
  second ← get_next first
  if second == p then pure null else do
    (old_last, new_last, distance) ← last_loop fuel p n first p 1
    if leb distance n && (distance - n % distance) % distance == 0 then pure null else do
      new_last' ←
          (if leb distance n then walk ((distance - n % distance) % distance) p else pure new_last)
      unlink_after old_last
      link_after new_last' p
      pure new_last'

-- All nodes of `other`'s list behind `p`.
unfoldable pub transfer_all_after : ℕ → (p other : Ptr) → Cmd Nexts (Unit {0})
unfolding get_previous transfer_after
transfer_all_after fuel p other = do
  other_last ← get_previous fuel other
  transfer_after p other other_last

unfoldable pub detach_and_dispose : (Ptr → Cmd Nexts (Unit {0})) → ℕ → Ptr → Cmd Nexts ℕ
unfolding unlink_after_and_dispose
detach_and_dispose disposer fuel p = unlink_after_and_dispose disposer fuel p p
