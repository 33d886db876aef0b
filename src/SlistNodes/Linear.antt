-- ===== src/SlistNodes/Linear.antt =====
-- include/boost/intrusive/linear_slist_algorithms.hpp.
pub mod Reverse
use intrusive.Base.{
  ℕ, zero, suc, ◌+◌, ◌-◌, ◌%◌, Bool, true, false, ◌==◌, ◌||◌, ◌&&◌, ltb, leb, not, Option, none,
  some, if◌then◌else◌,
}
use intrusive.Machine.{Ptr, null, out_of_fuel, Cmd, pure, ◌>>=◌, ◌>>◌}
use intrusive.SlistNodes.{
  Nexts, get_next, set_next, get_previous_node, unlink_after, transfer_after,
  unlink_after_and_dispose,
}
use intrusive.SlistNodes.Circular.{Shift, shift, walk}

unfoldable pub init_header : Ptr → Cmd Nexts (Unit {0})
unfolding set_next
init_header this_node = set_next this_node null

unfoldable pub is_empty : Ptr → Cmd Nexts Bool
unfolding get_next
is_empty this_node = do next ← get_next this_node; pure (next == null)

unfoldable pub is_sentinel : Ptr → Cmd Nexts Bool
unfolding get_next
is_sentinel this_node = do next ← get_next this_node; pure (next == this_node)

unfoldable pub set_sentinel : Ptr → Cmd Nexts (Unit {0})
unfolding set_next
set_sentinel this_node = set_next this_node this_node

count_loop : ℕ → (p : Ptr) → (result : ℕ) → Cmd Nexts ℕ
unfolding get_next
count_loop zero p result = λ _. out_of_fuel
count_loop (suc k) p result = do
  next ← get_next p
  if next == null then pure (result + 1) else count_loop k next (result + 1)

unfoldable pub count : ℕ → Ptr → Cmd Nexts ℕ
unfolding count_loop
count fuel this_node = count_loop fuel this_node 0

unfoldable pub swap_trailing_nodes : (this_node other_node : Ptr) → Cmd Nexts (Unit {0})
unfolding get_next set_next
swap_trailing_nodes this_node other_node = do
  this_nxt ← get_next this_node
  other_nxt ← get_next other_node
  set_next this_node other_nxt
  set_next other_node this_nxt

unfoldable pub reverse_loop : ℕ → (p i first : Ptr) → Cmd Nexts Ptr
unfolding get_next set_next unlink_after
reverse_loop zero p i first = λ _. out_of_fuel
reverse_loop (suc k) p i first =
    if i == null
    then pure first
    else do nxti ← get_next i; unlink_after p; set_next i first; reverse_loop k p nxti i

unfoldable pub reverse : ℕ → Ptr → Cmd Nexts Ptr
unfolding get_next reverse_loop
reverse fuel p = if p == null then pure null else do i ← get_next p; reverse_loop fuel p i p

-- The search for the new last node; none when the shift is a multiple of the size. With the
-- shift comes `old_last`.
shift_loop :
    ℕ
    → (p : Ptr) → (i n : ℕ) → (first new_last old_last : Ptr) → Bool
    → Cmd Nexts (Option (Shift × Ptr))
unfolding get_next
shift_loop zero p i n first new_last old_last end_found = λ _. out_of_fuel
shift_loop (suc k) p i n first new_last old_last end_found =
    if ltb n i then pure (some (shift first new_last end_found, old_last)) else do
      next ← get_next first
      if not (next == null)
          then shift_loop k p (i + 1) n next first old_last end_found
          else if n % i == 0
          then pure none
          else shift_loop k p 1 (n % i) p first first true

-- The new first and last node, or null pointers when nothing moves.
finish_backwards : ℕ → (p : Ptr) → Option (Shift × Ptr) → Cmd Nexts (Ptr × Ptr)
unfolding set_next
finish_backwards fuel p none = pure (null, null)
finish_backwards fuel p (some (s, old_last)) = do
  last ← (if s.end_found then pure old_last else get_previous_node fuel s.first null)
  set_next last p
  set_next s.new_last null
  pure (s.first, s.new_last)

unfoldable pub move_first_n_backwards : ℕ → (p : Ptr) → (n : ℕ) → Cmd Nexts (Ptr × Ptr)
unfolding get_next shift_loop finish_backwards
move_first_n_backwards fuel p n = if n == 0 || p == null then pure (null, null) else do
  second ← get_next p
  if second == null
      then pure (null, null)
      else do s ← shift_loop fuel p 1 n p null null false; finish_backwards fuel p s

-- The walk to the last node: `old_last`, `new_last` and the number of nodes.
last_loop : ℕ → (n : ℕ) → (old_last new_last : Ptr) → (distance : ℕ) → Cmd Nexts (Ptr × Ptr × ℕ)
unfolding get_next
last_loop zero n old_last new_last distance = λ _. out_of_fuel
last_loop (suc k) n old_last new_last distance = do
  next_to_it ← get_next old_last
  if next_to_it == null then pure (old_last, new_last, distance) else do
    new_last' ← (if ltb n distance then get_next new_last else pure new_last)
    last_loop k n next_to_it new_last' (distance + 1)

unfoldable pub move_first_n_forward : ℕ → (p : Ptr) → (n : ℕ) → Cmd Nexts (Ptr × Ptr)
unfolding get_next set_next last_loop
move_first_n_forward fuel p n = if n == 0 || p == null then pure (null, null) else do
  second ← get_next p
  if second == null then pure (null, null) else do
    (old_last, new_last, distance) ← last_loop fuel n p p 1
    if leb distance n && (distance - n % distance) % distance == 0 then pure (null, null) else do
      new_last' ←
          (if leb distance n
            then walk ((distance - n % distance) % distance - 1) p
            else pure new_last)
      new_first ← get_next new_last'
      set_next old_last p
      set_next new_last' null
      pure (new_first, new_last')

-- All nodes of `other`'s list behind `p`.
unfoldable pub transfer_all_after : ℕ → (p other : Ptr) → Cmd Nexts (Unit {0})
unfolding transfer_after is_empty swap_trailing_nodes
transfer_all_after fuel p other = do
  empty ← is_empty p
  if empty
      then swap_trailing_nodes p other
      else do other_last ← get_previous_node fuel other null; transfer_after p other other_last

unfoldable pub detach_and_dispose : (Ptr → Cmd Nexts (Unit {0})) → ℕ → Ptr → Cmd Nexts ℕ
unfolding unlink_after_and_dispose
detach_and_dispose disposer fuel p = unlink_after_and_dispose disposer fuel p null
