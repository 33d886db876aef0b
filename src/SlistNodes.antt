-- ===== src/SlistNodes.antt =====
-- include/boost/intrusive/detail/common_slist_algorithms.hpp over
-- include/boost/intrusive/detail/slist_node.hpp: singly linked nodes, of circular lists (child
-- module Circular) and of lists that end in a null pointer (child module Linear). The loops take
-- fuel. The assertions of the source are not modelled.
pub mod Circular
pub mod Chain
pub mod Linear
pub mod Split
pub mod Examples
use intrusive.Base.{
  ℕ, zero, suc, ◌+◌, Bool, true, false, ◌==◌, ◌||◌, ◌&&◌, not, Option, none, some, if◌then◌else◌,
}
use intrusive.Machine.{
  Ptr, null, ok, throws, out_of_fuel, Cmd, pure, and_then, ◌>>=◌, ◌>>◌, deref, update, when,
}

-- The field `next_` of every node.
abbrev pub Nexts : Type 0
Nexts = Ptr → Ptr

unfoldable pub get_next : Ptr → Cmd Nexts Ptr
get_next n = deref n λ h. ok (h n) h

unfoldable pub set_next : Ptr → Ptr → Cmd Nexts (Unit {0})
set_next n next = deref n λ h. ok tt (update h n next)

pub get_previous_node : ℕ → (p this_node : Ptr) → Cmd Nexts Ptr
unfolding get_next
get_previous_node zero p this_node = λ _. out_of_fuel
get_previous_node (suc k) p this_node = do
  p_next ← get_next p
  if this_node == p_next then pure p else get_previous_node k p_next this_node

unfoldable pub init : Ptr → Cmd Nexts (Unit {0})
unfolding set_next
init this_node = set_next this_node null

unfoldable pub unique : Ptr → Cmd Nexts Bool
unfolding get_next
unique this_node = do next ← get_next this_node; pure (next == null || next == this_node)

unfoldable pub inited : Ptr → Cmd Nexts Bool
unfolding get_next
inited this_node = do next ← get_next this_node; pure (next == null)

unfoldable pub unlink_after : Ptr → Cmd Nexts (Unit {0})
unfolding get_next set_next
unlink_after prev_node = do
  this_node ← get_next prev_node
  next ← get_next this_node
  set_next prev_node next

unfoldable pub unlink_after_to : (prev_node last_node : Ptr) → Cmd Nexts (Unit {0})
unfolding set_next
unlink_after_to prev_node last_node = set_next prev_node last_node

unfoldable pub link_after : (prev_node this_node : Ptr) → Cmd Nexts (Unit {0})
unfolding get_next set_next
link_after prev_node this_node = do
  next ← get_next prev_node
  set_next this_node next
  set_next prev_node this_node

unfoldable pub incorporate_after : (bp b be : Ptr) → Cmd Nexts (Unit {0})
unfolding get_next set_next
incorporate_after bp b be = do p ← get_next bp; set_next bp b; set_next be p

unfoldable pub transfer_after : (bp bb be : Ptr) → Cmd Nexts (Unit {0})
unfolding get_next set_next
transfer_after bp bb be = when (not (bp == bb) && (not (bp == be) && not (bb == be))) (do
  next_b ← get_next bb
  next_e ← get_next be
  next_p ← get_next bp
  set_next bb next_e
  set_next be next_p
  set_next bp next_b)

distance_loop : ℕ → (i l : Ptr) → (result : ℕ) → Cmd Nexts ℕ
unfolding get_next
distance_loop zero i l result = λ _. out_of_fuel
distance_loop (suc k) i l result =
    if i == l then pure result else do next ← get_next i; distance_loop k next l (result + 1)

unfoldable pub distance : ℕ → (f l : Ptr) → Cmd Nexts ℕ
unfolding distance_loop
distance fuel f l = distance_loop fuel f l 0

-- The disposer, which does not throw, may change the links of the node it gets.
dispose_loop : (Ptr → Cmd Nexts (Unit {0})) → ℕ → (i e : Ptr) → (n : ℕ) → Cmd Nexts ℕ
unfolding get_next
dispose_loop disposer zero i e n = λ _. out_of_fuel
dispose_loop disposer (suc k) i e n =
    if i == e
    then pure n
    else do next ← get_next i; disposer i; dispose_loop disposer k next e (n + 1)

unfoldable pub unlink_after_and_dispose :
    (Ptr → Cmd Nexts (Unit {0})) → ℕ → (bb e : Ptr) → Cmd Nexts ℕ
unfolding get_next set_next dispose_loop
unlink_after_and_dispose disposer fuel bb e = do
  i ← get_next bb
  n ← dispose_loop disposer fuel i e 0
  set_next bb e
  pure n

-- The overload for one node.
unfoldable pub unlink_after_and_dispose_one :
    (Ptr → Cmd Nexts (Unit {0})) → (bb : Ptr) → Cmd Nexts (Unit {0})
unfolding get_next set_next
unlink_after_and_dispose_one disposer bb = do
  i ← get_next bb
  next ← get_next i
  set_next bb next
  disposer i
