-- ===== src/BsTree/Search.antt =====
-- The searches of include/boost/intrusive/bstree_algorithms.hpp. The order on keys is the user's:
-- `less x` is `comp(x, key)` and `greater x` is `comp(key, x)`, for the key of the search.
use intrusive.Base.{ℕ, zero, suc, ◌+◌, Bool, true, ◌==◌, ◌||◌, if◌then◌else◌}
use intrusive.Machine.{Ptr, null, out_of_fuel, Cmd, pure, ◌>>=◌}
use intrusive.BsTree.{Nodes, get_parent, get_left, get_right}
use intrusive.BsTree.Navigate.{next_node}

module _ {X : Type 0} where
  unfoldable pub lower_bound_loop : (Ptr → Bool) → ℕ → (x y : Ptr) → Cmd (Nodes X) Ptr
  unfolding get_left get_right
  lower_bound_loop less zero x y = λ _. out_of_fuel
  lower_bound_loop less (suc k) x y =
      if x == null
      then pure y
      else if less x
      then (do r ← get_right x; lower_bound_loop less k r y)
      else (do l ← get_left x; lower_bound_loop less k l x)

  unfoldable pub upper_bound_loop : (Ptr → Bool) → ℕ → (x y : Ptr) → Cmd (Nodes X) Ptr
  unfolding get_left get_right
  upper_bound_loop greater zero x y = λ _. out_of_fuel
  upper_bound_loop greater (suc k) x y =
      if x == null
      then pure y
      else if greater x
      then (do l ← get_left x; upper_bound_loop greater k l x)
      else (do r ← get_right x; upper_bound_loop greater k r y)

  unfoldable pub lower_bound : (Ptr → Bool) → ℕ → Ptr → Cmd (Nodes X) Ptr
  unfolding get_parent lower_bound_loop
  lower_bound less fuel header = do root ← get_parent header; lower_bound_loop less fuel root header

  unfoldable pub upper_bound : (Ptr → Bool) → ℕ → Ptr → Cmd (Nodes X) Ptr
  unfolding get_parent upper_bound_loop
  upper_bound greater fuel header = do
    root ← get_parent header
    upper_bound_loop greater fuel root header

  unfoldable pub find : (less greater : Ptr → Bool) → ℕ → Ptr → Cmd (Nodes X) Ptr
  unfolding lower_bound
  find less greater fuel header = do
    y ← lower_bound less fuel header
    pure (if y == header || greater y then header else y)

  -- `bounded_range`, with the comparisons to both keys: `below` is `comp(x, lower_key)` and
  -- `above` is `comp(upper_key, x)`; `above_lower` is `comp(lower_key, x)` and `below_upper`
  -- is `comp(x, upper_key)`, which the open ends test.
  unfoldable pub bounded_loop :
      (below above above_lower below_upper : Ptr → Bool) (left_closed right_closed : Bool)
      → ℕ
      → (x y : Ptr) → Cmd (Nodes X) (Ptr × Ptr)
  unfolding get_left get_right
  bounded_loop below above above_lower below_upper left_closed right_closed zero x y =
      λ _. out_of_fuel
  bounded_loop below above above_lower below_upper left_closed right_closed (suc k) x y =
      if x == null
      then pure (y, y)
      else if below x
      then (do
        r ← get_right x
        bounded_loop below above above_lower below_upper left_closed right_closed k r y)
      else if above x
      then (do
        l ← get_left x
        bounded_loop below above above_lower below_upper left_closed right_closed k l x)
      else (do
        first ←
            (if left_closed
              then (do l ← get_left x; lower_bound_loop below k l x)
              else upper_bound_loop above_lower (suc k) x y)
        second ←
            (if right_closed
              then (do r ← get_right x; upper_bound_loop above k r y)
              else lower_bound_loop below_upper (suc k) x y)
        pure (first, second))

  unfoldable pub bounded_range :
      (below above above_lower below_upper : Ptr → Bool) (left_closed right_closed : Bool)
      → ℕ
      → Ptr
      → Cmd (Nodes X) (Ptr × Ptr)
  unfolding get_parent bounded_loop
  bounded_range below above above_lower below_upper left_closed right_closed fuel header = do
    x ← get_parent header
    bounded_loop below above above_lower below_upper left_closed right_closed fuel x header

  unfoldable pub equal_range : (less greater : Ptr → Bool) → ℕ → Ptr → Cmd (Nodes X) (Ptr × Ptr)
  unfolding bounded_range
  equal_range less greater fuel header =
      bounded_range less greater greater less true true fuel header

  unfoldable pub lower_bound_range :
      (less greater : Ptr → Bool) → ℕ → Ptr → Cmd (Nodes X) (Ptr × Ptr)
  unfolding lower_bound next_node
  lower_bound_range less greater fuel header = do
    lb ← lower_bound less fuel header
    if lb == header || greater lb
        then pure (lb, lb)
        else (do next ← next_node fuel lb; pure (lb, next))

  unfoldable pub count_loop : ℕ → ℕ → (first second : Ptr) → ℕ → Cmd (Nodes X) ℕ
  unfolding next_node
  count_loop walk zero first second n = λ _. out_of_fuel
  count_loop walk (suc k) first second n =
      if first == second
      then pure n
      else do next ← next_node walk first; count_loop walk k next second (n + 1)

  unfoldable pub count : (less greater : Ptr → Bool) → ℕ → Ptr → Cmd (Nodes X) ℕ
  unfolding equal_range count_loop
  count less greater fuel header = do
    (first, second) ← equal_range less greater fuel header
    count_loop fuel fuel first second 0
