-- ===== src/BsTree/Navigate.antt =====
-- Moving through a tree: include/boost/intrusive/detail/bstree_algorithms_base.hpp, and the
-- functions of include/boost/intrusive/bstree_algorithms.hpp that count steps or walk to the
-- header. The loops take fuel.
use intrusive.Base.{ℕ, zero, suc, ◌+◌, Bool, true, false, ◌==◌, ◌||◌, not, if◌then◌else◌}
use intrusive.Machine.{Ptr, null, out_of_fuel, Cmd, pure, ◌>>=◌}
use intrusive.BsTree.{Nodes, get_parent, get_left, get_right, begin_node, end_node}

module _ {X : Type 0} where
  unfoldable pub minimum : ℕ → Ptr → Cmd (Nodes X) Ptr
  unfolding get_left
  minimum zero n = λ _. out_of_fuel
  minimum (suc k) n = do p_left ← get_left n; if p_left == null then pure n else minimum k p_left

  unfoldable pub maximum : ℕ → Ptr → Cmd (Nodes X) Ptr
  unfolding get_right
  maximum zero n = λ _. out_of_fuel
  maximum (suc k) n = do
    p_right ← get_right n
    if p_right == null then pure n else maximum k p_right

  -- The tests of `is_header` from left to right; those behind `&&` and `||` run when needed.
  unfoldable pub is_header : Ptr → Cmd (Nodes X) Bool
  unfolding get_parent get_left get_right
  is_header p = do
    p_left ← get_left p
    p_right ← get_right p
    parent ← get_parent p
    if parent == null
        then pure true
        else if p_left == null || p_right == null
        then pure false
        else if p_left == p_right
        then pure true
        else do
          left_parent ← get_parent p_left
          if left_parent == p
              then (do right_parent ← get_parent p_right; pure (not (right_parent == p)))
              else pure true

  -- `while (n == right(p)) { n = p; p = parent(p); }`, with the final test.
  unfoldable pub climb_right : ℕ → (n p : Ptr) → Cmd (Nodes X) Ptr
  unfolding get_parent get_right
  climb_right zero n p = λ _. out_of_fuel
  climb_right (suc k) n p = do
    r ← get_right p
    if n == r
        then (do q ← get_parent p; climb_right k p q)
        else (do r' ← get_right n; pure (if r' == p then n else p))

  unfoldable pub next_node : ℕ → Ptr → Cmd (Nodes X) Ptr
  unfolding get_parent get_right minimum climb_right
  next_node fuel n = do
    n_right ← get_right n
    if n_right == null then (do p ← get_parent n; climb_right fuel n p) else minimum fuel n_right

  unfoldable pub climb_left : ℕ → (p x : Ptr) → Cmd (Nodes X) Ptr
  unfolding get_parent get_left
  climb_left zero p x = λ _. out_of_fuel
  climb_left (suc k) p x = do
    l ← get_left x
    if p == l then (do y ← get_parent x; climb_left k x y) else pure x

  unfoldable pub prev_node : ℕ → Ptr → Cmd (Nodes X) Ptr
  unfolding get_parent get_left get_right maximum climb_left is_header
  prev_node fuel n = do
    at_header ← is_header n
    if at_header then get_right n else do
      n_left ← get_left n
      if n_left == null then (do x ← get_parent n; climb_left fuel n x) else maximum fuel n_left

  -- `do { nn = p; p = pp; pp = parent(pp); } while (nn != pp);`
  climb_header : ℕ → (p pp : Ptr) → Cmd (Nodes X) Ptr
  unfolding get_parent
  climb_header zero p pp = λ _. out_of_fuel
  climb_header (suc k) p pp = do
    ppp ← get_parent pp
    if p == ppp then pure pp else climb_header k pp ppp

  unfoldable pub get_header : ℕ → Ptr → Cmd (Nodes X) Ptr
  unfolding get_parent climb_header is_header
  get_header fuel n = do
    p ← get_parent n
    if p == null then pure n else do
      pp ← get_parent p
      if n == pp
          then (do at_header ← is_header n; pure (if at_header then n else p))
          else climb_header fuel p pp

  depth_loop : ℕ → Ptr → ℕ → Cmd (Nodes X) ℕ
  unfolding get_parent
  depth_loop zero n depth = λ _. out_of_fuel
  depth_loop (suc k) n depth = do
    p_parent ← get_parent n
    pp ← get_parent p_parent
    if n == pp then pure depth else depth_loop k p_parent (depth + 1)

  unfoldable pub depth : ℕ → Ptr → Cmd (Nodes X) ℕ
  unfolding depth_loop
  depth fuel n = depth_loop fuel n 0

  -- The rounds of `size` take at most `walk` steps each.
  unfoldable pub size_loop : ℕ → ℕ → (beg end : Ptr) → ℕ → Cmd (Nodes X) ℕ
  unfolding next_node
  size_loop walk zero beg end i = λ _. out_of_fuel
  size_loop walk (suc k) beg end i =
      if beg == end then pure i else do next ← next_node walk beg; size_loop walk k next end (i + 1)

  unfoldable pub size : ℕ → Ptr → Cmd (Nodes X) ℕ
  unfolding begin_node end_node size_loop
  size fuel header = do
    beg ← begin_node header
    end ← end_node header
    size_loop fuel fuel beg end 0
