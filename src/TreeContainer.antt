-- ===== src/TreeContainer.antt =====
-- The container of include/boost/intrusive/bstree.hpp, which the sets and multisets of all tree
-- kinds derive from, over tree algorithms whose `insert_unique_check` is that of bstree_algorithms.hpp, which
-- those of splay trees and treaps are not; include/boost/intrusive/detail/size_holder.hpp counts its
-- elements. A value is its node; the comparison of keys is one of nodes.
pub mod Order
pub mod Interface
pub mod Insert
pub mod Erase
pub mod Instances
pub mod Examples
use intrusive.Base.{ℕ, zero, suc, ◌+◌, ◌-◌, ◌%◌, ◌^◌, Bool, true, false, ◌==◌, not, if◌then◌else◌}
use intrusive.Machine.{
  Ptr, null, when, Run, ok, throws, fault, out_of_fuel, Cmd, pure, and_then, ◌>>=◌, ◌>>◌,
}
use intrusive.BsTree.{Nodes, init}
use intrusive.BsTree.Navigate.{next_node}
use intrusive.BsTree.Search.{equal_range}
use intrusive.BsTree.Insert.{
  InsertCommitData, CheckResult, insertable, present, insert_unique_check,
}

-- What a container calls of `node_algorithms`, where the kinds of trees differ.
pub record NodeAlgorithms (X : Type 0) : Type 0 where
  pub init_header : Ptr → Cmd (Nodes X) (Unit {0})
  pub insert_unique_commit :
      ℕ → (header new_node : Ptr) → InsertCommitData → Cmd (Nodes X) (Unit {0})
  pub insert_equal_upper_bound :
      (before : Ptr → Bool) → ℕ → (header new_node : Ptr) → Cmd (Nodes X) Ptr
  pub insert_before : ℕ → (header pos new_node : Ptr) → Cmd (Nodes X) Ptr
  pub push_back : ℕ → (header new_node : Ptr) → Cmd (Nodes X) (Unit {0})
  pub push_front : ℕ → (header new_node : Ptr) → Cmd (Nodes X) (Unit {0})
  pub erase : ℕ → (header z : Ptr) → Cmd (Nodes X) (Unit {0})

-- The store and the container's `size_`, a 64-bit number.
pub record Container (X : Type 0) : Type 0 where
  pub store : Nodes X
  pub size_ : ℕ

-- The number of values of `size_t`.
abbrev pub size_mod : ℕ
size_mod = 2 ^ 64

module _ {X : Type 0} where
  abbrev pub with_size : {A : Type 0} → ℕ → Run (Nodes X) A → Run (Container X) A
  with_size n (ok a h) = ok a (record { store = h; size_ = n })
  with_size n (throws h) = throws (record { store = h; size_ = n })
  with_size n fault = fault
  with_size n out_of_fuel = out_of_fuel

  -- A command on the nodes leaves the size.
  abbrev pub on_nodes : {A : Type 0} → Cmd (Nodes X) A → Cmd (Container X) A
  on_nodes m s = with_size s.size_ (m s.store)

  unfoldable pub increment : Cmd (Container X) (Unit {0})
  increment s = ok tt (record s { size_ = (s.size_ + 1) % size_mod })

  unfoldable pub decrement : Cmd (Container X) (Unit {0})
  decrement s = ok tt (record s { size_ = (s.size_ + size_mod - 1) % size_mod })

  unfoldable pub set_size : ℕ → Cmd (Container X) (Unit {0})
  set_size n s = ok tt (record s { size_ = n })

  -- With `constant_time_size`.
  unfoldable pub empty : Cmd (Container X) Bool
  empty s = ok (s.size_ == 0) s

  unfoldable pub size : Cmd (Container X) ℕ
  size s = ok s.size_ s

-- The container with the header `header` and the key comparison `comp`.
module _ {X : Type 0} (alg : NodeAlgorithms X) (comp : Ptr → Ptr → Bool) (fuel : ℕ)
    (header : Ptr) where
  unfoldable pub insert_unique_commit : (value : Ptr) → InsertCommitData → Cmd (Container X) Ptr
  unfolding increment
  insert_unique_commit value commit_data = do
    on_nodes (alg.insert_unique_commit fuel header value commit_data)
    increment
    pure value

  -- The second part of `insert_unique`.
  unfoldable pub commit_if_free : (value : Ptr) → CheckResult → Cmd (Container X) (Ptr × Bool)
  unfolding insert_unique_commit
  commit_if_free value (insertable commit_data) = do
    i ← insert_unique_commit value commit_data
    pure (i, true)
  commit_if_free value (present other) = pure (other, false)

  unfoldable pub insert_unique : (value : Ptr) → Cmd (Container X) (Ptr × Bool)
  unfolding insert_unique_check commit_if_free
  insert_unique value = do
    ret ← on_nodes (insert_unique_check (λ x. comp x value) (λ x. comp value x) fuel header)
    commit_if_free value ret

  unfoldable pub insert_equal : (value : Ptr) → Cmd (Container X) Ptr
  unfolding increment
  insert_equal value = do
    ret ← on_nodes (alg.insert_equal_upper_bound (λ x. comp value x) fuel header value)
    increment
    pure ret

  unfoldable pub insert_before : (pos value : Ptr) → Cmd (Container X) Ptr
  unfolding increment
  insert_before pos value = do increment; on_nodes (alg.insert_before fuel header pos value)

  unfoldable pub push_back : (value : Ptr) → Cmd (Container X) (Unit {0})
  unfolding increment
  push_back value = do increment; on_nodes (alg.push_back fuel header value)

  unfoldable pub push_front : (value : Ptr) → Cmd (Container X) (Unit {0})
  unfolding increment
  push_front value = do increment; on_nodes (alg.push_front fuel header value)

  -- The mode of the hooks.
  module _ (safemode_or_autounlink : Bool) where
    unfoldable pub erase : (i : Ptr) → Cmd (Container X) Ptr
    unfolding decrement next_node init
    erase i = do
      ret ← on_nodes (next_node fuel i)
      on_nodes (alg.erase fuel header i)
      decrement
      when safemode_or_autounlink (on_nodes (init i))
      pure ret

    -- `private_erase`: the iterator it ends with, and the number of erased values. The first number
    -- is fuel.
    unfoldable pub private_erase : ℕ → (b e : Ptr) → ℕ → Cmd (Container X) (Ptr × ℕ)
    unfolding erase next_node
    private_erase zero b e n = λ _. out_of_fuel
    private_erase (suc k) b e n =
        if b == e
        then pure (b, n)
        else do next ← on_nodes (next_node fuel b); ret ← erase b; private_erase k next e (n + 1)

    unfoldable pub erase_range : (b e : Ptr) → Cmd (Container X) Ptr
    unfolding private_erase
    erase_range b e = do (i, n) ← private_erase fuel b e 0; pure i

    unfoldable pub erase_key : (less greater : Ptr → Bool) → Cmd (Container X) ℕ
    unfolding equal_range private_erase
    erase_key less greater = do
      (first, second) ← on_nodes (equal_range less greater fuel header)
      (i, n) ← private_erase fuel first second 0
      pure n

  -- For hooks in normal mode; the other modes dispose of the nodes first.
  unfoldable pub clear : Cmd (Container X) (Unit {0})
  unfolding set_size
  clear = do on_nodes (alg.init_header header); set_size 0
