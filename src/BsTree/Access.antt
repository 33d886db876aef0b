-- ===== src/BsTree/Access.antt =====
-- Reads and writes of the fields of a node that is not null.
use intrusive.Base.{◌≡◌, ◌≢◌, arith}
use intrusive.Machine.{Ptr, null, ok, update}
use intrusive.BsTree.{Nodes, get_parent, get_left, get_right, set_parent, set_left, set_right}

pub update-here : {A : Type 0} (f : Ptr → A) (p : Ptr) (v : A) → update f p v p ≡ v
update-here f p v = ground arith

pub update-other :
    {A : Type 0} (f : Ptr → A) (p : Ptr) (v : A) (a : Ptr) → a ≢ p → update f p v a ≡ f a
update-other f p v a e = ground arith

module _ {X : Type 0} where
  pub get_left-ok : (n : Ptr) (h : Nodes X) → n ≢ null → get_left n h ≡ ok (h.left n) h
  unfolding get_left
  get_left-ok n h e = ground arith

  pub get_right-ok : (n : Ptr) (h : Nodes X) → n ≢ null → get_right n h ≡ ok (h.right n) h
  unfolding get_right
  get_right-ok n h e = ground arith

  pub get_parent-ok : (n : Ptr) (h : Nodes X) → n ≢ null → get_parent n h ≡ ok (h.parent n) h
  unfolding get_parent
  get_parent-ok n h e = ground arith

  pub set_parent-ok :
      (n p : Ptr) (h : Nodes X)
      → n ≢ null
      → set_parent n p h ≡ ok tt (record h { parent = update h.parent n p })
  unfolding set_parent
  set_parent-ok n p h e = ground arith

  pub set_left-ok :
      (n p : Ptr) (h : Nodes X)
      → n ≢ null
      → set_left n p h ≡ ok tt (record h { left = update h.left n p })
  unfolding set_left
  set_left-ok n p h e = ground arith

  pub set_right-ok :
      (n p : Ptr) (h : Nodes X)
      → n ≢ null
      → set_right n p h ≡ ok tt (record h { right = update h.right n p })
  unfolding set_right
  set_right-ok n p h e = ground arith
