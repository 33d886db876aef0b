-- ===== src/RbTree/Recolor.antt =====
-- Reading and writing colours.
use intrusive.Base.{◌≡◌, ◌≢◌, refl, arith}
use intrusive.Machine.{Ptr, null, ok, update}
use intrusive.BsTree.Shape.{Tree, leaf, node, times, root_of}
use intrusive.RbTree.{Color, RbNodes, is_red, get_color, set_color, is_red_node}
use intrusive.RbTree.Invariant.{root_color}

pub set_color-ok :
    (n : Ptr) (c : Color) (h : RbNodes)
    → n ≢ null
    → set_color n c h ≡ ok tt (record h { tag = update h.tag n c })
unfolding set_color
set_color-ok n c h e = ground arith

pub get_color-ok : (n : Ptr) (h : RbNodes) → n ≢ null → get_color n h ≡ ok (h.tag n) h
unfolding get_color
get_color-ok n h e = ground arith

-- A null pointer counts as black.
pub is_red_node-ok :
    (t : Tree) (h : RbNodes)
    → times null t ≡ 0
    → is_red_node (root_of t) h ≡ ok (is_red (root_color h.tag t)) h
unfolding is_red_node get_color
is_red_node-ok leaf h e = refl
is_red_node-ok (node l x r) h e = ground arith
