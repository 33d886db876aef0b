-- ===== src/BsTree/Erase/Whole/One.antt =====
-- `erase` of a node with at most one child.
use intrusive.Base.{ℕ, ◌+◌, ◌≤◌, ◌≡◌, ◌≢◌, refl, ◌∙◌, arith, hit, ◌==◌, true, false, List, ◌++◌}
use intrusive.Machine.{Ptr, null, Returns, returns, Returns-bind, Returns-imp, ok}
use intrusive.BsTree.{Nodes}
use intrusive.BsTree.Access.{get_left-ok, get_right-ok, get_parent-ok}
use intrusive.BsTree.Shape.{
  Tree, leaf, node, inorder, times, root_of, PathUp, top, plug, above, Sub, hit_self, ne_of_pos,
}
use intrusive.BsTree.Hang.{Standing}
use intrusive.BsTree.Turn.{above_ne, Side-of}
use intrusive.BsTree.Commit.{Ends}
use intrusive.BsTree.Order.{depth_of}
use intrusive.BsTree.Step.{==-false, ==-true}
use intrusive.BsTree.Locate.{Standing-plug, in_front, behind}
use intrusive.BsTree.Erase.{choose_successor, erase}
use intrusive.BsTree.Erase.Lift.{adopt-ok, lift-Standing}
use intrusive.BsTree.Erase.Ends.{Only, only_right, only_left, around-left, update_ends-Ends}

-- In `g` a tree with the nodes `xs` stands, whose further fields are as in `h`.
pub record HasNodes {X : Type 0} (h g : Nodes X) (header : Ptr) (xs : List Ptr) : Type 0 where
  pub tree : Tree
  pub stands : Standing g header top tree
  pub nodes : inorder tree ≡ xs
  pub ends : Ends g header tree
  pub tag : (a : Ptr) → g.tag a ≡ h.tag a

-- In `g` the tree `t` stands, whose further fields are as in `h`.
pub record HasTree {X : Type 0} (h g : Nodes X) (header : Ptr) (t : Tree) : Type 0 where
  pub stands : Standing g header top t
  pub ends : Ends g header t
  pub tag : (a : Ptr) → g.tag a ≡ h.tag a

choose-one :
    {X : Type 0} (h : Nodes X) (fuel : ℕ) (z : Ptr) {l r t : Tree}
    → Only l r t
    → times null l ≡ 0
    → choose_successor fuel z (root_of l) (root_of r) h ≡ ok (record { y = z; x = root_of t }) h
unfolding choose_successor
choose-one h fuel z only_right n = refl
choose-one h fuel z (only_left {l = leaf}) n = refl
choose-one h fuel z (only_left {l = node ll v lr}) n =
    let v0 : (v == null) ≡ false =
      ==-false (ne_of_pos (λ a. hit a v) v null (omega (arith, n)) (omega (arith, hit_self v))) in
    rw v0

module _ {X : Type 0} {h : Nodes X} {header : Ptr} (c : PathUp) (fuel : ℕ) (l : Tree) (z : Ptr)
    (r : Tree) (s : Standing h header c (node l z r))
    (ends : Ends h header (plug c (node l z r))) where
  z0 : z ≢ null
  z0 = ne_of_pos (λ a. hit a z) z null (omega (arith, s.nonnull)) (omega (arith, hit_self z))

  pub erase_one-HasTree :
      {t : Tree}
      → Only l r t
      → Sub h z t
      → ((a : Ptr) → times a t ≤ times a l + times a r)
      → depth_of t ≤ fuel
      → Returns (λ _ g. HasTree h g header (plug c t)) (erase fuel header z h)
  unfolding erase
  erase_one-HasTree {t} o hangs part small =
      let same : (z == z) ≡ true = ==-true refl in
      rw
        (
          get_left-ok z h z0,
          s.sub.1,
          get_right-ok z h z0,
          s.sub.2,
          choose-one h fuel z o (omega (arith, s.nonnull)),
          get_parent-ok z h z0,
          s.sub.0,
          get_left-ok (above header c) h (above_ne c s),
          same,
          adopt-ok (root_of t) (above header c) h,
        )
        (Returns-bind
          (Returns-bind {Q = λ _ g. HasTree h g header (plug c t)}
            (lift-Standing c l z r s t hangs part (h.left (above header c) == z)
              (Side-of c l z r s))
            λ _ k lifted.
              Returns-bind
                (update_ends-Ends header c fuel l z r t o lifted.0
                  (lifted.1.leftmost ∙ ends.0, lifted.1.rightmost ∙ ends.1)
                  (λ a. omega (arith, s.distinct a)) small)
                λ _ g ended. returns (record {
                  stands = Standing-plug c t ended.0;
                  ends = ended.1;
                  tag = λ a. ended.2 a ∙ lifted.1.tag a;
                }))
          λ _ g remaining. returns remaining)

  pub erase_one :
      {t : Tree}
      → Only l r t
      → Sub h z t
      → ((a : Ptr) → times a t ≤ times a l + times a r)
      → depth_of t ≤ fuel
      → Returns (λ _ g. HasNodes h g header (in_front c l ++ behind c r)) (erase fuel header z h)
  erase_one {t} o hangs part small = Returns-imp (erase_one-HasTree o hangs part small) λ _ g left.
      record {
        tree = plug c t;
        stands = left.stands;
        nodes = around-left c o;
        ends = left.ends;
        tag = left.tag;
      }
