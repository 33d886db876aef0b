-- ===== src/BsTree/Erase/Ends.antt =====
-- The header's leftmost and rightmost nodes after the removal of a node with at most one child.
pub mod Fix
pub mod Next
use intrusive.Base.{
  ◌+◌, ◌≤◌, ◌≡◌, ◌≢◌, sym, ap, ◌∙◌, arith, hit, ◌==◌, if◌then◌else◌, ℕ, last, count, count-append,
}
use intrusive.Machine.{Ptr, null, pure, Returns, Returns-bind, Returns-imp}
use intrusive.BsTree.{Nodes}
use intrusive.BsTree.Navigate.{minimum, maximum}
use intrusive.BsTree.Access.{get_left-ok, get_right-ok}
use intrusive.BsTree.Shape.{
  Tree, node, inorder, times, times-count, root_of, PathUp, plug, times_up, above, ne_of_pos,
  hit_self,
}
use intrusive.BsTree.Hang.{Standing}
use intrusive.BsTree.Commit.{Ends, before, after, first_or, times-sides}
use intrusive.BsTree.Order.{depth_of}
use intrusive.BsTree.Locate.{in_front, behind, around-removed}
use intrusive.BsTree.Erase.{update_ends}
use intrusive.BsTree.Erase.Ends.Fix.{Ended-Standing, left_step, right_step}
use intrusive.BsTree.Erase.Ends.Next.{next_first, next_last}
pub use intrusive.BsTree.Erase.Ends.Next.{Only, only_right, only_left, around-left}

module _ {X : Type 0} {k : Nodes X} (header : Ptr) (c : PathUp) (fuel : ℕ) where
  -- `update_ends` after the subtree of the only child has taken the place of the node `z`.
  pub update_ends-Ends :
      (l : Tree) (z : Ptr) (r t : Tree)
      → Only l r t
      → Standing k header c t
      → Ends k header (plug c (node l z r))
      → ((a : Ptr) → times_up a c + times a (node l z r) ≤ 1)
      → depth_of t ≤ fuel
      → Returns
          (λ _ g.
            Standing g header c t × Ends g header (plug c t) × ((a : Ptr) → g.tag a ≡ k.tag a))
          (update_ends fuel header z (root_of l) (root_of r) (above header c) k)
  unfolding update_ends
  update_ends-Ends l z r t o s ends d enough =
      let h0 : header ≢ null =
        ne_of_pos (λ a. hit a header) header null (omega (arith, s.nonnull))
          (omega (arith, hit_self header)) in
      let whole = around-removed c l z r in
      let left_of_z : count z (in_front c l) ≡ 0 = omega (
        arith,
        d z,
        count-append z (before c) (inorder l),
        times-sides z c,
        times-count z l,
        hit_self z,
      ) in
      let right_of_z : count z (behind c r) ≡ 0 = omega (
        arith,
        d z,
        count-append z (inorder r) (after c),
        times-sides z c,
        times-count z r,
        hit_self z,
      ) in
      rw (get_left-ok header k h0) (
        Returns-bind
          (left_step header z h0 k
            (if root_of r == null then pure (above header c) else minimum fuel (root_of r))
            (in_front c l) (behind c r) left_of_z (ends.0 ∙ ap (first_or header) whole)
            (next_first header c fuel o s.sub (omega (arith, s.nonnull)) enough))
          λ _ m e.
            let s1 = Ended-Standing c t e s in
            rw (get_right-ok header m h0) (
              Returns-imp
                (right_step header z h0 m
                  (if root_of l == null then pure (above header c) else maximum fuel (root_of l))
                  (in_front c l) (behind c r) right_of_z (e.final ∙ ends.1 ∙ ap (last header) whole)
                  (next_last header c fuel o s1.sub (omega (arith, s.nonnull)) enough))
                λ _ g e1. (
                  Ended-Standing c t e1 s1,
                  (
                    e1.first ∙ e.first ∙ ap (first_or header) (sym (around-left c o)),
                    e1.final ∙ ap (last header) (sym (around-left c o)),
                  ),
                  λ a. e1.tag a ∙ e.tag a,
                )))
