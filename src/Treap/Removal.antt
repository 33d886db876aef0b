-- ===== src/Treap/Removal.antt =====
-- `erase` of a treap: it erases the node, or throws and leaves the tree as it was.
use intrusive.Base.{
  ℕ, ◌<◌, ◌≡◌, ◌≢◌, refl, sym, ap, ◌∙◌, arith, hit, last, ◌∷◌, ◌++◌, Bool, Option, none, some,
  length, length-append,
}
use mathlib.Core.Option.{map, some-injective, none-ne-some}
use intrusive.Machine.{
  Ptr, null, returned, threw, Returns, returns, Returns-imp, Returns-bind, Throws, thrown, Run, ok,
  and_then,
}
use intrusive.BsTree.{Nodes}
use intrusive.BsTree.Access.{get_left-ok, get_right-ok}
use intrusive.BsTree.Shape.{Tree, leaf, node, inorder, PathUp, top, plug, ne_of_pos, hit_self}
use intrusive.BsTree.Hang.{Standing}
use intrusive.BsTree.Commit.{Ends, first_or, before, after, inorder-split}
use intrusive.BsTree.Locate.{Standing-plug, Standing-unplug}
use intrusive.BsTree.Erase
use intrusive.BsTree.Erase.Ends.{only_right}
use intrusive.BsTree.Erase.Whole.{HasTree, erase_one-HasTree}
use intrusive.Treap.{rebalance_for_erasure, erase}
use intrusive.Treap.Merge.{merged, merged-order}
use intrusive.Treap.Raise.{raised, whole, raised-order}
use intrusive.Treap.Erasure.{Sunk, Sinks, sink_loop-Sinks}

module _ {X : Type 0} {h : Nodes X} {header : Ptr} (pcomp : Ptr → Ptr → Option Bool) (c : PathUp)
    (l : Tree) (z : Ptr) (r : Tree) (fuel : ℕ) (s : Standing h header top (plug c (node l z r)))
    (ends : Ends h header (plug c (node l z r)))
    (enough : length (inorder (plug c (node l z r))) < fuel) where
  -- The tree around the node, once the node's subtrees are merged.
  abbrev rest : Option Tree
  rest = map (plug c) (merged pcomp l r)

  rebalance_for_erasure-Sinks :
      Sinks h header z (raised 0 c l r) pcomp rest (rebalance_for_erasure pcomp fuel header z h)
  unfolding rebalance_for_erasure
  rebalance_for_erasure-Sinks =
      let st = Standing-unplug c (node l z r) s in
      let z0 : z ≢ null =
        ne_of_pos (λ a. hit a z) z null (omega (arith, st.nonnull)) (omega (arith, hit_self z)) in
      rw (get_left-ok z h z0, st.sub.1, get_right-ok z h z0, st.sub.2)
        (sink_loop-Sinks h header z (raised 0 c l r) pcomp rest fuel 0 h c l r st
          (record { leftmost = refl; rightmost = refl; tag = λ a. refl }) refl refl (omega arith)
          (omega (
            arith,
            enough,
            ap length (inorder-split c (node l z r)),
            length-append (before c) (inorder (node l z r) ++ after c),
            length-append (inorder (node l z r)) (after c),
            length-append (inorder l) (z ∷ inorder r),
          )))

  erase-Sunk :
      (t : Tree) (g : Nodes X)
      → merged pcomp l r ≡ some t
      → Sunk h g header z (raised 0 c l r) rest
      → Returns
          (λ _ m. HasTree h m header (plug c t))
          (intrusive.BsTree.Erase.erase fuel header z g)
  erase-Sunk t g e sunk =
      let u = plug sunk.path (node leaf z leaf) in
      let order : inorder u ≡ inorder (plug c (node l z r)) =
        sym (raised-order sunk.steps sunk.path leaf z leaf)
        ∙ ap (λ p. inorder (whole z p)) sunk.back in
      let same : plug sunk.path leaf ≡ plug c t =
        some-injective _ _ (sym sunk.left_over ∙ ap (map (plug c)) e) in
      Returns-imp
        (erase_one-HasTree sunk.path fuel leaf z leaf sunk.stands
          (
            sunk.spared.leftmost ∙ ends.0 ∙ ap (first_or header) (sym order),
            sunk.spared.rightmost ∙ ends.1 ∙ ap (last header) (sym order),
          )
          only_right sunk.stands.sub.4 (λ a. omega arith) (omega arith))
        λ _ m left. rw (← same) (record {
          stands = left.stands;
          ends = left.ends;
          tag = λ a. left.tag a ∙ sunk.spared.tag a;
        })

  erase_sunk-HasTree :
      (t : Tree)
      → merged pcomp l r ≡ some t
      → {k : Run (Nodes X) (Unit {0})} → Sinks h header z (raised 0 c l r) pcomp rest k
      → Returns
          (λ p g. (p ≡ z) × HasTree h g header (plug c t))
          (and_then k
            (λ _ g. and_then (intrusive.BsTree.Erase.erase fuel header z g) (λ _ m. ok z m)))
  erase_sunk-HasTree t e (returned sunk) =
      Returns-bind (erase-Sunk t _ e sunk) λ _ m left. returns (refl, left)
  erase_sunk-HasTree t e (threw q) =
      absurd (none-ne-some (plug c t) (sym q.0 ∙ ap (map (plug c)) e))

  erase_sunk-Throws :
      merged pcomp l r ≡ none
      → {k : Run (Nodes X) (Unit {0})} → Sinks h header z (raised 0 c l r) pcomp rest k
      → Throws
          (λ g. HasTree h g header (plug c (node l z r)))
          (and_then k
            (λ _ g. and_then (intrusive.BsTree.Erase.erase fuel header z g) (λ _ m. ok z m)))
  erase_sunk-Throws e (returned sunk) =
      absurd (none-ne-some (plug sunk.path leaf) (sym (ap (map (plug c)) e) ∙ sunk.left_over))
  erase_sunk-Throws e (threw q) = thrown (record {
    stands = Standing-plug c (node l z r) q.1.0;
    ends = (q.1.1.leftmost ∙ ends.0, q.1.1.rightmost ∙ ends.1);
    tag = q.1.1.tag;
  })

  -- `erase` of a node of a treap, with fuel for each node and one round more, when no comparison
  -- throws that the merge of the node's subtrees asks for: it returns the node, and its place is
  -- taken by the merge of its subtrees, whose nodes are theirs in their order. The header's left
  -- and right are at the ends of the tree, and the further fields of all nodes are as before. No
  -- null pointer is used.
  pub erase-HasTree :
      (t : Tree)
      → merged pcomp l r ≡ some t
      → Returns
          (λ p g. (p ≡ z) × HasTree h g header (plug c t) × (inorder t ≡ inorder l ++ inorder r))
          (erase pcomp fuel header z h)
  unfolding erase
  erase-HasTree t e =
      Returns-imp (erase_sunk-HasTree t e rebalance_for_erasure-Sinks)
        λ p g q. (q.0, q.1, merged-order pcomp l r e)

  -- `erase` of a node of a treap, with fuel for each node and one round more, when a comparison
  -- throws that the merge of the node's subtrees asks for: the exception is passed on, and the very
  -- tree from before stands again, with the header's left and right at its ends and the further
  -- fields of all nodes as before. No null pointer is used.
  pub erase-Throws :
      merged pcomp l r ≡ none
      → Throws (λ g. HasTree h g header (plug c (node l z r))) (erase pcomp fuel header z h)
  unfolding erase
  erase-Throws e = erase_sunk-Throws e rebalance_for_erasure-Sinks
