-- ===== src/BsTree/Between.antt =====
-- `bounded_range`: the nodes between the two ends of a range.
use intrusive.Base.{
  ℕ, ◌<◌, ◌≡◌, refl, inl, inr, List, ◌++◌, arith, Bool, true, false, not, Bool-cases, ◌||◌,
  if◌then◌else◌,
}
use intrusive.Machine.{Ptr, Returns, returns}
use intrusive.BsTree.{Nodes}
use intrusive.BsTree.Shape.{Tree, inorder, top}
use intrusive.BsTree.Hang.{Standing}
use intrusive.BsTree.Commit.{first_or}
use intrusive.BsTree.Search.{bounded_range}
use intrusive.BsTree.Order.{depth_of, Falls, first_false}
use intrusive.BsTree.Split.{Split, split_at}
use intrusive.BsTree.Range.{IsRange, IsOrdered, range_start, range_end, bounded_range-ends}

module _ (below above above_lower below_upper : Ptr → Bool) where
  -- Whether a node lies in front of the range, by its lower end.
  abbrev pub before_range : (left_closed : Bool) → Ptr → Bool
  before_range lc x = if lc then below x else not (above_lower x)

  -- Whether the upper end of the range lets a node in.
  abbrev pub within_range : (right_closed : Bool) → Ptr → Bool
  within_range rc x = if rc then not (above x) else below_upper x

  start-first :
      (lc : Bool) (xs : List Ptr) (y : Ptr)
      → range_start below above_lower lc xs y ≡ first_false (before_range lc) xs y
  start-first true xs y = refl
  start-first false xs y = refl

  end-first :
      (rc : Bool) (xs : List Ptr) (y : Ptr)
      → range_end above below_upper rc xs y ≡ first_false (within_range rc) xs y
  end-first true xs y = refl
  end-first false xs y = refl

  before-Falls :
      (lc : Bool) {xs : List Ptr}
      → IsOrdered below above above_lower below_upper xs
      → Falls (before_range lc) xs
  before-Falls true o = o.by_below
  before-Falls false o = o.by_above_lower

  within-Falls :
      (rc : Bool) {xs : List Ptr}
      → IsOrdered below above above_lower below_upper xs
      → Falls (within_range rc) xs
  within-Falls true o = o.by_above
  within-Falls false o = o.by_below_upper

  before-within :
      (lc rc : Bool)
      → IsRange below above above_lower below_upper
      → ((x : Ptr) → (lc || rc || above_lower x || below_upper x) ≡ true)
      → (x : Ptr) → before_range lc x ≡ true
      → within_range rc x ≡ true
  before-within true true range proper x e = let f = (range.in_front x e).0 in ground arith
  before-within true false range proper x e = (range.in_front x e).2
  before-within false true range proper x e = elim (Bool-cases (above x)) [
    | inl f ↦ absurd (let g = (range.behind x f).1 in ground arith)
    | inr f ↦ ground arith
  ]
  before-within false false range proper x e = let f = proper x in ground arith

  -- The nodes `r` are the first one of the range and the first one behind it.
  pub record Between (lc rc : Bool) (header : Ptr) (xs : List Ptr) (r : Ptr × Ptr) : Type 0 where
    pub split : Split (before_range lc) (within_range rc) xs
    pub ends : r ≡ (first_or header (split.inside ++ split.back), first_or header split.back)

  -- With fuel for each level and one round more, `bounded_range` returns the first node of the
  -- range and the first one behind it, which are the same if the range is empty, the header standing
  -- for the end of the tree, and leaves the store as it was: the nodes in front of the first are those that lie before the lower end, those
  -- from the second on those that the upper end does not let in, and those between are the others.
  -- Each end counts if it is closed. The conditions are the documented ones: the nodes are ordered
  -- by the comparisons with both keys, the upper key is not less than the lower one, and if both
  -- ends are open, each node is greater than the lower key or less than the upper one, as the
  -- code asserts.
  pub bounded_range-Between :
      {X : Type 0} {h : Nodes X} {header : Ptr} (t : Tree) (lc rc : Bool) (fuel : ℕ)
      → IsRange below above above_lower below_upper
      → ((x : Ptr) → (lc || rc || above_lower x || below_upper x) ≡ true)
      → Standing h header top t
      → IsOrdered below above above_lower below_upper (inorder t)
      → depth_of t < fuel
      → Returns
          (λ r g. Between lc rc header (inorder t) r × (g ≡ h))
          (bounded_range below above above_lower below_upper lc rc fuel header h)
  bounded_range-Between {X} {h} {header} t lc rc fuel range proper s o e =
      let p =
        split_at (before_range lc) (within_range rc) (inorder t) (before-Falls lc o)
          (within-Falls rc o) (before-within lc rc range proper) in
      rw (bounded_range-ends below above above_lower below_upper t lc rc fuel range s o e) (
        returns (
          record {
            split = p.split;
            ends =
                rw
                  (
                    start-first lc (inorder t) header,
                    end-first rc (inorder t) header,
                    p.first header,
                    p.second header,
                  )
                  refl;
          },
          refl,
        ))
