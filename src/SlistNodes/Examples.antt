-- ===== src/SlistNodes/Examples.antt =====
-- A test of the singly linked lists: the list of the nodes 1, 2 and 3.
use intrusive.Base.{◌≡◌, refl, arith, [], ◌∷◌, ◌==◌, if◌then◌else◌, count}
use intrusive.Machine.{Ptr, Returns}
use intrusive.SlistNodes.{Nexts}
use intrusive.SlistNodes.Chain.{LinearList}
use intrusive.SlistNodes.Linear.{reverse}
use intrusive.SlistNodes.Linear.Reverse.{reverse-LinearList}

abbrev three_nexts : Nexts
three_nexts a = if a == 1 then 2 else if a == 2 then 3 else 0

three_nexts-LinearList : LinearList three_nexts (1 ∷ 2 ∷ 3 ∷ [])
three_nexts-LinearList = record {
  chain = (refl, (refl, (refl, tt)));
  distinct = λ a. ground arith;
  nonnull = refl;
}

linear_reverse_example :
    Returns
      (λ f g.
        (f ≡ 3)
        × LinearList g (3 ∷ 2 ∷ 1 ∷ [])
        × ((a : Ptr) → count a (1 ∷ 2 ∷ 3 ∷ []) ≡ 0 → g a ≡ three_nexts a))
      (reverse 3 1 three_nexts)
linear_reverse_example = reverse-LinearList 1 (2 ∷ 3 ∷ []) 3 three_nexts-LinearList (ground arith)
