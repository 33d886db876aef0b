-- ===== src/CircularList/Partition/Tested.antt =====
-- What a test that may throw finds in a list.
use intrusive.Base.{◌≡◌, [], ◌∷◌, List, Bool, true, false, Option, none, some}
use intrusive.Machine.{Ptr}

module _ (pred : Ptr → Option Bool) where
  -- The nodes that pass the test, in front of the first one at which it throws.
  abbrev pub kept : List Ptr → List Ptr
  kept [] = []
  kept (x ∷ xs) = elim (pred x) [ none ↦ [] | some true ↦ x ∷ kept xs | some false ↦ kept xs ]

  -- The nodes that fail it, in front of the first one at which it throws.
  abbrev pub failed : List Ptr → List Ptr
  failed [] = []
  failed (x ∷ xs) = elim (pred x) [ none ↦ [] | some true ↦ failed xs | some false ↦ x ∷ failed xs ]

  -- The first node at which the test throws, and those behind it.
  abbrev pub untested : List Ptr → List Ptr
  untested [] = []
  untested (x ∷ xs) = elim (pred x) [ none ↦ x ∷ xs | some _ ↦ untested xs ]

module _ (pred : Ptr → Option Bool) (c : Ptr) (rs : List Ptr) where
  pub at_throw :
      pred c ≡ none
      → (kept pred (c ∷ rs) ≡ []) × (failed pred (c ∷ rs) ≡ []) × (untested pred (c ∷ rs) ≡ c ∷ rs)
  at_throw t = (rw (t, kept), rw (t, failed), rw (t, untested))

  pub at_pass :
      pred c ≡ some true
      → (kept pred (c ∷ rs) ≡ c ∷ kept pred rs)
        × (failed pred (c ∷ rs) ≡ failed pred rs)
        × (untested pred (c ∷ rs) ≡ untested pred rs)
  at_pass t = (rw (t, kept), rw (t, failed), rw (t, untested))

  pub at_fail :
      pred c ≡ some false
      → (kept pred (c ∷ rs) ≡ kept pred rs)
        × (failed pred (c ∷ rs) ≡ c ∷ failed pred rs)
        × (untested pred (c ∷ rs) ≡ untested pred rs)
  at_fail t = (rw (t, kept), rw (t, failed), rw (t, untested))
