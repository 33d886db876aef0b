-- ===== src/TreeContainer/Order.antt =====
-- A strict weak order on values, and lists sorted by it without equivalent values.
use intrusive.Base.{
  ◌≡◌, ap, inl, inr, List, [], ◌∷◌, ◌++◌, arith, Bool, true, false, not, Bool-cases,
}
use intrusive.Machine.{Ptr}
use intrusive.BsTree.Order.{AllTrue, AllFalse, Falls}

-- What the library asks of a comparison.
pub record IsStrictOrder (comp : Ptr → Ptr → Bool) : Type 0 where
  pub irreflexive : (x : Ptr) → comp x x ≡ false
  pub transitive : (x y z : Ptr) → comp x y ≡ true → comp y z ≡ true → comp x z ≡ true

module _ (comp : Ptr → Ptr → Bool) where
  -- Each value is less than all behind it.
  abbrev pub Sorted : List Ptr → Type 0
  Sorted [] = Unit {0}
  Sorted (x ∷ xs) = AllTrue (comp x) xs × Sorted xs

  module _ (order : IsStrictOrder comp) where
    not_less :
        (x v : Ptr) (ys : List Ptr)
        → AllTrue (comp x) ys
        → comp x v ≡ false
        → AllFalse (λ y. comp y v) ys
    not_less x v [] a e = tt
    not_less x v (y ∷ ys) a e = (
      elim (Bool-cases (comp y v)) [
        | inl p ↦ absurd (let q = order.transitive x y v a.0 p in cc)
        | inr p ↦ p
      ],
      not_less x v ys a.1 e,
    )

    greater_too :
        (x v : Ptr) (ys : List Ptr)
        → AllTrue (comp x) ys
        → comp v x ≡ true
        → AllFalse (λ y. not (comp v y)) ys
    greater_too x v [] a e = tt
    greater_too x v (y ∷ ys) a e = (ap not (order.transitive v x y e a.0), greater_too x v ys a.1 e)

    pub Sorted-Falls-less : (v : Ptr) (xs : List Ptr) → Sorted xs → Falls (λ x. comp x v) xs
    Sorted-Falls-less v [] s = tt
    Sorted-Falls-less v (x ∷ xs) s = (λ e. not_less x v xs s.0 e, Sorted-Falls-less v xs s.1)

    pub Sorted-Falls-greater :
        (v : Ptr) (xs : List Ptr) → Sorted xs → Falls (λ x. not (comp v x)) xs
    Sorted-Falls-greater v [] s = tt
    Sorted-Falls-greater v (x ∷ xs) s =
        (λ e. greater_too x v xs s.0 (let f = e in ground arith), Sorted-Falls-greater v xs s.1)

  AllTrue-insert :
      (x v : Ptr) (xs ys : List Ptr)
      → AllTrue (comp x) (xs ++ ys)
      → comp x v ≡ true
      → AllTrue (comp x) (xs ++ v ∷ ys)
  AllTrue-insert x v [] ys a e = (e, a)
  AllTrue-insert x v (z ∷ xs) ys a e = (a.0, AllTrue-insert x v xs ys a.1 e)

  -- A value between those that are less and those that are greater.
  pub Sorted-insert :
      (v : Ptr) (xs ys : List Ptr)
      → Sorted (xs ++ ys)
      → AllTrue (λ x. comp x v) xs
      → AllTrue (comp v) ys
      → Sorted (xs ++ v ∷ ys)
  Sorted-insert v [] ys s a b = (b, s)
  Sorted-insert v (x ∷ xs) ys s a b =
      (AllTrue-insert x v xs ys s.0 a.0, Sorted-insert v xs ys s.1 a.1 b)

  AllTrue-remove :
      (x v : Ptr) (xs ys : List Ptr) → AllTrue (comp x) (xs ++ v ∷ ys) → AllTrue (comp x) (xs ++ ys)
  AllTrue-remove x v [] ys a = a.1
  AllTrue-remove x v (z ∷ xs) ys a = (a.0, AllTrue-remove x v xs ys a.1)

  pub Sorted-remove : (v : Ptr) (xs ys : List Ptr) → Sorted (xs ++ v ∷ ys) → Sorted (xs ++ ys)
  Sorted-remove v [] ys s = s.1
  Sorted-remove v (x ∷ xs) ys s = (AllTrue-remove x v xs ys s.0, Sorted-remove v xs ys s.1)
