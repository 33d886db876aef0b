-- ===== src/Base/Lists.antt =====
-- Lists of addresses: length, last address, and how often an address occurs. That a list has no
-- duplicates is said by these counts, so that permuting a list is arithmetic.
use Prim.Native.Nat.{ℕ, suc, ◌+◌, ◌≤◌}
use mathlib.Core.Path.{◌≡◌, refl, ap}
use mathlib.Core.List.{List, [], ◌∷◌, ◌++◌, reverse_aux, reverse}
use native.Mathlib.Omega.{arith}
use intrusive.Base.Tests.{◌==◌, if◌then◌else◌}

module _ {ℓ} {A : Type ℓ} where
  abbrev pub length : List A → ℕ
  length [] = 0
  length (x ∷ xs) = suc (length xs)

  pub length-append : (xs ys : List A) → length (xs ++ ys) ≡ length xs + length ys
  length-append [] ys = omega arith
  length-append (x ∷ xs) ys = omega (arith, length-append xs ys)

  -- The last element of the list `x ∷ xs`.
  abbrev pub last : A → List A → A
  last x [] = x
  last x (y ∷ ys) = last y ys

  pub last-append : (x : A) (xs : List A) (y : A) (ys : List A) → last x (xs ++ y ∷ ys) ≡ last y ys
  last-append x [] y ys = refl
  last-append x (z ∷ xs) y ys = last-append z xs y ys

module _ {ℓ} {A : Type ℓ} where
  -- The list `x ∷ xs` less its last element.
  abbrev pub but_last : A → List A → List A
  but_last x [] = []
  but_last x (y ∷ ys) = x ∷ but_last y ys

  pub but_last-last : (x : A) (xs : List A) → x ∷ xs ≡ but_last x xs ++ last x xs ∷ []
  but_last-last x [] = refl
  but_last-last x (y ∷ ys) = ap (λ l. x ∷ l) (but_last-last y ys)

-- 1 if the addresses are equal.
abbrev pub hit : ℕ → ℕ → ℕ
hit a x = if a == x then 1 else 0

abbrev pub count : ℕ → List ℕ → ℕ
count a [] = 0
count a (x ∷ xs) = hit a x + count a xs

abbrev pub Distinct : List ℕ → Type 0
Distinct xs = (a : ℕ) → count a xs ≤ 1

pub count-append :
    (node : ℕ) (front behind : List ℕ)
    → count node (front ++ behind) ≡ count node front + count node behind
count-append node [] behind = omega arith
count-append node (first ∷ front) behind = omega (arith, count-append node front behind)

count-reverse_aux : (a : ℕ) (xs ys : List ℕ) → count a (reverse_aux xs ys) ≡ count a xs + count a ys
count-reverse_aux a [] ys = omega arith
count-reverse_aux a (x ∷ xs) ys = omega (arith, count-reverse_aux a xs (x ∷ ys))

pub count-reverse : (a : ℕ) (xs : List ℕ) → count a (reverse xs) ≡ count a xs
count-reverse a xs = omega (arith, count-reverse_aux a xs [])

pub count-last : (x : ℕ) (xs : List ℕ) → 1 ≤ count (last x xs) (x ∷ xs)
count-last x [] = ground arith
count-last x (y ∷ ys) = omega (arith, count-last y ys)
