-- ===== src/BsTree/Order.antt =====
-- The order of the nodes of a tree, seen through the comparisons with a key: a test that holds of
-- the first nodes and fails from some node on.
use intrusive.Base.{
  ℕ, suc, max, ◌≤◌, ◌≡◌, refl, ap, ◌∙◌, ◌⊎◌, inl, inr, List, [], ◌∷◌, ◌++◌, arith, Bool, true,
  false, Bool-cases, if◌then◌else◌, length, length-append, count, count-append, ◌==◌, ltb,
}
use intrusive.Machine.{Ptr}
use intrusive.BsTree.Shape.{Tree, leaf, node, inorder}

-- The longest way down from the root.
abbrev pub depth_of : Tree → ℕ
depth_of leaf = 0
depth_of (node l x r) = suc (max (depth_of l) (depth_of r))

pub depth-length : (t : Tree) → depth_of t ≤ length (inorder t)
depth-length leaf = omega arith
depth-length (node l x r) =
    omega (arith, depth-length l, depth-length r, length-append (inorder l) (x ∷ inorder r))

pub in_front_or_behind :
    (a : Ptr) (xs ys : List Ptr) → 1 ≤ count a (xs ++ ys) → (1 ≤ count a xs) ⊎ (1 ≤ count a ys)
in_front_or_behind a xs ys m = elim (Bool-cases (ltb 0 (count a xs))) [
  | inl e ↦ inl (ground arith)
  | inr e ↦ inr (ground (arith, count-append a xs ys))
]

module _ (test : Ptr → Bool) where
  abbrev pub AllTrue : List Ptr → Type 0
  AllTrue [] = Unit {0}
  AllTrue (x ∷ xs) = (test x ≡ true) × AllTrue xs

  abbrev pub AllFalse : List Ptr → Type 0
  AllFalse [] = Unit {0}
  AllFalse (x ∷ xs) = (test x ≡ false) × AllFalse xs

  -- Where the test fails, it fails behind.
  abbrev pub Falls : List Ptr → Type 0
  Falls [] = Unit {0}
  Falls (x ∷ xs) = (test x ≡ false → AllFalse xs) × Falls xs

  -- The first node that fails the test, or `y`.
  abbrev pub first_false : List Ptr → Ptr → Ptr
  first_false [] y = y
  first_false (x ∷ xs) y = if test x then first_false xs y else x

  AllFalse-append :
      (xs : List Ptr) (x : Ptr) (ys : List Ptr) → AllFalse (xs ++ x ∷ ys) → test x ≡ false
  AllFalse-append [] x ys a = a.0
  AllFalse-append (z ∷ xs) x ys a = AllFalse-append xs x ys a.1

  AllFalse-front : (xs ys : List Ptr) → AllFalse (xs ++ ys) → AllFalse xs
  AllFalse-front [] ys a = tt
  AllFalse-front (z ∷ xs) ys a = (a.0, AllFalse-front xs ys a.1)

  pub Falls-front : (xs ys : List Ptr) → Falls (xs ++ ys) → Falls xs
  Falls-front [] ys f = tt
  Falls-front (z ∷ xs) ys f = (λ e. AllFalse-front xs ys (f.0 e), Falls-front xs ys f.1)

  pub Falls-behind : (xs ys : List Ptr) → Falls (xs ++ ys) → Falls ys
  Falls-behind [] ys f = f
  Falls-behind (z ∷ xs) ys f = Falls-behind xs ys f.1

  -- The test holds in front of a node where it holds.
  pub Falls-AllTrue :
      (xs : List Ptr) (x : Ptr) (ys : List Ptr) → Falls (xs ++ x ∷ ys) → test x ≡ true → AllTrue xs
  Falls-AllTrue [] x ys f e = tt
  Falls-AllTrue (z ∷ xs) x ys f e = (
    elim (Bool-cases (test z)) [
      | inl t ↦ t
      | inr t ↦ absurd (let c = AllFalse-append xs x ys (f.0 t) in cc)
    ],
    Falls-AllTrue xs x ys f.1 e,
  )

  pub first_false-true :
      (xs ys : List Ptr) (y : Ptr) → AllTrue xs → first_false (xs ++ ys) y ≡ first_false ys y
  first_false-true [] ys y a = refl
  first_false-true (x ∷ xs) ys y a = rw a.0 (first_false-true xs ys y a.1)

  pub first_false-stop :
      (xs : List Ptr) (x : Ptr) (ys : List Ptr) (y : Ptr)
      → test x ≡ false
      → first_false (xs ++ x ∷ ys) y ≡ first_false xs x
  first_false-stop [] x ys y e = rw e
  first_false-stop (z ∷ xs) x ys y e = ground (arith, first_false-stop xs x ys y e)

  pub AllTrue-append : (xs ys : List Ptr) → AllTrue xs → AllTrue ys → AllTrue (xs ++ ys)
  AllTrue-append [] ys a b = b
  AllTrue-append (x ∷ xs) ys a b = (a.0, AllTrue-append xs ys a.1 b)

  pub AllFalse-both : (xs ys : List Ptr) → AllFalse xs → AllFalse ys → AllFalse (xs ++ ys)
  AllFalse-both [] ys a b = b
  AllFalse-both (x ∷ xs) ys a b = (a.0, AllFalse-both xs ys a.1 b)

  -- The first failure in a tree, from the test at its root.
  pub first_false-right :
      (l : Tree) (x : Ptr) (r : Tree) (y : Ptr)
      → Falls (inorder (node l x r))
      → test x ≡ true
      → first_false (inorder (node l x r)) y ≡ first_false (inorder r) y
  first_false-right l x r y f e =
      first_false-true (inorder l) (x ∷ inorder r) y (Falls-AllTrue (inorder l) x (inorder r) f e)
      ∙ rw e

  pub first_false-left :
      (l : Tree) (x : Ptr) (r : Tree) (y : Ptr)
      → test x ≡ false
      → first_false (inorder (node l x r)) y ≡ first_false (inorder l) x
  first_false-left l x r y e = first_false-stop (inorder l) x (inorder r) y e

  pub Falls-left :
      (l : Tree) (x : Ptr) (r : Tree) → Falls (inorder (node l x r)) → Falls (inorder l)
  Falls-left l x r f = Falls-front (inorder l) (x ∷ inorder r) f

  pub Falls-right :
      (l : Tree) (x : Ptr) (r : Tree) → Falls (inorder (node l x r)) → Falls (inorder r)
  Falls-right l x r f = (Falls-behind (inorder l) (x ∷ inorder r) f).1

  -- Where the first failure splits the nodes.
  pub data Cut (y : Ptr) : List Ptr → Ptr → Type 0 where
    all_true : {xs : List Ptr} → AllTrue xs → Cut y xs y
    cut_at :
        {xs : List Ptr} {z : Ptr} (front back : List Ptr)
        → xs ≡ front ++ z ∷ back
        → AllTrue front
        → test z ≡ false
        → AllFalse back
        → Cut y xs z

  pub first_false-Cut : (xs : List Ptr) (y : Ptr) → Falls xs → Cut y xs (first_false xs y)
  first_false-Cut [] y f = all_true tt
  first_false-Cut (x ∷ xs) y f = elim (Bool-cases (test x)) [
    | inl e ↦ rw e (more e (first_false-Cut xs y f.1))
    | inr e ↦ rw e (cut_at [] xs refl tt e (f.0 e))
  ]
    where
      more : test x ≡ true → {z : Ptr} → Cut y xs z → Cut y (x ∷ xs) z
      more e (all_true a) = all_true (e, a)
      more e (cut_at front back g a t b) = cut_at (x ∷ front) back (ap (λ l. x ∷ l) g) (e, a) t b

  pub AllTrue-at : (xs : List Ptr) (a : Ptr) → AllTrue xs → 1 ≤ count a xs → test a ≡ true
  AllTrue-at [] a t m = absurd (omega (arith, m))
  AllTrue-at (x ∷ xs) a t m = elim (Bool-cases (a == x)) [
    | inl e ↦ ground arith
    | inr e ↦ AllTrue-at xs a t.1 (ground arith)
  ]

  pub AllFalse-at : (xs : List Ptr) (a : Ptr) → AllFalse xs → 1 ≤ count a xs → test a ≡ false
  AllFalse-at [] a t m = absurd (omega (arith, m))
  AllFalse-at (x ∷ xs) a t m = elim (Bool-cases (a == x)) [
    | inl e ↦ ground arith
    | inr e ↦ AllFalse-at xs a t.1 (ground arith)
  ]
