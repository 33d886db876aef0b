-- ===== src/SlistNodes/Chain.antt =====
-- Lists of singly linked nodes that end in a null pointer.
use intrusive.Base.{◌≤◌, ◌≡◌, ◌≢◌, refl, ◌∙◌, arith, List, [], ◌∷◌, ◌++◌, count}
use intrusive.Machine.{Ptr, null, ok, update}
use intrusive.SlistNodes.{Nexts, get_next, set_next}

abbrev pub first_or : Ptr → List Ptr → Ptr
first_or y [] = y
first_or y (x ∷ xs) = x

-- Each node links to the one behind it, the last one to `y`.
abbrev pub Chain : Nexts → Ptr → List Ptr → Type 0
Chain h y [] = Unit {0}
Chain h y (x ∷ xs) = (h x ≡ first_or y xs) × Chain h y xs

-- The list of the nodes `xs`, which are different and not null.
pub record LinearList (h : Nexts) (xs : List Ptr) : Type 0 where
  pub chain : Chain h null xs
  pub distinct : (a : Ptr) → count a xs ≤ 1
  pub nonnull : count null xs ≡ 0

pub first_or-append :
    (y : Ptr) (xs : List Ptr) (z : Ptr) (zs : List Ptr) → first_or y (xs ++ z ∷ zs) ≡ first_or z xs
first_or-append y [] z zs = refl
first_or-append y (x ∷ xs) z zs = refl

pub Chain-front :
    (h : Nexts) (y : Ptr) (xs : List Ptr) (z : Ptr) (zs : List Ptr)
    → Chain h y (xs ++ z ∷ zs)
    → Chain h z xs
Chain-front h y [] z zs c = tt
Chain-front h y (x ∷ xs) z zs c = (c.0 ∙ first_or-append y xs z zs, Chain-front h y xs z zs c.1)

pub Chain-behind : (h : Nexts) (y : Ptr) (xs zs : List Ptr) → Chain h y (xs ++ zs) → Chain h y zs
Chain-behind h y [] zs c = c
Chain-behind h y (x ∷ xs) zs c = Chain-behind h y xs zs c.1

pub Chain-both :
    (h : Nexts) (y : Ptr) (xs : List Ptr) (z : Ptr) (zs : List Ptr)
    → Chain h z xs
    → Chain h y (z ∷ zs)
    → Chain h y (xs ++ z ∷ zs)
Chain-both h y [] z zs c d = d
Chain-both h y (x ∷ xs) z zs c d =
    let e = first_or-append y xs z zs in rw e (c.0, Chain-both h y xs z zs c.1 d)

pub Chain-update :
    (h : Nexts) (a v y : Ptr) (xs : List Ptr)
    → count a xs ≡ 0
    → Chain h y xs
    → Chain (update h a v) y xs
Chain-update h a v y [] n c = tt
Chain-update h a v y (x ∷ xs) n c =
    let other : update h a v x ≡ h x = ground arith in
    (other ∙ c.0, Chain-update h a v y xs (omega (arith, n)) c.1)

pub get_next-ok : (n : Ptr) (h : Nexts) → n ≢ null → get_next n h ≡ ok (h n) h
unfolding get_next
get_next-ok n h e = ground arith

pub set_next-ok : (n v : Ptr) (h : Nexts) → n ≢ null → set_next n v h ≡ ok tt (update h n v)
unfolding set_next
set_next-ok n v h e = ground arith
