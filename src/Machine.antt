-- ===== src/Machine.antt =====
-- Runs of code over a store of nodes. The library never allocates: a node is an address, the
-- address 0 is the null pointer, and the store says what each field of each node holds.
use intrusive.Base.{ℕ, Bool, ◌==◌, if◌then◌else◌}

abbrev pub Ptr : Type 0
Ptr = ℕ

abbrev pub null : Ptr
null = 0

-- `throws` is the propagation of an exception of a user's callback, with the store it leaves;
-- `fault` is the use of a null pointer.
pub data Run (S : Type 0) (A : Type 0) : Type 0 where
  ok : A → S → Run S A
  throws : S → Run S A
  fault : Run S A
  out_of_fuel : Run S A

abbrev pub Cmd : Type 0 → Type 0 → Type 0
Cmd S A = S → Run S A

module _ {S A : Type 0} where
  abbrev pub pure : A → Cmd S A
  pure a s = ok a s

  module _ {B : Type 0} where
    abbrev pub and_then : Run S A → (A → Cmd S B) → Run S B
    and_then (ok a s) k = k a s
    and_then (throws s) k = throws s
    and_then fault k = fault
    and_then out_of_fuel k = out_of_fuel

    infixl 5 ◌>>=◌ ◌>>◌
    abbrev pub ◌>>=◌ : Cmd S A → (A → Cmd S B) → Cmd S B
    (m >>= k) s = and_then (m s) k

    abbrev pub ◌>>◌ : Cmd S A → Cmd S B → Cmd S B
    m >> k = m >>= λ _. k

  -- The access of a field through `p`.
  abbrev pub deref : Ptr → Cmd S A → Cmd S A
  deref p m s = if p == null then fault else m s

  -- A run that ends normally, in a state where `P` holds.
  pub data Returns (P : A → S → Type 0) : Run S A → Type 0 where
    returns : {a : A} {s : S} → P a s → Returns P (ok a s)

module _ {S A : Type 0} {P : A → S → Type 0} where
  pub Returns-bind :
      {B : Type 0} {Q : B → S → Type 0} {r : Run S A} {k : A → Cmd S B}
      → Returns P r
      → ((a : A) (s : S) → P a s → Returns Q (k a s))
      → Returns Q (and_then r k)
  Returns-bind (returns p) next = next _ _ p

  pub Returns-imp :
      {Q : A → S → Type 0} {r : Run S A}
      → Returns P r
      → ((a : A) (s : S) → P a s → Q a s)
      → Returns Q r
  Returns-imp (returns p) weaken = returns (weaken _ _ p)

abbrev pub when : {S : Type 0} → Bool → Cmd S (Unit {0}) → Cmd S (Unit {0})
when test body = if test then body else pure tt

-- A field of all nodes, after a write at one of them.
abbrev pub update {ℓ} : {A : Type ℓ} → (Ptr → A) → Ptr → A → Ptr → A
update f p v q = if q == p then v else f q

-- A run that ends normally where `P` holds, or by an exception where `Q` does.
pub data Outcome {S A : Type 0} (P : A → S → Type 0) (Q : S → Type 0) : Run S A → Type 0 where
  returned : {a : A} {s : S} → P a s → Outcome P Q (ok a s)
  threw : {s : S} → Q s → Outcome P Q (throws s)

pub Outcome-imp :
    {S A : Type 0} {P P' : A → S → Type 0} {Q Q' : S → Type 0} {r : Run S A}
    → Outcome P Q r
    → ((a : A) (s : S) → P a s → P' a s)
    → ((s : S) → Q s → Q' s)
    → Outcome P' Q' r
Outcome-imp (returned p) f g = returned (f _ _ p)
Outcome-imp (threw q) f g = threw (g _ q)

-- A run that ends by an exception, in a state where `Q` holds.
pub data Throws {S A : Type 0} (Q : S → Type 0) : Run S A → Type 0 where
  thrown : {s : S} → Q s → Throws Q (throws s)

module _ {S A : Type 0} {P : A → S → Type 0} {Q : S → Type 0} where
  pub Outcome-Returns :
      {P' : A → S → Type 0} {r : Run S A}
      → Outcome P Q r
      → ((a : A) (s : S) → P a s → P' a s)
      → ((s : S) → Q s → ⊥)
      → Returns P' r
  Outcome-Returns (returned p) f g = returns (f _ _ p)
  Outcome-Returns (threw q) f g = absurd (g _ q)

  pub Outcome-Throws :
      {Q' : S → Type 0} {r : Run S A}
      → Outcome P Q r
      → ((a : A) (s : S) → P a s → ⊥)
      → ((s : S) → Q s → Q' s)
      → Throws Q' r
  Outcome-Throws (returned p) f g = absurd (f _ _ p)
  Outcome-Throws (threw q) f g = thrown (g _ q)

pub Returns-ok : {S A : Type 0} {P : A → S → Type 0} {a : A} {s : S} → Returns P (ok a s) → P a s
Returns-ok (returns p) = p
