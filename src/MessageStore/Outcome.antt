-- ===== src/MessageStore/Outcome.antt =====
-- How a C++ call ends: with a value, or with a fault that nothing in MessageStore catches.
use lab.Prelude.{◌⊎◌, inl, inr, ℕ, ◌≡◌, refl, List, get_elem?, none, some}

pub data Fault : Type 0 where
  -- `throw StdStreamException{}`
  stream_exception : Fault
  -- `std::any_cast` of another type than the one that is held
  bad_any_cast : Fault
  -- undefined behaviour: an element or an iterator that is not there
  undefined : Fault

pub data Outcome {ℓ} (A : Type ℓ) : Type ℓ where
  ok : A → Outcome A
  raised : Fault → Outcome A

module _ {ℓ κ} {A : Type ℓ} {B : Type κ} where
  infixl 5 ◌>>=◌
  abbrev pub ◌>>=◌ : Outcome A → (A → Outcome B) → Outcome B
  ok a >>= f = f a
  raised e >>= f = raised e

  -- Inversion of a bind that succeeds.
  pub >>=-eq-ok :
      (m : Outcome A) (f : A → Outcome B) (b : B)
      → (m >>= f) ≡ ok b
      → (a : A) × (m ≡ ok a) × (f a ≡ ok b)
  >>=-eq-ok (ok a) f b h = (a, refl, h)
  >>=-eq-ok (raised e) f b h = cc

pub ok-injective {ℓ} : {A : Type ℓ} {a b : A} → ok a ≡ ok b → a ≡ b
ok-injective e = cc

-- `v[i]` of a `std::vector`, with no check of the bound.
abbrev pub at {ℓ} : {A : Type ℓ} → List A → ℕ → Outcome A
at xs i = elim (get_elem? xs i) [ none ↦ raised undefined | some x ↦ ok x ]

pub Outcome-cases {ℓ} :
    {A : Type ℓ} (m : Outcome A) → ((a : A) × (m ≡ ok a)) ⊎ ((e : Fault) × (m ≡ raised e))
Outcome-cases (ok a) = inl (a, refl)
Outcome-cases (raised e) = inr (e, refl)
