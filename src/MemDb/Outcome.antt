-- ===== src/MemDb/Outcome.antt =====
-- How a call of mem_db ends: with a value, by a failed `assert`, or in undefined behaviour.
use lab.Prelude.{ℕ, Bool, true, false, List, get_elem?, none, some}

pub data Fault : Type 0 where
  assertion : Fault
  undefined : Fault

pub data Outcome {ℓ} (A : Type ℓ) : Type ℓ where
  ok : A → Outcome A
  raised : Fault → Outcome A

module _ {ℓ κ} {A : Type ℓ} {B : Type κ} where
  infixl 5 ◌>>=◌
  abbrev pub ◌>>=◌ : Outcome A → (A → Outcome B) → Outcome B
  ok a >>= f = f a
  raised e >>= f = raised e

infixl 5 ◌>>◌
abbrev pub ◌>>◌ {κ} : {B : Type κ} → Outcome (Unit {0}) → Outcome B → Outcome B
m >> k = m >>= λ _. k

-- `assert(b)`, in a build without `NDEBUG`.
abbrev pub assert : Bool → Outcome (Unit {0})
assert true = ok tt
assert false = raised assertion

-- `a[i]` of an array: undefined out of range.
abbrev pub at {ℓ} : {A : Type ℓ} → List A → ℕ → Outcome A
at xs i = elim (get_elem? xs i) [ none ↦ raised undefined | some x ↦ ok x ]

-- What holds of the value that a call returns, where it returns one.
abbrev pub Holds {ℓ κ} : {A : Type ℓ} → (A → Type κ) → Outcome A → Type κ
Holds P (ok a) = P a
Holds P (raised e) = Unit

pub Holds-bind {ℓ κ ρ ι} :
    {A : Type ℓ} {B : Type κ} (P : A → Type ρ) (Q : B → Type ι) (m : Outcome A) (f : A → Outcome B)
    → Holds P m
    → ((a : A) → P a → Holds Q (f a))
    → Holds Q (m >>= f)
Holds-bind P Q (ok a) f h k = k a h
Holds-bind P Q (raised e) f h k = tt

-- Nothing is known of the first value.
pub Holds-any {ℓ κ ι} :
    {A : Type ℓ} {B : Type κ} (Q : B → Type ι) (m : Outcome A) (f : A → Outcome B)
    → ((a : A) → Holds Q (f a))
    → Holds Q (m >>= f)
Holds-any Q (ok a) f k = k a
Holds-any Q (raised e) f k = tt
