-- ===== src/MemDb/Flow/Rounds.antt =====
-- The rounds of a loop over a message: what they took, and that the loop ends if its rest does.
use lab.Prelude.{
  ℕ, if◌then◌else◌, Bool, ◌≤◌, ◌≡◌, refl, true, false, List, ◌∷◌, Option, none, some, sym, subst,
}
use lab.MemDb.Outcome.{Outcome, ok, raised, ◌>>=◌}
use lab.MemDb.Flow.{prepend}

module _ {P : Type 0} where
  -- A round that went through took bytes.
  abbrev pub Takes : Outcome (Option (P × ℕ)) → Type 0
  Takes (raised e) = Unit
  Takes (ok none) = Unit
  Takes (ok (some (p, n))) = 1 ≤ n

  pub Takes-bind :
      {A : Type 0} (m : Outcome A) (f : A → Outcome (Option (P × ℕ)))
      → ((a : A) → Takes (f a))
      → Takes (m >>= f)
  Takes-bind (ok a) f h = h a
  Takes-bind (raised e) f h = tt

  pub Takes-if :
      (b : Bool) (m : Outcome (Option (P × ℕ))) → Takes m → Takes (if b then ok none else m)
  Takes-if true m h = tt
  Takes-if false m h = h

  abbrev pub Ends : Option (Outcome (Option (List P))) → Type 0
  Ends o = (r : Outcome (Option (List P))) × (o ≡ some r)

  prepend-some : (p : P) (r : Outcome (Option (List P))) → Ends (prepend p (some r))
  prepend-some p (ok (some ps)) = (ok (some (p ∷ ps)), refl)
  prepend-some p (ok none) = (ok none, refl)
  prepend-some p (raised f) = (raised f, refl)

  prepend-Ends : (p : P) (o : Option (Outcome (Option (List P)))) → Ends o → Ends (prepend p o)
  prepend-Ends p o (r, e) = subst (λ x. Ends (prepend p x)) (sym e) (prepend-some p r)

  pub round-Ends :
      (o : Outcome (Option (P × ℕ))) (next : P → ℕ → Option (Outcome (Option (List P))))
      → Takes o
      → ((p : P) (n : ℕ) → 1 ≤ n → Ends (next p n))
      → Ends (elim o [
        | raised e ↦ some (raised e)
        | ok none ↦ some (ok none)
        | ok (some (p, n)) ↦ prepend p (next p n)
      ])
  round-Ends (raised e) next h k = (raised e, refl)
  round-Ends (ok none) next h k = (ok none, refl)
  round-Ends (ok (some (p, n))) next h k = prepend-Ends p (next p n) (k p n h)
