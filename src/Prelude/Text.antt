-- ===== src/Prelude/Text.antt =====
-- A `std::string`, or a buffer of `char`, is the list of its bytes.
use Prim.Native.Nat.{ℕ}
use Prim.Native.Char.{code}
use Prim.Native.String.{String}
use mathlib.Core.Path.{◌≡◌}
use mathlib.Core.Bool.{Bool, true, false, not, ◌&&◌}
use native.Mathlib.Omega.{arith}
use mathlib.Core.List.{List, [], ◌∷◌}
use lab.Prelude.Tests.{◌==◌}

abbrev pub Bytes : Type 0
Bytes = List ℕ

abbrev pub codes : String → Bytes
codes String.[] = []
codes (String.◌∷◌ c s) = code c ∷ codes s

-- Bytes up to a delimiter are bytes that are not the delimiter.
abbrev pub Without : ℕ → Bytes → Type 0
Without d [] = Unit {0}
Without d (c ∷ cs) = ((c == d) ≡ false) × Without d cs

-- The same as a test, for bytes that are known.
abbrev pub lacks : ℕ → Bytes → Bool
lacks d [] = true
lacks d (c ∷ cs) = not (c == d) && lacks d cs

pub Without-of_lacks : (d : ℕ) (cs : Bytes) → lacks d cs ≡ true → Without d cs
Without-of_lacks d [] h = tt
Without-of_lacks d (c ∷ cs) h = (ground arith, Without-of_lacks d cs (ground arith))
