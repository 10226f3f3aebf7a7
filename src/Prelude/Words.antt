-- ===== src/Prelude/Words.antt =====
-- A number in memory, the lowest byte first.
use Prim.Native.Nat.{ℕ, zero, suc, ◌+◌, ◌*◌, ◌/◌, ◌%◌, ◌^◌, ◌<◌}
use mathlib.Core.Path.{◌≡◌, refl, ap}
use mathlib.Core.List.{[], ◌∷◌}
use native.Mathlib.Omega.{arith}
use native.Mathlib.Nat.{pow-suc}
use lab.Prelude.Lists.{length, All}
use lab.Prelude.Text.{Bytes}

-- The `n` bytes of a number.
abbrev pub le_bytes : ℕ → ℕ → Bytes
le_bytes zero v = []
le_bytes (suc n) v = (v % 256) ∷ le_bytes n (v / 256)

-- The number that bytes in memory are.
abbrev pub le_value : Bytes → ℕ
le_value [] = 0
le_value (c ∷ cs) = c + 256 * le_value cs

pub length-le_bytes : (n v : ℕ) → length (le_bytes n v) ≡ n
length-le_bytes zero v = refl
length-le_bytes (suc n) v = ap suc (length-le_bytes n (v / 256))

pub le_value-le_bytes : (n v : ℕ) → v < 256 ^ n → le_value (le_bytes n v) ≡ v
le_value-le_bytes zero v h = omega arith
le_value-le_bytes (suc n) v h =
    omega (arith, le_value-le_bytes n (v / 256) (omega (arith, pow-suc 256 n)))

pub le_bytes-le_value :
    (bs : Bytes) → All (λ b. b < 256) bs → le_bytes (length bs) (le_value bs) ≡ bs
le_bytes-le_value [] h = refl
le_bytes-le_value (b ∷ bs) (low, h) =
    let first : (b + 256 * le_value bs) % 256 ≡ b = omega arith in
    let rest : (b + 256 * le_value bs) / 256 ≡ le_value bs = omega arith in
    rw (first, rest) (ap (◌∷◌ b) (le_bytes-le_value bs h))
