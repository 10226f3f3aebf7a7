-- ===== src/MemDb/BitMap/Members.antt =====
-- The bit map as a set of slot numbers.
use Prim.Native.Nat.{bit_and, bit_or}
use native.Mathlib.Nat.{one-le-pow, pow-le-pow_right, mod-eq_of_lt}
use lab.Prelude.{
  ℕ, zero, suc, ◌-◌, ◌*◌, ◌%◌, ◌^◌, ◌≤◌, ◌<◌, ◌≡◌, refl, ◌==◌, ltb, Bool, true, false, not, ◌&&◌,
  ◌||◌, arith, Bool-cases, inl, inr, ap, sym, ◌∙◌, ◌⊎◌,
}
use lab.Prelude.Bits.{
  bit, bit-and, bit-or, bit-pow, bit-lt, bit-complement, bit_above, bit_below, and-pow, or-lt,
  and-lt,
}
use lab.MemDb.Outcome.{ok, raised, assertion}
use lab.MemDb.BitMap.{BitMap, u32_mod, in_range, mask, bit_on, bit_off, is_on}

-- The word is 32 bits wide.
pub record IsValid (b : BitMap) : Type 0 where
  pub fits : b.bits < 2 ^ 32

-- The slot number `i` is in the set.
abbrev pub has : BitMap → ℕ → Bool
has b i = bit b.bits (i - 1) == 1

-- A slot number that the word has a bit for.
pub record IsSlot (i : ℕ) : Type 0 where
  pub low : 1 ≤ i
  pub high : i ≤ 32

digit_test : (d p : ℕ) → d < 2 → 1 ≤ p → not (d * p == 0) ≡ (d == 1)
digit_test zero p h l = let e : 0 * p ≡ 0 = omega arith in rw e
digit_test (suc zero) p h l = let e : 1 * p ≡ p = omega arith in rw e (ground arith)
digit_test (suc (suc d)) p h l = absurd (omega arith)

pow-lt : (i : ℕ) → IsSlot i → 2 ^ (i - 1) < 2 ^ 32
pow-lt i v =
    let k : i - 1 ≤ 31 = omega arith in
    omega (arith, pow-le-pow_right {n = 2} (omega arith) {i = i - 1} {j = 31} k)

module _ (over : ℕ → ℕ) where
  mask-pow : (i : ℕ) → IsSlot i → mask over i ≡ 2 ^ (i - 1)
  unfolding mask
  mask-pow i v = ground arith

  slot_in_range : (i : ℕ) → IsSlot i → in_range i ≡ true
  slot_in_range i v = ground arith

  pub is_on-has : (b : BitMap) (i : ℕ) → IsSlot i → is_on over b i ≡ ok (has b i)
  unfolding is_on
  is_on-has b i v =
      rw (slot_in_range i v, mask-pow i v, and-pow b.bits (i - 1))
        (ap ok (
          digit_test (bit b.bits (i - 1)) (2 ^ (i - 1)) (bit-lt b.bits (i - 1))
            (one-le-pow (i - 1) 2 (omega arith))))

  -- Setting a slot that the word has a bit for does not fail and keeps the word 32 bits wide, and
  -- afterwards exactly that slot is in the set besides those that were, as `is_on` tells for any.
  pub bit_on-has :
      (b : BitMap) (i j : ℕ)
      → IsValid b
      → IsSlot i
      → IsSlot j
      → (b' : BitMap) × (bit_on over b i ≡ ok b')
        × IsValid b'
        × (is_on over b' j ≡ ok ((i == j) || has b j))
  unfolding bit_on
  bit_on-has b i j v si sj =
      let b' : BitMap = record { bits = bit_or b.bits (2 ^ (i - 1)) } in
      (
        b',
        rw (slot_in_range i si, mask-pow i si),
        record { fits = or-lt 32 b.bits (2 ^ (i - 1)) v.fits (pow-lt i si) },
        rw (is_on-has b' j sj) (ap ok added),
      )
    where
      added : (bit (bit_or b.bits (2 ^ (i - 1))) (j - 1) == 1) ≡ ((i == j) || has b j)
      added =
          rw (bit-or b.bits (2 ^ (i - 1)) (j - 1), bit-pow (i - 1) (j - 1))
            (ground (arith, bit-lt b.bits (j - 1)))

  -- Clearing a slot that the word has a bit for does not fail and keeps the word 32 bits wide, and
  -- afterwards exactly that slot is out of the set, as `is_on` tells for any.
  pub bit_off-has :
      (b : BitMap) (i j : ℕ)
      → IsValid b
      → IsSlot i
      → IsSlot j
      → (b' : BitMap) × (bit_off over b i ≡ ok b')
        × IsValid b'
        × (is_on over b' j ≡ ok (not (i == j) && has b j))
  unfolding bit_off
  bit_off-has b i j v si sj =
      let m = u32_mod - 1 - 2 ^ (i - 1) in
      let b' : BitMap = record { bits = bit_and b.bits m } in
      (
        b',
        rw (slot_in_range i si, mask-pow i si),
        record { fits = and-lt 32 b.bits m v.fits },
        rw (is_on-has b' j sj) (ap ok removed),
      )
    where
      removed :
          (bit (bit_and b.bits (u32_mod - 1 - 2 ^ (i - 1))) (j - 1) == 1)
          ≡ (not (i == j) && has b j)
      removed =
          rw
            (
              bit-and b.bits (u32_mod - 1 - 2 ^ (i - 1)) (j - 1),
              bit-complement 32 (2 ^ (i - 1)) (j - 1) (pow-lt i si) (omega arith),
              bit-pow (i - 1) (j - 1),
            )
            (ground (arith, bit-lt b.bits (j - 1)))

  -- A number out of the range of the `assert` fails it, in each operation.
  pub out_of_range :
      (b : BitMap) (i : ℕ)
      → (i ≡ 0) ⊎ (0x31 < i)
      → (bit_on over b i ≡ raised assertion)
        × (bit_off over b i ≡ raised assertion)
        × (is_on over b i ≡ raised assertion)
  unfolding bit_on bit_off is_on
  out_of_range b i h = ground arith

far_mask :
    (over : ℕ → ℕ) (i : ℕ)
    → ((k : ℕ) → over k ≡ 2 ^ (k % 32))
    → 33 ≤ i
    → i ≤ 49
    → mask over i ≡ 2 ^ (i - 32 - 1)
unfolding mask
far_mask over i x86 low high =
    let e : (i - 1) % 32 ≡ i - 32 - 1 = omega arith in
    let lt = pow-lt (i - 32) (record { low = omega arith; high = omega arith }) in
    let far : ltb (i - 1) 32 ≡ false = ground arith in rw (far, x86 (i - 1), e) (mod-eq_of_lt lt)

-- Where the machine shifts by the count modulo 32, the slot numbers from 33 to 49, which the
-- `assert` lets through, are those from 1 to 17 once more: setting one sets the other.
pub bit_on-wraps :
    (over : ℕ → ℕ) (b : BitMap) (i : ℕ)
    → ((k : ℕ) → over k ≡ 2 ^ (k % 32))
    → 33 ≤ i
    → i ≤ 49
    → (bit_on over b i ≡ bit_on over b (i - 32)) × (is_on over b i ≡ is_on over b (i - 32))
unfolding bit_on is_on
bit_on-wraps over b i x86 low high =
    let far : in_range i ≡ true = ground arith in
    let near : in_range (i - 32) ≡ true = ground arith in rw (far, near, same_mask) (refl, refl)
  where
    same_mask : mask over i ≡ mask over (i - 32)
    same_mask =
        far_mask over i x86 low high
        ∙ sym (mask-pow over (i - 32) (record { low = omega arith; high = omega arith }))

-- On that machine, where only slots from 17 to 31 are marked, the numbers from 32 to 48 are not.
pub is_on_far :
    (over : ℕ → ℕ) (m j : ℕ)
    → ((k : ℕ) → over k ≡ 2 ^ (k % 32))
    → m < 2 ^ 15
    → 32 ≤ j
    → j ≤ 48
    → is_on over (record { bits = m * 2 ^ 16 }) j ≡ ok false
is_on_far over m j x86 small low high = elim (Bool-cases (j == 32)) [
  | inl last ↦
      let e : j ≡ 32 = ground arith in
      rw (
        e,
        is_on-has over (record { bits = m * 2 ^ 16 }) 32
            (record { low = omega arith; high = omega arith }),
        bit_above 31 (m * 2 ^ 16) (omega arith),
      )
  | inr next ↦
      let far : 33 ≤ j = ground arith in
      (bit_on-wraps over (record { bits = m * 2 ^ 16 }) j x86 far (omega arith)).1
      ∙ (is_on-has over (record { bits = m * 2 ^ 16 }) (j - 32)
            (record { low = omega arith; high = omega arith })
          ∙ rw (bit_below 16 m (j - 32 - 1) (omega arith)))
]
