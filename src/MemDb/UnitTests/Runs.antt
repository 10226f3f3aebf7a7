-- ===== src/MemDb/UnitTests/Runs.antt =====
-- The tests pass on every fixture, in any order, but for the one that takes the highest bit for 32.
use lab.Prelude.{
  ℕ, zero, suc, ◌+◌, ◌-◌, ◌==◌, if◌then◌else◌, ◌^◌, ◌%◌, ◌≡◌, ◌≢◌, refl, List, [], ◌∷◌, All, some,
  none,
}
use lab.MemDb.Outcome.{ok}
use lab.MemDb.Stack.{Stack}
use lab.MemDb.Stack
use lab.MemDb.BitMap.{BitMap, mask}
use lab.MemDb.BitMap
use lab.MemDb.UnitTests.{DataStructsUt, set_up}
use lab.MemDb.UnitTests.BitMapTests.{
  test_first_bit_on, test_2_18_bits_on, test_max_min_bits_on, test_3_20_30_on_off_one_by_one,
}
use lab.MemDb.UnitTests.StackTests.{
  test_push_1_val, test_push_3_vals, test_push_full, test_pop_1_val, test_pop_3_vals,
  test_pop_empty, test_3_push_1_pop_2_push,
}
use lab.MemDb.UnitTests.Suite.{
  TestCase, first_bit_on, bits_2_18_on, max_min_bits_on, on_off_one_by_one, push_1_val, push_3_vals,
  push_full, pop_1_val, pop_3_vals, pop_empty, push_pop_push, test_of, run_tests,
}

-- What the array of the stack holds at each index.
abbrev pub Contents : Type 0
Contents = ℕ → ℕ

abbrev pub elements : ℕ → ℕ → Contents → List ℕ
elements zero i c = []
elements (suc n) i c = c i ∷ elements n (i + 1) c

-- The contents with these slots at the bottom.
abbrev pub holding : List ℕ → Contents → Contents
holding [] c = c
holding (slot ∷ slots) c = λ i. if i == 0 then slot else holding slots (λ k. c (k + 1)) (i - 1)

-- A fixture with a stack for five slots.
abbrev pub fixture : BitMap → ℕ → Contents → DataStructsUt
fixture b capacity c = record {
  b_map = b;
  stack = record { sz = 5; capacity = capacity; pstack = elements 32 0 c };
}

-- The test passes, and leaves a fixture of the same kind.
abbrev pub Passes : (ℕ → ℕ) → TestCase → BitMap → ℕ → Contents → Type 0
Passes over test b n c =
    (b' : BitMap) × (n' : ℕ) × (c' : Contents) × (test_of over test (set_up (fixture b n c))
      ≡ ok (some (tt, fixture b' n' c')))

module _ (over : ℕ → ℕ) (b : BitMap) (n : ℕ) (c : Contents) where
  bit_map-Passes :
      Passes over first_bit_on b n c
      × Passes over bits_2_18_on b n c
      × Passes over on_off_one_by_one b n c
  unfolding set_up test_first_bit_on test_2_18_bits_on test_3_20_30_on_off_one_by_one BitMap.bit_on
      BitMap.bit_off BitMap.is_on mask Stack.clear
  bit_map-Passes = (
    (record { bits = 0x1 }, 0, c, refl),
    (record { bits = 0x20002 }, 0, c, refl),
    (record { bits = 0 }, 0, c, refl),
  )

  push-Passes :
      Passes over push_1_val b n c × Passes over push_3_vals b n c × Passes over push_full b n c
  unfolding set_up test_push_1_val test_push_3_vals test_push_full Stack.init Stack.push
      Stack.get_capacity Stack.clear
  push-Passes = (
    (record { bits = 0 }, 1, holding (4 ∷ []) c, refl),
    (record { bits = 0 }, 3, holding (4 ∷ 5 ∷ 6 ∷ []) c, refl),
    (record { bits = 0 }, 5, holding (0 ∷ 1 ∷ 2 ∷ 3 ∷ 4 ∷ []) c, refl),
  )

  pop-Passes :
      Passes over pop_1_val b n c
      × Passes over pop_3_vals b n c
      × Passes over pop_empty b n c
      × Passes over push_pop_push b n c
  unfolding set_up test_pop_1_val test_pop_3_vals test_pop_empty test_3_push_1_pop_2_push Stack.push
      Stack.pop Stack.get_capacity Stack.clear
  pop-Passes = (
    (record { bits = 0 }, 2, holding (4 ∷ 5 ∷ 6 ∷ []) c, refl),
    (record { bits = 0 }, 2, holding (4 ∷ 5 ∷ 6 ∷ 7 ∷ 8 ∷ []) c, refl),
    (record { bits = 0 }, 0, holding (4 ∷ 5 ∷ []) c, refl),
    (record { bits = 0 }, 0, holding (4 ∷ 5 ∷ 0x88 ∷ 0x99 ∷ []) c, refl),
  )

  test-Passes : (test : TestCase) → test ≢ max_min_bits_on → Passes over test b n c
  test-Passes first_bit_on h = bit_map-Passes.0
  test-Passes bits_2_18_on h = bit_map-Passes.1
  test-Passes max_min_bits_on h = absurd (h refl)
  test-Passes on_off_one_by_one h = bit_map-Passes.2
  test-Passes push_1_val h = push-Passes.0
  test-Passes push_3_vals h = push-Passes.1
  test-Passes push_full h = push-Passes.2
  test-Passes pop_1_val h = pop-Passes.0
  test-Passes pop_3_vals h = pop-Passes.1
  test-Passes pop_empty h = pop-Passes.2
  test-Passes push_pop_push h = pop-Passes.3

-- The tests of the suite pass in any order and number, whatever the fixture holds, so long as
-- `test_max_min_bits_on` is not among them.
pub run_tests_pass :
    (over : ℕ → ℕ) (tests : List TestCase) (b : BitMap) (n : ℕ) (c : Contents)
    → All (λ test. test ≢ max_min_bits_on) tests
    → (t : DataStructsUt) × (run_tests over tests (fixture b n c) ≡ ok (some (tt, t)))
unfolding run_tests
run_tests_pass over [] b n c h = (fixture b n c, refl)
run_tests_pass over (test ∷ tests) b n c (other, others) =
    let (b', n', c', e) = test-Passes over b n c test other in
    let (t, rest) = run_tests_pass over tests b' n' c' others in (t, rw (e, rest, run_tests))

-- Where the machine shifts by the count modulo 32, `test_max_min_bits_on` fails: the bit of `MAX_BIT`
-- is the 17th.
pub max_min_bits_on-fails :
    (over : ℕ → ℕ) (b : BitMap) (n : ℕ) (c : Contents)
    → over 48 ≡ 2 ^ (48 % 32)
    → test_of over max_min_bits_on (set_up (fixture b n c)) ≡ ok none
unfolding set_up test_max_min_bits_on BitMap.bit_on BitMap.is_on mask Stack.clear
max_min_bits_on-fails over b n c h = rw h refl
