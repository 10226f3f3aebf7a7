-- ===== src/MemDb/UnitTests/Suite.antt =====
-- mem_db/ut/inc/data_struct_tests.h: the tests of the suite, and runs of them.
use lab.Prelude.{ℕ, List, [], ◌∷◌, some}
use lab.MemDb.Outcome
use lab.MemDb.Outcome.{ok}
use lab.MemDb.UnitTests.{Test, set_up, continue_with}
use lab.MemDb.UnitTests.BitMapTests.{
  test_first_bit_on, test_2_18_bits_on, test_max_min_bits_on, test_3_20_30_on_off_one_by_one,
}
use lab.MemDb.UnitTests.StackTests.{
  test_push_1_val, test_push_3_vals, test_push_full, test_pop_1_val, test_pop_3_vals,
  test_pop_empty, test_3_push_1_pop_2_push,
}

-- The tests of the suite.
pub data TestCase : Type 0 where
  first_bit_on bits_2_18_on max_min_bits_on on_off_one_by_one : TestCase
  push_1_val push_3_vals push_full pop_1_val pop_3_vals pop_empty push_pop_push : TestCase

abbrev pub test_of : (ℕ → ℕ) → TestCase → Test Unit
test_of over first_bit_on = test_first_bit_on over
test_of over bits_2_18_on = test_2_18_bits_on over
test_of over max_min_bits_on = test_max_min_bits_on over
test_of over on_off_one_by_one = test_3_20_30_on_off_one_by_one over
test_of over push_1_val = test_push_1_val
test_of over push_3_vals = test_push_3_vals
test_of over push_full = test_push_full
test_of over pop_1_val = test_pop_1_val
test_of over pop_3_vals = test_pop_3_vals
test_of over pop_empty = test_pop_empty
test_of over push_pop_push = test_3_push_1_pop_2_push

-- A run of tests on one fixture, each after `setUp`.
unfoldable pub run_tests : (ℕ → ℕ) → List TestCase → Test Unit
run_tests over [] t = ok (some (tt, t))
run_tests over (test ∷ tests) t =
    Outcome.◌>>=◌ (test_of over test (set_up t)) (continue_with (λ _. run_tests over tests))
