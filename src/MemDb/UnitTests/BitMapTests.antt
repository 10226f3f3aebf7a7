-- ===== src/MemDb/UnitTests/BitMapTests.antt =====
-- mem_db/ut/src/data_struct_tests.cpp: the tests of the bit map.
use lab.Prelude.{ℕ, not}
use lab.MemDb.BitMap.{min_bit, max_bit}
use lab.MemDb.UnitTests.{Test, ◌>>=◌, ◌>>◌, equal, is_true, bits, turn_on, turn_off, asks_on}

module _ (over : ℕ → ℕ) where
  unfoldable pub test_first_bit_on : Test Unit
  test_first_bit_on = do turn_on over 1; b ← bits; equal 0x1 b; o ← asks_on over 0x1; is_true o

  unfoldable pub test_2_18_bits_on : Test Unit
  test_2_18_bits_on = do
    turn_on over 0x2
    turn_on over 0x12
    o ← asks_on over 0x2
    is_true o
    o ← asks_on over 0x12
    is_true o
    b ← bits
    equal b 0x20002

  unfoldable pub test_max_min_bits_on : Test Unit
  test_max_min_bits_on = do
    turn_on over min_bit
    turn_on over max_bit
    o ← asks_on over max_bit
    is_true o
    o ← asks_on over min_bit
    is_true o
    b ← bits
    equal b 0x80000001

  unfoldable pub test_3_20_30_on_off_one_by_one : Test Unit
  test_3_20_30_on_off_one_by_one = do
    turn_on over 3
    turn_on over 20
    turn_on over 30
    o ← asks_on over 3
    is_true o
    o ← asks_on over 20
    is_true o
    o ← asks_on over 30
    is_true o
    b ← bits
    equal b 0x20080004
    turn_off over 3
    o ← asks_on over 3
    is_true (not o)
    b ← bits
    equal b 0x20080000
    turn_off over 20
    o ← asks_on over 20
    is_true (not o)
    b ← bits
    equal b 0x20000000
    turn_off over 30
    o ← asks_on over 30
    is_true (not o)
    b ← bits
    equal b 0x0
