-- ===== src/MemDb/UnitTests/StackTests.antt =====
-- mem_db/ut/src/data_struct_tests.cpp: the tests of the stack.
use lab.MemDb.Stack.{inv_location}
use lab.MemDb.UnitTests.{Test, ◌>>=◌, ◌>>◌, equal, slot, sz, capacity, start, put_slot, take_slot}

unfoldable pub test_push_1_val : Test Unit
test_push_1_val = do
  start 5
  put_slot 0x4
  v ← slot 0
  equal v 0x4
  c ← capacity
  equal c 1
  n ← sz
  equal n 5

unfoldable pub test_push_3_vals : Test Unit
test_push_3_vals = do
  put_slot 0x4
  v ← slot 0
  equal v 0x4
  c ← capacity
  equal c 1
  put_slot 0x5
  v ← slot 1
  equal v 0x5
  c ← capacity
  equal c 2
  put_slot 0x6
  v ← slot 2
  equal v 0x6
  c ← capacity
  equal c 3
  n ← sz
  equal n 5

-- The condition of the `for` loop is false from the start.
unfoldable pub test_push_full : Test Unit
test_push_full = do
  put_slot 0x0
  put_slot 0x1
  put_slot 0x2
  put_slot 0x3
  put_slot 0x4
  c ← capacity
  equal c 5
  r ← put_slot 0x9
  equal r inv_location

unfoldable pub test_pop_1_val : Test Unit
test_pop_1_val = do
  put_slot 0x4
  put_slot 0x5
  put_slot 0x6
  c ← capacity
  equal c 3
  p ← take_slot
  equal p 0x6
  c ← capacity
  equal c 2

unfoldable pub test_pop_3_vals : Test Unit
test_pop_3_vals = do
  put_slot 0x4
  put_slot 0x5
  put_slot 0x6
  put_slot 0x7
  put_slot 0x8
  c ← capacity
  equal c 5
  p ← take_slot
  equal p 0x8
  c ← capacity
  equal c 4
  p ← take_slot
  equal p 0x7
  c ← capacity
  equal c 3
  p ← take_slot
  equal p 0x6
  c ← capacity
  equal c 2

unfoldable pub test_pop_empty : Test Unit
test_pop_empty = do
  put_slot 0x4
  put_slot 0x5
  c ← capacity
  equal c 2
  p ← take_slot
  equal p 0x5
  c ← capacity
  equal c 1
  p ← take_slot
  equal p 0x4
  c ← capacity
  equal c 0
  p ← take_slot
  equal p inv_location

unfoldable pub test_3_push_1_pop_2_push : Test Unit
test_3_push_1_pop_2_push = do
  put_slot 0x4
  put_slot 0x5
  put_slot 0x6
  take_slot
  put_slot 0x88
  put_slot 0x99
  c ← capacity
  equal c 4
  p ← take_slot
  equal p 0x99
  p ← take_slot
  equal p 0x88
  p ← take_slot
  equal p 0x5
  p ← take_slot
  equal p 0x4
