-- ===== src/MemDb/UnitTests.antt =====
-- mem_db/ut/src/data_struct_tests.cpp: the tests of the stack and of the bit map, as functions on the
-- fixture.
pub mod BitMapTests
pub mod StackTests
pub mod Suite
pub mod Runs
pub mod LayoutTests
use lab.Prelude.{
  ℕ, zero, suc, ◌-◌, ◌==◌, if◌then◌else◌, Bool, true, false, List, [], ◌∷◌, Option, none, some, not,
  ◌&&◌, ◌||◌,
}
use lab.MemDb.Outcome
use lab.MemDb.Outcome.{Outcome, ok, raised, at}
use lab.MemDb.Stack
use lab.MemDb.Stack.{Stack, inv_location}
use lab.MemDb.BitMap
use lab.MemDb.BitMap.{BitMap, min_bit, max_bit}

pub record DataStructsUt : Type 0 where
  pub b_map : BitMap
  pub stack : Stack

-- A test on its fixture: `none` where an assertion of the test fails.
abbrev pub Test : Type 0 → Type 0
Test A = DataStructsUt → Outcome (Option (A × DataStructsUt))

abbrev pub continue_with :
    {A B : Type 0}
    → (A → Test B)
    → Option (A × DataStructsUt)
    → Outcome (Option (B × DataStructsUt))
continue_with f none = ok none
continue_with f (some (a, t)) = f a t

infixl 5 ◌>>=◌ ◌>>◌
abbrev pub ◌>>=◌ : {A B : Type 0} → Test A → (A → Test B) → Test B
◌>>=◌ m f t = Outcome.◌>>=◌ (m t) (continue_with f)

abbrev pub ◌>>◌ : {A B : Type 0} → Test A → Test B → Test B
m >> n = m >>= λ _. n

-- The constructor.
unfoldable pub data_structs_ut : DataStructsUt → Outcome DataStructsUt
data_structs_ut t = Outcome.◌>>=◌ (Stack.init t.stack 5) (λ stack. ok (record t { stack = stack }))

-- `setUp`
unfoldable pub set_up : DataStructsUt → DataStructsUt
set_up t = record { b_map = record { bits = 0 }; stack = Stack.clear t.stack }

-- `CPPUNIT_ASSERT_EQUAL_MESSAGE` of numbers, and of Booleans.
abbrev pub equal : ℕ → ℕ → Test Unit
equal a b t = if a == b then ok (some (tt, t)) else ok none

abbrev pub is_true : Bool → Test Unit
is_true b t = if b then ok (some (tt, t)) else ok none

abbrev pub bits : Test ℕ
bits t = ok (some (t.b_map.bits, t))

abbrev pub slot : ℕ → Test ℕ
slot i t = Outcome.◌>>=◌ (at t.stack.pstack i) (λ v. ok (some (v, t)))

abbrev pub sz : Test ℕ
sz t = ok (some (t.stack.sz, t))

abbrev pub capacity : Test ℕ
capacity t = ok (some (Stack.get_capacity t.stack, t))

abbrev pub on_stack : {A : Type 0} → (Stack → Outcome (A × Stack)) → Test A
on_stack f t = Outcome.◌>>=◌ (f t.stack) (λ (a, stack). ok (some (a, record t { stack = stack })))

abbrev pub start : ℕ → Test Unit
start n t =
    Outcome.◌>>=◌ (Stack.init t.stack n) (λ stack. ok (some (tt, record t { stack = stack })))

abbrev pub put_slot : ℕ → Test ℕ
put_slot n = on_stack (λ s. Stack.push s n)

abbrev pub take_slot : Test ℕ
take_slot = on_stack Stack.pop

module _ (over : ℕ → ℕ) where
  abbrev pub turn_on : ℕ → Test Unit
  turn_on n t =
      Outcome.◌>>=◌ (BitMap.bit_on over t.b_map n) (λ b. ok (some (tt, record t { b_map = b })))

  abbrev pub turn_off : ℕ → Test Unit
  turn_off n t =
      Outcome.◌>>=◌ (BitMap.bit_off over t.b_map n) (λ b. ok (some (tt, record t { b_map = b })))

  abbrev pub asks_on : ℕ → Test Bool
  asks_on n t = Outcome.◌>>=◌ (BitMap.is_on over t.b_map n) (λ b. ok (some (b, t)))
