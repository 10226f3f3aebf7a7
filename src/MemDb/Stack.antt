-- ===== src/MemDb/Stack.antt =====
-- mem_db/common/inc/data_structs.h: `Stack`, a bounded stack of slot numbers. `sz` is its bound and
-- `capacity` the number of slots that are on it.
pub mod Lifo
use lab.Prelude.{ℕ, zero, suc, ◌+◌, ◌-◌, ◌^◌, ltb, leb, if◌then◌else◌, List, length, set}
use lab.MemDb.Outcome.{Outcome, ok, raised, undefined, ◌>>=◌, ◌>>◌, assert, at}

abbrev pub max_obj_num : ℕ
max_obj_num = 32

-- `(unsigned int)-1`
abbrev pub inv_location : ℕ
inv_location = 2 ^ 32 - 1

-- `pstack` has `max_obj_num` elements.
pub record Stack : Type 0 where
  pub sz : ℕ
  pub capacity : ℕ
  pub pstack : List ℕ

unfoldable pub init : Stack → ℕ → Outcome Stack
init s i_sz = do assert (leb i_sz max_obj_num); ok (record s { sz = i_sz; capacity = 0 })

-- A write through an index: undefined out of range.
abbrev pub put {ℓ} : {A : Type ℓ} → List A → ℕ → A → Outcome (List A)
put xs i x = if ltb i (length xs) then ok (set xs i x) else raised undefined

-- `pstack[capacity++]=i_slot; return 0;`
abbrev pub store : Stack → ℕ → Outcome (ℕ × Stack)
store s i_slot = do
  pstack ← put s.pstack s.capacity i_slot
  ok (0, record s { capacity = s.capacity + 1; pstack = pstack })

unfoldable pub push : Stack → ℕ → Outcome (ℕ × Stack)
push s i_slot = do
  assert (leb s.capacity s.sz)
  assert (leb 0 s.capacity)
  if ltb s.capacity s.sz then store s i_slot else ok (inv_location, s)

-- `return pstack[--capacity];`
abbrev pub fetch : Stack → Outcome (ℕ × Stack)
fetch s = do slot ← at s.pstack (s.capacity - 1); ok (slot, record s { capacity = s.capacity - 1 })

unfoldable pub pop : Stack → Outcome (ℕ × Stack)
pop s = do
  assert (leb s.capacity s.sz)
  assert (leb 0 s.capacity)
  if ltb 0 s.capacity then fetch s else ok (inv_location, s)

unfoldable pub get_sz : Stack → ℕ
get_sz s = s.sz

unfoldable pub get_capacity : Stack → ℕ
get_capacity s = s.capacity

unfoldable pub clear : Stack → Stack
clear s = record s { capacity = 0 }
