-- ===== src/MemDb/Tests.antt =====
-- A table of two columns on a machine that shifts by the count modulo 32, and the theorems at its
-- data.
use lab.Prelude.{
  ℕ, zero, suc, ◌+◌, ◌*◌, ◌%◌, ◌^◌, ◌≤◌, ◌≡◌, refl, ◌==◌, ◌||◌, false, List, [], ◌∷◌, ◌++◌, Bytes,
  arith, codes, some, take,
}
use lab.Prelude.Bits.{bit}
use lab.MemDb.Outcome.{ok, ◌>>=◌}
use lab.MemDb.Stack.{Stack, push, pop, get_sz}
use lab.MemDb.Stack.Lifo
use lab.MemDb.Stack.Lifo.{slots, push_list, pop_list, Does, push-Does, pop-Does}
use lab.MemDb.BitMap.{BitMap, mask, bit_on, is_on}
use lab.MemDb.BitMap.Members
use lab.MemDb.BitMap.Members.{
  has, IsSlot, bit_on-has, bit_off-has, out_of_range, bit_on-wraps, is_on_far,
}
use lab.MemDb.UnitTests.Runs.{Contents}
use lab.MemDb.Layouts.Memory.{read}
use lab.MemDb.Layouts.Memory.Splice.{splice}
use lab.MemDb.Layouts.Header.{ColumnDef, LayoutHeader, add_column_def, get_def_by_name, success}
use lab.MemDb.Layouts.Header.Columns.{or_new, add_column_def-lookup}
use lab.MemDb.Layouts.ArrayLayout.{
  ArrayLayout, construct, add_entry, find_entry, del_entry, update_entry,
}
use lab.MemDb.Layouts.ArrayLayout.Rows.{IsValid, Adds, add_entry-Adds}
use lab.MemDb.Layouts.ArrayLayout.Construct.{below, construct-IsValid}
use lab.MemDb.Layouts.ArrayLayout.Search.{single, IsColumn, hits, find_entry-hits, del_entry-keeps}
use lab.MemDb.Layouts.ArrayLayout.Several.{several, find_entry-only}
use lab.MemDb.UnitTests.LayoutTests.Finding.{only_31}
use lab.MemDb.Layouts.ArrayLayout.Update.{update_entry-one}

abbrev x86 : ℕ → ℕ
x86 k = 2 ^ (k % 32)

abbrev two_slots : Stack
two_slots = record { sz = 3; capacity = 2; pstack = 7 ∷ 9 ∷ 0 ∷ [] }

two_slots-IsValid : Lifo.IsValid two_slots
two_slots-IsValid = record { room = omega arith; bounded = omega arith }

push-Does_example : Does (push_list 3 5) two_slots (push two_slots 5)
push-Does_example = push-Does two_slots 5 two_slots-IsValid

pop-Does_example : Does pop_list two_slots (pop two_slots)
pop-Does_example = pop-Does two_slots two_slots-IsValid

abbrev five : BitMap
five = record { bits = 5 }

five-IsValid : Members.IsValid five
five-IsValid = record { fits = omega arith }

slot : (i : ℕ) → 1 ≤ i → i ≤ 32 → IsSlot i
slot i l h = record { low = l; high = h }

bit_on-has_example :
    (b' : BitMap) × (bit_on x86 five 2 ≡ ok b')
    × Members.IsValid b'
    × (is_on x86 b' 3 ≡ ok ((2 == 3) || has five 3))
bit_on-has_example =
    bit_on-has x86 five 2 3 five-IsValid (slot 2 (omega arith) (omega arith))
      (slot 3 (omega arith) (omega arith))

abbrev fill {ℓ} : {A : Type ℓ} → ℕ → A → List A
fill zero x = []
fill (suc n) x = x ∷ fill n x

abbrev unused : ColumnDef
unused = record { name = []; loc = 0; typsz = 0 }

abbrev id : ColumnDef
id = record { name = codes "id"; loc = 0; typsz = 4 }

abbrev age : ColumnDef
age = record { name = codes "age"; loc = 4; typsz = 4 }

abbrev table : LayoutHeader
table = record { sz = 2; columns = id ∷ age ∷ fill 18 unused }

-- What the allocator gives: memory with any contents.
abbrev chunk : ArrayLayout
chunk = record {
  stack = record { sz = 77; capacity = 77; pstack = fill 32 77 };
  bit_map = record { bits = 77 };
  header = record { sz = 77; columns = fill 20 unused };
  rows = fill 256 77;
  tot_typ_sz = 0;
}

construct-IsValid_example :
    (l : ArrayLayout) × (construct table chunk ≡ ok l)
    × IsValid l
    × (slots l.stack ≡ below 32)
    × (l.bit_map.bits ≡ 0)
    × (l.header.sz ≡ 2)
    × (take 2 l.header.columns ≡ id ∷ age ∷ [])
construct-IsValid_example =
    construct-IsValid table chunk (omega arith) (omega arith) (omega arith) (omega arith)
      (omega arith)

add_column_def-lookup_example :
    (h' : LayoutHeader) × (add_column_def table (record age { name = codes "size" })
      ≡ ok (success, h'))
    × (h'.sz ≡ 3)
    × (get_def_by_name h' (codes "size") ≡ (
        get_def_by_name table (codes "size") >>= λ r.
        ok (or_new (record age { name = codes "size" }) (codes "size") r)))
add_column_def-lookup_example =
    add_column_def-lookup table (record age { name = codes "size" }) (codes "size") (omega arith)
      (omega arith) (omega arith)

abbrev row_30 : Bytes
row_30 = 1 ∷ 0 ∷ 0 ∷ 0 ∷ 20 ∷ 0 ∷ 0 ∷ 0 ∷ []

abbrev row_31 : Bytes
row_31 = 2 ∷ 0 ∷ 0 ∷ 0 ∷ 20 ∷ 0 ∷ 0 ∷ 0 ∷ []

-- The slots 30 and 31 are marked, and the others are free.
abbrev two_rows : ArrayLayout
two_rows = record {
  stack = record { sz = 32; capacity = 30; pstack = count 32 0 };
  bit_map = record { bits = 24576 * 2 ^ 16 };
  header = table;
  rows = fill 240 0 ++ (row_30 ++ (row_31 ++ fill 300 0));
  tot_typ_sz = 8;
}
  where
    count : ℕ → ℕ → List ℕ
    count zero i = []
    count (suc n) i = i ∷ count n (i + 1)

two_rows-IsValid : IsValid two_rows
two_rows-IsValid = record {
  stack = record { room = omega arith; bounded = omega arith };
  bound = refl;
  bit_map = record { fits = omega arith };
  columns = omega arith;
  row = refl;
  room = omega arith;
}

abbrev new_row : Bytes
new_row = 3 ∷ 0 ∷ 0 ∷ 0 ∷ 30 ∷ 0 ∷ 0 ∷ 0 ∷ []

add_entry-Adds_example :
    (l' : ArrayLayout) × (add_entry x86 two_rows new_row ≡ ok (success, l'))
    × Adds x86 two_rows new_row 29 (below 29) 30 l'
add_entry-Adds_example =
    add_entry-Adds x86 two_rows new_row 29 (below 29) 30 two_rows-IsValid refl (omega arith)
      (omega arith) (omega arith) (omega arith) (omega arith) (λ e. omega arith)

abbrev last_slot : ArrayLayout
last_slot = record two_rows { stack = record { sz = 32; capacity = 1; pstack = fill 32 0 } }

last_slot-IsValid : IsValid last_slot
last_slot-IsValid = record {
  stack = record { room = omega arith; bounded = omega arith };
  bound = refl;
  bit_map = record { fits = omega arith };
  columns = omega arith;
  row = refl;
  room = omega arith;
}

id-IsColumn : IsColumn two_rows id
id-IsColumn = record { inside = omega arith; narrow = omega arith; fits = omega arith }

age-IsColumn : IsColumn two_rows age
age-IsColumn = record { inside = omega arith; narrow = omega arith; fits = omega arith }

none_far : (j : ℕ) → 32 ≤ j → j ≤ 48 → is_on x86 two_rows.bit_map j ≡ ok false
none_far j low high = is_on_far x86 24576 j (λ k. refl) (omega arith) low high

find_entry-hits_example : find_entry x86 two_rows (single age 20) ≡ ok (hits 31 two_rows age 20 1)
find_entry-hits_example = find_entry-hits x86 two_rows age 20 two_rows-IsValid age-IsColumn none_far

-- Only the slot 31 is marked.
abbrev one_row : ArrayLayout
one_row = record two_rows { bit_map = record { bits = 2 ^ 30 } }

one_row-IsValid : IsValid one_row
one_row-IsValid = record {
  stack = record { room = omega arith; bounded = omega arith };
  bound = refl;
  bit_map = record { fits = omega arith };
  columns = omega arith;
  row = refl;
  room = omega arith;
}

find_entry-only_example :
    find_entry x86 one_row (several ((id, 2) ∷ (age, 20) ∷ [])) ≡ ok ((31, row_31) ∷ [])
find_entry-only_example =
    find_entry-only x86 one_row 31 id 2 ((age, 20) ∷ []) one_row-IsValid (omega arith) (omega arith)
      (only_31 x86 λ j low high. is_on_far x86 16384 j (λ k. refl) (omega arith) (omega arith) high)
      (
        record { inside = omega arith; narrow = omega arith; fits = omega arith },
        (record { inside = omega arith; narrow = omega arith; fits = omega arith }, tt),
      )

del_entry-keeps_example : del_entry x86 two_rows (single age 20) ≡ ok (2, two_rows)
unfolding bit
del_entry-keeps_example = del_entry-keeps x86 two_rows age 20 two_rows-IsValid age-IsColumn none_far

abbrev new_age : Bytes
new_age = 21 ∷ 0 ∷ 0 ∷ 0 ∷ []

update_entry-one_example :
    update_entry x86 two_rows (single id 2) (new_age ∷ [])
    ≡ ok (1, record two_rows { rows = splice two_rows.rows 248 new_age })
unfolding bit
update_entry-one_example =
    update_entry-one x86 two_rows id 2 new_age 31 row_31 two_rows-IsValid id-IsColumn none_far refl
      (omega arith)

-- A search for the id 1 and the age 99, which no row has: the column that row 30 matches counts
-- on for row 31, and with the column that this one matches the count is full.
abbrev ids_differ : ArrayLayout
ids_differ = record two_rows {
  rows = fill 240 0 ++ (row_30 ++ ((2 ∷ 0 ∷ 0 ∷ 0 ∷ 99 ∷ 0 ∷ 0 ∷ 0 ∷ []) ++ fill 300 0));
}

carried_over :
    find_entry x86 ids_differ
      (record { sz = 2; col_defs = some id ∷ some age ∷ []; p_vals = 1 ∷ 99 ∷ [] })
    ≡ ok ((31, 2 ∷ 0 ∷ 0 ∷ 0 ∷ 99 ∷ 0 ∷ 0 ∷ 0 ∷ []) ∷ [])
unfolding find_entry is_on mask get_sz read
carried_over = refl

abbrev nines : Contents
nines i = 9
