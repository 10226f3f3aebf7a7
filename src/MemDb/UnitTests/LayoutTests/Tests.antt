-- ===== src/MemDb/UnitTests/LayoutTests/Tests.antt =====
-- The tests of the array layout on a memory of sevens, on a machine that shifts all bits out of a
-- word.
use lab.Prelude.{ℕ, zero, suc, ◌-◌, ◌≡◌, refl, false, true, List, [], ◌∷◌, arith, ltb, leb}
use lab.MemDb.Outcome.{ok}
use lab.MemDb.BitMap.{is_on, mask}
use lab.MemDb.Layouts.Header.{ColumnDef}
use lab.MemDb.Layouts.ArrayLayout.{ArrayLayout}
use lab.MemDb.UnitTests.LayoutTests.{MyType, Memory, test_update_entry}
use lab.MemDb.UnitTests.LayoutTests.Runs.{IsRow}
use lab.MemDb.UnitTests.LayoutTests.Finding.{Apart}
use lab.MemDb.UnitTests.LayoutTests.Results.{IsReady, starting_at_0, test_update_entry-fails}

abbrev fill {ℓ} : {A : Type ℓ} → ℕ → A → List A
fill zero x = []
fill (suc n) x = x ∷ fill n x

abbrev unused : ColumnDef
unused = record { name = []; loc = 7; typsz = 7 }

abbrev sevens : ArrayLayout
sevens = record {
  stack = record { sz = 7; capacity = 7; pstack = fill 32 7 };
  bit_map = record { bits = 7 };
  header = record { sz = 7; columns = fill 20 unused };
  rows = fill 600 7;
  tot_typ_sz = 7;
}

abbrev memory : Memory
memory = record {
  head = record { sz = 7; columns = fill 20 unused };
  chunk = sevens;
  reported = record { sz = 2048; act_sz = 2000 };
  array_layout_data = 2000;
}

memory-IsReady : IsReady memory
memory-IsReady = record { columns = omega arith; slots_room = omega arith; rows_room = omega arith }

-- 1, 5.5 and 4.566.
abbrev my_type : MyType
my_type = record {
  i = 1 ∷ (0 ∷ (0 ∷ (0 ∷ [])));
  f = 0 ∷ (0 ∷ (176 ∷ (64 ∷ [])));
  d = 170 ∷ (241 ∷ (210 ∷ (77 ∷ (98 ∷ (67 ∷ (18 ∷ (64 ∷ [])))))));
}

my_type-IsRow : IsRow my_type
my_type-IsRow = record {
  i_size = refl;
  f_size = refl;
  d_size = refl;
  f_bytes = (omega arith, (omega arith, (omega arith, (omega arith, tt))));
  d_bytes = omega arith;
}

shifted_out : Apart (λ k. 0)
unfolding is_on mask
shifted_out j low high =
    let a : leb 1 j ≡ true = ground arith in
    let b : leb j 49 ≡ true = ground arith in
    let c : ltb (j - 1) 32 ≡ false = ground arith in rw (a, b, c) refl

test_update_entry-fails_example :
    test_update_entry 8
      (λ k. 0)
      my_type
      my_type
      (starting_at_0 unused unused unused (fill 17 unused) memory)
    ≡ ok false
test_update_entry-fails_example =
    test_update_entry-fails 8 (λ k. 0) shifted_out my_type my_type-IsRow unused unused unused
      (fill 17 unused) memory memory-IsReady my_type my_type-IsRow (omega arith)
