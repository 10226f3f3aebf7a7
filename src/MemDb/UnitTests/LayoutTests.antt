-- ===== src/MemDb/UnitTests/LayoutTests.antt =====
-- mem_db/ut/src/layouts_tests.cpp: the tests of the array layout, as functions on what the memory
-- holds.
pub mod Runs
pub mod Finding
pub mod Results
mod Tests
use lab.Prelude.{
  ℕ, ◌+◌, ◌*◌, ◌==◌, if◌then◌else◌, Bool, true, false, List, [], ◌∷◌, ◌++◌, Bytes, codes, le_value,
  length, take,
}
use lab.MemDb.Outcome.{Outcome, ok, ◌>>=◌, at}
use lab.MemDb.Layouts.Memory.{read, bytes_eq}
use lab.MemDb.Layouts.Header.{ColumnDef, LayoutHeader, Comparable, add_column_def, comparable}
use lab.MemDb.Layouts.ArrayLayout.{ArrayLayout, construct, add_entry, find_entry, update_entry}
use lab.MemDb.Flow.Create.{ColTyp, int, long, llong, float, double, vcr}

pub record UserInp : Type 0 where
  pub loc : ℕ
  pub name : Bytes
  pub typ : ColTyp

-- The row that the tests put into a table, as its bytes: there is no padding.
pub record MyType : Type 0 where
  pub i : Bytes
  pub f : Bytes
  pub d : Bytes

abbrev pub row_of : MyType → Bytes
row_of t = t.i ++ (t.f ++ t.d)

-- What the allocator says of the chunk of a table: `getSz` and `getActSz`.
pub record Reported : Type 0 where
  pub sz : ℕ
  pub act_sz : ℕ

-- What the memory holds that a test works in: the header on the stack, the chunk of the table, and
-- what is reported of it. `array_layout_data` is the size of `ArrayLayoutData`.
pub record Memory : Type 0 where
  pub head : LayoutHeader
  pub chunk : ArrayLayout
  pub reported : Reported
  pub array_layout_data : ℕ

-- `CPPUNIT_ASSERT_EQUAL_MESSAGE`: a test returns whether all of its assertions hold.
abbrev pub expect : Bool → Outcome Bool → Outcome Bool
expect same rest = if same then rest else ok false

abbrev pub expect_field : Outcome Bool → Outcome Bool → Outcome Bool
expect_field same rest = do b ← same; expect b rest

-- The columns of the first two tests, with the places that these give them.
abbrev pub inp : List UserInp
inp =
    record { loc = 0; name = codes "col1"; typ = int }
    ∷ record { loc = 1; name = codes "col2"; typ = float }
    ∷ record { loc = 2; name = codes "col3"; typ = double }
    ∷ []

-- The columns of the other two.
abbrev pub inp_at : List UserInp
inp_at =
    record { loc = 0; name = codes "col1"; typ = int }
    ∷ record { loc = 4; name = codes "col2"; typ = float }
    ∷ record { loc = 8; name = codes "col3"; typ = double }
    ∷ []

abbrev pub is_field : ArrayLayout → ℕ → Bytes → Outcome Bool
is_field layout pos value = do
  bytes ← read layout.rows pos (length value)
  ok (bytes_eq value bytes)

-- The comparison of the last two columns. The value of the first is read from the float on, with
-- four bytes of what follows it.
abbrev pub col2_col3 : MyType → LayoutHeader → Outcome Comparable
col2_col3 t head =
    comparable ((codes "col2", le_value (t.f ++ take 4 t.d)) ∷ (codes "col3", le_value t.d) ∷ [])
      head

abbrev pub is_part : Bytes → ℕ → Bytes → Outcome Bool
is_part row pos value = do bytes ← read row pos (length value); ok (bytes_eq bytes value)

-- `sizeof(long)` is 4 or 8.
module _ (long_sz : ℕ) where
  abbrev pub g_type_ref : ColTyp → ℕ
  g_type_ref int = 4
  g_type_ref long = long_sz
  g_type_ref llong = 8
  g_type_ref float = 4
  g_type_ref double = 8
  g_type_ref vcr = 128

  -- The constructor of `ColumnDef`.
  abbrev pub new_column_def : UserInp → ColumnDef
  new_column_def inp = record { name = inp.name; loc = inp.loc; typsz = g_type_ref inp.typ }

  abbrev pub add_columns : List UserInp → LayoutHeader → Outcome LayoutHeader
  add_columns [] h = ok h
  add_columns (inp ∷ inps) h = do
    (status, h') ← add_column_def h (new_column_def inp)
    add_columns inps h'

  -- `sz` is not set before the columns are added.
  unfoldable pub prepare_lyout_hdr : List UserInp → LayoutHeader → Outcome LayoutHeader
  prepare_lyout_hdr inps h = do h' ← add_columns inps h; ok (record h' { sz = length inps })

  unfoldable pub test_create_layout : Memory → Outcome Bool
  test_create_layout m = do
    head ← prepare_lyout_hdr inp m.head
    layout ← construct head m.chunk
    expect (g_type_ref int + g_type_ref float + g_type_ref double == layout.tot_typ_sz) (
        expect (m.array_layout_data + 10 == m.reported.sz)
          (expect (m.array_layout_data == m.reported.act_sz) (ok true)))

  module _ (over : ℕ → ℕ) where
    unfoldable pub test_create_add_entry : MyType → Memory → Outcome Bool
    test_create_add_entry my_type m = do
      head ← prepare_lyout_hdr inp m.head
      new ← construct head m.chunk
      (status, layout) ← add_entry over new (row_of my_type)
      let vdata = 31 * layout.tot_typ_sz
      expect (m.array_layout_data + 16 * 3 == m.reported.sz) (
          expect (m.array_layout_data == m.reported.act_sz) (
            expect_field (is_field layout vdata my_type.i) (
              expect_field (is_field layout (vdata + 4) my_type.f)
                (expect_field (is_field layout (vdata + 4 + 4) my_type.d) (ok true)))))

    unfoldable pub test_find_entry : MyType → Memory → Outcome Bool
    test_find_entry my_type m = do
      head ← prepare_lyout_hdr inp_at m.head
      new ← construct head m.chunk
      (status, layout) ← add_entry over new (row_of my_type)
      comp ← col2_col3 my_type head
      buff ← find_entry over layout comp
      (indx, type2) ← at buff 0
      expect_field (is_part type2 0 my_type.i) (
          expect_field (is_part type2 4 my_type.f)
            (expect_field (is_part type2 8 my_type.d) (ok true)))

    -- The new values are those of the two columns of `update`.
    unfoldable pub test_update_entry : MyType → MyType → Memory → Outcome Bool
    test_update_entry my_type update m = do
      head ← prepare_lyout_hdr inp_at m.head
      new ← construct head m.chunk
      (status, layout) ← add_entry over new (row_of my_type)
      comp ← col2_col3 my_type head
      (updated, layout') ← update_entry over layout comp (update.f ∷ update.d ∷ [])
      let ptyp = 31 * layout'.tot_typ_sz
      expect (updated == 1) (
          expect_field (is_field layout' (ptyp + 4) update.f)
            (expect_field (is_field layout' (ptyp + 8) update.d) (ok true)))
