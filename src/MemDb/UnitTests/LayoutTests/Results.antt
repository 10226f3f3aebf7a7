-- ===== src/MemDb/UnitTests/LayoutTests/Results.antt =====
-- How the tests of the array layout end.
use lab.Prelude.{
  ℕ, ◌+◌, ◌*◌, ◌^◌, ◌≤◌, ◌≡◌, refl, sym, ap, ◌∙◌, ◌==◌, Bool, true, false, ◌&&◌, List, [], ◌∷◌,
  ◌++◌, Bytes, codes, length, take, drop, le_value, arith, lt→ltb, subst,
}
use lab.MemDb.Outcome.{Holds, ok}
use lab.MemDb.BitMap.{is_on}
use lab.MemDb.Stack.{get_sz}
use lab.MemDb.Layouts.Memory.{read, bytes_eq_refl}
use lab.MemDb.Layouts.Memory.Splice.{read-take, write-splice, splice, length-splice}
use lab.MemDb.Layouts.Header.{ColumnDef, comparable, get_def_by_name}
use lab.MemDb.Layouts.ArrayLayout.{ArrayLayout, find_entry, update_entry}
use lab.MemDb.Layouts.ArrayLayout.Rows.{IsValid}
use lab.MemDb.Layouts.ArrayLayout.Search.{row_at, IsColumn}
use lab.MemDb.Layouts.ArrayLayout.Several.{several, find_entry-only}
use lab.MemDb.Flow.Create.{int, float, double}
use lab.MemDb.UnitTests.LayoutTests.{
  MyType, row_of, Memory, col2_col3, is_part, is_field, expect, test_create_add_entry,
  test_create_layout, test_find_entry, test_update_entry,
}
use lab.MemDb.UnitTests.LayoutTests.Runs.{
  IsRow, Parts, construct-Parts, blank, three, prepared, table_with_row, length-row_of,
}
use lab.MemDb.UnitTests.LayoutTests.Finding.{
  Apart, field_at-row_at, only_31, col2-matching, col3-matching, i_part, f_part, d_part,
}

-- The chunk of a test's table has room for the columns, the slots and 32 rows.
pub record IsReady (m : Memory) : Type 0 where
  pub columns : 3 ≤ length m.chunk.header.columns
  pub slots_room : 32 ≤ length m.chunk.stack.pstack
  pub rows_room : 512 ≤ length m.chunk.rows

-- The memory where the size of the header on the stack happens to be 0.
abbrev pub starting_at_0 : ColumnDef → ColumnDef → ColumnDef → List ColumnDef → Memory → Memory
starting_at_0 x y z more m = record m { head = blank x y z more }

abbrev col1 : ColumnDef
col1 = record { name = codes "col1"; loc = 0; typsz = 4 }

abbrev col2 : ColumnDef
col2 = record { name = codes "col2"; loc = 4; typsz = 4 }

abbrev col3 : ColumnDef
col3 = record { name = codes "col3"; loc = 8; typsz = 8 }

abbrev searched : MyType → List (ColumnDef × ℕ)
searched t = (col2, le_value (t.f ++ take 4 t.d)) ∷ (col3, le_value t.d) ∷ []

compared :
    (t : MyType) (more : List ColumnDef)
    → col2_col3 t (three col1 col2 col3 more) ≡ ok (several (searched t))
unfolding comparable get_def_by_name
compared t more = refl

-- The search for the row, in the table where it stands.
row_found :
    (over : ℕ → ℕ) (t : MyType) (l : ArrayLayout)
    → IsRow t
    → Apart over
    → IsValid l
    → l.tot_typ_sz ≡ 16
    → l.bit_map ≡ record { bits = 2 ^ 30 }
    → row_at l 31 ≡ row_of t
    → find_entry over l (several (searched t)) ≡ ok ((31, row_of t) ∷ [])
row_found over t l r apart valid total marked stands =
    let is_column : (d : ColumnDef) → d.loc + d.typsz ≤ 16 → d.typsz ≤ 8 → IsColumn l d =
      λ d inside narrow. record { inside = omega arith; narrow = narrow; fits = omega arith } in
    let marks : (j : ℕ) → 1 ≤ j → j ≤ 48 → is_on over l.bit_map j ≡ ok (j == 31) =
      λ j a b. ap (λ bits. is_on over bits j) marked ∙ only_31 over apart j a b in
    find_entry-only over l 31 col2 (le_value (t.f ++ take 4 t.d)) ((col3, le_value t.d) ∷ []) valid
      (omega arith) (omega arith) marks
      (is_column col2 (omega arith) (omega arith), (is_column col3 (omega arith) (omega arith), tt))
    ∙ rw
        (
          col2-matching t r l total stands (codes "col2"),
          col3-matching t r l total stands (codes "col3"),
          stands,
        )
        refl

part_read :
    (mem value : Bytes) (pos n : ℕ)
    → length value ≡ n
    → pos + n ≤ length mem
    → take n (drop pos mem) ≡ value
    → read mem pos (length value) ≡ ok value
part_read mem value pos n size inside there =
    ap (read mem pos) size ∙ (read-take mem pos n inside ∙ ap ok there)

part :
    (mem value : Bytes) (pos n : ℕ)
    → length value ≡ n
    → pos + n ≤ length mem
    → take n (drop pos mem) ≡ value
    → is_part mem pos value ≡ ok true
part mem value pos n size inside there =
    rw (part_read mem value pos n size inside there, bytes_eq_refl value) refl

-- The two columns of the one entry are written, the second from the place of the first.
both_updated :
    (over : ℕ → ℕ) (t update : MyType) (l : ArrayLayout)
    → IsValid l
    → l.tot_typ_sz ≡ 16
    → find_entry over l (several (searched t)) ≡ ok ((31, row_of t) ∷ [])
    → IsRow update
    → 516 ≤ length l.rows
    → (l' : ArrayLayout) × (update_entry over l (several (searched t)) (update.f ∷ update.d ∷ [])
        ≡ ok (2, l'))
unfolding update_entry get_sz
both_updated over t update l valid total found u room =
    let positive = lt→ltb 0 l.stack.sz (omega (arith, valid.bound)) in
    let start : 0 + 31 * l.tot_typ_sz ≡ 496 = omega arith in
    let first = write-splice l.rows 500 update.f (omega (arith, u.f_size)) in
    let size = length-splice l.rows 500 update.f (omega (arith, u.f_size)) in
    let rows = splice l.rows 500 update.f in
    let second = write-splice rows 508 update.d (omega (arith, u.d_size)) in
    (record l { rows = splice rows 508 update.d }, rw (positive, found, start, first, second) refl)

-- A field of the row in the slot 31.
row_field :
    (l : ArrayLayout) (value : Bytes) (k n : ℕ)
    → IsValid l
    → l.tot_typ_sz ≡ 16
    → length value ≡ n
    → k + n ≤ 16
    → take n (drop k (row_at l 31)) ≡ value
    → is_field l (496 + k) value ≡ ok true
row_field l value k n valid total size inside there =
    let d : ColumnDef = record { name = []; loc = k; typsz = n } in
    let place : 31 * l.tot_typ_sz + k ≡ 496 + k = omega arith in
    let field : take n (drop (496 + k) l.rows) ≡ value =
      ap (λ o. take n (drop o l.rows)) (sym place)
      ∙ (field_at-row_at l d 31 (omega arith) ∙ there) in
    rw
      (
        part_read l.rows value (496 + k) n size (omega (arith, valid.room)) field,
        bytes_eq_refl value,
      )
      refl

module _ (long_sz : ℕ) (over : ℕ → ℕ) (apart : Apart over) (t : MyType) (r : IsRow t)
    (x y z : ColumnDef) (more : List ColumnDef) (m : Memory) (ready : IsReady m) where
  -- `test_find_entry` passes: the entry that was added is found by two of its columns.
  pub test_find_entry-passes : test_find_entry long_sz over t (starting_at_0 x y z more m) ≡ ok true
  unfolding test_find_entry
  test_find_entry-passes =
      let head = three col1 col2 col3 more in
      let (new, l, built, added, valid, total, marked, stands, size) =
        table_with_row over head m.chunk t refl (omega arith) refl ready.columns ready.slots_room
          ready.rows_room r in
      let made =
        prepared long_sz (record { loc = 0; name = codes "col1"; typ = int })
          (record { loc = 4; name = codes "col2"; typ = float })
          (record { loc = 8; name = codes "col3"; typ = double }) x y z more in
      let found = row_found over t l r apart valid total marked stands in
      let whole : length (row_of t) ≡ 16 = length-row_of t r in
      let i = part (row_of t) t.i 0 4 r.i_size (omega arith) (i_part t r) in
      let f = part (row_of t) t.f 4 4 r.f_size (omega arith) (f_part t r) in
      let d = part (row_of t) t.d 8 8 r.d_size (omega arith) (d_part t r) in
      rw (made, built, added, compared t more, found, i, f, d) refl

  -- `test_update_entry` fails, with any row and any new values, where the size that the header on the
  -- stack has by chance is 0, the chunk has room for the columns and the slots and reaches four bytes
  -- beyond its 32 rows, and no bit from 33 to 48 is taken for that of the slot 31: the test returns that
  -- an assertion does not hold.
  pub test_update_entry-fails :
      (update : MyType)
      → IsRow update
      → 516 ≤ length m.chunk.rows
      → test_update_entry long_sz over t update (starting_at_0 x y z more m) ≡ ok false
  unfolding test_update_entry
  test_update_entry-fails update u beyond =
      let head = three col1 col2 col3 more in
      let (new, l, built, added, valid, total, marked, stands, size) =
        table_with_row over head m.chunk t refl (omega arith) refl ready.columns ready.slots_room
          ready.rows_room r in
      let made =
        prepared long_sz (record { loc = 0; name = codes "col1"; typ = int })
          (record { loc = 4; name = codes "col2"; typ = float })
          (record { loc = 8; name = codes "col3"; typ = double }) x y z more in
      let found = row_found over t l r apart valid total marked stands in
      let (l', updated) = both_updated over t update l valid total found u (omega arith) in
      rw (made, built, added, compared t more, updated) refl

  -- `test_create_add_entry` passes exactly where the allocator reports the size of `ArrayLayoutData`,
  -- and that with the 48 bytes that were asked for: the row that was added stands in the slot 31.
  pub test_create_add_entry-passes :
      test_create_add_entry long_sz over t (starting_at_0 x y z more m)
      ≡ ok (
          (m.array_layout_data + 48 == m.reported.sz) && (m.array_layout_data == m.reported.act_sz))
  unfolding test_create_add_entry
  test_create_add_entry-passes =
      let head =
        three (record col1 { loc = 0 }) (record col2 { loc = 1 }) (record col3 { loc = 2 }) more in
      let (new, l, built, added, valid, total, marked, stands, size) =
        table_with_row over head m.chunk t refl (omega arith) refl ready.columns ready.slots_room
          ready.rows_room r in
      let made =
        prepared long_sz (record { loc = 0; name = codes "col1"; typ = int })
          (record { loc = 1; name = codes "col2"; typ = float })
          (record { loc = 2; name = codes "col3"; typ = double }) x y z more in
      let place : 31 * l.tot_typ_sz ≡ 496 = omega arith in
      let i =
        row_field l t.i 0 4 valid total r.i_size (omega arith)
          (ap (λ row. take 4 (drop 0 row)) stands ∙ i_part t r) in
      let f =
        row_field l t.f 4 4 valid total r.f_size (omega arith)
          (ap (λ row. take 4 (drop 4 row)) stands ∙ f_part t r) in
      let d =
        row_field l t.d 8 8 valid total r.d_size (omega arith)
          (ap (λ row. take 8 (drop 8 row)) stands ∙ d_part t r) in
      rw (made, built, added, place, i, f, d)
        (both (m.array_layout_data + 48 == m.reported.sz)
          (m.array_layout_data == m.reported.act_sz))
    where
      both :
          (a b : Bool)
          → expect a (expect b (expect true (expect true (expect true (ok true))))) ≡ ok (a && b)
      both true true = refl
      both true false = refl
      both false b = refl

  -- `test_create_layout` passes exactly where the allocator reports the size of `ArrayLayoutData`, and
  -- that with the 10 bytes that were asked for: the row is as wide as its three columns.
  pub test_create_layout-passes :
      test_create_layout long_sz (starting_at_0 x y z more m)
      ≡ ok (
          (m.array_layout_data + 10 == m.reported.sz) && (m.array_layout_data == m.reported.act_sz))
  unfolding test_create_layout
  test_create_layout-passes =
      let head =
        three (record col1 { loc = 0 }) (record col2 { loc = 1 }) (record col3 { loc = 2 }) more in
      let (new, l, built, added, valid, total, marked, stands, size) =
        table_with_row over head m.chunk t refl (omega arith) refl ready.columns ready.slots_room
          ready.rows_room r in
      let made =
        prepared long_sz (record { loc = 0; name = codes "col1"; typ = int })
          (record { loc = 1; name = codes "col2"; typ = float })
          (record { loc = 2; name = codes "col3"; typ = double }) x y z more in
      let parts = subst (Holds (Parts head m.chunk)) built (construct-Parts head m.chunk) in
      let width : new.tot_typ_sz ≡ 16 = parts.1 in
      rw (made, built, width)
        (both (m.array_layout_data + 10 == m.reported.sz)
          (m.array_layout_data == m.reported.act_sz))
    where
      both : (a b : Bool) → expect a (expect b (ok true)) ≡ ok (a && b)
      both true true = refl
      both true false = refl
      both false b = refl
