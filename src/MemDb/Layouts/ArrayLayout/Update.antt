-- ===== src/MemDb/Layouts/ArrayLayout/Update.antt =====
-- `updateEntry` for a comparison of one column.
use lab.Prelude.{ℕ, ◌+◌, ◌*◌, ◌≤◌, ◌≡◌, false, [], ◌∷◌, length, arith, lt→ltb, Bytes}
use lab.MemDb.Outcome.{ok}
use lab.MemDb.Stack.{get_sz}
use lab.MemDb.BitMap.{is_on}
use lab.MemDb.Layouts.Memory.Splice.{splice, write-splice, length-splice}
use lab.MemDb.Layouts.Header.{ColumnDef}
use lab.MemDb.Layouts.ArrayLayout.{ArrayLayout, update_entry}
use lab.MemDb.Layouts.ArrayLayout.Rows.{IsValid}
use lab.MemDb.Layouts.ArrayLayout.Search.{single, IsColumn, hits, find_entry-hits}

-- On a valid layout with rows of at most 1024 bytes, where no slot from 32 to 48 is marked, an
-- update by one column of at most 8 bytes that finds one entry writes the new bytes to the column
-- of that entry's row, where they fit the memory, and changes nothing else.
pub update_entry-one :
    (over : ℕ → ℕ) (l : ArrayLayout) (d : ColumnDef) (v : ℕ) (bytes : Bytes) (obj : ℕ) (row : Bytes)
    → IsValid l
    → IsColumn l d
    → ((j : ℕ) → 32 ≤ j → j ≤ 48 → is_on over l.bit_map j ≡ ok false)
    → hits 31 l d v 1 ≡ (obj, row) ∷ []
    → obj * l.tot_typ_sz + d.loc + length bytes ≤ length l.rows
    → update_entry over l (single d v) (bytes ∷ [])
      ≡ ok (1, record l { rows = splice l.rows (obj * l.tot_typ_sz + d.loc) bytes })
unfolding update_entry get_sz
update_entry-one over l d v bytes obj row h c off found fits =
    let positive = lt→ltb 0 l.stack.sz (omega (arith, h.bound)) in
    let start : 0 + obj * l.tot_typ_sz ≡ obj * l.tot_typ_sz = omega arith in
    rw (
      positive,
      find_entry-hits over l d v h c off,
      found,
      start,
      write-splice l.rows (obj * l.tot_typ_sz + d.loc) bytes fits,
    )

-- On a valid layout with rows of at most 1024 bytes, where no slot from 32 to 48 is marked and two
-- entries are found, the offset of the second is counted from the column of the first: the second
-- write goes not to the second entry's row but as much further on as the first entry's column is
-- from the start of the rows, where the memory reaches that far.
pub update_entry-two :
    (over : ℕ → ℕ) (l : ArrayLayout) (d : ColumnDef) (v : ℕ) (bytes : Bytes) (a b : ℕ)
    (row_a row_b : Bytes)
    → IsValid l
    → IsColumn l d
    → ((j : ℕ) → 32 ≤ j → j ≤ 48 → is_on over l.bit_map j ≡ ok false)
    → hits 31 l d v 1 ≡ (a, row_a) ∷ (b, row_b) ∷ []
    → a * l.tot_typ_sz + d.loc + b * l.tot_typ_sz + d.loc + length bytes ≤ length l.rows
    → update_entry over l (single d v) (bytes ∷ [])
      ≡ ok (
        2,
        record l {
          rows =
              splice
                (splice l.rows (a * l.tot_typ_sz + d.loc) bytes)
                (a * l.tot_typ_sz + d.loc + b * l.tot_typ_sz + d.loc)
                bytes;
        },
      )
unfolding update_entry get_sz
update_entry-two over l d v bytes a b row_a row_b h c off found fits =
    let positive = lt→ltb 0 l.stack.sz (omega (arith, h.bound)) in
    let start : 0 + a * l.tot_typ_sz ≡ a * l.tot_typ_sz = omega arith in
    let first = splice l.rows (a * l.tot_typ_sz + d.loc) bytes in
    rw (
      positive,
      find_entry-hits over l d v h c off,
      found,
      start,
      write-splice l.rows (a * l.tot_typ_sz + d.loc) bytes (omega arith),
      write-splice first (a * l.tot_typ_sz + d.loc + b * l.tot_typ_sz + d.loc) bytes
          (omega (arith, length-splice l.rows (a * l.tot_typ_sz + d.loc) bytes (omega arith))),
    )
