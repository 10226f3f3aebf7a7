-- ===== src/MemDb/Layouts/ArrayLayout.antt =====
-- `ArrayLayout`: the rows of a table in one array of bytes, the slots that are free on a stack and
-- those that are taken in a bit map. The chunk that the allocator gives to a layout is an argument
-- of its constructor: the header's array, the stack's array and the bytes of the rows.
pub mod Rows
pub mod Construct
pub mod Search
pub mod Several
pub mod Update
use lab.Prelude.{
  le_bytes, ℕ, zero, suc, ◌+◌, ◌-◌, ◌*◌, ◌==◌, ltb, leb, if◌then◌else◌, Bool, true, false, ◌&&◌,
  List, [], ◌∷◌, ◌++◌, Option, none, some, Bytes, map, length,
}
use lab.MemDb.Outcome.{Outcome, ok, raised, undefined, ◌>>=◌, ◌>>◌, assert}
use lab.MemDb.Stack
use lab.MemDb.Stack.{Stack, put, max_obj_num}
use lab.MemDb.BitMap
use lab.MemDb.BitMap.{BitMap, max_bit, bit_on, is_on}
use lab.MemDb.Layouts.Memory.{read, write, bytes_eq}
use lab.MemDb.Layouts.Header.{ColumnDef, LayoutHeader, Comparable, Status, success, max_col_num}

pub record ArrayLayout : Type 0 where
  pub stack : Stack
  pub bit_map : BitMap
  pub header : LayoutHeader
  pub rows : Bytes
  pub tot_typ_sz : ℕ

-- The slots 0 to 31 are pushed, with `n` pushes left.
abbrev pub push_slots : ℕ → ℕ → Stack → Outcome Stack
push_slots zero i s = ok s
push_slots (suc n) i s = do (_, s') ← Stack.push s i; push_slots n (i + 1) s'

-- The first `n` columns of a header are copied, from the index `i` on.
abbrev pub copy_columns : ℕ → ℕ → List ColumnDef → List ColumnDef → Outcome (List ColumnDef)
copy_columns zero i from to = ok to
copy_columns (suc n) i [] to = raised undefined
copy_columns (suc n) i (c ∷ from) to = do to' ← put to i c; copy_columns n (i + 1) from to'

abbrev pub total_size : ℕ → List ColumnDef → ℕ
total_size zero cs = 0
total_size (suc n) [] = 0
total_size (suc n) (c ∷ cs) = c.typsz + total_size n cs

-- The constructor. `chunk` holds what the memory of the chunk held before.
unfoldable pub construct : LayoutHeader → ArrayLayout → Outcome ArrayLayout
construct i_head chunk = do
  assert (ltb i_head.sz max_col_num)
  s ← Stack.init chunk.stack max_obj_num
  s ← push_slots max_obj_num 0 s
  assert (Stack.get_capacity s == Stack.get_sz s)
  columns ← copy_columns i_head.sz 0 i_head.columns chunk.header.columns
  ok (record {
    stack = s;
    bit_map = BitMap.init chunk.bit_map;
    header = record { sz = i_head.sz; columns = columns };
    rows = chunk.rows;
    tot_typ_sz = total_size i_head.sz i_head.columns;
  })

-- The loop of `addEntry` that copies a row column by column, with `n` columns left.
abbrev pub write_columns : ℕ → List ColumnDef → Bytes → ℕ → ℕ → Bytes → Outcome Bytes
write_columns zero cs dat off copied rows = ok rows
write_columns (suc n) [] dat off copied rows = raised undefined
write_columns (suc n) (c ∷ cs) dat off copied rows = do
  field ← read dat copied c.typsz
  rows' ← write rows (off + copied) field
  write_columns n cs dat off (copied + c.typsz) rows'

-- The loop of `findEntry` over the columns of a comparison: `matches` counts those that were found
-- equal. With the last one the object is a match, and the count starts anew.
abbrev pub match_columns :
    ℕ → List (Option ColumnDef) → List ℕ → Bytes → ℕ → ℕ → ℕ → Outcome (ℕ × Bool)
match_columns zero ds vs rows off size matches = ok (matches, false)
match_columns (suc n) [] vs rows off size matches = raised undefined
match_columns (suc n) (none ∷ ds) vs rows off size matches = raised undefined
match_columns (suc n) (some d ∷ ds) [] rows off size matches = raised undefined
match_columns (suc n) (some d ∷ ds) (v ∷ vs) rows off size matches = do
  value ← read (le_bytes 8 v) 0 d.typsz
  field ← read rows (off + d.loc) d.typsz
  let eq = bytes_eq value field
  let next = match_columns n ds vs rows off size (if eq then matches + 1 else matches)
  if eq && (matches + 1 == size) then ok (0, true) else next

-- `ResultBuff`: what `findEntry` found, with `sz` the length of the list: the index of an object
-- and the bytes of its row.
abbrev pub ResultBuff : Type 0
ResultBuff = List (ℕ × Bytes)

-- The size of the buffer of a `BufferSz`.
abbrev pub max_buff_sz : ℕ
max_buff_sz = 1024

-- `resData[totMatchFound]` is filled, where both arrays have the room.
abbrev pub add_result : ResultBuff → ℕ → Bytes → Outcome ResultBuff
add_result res obj row =
    if ltb (length res) max_obj_num && leb (length row) max_buff_sz
    then ok (res ++ (obj, row) ∷ [])
    else raised undefined

-- The object `obj` is compared, with `matches` carried over from the object before it.
abbrev pub inspect : ArrayLayout → Comparable → ℕ → ℕ → ResultBuff → Outcome (ℕ × ResultBuff)
inspect l comp obj matches res = do
  let off = obj * l.tot_typ_sz
  (matches', hit) ← match_columns comp.sz comp.col_defs comp.p_vals l.rows off comp.sz matches
  if hit
      then (do
        row ← read l.rows off l.tot_typ_sz
        res' ← add_result res obj row
        ok (matches', res'))
      else ok (matches', res)

module _ (over : ℕ → ℕ) where
  -- `dat` is what `i_pDat` points to, which is not null.
  unfoldable pub add_entry : ArrayLayout → Bytes → Outcome (Status × ArrayLayout)
  add_entry l dat = do
    assert (ltb 0 (Stack.get_sz l.stack))
    (val, s) ← Stack.pop l.stack
    b ← bit_on over l.bit_map val
    rows ← write_columns l.header.sz l.header.columns dat (val * l.tot_typ_sz) 0 l.rows
    ok (success, record l { stack = s; bit_map = b; rows = rows })

  abbrev pub look : ArrayLayout → Comparable → ℕ → ℕ → ResultBuff → Outcome (ℕ × ResultBuff)
  look l comp obj matches res = do
    on ← is_on over l.bit_map obj
    if on then inspect l comp obj matches res else ok (matches, res)

  -- The loop of `findEntry` over the objects, with `n` of them left.
  abbrev pub find_objects : ℕ → ArrayLayout → Comparable → ℕ → ℕ → ResultBuff → Outcome ResultBuff
  find_objects zero l comp obj matches res = ok res
  find_objects (suc n) l comp obj matches res = do
    (matches', res') ← look l comp obj matches res
    find_objects n l comp (obj + 1) matches' res'

  unfoldable pub find_entry : ArrayLayout → Comparable → Outcome ResultBuff
  find_entry l comp = do
    assert (ltb 0 (Stack.get_sz l.stack))
    find_objects (max_bit - 1) l comp 1 0 []

  -- What `updateEntry` writes for one object that was found. `off` is where `vpdata` stands.
  abbrev pub update_columns :
      ℕ → List (Option ColumnDef) → List Bytes → Bytes → ℕ → ℕ → Outcome (ℕ × ℕ × Bytes)
  update_columns zero ds upds rows off upd = ok (off, upd, rows)
  update_columns (suc n) (some d ∷ ds) (u ∷ upds) rows off upd = do
    rows' ← write rows (off + d.loc) u
    update_columns n ds upds rows' (off + d.loc) (upd + 1)
  update_columns (suc n) ds upds rows off upd = raised undefined

  -- The loop over the objects that were found.
  abbrev pub update_objects :
      ResultBuff → ArrayLayout → Comparable → List Bytes → ℕ → ℕ → Outcome (ℕ × ArrayLayout)
  update_objects [] l comp upds off upd = ok (upd, l)
  update_objects ((obj, row) ∷ res) l comp upds off upd = do
    (off', upd', rows) ←
        update_columns comp.sz comp.col_defs upds l.rows (off + obj * l.tot_typ_sz) upd
    update_objects res (record l { rows = rows }) comp upds off' upd'

  -- `m_vpBitMap` is not null: the constructor has set it. No object that is found is a return of 0.
  unfoldable pub update_entry : ArrayLayout → Comparable → List Bytes → Outcome (ℕ × ArrayLayout)
  update_entry l comp upds = do
    assert (ltb 0 (Stack.get_sz l.stack))
    res ← find_entry l comp
    update_objects res l comp upds 0 0

  -- The objects stay where they are: the two calls that would free them are commented out.
  unfoldable pub del_entry : ArrayLayout → Comparable → Outcome (ℕ × ArrayLayout)
  del_entry l comp = do
    assert (ltb 0 (Stack.get_sz l.stack))
    if l.bit_map.bits == 0 then ok (0, l) else (do res ← find_entry l comp; ok (length res, l))
