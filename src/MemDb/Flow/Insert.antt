-- ===== src/MemDb/Flow/Insert.antt =====
-- mem_db/server/flow/src/flow_manager.cpp: `handle_insert`, which looks for the columns that a
-- message names and copies their values to a buffer.
pub mod Buffer
use lab.Prelude.{
  ℕ, zero, suc, ◌+◌, ◌%◌, ◌==◌, ltb, leb, if◌then◌else◌, List, [], ◌∷◌, ◌++◌, Option, none, some,
  Bytes, length, drop,
}
use lab.MemDb.Outcome.{Outcome, ok, raised, undefined, ◌>>=◌}
use lab.MemDb.BitMap.{u32_mod}
use lab.MemDb.Layouts.Memory.{read, write, bytes_eq}
use lab.MemDb.Layouts.Header.{ColumnDef, LayoutHeader, max_col_num}
use lab.MemDb.Layouts.ArrayLayout.{ArrayLayout}
use lab.MemDb.Flow.{NetworkMsg, TblNm2DataBuff, find_layout, read_number}

abbrev pub max_net_msg : ℕ
max_net_msg = 4096

-- The `for` loop, with `n` rounds left: the buffer, how many bytes of a value were taken, and
-- `offset`, which grows by the columns that have another name of the same length.
abbrev pub match_column :
    Bytes → ℕ → Bytes → ℕ → List ColumnDef → Bytes → ℕ → Outcome ((Bytes × ℕ) × ℕ)
match_column mem pos col_name zero cs buff offset = ok ((buff, 0), offset)
match_column mem pos col_name (suc n) [] buff offset = raised undefined
match_column mem pos col_name (suc n) (c ∷ cs) buff offset =
    let other = match_column mem pos col_name n cs buff ((offset + c.typsz) % u32_mod) in
    let rest = match_column mem pos col_name n cs buff offset in
    if length c.name == length col_name
    then (if bytes_eq c.name col_name
        then (do
          val ← read mem pos c.typsz
          written ← write buff offset val
          ok ((written, c.typsz), 0))
        else other)
    else rest

-- `memcpy(colName, pmsg, perStrSz)`
abbrev pub read_col_name : Bytes → ℕ → ℕ → Outcome Bytes
read_col_name mem pos per_str_sz =
    if leb per_str_sz max_col_num then read mem pos per_str_sz else raised undefined

-- `if(0 == offset) return -1;`, and otherwise the buffer, the bytes that the round took, and
-- `offset`.
abbrev pub checked : ℕ → (Bytes × ℕ) × ℕ → Option ((Bytes × ℕ) × ℕ)
checked taken ((buff, n), offset) = if offset == 0 then none else some ((buff, taken + n), offset)

-- A round of the `while` loop: `none` is `return -1`.
abbrev pub insert_round : Bytes → ℕ → LayoutHeader → Bytes → ℕ → Outcome (Option ((Bytes × ℕ) × ℕ))
insert_round mem pos head buff offset = do
  per_str_sz ← read_number mem pos 4
  if per_str_sz == 0 then ok none else (do
    col_name ← read_col_name mem (pos + 4) per_str_sz
    found ← match_column mem (pos + (4 + per_str_sz)) col_name head.sz head.columns buff offset
    ok (checked (4 + per_str_sz) found))

-- The loop: the buffer where the message is read to its end. The outer `none` means that the fuel
-- ran out.
unfoldable pub insert_loop :
    ℕ → NetworkMsg → LayoutHeader → ℕ → Bytes → ℕ → Option (Outcome (Option Bytes))
insert_loop zero msg head acc buff offset = none
insert_loop (suc fuel) msg head acc buff offset =
    if ltb acc msg.param_sz
    then (elim (insert_round msg.buff (msg.lay_nm_sz + acc) head buff offset) [
      | raised e ↦ some (raised e)
      | ok none ↦ some (ok none)
      | ok (some ((buff', n), offset')) ↦ insert_loop fuel msg head (acc + n) buff' offset'
    ])
    else some (ok (some buff))

abbrev pub zeros : ℕ → Bytes
zeros zero = []
zeros (suc n) = 0 ∷ zeros n

-- `memset(buff, 0, i_msg.paramSz)`, over what the stack holds.
abbrev pub cleaned : ℕ → Bytes → Bytes
cleaned n stack = zeros n ++ drop n stack

abbrev pub insert_into :
    Bytes → NetworkMsg → Outcome (Option ArrayLayout) → Option (Outcome (Option Bytes))
insert_into stack msg (raised e) = some (raised e)
insert_into stack msg (ok none) = some (ok none)
insert_into stack msg (ok (some lay)) =
    if leb msg.param_sz max_net_msg
    then insert_loop (msg.param_sz + 1) msg lay.header 0 (cleaned msg.param_sz stack) 0
    else some (raised undefined)

-- `handle_insert`: the buffer that it shows where it returns 0, `none` where it returns -1.
unfoldable pub handle_insert :
    Bytes → TblNm2DataBuff ArrayLayout → NetworkMsg → Option (Outcome (Option Bytes))
handle_insert stack t msg = insert_into stack msg (find_layout t msg)
