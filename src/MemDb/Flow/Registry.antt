-- ===== src/MemDb/Flow/Registry.antt =====
-- mem_db/server/flow/src/flow_manager.cpp: `handle_create`, from the message to the registry of
-- tables. The second registry, of the places of the tables in the shared memory, is filled alike and
-- read nowhere.
pub mod Lookup
use lab.Prelude.{
  ℕ, ◌+◌, leb, if◌then◌else◌, List, [], ◌∷◌, Option, none, some, Bytes, length, Bool, true, false,
}
use lab.MemDb.Outcome.{Outcome, ok, raised, undefined, ◌>>=◌}
use lab.MemDb.Stack.{put}
use lab.MemDb.Layouts.Memory.{read}
use lab.MemDb.Layouts.Header.{ColumnDef, LayoutHeader}
use lab.MemDb.Layouts.ArrayLayout.{ArrayLayout, construct, max_buff_sz}
use lab.MemDb.Flow.{NetworkMsg, TblNm2DataBuff}
use lab.MemDb.Flow.Create.{Column, read_columns}

-- `init`
abbrev pub init_registry {ℓ} : {A : Type ℓ} → TblNm2DataBuff A → TblNm2DataBuff A
init_registry t = record t { indx = 0 }

-- `memcpy` of the name to its buffer.
abbrev pub table_name : NetworkMsg → Outcome Bytes
table_name msg =
    if leb msg.lay_nm_sz max_buff_sz then read msg.buff 0 msg.lay_nm_sz else raised undefined

-- A table is registered under its name.
unfoldable pub register {ℓ} :
    {A : Type ℓ} → TblNm2DataBuff A → NetworkMsg → A → Outcome (TblNm2DataBuff A)
register t msg lay = do
  name ← table_name msg
  names ← put t.tb_nm t.indx name
  tables ← put t.data_at t.indx lay
  ok (record { tb_nm = names; data_at = tables; indx = t.indx + 1 })

-- A column that is written to an element of the header on the stack, of which `loc` is not set.
abbrev pub column_def : ColumnDef → Column → ColumnDef
column_def d c = record d { name = c.name; typsz = c.typsz }

abbrev pub written_columns : List ColumnDef → List Column → List ColumnDef
written_columns stack [] = stack
written_columns [] (c ∷ columns) = []
written_columns (d ∷ stack) (c ∷ columns) = column_def d c ∷ written_columns stack columns

-- The header, from what the stack held of its columns.
abbrev pub header_of : List ColumnDef → List Column → LayoutHeader
header_of stack columns = record { sz = length columns; columns = written_columns stack columns }

-- What stands in use after the columns were read, and whether 0 is returned: -1 leaves the new
-- registry as it was made.
abbrev pub create_from :
    TblNm2DataBuff ArrayLayout
    → List ColumnDef
    → ArrayLayout
    → NetworkMsg
    → Option (Outcome (Option (List Column)))
    → Option (Outcome (Bool × TblNm2DataBuff ArrayLayout))
create_from made stack chunk msg none = none
create_from made stack chunk msg (some (raised e)) = some (raised e)
create_from made stack chunk msg (some (ok none)) = some (ok (false, made))
create_from made stack chunk msg (some (ok (some columns))) =
    some
      (do lay ← construct (header_of stack columns) chunk; t ← register made msg lay; ok (true, t))

-- `handle_create`, with the memory of the new registry, of the header's columns on the stack, and of
-- the table's chunk: whether 0 is returned, and the registry that is in use from then on. The one in
-- use before is dropped.
unfoldable pub handle_create :
    ℕ
    → TblNm2DataBuff ArrayLayout
    → List ColumnDef
    → ArrayLayout
    → NetworkMsg
    → Option (Outcome (Bool × TblNm2DataBuff ArrayLayout))
handle_create long_sz fresh stack chunk msg =
    create_from (init_registry fresh) stack chunk msg
      (read_columns long_sz (msg.param_sz + 1) msg 0 0)
