-- ===== src/MemDb/Flow.antt =====
-- mem_db/server/flow: what the flow manager does with a network message before it reaches a table.
-- Numbers in a message are little-endian.
pub mod Params
pub mod Rounds
pub mod Termination
pub mod Tables
pub mod Create
pub mod Insert
pub mod Registry
pub mod Select
pub mod Server
mod Tests
use lab.Prelude.{
  le_value, ℕ, zero, suc, ◌+◌, ◌*◌, ◌-◌, ◌%◌, ◌^◌, ◌==◌, ltb, leb, ◌&&◌, if◌then◌else◌, List, [],
  ◌∷◌, Option, none, some, Bytes, take,
}
use lab.MemDb.Outcome.{Outcome, ok, raised, undefined, ◌>>=◌, at}
use lab.MemDb.BitMap.{u32_mod}
use lab.MemDb.Layouts.Memory.{read, bytes_eq}
use lab.MemDb.Layouts.Header.{max_col_num}
use lab.MemDb.Layouts.ArrayLayout.{max_buff_sz}

-- `QueryTyp`; `other` is a number that names no query.
pub data QueryTyp : Type 0 where
  cr inst upd sel : QueryTyp
  other : ℕ → QueryTyp

-- The name of a table is the first `lay_nm_sz` bytes, and the parameters are the `param_sz` bytes
-- behind it.
pub record NetworkMsg : Type 0 where
  pub buff : Bytes
  pub lay_nm_sz : ℕ
  pub param_sz : ℕ
  pub q_typ : QueryTyp

-- `tb_nm` and `data` have 256 elements, with any contents where nothing was put.
pub record TblNm2DataBuff {ℓ} (A : Type ℓ) : Type ℓ where
  pub tb_nm : List Bytes
  pub data_at : List A
  pub indx : ℕ

-- The loop of `findTbIdx`, with `n` rounds left. `none` is -1.
abbrev pub find_idx : ℕ → ℕ → List Bytes → Bytes → Outcome (Option ℕ)
find_idx zero i names nm = ok none
find_idx (suc n) i [] nm = raised undefined
find_idx (suc n) i (c ∷ names) nm =
    let rest = find_idx n (i + 1) names nm in if bytes_eq nm c then ok (some i) else rest

-- `i<=indx`: one name more than there are tables.
unfoldable pub find_tb_idx {ℓ} : {A : Type ℓ} → TblNm2DataBuff A → Bytes → Outcome (Option ℕ)
find_tb_idx t nm = find_idx (t.indx + 1) 0 t.tb_nm nm

-- The result as an `unsigned short`.
abbrev pub to_u16 : Option ℕ → ℕ
to_u16 none = 2 ^ 16 - 1
to_u16 (some i) = i % 2 ^ 16

-- How `handle_select` and `handle_insert` find the table: `none` is `return -1`. An `unsigned short`
-- is compared with -1 as an `int`, whose pattern is that of 32 ones.
unfoldable pub find_layout {ℓ} : {A : Type ℓ} → TblNm2DataBuff A → NetworkMsg → Outcome (Option A)
find_layout t msg = do
  r ← find_tb_idx t (take (msg.lay_nm_sz % 2 ^ 16) msg.buff)
  let idx = to_u16 r
  if idx == u32_mod - 1 then ok none else (do a ← at t.data_at idx; ok (some a))

abbrev pub read_number : Bytes → ℕ → ℕ → Outcome ℕ
read_number mem pos width = do bytes ← read mem pos width; ok (le_value bytes)

-- `memcpy(cols[idx].buff, pmsg, perStrSz)`
abbrev pub read_name : Bytes → ℕ → ℕ → ℕ → Outcome Bytes
read_name mem pos per_str_sz idx =
    if ltb idx max_col_num && leb per_str_sz max_buff_sz
    then read mem pos per_str_sz
    else raised undefined

-- One round of the loop that reads names and values: the pair and the bytes it took, `none` for
-- `return -1`.
abbrev pub read_pair : Bytes → ℕ → ℕ → Outcome (Option ((Bytes × ℕ) × ℕ))
read_pair mem pos idx = do
  per_str_sz ← read_number mem pos 4
  if per_str_sz == 0 then ok none else (do
    name ← read_name mem (pos + 4) per_str_sz idx
    val ← read_number mem (pos + 4 + per_str_sz) 8
    ok (some ((name, val), 4 + per_str_sz + 8)))

abbrev pub prepend {ℓ} :
    {A : Type ℓ} → A → Option (Outcome (Option (List A))) → Option (Outcome (Option (List A)))
prepend a (some (ok (some rest))) = some (ok (some (a ∷ rest)))
prepend a (some (ok none)) = some (ok none)
prepend a (some (raised e)) = some (raised e)
prepend a none = none

-- The loop, with `acc` for `accStrSz`: it is below the length of the buffer while no read is out of
-- range, and does not wrap. The outer `none` means that the fuel ran out.
unfoldable pub read_params : ℕ → NetworkMsg → ℕ → ℕ → Option (Outcome (Option (List (Bytes × ℕ))))
read_params zero msg acc idx = none
read_params (suc fuel) msg acc idx =
    if ltb acc msg.param_sz
    then (elim (read_pair msg.buff (msg.lay_nm_sz + acc) idx) [
      | raised e ↦ some (raised e)
      | ok none ↦ some (ok none)
      | ok (some (p, n)) ↦ prepend p (read_params fuel msg (acc + n) (idx + 1))
    ])
    else some (ok (some []))
