-- ===== src/MemDb/Flow/Create.antt =====
-- mem_db/server/flow/src/flow_manager.cpp: the loop of `handle_create`, which reads the columns of a
-- new table from a message, each a name and the name of a type.
pub mod Columns
pub mod Termination
use lab.Prelude.{
  ℕ, zero, suc, ◌+◌, ◌%◌, ◌^◌, ◌==◌, ltb, if◌then◌else◌, Bool, true, false, List, [], ◌∷◌, ◌++◌,
  Option, none, some, Bytes, codes, drop, length,
}
use lab.MemDb.Outcome.{Outcome, ok, raised, undefined, ◌>>=◌}
use lab.MemDb.Layouts.Header.{max_col_num}
use lab.MemDb.Flow.{NetworkMsg, read_number, read_name, prepend}

-- `INT`, `LONG` and the others of `ColTyp`.
pub data ColTyp : Type 0 where
  int long llong float double vcr : ColTyp

-- `0 == memcmp(a, b, n)`, which looks no further than the first difference: undefined where it
-- leaves one of the arrays.
abbrev pub mem_eq : ℕ → Bytes → Bytes → Outcome Bool
mem_eq zero a b = ok true
mem_eq (suc n) [] b = raised undefined
mem_eq (suc n) (c ∷ a) [] = raised undefined
mem_eq (suc n) (c ∷ a) (d ∷ b) = let rest = mem_eq n a b in if c == d then rest else ok false

-- The name of a type in the code, and what the code takes its size to be.
abbrev pub type_name : ColTyp → Bytes
type_name int = codes "int"
type_name long = codes "long"
type_name llong = codes "long long"
type_name float = codes "float"
type_name double = codes "double"
type_name vcr = codes "varc"

-- A column as the loop fills it.
pub record Column : Type 0 where
  pub name : Bytes
  pub typsz : ℕ
  pub typ : ColTyp

-- `sizeof(long)` is 4 or 8.
module _ (long_sz : ℕ) where
  abbrev pub type_size : ColTyp → ℕ
  type_size int = 4
  type_size long = long_sz
  type_size llong = 8
  type_size float = 4
  type_size double = 8
  type_size vcr = 4

  -- The `else if`s: the first of the types whose name begins with the `sz` bytes.
  abbrev pub first_type : List ColTyp → Bytes → ℕ → Outcome (Option (ℕ × ColTyp))
  first_type [] ty_nm sz = ok none
  first_type (t ∷ ts) ty_nm sz = do
    let rest = first_type ts ty_nm sz
    same ← mem_eq sz ty_nm (type_name t ++ 0 ∷ [])
    if same then ok (some (type_size t, t)) else rest

  -- `none` is `(unsigned int)-1`.
  unfoldable pub get_typ_sz_by_str : Bytes → ℕ → Outcome (Option (ℕ × ColTyp))
  get_typ_sz_by_str ty_nm sz = first_type (int ∷ float ∷ long ∷ double ∷ llong ∷ vcr ∷ []) ty_nm sz

  -- The second half of a round: the type's name, of which the size is an `unsigned short`.
  abbrev pub read_type : Bytes → ℕ → Outcome (Option ((ℕ × ColTyp) × ℕ))
  read_type mem pos = do
    per_str_sz ← read_number mem pos 4
    if per_str_sz == 0 then ok none else (do
      t ← get_typ_sz_by_str (drop (pos + 4) mem) (per_str_sz % 2 ^ 16)
      elim t [ none ↦ ok none | some s ↦ ok (some (s, 4 + per_str_sz)) ])

  -- One round: the column and the bytes it took, `none` for `return -1`.
  abbrev pub read_column : Bytes → ℕ → ℕ → Outcome (Option (Column × ℕ))
  read_column mem pos idx = do
    per_str_sz ← read_number mem pos 4
    if per_str_sz == 0 then ok none else (do
      name ← read_name mem (pos + 4) per_str_sz idx
      t ← read_type mem (pos + (4 + per_str_sz))
      elim t [
        | none ↦ ok none
        | some ((size, typ), n) ↦
            ok (some (record { name = name; typsz = size; typ = typ }, 4 + per_str_sz + n))
      ])

  -- The loop; at its end the number of columns is compared with the room there was for them.
  unfoldable pub read_columns : ℕ → NetworkMsg → ℕ → ℕ → Option (Outcome (Option (List Column)))
  read_columns zero msg acc idx = none
  read_columns (suc fuel) msg acc idx =
      if ltb acc msg.param_sz
      then (elim (read_column msg.buff (msg.lay_nm_sz + acc) idx) [
        | raised e ↦ some (raised e)
        | ok none ↦ some (ok none)
        | ok (some (c, n)) ↦ prepend c (read_columns fuel msg (acc + n) (idx + 1))
      ])
      else if ltb max_col_num idx
      then some (ok none)
      else some (ok (some []))
