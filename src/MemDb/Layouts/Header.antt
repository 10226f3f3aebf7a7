-- ===== src/MemDb/Layouts/Header.antt =====
-- The header of a layout: its columns, which are found by name, and the comparisons over them. The
-- name of a column is the `sz` bytes in use of its buffer.
pub mod Columns
use lab.Prelude.{
  ℕ, zero, suc, ◌+◌, ◌==◌, ltb, leb, if◌then◌else◌, List, [], ◌∷◌, Option, none, some, Bytes, map,
  length,
}
use lab.MemDb.Outcome.{Outcome, ok, raised, undefined, ◌>>=◌, ◌>>◌, assert}
use lab.MemDb.Stack.{put}
use lab.MemDb.Layouts.Memory.{bytes_eq}

abbrev pub max_col_num : ℕ
max_col_num = 20

pub record ColumnDef : Type 0 where
  pub name : Bytes
  pub loc : ℕ
  pub typsz : ℕ

-- `columns` has `max_col_num` elements, of which the first `sz` are in use.
pub record LayoutHeader : Type 0 where
  pub sz : ℕ
  pub columns : List ColumnDef

-- What an `int` function returns: 0, or -1.
pub data Status : Type 0 where
  success failure : Status

-- The loop of `get_def_by_name`, with `n` rounds left.
abbrev pub find_def : ℕ → List ColumnDef → Bytes → Outcome (Option ColumnDef)
find_def zero cs name = ok none
find_def (suc n) [] name = raised undefined
find_def (suc n) (c ∷ cs) name = if bytes_eq name c.name then ok (some c) else find_def n cs name

unfoldable pub get_def_by_name : LayoutHeader → Bytes → Outcome (Option ColumnDef)
get_def_by_name h name = do assert (ltb 0 h.sz); find_def h.sz h.columns name

unfoldable pub add_column_def : LayoutHeader → ColumnDef → Outcome (Status × LayoutHeader)
add_column_def h d = if max_col_num == h.sz then ok (failure, h) else do
  columns ← put h.columns h.sz d
  ok (success, record { sz = h.sz + 1; columns = columns })

-- `colDef` and `pVals` are the first `sz` of their elements.
pub record Comparable : Type 0 where
  pub sz : ℕ
  pub col_defs : List (Option ColumnDef)
  pub p_vals : List ℕ

abbrev find_defs : LayoutHeader → List Bytes → Outcome (List (Option ColumnDef))
find_defs h [] = ok []
find_defs h (name ∷ names) = do d ← get_def_by_name h name; ds ← find_defs h names; ok (d ∷ ds)

-- The constructor of `Comparable`, from names and values: as many of each.
unfoldable pub comparable : List (Bytes × ℕ) → LayoutHeader → Outcome Comparable
comparable pairs h = do
  assert (ltb 0 (length pairs))
  assert (leb (length pairs) max_col_num)
  ds ← find_defs h (map (λ p. p.0) pairs)
  ok (record { sz = length pairs; col_defs = ds; p_vals = map (λ p. p.1) pairs })
