-- ===== src/MemDb/Layouts/Header/Columns.antt =====
-- The columns of a header as a table from names to definitions, the first one of a name counting.
use lab.Prelude.{
  ℕ, zero, suc, ◌+◌, ◌<◌, ◌≡◌, refl, if◌then◌else◌, List, [], ◌∷◌, length, set, arith, Bytes,
  Bool-cases, inl, inr, some, none, Option, lt→ltb, ==_of_ne,
}
use lab.MemDb.Outcome.{ok, ◌>>=◌}
use lab.MemDb.Layouts.Memory.{bytes_eq}
use lab.MemDb.Layouts.Header.{
  ColumnDef, LayoutHeader, find_def, get_def_by_name, add_column_def, success, max_col_num,
}

-- A table with one more definition, which counts where its name is new.
abbrev pub or_new : ColumnDef → Bytes → Option ColumnDef → Option ColumnDef
or_new d name (some c) = some c
or_new d name none = if bytes_eq name d.name then some d else none

find_def-set :
    (n : ℕ) (cs : List ColumnDef) (d : ColumnDef) (name : Bytes)
    → n < length cs
    → find_def (suc n) (set cs n d) name ≡ (find_def n cs name >>= λ r. ok (or_new d name r))
find_def-set n [] d name h = absurd (omega arith)
find_def-set zero (c ∷ cs) d name h = elim (Bool-cases (bytes_eq name d.name)) [
  | inl y ↦ rw y
  | inr n ↦ rw n
]
find_def-set (suc n) (c ∷ cs) d name h = elim (Bool-cases (bytes_eq name c.name)) [
  | inl y ↦ rw y
  | inr other ↦ rw other (find_def-set n cs d name (omega arith))
]

-- Adding a column to a header that has columns and room for one more succeeds, and from then on a
-- name is looked up among the columns from before, and where none of them has it, in the new one.
pub add_column_def-lookup :
    (h : LayoutHeader) (d : ColumnDef) (name : Bytes)
    → 0 < h.sz
    → h.sz < max_col_num
    → h.sz < length h.columns
    → (h' : LayoutHeader) × (add_column_def h d ≡ ok (success, h'))
      × (h'.sz ≡ h.sz + 1)
      × (get_def_by_name h' name ≡ (get_def_by_name h name >>= λ r. ok (or_new d name r)))
unfolding add_column_def get_def_by_name
add_column_def-lookup h d name some_there room there =
    let h' : LayoutHeader = record { sz = h.sz + 1; columns = set h.columns h.sz d } in
    let not_full = ==_of_ne max_col_num h.sz (λ e. omega arith) in
    let inside = lt→ltb h.sz (length h.columns) there in
    let any = lt→ltb 0 h.sz some_there in
    let any' = lt→ltb 0 (h.sz + 1) (omega arith) in
    let next : h.sz + 1 ≡ suc h.sz = omega arith in
    (
      h',
      rw (not_full, inside),
      refl,
      rw (any, any', next) (find_def-set h.sz h.columns d name there),
    )
