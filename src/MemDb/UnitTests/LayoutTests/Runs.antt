-- ===== src/MemDb/UnitTests/LayoutTests/Runs.antt =====
-- The table that the tests of the array layout work on, with its one row.
use lab.Prelude.{
  ℕ, suc, ◌+◌, ◌*◌, ◌^◌, ◌≤◌, ◌<◌, ◌≡◌, refl, sym, ap, ◌∙◌, ◌==◌, ltb, List, [], ◌∷◌, ◌++◌, All,
  Bytes, lt→ltb, length-append, length-take, take-append_left, append-nil, subst, length, take,
  arith,
}
use lab.MemDb.Outcome.{ok, assert, Holds, Holds-any}
use lab.MemDb.Stack
use lab.MemDb.Stack.{Stack, max_obj_num}
use lab.MemDb.BitMap.{BitMap, bit_on, mask}
use lab.MemDb.Layouts.Memory.{read}
use lab.MemDb.Layouts.Memory.Splice.{splice, length-splice, read-take}
use lab.MemDb.Layouts.Header.{ColumnDef, LayoutHeader, success, max_col_num, add_column_def}
use lab.MemDb.Layouts.ArrayLayout.{
  ArrayLayout, construct, add_entry, total_size, push_slots, copy_columns,
}
use lab.MemDb.Layouts.ArrayLayout.Rows.{
  IsValid, add_entry-Adds, pop_slot, row_written, add_entry_runs,
}
use lab.MemDb.Layouts.ArrayLayout.Construct.{construct-IsValid, below}
use lab.MemDb.Layouts.ArrayLayout.Search.{row_at}
use lab.MemDb.UnitTests.LayoutTests.{UserInp, MyType, row_of, new_column_def, prepare_lyout_hdr}

-- The header on the stack, of which the test does not set the size: it is 0.
abbrev pub blank : ColumnDef → ColumnDef → ColumnDef → List ColumnDef → LayoutHeader
blank x y z more = record { sz = 0; columns = x ∷ (y ∷ (z ∷ more)) }

abbrev pub three : ColumnDef → ColumnDef → ColumnDef → List ColumnDef → LayoutHeader
three a b c more = record { sz = 3; columns = a ∷ (b ∷ (c ∷ more)) }

pub prepared :
    (long_sz : ℕ) (a b c : UserInp) (x y z : ColumnDef) (more : List ColumnDef)
    → prepare_lyout_hdr long_sz (a ∷ (b ∷ (c ∷ []))) (blank x y z more)
      ≡ ok (
          three
            (new_column_def long_sz a)
            (new_column_def long_sz b)
            (new_column_def long_sz c)
            more)
unfolding prepare_lyout_hdr add_column_def
prepared long_sz a b c x y z more =
    let n = suc (suc (suc (length more))) in
    let first = lt→ltb 0 n (omega arith) in
    let second = lt→ltb (0 + 1) n (omega arith) in
    let third = lt→ltb (0 + 1 + 1) n (omega arith) in rw (first, second, third) refl

total_size_three :
    (cs : List ColumnDef) (a b c : ColumnDef)
    → take 3 cs ≡ a ∷ (b ∷ (c ∷ []))
    → total_size 3 cs ≡ a.typsz + (b.typsz + (c.typsz + 0))
total_size_three [] a b c e = cc
total_size_three (x ∷ []) a b c e = cc
total_size_three (x ∷ y ∷ []) a b c e = cc
total_size_three (x ∷ y ∷ z ∷ cs) a b c e = cc

-- The row of the tests: two numbers of four bytes and one of eight.
pub record IsRow (t : MyType) : Type 0 where
  pub i_size : length t.i ≡ 4
  pub f_size : length t.f ≡ 4
  pub d_size : length t.d ≡ 8
  pub f_bytes : All (λ b. b < 256) t.f
  pub d_bytes : All (λ b. b < 256) t.d

pub length-row_of : (t : MyType) → IsRow t → length (row_of t) ≡ 16
length-row_of t r =
    omega
      (arith, length-append t.i (t.f ++ t.d), length-append t.f t.d, r.i_size, r.f_size, r.d_size)

pub take_whole : (xs : Bytes) → take (length xs) xs ≡ xs
take_whole xs = ap (take (length xs)) (sym (append-nil xs)) ∙ take-append_left xs []

abbrev pub Parts : LayoutHeader → ArrayLayout → ArrayLayout → Type 0
Parts head chunk l = (l.rows ≡ chunk.rows) × (l.tot_typ_sz ≡ total_size head.sz head.columns)

pub construct-Parts :
    (head : LayoutHeader) (chunk : ArrayLayout) → Holds (Parts head chunk) (construct head chunk)
unfolding construct
construct-Parts head chunk =
    let P = Parts head chunk in
    Holds-any P (assert (ltb head.sz max_col_num)) _ λ u.
      Holds-any P (Stack.init chunk.stack max_obj_num) _ λ s.
        Holds-any P (push_slots max_obj_num 0 s) _ λ s'.
          Holds-any P (assert (Stack.get_capacity s' == Stack.get_sz s')) _ λ u'.
            Holds-any P (copy_columns head.sz 0 head.columns chunk.header.columns) _
              λ columns. (refl, refl)

mark_31 :
    (over : ℕ → ℕ) (b : BitMap) → b.bits ≡ 0 → bit_on over b 31 ≡ ok (record { bits = 2 ^ 30 })
unfolding bit_on mask
mark_31 over b e = rw e refl

ok_injective : {A : Type 0} (a b : A) → ok a ≡ ok b → a ≡ b
ok_injective a b e = cc

row_standing :
    (l : ArrayLayout) (dat : Bytes)
    → IsValid l
    → length dat ≡ l.tot_typ_sz
    → read l.rows (31 * l.tot_typ_sz) l.tot_typ_sz ≡ ok (take l.tot_typ_sz dat)
    → row_at l 31 ≡ dat
row_standing l dat h full stands =
    ok_injective (row_at l 31) (take l.tot_typ_sz dat)
      (sym (read-take l.rows (31 * l.tot_typ_sz) l.tot_typ_sz (omega (arith, h.room))) ∙ stands)
    ∙ rw (sym full) (take_whole dat)

module _ (over : ℕ → ℕ) (head : LayoutHeader) (chunk : ArrayLayout) (t : MyType) (few : head.sz ≡ 3)
    (there : 3 ≤ length head.columns) (total : total_size 3 head.columns ≡ 16)
    (columns : 3 ≤ length chunk.header.columns) (slots_room : 32 ≤ length chunk.stack.pstack)
    (rows_room : 512 ≤ length chunk.rows) (r : IsRow t) where
  -- The table with its row, which stands in the slot 31.
  pub table_with_row :
      (new l : ArrayLayout) × (construct head chunk ≡ ok new)
      × (add_entry over new (row_of t) ≡ ok (success, l))
      × IsValid l
      × (l.tot_typ_sz ≡ 16)
      × (l.bit_map ≡ record { bits = 2 ^ 30 })
      × (row_at l 31 ≡ row_of t)
      × (length l.rows ≡ length chunk.rows)
  table_with_row =
      let (new, built, valid, free, none_on, size, copied) =
        construct-IsValid head chunk (omega arith) (omega arith) (omega arith) slots_room
          (rw (few, total) rows_room) in
      let parts = subst (Holds (Parts head chunk)) built (construct-Parts head chunk) in
      let tot : new.tot_typ_sz ≡ 16 = parts.1 ∙ rw few total in
      let dat = row_of t in
      let full : length dat ≡ 16 = length-row_of t r in
      let (s, popped, s-valid, bound, left) = pop_slot new 31 (below 31) valid free in
      let rows = splice new.rows (31 * new.tot_typ_sz) (take new.tot_typ_sz dat) in
      let l : ArrayLayout = record new {
        stack = s;
        bit_map = record { bits = 2 ^ 30 };
        rows = rows;
      } in
      let runs : add_entry over new dat ≡ ok (success, l) =
        add_entry_runs over new dat 31 s (record { bits = 2 ^ 30 }) rows valid.bound popped
          (mark_31 over new.bit_map none_on)
          (row_written new dat 31 valid (omega arith) (omega arith)) in
      let (l', runs', adds) =
        add_entry-Adds over new dat 31 (below 31) 1 valid free (omega arith) (omega arith)
          (omega arith) (omega arith) (omega arith) (omega arith) in
      let same : l' ≡ l = cc (runs, runs') in
      let l-valid : IsValid l = subst IsValid same adds.0 in
      let stands : read l.rows (31 * l.tot_typ_sz) l.tot_typ_sz ≡ ok (take new.tot_typ_sz dat) =
        subst (λ k. read k.rows (31 * k.tot_typ_sz) k.tot_typ_sz ≡ ok (take new.tot_typ_sz dat))
          same adds.4 in
      let fits : 31 * new.tot_typ_sz + length (take new.tot_typ_sz dat) ≤ length new.rows =
        omega (arith, valid.room, length-take new.tot_typ_sz dat) in
      (
        new,
        l,
        built,
        runs,
        l-valid,
        tot,
        refl,
        row_standing l dat l-valid (full ∙ sym tot) stands,
        length-splice new.rows (31 * new.tot_typ_sz) (take new.tot_typ_sz dat) fits
            ∙ ap length parts.0,
      )
