-- ===== src/MemDb/Flow/Create/Columns.antt =====
-- The columns of a new table are read back as they were written.
use lab.Prelude.{
  le_value, le_bytes, length-le_bytes, le_value-le_bytes, ℕ, zero, suc, ◌+◌, ◌%◌, ◌^◌, ◌≤◌, ◌<◌,
  ◌≡◌, refl, ltb, leb, true, List, [], ◌∷◌, ◌++◌, some, Bytes, length, drop, arith, ap, sym, ◌∙◌,
  All, length-append, append_assoc, drop-append_left, lt→ltb, le→ltb, ==_of_ne, map,
}
use lab.MemDb.Outcome.{ok}
use lab.MemDb.Layouts.Memory.{read}
use lab.MemDb.Layouts.Header.{max_col_num}
use lab.MemDb.Layouts.ArrayLayout.{max_buff_sz}
use lab.MemDb.Flow.{cr, NetworkMsg, prepend}
use lab.MemDb.Flow.Params.{read-middle, at_name, at_value}
use lab.MemDb.Flow.Create.{
  ColTyp, int, long, llong, float, double, vcr, type_name, type_size, Column, get_typ_sz_by_str,
  read_type, read_column, read_columns,
}

-- A column that fits a message: its name is not empty and fits its buffer.
pub record IsNamed (c : Bytes × ColTyp) : Type 0 where
  pub named : 1 ≤ length c.0
  pub fits : length c.0 ≤ max_buff_sz

-- The bytes of a type's name, of a column, and of all of them.
abbrev pub type_bytes : ColTyp → Bytes
type_bytes t = le_bytes 4 (length (type_name t)) ++ type_name t

abbrev pub column_bytes : Bytes × ColTyp → Bytes
column_bytes c = le_bytes 4 (length c.0) ++ (c.0 ++ type_bytes c.1)

abbrev pub columns_bytes : List (Bytes × ColTyp) → Bytes
columns_bytes [] = []
columns_bytes (c ∷ cs) = column_bytes c ++ columns_bytes cs

name_short : (t : ColTyp) → length (type_name t) ≤ 9
name_short int = omega arith
name_short long = omega arith
name_short llong = omega arith
name_short float = omega arith
name_short double = omega arith
name_short vcr = omega arith

name_there : (t : ColTyp) → 1 ≤ length (type_name t)
name_there int = omega arith
name_there long = omega arith
name_there llong = omega arith
name_there float = omega arith
name_there double = omega arith
name_there vcr = omega arith

module _ (long_sz : ℕ) where
  -- The column that a name and a type stand for.
  abbrev pub column : Bytes × ColTyp → Column
  column c = record { name = c.0; typsz = type_size long_sz c.1; typ = c.1 }

  -- Each type is known by its name, whatever follows it: none is taken for another one whose name
  -- begins in the same way.
  get_typ_sz_by_str-name :
      (t : ColTyp) (rest : Bytes)
      → get_typ_sz_by_str long_sz (type_name t ++ rest) (length (type_name t))
        ≡ ok (some (type_size long_sz t, t))
  unfolding get_typ_sz_by_str
  get_typ_sz_by_str-name int rest = refl
  get_typ_sz_by_str-name long rest = refl
  get_typ_sz_by_str-name llong rest = refl
  get_typ_sz_by_str-name float rest = refl
  get_typ_sz_by_str-name double rest = refl
  get_typ_sz_by_str-name vcr rest = refl

  read_type_parts :
      (mem a tail : Bytes) (pos n : ℕ) (t : ColTyp)
      → read mem pos 4 ≡ ok a
      → le_value a ≡ n
      → n ≡ length (type_name t)
      → drop (pos + 4) mem ≡ type_name t ++ tail
      → read_type long_sz mem pos ≡ ok (some ((type_size long_sz t, t), 4 + n))
  read_type_parts mem a tail pos n t ra va e d =
      let some_name = ==_of_ne n 0 (λ z. omega (arith, name_there t)) in
      let small : n % 2 ^ 16 ≡ length (type_name t) = omega (arith, name_short t) in
      rw (ra, va, some_name, small, d, get_typ_sz_by_str-name t tail)
        (ap (λ k. ok (some ((type_size long_sz t, t), 4 + k))) va)

  read_column_parts :
      (mem a name : Bytes) (pos idx n : ℕ) (t : ColTyp)
      → read mem pos 4 ≡ ok a
      → le_value a ≡ length name
      → read mem (pos + 4) (length name) ≡ ok name
      → read_type long_sz mem (pos + (4 + length name)) ≡ ok (some ((type_size long_sz t, t), n))
      → 1 ≤ length name
      → length name ≤ max_buff_sz
      → idx < max_col_num
      → read_column long_sz mem pos idx ≡ ok (some (column (name, t), 4 + length name + n))
  read_column_parts mem a name pos idx n t ra va rn rt named fits room =
      let some_name = ==_of_ne (length name) 0 (λ e. omega arith) in
      let in_range = lt→ltb idx max_col_num room in
      let in_buff : leb (length name) max_buff_sz ≡ true = ground arith in
      rw (ra, va, some_name, in_range, in_buff, rn, rt)
        (ap (λ k. ok (some (column (name, t), 4 + k + n))) va)

  read_type-written :
      (pre rest : Bytes) (t : ColTyp) (pos : ℕ)
      → pos ≡ length pre
      → read_type long_sz (pre ++ (type_bytes t ++ rest)) pos
        ≡ ok (some ((type_size long_sz t, t), 4 + length (type_name t)))
  read_type-written pre rest t pos e =
      let a = le_bytes 4 (length (type_name t)) in
      let size_a = length-le_bytes 4 (length (type_name t)) in
      let form : pre ++ (type_bytes t ++ rest) ≡ (pre ++ a) ++ (type_name t ++ rest) =
        ap (λ x. pre ++ x) (append_assoc a (type_name t) rest)
        ∙ sym (append_assoc pre a (type_name t ++ rest)) in
      let here : pos + 4 ≡ length (pre ++ a) = omega (arith, length-append pre a) in
      read_type_parts (pre ++ (type_bytes t ++ rest)) a rest pos (length (type_name t)) t
        (ap (λ m. read m pos 4) (ap (λ x. pre ++ x) (append_assoc a (type_name t) rest))
          ∙ read-middle pre a (type_name t ++ rest) pos 4 e (sym size_a))
        (le_value-le_bytes 4 (length (type_name t)) (omega (arith, name_short t))) refl
        (ap (drop (pos + 4)) form
          ∙ (ap (λ n. drop n ((pre ++ a) ++ (type_name t ++ rest))) here
              ∙ drop-append_left (pre ++ a) (type_name t ++ rest)))

  read_column-written :
      (pre rest : Bytes) (c : Bytes × ColTyp) (pos idx : ℕ)
      → IsNamed c
      → pos ≡ length pre
      → idx < max_col_num
      → read_column long_sz (pre ++ (column_bytes c ++ rest)) pos idx
        ≡ ok (some (column c, 4 + length c.0 + (4 + length (type_name c.1))))
  read_column-written pre rest (name, t) pos idx h e room =
      let a = le_bytes 4 (length name) in
      let b = type_bytes t in
      let mem = pre ++ ((a ++ (name ++ b)) ++ rest) in
      let size_a = length-le_bytes 4 (length name) in
      read_column_parts mem a name pos idx (4 + length (type_name t)) t
        (ap (λ m. read m pos 4) (ap (λ x. pre ++ x) (append_assoc a (name ++ b) rest))
          ∙ read-middle pre a ((name ++ b) ++ rest) pos 4 e (sym size_a))
        (le_value-le_bytes 4 (length name) (omega (arith, h.fits)))
        (ap (λ m. read m (pos + 4) (length name)) (at_name pre a name b rest)
          ∙ read-middle (pre ++ a) name (b ++ rest) (pos + 4) (length name)
              (omega (arith, length-append pre a)) refl)
        (ap (λ m. read_type long_sz m (pos + (4 + length name))) (at_value pre a name b rest)
          ∙ read_type-written (pre ++ (a ++ name)) rest t (pos + (4 + length name))
              (omega (arith, length-append pre (a ++ name), length-append a name)))
        h.named h.fits room

  length-column_bytes :
      (c : Bytes × ColTyp) → length (column_bytes c) ≡ 4 + length c.0 + (4 + length (type_name c.1))
  length-column_bytes (name, t) = omega (arith, length-append name (type_bytes t))

  abbrev written : Bytes → ℕ → ℕ → NetworkMsg
  written buff lay size = record { buff = buff; lay_nm_sz = lay; param_sz = size; q_typ = cr }

  read_columns_step :
      (fuel : ℕ) (msg : NetworkMsg) (acc idx n : ℕ) (c : Column)
      → ltb acc msg.param_sz ≡ true
      → read_column long_sz msg.buff (msg.lay_nm_sz + acc) idx ≡ ok (some (c, n))
      → read_columns long_sz (suc fuel) msg acc idx
        ≡ prepend c (read_columns long_sz fuel msg (acc + n) (idx + 1))
  unfolding read_columns
  read_columns_step fuel msg acc idx n c more this = rw (more, this, read_columns)

  read_columns-from :
      (cs : List (Bytes × ColTyp)) (pre rest : Bytes) (fuel lay acc size idx : ℕ)
      → All IsNamed cs
      → length cs < fuel
      → idx + length cs ≤ max_col_num
      → lay + acc ≡ length pre
      → size ≡ acc + length (columns_bytes cs)
      → read_columns long_sz fuel (written (pre ++ (columns_bytes cs ++ rest)) lay size) acc idx
        ≡ some (ok (some (map column cs)))
  unfolding read_columns
  read_columns-from cs pre rest zero lay acc size idx all f room e n = absurd (omega arith)
  read_columns-from [] pre rest (suc fuel) lay acc size idx all f room e n =
      let done = le→ltb acc size (omega arith) in
      let few = le→ltb max_col_num idx (omega arith) in rw (done, few, read_columns)
  read_columns-from (c ∷ cs) pre rest (suc fuel) lay acc size idx all f room e n =
      let size_c = length-column_bytes c in
      let took = 4 + length c.0 + (4 + length (type_name c.1)) in
      let both = length-append (column_bytes c) (columns_bytes cs) in
      let more = lt→ltb acc size (omega (arith, both)) in
      let tail = columns_bytes cs ++ rest in
      let this = read_column-written pre tail c (lay + acc) idx all.0 e (omega arith) in
      let shift : pre ++ (column_bytes c ++ tail) ≡ (pre ++ column_bytes c) ++ tail =
        sym (append_assoc pre (column_bytes c) tail) in
      let next =
        read_columns-from cs (pre ++ column_bytes c) rest fuel lay (acc + took) size (idx + 1) all.1
          (omega arith) (omega arith) (omega (arith, length-append pre (column_bytes c)))
          (omega (arith, both)) in
      ap (λ b. read_columns long_sz (suc fuel) (written b lay size) acc idx)
        (ap (λ x. pre ++ x) (append_assoc (column_bytes c) (columns_bytes cs) rest))
      ∙ (read_columns_step fuel (written (pre ++ (column_bytes c ++ tail)) lay size) acc idx took
            (column c) more this
          ∙ ap (prepend (column c)) (
              ap (λ b. read_columns long_sz fuel (written b lay size) (acc + took) (idx + 1)) shift
              ∙ next))

  -- A message that describes at most 20 columns, each by a name, not empty and of at most 1024 bytes,
  -- and by the name of a type, is read as these columns, with the types' sizes, behind a table's name
  -- of any length.
  pub read_columns-written :
      (table rest : Bytes) (cs : List (Bytes × ColTyp)) (fuel : ℕ)
      → All IsNamed cs
      → length cs ≤ max_col_num
      → length cs < fuel
      → read_columns long_sz fuel
          (record {
            buff = table ++ (columns_bytes cs ++ rest);
            lay_nm_sz = length table;
            param_sz = length (columns_bytes cs);
            q_typ = cr;
          })
          0
          0
        ≡ some (ok (some (map column cs)))
  read_columns-written table rest cs fuel all room f =
      read_columns-from cs table rest fuel (length table) 0 (length (columns_bytes cs)) 0 all f
        (omega arith) (omega arith) (omega arith)
