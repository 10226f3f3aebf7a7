-- ===== src/MemDb/UnitTests/LayoutTests/Finding.antt =====
-- What the tests of the array layout find in the table with one row.
use lab.Prelude.{
  ℕ, zero, suc, ◌+◌, ◌-◌, ◌*◌, ◌^◌, ◌≤◌, ◌<◌, ◌≡◌, sym, ap, ◌∙◌, ◌==◌, true, false, List, [], ◌∷◌,
  ◌++◌, All, Bytes, length, take, drop, le_value, le_bytes, le_bytes-le_value, arith,
  take-append_left, drop-append_left, length-append, length-take, Bool-cases, inl, inr, leb,
}
use lab.Prelude.Bits.{bit-pow}
use lab.MemDb.Outcome.{ok}
use lab.MemDb.BitMap.{is_on}
use lab.MemDb.BitMap.Members.{is_on-has}
use lab.MemDb.Layouts.Memory.{bytes_eq_refl}
use lab.MemDb.Layouts.Memory.Splice.{drop-drop, take-take_le, drop-take}
use lab.MemDb.Layouts.Header.{ColumnDef}
use lab.MemDb.Layouts.ArrayLayout.{ArrayLayout}
use lab.MemDb.Layouts.ArrayLayout.Search.{row_at, field_at, matching}
use lab.MemDb.UnitTests.LayoutTests.{MyType, row_of}
use lab.MemDb.UnitTests.LayoutTests.Runs.{IsRow, take_whole}

-- The tests run where the bits from 33 to 48 are not taken for that of the slot 31.
abbrev pub Apart : (ℕ → ℕ) → Type 0
Apart over = (j : ℕ) → 33 ≤ j → j ≤ 48 → is_on over (record { bits = 2 ^ 30 }) j ≡ ok false

pub only_31 :
    (over : ℕ → ℕ)
    → Apart over
    → (j : ℕ) → 1 ≤ j
    → j ≤ 48
    → is_on over (record { bits = 2 ^ 30 }) j ≡ ok (j == 31)
only_31 over apart j low high = elim (Bool-cases (leb j 32)) [
  | inr beyond ↦ apart j (ground arith) high ∙ ap ok (ground arith)
  | inl inside ↦
      is_on-has over (record { bits = 2 ^ 30 }) j (record { low = low; high = ground arith })
      ∙ ap ok (rw (bit-pow 30 (j - 1)) (ground arith))
]

-- A field is a part of its row.
pub field_at-row_at :
    (l : ArrayLayout) (d : ColumnDef) (obj : ℕ)
    → d.loc + d.typsz ≤ l.tot_typ_sz
    → field_at l d obj ≡ take d.typsz (drop d.loc (row_at l obj))
field_at-row_at l d obj h =
    let rest = drop (obj * l.tot_typ_sz) l.rows in
    ap (take d.typsz) (sym (drop-drop d.loc (obj * l.tot_typ_sz) l.rows))
    ∙ (sym (drop-take d.loc d.typsz rest)
        ∙ (ap (drop d.loc) (sym (take-take_le (d.loc + d.typsz) l.tot_typ_sz rest h))
            ∙ drop-take d.loc d.typsz (row_at l obj)))

All-take {ℓ} : (P : ℕ → Type ℓ) (n : ℕ) (xs : List ℕ) → All P xs → All P (take n xs)
All-take P zero xs h = tt
All-take P (suc n) [] h = tt
All-take P (suc n) (x ∷ xs) h = (h.0, All-take P n xs h.1)

All-append {ℓ} : (P : ℕ → Type ℓ) (xs ys : List ℕ) → All P xs → All P ys → All P (xs ++ ys)
All-append P [] ys h k = k
All-append P (x ∷ xs) ys h k = (h.0, All-append P xs ys h.1 k)

module _ (t : MyType) (r : IsRow t) where
  -- The three fields of the row, by their places.
  pub i_part : take 4 (drop 0 (row_of t)) ≡ t.i
  i_part = ap (λ n. take n (row_of t)) (sym r.i_size) ∙ take-append_left t.i (t.f ++ t.d)

  pub f_part : take 4 (drop 4 (row_of t)) ≡ t.f
  f_part =
      ap (λ n. take 4 (drop n (row_of t))) (sym r.i_size)
      ∙ (ap (take 4) (drop-append_left t.i (t.f ++ t.d))
          ∙ (ap (λ n. take n (t.f ++ t.d)) (sym r.f_size) ∙ take-append_left t.f t.d))

  pub d_part : take 8 (drop 8 (row_of t)) ≡ t.d
  d_part =
      ap (take 8) (sym (drop-drop 4 4 (row_of t)))
      ∙ (ap (λ n. take 8 (drop 4 (drop n (row_of t)))) (sym r.i_size)
          ∙ (ap (λ xs. take 8 (drop 4 xs)) (drop-append_left t.i (t.f ++ t.d))
              ∙ (ap (λ n. take 8 (drop n (t.f ++ t.d))) (sym r.f_size)
                  ∙ (ap (take 8) (drop-append_left t.f t.d)
                      ∙ (ap (λ n. take n t.d) (sym r.d_size) ∙ take_whole t.d)))))

  -- What a comparison reads at `f` and at `d` has the bytes of these in front.
  f_value : take 4 (le_bytes 8 (le_value (t.f ++ take 4 t.d))) ≡ t.f
  f_value =
      let bytes = t.f ++ take 4 t.d in
      let size : length bytes ≡ 8 =
        omega (arith, length-append t.f (take 4 t.d), length-take 4 t.d, r.f_size, r.d_size) in
      ap (λ n. take 4 (le_bytes n (le_value bytes))) (sym size)
      ∙ (ap (take 4) (
            le_bytes-le_value bytes (
              All-append (λ b. b < 256) t.f (take 4 t.d) r.f_bytes
                (All-take (λ b. b < 256) 4 t.d r.d_bytes)))
          ∙ (ap (λ n. take n bytes) (sym r.f_size) ∙ take-append_left t.f (take 4 t.d)))

  d_value : take 8 (le_bytes 8 (le_value t.d)) ≡ t.d
  d_value =
      ap (λ n. take 8 (le_bytes n (le_value t.d))) (sym r.d_size)
      ∙ (ap (take 8) (le_bytes-le_value t.d r.d_bytes)
          ∙ (ap (λ n. take n t.d) (sym r.d_size) ∙ take_whole t.d))

  module _ (l : ArrayLayout) (total : l.tot_typ_sz ≡ 16) (stands : row_at l 31 ≡ row_of t) where
    pub col2-matching :
        (name : Bytes)
        → matching l (record { name = name; loc = 4; typsz = 4 }) (le_value (t.f ++ take 4 t.d)) 31
          ≡ true
    col2-matching name =
        let d : ColumnDef = record { name = name; loc = 4; typsz = 4 } in
        let field : field_at l d 31 ≡ t.f =
          field_at-row_at l d 31 (omega arith)
          ∙ (ap (λ row. take 4 (drop 4 row)) stands ∙ f_part) in
        rw (f_value, field) (bytes_eq_refl t.f)

    pub col3-matching :
        (name : Bytes)
        → matching l (record { name = name; loc = 8; typsz = 8 }) (le_value t.d) 31 ≡ true
    col3-matching name =
        let d : ColumnDef = record { name = name; loc = 8; typsz = 8 } in
        let field : field_at l d 31 ≡ t.d =
          field_at-row_at l d 31 (omega arith)
          ∙ (ap (λ row. take 8 (drop 8 row)) stands ∙ d_part) in
        rw (d_value, field) (bytes_eq_refl t.d)
