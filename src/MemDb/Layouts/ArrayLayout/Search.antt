-- ===== src/MemDb/Layouts/ArrayLayout/Search.antt =====
-- `findEntry` and `delEntry` for a comparison of one column.
use native.Mathlib.Nat.{suc-mul, mul-le-mul_right}
use lab.Prelude.{
  le_bytes, length-le_bytes, ℕ, zero, suc, ◌+◌, ◌*◌, ◌-◌, ◌≤◌, ◌<◌, ◌≡◌, refl, ◌==◌, leb,
  length-take, Bool, true, false, ◌&&◌, if◌then◌else◌, [], ◌∷◌, ◌++◌, length, take, drop, arith, ap,
  sym, ◌∙◌, Bytes, length-append, Bool-cases, inl, inr, some, append-nil, append_assoc, lt→ltb,
}
use lab.Prelude.Bits.{bit_zero}
use lab.MemDb.Outcome.{ok}
use lab.MemDb.Stack.{get_sz}
use lab.MemDb.BitMap.{is_on}
use lab.MemDb.BitMap.Members.{has, is_on-has}
use lab.MemDb.Layouts.Memory.{read, bytes_eq}
use lab.MemDb.Layouts.Memory.Splice.{read-take}
use lab.MemDb.Layouts.Header.{ColumnDef, Comparable}
use lab.MemDb.Layouts.ArrayLayout.{
  ArrayLayout, ResultBuff, max_buff_sz, match_columns, add_result, inspect, look, find_objects,
  find_entry, del_entry,
}
use lab.MemDb.Layouts.ArrayLayout.Rows.{IsValid}

-- The comparison of one column with a value.
abbrev pub single : ColumnDef → ℕ → Comparable
single d v = record { sz = 1; col_defs = some d ∷ []; p_vals = v ∷ [] }

-- The column lies in the row, and a value is as wide as `RawVal` at most.
pub record IsColumn (l : ArrayLayout) (d : ColumnDef) : Type 0 where
  pub inside : d.loc + d.typsz ≤ l.tot_typ_sz
  pub narrow : d.typsz ≤ 8
  pub fits : l.tot_typ_sz ≤ max_buff_sz

abbrev pub row_at : ArrayLayout → ℕ → Bytes
row_at l obj = take l.tot_typ_sz (drop (obj * l.tot_typ_sz) l.rows)

abbrev pub field_at : ArrayLayout → ColumnDef → ℕ → Bytes
field_at l d obj = take d.typsz (drop (obj * l.tot_typ_sz + d.loc) l.rows)

-- The row of an object has the value in the column.
abbrev pub matching : ArrayLayout → ColumnDef → ℕ → ℕ → Bool
matching l d v obj = bytes_eq (take d.typsz (le_bytes 8 v)) (field_at l d obj)

-- Of the `n` objects from `obj` on, those that are marked and match, with their rows.
abbrev pub hits : ℕ → ArrayLayout → ColumnDef → ℕ → ℕ → ResultBuff
hits zero l d v obj = []
hits (suc n) l d v obj =
    let rest = hits n l d v (obj + 1) in
    if has l.bit_map obj && matching l d v obj then (obj, row_at l obj) ∷ rest else rest

pub row_below : (t obj : ℕ) → obj < 32 → obj * t + t ≤ 32 * t
row_below t obj h =
    omega (arith, suc-mul obj t, mul-le-mul_right {m = suc obj} {n = 32} t (omega arith))

leb_of_le : (a b : ℕ) → a ≤ b → leb a b ≡ true
leb_of_le a b h = ground arith

match_single :
    (bytes field mem : Bytes) (off : ℕ) (d : ColumnDef) (v : ℕ)
    → read (le_bytes 8 v) 0 d.typsz ≡ ok bytes
    → read mem (off + d.loc) d.typsz ≡ ok field
    → match_columns 1 (some d ∷ []) (v ∷ []) mem off 1 0 ≡ ok (0, bytes_eq bytes field)
match_single bytes field mem off d v e f = elim (Bool-cases (bytes_eq bytes field)) [
  | inl y ↦ rw (e, f, y)
  | inr n ↦ rw (e, f, n)
]

module _ (l : ArrayLayout) (d : ColumnDef) (v : ℕ) (h : IsValid l) (c : IsColumn l d) where
  object_matches :
      (obj : ℕ)
      → obj < 32
      → match_columns 1 (some d ∷ []) (v ∷ []) l.rows (obj * l.tot_typ_sz) 1 0
        ≡ ok (0, matching l d v obj)
  object_matches obj low =
      let below = row_below l.tot_typ_sz obj low in
      match_single (take d.typsz (le_bytes 8 v)) (field_at l d obj) l.rows (obj * l.tot_typ_sz) d v
        (read-take (le_bytes 8 v) 0 d.typsz (omega (arith, length-le_bytes 8 v, c.narrow)))
        (read-take l.rows (obj * l.tot_typ_sz + d.loc) d.typsz (omega (arith, h.room, c.inside)))

  pub row_read :
      (obj : ℕ) → obj < 32 → read l.rows (obj * l.tot_typ_sz) l.tot_typ_sz ≡ ok (row_at l obj)
  row_read obj low =
      let below = row_below l.tot_typ_sz obj low in
      read-take l.rows (obj * l.tot_typ_sz) l.tot_typ_sz (omega (arith, h.room))

  row_length : (obj : ℕ) → length (row_at l obj) ≤ max_buff_sz
  row_length obj =
      omega (arith, length-take l.tot_typ_sz (drop (obj * l.tot_typ_sz) l.rows), c.fits)

  pub result_added :
      (obj : ℕ) (res : ResultBuff)
      → length res < 32
      → add_result res obj (row_at l obj) ≡ ok (res ++ (obj, row_at l obj) ∷ [])
  result_added obj res room =
      let a = lt→ltb (length res) 32 room in
      let b = leb_of_le (length (row_at l obj)) max_buff_sz (row_length obj) in rw (a, b)

  inspect-single :
      (obj : ℕ) (res : ResultBuff)
      → obj < 32
      → length res < 32
      → inspect l (single d v) obj 0 res
        ≡ ok (0, if matching l d v obj then res ++ (obj, row_at l obj) ∷ [] else res)
  inspect-single obj res low room = elim (Bool-cases (matching l d v obj)) [
    | inl y ↦ rw (object_matches obj low, y, row_read obj low, result_added obj res room)
    | inr n ↦ rw (object_matches obj low, n)
  ]

  module _ (over : ℕ → ℕ) where
    look-single :
        (obj : ℕ) (res : ResultBuff)
        → 1 ≤ obj
        → obj < 32
        → length res < 32
        → look over l (single d v) obj 0 res
          ≡ ok (
            0,
            if has l.bit_map obj && matching l d v obj
                then res ++ (obj, row_at l obj) ∷ []
                else res,
          )
    look-single obj res pos low room =
        let on = is_on-has over l.bit_map obj (record { low = pos; high = omega arith }) in
        elim (Bool-cases (has l.bit_map obj)) [
          | inl y ↦ rw (on, y, inspect-single obj res low room)
          | inr n ↦ rw (on, n)
        ]

    -- No object is marked from 32 on.
    find_rest :
        ((j : ℕ) → 32 ≤ j → j ≤ 48 → is_on over l.bit_map j ≡ ok false)
        → (n obj : ℕ) (res : ResultBuff) → 32 ≤ obj
        → n + obj ≤ 49
        → find_objects over n l (single d v) obj 0 res ≡ ok res
    find_rest off zero obj res lo hi = refl
    find_rest off (suc n) obj res lo hi =
        rw (off obj lo (omega arith), find_rest off n (obj + 1) res (omega arith) (omega arith))

    find_hits :
        ((j : ℕ) → 32 ≤ j → j ≤ 48 → is_on over l.bit_map j ≡ ok false)
        → (n obj : ℕ) (res : ResultBuff) → 1 ≤ obj
        → n + obj ≡ 32
        → length res + n < 32
        → find_objects over (n + 17) l (single d v) obj 0 res ≡ ok (res ++ hits n l d v obj)
    find_hits off zero obj res pos end room =
        find_rest off 17 obj res (omega arith) (omega arith) ∙ ap ok (sym (append-nil res))
    find_hits off (suc n) obj res pos end room =
        let e : suc n + 17 ≡ suc (n + 17) = omega arith in
        rw e (elim (Bool-cases (has l.bit_map obj && matching l d v obj)) [
          | inl y ↦
              let look_y = look-single obj res pos (omega arith) (omega arith) in
              let one_more = length-append res ((obj, row_at l obj) ∷ []) in
              rw
                (
                  look_y,
                  y,
                  find_hits off n (obj + 1) (res ++ (obj, row_at l obj) ∷ []) (omega arith)
                      (omega arith) (omega arith),
                )
                (ap ok (append_assoc res ((obj, row_at l obj) ∷ []) (hits n l d v (obj + 1))))
          | inr other ↦ rw (
            look-single obj res pos (omega arith) (omega arith),
            other,
            find_hits off n (obj + 1) res (omega arith) (omega arith) (omega arith),
          )
        ])

no_hits :
    (l : ArrayLayout) (d : ColumnDef) (v n obj : ℕ) → l.bit_map.bits ≡ 0 → hits n l d v obj ≡ []
no_hits l d v zero obj e = refl
no_hits l d v (suc n) obj e =
    let unmarked : has l.bit_map obj ≡ false = rw (e, bit_zero (obj - 1)) in
    rw (unmarked, no_hits l d v n (obj + 1) e)

-- On a valid layout with rows of at most 1024 bytes, where no slot from 32 to 48 is marked, a
-- search by one column of the row, of at most 8 bytes, finds the marked slots from 1 to 31 whose
-- rows have the value in that column, each with its row, in order.
pub find_entry-hits :
    (over : ℕ → ℕ) (l : ArrayLayout) (d : ColumnDef) (v : ℕ)
    → IsValid l
    → IsColumn l d
    → ((j : ℕ) → 32 ≤ j → j ≤ 48 → is_on over l.bit_map j ≡ ok false)
    → find_entry over l (single d v) ≡ ok (hits 31 l d v 1)
unfolding find_entry get_sz
find_entry-hits over l d v h c off =
    rw (h.bound, find_hits l d v h c over off 31 1 [] (omega arith) refl (omega arith))

-- On a valid layout with rows of at most 1024 bytes, where no slot from 32 to 48 is marked, a
-- deletion by one column of the row, of at most 8 bytes, says how many entries have the value, and
-- leaves the layout as it was: the entries are still marked and their slots are not free.
pub del_entry-keeps :
    (over : ℕ → ℕ) (l : ArrayLayout) (d : ColumnDef) (v : ℕ)
    → IsValid l
    → IsColumn l d
    → ((j : ℕ) → 32 ≤ j → j ≤ 48 → is_on over l.bit_map j ≡ ok false)
    → del_entry over l (single d v) ≡ ok (length (hits 31 l d v 1), l)
unfolding del_entry get_sz
del_entry-keeps over l d v h c off =
    let positive = lt→ltb 0 l.stack.sz (omega (arith, h.bound)) in
    elim (Bool-cases (l.bit_map.bits == 0)) [
      | inl empty ↦
          let e : l.bit_map.bits ≡ 0 = ground arith in rw (positive, empty, no_hits l d v 31 1 e)
      | inr marked ↦ rw (positive, marked, find_entry-hits over l d v h c off)
    ]
