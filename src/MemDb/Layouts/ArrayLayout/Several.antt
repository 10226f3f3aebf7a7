-- ===== src/MemDb/Layouts/ArrayLayout/Several.antt =====
-- `findEntry` for a comparison of several columns, in a table with one row.
use lab.Prelude.{
  ℕ, zero, suc, ◌+◌, ◌-◌, ◌*◌, ◌≤◌, ◌<◌, ◌≡◌, ◌≢◌, refl, sym, ◌∙◌, ◌==◌, Bool, true, false, ◌&&◌,
  if◌then◌else◌, List, [], ◌∷◌, some, Bytes, length, map, All, take, le_bytes, arith, ap,
  length-le_bytes, Bool-cases, inl, inr, Option,
}
use lab.MemDb.Outcome.{ok}
use lab.MemDb.Stack.{get_sz}
use lab.MemDb.BitMap.{is_on}
use lab.MemDb.Layouts.Memory.{read, bytes_eq}
use lab.MemDb.Layouts.Memory.Splice.{read-take}
use lab.MemDb.Layouts.Header.{ColumnDef, Comparable}
use lab.MemDb.Layouts.ArrayLayout.{
  ArrayLayout, ResultBuff, match_columns, inspect, find_objects, find_entry,
}
use lab.MemDb.Layouts.ArrayLayout.Rows.{IsValid}
use lab.MemDb.Layouts.ArrayLayout.Search.{
  IsColumn, row_at, field_at, matching, row_below, row_read, result_added,
}

-- The comparison of columns with values.
abbrev pub several : List (ColumnDef × ℕ) → Comparable
several cols = record {
  sz = length cols;
  col_defs = map (λ c. some c.0) cols;
  p_vals = map (λ c. c.1) cols;
}

-- The row of an object has the value in every column.
abbrev pub all_match : ArrayLayout → ℕ → List (ColumnDef × ℕ) → Bool
all_match l obj [] = true
all_match l obj ((d, v) ∷ cols) = matching l d v obj && all_match l obj cols

-- One round of the loop over the columns.
match_round :
    (eq : Bool) (bytes field mem : Bytes) (off size m n : ℕ) (d : ColumnDef) (v : ℕ)
    (ds : List (Option ColumnDef)) (vs : List ℕ)
    → read (le_bytes 8 v) 0 d.typsz ≡ ok bytes
    → read mem (off + d.loc) d.typsz ≡ ok field
    → bytes_eq bytes field ≡ eq
    → match_columns (suc n) (some d ∷ ds) (v ∷ vs) mem off size m ≡ (
        if eq && (m + 1 == size)
        then ok (0, true)
        else match_columns n ds vs mem off size (if eq then m + 1 else m))
match_round eq bytes field mem off size m n d v ds vs e f g = rw (e, f, g) refl

module _ (l : ArrayLayout) (h : IsValid l) where
  column_read :
      (obj : ℕ) (d : ColumnDef) (v : ℕ)
      → obj < 32
      → IsColumn l d
      → (read (le_bytes 8 v) 0 d.typsz ≡ ok (take d.typsz (le_bytes 8 v)))
        × (read l.rows (obj * l.tot_typ_sz + d.loc) d.typsz ≡ ok (field_at l d obj))
  column_read obj d v low c =
      let below = row_below l.tot_typ_sz obj low in
      (
        read-take (le_bytes 8 v) 0 d.typsz (omega (arith, length-le_bytes 8 v, c.narrow)),
        read-take l.rows (obj * l.tot_typ_sz + d.loc) d.typsz (omega (arith, h.room, c.inside)),
      )

  -- With `m` columns before these that matched.
  match_several :
      (obj : ℕ) (cols : List (ColumnDef × ℕ)) (size m : ℕ)
      → obj < 32
      → All (λ c. IsColumn l c.0) cols
      → m + length cols ≤ size
      → m < size
      → (m' : ℕ) × (match_columns
            (length cols)
            (map (λ c. some c.0) cols)
            (map (λ c. c.1) cols)
            l.rows
            (obj * l.tot_typ_sz)
            size
            m
          ≡ ok (m', all_match l obj cols && (m + length cols == size)))
  match_several obj [] size m low c few more = (m, ap (λ b. ok (m, b)) (ground arith))
  match_several obj ((d, v) ∷ cols) size m low (c, cs) few more =
      let (value, field) = column_read obj d v low c in
      let ds = map (λ x. some x.0) cols in
      let vs = map (λ x. x.1) cols in
      let off = obj * l.tot_typ_sz in
      let round : (eq : Bool)
          → matching l d v obj ≡ eq
          → match_columns (suc (length cols)) (some d ∷ ds) (v ∷ vs) l.rows off size m ≡ (
              if eq && (m + 1 == size)
              then ok (0, true)
              else match_columns (length cols) ds vs l.rows off size (if eq then m + 1 else m)) =
        λ eq g.
          match_round eq (take d.typsz (le_bytes 8 v)) (field_at l d obj) l.rows off size m
            (length cols) d v ds vs value field g in
      elim (Bool-cases (matching l d v obj)) [
        | inr other ↦
            let (m', e) = match_several obj cols size m low cs (omega arith) more in
            let b = short (all_match l obj cols) (length cols) size m few in
            (m', round false other ∙ (e ∙ rw (other, b) refl))
        | inl same ↦ elim (Bool-cases (m + 1 == size)) [
          | inl last ↦ (0, round true same ∙ rw (last, same, at_last cols size m few last) refl)
          | inr go_on ↦
              let (m', e) =
                match_several obj cols size (m + 1) low cs (omega arith) (ground arith) in
              let g : m + 1 + length cols ≡ m + suc (length cols) = omega arith in
              let rest = match_columns (length cols) ds vs l.rows off size (m + 1) in
              (
                m',
                round true same
                    ∙ (ap (λ b. if b then ok (0, true) else rest) go_on ∙ (e ∙ rw (same, g) refl)),
              )
        ]
      ]
    where
      short : (b : Bool) (n size m : ℕ) → m + suc n ≤ size → (b && (m + n == size)) ≡ false
      short true n size m h = ground arith
      short false n size m h = refl

      at_last :
          (cols : List (ColumnDef × ℕ)) (size m : ℕ)
          → m + suc (length cols) ≤ size
          → (m + 1 == size) ≡ true
          → (all_match l obj cols && (m + suc (length cols) == size)) ≡ true
      at_last [] size m h e = ground arith
      at_last (x ∷ xs) size m h e = absurd (ground arith)

  module _ (over : ℕ → ℕ) (comp : Comparable) where
    -- Objects that are not marked are passed over.
    pass_over :
        (d n obj m : ℕ) (res : ResultBuff)
        → ((j : ℕ) → obj ≤ j → j < obj + d → is_on over l.bit_map j ≡ ok false)
        → find_objects over (d + n) l comp obj m res ≡ find_objects over n l comp (obj + d) m res
    pass_over zero n obj m res off =
        let a : 0 + n ≡ n = omega arith in let b : obj + 0 ≡ obj = omega arith in rw (a, b) refl
    pass_over (suc d) n obj m res off =
        let a : suc d + n ≡ suc (d + n) = omega arith in
        let b : obj + suc d ≡ obj + 1 + d = omega arith in
        rw (a, b, off obj (omega arith) (omega arith))
          (pass_over d n (obj + 1) m res λ j p q. off j (omega arith) (omega arith))

    look_into :
        (n obj m m' : ℕ) (res res' : ResultBuff)
        → is_on over l.bit_map obj ≡ ok true
        → inspect l comp obj m res ≡ ok (m', res')
        → find_objects over (suc n) l comp obj m res ≡ find_objects over n l comp (obj + 1) m' res'
    look_into n obj m m' res res' on e = rw (on, e) refl

    -- Of `48` objects from 1 on, only `v` is marked.
    only_one :
        (v m' : ℕ) (found : ResultBuff)
        → 1 ≤ v
        → v ≤ 48
        → ((j : ℕ) → 1 ≤ j → j ≤ 48 → is_on over l.bit_map j ≡ ok (j == v))
        → inspect l comp v 0 [] ≡ ok (m', found)
        → find_objects over 48 l comp 1 0 [] ≡ ok found
    only_one v m' found low high marks e =
        let off : (j : ℕ) → 1 ≤ j → j ≤ 48 → j ≢ v → is_on over l.bit_map j ≡ ok false =
          λ j a b c. marks j a b ∙ ap ok (ground arith) in
        let on : is_on over l.bit_map v ≡ ok true = marks v low high ∙ ap ok (ground arith) in
        let at_v : 1 + (v - 1) ≡ v = omega arith in
        let rounds : v - 1 + suc (48 - v + 0) ≡ 48 = omega arith in
        ap (λ n. find_objects over n l comp 1 0 []) (sym rounds)
        ∙ (pass_over (v - 1) (suc (48 - v + 0)) 1 0 []
              (λ j a b. off j a (omega arith) (omega arith))
            ∙ (ap (λ o. find_objects over (suc (48 - v + 0)) l comp o 0 []) at_v
                ∙ (look_into (48 - v + 0) v 0 m' [] found on e
                    ∙ pass_over (48 - v) 0 (v + 1) m' found
                        (λ j a b. off j (omega arith) (omega arith) (omega arith)))))

  inspect-several :
      (v : ℕ) (d : ColumnDef) (x : ℕ) (cols : List (ColumnDef × ℕ))
      → v < 32
      → All (λ c. IsColumn l c.0) ((d, x) ∷ cols)
      → (m' : ℕ) × (inspect l (several ((d, x) ∷ cols)) v 0 []
          ≡ ok (m', if all_match l v ((d, x) ∷ cols) then (v, row_at l v) ∷ [] else []))
  inspect-several v d x cols low (c, cs) =
      let (m', e) =
        match_several v ((d, x) ∷ cols) (suc (length cols)) 0 low (c, cs) (omega arith)
          (omega arith) in
      let g : (0 + suc (length cols) == suc (length cols)) ≡ true = ground arith in
      (m', inspected m' (all_match l v ((d, x) ∷ cols)) (e ∙ ap (λ b. ok (m', b)) (and_true _ _ g)))
    where
      and_true : (b b' : Bool) → b' ≡ true → (b && b') ≡ b
      and_true true b' k = k
      and_true false b' k = refl

      inspected :
          (m' : ℕ) (hit : Bool)
          → match_columns
              (suc (length cols))
              (map (λ y. some y.0) ((d, x) ∷ cols))
              (map (λ y. y.1) ((d, x) ∷ cols))
              l.rows
              (v * l.tot_typ_sz)
              (suc (length cols))
              0
            ≡ ok (m', hit)
          → inspect l (several ((d, x) ∷ cols)) v 0 []
            ≡ ok (m', if hit then (v, row_at l v) ∷ [] else [])
      inspected m' true e =
          rw (e, row_read l d x h c v low, result_added l d x h c v [] (omega arith)) refl
      inspected m' false e = rw e refl

-- On a valid layout with rows of at most 1024 bytes, of which one slot from 1 to 31 is marked and none
-- up to 48 else, a search by one or more columns of the row, of at most 8 bytes each, finds the object
-- in that slot, with its row, where the row has the value in every one of the columns, and otherwise
-- nothing.
pub find_entry-only :
    (over : ℕ → ℕ) (l : ArrayLayout) (v : ℕ) (d : ColumnDef) (x : ℕ) (cols : List (ColumnDef × ℕ))
    → IsValid l
    → 1 ≤ v
    → v ≤ 31
    → ((j : ℕ) → 1 ≤ j → j ≤ 48 → is_on over l.bit_map j ≡ ok (j == v))
    → All (λ c. IsColumn l c.0) ((d, x) ∷ cols)
    → find_entry over l (several ((d, x) ∷ cols))
      ≡ ok (if all_match l v ((d, x) ∷ cols) then (v, row_at l v) ∷ [] else [])
unfolding find_entry get_sz
find_entry-only over l v d x cols h low high marks columns =
    let comp = several ((d, x) ∷ cols) in
    let (m', e) = inspect-several l h v d x cols (omega arith) columns in
    let found = if all_match l v ((d, x) ∷ cols) then (v, row_at l v) ∷ [] else [] in
    let bound : v ≤ 48 = omega arith in
    let run : find_objects over 48 l comp 1 0 [] ≡ ok found =
      only_one l h over comp v m' found low bound marks e in
    rw h.bound run
