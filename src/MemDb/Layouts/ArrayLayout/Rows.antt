-- ===== src/MemDb/Layouts/ArrayLayout/Rows.antt =====
-- `addEntry`: the row that it writes, and the slots and rows that it leaves alone.
use native.Mathlib.Nat.{suc-mul, mul-le-mul_right}
use lab.Prelude.{
  Bool-cases, ltb→lt, ◌++◌, ℕ, zero, suc, ◌+◌, ◌*◌, ◌≤◌, ◌<◌, ◌≡◌, refl, ltb, List, [], ◌∷◌, Bytes,
  length, take, drop, arith, ap, sym, ◌∙◌, ◌≢◌, ◌⊎◌, inl, inr, length-take, length-drop, true,
}
use lab.MemDb.Outcome.{ok, raised, assertion}
use lab.MemDb.Stack.{Stack, pop, get_sz, max_obj_num, inv_location}
use lab.MemDb.Stack.Lifo
use lab.MemDb.Stack.Lifo.{slots, pop_list, pop-Does}
use lab.MemDb.BitMap.{BitMap, bit_on, is_on}
use lab.MemDb.BitMap.Members
use lab.MemDb.BitMap.Members.{has, IsSlot, bit_on-has, is_on-has, out_of_range}
use lab.MemDb.Layouts.Memory.{read}
use lab.MemDb.Layouts.Memory.Splice.{
  take-add, drop-drop, splice, splice-splice, read-take, write-splice, read-splice_self,
  read-splice_beside, length-splice, splice_none,
}
use lab.MemDb.Layouts.Header.{ColumnDef, success}
use lab.MemDb.Layouts.ArrayLayout.{ArrayLayout, write_columns, total_size, add_entry}

-- What the constructor sets up: a stack of `MAX_OBJ_NUM` slots, a word for the bit map, the columns
-- that the header counts, whose sizes are those of a row, and the bytes of `MAX_OBJ_NUM` rows.
pub record IsValid (l : ArrayLayout) : Type 0 where
  pub stack : Lifo.IsValid l.stack
  pub bound : l.stack.sz ≡ max_obj_num
  pub bit_map : Members.IsValid l.bit_map
  pub columns : l.header.sz ≤ length l.header.columns
  pub row : l.tot_typ_sz ≡ total_size l.header.sz l.header.columns
  pub room : max_obj_num * l.tot_typ_sz ≤ length l.rows

-- The loop writes one row, as one piece.
write_columns-splice :
    (n : ℕ) (cs : List ColumnDef) (dat : Bytes) (off copied : ℕ) (rows : Bytes)
    → n ≤ length cs
    → copied + total_size n cs ≤ length dat
    → off + copied + total_size n cs ≤ length rows
    → write_columns n cs dat off copied rows
      ≡ ok (splice rows (off + copied) (take (total_size n cs) (drop copied dat)))
write_columns-splice zero cs dat off copied rows h i j =
    ap ok (sym (splice_none rows (off + copied)))
write_columns-splice (suc n) [] dat off copied rows h i j = absurd (omega arith)
write_columns-splice (suc n) (c ∷ cs) dat off copied rows h i j =
    let field = take c.typsz (drop copied dat) in
    let size : length field ≡ c.typsz =
      omega (arith, length-take c.typsz (drop copied dat), length-drop copied dat) in
    let next = splice rows (off + copied) field in
    let rest = take (total_size n cs) (drop (copied + c.typsz) dat) in
    let rest_length : length rest ≡ total_size n cs = omega (
      arith,
      length-take (total_size n cs) (drop (copied + c.typsz) dat),
      length-drop (copied + c.typsz) dat,
    ) in
    let place : off + (copied + c.typsz) ≡ off + copied + length field = omega arith in
    let whole : take (c.typsz + total_size n cs) (drop copied dat) ≡ field ++ rest =
      take-add c.typsz (total_size n cs) (drop copied dat)
      ∙ ap (λ x. field ++ take (total_size n cs) x) (drop-drop c.typsz copied dat) in
    rw (
      read-take dat copied c.typsz (omega arith),
      write-splice rows (off + copied) field (omega arith),
      write_columns-splice n cs dat off (copied + c.typsz) next (omega arith) (omega arith)
          (omega (arith, length-splice rows (off + copied) field (omega arith))),
      place,
      splice-splice rows (off + copied) field rest (omega arith),
      whole,
    )

rows_below : (v w t : ℕ) → w < v → w * t + t ≤ v * t
rows_below v w t h =
    omega (arith, suc-mul w t, mul-le-mul_right {m = suc w} {n = v} t (omega arith))

rows_apart : (v w t : ℕ) → w ≢ v → (w * t + t ≤ v * t) ⊎ (v * t + t ≤ w * t)
rows_apart v w t h = elim (Bool-cases (ltb w v)) [
  | inl below ↦ inl (rows_below v w t (ltb→lt w v below))
  | inr above ↦ inr (rows_below w v t (ground arith))
]

-- What `addEntry` did: `v` is the slot it took, `below` are the slots left on the stack, and `w` is
-- any other slot.
abbrev pub Adds : (ℕ → ℕ) → ArrayLayout → Bytes → ℕ → List ℕ → ℕ → ArrayLayout → Type 0
Adds over l dat v below w l' =
    IsValid l'
    × (slots l'.stack ≡ below)
    × (is_on over l'.bit_map v ≡ ok true)
    × (is_on over l'.bit_map w ≡ is_on over l.bit_map w)
    × (read l'.rows (v * l'.tot_typ_sz) l'.tot_typ_sz ≡ ok (take l.tot_typ_sz dat))
    × (read l'.rows (w * l'.tot_typ_sz) l'.tot_typ_sz ≡ read l.rows (w * l.tot_typ_sz) l.tot_typ_sz)

pub pop_slot :
    (l : ArrayLayout) (v : ℕ) (below : List ℕ)
    → IsValid l
    → slots l.stack ≡ v ∷ below
    → (s : Stack) × (pop l.stack ≡ ok (v, s))
      × Lifo.IsValid s
      × (s.sz ≡ max_obj_num)
      × (slots s ≡ below)
pop_slot l v below h top =
    let (code, s, runs, valid, size, did) = pop-Does l.stack h.stack in
    let e : (code, slots s) ≡ (v, below) = did ∙ ap pop_list top in
    (s, runs ∙ ap (λ c. ok (c, s)) (ap (λ p. p.0) e), valid, size ∙ h.bound, ap (λ p. p.1) e)

mark :
    (over : ℕ → ℕ) (l : ArrayLayout) (v w : ℕ)
    → Members.IsValid l.bit_map
    → IsSlot v
    → IsSlot w
    → w ≢ v
    → (b : BitMap) × (bit_on over l.bit_map v ≡ ok b)
      × Members.IsValid b
      × (is_on over b v ≡ ok true)
      × (is_on over b w ≡ is_on over l.bit_map w)
mark over l v w h slot_v slot_w other =
    let (b, marked, valid, on) = bit_on-has over l.bit_map v v h slot_v slot_v in
    let (b', marked', valid', on') = bit_on-has over l.bit_map v w h slot_v slot_w in
    let same : is_on over b w ≡ is_on over b' w = cc (marked, marked') in
    (
      b,
      marked,
      valid,
      on ∙ ap ok (ground arith),
      same ∙ (on' ∙ (ap ok (ground arith) ∙ sym (is_on-has over l.bit_map w slot_w))),
    )

pub row_written :
    (l : ArrayLayout) (dat : Bytes) (v : ℕ)
    → IsValid l
    → v ≤ 31
    → l.tot_typ_sz ≤ length dat
    → write_columns l.header.sz l.header.columns dat (v * l.tot_typ_sz) 0 l.rows
      ≡ ok (splice l.rows (v * l.tot_typ_sz) (take l.tot_typ_sz dat))
row_written l dat v h high full =
    let fits = rows_below 32 v l.tot_typ_sz (omega arith) in
    let e : v * l.tot_typ_sz + 0 ≡ v * l.tot_typ_sz = omega arith in
    write_columns-splice l.header.sz l.header.columns dat (v * l.tot_typ_sz) 0 l.rows h.columns
      (omega (arith, h.row)) (omega (arith, h.room, h.row))
    ∙ rw (e, h.row)

module _ (over : ℕ → ℕ) where
  pub add_entry_runs :
      (l : ArrayLayout) (dat : Bytes) (v : ℕ) (s : Stack) (b : BitMap) (rows : Bytes)
      → l.stack.sz ≡ max_obj_num
      → pop l.stack ≡ ok (v, s)
      → bit_on over l.bit_map v ≡ ok b
      → write_columns l.header.sz l.header.columns dat (v * l.tot_typ_sz) 0 l.rows ≡ ok rows
      → add_entry over l dat ≡ ok (success, record l { stack = s; bit_map = b; rows = rows })
  unfolding add_entry get_sz
  add_entry_runs l dat v s b rows bound popped marked written = rw (popped, bound, marked, written)

  -- On a valid layout whose next free slot is 1 to 31, with data for a whole row, `addEntry`
  -- succeeds and keeps the layout valid: it takes that slot off the stack and marks it in the bit
  -- map, its row holds the data from now on, and any other slot from 1 to 31 keeps its mark and its
  -- row.
  pub add_entry-Adds :
      (l : ArrayLayout) (dat : Bytes) (v : ℕ) (below : List ℕ) (w : ℕ)
      → IsValid l
      → slots l.stack ≡ v ∷ below
      → 1 ≤ v
      → v ≤ 31
      → l.tot_typ_sz ≤ length dat
      → 1 ≤ w
      → w ≤ 31
      → w ≢ v
      → (l' : ArrayLayout) × (add_entry over l dat ≡ ok (success, l'))
        × Adds over l dat v below w l'
  unfolding add_entry
  add_entry-Adds l dat v below w h top low high full low' high' other =
      let (s, popped, s-valid, size, left) = pop_slot l v below h top in
      let slot_v : IsSlot v = record { low = low; high = omega arith } in
      let slot_w : IsSlot w = record { low = low'; high = omega arith } in
      let (b, marked, b-valid, on_v, on_w) = mark over l v w h.bit_map slot_v slot_w other in
      let row = take l.tot_typ_sz dat in
      let size_row : length row ≡ l.tot_typ_sz = omega (arith, length-take l.tot_typ_sz dat) in
      let fits = rows_below 32 v l.tot_typ_sz (omega arith) in
      let fits' = rows_below 32 w l.tot_typ_sz (omega arith) in
      let rows = splice l.rows (v * l.tot_typ_sz) row in
      let l' : ArrayLayout = record l { stack = s; bit_map = b; rows = rows } in
      (
        l',
        add_entry_runs l dat v s b rows h.bound popped marked
            (row_written l dat v h (omega arith) full),
        (
          record {
            stack = s-valid;
            bound = size;
            bit_map = b-valid;
            columns = h.columns;
            row = h.row;
            room = omega (
              arith,
              h.room,
              length-splice l.rows (v * l.tot_typ_sz) row (omega (arith, h.room)),
            );
          },
          left,
          on_v,
          on_w,
          ap (read rows (v * l.tot_typ_sz)) (sym size_row)
              ∙ read-splice_self l.rows (v * l.tot_typ_sz) row (omega (arith, h.room)),
          read-splice_beside l.rows (v * l.tot_typ_sz) row (w * l.tot_typ_sz) l.tot_typ_sz
              (omega (arith, h.room)) (rw size_row (rows_apart v w l.tot_typ_sz other)),
        ),
      )

  -- A valid layout that is full, or whose next free slot is 0, fails the assertion of `bit_on`: the
  -- slot 0 that the constructor pushes is of no use, and a layout holds 31 entries.
  pub add_entry_full :
      (l : ArrayLayout) (dat : Bytes) (below : List ℕ)
      → IsValid l
      → (slots l.stack ≡ []) ⊎ (slots l.stack ≡ 0 ∷ below)
      → add_entry over l dat ≡ raised assertion
  unfolding add_entry get_sz
  add_entry_full l dat below h (inl empty) =
      let (code, s, runs, valid, size, did) = pop-Does l.stack h.stack in
      let e : code ≡ inv_location = ap (λ p. p.0) (did ∙ ap pop_list empty) in
      let popped : pop l.stack ≡ ok (inv_location, s) = runs ∙ ap (λ c. ok (c, s)) e in
      rw (popped, h.bound, (out_of_range over l.bit_map inv_location (inr (omega arith))).0)
  add_entry_full l dat below h (inr zero_on_top) =
      let (s, popped, _, _, _) = pop_slot l 0 below h zero_on_top in
      rw (popped, h.bound, (out_of_range over l.bit_map 0 (inl refl)).0)
