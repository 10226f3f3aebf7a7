-- ===== src/MemDb/Layouts/ArrayLayout/Construct.antt =====
-- The constructor of `ArrayLayout`.
use lab.Prelude.{
  ℕ, zero, suc, ◌+◌, ◌*◌, ◌≤◌, ◌<◌, ◌≡◌, refl, ltb, List, [], ◌∷◌, ◌++◌, length, take, drop, arith,
  ap, sym, ◌∙◌, true, lt→ltb, length-take,
}
use lab.MemDb.Outcome.{Outcome, ok}
use lab.MemDb.Stack.{Stack, push, put, max_obj_num, get_sz, get_capacity}
use lab.MemDb.Stack
use lab.MemDb.Stack.Lifo
use lab.MemDb.Stack.Lifo.{slots, push_list, push-Does, length-down}
use lab.MemDb.BitMap
use lab.MemDb.Layouts.Memory.Splice.{
  splice, splice-splice, splice_none, take-splice, set-splice, length-splice,
}
use lab.MemDb.Layouts.Header.{ColumnDef, LayoutHeader, max_col_num}
use lab.MemDb.Layouts.ArrayLayout.{ArrayLayout, push_slots, copy_columns, construct, total_size}
use lab.MemDb.Layouts.ArrayLayout.Rows.{IsValid}

-- The numbers below `n`, the last one first.
abbrev pub below : ℕ → List ℕ
below zero = []
below (suc n) = n ∷ below n

length-below : (n : ℕ) → length (below n) ≡ n
length-below zero = refl
length-below (suc n) = ap suc (length-below n)

push_below : (n i : ℕ) → i < n → push_list n i (below i) ≡ (0, below (i + 1))
push_below n i h =
    let e : i + 1 ≡ suc i = omega arith in
    let r : ltb (length (below i)) n ≡ true = ground (arith, length-below i) in rw (r, e)

-- What the loop of pushes leaves: the slots below `n`.
abbrev Filled : ℕ → Stack → Outcome Stack → Type 0
Filled n s m = (s' : Stack) × (m ≡ ok s') × Lifo.IsValid s' × (s'.sz ≡ s.sz) × (slots s' ≡ below n)

push_slots-Filled :
    (n i : ℕ) (s : Stack)
    → Lifo.IsValid s
    → slots s ≡ below i
    → i + n ≤ s.sz
    → Filled (i + n) s (push_slots n i s)
push_slots-Filled zero i s v e h = let z : i + 0 ≡ i = omega arith in (s, refl, v, refl, rw z e)
push_slots-Filled (suc n) i s v e h =
    let (code, s', runs, v', size, did) = push-Does s i v in
    let pushed : (code, slots s') ≡ (0, below (i + 1)) =
      did ∙ (ap (push_list s.sz i) e ∙ push_below s.sz i (omega arith)) in
    let (t, runs', v'', size', left) =
      push_slots-Filled n (i + 1) s' v' (ap (λ p. p.1) pushed) (omega arith) in
    let next : i + 1 + n ≡ i + suc n = omega arith in
    (t, rw runs runs', v'', size' ∙ size, left ∙ ap below next)

put-splice {ℓ} :
    {A : Type ℓ} (xs : List A) (i : ℕ) (x : A)
    → i < length xs
    → put xs i x ≡ ok (splice xs i (x ∷ []))
put-splice xs i x h = ground (arith, set-splice xs i x h)

copy_columns-splice :
    (n i : ℕ) (from to : List ColumnDef)
    → n ≤ length from
    → i + n ≤ length to
    → copy_columns n i from to ≡ ok (splice to i (take n from))
copy_columns-splice zero i from to h l = ap ok (sym (splice_none to i))
copy_columns-splice (suc n) i [] to h l = absurd (omega arith)
copy_columns-splice (suc n) i (c ∷ from) to h l =
    rw
      (
        put-splice to i c (omega arith),
        copy_columns-splice n (i + 1) from (splice to i (c ∷ [])) (omega arith)
            (omega (arith, length-splice to i (c ∷ []) (omega arith))),
      )
      (ap ok (splice-splice to i (c ∷ []) (take n from) (omega (arith, length-take n from))))

total_size-append :
    (n : ℕ) (cs ds : List ColumnDef)
    → n ≤ length cs
    → total_size n (take n cs ++ ds) ≡ total_size n cs
total_size-append zero cs ds h = refl
total_size-append (suc n) [] ds h = absurd (omega arith)
total_size-append (suc n) (c ∷ cs) ds h = rw (total_size-append n cs ds (omega arith))

-- From a header with at most 19 columns and a chunk with room for the stack, the columns and 32 rows the
-- constructor makes a valid layout with the header's columns, in which the slots 31 to 0 are free, 31 on top, and none is marked.
pub construct-IsValid :
    (i_head : LayoutHeader) (chunk : ArrayLayout)
    → i_head.sz < max_col_num
    → i_head.sz ≤ length i_head.columns
    → i_head.sz ≤ length chunk.header.columns
    → max_obj_num ≤ length chunk.stack.pstack
    → max_obj_num * total_size i_head.sz i_head.columns ≤ length chunk.rows
    → (l : ArrayLayout) × (construct i_head chunk ≡ ok l)
      × IsValid l
      × (slots l.stack ≡ below max_obj_num)
      × (l.bit_map.bits ≡ 0)
      × (l.header.sz ≡ i_head.sz)
      × (take i_head.sz l.header.columns ≡ take i_head.sz i_head.columns)
unfolding construct Stack.init get_sz get_capacity BitMap.init
construct-IsValid i_head chunk few there room slots_room rows_room =
    let s : Stack = record chunk.stack { sz = max_obj_num; capacity = 0 } in
    let (s', filled, valid, size, full) =
      push_slots-Filled max_obj_num 0 s (record { room = slots_room; bounded = omega arith }) refl
        (omega arith) in
    let columns = splice chunk.header.columns 0 (take i_head.sz i_head.columns) in
    let copied =
      copy_columns-splice i_head.sz 0 i_head.columns chunk.header.columns there (omega arith) in
    let total =
      total_size-append i_head.sz i_head.columns
        (drop (0 + length (take i_head.sz i_head.columns)) chunk.header.columns) there in
    let size_copied : 0 + length (take i_head.sz i_head.columns) ≡ i_head.sz =
      omega (arith, length-take i_head.sz i_head.columns) in
    let on_it : s'.capacity ≡ max_obj_num =
      omega (arith, length-down s'.capacity s'.pstack (omega arith), ap length full) in
    let few' = lt→ltb i_head.sz max_col_num few in
    let l : ArrayLayout = record {
      stack = s';
      bit_map = record { bits = 0 };
      header = record { sz = i_head.sz; columns = columns };
      rows = chunk.rows;
      tot_typ_sz = total_size i_head.sz i_head.columns;
    } in
    (
      l,
      rw (few', filled, on_it, size, copied) refl,
      record {
        stack = valid;
        bound = size;
        bit_map = record { fits = omega arith };
        columns = omega (
          arith,
          length-splice chunk.header.columns 0 (take i_head.sz i_head.columns) (omega arith),
        );
        row = sym total;
        room = rows_room;
      },
      full,
      refl,
      refl,
      ap (λ n. take n columns) (sym size_copied)
          ∙ take-splice chunk.header.columns 0 (take i_head.sz i_head.columns) (omega arith),
    )
