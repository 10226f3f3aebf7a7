-- ===== src/Task1/OutStream/Rows.antt =====
-- The rows that go into the bulks of a result, and what the bulks then carry.
use lab.Prelude.{
  ℕ, zero, suc, ◌+◌, ◌≤◌, ◌<◌, ◌≡◌, refl, sym, ap, ◌∙◌, ltb, List, [], ◌∷◌, ◌++◌, map, Bytes,
  length, All, subst, arith, append_assoc, append-nil, length-append, Bool-cases, inl, inr, ◌⊎◌,
  some,
}
use lab.Task1.Respond.{ResultSet, Respond, cleared}
use lab.Task1.OutStream.{
  max_trx_buffer_sz, add_csvrow, fill, finalize_stream, translate_column, first_message,
}

-- The bytes of rows.
abbrev pub volume : List Bytes → ℕ
volume [] = 0
volume (row ∷ rows) = length row + volume rows

pub volume-pos : (rows : List Bytes) → 1 ≤ volume rows → 1 ≤ length rows
volume-pos [] h = h
volume-pos (row ∷ rows) h = omega arith

volume-append : (xs ys : List Bytes) → volume (xs ++ ys) ≡ volume xs + volume ys
volume-append [] ys = omega arith
volume-append (x ∷ xs) ys = omega (arith, volume-append xs ys)

module _ {Time : Type 0} where
  abbrev pub rows_of : List (Respond Time) → List Bytes
  rows_of [] = []
  rows_of (m ∷ ms) = m.csv_rows ++ rows_of ms

  abbrev pub with_rows : Respond Time → List Bytes → Respond Time
  with_rows m rows = record m { csv_rows = m.csv_rows ++ rows }

  -- The rows that the inner loop takes and those that it leaves.
  abbrev Fills : ℕ → Respond Time → ℕ → List Bytes → List Bytes → List Bytes → Type 0
  Fills total m count rows taken left =
      (fill total m count rows ≡ ((with_rows m taken, count + length taken), left))
      × (taken ++ left ≡ rows)
      × ((left ≡ []) ⊎ (max_trx_buffer_sz ≤ total + volume taken))

  pub fill-Fills :
      (total : ℕ) (m : Respond Time) (count : ℕ) (rows : List Bytes)
      → (taken : List Bytes) × (left : List Bytes) × Fills total m count rows taken left
  unfolding fill
  fill-Fills total m count [] =
      let no_more : count + 0 ≡ count = omega arith in
      ([], [], (rw (append-nil m.csv_rows, no_more), refl, inl refl))
  fill-Fills total m count (row ∷ rows) = elim (Bool-cases (ltb total max_trx_buffer_sz)) [
    | inl e ↦
        let (taken, left, (p, q, h)) =
          fill-Fills (total + length row) (add_csvrow m row) (count + 1) rows in
        let one_more : count + 1 + length taken ≡ count + suc (length taken) = omega arith in
        let enough : (left ≡ []) ⊎ (max_trx_buffer_sz ≤ total + volume (row ∷ taken)) = elim h [
          | inl none_left ↦ inl none_left
          | inr full ↦ inr (omega arith)
        ] in
        (
          row ∷ taken,
          left,
          (
            rw (e, p, append_assoc m.csv_rows (row ∷ []) taken, one_more),
            ap (λ x. row ∷ x) q,
            enough,
          ),
        )
    | inr e ↦
        let no_more : count + 0 ≡ count = omega arith in
        ([], row ∷ rows, (rw (e, append-nil m.csv_rows, no_more), refl, inr (ground arith)))
  ]

  abbrev pub first_of : List (Respond Time) → Respond Time → Respond Time
  first_of [] last = last
  first_of (m ∷ ms) last = m

  -- The bulks carry the rows: each row once, in order; all but the last carry at least
  -- `MAX_TRX_BUFFER_SZ` bytes of them, and the last has the number of the rows, the
  -- columns and the times. The first has the type and the count of `m`.
  abbrev pub IsBulked :
      ResultSet Time → Respond Time → ℕ → List Bytes → List (Respond Time) → Respond Time → Type 0
  IsBulked rs m count rows ms last =
      ((first_of ms last).type ≡ m.type)
      × ((first_of ms last).rows_count ≡ m.rows_count)
      × (rows_of ms ++ last.csv_rows ≡ rows)
      × (last.rows_size ≡ count + length rows)
      × (last.columns ≡ map translate_column rs.meta_data)
      × (last.query_time ≡ some rs.times)
      × All (λ m. max_trx_buffer_sz ≤ volume m.csv_rows) ms

  pub last-IsBulked :
      (rs : ResultSet Time) (m : Respond Time) (count : ℕ) (rows taken : List Bytes)
      → m.csv_rows ≡ []
      → m.columns ≡ []
      → taken ≡ rows
      → IsBulked rs m count rows [] (finalize_stream rs (with_rows m taken) (count + length taken))
  unfolding finalize_stream
  last-IsBulked rs m count rows taken e f whole = (
    refl,
    refl,
    ap (λ x. x ++ taken) e ∙ whole,
    ap (λ x. count + length x) whole,
    ap (λ x. x ++ map translate_column rs.meta_data) f,
    refl,
    tt,
  )

  pub more-IsBulked :
      (rs : ResultSet Time) (m last : Respond Time) (count : ℕ) (rows taken others : List Bytes)
      (ms : List (Respond Time))
      → m.csv_rows ≡ []
      → taken ++ others ≡ rows
      → max_trx_buffer_sz ≤ volume taken
      → IsBulked rs cleared (count + length taken) others ms last
      → IsBulked rs m count rows (with_rows m taken ∷ ms) last
  more-IsBulked rs m last count rows taken others ms e whole full
        (_, _, there, size, columns, time, fulls) =
      let here : m.csv_rows ++ taken ≡ taken = ap (λ x. x ++ taken) e in
      let size_of = ap length whole in
      (
        refl,
        refl,
        append_assoc (m.csv_rows ++ taken) (rows_of ms) last.csv_rows
            ∙ (ap (λ x. x ++ (rows_of ms ++ last.csv_rows)) here
                ∙ (ap (λ x. taken ++ x) there ∙ whole)),
        omega (arith, length-append taken others),
        columns,
        time,
        (subst (λ x. max_trx_buffer_sz ≤ volume x) (sym here) full, fulls),
      )

  pub rows_of-ge :
      (ms : List (Respond Time))
      → All (λ m. max_trx_buffer_sz ≤ volume m.csv_rows) ms
      → length ms ≤ length (rows_of ms)
  rows_of-ge [] h = omega arith
  rows_of-ge (m ∷ ms) (full, fulls) =
      let some_rows = volume-pos m.csv_rows (omega arith) in
      omega (arith, rows_of-ge ms fulls, length-append m.csv_rows (rows_of ms))

  -- There are no more bulks before the last than rows.
  pub bulks-le :
      (rs : ResultSet Time) (m : Respond Time) (count : ℕ) (rows : List Bytes)
      (ms : List (Respond Time)) (last : Respond Time)
      → IsBulked rs m count rows ms last
      → length ms ≤ length rows
  bulks-le rs m count rows ms last (_, _, there, size, columns, time, fulls) =
      omega (arith, rows_of-ge ms fulls, ap length there, length-append (rows_of ms) last.csv_rows)

  -- Rows of fewer bytes than `MAX_TRX_BUFFER_SZ` go in one message.
  pub bulks-single :
      (rs : ResultSet Time) (m : Respond Time) (count : ℕ) (rows : List Bytes)
      (ms : List (Respond Time)) (last : Respond Time)
      → volume rows < max_trx_buffer_sz
      → IsBulked rs m count rows ms last
      → ms ≡ []
  bulks-single rs m count rows [] last h b = refl
  bulks-single rs m count rows (n ∷ ms) last h (_, _, there, size, columns, time, (full, fulls)) =
      let all = ap volume there in
      let split = volume-append (rows_of (n ∷ ms)) last.csv_rows in
      let first = volume-append n.csv_rows (rows_of ms) in absurd (omega arith)

  -- The messages of the rows, as a list.
  abbrev pub finished : ResultSet Time → Respond Time → ℕ → List Bytes → Respond Time
  finished rs m count [] = finalize_stream rs m count
  finished rs m count (row ∷ rows) = m

  unfoldable pub messages : ℕ → ResultSet Time → Respond Time → ℕ → List Bytes → List (Respond Time)
  messages fuel rs m count [] = []
  messages zero rs m count (row ∷ rows) = []
  messages (suc fuel) rs m count (row ∷ rows) =
      let filled = fill 0 m count (row ∷ rows) in
      finished rs filled.0.0 filled.0.1 filled.1 ∷ messages fuel rs cleared filled.0.1 filled.1

  -- The messages of the answer to a query.
  abbrev pub answer_messages : ResultSet Time → List (Respond Time)
  answer_messages rs = messages (length rs.rows) rs (first_message rs) 0 rs.rows
