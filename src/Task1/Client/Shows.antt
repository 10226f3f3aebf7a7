-- ===== src/Task1/Client/Shows.antt =====
-- What the client shows of an answer.
use lab.Prelude.{
  ℕ, zero, suc, ◌<◌, ◌≡◌, refl, ap, ◌∙◌, append-nil, List, [], ◌∷◌, ◌++◌, map, some, none, Bytes,
  length, arith, length-append,
}
use lab.Task1.Respond.{ResultSet, Respond, RespondType, result}
use lab.Task1.OutStream.{first_message}
use lab.Task1.OutStream.Rows.{IsBulked, rows_of, rows_of-ge}
use lab.Task1.Client.{row, rows_count, times, show_rows, consume_as, consume, consume_all}

module _ {Time : Type 0} where
  pub show_rows-all :
      (rows : List Bytes) → show_rows {Time = Time} (length rows) rows ≡ some (map row rows)
  show_rows-all [] = refl
  show_rows-all (r ∷ rows) = rw (show_rows-all rows)

  pub show_rows-short :
      (n : ℕ) (rows : List Bytes) → length rows < n → show_rows {Time = Time} n rows ≡ none
  show_rows-short zero rows h = absurd (omega arith)
  show_rows-short (suc n) [] h = refl
  show_rows-short (suc n) (r ∷ rows) h = rw (show_rows-short n rows (omega arith))

  -- The last of several bulks announces the number of all the rows: to show it as a result reads
  -- behind its own rows.
  pub consume_as-undefined :
      (rs : ResultSet Time) (m n : Respond Time) (rows : List Bytes) (ms : List (Respond Time))
      (last : Respond Time)
      → IsBulked rs m 0 rows (n ∷ ms) last
      → consume_as result last ≡ none
  consume_as-undefined rs m n rows ms last (_, _, there, size, columns, time, fulls) =
      let all = ap length there in
      let split = length-append (rows_of (n ∷ ms)) last.csv_rows in
      let some_rows = rows_of-ge (n ∷ ms) fulls in
      rw (show_rows-short last.rows_size last.csv_rows (omega arith))

  -- A bulk that is the only one is shown whole.
  pub consume-single :
      (rs : ResultSet Time) (rows : List Bytes) (last : Respond Time) (default_type : RespondType)
      → IsBulked rs (first_message rs) 0 rows [] last
      → consume_all default_type (last ∷ [])
        ≡ some (map row rows ++ rows_count rs.size ∷ times rs.times ∷ [])
  unfolding consume
  consume-single rs rows last default_type (typed, counted, there, size, columns, time, fulls) =
      let n : last.rows_size ≡ length last.csv_rows = size ∙ (omega (arith, ap length there)) in
      let shown =
        ap (λ x. show_rows {Time = Time} x last.csv_rows) n ∙ show_rows-all last.csv_rows in
      let whole : last.csv_rows ≡ rows = there in
      let tail = rows_count rs.size ∷ times rs.times ∷ [] in
      rw (typed, shown, counted, time)
        (ap some (append-nil (map row last.csv_rows ++ tail) ∙ ap (λ x. map row x ++ tail) whole))
