-- ===== src/MemDb/Flow/Create/Termination.antt =====
-- The loop over the columns of a new table ends.
use lab.Prelude.{
  ℕ, zero, suc, ◌+◌, ◌≤◌, ◌≡◌, ◌==◌, ltb, List, [], Option, none, some, Bytes, arith, Bool-cases,
  inl, inr, ltb→lt, false,
}
use lab.MemDb.Outcome.{Outcome, ok}
use lab.MemDb.Layouts.Header.{max_col_num}
use lab.MemDb.Flow.{NetworkMsg, read_number, read_name}
use lab.MemDb.Flow.Rounds.{Takes, Takes-bind, Takes-if, Ends, round-Ends}
use lab.MemDb.Flow.Create.{Column, ColTyp, read_type, read_column, read_columns}

module _ (long_sz : ℕ) where
  read_column-Takes : (mem : Bytes) (pos idx : ℕ) → Takes (read_column long_sz mem pos idx)
  read_column-Takes mem pos idx = Takes-bind (read_number mem pos 4) _ λ size.
      Takes-if (size == 0) _ (
        Takes-bind (read_name mem (pos + 4) size idx) _
          λ name. Takes-bind (read_type long_sz mem (pos + (4 + size))) _ (rest name size))
    where
      rest :
          (name : Bytes) (size : ℕ) (t : Option ((ℕ × ColTyp) × ℕ))
          → Takes {P = Column} (elim t [
            | none ↦ ok none
            | some ((s, typ), n) ↦
                ok (some (record { name = name; typsz = s; typ = typ }, 4 + size + n))
          ])
      rest name size none = tt
      rest name size (some ((s, typ), n)) = omega arith

  at_the_end :
      (fuel acc idx : ℕ) (msg : NetworkMsg)
      → ltb acc msg.param_sz ≡ false
      → Ends (read_columns long_sz (suc fuel) msg acc idx)
  unfolding read_columns
  at_the_end fuel acc idx msg done = elim (Bool-cases (ltb max_col_num idx)) [
    | inl many ↦ (ok none, rw (done, many, read_columns))
    | inr few ↦ (ok (some []), rw (done, few, read_columns))
  ]

  -- The loop over the columns ends after at most one round for each byte of the parameters and one
  -- more, whatever the message holds: with all of them read, with -1, or with a fault.
  pub read_columns-Ends :
      (fuel : ℕ) (msg : NetworkMsg) (acc idx : ℕ)
      → msg.param_sz ≤ acc + fuel
      → (r : Outcome (Option (List Column))) × (read_columns long_sz (suc fuel) msg acc idx
          ≡ some r)
  unfolding read_columns
  read_columns-Ends zero msg acc idx h = at_the_end zero acc idx msg (ground arith)
  read_columns-Ends (suc fuel) msg acc idx h = elim (Bool-cases (ltb acc msg.param_sz)) [
    | inr done ↦ at_the_end (suc fuel) acc idx msg done
    | inl more ↦
        rw (more, read_columns)
          (round-Ends (read_column long_sz msg.buff (msg.lay_nm_sz + acc) idx)
            (λ c n. read_columns long_sz (suc fuel) msg (acc + n) (idx + 1))
            (read_column-Takes msg.buff (msg.lay_nm_sz + acc) idx)
            λ c n h'.
              read_columns-Ends fuel msg (acc + n) (idx + 1)
                (omega (arith, ltb→lt acc msg.param_sz more)))
  ]
