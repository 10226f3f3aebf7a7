-- ===== src/MemDb/Flow/Termination.antt =====
-- The loop over the parameters of a message ends.
use lab.Prelude.{
  ℕ, zero, suc, ◌+◌, ◌≤◌, ◌≡◌, ◌==◌, ltb, List, [], Option, some, Bytes, arith, Bool-cases, inl,
  inr, le→ltb, ltb→lt,
}
use lab.MemDb.Outcome.{Outcome, ok}
use lab.MemDb.Flow.{NetworkMsg, read_number, read_name, read_pair, read_params}
use lab.MemDb.Flow.Rounds.{Takes, Takes-bind, Takes-if, round-Ends}

read_pair-Takes : (mem : Bytes) (pos idx : ℕ) → Takes (read_pair mem pos idx)
read_pair-Takes mem pos idx = Takes-bind (read_number mem pos 4) _ λ size. Takes-if (size == 0) _ (
    Takes-bind (read_name mem (pos + 4) size idx) _
      λ name. Takes-bind (read_number mem (pos + 4 + size) 8) _ λ val. omega arith)

-- The loop over the parameters ends after at most one round for each byte of them and one
-- more, whatever the message holds: with all of them read, with -1, or with a fault.
pub read_params-Ends :
    (fuel : ℕ) (msg : NetworkMsg) (acc idx : ℕ)
    → msg.param_sz ≤ acc + fuel
    → (r : Outcome (Option (List (Bytes × ℕ)))) × (read_params (suc fuel) msg acc idx ≡ some r)
unfolding read_params
read_params-Ends zero msg acc idx h =
    (ok (some []), rw (le→ltb acc msg.param_sz (omega arith), read_params))
read_params-Ends (suc fuel) msg acc idx h = elim (Bool-cases (ltb acc msg.param_sz)) [
  | inr done ↦ (ok (some []), rw (done, read_params))
  | inl more ↦
      rw (more, read_params)
        (round-Ends (read_pair msg.buff (msg.lay_nm_sz + acc) idx)
          (λ p n. read_params (suc fuel) msg (acc + n) (idx + 1))
          (read_pair-Takes msg.buff (msg.lay_nm_sz + acc) idx)
          λ p n h'.
            read_params-Ends fuel msg (acc + n) (idx + 1)
              (omega (arith, ltb→lt acc msg.param_sz more)))
]
