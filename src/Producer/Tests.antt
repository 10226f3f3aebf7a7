-- ===== src/Producer/Tests.antt =====
-- A run in which the producer writes before it is accepted.
use lab.Prelude.{ℕ, ◌+◌, ◌*◌, ◌≤◌, ◌≡◌, [], ◌∷◌, arith}
use lab.Producer.{
  System, system, connecting, waiting, reading, accepting, accepted, backlog, Step, started, Run,
  here, next, printed, connect, send_msg_to_consumer, get_consumer_ack, accept, read_consumer_msg,
  send_ack,
}
use lab.Producer.Invariant.{down_from}
use lab.Producer.Progress.{Run-acks, LockStep, Run-LockStep}

abbrev after_one : System
after_one = system connecting 2 reading accepted [] [] (1 ∷ [])

one_message : Run 0 6 started after_one
one_message =
    next
      (next
        (next (next (next (next here connect) send_msg_to_consumer) accept)
          (read_consumer_msg (λ e. absurd (omega arith))))
        send_ack)
      get_consumer_ack

Run-acks_example :
    (n : ℕ) × (printed after_one ≡ down_from n)
    × (5 * n ≤ 6)
    × (6 ≤ 5 * n + 5)
    × ((t : System) × Step 0 after_one t)
Run-acks_example = Run-acks one_message (omega arith)

two_steps : Run 0 2 started (system waiting 1 accepting backlog (1 ∷ []) [] [])
two_steps = next (next here connect) send_msg_to_consumer

Run-LockStep_example : LockStep (system waiting 1 accepting backlog (1 ∷ []) [] [])
Run-LockStep_example = Run-LockStep two_steps (omega arith)
