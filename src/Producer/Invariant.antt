-- ===== src/Producer/Invariant.antt =====
-- The states that a run passes through.
use lab.Prelude.{◌<◌, ℕ, zero, suc, ◌+◌, ◌*◌, ◌≡◌, refl, List, [], ◌∷◌, arith}
use lab.Producer.{
  int_max, increment, connecting, sending, waiting, accepting, reading, acking, backlog, accepted,
  System, system, Step, started, connect, is_connected, send_msg_to_consumer, get_consumer_ack,
  accept, read_consumer_msg, send_ack,
}

-- The ids from `n` down to 1.
abbrev pub down_from : ℕ → List ℕ
down_from zero = []
down_from (suc n) = suc n ∷ down_from n

-- A state after `n` acknowledgements. One message at most is on its way, and it has the next id.
pub data Stage : ℕ → System → Type 0 where
  new : Stage 0 started
  asked : Stage 0 (system sending 1 accepting backlog [] [] [])
  early : Stage 0 (system waiting 1 accepting backlog (1 ∷ []) [] [])
  idle : (n : ℕ) → Stage n (system connecting (suc n) reading accepted [] [] (down_from n))
  ready : (n : ℕ) → Stage n (system sending (suc n) reading accepted [] [] (down_from n))
  sent : (n : ℕ) → Stage n (system waiting (suc n) reading accepted (suc n ∷ []) [] (down_from n))
  handled : (n : ℕ) → Stage n (system waiting (suc n) (acking (suc n)) accepted [] [] (down_from n))
  acked : (n : ℕ) → Stage n (system waiting (suc n) reading accepted [] (suc n ∷ []) (down_from n))

-- How many steps lead there.
abbrev pub progress : {n : ℕ} {s : System} → Stage n s → ℕ
progress new = 0
progress asked = 1
progress early = 2
progress (idle n) = 5 * n + 1
progress (ready n) = 5 * n + 2
progress (sent n) = 5 * n + 3
progress (handled n) = 5 * n + 4
progress (acked n) = 5 * n + 5

abbrev pub Next : {n : ℕ} {s : System} → Stage n s → System → Type 0
Next st t = (n' : ℕ) × (st' : Stage n' t) × (progress st' ≡ progress st + 1)

-- As many steps as are taken before the index is the greatest `int` and is incremented.
abbrev pub max_steps : ℕ
max_steps = 5 * int_max

increment-small : (over n : ℕ) → n < int_max → increment over n ≡ suc n
increment-small over n h = ground arith

-- A step ends in a state of the same kind, where the index does not run over.
pub Step-Stage :
    {over n : ℕ} {s t : System} (st : Stage n s)
    → Step over s t
    → progress st < max_steps
    → Next st t
Step-Stage new connect b = (0, asked, refl)
Step-Stage new (is_connected h) b = absurd (h refl)
Step-Stage asked send_msg_to_consumer b = (0, early, refl)
Step-Stage asked accept b = (0, ready 0, refl)
Step-Stage early accept b = (0, sent 0, refl)
Step-Stage (idle n) (is_connected h) b = (n, ready n, omega arith)
Step-Stage (ready n) send_msg_to_consumer b = (n, sent n, omega arith)
Step-Stage (sent n) (read_consumer_msg h) b = (n, handled n, omega arith)
Step-Stage (handled n) send_ack b = (n, acked n, omega arith)
Step-Stage {over} (acked n) get_consumer_ack b =
    rw (increment-small over (suc n) (omega arith)) (suc n, idle (suc n), omega arith)
