-- ===== src/Producer/Progress.antt =====
-- What a run has achieved, and that it goes on.
use lab.Prelude.{ℕ, ◌+◌, ◌*◌, ◌≤◌, ◌≡◌, refl, [], ◌∷◌, arith, ◌⊎◌, inl, inr}
use lab.Producer.{
  System, Step, started, Run, here, next, printed, on_the_way, index_of, connect, is_connected,
  send_msg_to_consumer, get_consumer_ack, accept, read_consumer_msg, send_ack,
}
use lab.Producer.Invariant.{
  Stage, new, asked, early, idle, ready, sent, handled, acked, max_steps, progress, down_from,
  Step-Stage,
}

Run-Stage :
    {over k : ℕ} {s : System}
    → Run over k started s
    → k ≤ max_steps
    → (n : ℕ) × (st : Stage n s) × (progress st ≡ k)
Run-Stage here h = (0, new, refl)
Run-Stage (next run step) h =
    let (n, st, e) = Run-Stage run (omega arith) in
    let (n', st', f) = Step-Stage st step (omega arith) in (n', st', omega arith)

Stage-printed : {n : ℕ} {s : System} → Stage n s → printed s ≡ down_from n
Stage-printed new = refl
Stage-printed asked = refl
Stage-printed early = refl
Stage-printed (idle n) = refl
Stage-printed (ready n) = refl
Stage-printed (sent n) = refl
Stage-printed (handled n) = refl
Stage-printed (acked n) = refl

progress-bounds :
    {n : ℕ} {s : System} (st : Stage n s) → (5 * n ≤ progress st) × (progress st ≤ 5 * n + 5)
progress-bounds new = omega arith
progress-bounds asked = omega arith
progress-bounds early = omega arith
progress-bounds (idle n) = omega arith
progress-bounds (ready n) = omega arith
progress-bounds (sent n) = omega arith
progress-bounds (handled n) = omega arith
progress-bounds (acked n) = omega arith

Stage-goes : {over n : ℕ} {s : System} → Stage n s → (t : System) × Step over s t
Stage-goes new = (_, connect)
Stage-goes asked = (_, accept)
Stage-goes early = (_, accept)
Stage-goes (idle n) = (_, is_connected (λ e. cc e))
Stage-goes (ready n) = (_, send_msg_to_consumer)
Stage-goes (sent n) = (_, read_consumer_msg (λ e. absurd (omega arith)))
Stage-goes (handled n) = (_, send_ack)
Stage-goes (acked n) = (_, get_consumer_ack)

-- A run of `k` steps, in whatever order the two processes take them, goes on, and the producer has
-- printed the acknowledgements of `n` messages, each once and in order, where `k` is not below `5 n`
-- and not above `5 n + 5`. The steps are no more than five for each message up to the one whose id
-- is the greatest `int`.
pub Run-acks :
    {over k : ℕ} {s : System}
    → Run over k started s
    → k ≤ max_steps
    → (n : ℕ) × (printed s ≡ down_from n)
      × (5 * n ≤ k)
      × (k ≤ 5 * n + 5)
      × ((t : System) × Step over s t)
Run-acks run h =
    let (n, st, e) = Run-Stage run h in
    let (low, high) = progress-bounds st in
    (n, Stage-printed st, omega arith, omega arith, Stage-goes st)

-- No message but the next one to be acknowledged is on its way.
abbrev pub LockStep : System → Type 0
LockStep s = (on_the_way s ≡ []) ⊎ (on_the_way s ≡ index_of s ∷ [])

Stage-LockStep : {n : ℕ} {s : System} → Stage n s → LockStep s
Stage-LockStep new = inl refl
Stage-LockStep asked = inl refl
Stage-LockStep early = inr refl
Stage-LockStep (idle n) = inl refl
Stage-LockStep (ready n) = inl refl
Stage-LockStep (sent n) = inr refl
Stage-LockStep (handled n) = inr refl
Stage-LockStep (acked n) = inr refl

-- In every state of a run the socket and the consumer hold nothing, or one message or its
-- acknowledgement, whose id is the producer's index, so long as the steps are no more than five for
-- each message up to the one whose id is the greatest `int`.
pub Run-LockStep : {over k : ℕ} {s : System} → Run over k started s → k ≤ max_steps → LockStep s
Run-LockStep run h = let (n, st, e) = Run-Stage run h in Stage-LockStep st
