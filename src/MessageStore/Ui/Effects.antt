-- ===== src/MessageStore/Ui/Effects.antt =====
-- What a call of the task can do, whatever the device: how it ends, and how much input is left.
use lab.Prelude.{
  ℕ, suc, ◌-◌, ◌≤◌, ◌<◌, take, ◌≡◌, refl, ◌==◌, [], ◌∷◌, Bytes, length, arith, Bool-cases, inl, inr,
}
use lab.MessageStore.Outcome
use lab.MessageStore.Outcome.{
  Fault, Outcome, ok, raised, stream_exception, bad_any_cast, undefined, at,
}
use lab.MessageStore.Device.StdStream.{newline}
use lab.MessageStore.Device.{IoDevice, ignore_till_char}
use lab.MessageStore.Device.Supply.{
  supply, ignore_till_char-supply, write_data_cases, read_data_cases,
}
use lab.MessageStore.Ui.{ClientUiTask, Task, display, say, read_line_from_stream, finish_line}
use lab.MessageStore.Ui.Prompts.{Prompt, text}

-- A fault that is no undefined behaviour.
abbrev pub IsDefined : Fault → Type 0
IsDefined stream_exception = Unit {0}
IsDefined bad_any_cast = Unit {0}
IsDefined undefined = ⊥

pub data Ends {A : Type 0} (P : A → ClientUiTask → Type 0)
    : Outcome (A × ClientUiTask) → Type 0 where
  ends : {a : A} {t : ClientUiTask} → P a t → Ends P (ok (a, t))
  fails : {e : Fault} → IsDefined e → Ends P (raised e)

pub bind :
    {A B : Type 0} {P : A → ClientUiTask → Type 0} {Q : B → ClientUiTask → Type 0}
    {m : Outcome (A × ClientUiTask)} {f : A → Task B}
    → Ends P m
    → ((a : A) (t : ClientUiTask) → P a t → Ends Q (f a t))
    → Ends Q (Outcome.◌>>=◌ m (λ (a, t). f a t))
bind (ends p) next = next _ _ p
bind (fails d) next = fails d

-- The database and the flag are as they were, and at most `n` is left to read.
pub record Quiet (t : ClientUiTask) (n : ℕ) (t' : ClientUiTask) : Type 0 where
  pub users : t'.user_manager ≡ t.user_manager
  pub running : t'.keep_running ≡ t.keep_running
  pub left : supply t'.io_device ≤ n

pub Ends-mono :
    {A : Type 0} {P Q : A → ClientUiTask → Type 0} {m : Outcome (A × ClientUiTask)}
    → Ends P m
    → ((a : A) (t : ClientUiTask) → P a t → Ends Q (ok (a, t)))
    → Ends Q m
Ends-mono (ends p) next = next _ _ p
Ends-mono (fails d) next = fails d

pub display-Quiet :
    (line : Bytes) (t : ClientUiTask) → Ends (λ _. Quiet t (supply t.io_device)) (display line t)
unfolding display
display-Quiet line t = elim (write_data_cases t.io_device line (length line)) [
  | inl (d, e, same) ↦ rw e (ends (record { users = refl; running = refl; left = omega arith }))
  | inr e ↦ rw e (fails tt)
]

pub say-Quiet : (p : Prompt) (t : ClientUiTask) → Ends (λ _. Quiet t (supply t.io_device)) (say p t)
unfolding say
say-Quiet p t = display-Quiet (text p) t

-- The last byte of a chunk that is not empty is there.
last_byte : (c : ℕ) (cs : Bytes) → (b : ℕ) × (at (c ∷ cs) (length cs) ≡ ok b)
last_byte c [] = (c, refl)
last_byte c (d ∷ cs) = last_byte d cs

finish_line-supply :
    (c : ℕ) (cs : Bytes) (d : IoDevice)
    → (r : Bytes × IoDevice) × (finish_line (c ∷ cs) d ≡ ok r) × (supply r.1 ≤ supply d)
unfolding finish_line
finish_line-supply c cs d =
    let (b, e) = last_byte c cs in
    let l : length (c ∷ cs) - 1 ≡ length cs = omega arith in
    elim (Bool-cases (b == newline)) [
      | inl end ↦ ((take (length cs) (c ∷ cs), d), rw (l, e, end), omega arith)
      | inr more ↦
          ((c ∷ cs, ignore_till_char d newline), rw (l, e, more), ignore_till_char-supply d newline)
    ]

-- A line that is read takes some of the input.
pub read_line-Quiet :
    (n : ℕ) (t : ClientUiTask)
    → Ends
        (λ _ t'. Quiet t (supply t.io_device) t' × (supply t'.io_device < supply t.io_device))
        (read_line_from_stream (suc n) t)
unfolding read_line_from_stream
read_line-Quiet n t = elim (read_data_cases t.io_device n) [
  | inl (c, cs, d, e, less) ↦
      let ((line, d'), e', le) = finish_line-supply c cs d in
      rw (e, e') (ends (record { users = refl; running = refl; left = omega arith }, omega arith))
  | inr (inl (k, e)) ↦ rw e (fails tt)
  | inr (inr e) ↦ rw e (fails tt)
]
