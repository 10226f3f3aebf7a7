-- ===== src/MessageStore/Ui/Loop.antt =====
-- `runUiLoop`: that it ends, how it ends, and what the menu makes of a line.
use lab.Prelude.{
  ℕ, zero, suc, ◌≤◌, ◌<◌, ◌≡◌, refl, Bool, true, false, if◌then◌else◌, [], ◌∷◌, ◌++◌, take, Bytes,
  arith, subst, ap, ◌∙◌, Bool-cases, inl, inr, some, Without,
}
use lab.MessageStore.Outcome
use lab.MessageStore.Outcome.{
  Fault, Outcome, ok, raised, undefined, stream_exception, Outcome-cases, at,
}
use lab.MessageStore.Device.StdStream
use lab.MessageStore.Device.StdStream.{newline}
use lab.MessageStore.Device.{write_data, read_data, ignore_till_char}
use lab.MessageStore.Device.Supply.{supply}
use lab.MessageStore.Users.{UserManager}
use lab.MessageStore.Ui.{
  ClientUiTask, UserOptions, Task, display_user_options, read_user_request, user_option, ui_round,
  run_ui_loop, handle_user_request, say, display, read_line_from_stream, finish_line,
}
use lab.MessageStore.Ui.Prompts.{welcome, option_add, option_send, option_recv, option_exit}
use lab.MessageStore.Ui.Console.{console, shown, say-console, read_line-console}
use lab.MessageStore.Ui.Effects.{Ends, ends, fails, read_line-Quiet}
use lab.MessageStore.Ui.Safety.{Left, say-Left, handle_user_request-Left}

-- A result with less than `n` left to read, or a fault.
data Lessens {A : Type 0} (n : ℕ) : Outcome (A × ClientUiTask) → Type 0 where
  less : {a : A} {t : ClientUiTask} → supply t.io_device < n → Lessens n (ok (a, t))
  fault : {e : Fault} → Lessens n (raised e)

after :
    {A B : Type 0} {n : ℕ} {P : A → ClientUiTask → Type 0} {m : Outcome (A × ClientUiTask)}
    {f : A → Task B}
    → Ends P m
    → ((a : A) (t : ClientUiTask) → P a t → Lessens n (f a t))
    → Lessens n (Outcome.◌>>=◌ m (λ (a, t). f a t))
after (ends p) next = next _ _ p
after (fails d) next = fault

lessen :
    {A : Type 0} {n k : ℕ} {m : Outcome (A × ClientUiTask)} → k < n → Ends (Left k) m → Lessens n m
lessen lt (ends le) = less (omega arith)
lessen lt (fails d) = fault

after_less :
    {A B : Type 0} {n : ℕ} {m : Outcome (A × ClientUiTask)} {f : A → Task B}
    → Lessens n m
    → ((a : A) (t : ClientUiTask)
        → supply t.io_device < n
        → Ends (Left (supply t.io_device)) (f a t))
    → Lessens n (Outcome.◌>>=◌ m (λ (a, t). f a t))
after_less (less h) next = lessen h (next _ _ h)
after_less fault next = fault

read_user_request-Lessens :
    (n : ℕ) (t : ClientUiTask) → supply t.io_device ≤ n → Lessens n (read_user_request t)
unfolding read_user_request
read_user_request-Lessens n t h =
    after (read_line-Quiet 0 t) λ cs t' (_, lt). chosen cs t' (omega arith)
  where
    chosen :
        (cs : Bytes) (t' : ClientUiTask)
        → supply t'.io_device < n
        → Lessens n
            (Outcome.◌>>=◌ (Outcome.◌>>=◌ (at cs 0) (λ c. ok (user_option c))) (λ o. ok (o, t')))
    chosen [] t' lt = fault
    chosen (c ∷ cs) t' lt = less lt

display_user_options-Lessens :
    (t : ClientUiTask) → Lessens (supply t.io_device) (display_user_options t)
unfolding display_user_options
display_user_options-Lessens t =
    let n = supply t.io_device in
    after (say-Left n welcome t (omega arith)) λ _ t₁ h₁.
      after (say-Left n option_add t₁ h₁) λ _ t₂ h₂. after (say-Left n option_send t₂ h₂) λ _ t₃ h₃.
        after (say-Left n option_recv t₃ h₃) λ _ t₄ h₄.
          after (say-Left n option_exit t₄ h₄) λ _ t₅ h₅. read_user_request-Lessens n t₅ h₅

lessened :
    {A : Type 0} {n : ℕ} {a : A} {t : ClientUiTask} → Lessens n (ok (a, t)) → supply t.io_device < n
lessened (less h) = h

-- The loop was left by a fault or because the flag is down.
abbrev pub Finished : Outcome ClientUiTask → Type 0
Finished (raised e) = Unit {0}
Finished (ok t) = t.keep_running ≡ false

module _ (hash : Bytes → ℕ) where
  ui_round-Lessens : (t : ClientUiTask) → Lessens (supply t.io_device) (ui_round hash t)
  unfolding ui_round
  ui_round-Lessens t =
      after_less (display_user_options-Lessens t)
        λ o t' h. handle_user_request-Left (supply t'.io_device) hash o t' (omega arith)

  -- The loop ends after at most two rounds more than there are bytes of input left, and after one where
  -- the input has failed or the device is the stub, by a fault or with `m_keepRunning` false.
  pub run_ui_loop-Finished :
      (fuel : ℕ) (t : ClientUiTask)
      → supply t.io_device < fuel
      → (r : Outcome ClientUiTask) × (run_ui_loop hash fuel t ≡ some r) × Finished r
  unfolding run_ui_loop
  run_ui_loop-Finished zero t h = absurd (omega arith)
  run_ui_loop-Finished (suc fuel) t h = elim (Outcome-cases (ui_round hash t)) [
    | inr (e, eq) ↦ (raised e, rw (eq, run_ui_loop), tt)
    | inl ((u, t'), eq) ↦
        let lt = lessened (subst (Lessens (supply t.io_device)) eq (ui_round-Lessens t)) in
        elim (Bool-cases t'.keep_running) [
          | inr off ↦ (ok t', rw (eq, run_ui_loop, off), off)
          | inl on ↦
              let (r, e, f) = run_ui_loop-Finished fuel t' (omega arith) in
              let pick = λ (b : Bool). if b then run_ui_loop hash fuel t' else some (ok t') in
              (r, rw (eq, run_ui_loop) (ap pick on ∙ e), f)
        ]
  ]

-- The screen after the menu.
abbrev pub menu : Bytes → Bytes
menu written =
    shown (shown (shown (shown (shown written welcome) option_add) option_send) option_recv)
      option_exit

module _ (m : UserManager) (running : Bool) where
  -- The menu is printed, and the first byte of the line that is typed decides, whatever follows it
  -- on the line. An empty line is undefined behaviour.
  pub display_user_options-console :
      (line rest written : Bytes)
      → Without newline line
      → display_user_options (console (line ++ newline ∷ rest) written m running)
        ≡ (Outcome.◌>>=◌ (at line 0) λ c. ok (user_option c, console rest (menu written) m running))
  unfolding display_user_options read_user_request
  display_user_options-console line rest written w =
      let input = line ++ newline ∷ rest in
      let s₁ = shown written welcome in
      let s₂ = shown s₁ option_add in
      let s₃ = shown s₂ option_send in
      let s₄ = shown s₃ option_recv in
      rw
        (
          say-console m running welcome input written,
          say-console m running option_add input s₁,
          say-console m running option_send input s₂,
          say-console m running option_recv input s₃,
          say-console m running option_exit input s₄,
          read_line-console m running 0 line rest (menu written) w,
        )
        (chosen line)
    where
      after_menu : ClientUiTask
      after_menu = console rest (menu written) m running

      chosen :
          (line : Bytes)
          → (Outcome.◌>>=◌ {B = UserOptions × ClientUiTask}
              (Outcome.◌>>=◌ (at (take 1 line) 0) (λ c. ok (user_option c)))
              λ o. ok (o, after_menu))
            ≡ (Outcome.◌>>=◌ (at line 0) λ c. ok (user_option c, after_menu))
      chosen [] = refl
      chosen (c ∷ cs) = refl

module _ (hash : Bytes → ℕ) (m : UserManager) where
  round_empty_line :
      (rest written : Bytes) (running : Bool)
      → ui_round hash (console (newline ∷ rest) written m running) ≡ raised undefined
  unfolding ui_round
  round_empty_line rest written running =
      rw (display_user_options-console m running [] rest written tt)

  -- Whenever the line at the menu is empty, the program has undefined behaviour.
  pub run_ui_loop_empty_line :
      (fuel : ℕ) (rest written : Bytes) (running : Bool)
      → run_ui_loop hash (suc fuel) (console (newline ∷ rest) written m running)
        ≡ some (raised undefined)
  unfolding run_ui_loop
  run_ui_loop_empty_line fuel rest written running =
      rw (round_empty_line rest written running, run_ui_loop)

  -- A console that comes to its end while the loop runs ends the program by the exception of the
  -- stream, in the second round.
  pub run_ui_loop_end_of_input :
      (fuel : ℕ) (written : Bytes)
      → run_ui_loop hash (suc (suc fuel)) (console [] written m true)
        ≡ some (raised stream_exception)
  unfolding run_ui_loop ui_round display_user_options say display write_data StdStream.write_data
      read_user_request read_line_from_stream read_data StdStream.read_data StdStream.read_loop
      finish_line ignore_till_char StdStream.ignore_till_char handle_user_request
  run_ui_loop_end_of_input fuel written = refl
