-- ===== src/MessageStore/Ui/Safety.antt =====
-- No request has undefined behaviour, and none adds to the input, whatever the device and the
-- database.
use lab.Prelude.{ℕ, ◌≤◌, ◌≡◌, true, [], ◌∷◌, Bytes, arith, Bool-cases, inl, inr, Option-cases, ◌+◌}
use mathlib.Core.Bool.{false≢true}
use lab.MessageStore.Outcome
use lab.MessageStore.Outcome.{Outcome, ok}
use lab.MessageStore.Device.Supply.{supply}
use lab.MessageStore.Users
use lab.MessageStore.Users.{
  User, UserMsg, Messages, UserManager, does_user_exist, send_to_user, find_user_box,
  get_user_messages,
}
use lab.MessageStore.Ui.{
  ClientUiTask, UserOptions, send_msg, recv_all_msgs, exit, say, display, display_messages,
  show_messages, parse_user_from_input, is_exists, send_message, handle_add_user,
  handle_send_to_user, handle_recv_for_user, handle_user_request, stop_ui_thread,
  read_line_from_stream,
}
use lab.MessageStore.Ui.Prompts
use lab.MessageStore.Ui.Effects.{
  Ends, ends, bind, Ends-mono, display-Quiet, say-Quiet, read_line-Quiet,
}

-- At most `n` is left to read.
abbrev pub Left {ℓ} : {A : Type ℓ} → ℕ → A → ClientUiTask → Type 0
Left n _ t = supply t.io_device ≤ n

module _ (n : ℕ) where
  pub display-Left :
      (line : Bytes) (t : ClientUiTask) → supply t.io_device ≤ n → Ends (Left n) (display line t)
  display-Left line t h = Ends-mono (display-Quiet line t) λ _ t' q. ends (omega (arith, q.left))

  pub say-Left :
      (p : Prompts.Prompt) (t : ClientUiTask) → supply t.io_device ≤ n → Ends (Left n) (say p t)
  say-Left p t h = Ends-mono (say-Quiet p t) λ _ t' q. ends (omega (arith, q.left))

  pub display_messages-Left :
      (ms : Messages) (t : ClientUiTask)
      → supply t.io_device ≤ n
      → Ends (Left n) (display_messages ms t)
  display_messages-Left [] t h = ends h
  display_messages-Left (m ∷ ms) t h =
      bind (display-Left m.msg t h) λ _ t' h'. display_messages-Left ms t' h'

  show_messages-Left :
      (ms : Messages) (t : ClientUiTask)
      → supply t.io_device ≤ n
      → Ends (Left n) (show_messages ms t)
  unfolding show_messages
  show_messages-Left [] t h = say-Left Prompts.no_msg t h
  show_messages-Left (m ∷ ms) t h =
      bind (say-Left Prompts.msg_header t h) λ _ t' h'. display_messages-Left (m ∷ ms) t' h'

  parse_user-Left :
      (t : ClientUiTask)
      → supply t.io_device ≤ n
      → Ends (Left n) (parse_user_from_input (20 + 20) t)
  unfolding parse_user_from_input
  parse_user-Left t h = bind (read_line-Quiet 39 t) λ cs t' q. ends (omega (arith, q.1))

  module _ (hash : Bytes → ℕ) where
    handle_add_user-Left :
        (t : ClientUiTask) → supply t.io_device ≤ n → Ends (Left n) (handle_add_user hash t)
    unfolding handle_add_user
    handle_add_user-Left t h = bind (say-Left Prompts.usr_add t h) λ _ t₁ h₁.
        bind (parse_user-Left t₁ h₁) λ user t₂ h₂.
          let (code, m) = Users.add_user hash t₂.user_manager user in
          let t₃ = record t₂ { user_manager = m } in
          elim (Bool-cases (is_exists code)) [
            | inl e ↦ rw e (say-Left Prompts.usr_exist t₃ h₂)
            | inr e ↦ rw e (ends h₂)
          ]

    handle_recv_for_user-Left :
        (t : ClientUiTask) → supply t.io_device ≤ n → Ends (Left n) (handle_recv_for_user hash t)
    unfolding handle_recv_for_user
    handle_recv_for_user-Left t h = bind (say-Left Prompts.rcv_usr t h) λ _ t₁ h₁.
        bind (parse_user-Left t₁ h₁) λ user t₂ h₂.
          let (ms, m) = get_user_messages hash t₂.user_manager user in
          elim (Bool-cases (does_user_exist hash t₂.user_manager user)) [
            | inl e ↦ rw e (show_messages-Left ms (record t₂ { user_manager = m }) h₂)
            | inr e ↦ rw e (say-Left Prompts.no_such_user t₂ h₂)
          ]

    -- The receiver is known to be in the database.
    send_message-Left :
        (msg : UserMsg) (t : ClientUiTask)
        → does_user_exist hash t.user_manager msg.to ≡ true
        → supply t.io_device ≤ n
        → Ends (Left n) (send_message hash msg t)
    unfolding send_to_user does_user_exist
    send_message-Left msg t known h =
        elim (Option-cases (find_user_box hash t.user_manager msg.to)) [
          | inl e ↦ absurd (false≢true (ground (arith, e)))
          | inr (b, e) ↦ rw (e, send_to_user) (ends h)
        ]

    -- The message itself, once both names are known.
    send_line-Left :
        (from to : User) (t : ClientUiTask)
        → does_user_exist hash t.user_manager to ≡ true
        → supply t.io_device ≤ n
        → Ends (Left n) (
            Outcome.◌>>=◌ (say Prompts.user_msg t) λ (_, t₁).
              Outcome.◌>>=◌
                (read_line_from_stream 128 t₁)
                λ (cs, t₂). send_message hash (record { from = from; to = to; msg = cs }) t₂)
    send_line-Left from to t known h = bind (say-Quiet Prompts.user_msg t) λ _ t₁ q.
        bind (read_line-Quiet 127 t₁) λ cs t₂ r.
          send_message-Left _ t₂ (rw (r.0.users, q.users) known) (omega (arith, q.left, r.1))

    handle_send_to_user-Left :
        (t : ClientUiTask) → supply t.io_device ≤ n → Ends (Left n) (handle_send_to_user hash t)
    unfolding handle_send_to_user
    handle_send_to_user-Left t h = bind (say-Left Prompts.send_usr_from t h) λ _ t₁ h₁.
        bind (parse_user-Left t₁ h₁) λ from t₂ h₂.
          elim (Bool-cases (does_user_exist hash t₂.user_manager from)) [
            | inr e ↦ rw e (say-Left Prompts.no_such_user t₂ h₂)
            | inl e ↦ rw e (
                bind (say-Left Prompts.send_usr_to t₂ h₂) λ _ t₃ h₃.
                  bind (parse_user-Left t₃ h₃) λ to t₄ h₄.
                    elim (Bool-cases (does_user_exist hash t₄.user_manager to)) [
                      | inr e' ↦ rw e' (say-Left Prompts.no_such_user t₄ h₄)
                      | inl e' ↦ rw e' (send_line-Left from to t₄ e' h₄)
                    ])
          ]

    -- No request has undefined behaviour, and none leaves more input than there was.
    pub handle_user_request-Left :
        (o : UserOptions) (t : ClientUiTask)
        → supply t.io_device ≤ n
        → Ends (Left n) (handle_user_request hash o t)
    unfolding handle_user_request stop_ui_thread
    handle_user_request-Left UserOptions.add_user t h = handle_add_user-Left t h
    handle_user_request-Left send_msg t h = handle_send_to_user-Left t h
    handle_user_request-Left recv_all_msgs t h = handle_recv_for_user-Left t h
    handle_user_request-Left UserOptions.bad_opt t h = say-Left Prompts.bad_option t h
    handle_user_request-Left exit t h = bind (say-Left Prompts.good_bye t h) λ _ t' h'. ends h'
