-- ===== src/MessageStore/Ui/Requests.antt =====
-- What each request does at a console whose streams are good.
use lab.Prelude.{
  ℕ, ◌≡◌, refl, [], ◌∷◌, ◌++◌, Bytes, Bool, not, if◌then◌else◌, Without, take, arith, Bool-cases,
  inl, inr,
}
use lab.MessageStore.Outcome
use lab.MessageStore.Outcome.{Outcome, ok}
use lab.MessageStore.Device.StdStream.{newline}
use lab.MessageStore.Users
use lab.MessageStore.Users.{
  User, UserMsg, Messages, UserManager, does_user_exist, get_user_messages, send_to_user,
}
use lab.MessageStore.Ui.{
  parse_user, parse_user_from_input, is_exists, handle_add_user, handle_send_to_user,
  handle_recv_for_user, show_messages, display_messages,
}
use lab.MessageStore.Ui.Prompts.{
  usr_add, usr_exist, send_usr_from, send_usr_to, no_such_user, rcv_usr, no_msg, msg_header,
}
use lab.MessageStore.Ui.Prompts
use lab.MessageStore.Ui.Console.{
  console, shown, printed, say-console, display-console, read_line-console,
}

-- The user that a line names: its first 40 bytes are read.
abbrev pub named : Bytes → User
named line = parse_user (take 40 line)

-- The screen after a list of messages.
abbrev pub listed : Bytes → Messages → Bytes
listed written [] = written
listed written (m ∷ ms) = listed (printed written m.msg) ms

abbrev pub answered : Bytes → Messages → Bytes
answered written [] = shown written no_msg
answered written (m ∷ ms) = listed (shown written msg_header) (m ∷ ms)

module _ (m : UserManager) (running : Bool) where
  parse_user_from_input-console :
      (line rest written : Bytes)
      → Without newline line
      → parse_user_from_input 40 (console (line ++ newline ∷ rest) written m running)
        ≡ ok (named line, console rest written m running)
  unfolding parse_user_from_input
  parse_user_from_input-console line rest written w =
      rw (read_line-console m running 39 line rest written w)

  display_messages-console :
      (ms : Messages) (input written : Bytes)
      → display_messages ms (console input written m running)
        ≡ ok (tt, console input (listed written ms) m running)
  display_messages-console [] input written = refl
  display_messages-console (msg ∷ ms) input written =
      rw (display-console m running msg.msg input written)
        (display_messages-console ms input (printed written msg.msg))

  show_messages-console :
      (ms : Messages) (input written : Bytes)
      → show_messages ms (console input written m running)
        ≡ ok (tt, console input (answered written ms) m running)
  unfolding show_messages
  show_messages-console [] input written = say-console m running no_msg input written
  show_messages-console (msg ∷ ms) input written =
      rw (say-console m running msg_header input written)
        (display_messages-console (msg ∷ ms) input (shown written msg_header))

module _ (hash : Bytes → ℕ) (m : UserManager) (running : Bool) where
  -- Adding a user asks for the names, adds the user that the line names to the database, and says
  -- so if there is one already; the rest of the input is left.
  pub handle_add_user-console :
      (line rest written : Bytes)
      → Without newline line
      → handle_add_user hash (console (line ++ newline ∷ rest) written m running) ≡ (
          let (code, m') = Users.add_user hash m (named line) in
          let screen = shown written usr_add in
          ok (
            tt,
            console rest (if is_exists code then shown screen usr_exist else screen) m' running,
          ))
  unfolding handle_add_user
  handle_add_user-console line rest written w =
      rw
        (
          say-console m running usr_add (line ++ newline ∷ rest) written,
          parse_user_from_input-console m running line rest (shown written usr_add) w,
        )
        (ground (
          arith,
          say-console (Users.add_user hash m (named line)).1 running usr_exist rest
              (shown written usr_add),
        ))

  -- Sending asks for the sender, for the receiver and for the message, in this order, and stops at
  -- the first of the two that is not in the database, with the input behind that line left. When
  -- both are there, the first 128 bytes of the message's line go to the receiver.
  pub handle_send_to_user-console :
      (l₁ l₂ l₃ rest written : Bytes)
      → Without newline l₁
      → Without newline l₂
      → Without newline l₃
      → handle_send_to_user hash
          (console (l₁ ++ newline ∷ (l₂ ++ newline ∷ (l₃ ++ newline ∷ rest))) written m running)
        ≡ (let screen = shown written send_usr_from in
            let screen' = shown screen send_usr_to in
            if not (does_user_exist hash m (named l₁))
            then ok (
              tt,
              console
                  (l₂ ++ newline ∷ (l₃ ++ newline ∷ rest))
                  (shown screen no_such_user)
                  m
                  running,
            )
            else (if not (does_user_exist hash m (named l₂))
                then ok (tt, console (l₃ ++ newline ∷ rest) (shown screen' no_such_user) m running)
                else Outcome.◌>>=◌
                    (send_to_user hash m
                      (record { from = named l₁; to = named l₂; msg = take 128 l₃ }))
                    λ m'. ok (tt, console rest (shown screen' Prompts.user_msg) m' running)))
  unfolding handle_send_to_user
  handle_send_to_user-console l₁ l₂ l₃ rest written w₁ w₂ w₃ =
      let in₃ = l₃ ++ newline ∷ rest in
      let in₂ = l₂ ++ newline ∷ in₃ in
      let screen = shown written send_usr_from in
      let screen' = shown screen send_usr_to in
      rw
        (
          say-console m running send_usr_from (l₁ ++ newline ∷ in₂) written,
          parse_user_from_input-console m running l₁ in₂ screen w₁,
        )
        (elim (Bool-cases (does_user_exist hash m (named l₁))) [
          | inr e ↦ rw e (say-console m running no_such_user in₂ screen)
          | inl e ↦
              rw
                (
                  e,
                  say-console m running send_usr_to in₂ screen,
                  parse_user_from_input-console m running l₂ in₃ screen' w₂,
                )
                (elim (Bool-cases (does_user_exist hash m (named l₂))) [
                  | inr e' ↦ rw e' (say-console m running no_such_user in₃ screen')
                  | inl e' ↦ rw (
                    e',
                    say-console m running Prompts.user_msg in₃ screen',
                    read_line-console m running 127 l₃ rest (shown screen' Prompts.user_msg) w₃,
                  )
                ])
        ])

  -- Receiving asks for a user, says so if there is none, and otherwise prints the messages that
  -- wait for the user, oldest first, or that there are none, and takes them out of the database.
  pub handle_recv_for_user-console :
      (line rest written : Bytes)
      → Without newline line
      → handle_recv_for_user hash (console (line ++ newline ∷ rest) written m running) ≡ (
          let screen = shown written rcv_usr in
          let (ms, m') = get_user_messages hash m (named line) in
          if not (does_user_exist hash m (named line))
          then ok (tt, console rest (shown screen no_such_user) m running)
          else ok (tt, console rest (answered screen ms) m' running))
  unfolding handle_recv_for_user
  handle_recv_for_user-console line rest written w =
      let screen = shown written rcv_usr in
      let (ms, m') = get_user_messages hash m (named line) in
      rw
        (
          say-console m running rcv_usr (line ++ newline ∷ rest) written,
          parse_user_from_input-console m running line rest screen w,
        )
        (elim (Bool-cases (does_user_exist hash m (named line))) [
          | inr e ↦ rw e (say-console m running no_such_user rest screen)
          | inl e ↦ rw e (show_messages-console m' running ms rest screen)
        ])
