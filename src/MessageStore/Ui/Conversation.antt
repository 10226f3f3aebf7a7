-- ===== src/MessageStore/Ui/Conversation.antt =====
-- A message that one user sends and another receives, at a console whose streams are good.
use lab.Prelude.{
  ℕ, ◌≡◌, Bool, true, [], ◌∷◌, ◌++◌, Bytes, Without, take, arith, Option-cases, inl, inr,
}
use mathlib.Core.Bool.{false≢true}
use lab.MessageStore.Outcome.{ok}
use lab.MessageStore.Device.StdStream.{newline}
use lab.MessageStore.Users.{
  UserMsg, UserManager, does_user_exist, send_to_user, get_user_messages, find_user_box,
  add_message, clear_users_box, insert,
}
use lab.MessageStore.Users.Boxes.{key, lookup-insert}
use lab.MessageStore.Users.Delivery.{contents}
use lab.MessageStore.Ui.{◌>>◌, handle_send_to_user, handle_recv_for_user}
use lab.MessageStore.Ui.Prompts
use lab.MessageStore.Ui.Prompts.{send_usr_from, send_usr_to, rcv_usr}
use lab.MessageStore.Ui.Console.{console, shown}
use lab.MessageStore.Ui.Requests.{
  named, answered, handle_send_to_user-console, handle_recv_for_user-console,
}

module _ (hash : Bytes → ℕ) (m : UserManager) where
  -- After a send to a user who is there, the user is still there, and has the message behind those
  -- that were waiting.
  sent_state :
      (msg : UserMsg)
      → does_user_exist hash m msg.to ≡ true
      → (m' : UserManager) × (send_to_user hash m msg ≡ ok m')
        × (does_user_exist hash m' msg.to ≡ true)
        × ((get_user_messages hash m' msg.to).0 ≡ contents (key hash msg.to) m ++ msg ∷ [])
  unfolding send_to_user does_user_exist get_user_messages find_user_box add_message clear_users_box
  sent_state msg known = elim (Option-cases (find_user_box hash m msg.to)) [
    | inl e ↦ absurd (false≢true (ground (arith, e)))
    | inr (b, e) ↦
        let k = key hash msg.to in
        let b' = record b { msgs = b.msgs ++ msg ∷ [] } in
        let there = lookup-insert k k b' m.users_by_hash in
        (
          record { users_by_hash = insert k b' m.users_by_hash },
          rw (e, send_to_user),
          ground (arith, there),
          ground (arith, there),
        )
  ]

  -- When both users are in the database, a message that is sent and then asked for is printed: the
  -- receiver gets all that was waiting, oldest first, and the first 128 bytes of the message last.
  pub send_recv :
      (l₁ l₂ l₃ rest written : Bytes) (running : Bool)
      → Without newline l₁
      → Without newline l₂
      → Without newline l₃
      → does_user_exist hash m (named l₁) ≡ true
      → does_user_exist hash m (named l₂) ≡ true
      → (m' : UserManager) × ((handle_send_to_user hash >> handle_recv_for_user hash) (
            console
              (l₁ ++ newline ∷ (l₂ ++ newline ∷ (l₃ ++ newline ∷ (l₂ ++ newline ∷ rest))))
              written
              m
              running)
          ≡ ok (
            tt,
            console rest
                (answered
                  (shown
                    (shown (shown (shown written send_usr_from) send_usr_to) Prompts.user_msg)
                    rcv_usr)
                  (contents (key hash (named l₂)) m
                    ++ record { from = named l₁; to = named l₂; msg = take 128 l₃ } ∷ []))
                m'
                running,
          ))
  send_recv l₁ l₂ l₃ rest written running w₁ w₂ w₃ known₁ known₂ =
      let msg : UserMsg = record { from = named l₁; to = named l₂; msg = take 128 l₃ } in
      let (m₁, sent, there, got) = sent_state msg known₂ in
      let screen = shown (shown (shown written send_usr_from) send_usr_to) Prompts.user_msg in
      (
        (get_user_messages hash m₁ (named l₂)).1,
        rw (
          handle_send_to_user-console hash m running l₁ l₂ l₃ (l₂ ++ newline ∷ rest) written w₁ w₂
              w₃,
          known₁,
          known₂,
          sent,
          handle_recv_for_user-console hash m₁ running l₂ rest screen w₂,
          there,
          got,
        ),
      )
