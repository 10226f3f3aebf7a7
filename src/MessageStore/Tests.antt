-- ===== src/MessageStore/Tests.antt =====
-- A session at the console, and the theorems at its data.
use lab.Prelude.{
  Without, lacks, Without-of_lacks, ℕ, suc, ◌+◌, ◌%◌, ◌^◌, ◌≡◌, refl, Bool, true, false, List, [],
  ◌∷◌, ◌++◌, Bytes, codes, arith, Option, some, none, not,
}
use lab.MessageStore.Outcome.{Outcome, ok, raised}
use lab.MessageStore.Device.StdStream
use lab.MessageStore.Device.StdStream.{newline}
use lab.MessageStore.Device.{read_data, write_data, ignore_till_char}
use lab.MessageStore.Device.Supply.{supply}
use lab.MessageStore.Users.{
  User, UserMsg, UserManager, find_user_box, does_user_exist, add_user, send_to_user,
  get_user_messages, add_message, clear_users_box,
}
use lab.MessageStore.Users.Boxes.{key}
use lab.MessageStore.Users.Delivery.{
  Call, adds, sends, receives, contents, sent, received, step, run, run-contents,
}
use lab.MessageStore.Ui.{
  ClientUiTask, send_msg, ◌>>◌, say, display, read_line_from_stream, finish_line, getline,
  parse_user, parse_user_from_input, read_user_request, display_user_options, handle_send_to_user,
  handle_recv_for_user, handle_user_request, show_messages, stop_ui_thread, ui_round, run_ui_loop,
}
use lab.MessageStore.Ui.Console.{console, read_line-console, shown}
use lab.MessageStore.Ui.Prompts
use lab.MessageStore.Ui.Prompts.{
  text, usr_add, usr_exist, send_usr_from, send_usr_to, no_such_user, rcv_usr,
}
use lab.MessageStore.Ui.Requests.{named, answered}
use lab.MessageStore.Ui.Conversation.{send_recv}
use lab.MessageStore.Ui.Names.{parse_user-names}
use lab.MessageStore.Ui.Loop.{Finished, run_ui_loop-Finished}
use lab.MessageStore.Ui.Safety.{Left, handle_user_request-Left}
use lab.MessageStore.Ui.Effects.{Ends}

-- The sum of the bytes, as a stand-in for `std::hash`.
abbrev sum_hash : Bytes → ℕ
sum_hash [] = 0
sum_hash (c ∷ cs) = (c + sum_hash cs) % 2 ^ 64

abbrev no_users : UserManager
no_users = record { users_by_hash = [] }

abbrev john : User
john = record { first_name = codes "John"; last_name = codes "Doe" }

abbrev jane : User
jane = record { first_name = codes "Jane"; last_name = codes "Roe" }

abbrev hello : UserMsg
hello = record { from = john; to = jane; msg = codes "hello" }

-- Both users are there, and a message waits for Jane.
abbrev users : UserManager
users = record {
  users_by_hash =
      (sum_hash (codes "JohnDoe"), record { msgs = [] })
      ∷ (sum_hash (codes "JaneRoe"), record { msgs = hello ∷ [] })
      ∷ [];
}

abbrev calls : List Call
calls = adds john ∷ adds jane ∷ sends hello ∷ receives jane ∷ sends hello ∷ []

abbrev log : List (Call × List UserMsg)
log =
    (adds john, [])
    ∷ (adds jane, [])
    ∷ (sends hello, [])
    ∷ (receives jane, hello ∷ [])
    ∷ (sends hello, [])
    ∷ []

calls-run : run sum_hash calls no_users ≡ ok (log, users)
unfolding run step add_user does_user_exist find_user_box send_to_user add_message get_user_messages
    clear_users_box
calls-run = refl

run-contents_example :
    contents (key sum_hash jane) no_users ++ sent sum_hash (key sum_hash jane) calls
    ≡ received sum_hash (key sum_hash jane) log ++ contents (key sum_hash jane) users
run-contents_example = run-contents sum_hash (key sum_hash jane) calls no_users users log calls-run

abbrev session : Bytes
session = codes "1\nJohn Doe\n1\nJane Roe\n2\nJohn Doe\nJane Roe\nhello\n3\nJane Roe\n4\n"

-- The whole session: the two users are added, the message is delivered, and the loop is left.
abbrev ends_well : Option (Outcome ClientUiTask) → Bool
ends_well (some (ok t)) = not t.keep_running
ends_well (some (raised e)) = false
ends_well none = false

session_ends : ends_well (run_ui_loop sum_hash 6 (console session [] no_users true)) ≡ true
unfolding run_ui_loop ui_round display_user_options say display write_data StdStream.write_data
    read_user_request read_line_from_stream read_data StdStream.read_data StdStream.read_loop
    finish_line ignore_till_char StdStream.ignore_till_char handle_user_request parse_user getline
    parse_user_from_input add_user does_user_exist find_user_box send_to_user add_message
    get_user_messages clear_users_box show_messages stop_ui_thread text
session_ends = refl

abbrev task : ClientUiTask
task = console session [] users true

run_ui_loop-Finished_example :
    (r : Outcome ClientUiTask) × (run_ui_loop sum_hash (suc (supply task.io_device)) task ≡ some r)
    × Finished r
run_ui_loop-Finished_example =
    run_ui_loop-Finished sum_hash (suc (supply task.io_device)) task (omega arith)

handle_user_request-Left_example :
    Ends (Left (supply task.io_device)) (handle_user_request sum_hash send_msg task)
handle_user_request-Left_example =
    handle_user_request-Left (supply task.io_device) sum_hash send_msg task (omega arith)

typed : (line : Bytes) → lacks newline line ≡ true → Without newline line
typed line h = Without-of_lacks newline line h

read_line-console_example :
    read_line_from_stream 3 (console (codes "hello" ++ newline ∷ codes "4") [] users true)
    ≡ ok (codes "hel", console (codes "4") [] users true)
read_line-console_example =
    read_line-console users true 2 (codes "hello") (codes "4") [] (typed (codes "hello") refl)

abbrev from_line : Bytes
from_line = codes "John Doe"

abbrev to_line : Bytes
to_line = codes "Jane Roe"

abbrev hi_line : Bytes
hi_line = codes "hi"

from_typed : Without newline from_line
from_typed = typed from_line refl

to_typed : Without newline to_line
to_typed = typed to_line refl

hi_typed : Without newline hi_line
hi_typed = typed hi_line refl

john_exists : does_user_exist sum_hash users (named from_line) ≡ true
unfolding does_user_exist find_user_box parse_user getline
john_exists = refl

jane_exists : does_user_exist sum_hash users (named to_line) ≡ true
unfolding does_user_exist find_user_box parse_user getline
jane_exists = refl

send_recv_example :
    (m' : UserManager) × ((handle_send_to_user sum_hash >> handle_recv_for_user sum_hash) (
        console
          (from_line
            ++ newline ∷ (to_line ++ newline ∷ (hi_line ++ newline ∷ (to_line ++ newline ∷ []))))
          []
          users
          true)
      ≡ ok (
        tt,
        console []
            (answered
              (shown (shown (shown (shown [] send_usr_from) send_usr_to) Prompts.user_msg) rcv_usr)
              (contents (key sum_hash (named to_line)) users
                ++ record { from = named from_line; to = named to_line; msg = hi_line } ∷ []))
            m'
            true,
      ))
send_recv_example =
    send_recv sum_hash users from_line to_line hi_line [] [] true from_typed to_typed hi_typed
      john_exists jane_exists

parse_user-names_example :
    parse_user (codes "Jane" ++ b' ' ∷ codes "van Roe")
    ≡ record { first_name = codes "Jane"; last_name = codes "van Roe" }
parse_user-names_example =
    parse_user-names (codes "Jane") (codes "van Roe") (Without-of_lacks b' ' (codes "Jane") refl)
      (Without-of_lacks 0 (codes "van Roe") refl)
