-- ===== src/MessageStore/Ui.antt =====
-- MessageStore/client/inc/ClientUiTask.h and src/ClientUiTask.cpp: the task that serves the console.
-- Its state is the device, the user database and `m_keepRunning`; a call takes the state and
-- returns it, or a fault that ends the program, since no handler of the task catches anything.
pub mod Prompts
pub mod Console
pub mod Names
pub mod Requests
pub mod Effects
pub mod Safety
pub mod Loop
pub mod Conversation
pub mod StubDevice
use lab.Prelude.{
  ℕ, zero, suc, ◌+◌, ◌-◌, ◌==◌, if◌then◌else◌, Bool, true, false, not, List, [], ◌∷◌, Bytes, length,
  take, codes, Option, none, some,
}
use lab.MessageStore.Outcome
use lab.MessageStore.Outcome.{Outcome, ok, raised, bad_any_cast, at}
use lab.MessageStore.Device.StdStream.{AnyValue, chunk, integer, newline}
use lab.MessageStore.Device.{IoDevice, read_data, write_data, ignore_till_char}
use lab.MessageStore.Users
use lab.MessageStore.Users.{
  ReturnCodes, success, not_exists, exists, User, UserMsg, Messages, UserManager, does_user_exist,
  send_to_user, get_user_messages,
}
use Prompts.{
  Prompt, welcome, option_add, option_send, option_recv, option_exit, good_bye, bad_option, usr_add,
  send_usr_from, send_usr_to, no_such_user, user_msg as user_msg_prompt, rcv_usr, usr_exist,
  msg_header, no_msg, text,
}

pub data UserOptions : Type 0 where
  add_user : UserOptions
  send_msg recv_all_msgs exit : UserOptions
  bad_opt : UserOptions

pub record ClientUiTask : Type 0 where
  pub io_device : IoDevice
  pub user_manager : UserManager
  pub keep_running : Bool

abbrev pub Task : Type 0 → Type 0
Task A = ClientUiTask → Outcome (A × ClientUiTask)

abbrev pub pure : {A : Type 0} → A → Task A
pure a t = ok (a, t)

infixl 5 ◌>>=◌ ◌>>◌
abbrev pub ◌>>=◌ : {A B : Type 0} → Task A → (A → Task B) → Task B
◌>>=◌ m f t = Outcome.◌>>=◌ (m t) (λ (a, t'). f a t')

abbrev pub ◌>>◌ : {B : Type 0} → Task (Unit {0}) → Task B → Task B
m >> k = m >>= λ _. k

abbrev pub gets : {A : Type 0} → (ClientUiTask → A) → Task A
gets f t = ok (f t, t)

abbrev pub lift : {A : Type 0} → Outcome A → Task A
lift m t = Outcome.◌>>=◌ m λ a. ok (a, t)

abbrev pub with_users : {A : Type 0} → (UserManager → A × UserManager) → Task A
with_users f t = let (a, m) = f t.user_manager in ok (a, record t { user_manager = m })

abbrev pub max_usr_name : ℕ
max_usr_name = 20

abbrev pub max_usr_last : ℕ
max_usr_last = 20

abbrev pub max_msg_size : ℕ
max_msg_size = 128

-- `displaySingleMessage`
unfoldable pub display : Bytes → Task (Unit {0})
display prompt t =
    Outcome.◌>>=◌ (write_data t.io_device (chunk prompt) (length prompt))
      λ d. ok (tt, record t { io_device = d })

-- `ANY_CAST`
abbrev pub any_cast : AnyValue → Outcome Bytes
any_cast (chunk cs) = ok cs
any_cast (integer n) = raised bad_any_cast

-- What `readLineFromStream` does with the chunk that was read: the newline is cut off, or the rest
-- of the line is dropped.
unfoldable pub finish_line : Bytes → IoDevice → Outcome (Bytes × IoDevice)
finish_line cs d = Outcome.◌>>=◌ (at cs (length cs - 1)) λ last.
    ok (if last == newline then (take (length cs - 1) cs, d) else (cs, ignore_till_char d newline))

unfoldable pub read_line_from_stream : ℕ → Task Bytes
unfolding finish_line
read_line_from_stream len t = Outcome.◌>>=◌ (read_data t.io_device len) λ (a, d).
    Outcome.◌>>=◌ (any_cast a)
      λ cs. Outcome.◌>>=◌ (finish_line cs d) λ (line, d'). ok (line, record t { io_device = d' })

-- `std::getline` on a `std::stringstream`: the bytes before the delimiter, and those behind it, if
-- the delimiter is there.
unfoldable pub getline : Bytes → ℕ → Bytes × Bytes
getline [] delim = ([], [])
getline (c ∷ cs) delim =
    let (line, rest) = getline cs delim in if c == delim then ([], cs) else (c ∷ line, rest)

unfoldable pub parse_user : Bytes → User
unfolding getline
parse_user cs =
    let (first, rest) = getline cs b' ' in
    let (last, _) = getline rest 0 in record { first_name = first; last_name = last }

unfoldable pub parse_user_from_input : ℕ → Task User
unfolding parse_user
parse_user_from_input len_to_read = do cs ← read_line_from_stream len_to_read; pure (parse_user cs)

unfoldable pub say : Prompt → Task (Unit {0})
say p = display (text p)

abbrev pub user_option : ℕ → UserOptions
user_option c =
    if c == b'1'
    then UserOptions.add_user
    else if c == b'2'
    then send_msg
    else if c == b'3'
    then recv_all_msgs
    else if c == b'4'
    then exit
    else UserOptions.bad_opt

unfoldable pub read_user_request : Task UserOptions
read_user_request = do
  cs ← read_line_from_stream 1
  lift (Outcome.◌>>=◌ (at cs 0) (λ c. ok (user_option c)))

unfoldable pub display_user_options : Task UserOptions
display_user_options = do
  say welcome
  say option_add
  say option_send
  say option_recv
  say option_exit
  read_user_request

abbrev display_messages : Messages → Task (Unit {0})
display_messages [] = pure tt
display_messages (m ∷ ms) = display m.msg >> display_messages ms

-- `stopUiThread`
unfoldable pub stop_ui_thread : Task (Unit {0})
stop_ui_thread t = ok (tt, record t { keep_running = false })

unfoldable pub show_messages : Messages → Task (Unit {0})
show_messages [] = say no_msg
show_messages (m ∷ ms) = say msg_header >> display_messages (m ∷ ms)

abbrev pub is_exists : ReturnCodes → Bool
is_exists exists = true
is_exists success = false
is_exists not_exists = false
is_exists ReturnCodes.bad_opt = false

module _ (hash : Bytes → ℕ) where
  abbrev exists_in : User → ClientUiTask → Bool
  exists_in u t = does_user_exist hash t.user_manager u

  unfoldable pub handle_add_user : Task (Unit {0})
  handle_add_user = do
    say usr_add
    user ← parse_user_from_input (max_usr_name + max_usr_last)
    code ← with_users (λ m. Users.add_user hash m user)
    if is_exists code then say usr_exist else pure tt

  abbrev pub send_message : UserMsg → Task (Unit {0})
  send_message msg t =
      Outcome.◌>>=◌ (send_to_user hash t.user_manager msg)
        λ m. ok (tt, record t { user_manager = m })

  unfoldable pub handle_send_to_user : Task (Unit {0})
  handle_send_to_user = do
    say send_usr_from
    user_from ← parse_user_from_input (max_usr_name + max_usr_last)
    known_from ← gets (exists_in user_from)
    if not known_from then say no_such_user else do
      say send_usr_to
      user_to ← parse_user_from_input (max_usr_name + max_usr_last)
      known_to ← gets (exists_in user_to)
      if not known_to then say no_such_user else do
        say user_msg_prompt
        cs ← read_line_from_stream max_msg_size
        send_message (record { from = user_from; to = user_to; msg = cs })

  unfoldable pub handle_recv_for_user : Task (Unit {0})
  handle_recv_for_user = do
    say rcv_usr
    user ← parse_user_from_input (max_usr_name + max_usr_last)
    known ← gets (exists_in user)
    if not known
        then say no_such_user
        else do msgs ← with_users (λ m. get_user_messages hash m user); show_messages msgs

  unfoldable pub handle_user_request : UserOptions → Task (Unit {0})
  unfolding handle_add_user handle_send_to_user handle_recv_for_user
  handle_user_request UserOptions.add_user = handle_add_user
  handle_user_request send_msg = handle_send_to_user
  handle_user_request recv_all_msgs = handle_recv_for_user
  handle_user_request UserOptions.bad_opt = say bad_option
  handle_user_request exit = say good_bye >> stop_ui_thread

  -- One round of the loop.
  unfoldable pub ui_round : Task (Unit {0})
  unfolding handle_user_request
  ui_round = do opt ← display_user_options; handle_user_request opt

  -- `runUiLoop`; `none` means that the fuel ran out.
  unfoldable pub run_ui_loop : ℕ → ClientUiTask → Option (Outcome ClientUiTask)
  run_ui_loop zero t = none
  run_ui_loop (suc fuel) t = elim (ui_round t) [
    | raised e ↦ some (raised e)
    | ok (_, t') ↦ let rest = run_ui_loop fuel t' in if t'.keep_running then rest else some (ok t')
  ]
