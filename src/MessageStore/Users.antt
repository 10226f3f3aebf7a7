-- ===== src/MessageStore/Users.antt =====
-- MessageStore/client/inc/UserManager.h and src/UserManager.cpp: the database of users, each with a
-- box of messages. A user is found by the hash of the two names written one after the other.
pub mod Boxes
pub mod Delivery
use lab.Prelude.{
  ℕ, ◌==◌, if◌then◌else◌, Bool, true, false, List, [], ◌∷◌, ◌++◌, Option, none, some, Bytes,
}
use lab.MessageStore.Outcome.{Outcome, ok, raised, undefined}

pub data ReturnCodes : Type 0 where
  success not_exists exists bad_opt : ReturnCodes

pub record User : Type 0 where
  pub first_name : Bytes
  pub last_name : Bytes

pub record UserMsg : Type 0 where
  pub from : User
  pub to : User
  pub msg : Bytes

abbrev pub Messages : Type 0
Messages = List UserMsg

pub record MsgStoreUserBox : Type 0 where
  pub msgs : Messages

unfoldable pub add_message : MsgStoreUserBox → UserMsg → MsgStoreUserBox
add_message b m = record { msgs = b.msgs ++ m ∷ [] }

unfoldable pub clear_users_box : MsgStoreUserBox → MsgStoreUserBox
clear_users_box b = record { msgs = [] }

-- A `std::map` from hashes to boxes: `find`, and the assignment `m[k] = b`.
abbrev pub UserMap : Type 0
UserMap = List (ℕ × MsgStoreUserBox)

abbrev pub lookup : ℕ → UserMap → Option MsgStoreUserBox
lookup k [] = none
lookup k ((j, b) ∷ m) = if j == k then some b else lookup k m

abbrev pub insert : ℕ → MsgStoreUserBox → UserMap → UserMap
insert k b [] = (k, b) ∷ []
insert k b ((j, c) ∷ m) = if j == k then (k, b) ∷ m else (j, c) ∷ insert k b m

pub record UserManager : Type 0 where
  pub users_by_hash : UserMap

abbrev pub full_name : User → Bytes
full_name u = u.first_name ++ u.last_name

-- `hash` is `std::hash<std::string>`.
module _ (hash : Bytes → ℕ) where
  unfoldable pub find_user_box : UserManager → User → Option MsgStoreUserBox
  find_user_box m u = lookup (hash (full_name u)) m.users_by_hash

  unfoldable pub does_user_exist : UserManager → User → Bool
  does_user_exist m u = elim (find_user_box m u) [ none ↦ false | some b ↦ true ]

  unfoldable pub add_user : UserManager → User → ReturnCodes × UserManager
  add_user m u = if does_user_exist m u then (exists, m) else (
    success,
    record { users_by_hash = insert (hash (full_name u)) (record { msgs = [] }) m.users_by_hash },
  )

  -- The box behind the iterator is written in place. The iterator is not compared with the end.
  unfoldable pub send_to_user : UserManager → UserMsg → Outcome UserManager
  send_to_user m msg = elim (find_user_box m msg.to) [
    | none ↦ raised undefined
    | some b ↦ ok (record {
      users_by_hash = insert (hash (full_name msg.to)) (add_message b msg) m.users_by_hash;
    })
  ]

  unfoldable pub get_user_messages : UserManager → User → Messages × UserManager
  get_user_messages m u = elim (find_user_box m u) [
    | none ↦ ([], m)
    | some b ↦ (
      b.msgs,
      record { users_by_hash = insert (hash (full_name u)) (clear_users_box b) m.users_by_hash },
    )
  ]
