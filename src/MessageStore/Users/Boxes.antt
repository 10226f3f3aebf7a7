-- ===== src/MessageStore/Users/Boxes.antt =====
-- The user database read one box at a time: what each operation does to the box at any hash.
use lab.Prelude.{
  ℕ, ◌==◌, if◌then◌else◌, ◌≡◌, refl, [], ◌∷◌, ◌++◌, Option, none, some, Bytes, arith, true, false,
  Bool, Option-cases, inl, inr, ap, not, ◌&&◌, ==_iff,
}
use lab.MessageStore.Outcome.{ok, raised, undefined, ◌>>=◌}
use lab.MessageStore.Users.{
  User, UserMsg, Messages, MsgStoreUserBox, UserMap, UserManager, full_name, lookup, insert, exists,
  success, does_user_exist, add_user, send_to_user, get_user_messages, find_user_box, add_message,
  clear_users_box,
}

pub lookup-insert :
    (k j : ℕ) (b : MsgStoreUserBox) (m : UserMap)
    → lookup j (insert k b m) ≡ (if k == j then some b else lookup j m)
lookup-insert k j b [] = refl
lookup-insert k j b ((i, c) ∷ m) = ground (arith, lookup-insert k j b m)

abbrev pub box_at : ℕ → UserManager → Option MsgStoreUserBox
box_at k m = lookup k m.users_by_hash

-- A box that holds the messages `ms`.
abbrev pub box_of : Messages → MsgStoreUserBox
box_of ms = record { msgs = ms }

-- Whether there is a box at a hash.
abbrev pub present : Option MsgStoreUserBox → Bool
present none = false
present (some b) = true

-- What waits in a box, and the box without it.
abbrev pub waiting : Option MsgStoreUserBox → Messages
waiting none = []
waiting (some b) = b.msgs

abbrev emptied : Option MsgStoreUserBox → Option MsgStoreUserBox
emptied none = none
emptied (some b) = some (box_of [])

module _ (hash : Bytes → ℕ) where
  abbrev pub key : User → ℕ
  key u = hash (full_name u)

  pub does_user_exist-box_at :
      (m : UserManager) (u : User) → does_user_exist hash m u ≡ present (box_at (key u) m)
  unfolding does_user_exist find_user_box
  does_user_exist-box_at m u = ground arith

  -- `addUser` says `EXISTS` and changes nothing where there is a box at the hash of the user's
  -- names. Otherwise it says `SUCCESS`, puts an empty box there, and leaves every other hash alone.
  pub add_user-box_at :
      (m : UserManager) (u : User) (k : ℕ)
      → ((add_user hash m u).0 ≡ (if present (box_at (key u) m) then exists else success))
        × (box_at k (add_user hash m u).1
            ≡ (if key u == k && not (present (box_at k m)) then some (box_of []) else box_at k m))
  unfolding add_user does_user_exist find_user_box
  add_user-box_at m u k =
      ground (arith, lookup-insert (key u) k (box_of []) m.users_by_hash, ==_iff (key u) k)

  -- `sendToUser` appends the message to the receiver's box and leaves every other box alone; where
  -- the receiver has no box it has undefined behaviour.
  pub send_to_user-box_at :
      (m : UserManager) (msg : UserMsg) (k : ℕ)
      → (send_to_user hash m msg >>= λ m'. ok (box_at k m')) ≡ elim (box_at (key msg.to) m) [
        | none ↦ raised undefined
        | some b ↦ ok (if key msg.to == k then some (box_of (b.msgs ++ msg ∷ [])) else box_at k m)
      ]
  unfolding send_to_user find_user_box add_message
  send_to_user-box_at m msg k = elim (Option-cases (box_at (key msg.to) m)) [
    | inl e ↦ rw (e, send_to_user)
    | inr (b, e) ↦ rw (e, send_to_user) (ap ok (lookup-insert (key msg.to) k _ m.users_by_hash))
  ]

  -- `getUserMessages` returns what waits in the user's box, nothing where there is no box; it
  -- empties that box, makes none, and leaves every other alone.
  pub get_user_messages-box_at :
      (m : UserManager) (u : User) (k : ℕ)
      → ((get_user_messages hash m u).0 ≡ waiting (box_at (key u) m))
        × (box_at k (get_user_messages hash m u).1
            ≡ (if key u == k then emptied (box_at k m) else box_at k m))
  unfolding get_user_messages find_user_box clear_users_box
  get_user_messages-box_at m u k =
      ground (arith, lookup-insert (key u) k (box_of []) m.users_by_hash, ==_iff (key u) k)
