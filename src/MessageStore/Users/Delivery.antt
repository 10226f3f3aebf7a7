-- ===== src/MessageStore/Users/Delivery.antt =====
-- What becomes of the messages over any run of calls on the user database.
use lab.Prelude.{
  ℕ, ◌==◌, if◌then◌else◌, ◌≡◌, List, [], ◌∷◌, ◌++◌, Bytes, arith, append-nil, append_assoc, ==_iff,
  subst,
}
use lab.MessageStore.Outcome.{Outcome, ok, ◌>>=◌, >>=-eq-ok, ok-injective}
use lab.MessageStore.Users.{
  User, UserMsg, Messages, UserManager, add_user, send_to_user, get_user_messages,
}
use lab.MessageStore.Users.Boxes.{
  key, box_at, waiting, add_user-box_at, send_to_user-box_at, get_user_messages-box_at,
}

pub data Call : Type 0 where
  adds : User → Call
  sends : UserMsg → Call
  receives : User → Call

-- The messages that wait at a hash.
abbrev pub contents : ℕ → UserManager → Messages
contents k m = waiting (box_at k m)

module _ (hash : Bytes → ℕ) where
  -- One call, and the messages that it hands out.
  unfoldable pub step : Call → UserManager → Outcome (Messages × UserManager)
  step (adds u) m = ok ([], (add_user hash m u).1)
  step (sends msg) m = do m' ← send_to_user hash m msg; ok ([], m')
  step (receives u) m = ok (get_user_messages hash m u)

  -- A run of calls, with the log of what each handed out.
  unfoldable pub run : List Call → UserManager → Outcome (List (Call × Messages) × UserManager)
  run [] m = ok ([], m)
  run (c ∷ cs) m = step c m >>= λ (out, m'). run cs m' >>= λ (log, m''). ok ((c, out) ∷ log, m'')

  -- What a call sends to the hash `k`, and what it receives from there.
  abbrev pub sent_by : ℕ → Call → Messages
  sent_by k (adds u) = []
  sent_by k (sends msg) = if key hash msg.to == k then msg ∷ [] else []
  sent_by k (receives u) = []

  abbrev pub received_by : ℕ → Call × Messages → Messages
  received_by k (adds u, out) = []
  received_by k (sends msg, out) = []
  received_by k (receives u, out) = if key hash u == k then out else []

  abbrev pub sent : ℕ → List Call → Messages
  sent k [] = []
  sent k (c ∷ cs) = sent_by k c ++ sent k cs

  abbrev pub received : ℕ → List (Call × Messages) → Messages
  received k [] = []
  received k (e ∷ log) = received_by k e ++ received k log

  step-contents :
      (k : ℕ) (c : Call) (m : UserManager) (out : Messages) (m' : UserManager)
      → step c m ≡ ok (out, m')
      → contents k m ++ sent_by k c ≡ received_by k (c, out) ++ contents k m'
  unfolding step
  step-contents k (adds u) m out m' e =
      ground (arith, append-nil (contents k m), add_user-box_at hash m u k)
  step-contents k (sends msg) m out m' e = ground (
    arith,
    append-nil (contents k m),
    send_to_user-box_at hash m msg k,
    ==_iff (key hash msg.to) k,
  )
  step-contents k (receives u) m out m' e =
      ground (
        arith,
        append-nil (contents k m),
        get_user_messages-box_at hash m u k,
        ==_iff (key hash u) k,
      )

  -- What waited and was sent is what was received and waits.
  abbrev Balanced : ℕ → UserManager → List Call → List (Call × Messages) × UserManager → Type 0
  Balanced k m cs (log, m') = contents k m ++ sent k cs ≡ received k log ++ contents k m'

  Balanced-cons :
      (k : ℕ) (c : Call) (cs : List Call) (m m₁ m₂ : UserManager) (out : Messages)
      (log : List (Call × Messages))
      → step c m ≡ ok (out, m₁)
      → Balanced k m₁ cs (log, m₂)
      → Balanced k m (c ∷ cs) ((c, out) ∷ log, m₂)
  Balanced-cons k c cs m m₁ m₂ out log e b = cc (
    step-contents k c m out m₁ e,
    append_assoc (contents k m) (sent_by k c) (sent k cs),
    append_assoc (received_by k (c, out)) (contents k m₁) (sent k cs),
    append_assoc (received_by k (c, out)) (received k log) (contents k m₂),
  )

  run-Balanced :
      (k : ℕ) (cs : List Call) (m : UserManager) (r : List (Call × Messages) × UserManager)
      → run cs m ≡ ok r
      → Balanced k m cs r
  unfolding run
  run-Balanced k [] m r e = subst (Balanced k m []) (ok-injective e) (append-nil (contents k m))
  run-Balanced k (c ∷ cs) m r e =
      let ((out, m₁), e₁, e₂) = >>=-eq-ok (step c m) _ r e in
      let ((log, m₂), e₃, e₄) = >>=-eq-ok (run cs m₁) _ r e₂ in
      subst (Balanced k m (c ∷ cs)) (ok-injective e₄)
        (Balanced-cons k c cs m m₁ m₂ out log e₁ (run-Balanced k cs m₁ (log, m₂) e₃))

  -- No message is lost, doubled or reordered: over any run of calls that goes through, what waited
  -- at a hash and what was then sent to it are, in this order, what was received from it and what
  -- waits there now.
  pub run-contents :
      (k : ℕ) (cs : List Call) (m m' : UserManager) (log : List (Call × Messages))
      → run cs m ≡ ok (log, m')
      → contents k m ++ sent k cs ≡ received k log ++ contents k m'
  run-contents k cs m m' log e = run-Balanced k cs m (log, m') e
