-- ===== src/Producer.antt =====
-- producer-consumer: a producer and a consumer over a stream socket, each a loop in a process of its
-- own. A step is a system call of one of them that returns; a message is written and read as a
-- whole. No process ends. What `msgIndex++` makes of the greatest `int` is the parameter `over`.
pub mod Invariant
pub mod Progress
mod Tests
use lab.Prelude.{ℕ, suc, ◌+◌, ◌≢◌, ◌==◌, if◌then◌else◌, List, [], ◌∷◌, ◌++◌}

-- Where the producer is in its loop: before `connect`, before the write of the message, and before
-- the read of the acknowledgement.
pub data ProducerTask : Type 0 where
  connecting sending waiting : ProducerTask

-- The consumer: before `accept`, before the read of a message, and before the write of the
-- acknowledgement for a message with this id.
pub data ConsumerTask : Type 0 where
  accepting reading : ConsumerTask
  acking : ℕ → ConsumerTask

-- The connection: there is none, it is in the backlog of the listening socket, or it was accepted.
pub data Connection : Type 0 where
  closed backlog accepted : Connection

abbrev MsgIndex : Type 0
MsgIndex = ℕ

-- The greatest `int`.
abbrev pub int_max : ℕ
int_max = 2147483647

-- `msgIndex++`
abbrev pub increment : ℕ → MsgIndex → MsgIndex
increment over n = if n == int_max then over else n + 1

-- The two tasks, `msgIndex`, the connection with the ids of the messages and of the acknowledgements
-- that are in it, and the ids that the producer has printed, the last one first.
pub data System : Type 0 where
  system : ProducerTask → MsgIndex → ConsumerTask → Connection → List ℕ → List ℕ → List ℕ → System

pub data Step (over : ℕ) : System → System → Type 0 where
  -- `handleConnect`: the connection is new, or there is one and `connect` says `EISCONN`
  connect :
      {n : ℕ} {c : ConsumerTask} {ms acks log : List ℕ}
      → Step over
          (system connecting n c closed ms acks log)
          (system sending n c backlog ms acks log)
  is_connected :
      {n : ℕ} {c : ConsumerTask} {k : Connection} {ms acks log : List ℕ}
      → k ≢ closed
      → Step over (system connecting n c k ms acks log) (system sending n c k ms acks log)
  send_msg_to_consumer :
      {n : ℕ} {c : ConsumerTask} {k : Connection} {ms acks log : List ℕ}
      → Step over (system sending n c k ms acks log) (system waiting n c k (ms ++ n ∷ []) acks log)
  get_consumer_ack :
      {n i : ℕ} {c : ConsumerTask} {k : Connection} {ms acks log : List ℕ}
      → Step over
          (system waiting n c k ms (i ∷ acks) log)
          (system connecting (increment over n) c k ms acks (i ∷ log))
  accept :
      {p : ProducerTask} {n : ℕ} {ms acks log : List ℕ}
      → Step over
          (system p n accepting backlog ms acks log)
          (system p n reading accepted ms acks log)
  read_consumer_msg :
      {p : ProducerTask} {n i : ℕ} {ms acks log : List ℕ}
      → i ≢ 0
      → Step over
          (system p n reading accepted (i ∷ ms) acks log)
          (system p n (acking i) accepted ms acks log)
  -- a message with the id 0: the consumer closes, and accepts again
  producer_down :
      {p : ProducerTask} {n : ℕ} {ms acks log : List ℕ}
      → Step over
          (system p n reading accepted (0 ∷ ms) acks log)
          (system p n accepting closed ms acks log)
  send_ack :
      {p : ProducerTask} {n i : ℕ} {ms acks log : List ℕ}
      → Step over
          (system p n (acking i) accepted ms acks log)
          (system p n reading accepted ms (acks ++ i ∷ []) log)

abbrev pub printed : System → List ℕ
printed (system p n c k ms acks log) = log

-- The ids in the connection, and the one that the consumer has in hand.
abbrev pub in_hand : ConsumerTask → List ℕ
in_hand accepting = []
in_hand reading = []
in_hand (acking i) = i ∷ []

abbrev pub on_the_way : System → List ℕ
on_the_way (system p n c k ms acks log) = ms ++ (in_hand c ++ acks)

abbrev pub index_of : System → ℕ
index_of (system p n c k ms acks log) = n

-- What the constructors of both tasks leave.
abbrev pub started : System
started = system connecting 1 accepting closed [] [] []

-- A run of so many steps.
pub data Run (over : ℕ) : ℕ → System → System → Type 0 where
  here : {s : System} → Run over 0 s s
  next : {k : ℕ} {s t u : System} → Run over k s t → Step over t u → Run over (suc k) s u
