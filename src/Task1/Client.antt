-- ===== src/Task1/Client.antt =====
-- The client of task1/src/SocketClient.cpp: it sends a query, and shows what is answered.
pub mod Shows
use lab.Prelude.{
  ℕ, zero, suc, Bool, true, if◌then◌else◌, List, [], ◌∷◌, ◌++◌, Option, none, some, Bytes,
}
use lab.Prelude.Result.{Result, ok, raised}
use lab.Prelude.Optional.{◌>>=◌}
use lab.Task1.Link.{Link, Fault}
use lab.Task1.Package.{send_package, protocol_protobuf}
use lab.Task1.Respond.{Respond, RespondType, status, result, Request, Codec}
use lab.Task1.InStream.{handle_proto_buff_recv}

-- What is shown: the text of an error, a row, the count of rows, and the times.
pub data Shown (Time : Type 0) : Type 0 where
  error_text : Bytes → Shown Time
  row : Bytes → Shown Time
  rows_count : ℕ → Shown Time
  times : Time → Shown Time

-- The value of an enumeration that is not set is its default.
abbrev pub type_of : RespondType → Option RespondType → RespondType
type_of default_type none = default_type
type_of default_type (some t) = t

module _ {Time : Type 0} where
  -- `while (count < size)`; a row that the message does not have is undefined.
  abbrev pub show_rows : ℕ → List Bytes → Option (List (Shown Time))
  show_rows zero rows = some []
  show_rows (suc n) [] = none
  show_rows (suc n) (r ∷ rows) = do others ← show_rows n rows; some (row r ∷ others)

  abbrev pub show_times : Option Time → List (Shown Time)
  show_times none = []
  show_times (some t) = times t ∷ []

  abbrev pub consume_as : RespondType → Respond Time → Option (List (Shown Time))
  consume_as status m = some (if m.failure then error_text m.error_message ∷ [] else [])
  consume_as result m = do
    shown ← show_rows m.rows_size m.csv_rows
    some (shown ++ rows_count m.rows_count ∷ show_times m.query_time)

  -- `consume`
  unfoldable pub consume : RespondType → Respond Time → Option (List (Shown Time))
  consume default_type m = consume_as (type_of default_type m.type) m

  -- The messages are consumed one after the other.
  abbrev pub consume_all : RespondType → List (Respond Time) → Option (List (Shown Time))
  consume_all default_type [] = some []
  consume_all default_type (m ∷ ms) = do
    shown ← consume default_type m
    others ← consume_all default_type ms
    some (shown ++ others)

abbrev pub query_request : Bytes → Request
query_request sql = record { is_query = true; is_sql = true; sqlquery = sql }

module _ {Time : Type 0} (k : Link) (requests : Codec Request)
    (responds : Codec (Respond Time)) where
  open k use {Sock}

  -- The query was sent, and the answer is read.
  abbrev pub read_answer : ℕ → Result Fault Sock → List (Respond Time) × Result Fault Sock
  read_answer fuel (raised e) = ([], raised e)
  read_answer fuel (ok s) = handle_proto_buff_recv k responds fuel s

  -- `sendQuery`, over a socket that is connected: the messages that are consumed.
  unfoldable pub send_query : ℕ → Bytes → Sock → List (Respond Time) × Result Fault Sock
  send_query fuel sql s =
      read_answer fuel (send_package k protocol_protobuf (requests.serialize (query_request sql)) s)
