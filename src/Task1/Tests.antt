-- ===== src/Task1/Tests.antt =====
-- A link that gives three bytes at most, and the theorems at its data.
use lab.Prelude.{
  ℕ, zero, suc, ◌≤◌, ◌≡◌, ◌≢◌, refl, ap, List, [], ◌∷◌, ◌++◌, All, Option, some, none, Bytes,
  length, take, drop, min, arith, length-take, take-append-drop,
}
use lab.Prelude.Result.{Result, ok, raised}
use lab.Task1.Link.{Link, IsReliable, Fault, disconnected, parse_failure}
use lab.Task1.Package.{recv_package, recv_loop, send_package, send_loop}
use lab.Task1.Respond.{
  JethroType, ColumnType, ResultSet, Respond, result, Request, Codec, IsCarried,
  translate_column_type,
}
use lab.Task1.OutStream.{
  fill, finalize_stream, send_rows, first_message, send_bulk, handle_proto_buff_send,
}
use lab.Task1.OutStream.Rows.{messages, answer_messages}
use lab.Task1.InStream.{handle_proto_buff_recv}
use lab.Task1.InStream.Delivery.{handle_proto_buff_recv-broken}
use lab.Task1.Server.{answered, abandoned, read_request, execute_task}
use lab.Task1.Server.Answers.{execute_task-refused}
use lab.Task1.Client.{query_request, send_query, row, rows_count, times, consume_all}
use lab.Task1.Exchange.{Answers, query-shown, query-unanswered}

abbrev three_bytes : Link
three_bytes = record {
  Sock = Bytes × Bytes;
  recv = λ (inc, out) n. ok (take (min n 3) inc, (drop (min n 3) inc, out));
  send = λ (inc, out) bytes. ok (inc, out ++ bytes);
  conv_htonl = λ x. x;
  conv_ntohl = λ x. x;
}

some_bytes : (inc : Bytes) → inc ≢ [] → 1 ≤ length inc
some_bytes [] h = absurd (h refl)
some_bytes (c ∷ inc) h = omega arith

no_pieces :
    (n : ℕ) (out : Bytes)
    → ◌≡◌ {A = Bytes × (Bytes × Bytes)} (take n [], (drop n [], out)) ([], ([], out))
no_pieces zero out = refl
no_pieces (suc n) out = refl

closed_recv :
    (inc out : Bytes) (n : ℕ) → inc ≡ [] → three_bytes.recv (inc, out) n ≡ ok ([], (inc, out))
closed_recv [] out n h = ap ok (no_pieces (min n 3) out)
closed_recv (c ∷ inc) out n h = absurd (cc h)

abbrev three_bytes-IsReliable : IsReliable three_bytes
three_bytes-IsReliable = record {
  incoming = λ (inc, out). inc;
  outgoing = λ (inc, out). out;
  recv_some = λ (inc, out) n asked there. (
    take (min n 3) inc,
    (drop (min n 3) inc, out),
    refl,
    omega (arith, length-take (min n 3) inc, some_bytes inc there),
    omega (arith, length-take (min n 3) inc),
    take-append-drop (min n 3) inc,
    refl,
  );
  recv_closed = λ (inc, out) n closed. closed_recv inc out n closed;
  send_all = λ (inc, out) bytes. ((inc, out ++ bytes), refl, refl, refl);
  htonl-lt = λ x h. h;
  ntohl-htonl = λ x h. refl;
}

-- A request is the bytes of its query.
abbrev requests : Codec Request
requests = record {
  serialize = λ request. request.sqlquery;
  parse = λ bytes. some (query_request bytes);
}

abbrev two_rows : ResultSet ℕ
two_rows = record {
  rows = (97 ∷ []) ∷ (98 ∷ 99 ∷ []) ∷ [];
  size = 2;
  meta_data =
      record { label = 65 ∷ []; name = 65 ∷ []; typ = JethroType.bigint; table_name = 84 ∷ [] }
      ∷ [];
  times = 4;
}

abbrev no_rows : ResultSet ℕ
no_rows = record two_rows { rows = []; size = 0 }

-- The one message that answers with these rows.
abbrev two_rows_message : Respond ℕ
two_rows_message = record (first_message two_rows) {
  csv_rows = two_rows.rows;
  rows_size = 2;
  query_time = some 4;
  columns =
      record { label = 65 ∷ []; name = 65 ∷ []; typ = ColumnType.bigint; table_name = 84 ∷ [] }
      ∷ [];
}

-- A message is the bytes of its first row, and those of the two rows are read.
abbrev first_row : List Bytes → Bytes
first_row [] = []
first_row (r ∷ rows) = r

abbrev responds : Codec (Respond ℕ)
responds = record { serialize = λ m. first_row m.csv_rows; parse = λ bytes. some two_rows_message }

abbrev select_all : Bytes
select_all = 42 ∷ []

abbrev database : Bytes → Result Fault (Option (ResultSet ℕ))
database query = ok (some two_rows)

abbrev empty_database : Bytes → Result Fault (Option (ResultSet ℕ))
empty_database query = ok (some no_rows)

abbrev request : Bytes
request = 1 ∷ 0 ∷ 0 ∷ 0 ∷ 1 ∷ 0 ∷ 0 ∷ 0 ∷ 42 ∷ []

abbrev reply : Bytes
reply = 1 ∷ 0 ∷ 0 ∷ 0 ∷ 1 ∷ 0 ∷ 0 ∷ 0 ∷ 97 ∷ []

select_all-IsCarried : IsCarried requests (query_request select_all)
select_all-IsCarried = record { parse-serialize = refl; small = omega arith }

two_rows-IsCarried : All (IsCarried responds) (answer_messages two_rows)
unfolding messages fill finalize_stream translate_column_type
two_rows-IsCarried = (record { parse-serialize = refl; small = omega arith }, tt)

served : execute_task three_bytes requests responds database (request, []) ≡ answered ([], reply)
unfolding execute_task read_request recv_package recv_loop handle_proto_buff_send send_rows fill
    send_bulk send_package send_loop finalize_stream
served = refl

handle_proto_buff_recv-broken_example :
    handle_proto_buff_recv three_bytes responds 2 (1 ∷ 0 ∷ 0 ∷ 0 ∷ 3 ∷ 0 ∷ 0 ∷ 0 ∷ 97 ∷ 1 ∷ [], [])
    ≡ (two_rows_message ∷ [], raised disconnected)
handle_proto_buff_recv-broken_example =
    handle_proto_buff_recv-broken three_bytes three_bytes-IsReliable responds 2
      (two_rows_message ∷ []) (1 ∷ []) (1 ∷ 0 ∷ 0 ∷ 0 ∷ 3 ∷ 0 ∷ 0 ∷ 0 ∷ 97 ∷ 1 ∷ [], [])
      (record { parse-serialize = refl; small = omega arith }, tt) (omega arith) (omega arith) refl

-- A server whose requests do not parse.
abbrev unreadable : Codec Request
unreadable = record requests { parse = λ bytes. none }

execute_task-refused_example :
    execute_task three_bytes unreadable responds database (request, []) ≡ abandoned parse_failure
execute_task-refused_example =
    execute_task-refused three_bytes three_bytes-IsReliable unreadable responds database 1
      select_all [] (request, []) parse_failure (omega arith) (omega arith) refl refl

query-shown_example :
    (messages : List (Respond ℕ)) × (client' : Bytes × Bytes) × (send_query three_bytes requests
        responds 1 select_all
        (reply, [])
      ≡ (messages, ok client'))
    × (consume_all result messages
        ≡ some (row (97 ∷ []) ∷ row (98 ∷ 99 ∷ []) ∷ rows_count 2 ∷ times 4 ∷ []))
query-shown_example =
    query-shown three_bytes three_bytes-IsReliable requests responds database select_all two_rows
      (request, []) ([], reply) (reply, []) reply result refl (λ e. cc e) (omega arith)
      select_all-IsCarried two_rows-IsCarried refl served refl refl

query-unanswered_example :
    (server' : Bytes × Bytes) × (execute_task three_bytes requests responds empty_database
        (request, [])
      ≡ answered server')
    × (server'.1 ≡ [])
    × (send_query three_bytes requests responds 1 select_all ([], []) ≡ ([], raised disconnected))
query-unanswered_example =
    query-unanswered three_bytes three_bytes-IsReliable requests responds empty_database select_all
      no_rows (request, []) ([], []) 0 refl refl select_all-IsCarried refl refl
