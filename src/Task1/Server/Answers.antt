-- ===== src/Task1/Server/Answers.antt =====
-- The task on the request of a client.
use lab.Prelude.{
  Bool, true, false, not, if◌then◌else◌, subst, ℕ, length, ◌<◌, ◌^◌, ◌≡◌, ◌≢◌, refl, ap, ◌∙◌, List,
  [], ◌∷◌, ◌++◌, Option, some, none, Bytes, arith,
}
use lab.Prelude.Result.{Result, ok, raised}
use lab.Task1.Link.{Link, IsReliable, Fault, disconnected, parse_failure, bad_request}
use lab.Task1.Package.{package_bytes, protocol_protobuf, header_size}
use lab.Task1.Package.Transfer.{recv_package-Receives, recv_package-short, Receives}
use lab.Task1.Respond.{ResultSet, Respond, Request, Codec, IsCarried}
use lab.Task1.Stream.{stream_bytes}
use lab.Task1.OutStream.{first_message, handle_proto_buff_send, send_rows}
use lab.Task1.OutStream.Rows.{IsBulked, answer_messages}
use lab.Task1.OutStream.Bulks.{handle_proto_buff_send-Bulks}
use lab.Task1.Server.{answered, abandoned, parsed_request, unread, read_request, execute_task}

checks-bad :
    (is_query is_sql : Bool) (request : Request) (e : Fault)
    → (if not is_query
        then raised bad_request
        else if not is_sql
        then raised bad_request
        else ok request)
      ≡ raised e
    → bad_request ≡ e
checks-bad true true request e h = absurd (cc h)
checks-bad true false request e h = cc h
checks-bad false is_sql request e h = cc h

parsed_request-abandoned :
    {Sock : Type 0} (request : Option Request) (e : Fault)
    → parsed_request request ≡ raised e
    → unread {Sock = Sock} e ≡ abandoned e
parsed_request-abandoned {Sock = S} none e h =
    let same : parse_failure ≡ e = cc h in subst (λ x. unread {Sock = S} x ≡ abandoned x) same refl
parsed_request-abandoned {Sock = S} (some request) e h =
    subst (λ x. unread {Sock = S} x ≡ abandoned x)
      (checks-bad request.is_query request.is_sql request e h) refl

module _ {Time : Type 0} (k : Link) (r : IsReliable k) (requests : Codec Request)
    (responds : Codec (Respond Time)) where
  open k use {Sock}
  open r use {incoming, outgoing}

  abbrev pub request_bytes : Request → Bytes
  request_bytes request = package_bytes k protocol_protobuf (requests.serialize request)

  read_request-Receives :
      (request : Request) (rest : Bytes) (s : Sock)
      → IsCarried requests request
      → parsed_request (some request) ≡ ok request
      → incoming s ≡ request_bytes request ++ rest
      → Receives k r s request rest (read_request k requests responds s)
  unfolding read_request
  read_request-Receives request rest s q valid e =
      let (s', got, left_over, same) =
        recv_package-Receives k r protocol_protobuf (requests.serialize request) rest s q.small
          (omega arith) e in
      (s', rw (got, q.parse-serialize, valid), left_over, same)

  module _ (execute_query : Bytes → Result Fault (Option (ResultSet Time))) where
    -- The task reads the request of a client, in whatever pieces it comes, and sends the bulks of
    -- the result of its query: the task ends with the socket deleted.
    pub execute_task-Answers :
        (request : Request) (rs : ResultSet Time) (rest : Bytes) (s : Sock)
        → IsCarried requests request
        → parsed_request (some request) ≡ ok request
        → execute_query request.sqlquery ≡ ok (some rs)
        → rs.rows ≢ []
        → incoming s ≡ request_bytes request ++ rest
        → (ms : List (Respond Time)) × (last : Respond Time) × (answer_messages rs
            ≡ ms ++ last ∷ [])
          × IsBulked rs (first_message rs) 0 rs.rows ms last
          × (s' : Sock) × (execute_task k requests responds execute_query s ≡ answered s')
          × (outgoing s' ≡ outgoing s ++ stream_bytes k responds ms last)
          × (incoming s' ≡ rest)
    unfolding execute_task
    execute_task-Answers request rs rest s q valid result some_rows e =
        let (s', got, left_over, same) = read_request-Receives request rest s q valid e in
        let (ms, last, all, bulked, (s'', sent, out, same')) =
          handle_proto_buff_send-Bulks k r responds execute_query request.sqlquery rs s' result
            some_rows in
        (
          ms,
          last,
          all,
          bulked,
          s'',
          rw (got, sent),
          out ∙ ap (λ x. x ++ stream_bytes k responds ms last) same,
          same' ∙ left_over,
        )

    -- A client whose message is no request, or is not a query in SQL: the task returns before it
    -- deletes the socket.
    pub execute_task-refused :
        (flags : ℕ) (body rest : Bytes) (s : Sock) (e : Fault)
        → length body < 2 ^ 32
        → flags < 2 ^ 32
        → parsed_request (requests.parse body) ≡ raised e
        → incoming s ≡ package_bytes k flags body ++ rest
        → execute_task k requests responds execute_query s ≡ abandoned e
    unfolding execute_task read_request
    execute_task-refused flags body rest s e small low bad inc =
        let (s', got, left_over, same) =
          recv_package-Receives k r flags body rest s small low inc in
        rw (got, bad) (parsed_request-abandoned (requests.parse body) e bad)

    -- So does it where the client closes before the header of its request is there.
    execute_task-short :
        (s : Sock)
        → length (incoming s) < header_size
        → execute_task k requests responds execute_query s ≡ abandoned disconnected
    unfolding execute_task read_request
    execute_task-short s short = rw (recv_package-short k r s short)

    -- A query whose result has no row: the task ends with the socket deleted, and nothing is sent.
    pub execute_task-Unanswered :
        (request : Request) (rs : ResultSet Time) (rest : Bytes) (s : Sock)
        → IsCarried requests request
        → parsed_request (some request) ≡ ok request
        → execute_query request.sqlquery ≡ ok (some rs)
        → rs.rows ≡ []
        → incoming s ≡ request_bytes request ++ rest
        → (s' : Sock) × (execute_task k requests responds execute_query s ≡ answered s')
          × (outgoing s' ≡ outgoing s)
    unfolding execute_task handle_proto_buff_send send_rows
    execute_task-Unanswered request rs rest s q valid result no_rows e =
        let (s', got, left_over, same) = read_request-Receives request rest s q valid e in
        (s', rw (got, result, no_rows), same)
