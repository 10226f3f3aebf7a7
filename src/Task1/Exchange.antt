-- ===== src/Task1/Exchange.antt =====
-- A query and its answer: the stream that the server's manager sends, read by the client's.
use lab.Prelude.{
  All, ℕ, suc, ◌<◌, ◌≡◌, ◌≢◌, refl, sym, ap, ◌∙◌, List, [], ◌∷◌, ◌++◌, map, Option, some, Bytes,
  length, arith, append-nil, subst,
}
use lab.Prelude.Result.{Result, ok, raised}
use lab.Task1.Link.{Link, IsReliable, Fault, disconnected}
use lab.Task1.Package.{protocol_protobuf}
use lab.Task1.Package.Transfer.{send_package-Sends}
use lab.Task1.Respond.{ResultSet, Respond, Request, RespondType, Codec, IsCarried}
use lab.Task1.Server.{answered, execute_task}
use lab.Task1.Server.Answers.{request_bytes, execute_task-Answers, execute_task-Unanswered}
use lab.Task1.Client.{query_request, send_query, row, rows_count, times, consume_all}
use lab.Task1.Client.Shows.{consume-single}
use lab.Task1.Stream.{stream_bytes}
use lab.Task1.OutStream.{max_trx_buffer_sz, first_message}
use lab.Task1.OutStream.Rows.{IsBulked, answer_messages, bulks-single, volume}
use lab.Task1.InStream.Delivery.{handle_proto_buff_recv-Delivers, handle_proto_buff_recv-broken}

append_cancel : (xs ys zs : Bytes) → xs ++ ys ≡ xs ++ zs → ys ≡ zs
append_cancel [] ys zs e = e
append_cancel (x ∷ xs) ys zs e = append_cancel xs ys zs (cc e)

module _ {Time : Type 0} (k : Link) (r : IsReliable k) (requests : Codec Request)
    (responds : Codec (Respond Time))
    (execute_query : Bytes → Result Fault (Option (ResultSet Time))) where
  open k use {Sock}
  open r use {incoming, outgoing}

  -- The messages of an answer: the rows of the result, each once and in order, the last message
  -- with their number and the columns, and all others with no less than `MAX_TRX_BUFFER_SZ` bytes.
  abbrev pub Answers : ResultSet Time → List (Respond Time) → Type 0
  Answers rs messages =
      (ms : List (Respond Time)) × (last : Respond Time) × (messages ≡ ms ++ last ∷ [])
      × IsBulked rs (first_message rs) 0 rs.rows ms last

  -- The client reads the answer in as many rounds as it has bulks.
  answer_read :
      (sql : Bytes) (rs : ResultSet Time) (server server' client : Sock) (sent : Bytes) (fuel : ℕ)
      → execute_query sql ≡ ok (some rs)
      → rs.rows ≢ []
      → IsCarried requests (query_request sql)
      → All (IsCarried responds) (answer_messages rs)
      → incoming server ≡ request_bytes k r requests responds (query_request sql)
      → execute_task k requests responds execute_query server ≡ answered server'
      → outgoing server' ≡ outgoing server ++ sent
      → incoming client ≡ sent
      → ((ms : List (Respond Time)) (last : Respond Time)
          → IsBulked rs (first_message rs) 0 rs.rows ms last
          → length ms < fuel)
      → (messages : List (Respond Time)) × (client' : Sock) × (send_query k requests responds fuel
            sql client
          ≡ (messages, ok client'))
        × (outgoing client'
            ≡ outgoing client ++ request_bytes k r requests responds (query_request sql))
        × Answers rs messages
  unfolding send_query
  answer_read sql rs server server' client sent fuel result some_rows q i asked call out inc
        enough =
      let (ms, last, all, bulked, server'', call', out', _) =
        execute_task-Answers k r requests responds execute_query (query_request sql) rs [] server q
          refl result some_rows
          (asked ∙ sym (append-nil (request_bytes k r requests responds (query_request sql)))) in
      let same_socket : server'' ≡ server' = cc (call, call') in
      let same_bytes : outgoing server ++ sent
          ≡ outgoing server ++ stream_bytes k responds ms last =
        sym out ∙ (ap outgoing (sym same_socket) ∙ out') in
      let stream =
        append_cancel (outgoing server) sent (stream_bytes k responds ms last) same_bytes in
      let (client', asks, out'', same) =
        send_package-Sends k r protocol_protobuf (requests.serialize (query_request sql)) client in
      let (client'', got, _, same') =
        handle_proto_buff_recv-Delivers k r responds fuel ms last [] client'
          (subst (All (IsCarried responds)) all i) (enough ms last bulked)
          (same ∙ (inc ∙ (stream ∙ sym (append-nil (stream_bytes k responds ms last))))) in
      (ms ++ last ∷ [], client'', rw (asks, got), same' ∙ out'', (ms, last, refl, bulked))

  -- What the client shows of a query whose rows are fewer than `MAX_TRX_BUFFER_SZ` bytes: every row
  -- in order, the size that the result says it has, and the times. One round of the loop that reads
  -- is enough.
  pub query-shown :
      (sql : Bytes) (rs : ResultSet Time) (server server' client : Sock) (sent : Bytes)
      (default_type : RespondType)
      → execute_query sql ≡ ok (some rs)
      → rs.rows ≢ []
      → volume rs.rows < max_trx_buffer_sz
      → IsCarried requests (query_request sql)
      → All (IsCarried responds) (answer_messages rs)
      → incoming server ≡ request_bytes k r requests responds (query_request sql)
      → execute_task k requests responds execute_query server ≡ answered server'
      → outgoing server' ≡ outgoing server ++ sent
      → incoming client ≡ sent
      → (messages : List (Respond Time)) × (client' : Sock) × (send_query k requests responds 1 sql
            client
          ≡ (messages, ok client'))
        × (consume_all default_type messages
            ≡ some (map row rs.rows ++ rows_count rs.size ∷ times rs.times ∷ []))
  query-shown sql rs server server' client sent default_type result some_rows small q i asked call
        out inc =
      let one_bulk = bulks-single rs (first_message rs) 0 rs.rows in
      let (messages, client', got, _, (ms, last, all, bulked)) =
        answer_read sql rs server server' client sent 1 result some_rows q i asked call out inc
          λ ms last bulked. omega (arith, ap length (one_bulk ms last small bulked)) in
      let single = one_bulk ms last small bulked in
      let one : messages ≡ last ∷ [] = all ∙ ap (λ x. x ++ last ∷ []) single in
      (
        messages,
        client',
        got,
        rw one (
            consume-single rs rs.rows last default_type
              (subst (λ x. IsBulked rs (first_message rs) 0 rs.rows x last) single bulked)),
      )

  -- A query whose result has no row: nothing is sent, and the client, once the server's task has
  -- deleted its socket, ends as disconnected with no message to consume.
  pub query-unanswered :
      (sql : Bytes) (rs : ResultSet Time) (server client : Sock) (fuel : ℕ)
      → execute_query sql ≡ ok (some rs)
      → rs.rows ≡ []
      → IsCarried requests (query_request sql)
      → incoming server ≡ request_bytes k r requests responds (query_request sql)
      → incoming client ≡ []
      → (server' : Sock) × (execute_task k requests responds execute_query server
          ≡ answered server')
        × (outgoing server' ≡ outgoing server)
        × (send_query k requests responds (suc fuel) sql client ≡ ([], raised disconnected))
  unfolding send_query
  query-unanswered sql rs server client fuel result no_rows q asked closed =
      let (server', call, silent) =
        execute_task-Unanswered k r requests responds execute_query (query_request sql) rs [] server
          q refl result no_rows
          (asked ∙ sym (append-nil (request_bytes k r requests responds (query_request sql)))) in
      let (client', asks, _, same) =
        send_package-Sends k r protocol_protobuf (requests.serialize (query_request sql)) client in
      let ends =
        handle_proto_buff_recv-broken k r responds (suc fuel) [] [] client' tt (omega arith)
          (omega arith) (same ∙ closed) in
      (server', call, silent, rw (asks, ends))
