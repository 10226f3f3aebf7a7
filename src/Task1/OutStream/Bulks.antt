-- ===== src/Task1/OutStream/Bulks.antt =====
-- What is sent for the rows of a result: a stream of bulks with every row once, in order.
use lab.Prelude.{
  Option, ℕ, zero, suc, ◌+◌, ◌≤◌, ◌≡◌, ◌≢◌, refl, sym, ap, ◌∙◌, List, [], ◌∷◌, ◌++◌, Bytes, length,
  subst, arith, append_assoc, append-nil, List-cases, length-append, inl, inr, some,
}
use lab.Prelude.Result.{Result, ok}
use lab.Task1.Link.{Link, IsReliable, Fault}
use lab.Task1.Package.{protocol_protobuf}
use lab.Task1.Package.Transfer.{Sends, send_package-Sends}
use lab.Task1.Stream.{stream_bytes, more_flags}
use lab.Task1.Respond.{ResultSet, Respond, cleared, Codec}
use lab.Task1.OutStream.{
  max_trx_buffer_sz, fill, finalize_stream, send_bulk, send_rows, first_message,
  handle_proto_buff_send,
}
use lab.Task1.OutStream.Rows.{
  volume, volume-pos, with_rows, fill-Fills, IsBulked, last-IsBulked, more-IsBulked, messages,
  answer_messages,
}

module _ {Time : Type 0} (k : Link) (r : IsReliable k) (c : Codec (Respond Time)) where
  open k use {Sock}

  round_last :
      (fuel : ℕ) (rs : ResultSet Time) (m : Respond Time) (count : ℕ) (row : Bytes)
      (rows taken : List Bytes) (s : Sock)
      → fill 0 m count (row ∷ rows) ≡ ((with_rows m taken, count + length taken), [])
      → Sends k r s
          (stream_bytes k c [] (finalize_stream rs (with_rows m taken) (count + length taken)))
          (send_rows k c (suc fuel) rs m count (row ∷ rows) s)
  unfolding send_rows send_bulk
  round_last fuel rs m count row rows taken s p =
      let last = finalize_stream rs (with_rows m taken) (count + length taken) in
      let (s', sent, out, same) = send_package-Sends k r protocol_protobuf (c.serialize last) s in
      (s', rw (p, sent), out, same)

  round_more :
      (fuel : ℕ) (rs : ResultSet Time) (m : Respond Time) (count : ℕ) (row next : Bytes)
      (rows taken left : List Bytes) (s : Sock) (ms : List (Respond Time)) (last : Respond Time)
      → fill 0 m count (row ∷ rows) ≡ ((with_rows m taken, count + length taken), next ∷ left)
      → ((s' : Sock)
          → Sends k r s'
              (stream_bytes k c ms last)
              (send_rows k c fuel rs cleared (count + length taken) (next ∷ left) s'))
      → Sends k r s
          (stream_bytes k c (with_rows m taken ∷ ms) last)
          (send_rows k c (suc fuel) rs m count (row ∷ rows) s)
  unfolding send_rows send_bulk
  round_more fuel rs m count row next rows taken left s ms last p others =
      let (s', sent, out, same) =
        send_package-Sends k r more_flags (c.serialize (with_rows m taken)) s in
      let (s'', sent', out', same') = others s' in
      (
        s'',
        rw (p, sent, sent', send_rows),
        out' ∙ (ap (λ x. x ++ stream_bytes k c ms last) out ∙ append_assoc (r.outgoing s) _ _),
        same' ∙ same,
      )

  -- The bulks of the rows, whatever the state of the socket.
  abbrev Bulks : ℕ → ResultSet Time → Respond Time → ℕ → List Bytes → Type 0
  Bulks fuel rs m count rows =
      (ms : List (Respond Time)) × (last : Respond Time) × (messages fuel rs m count rows
        ≡ ms ++ last ∷ [])
      × IsBulked rs m count rows ms last
      × ((s : Sock) → Sends k r s (stream_bytes k c ms last) (send_rows k c fuel rs m count rows s))

  send_rows-Bulks :
      (fuel : ℕ) (rs : ResultSet Time) (m : Respond Time) (count : ℕ) (row : Bytes)
      (rows : List Bytes)
      → length (row ∷ rows) ≤ fuel
      → m.csv_rows ≡ []
      → m.columns ≡ []
      → Bulks fuel rs m count (row ∷ rows)
  unfolding messages finalize_stream
  send_rows-Bulks zero rs m count row rows h e f = absurd (omega arith)
  send_rows-Bulks (suc fuel) rs m count row rows h e f =
      let (taken, left, (p, q, v)) = fill-Fills 0 m count (row ∷ rows) in
      elim (List-cases left) [
        | inl none_left ↦
            let filled = p ∙ ap (λ x. ((with_rows m taken, count + length taken), x)) none_left in
            let whole : taken ≡ row ∷ rows =
              sym (append-nil taken) ∙ (ap (λ x. taken ++ x) (sym none_left) ∙ q) in
            (
              [],
              finalize_stream rs (with_rows m taken) (count + length taken),
              rw (filled, messages),
              last-IsBulked rs m count (row ∷ rows) taken e f whole,
              λ s. round_last fuel rs m count row rows taken s filled,
            )
        | inr (next, others, some_left) ↦
            let whole : taken ++ next ∷ others ≡ row ∷ rows =
              ap (λ x. taken ++ x) (sym some_left) ∙ q in
            let full : max_trx_buffer_sz ≤ volume taken = elim v [
              | inl z ↦ absurd (cc (z, some_left))
              | inr y ↦ omega arith
            ] in
            let filled = p ∙ ap (λ x. ((with_rows m taken, count + length taken), x)) some_left in
            let sizes = ap length whole in
            let split = length-append taken (next ∷ others) in
            let some_taken = volume-pos taken (omega arith) in
            let (ms, last, all, bulked, sends) =
              send_rows-Bulks fuel rs cleared (count + length taken) next others (omega arith) refl
                refl in
            (
              with_rows m taken ∷ ms,
              last,
              rw (filled, all, messages),
              more-IsBulked rs m last count (row ∷ rows) taken (next ∷ others) ms e whole full
                  bulked,
              λ s. round_more fuel rs m count row next rows taken others s ms last filled sends,
            )
      ]

  pub handle_proto_buff_send-Bulks :
      (execute_query : Bytes → Result Fault (Option (ResultSet Time))) (query : Bytes)
      (rs : ResultSet Time) (s : Sock)
      → execute_query query ≡ ok (some rs)
      → rs.rows ≢ []
      → (ms : List (Respond Time)) × (last : Respond Time) × (answer_messages rs ≡ ms ++ last ∷ [])
        × IsBulked rs (first_message rs) 0 rs.rows ms last
        × Sends k r s (stream_bytes k c ms last) (handle_proto_buff_send k c execute_query query s)
  unfolding handle_proto_buff_send
  handle_proto_buff_send-Bulks execute_query query rs s q some_rows = elim (List-cases rs.rows) [
    | inl e ↦ absurd (some_rows e)
    | inr (row, rows, e) ↦
        let (ms, last, all, bulked, sends) =
          send_rows-Bulks (length (row ∷ rows)) rs (first_message rs) 0 row rows (omega arith) refl
            refl in
        (
          ms,
          last,
          ap (λ x. messages (length x) rs (first_message rs) 0 x) e ∙ all,
          subst (λ x. IsBulked rs (first_message rs) 0 x ms last) (sym e) bulked,
          rw q (
              subst
                (λ x.
                  Sends k r s (stream_bytes k c ms last)
                    (send_rows k c (length x) rs (first_message rs) 0 x s))
                (sym e) (sends s)),
        )
  ]
