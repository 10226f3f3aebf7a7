-- ===== src/Task1/InStream/Delivery.antt =====
-- What is consumed of a stream: its messages, in order, and nothing behind it.
use lab.Prelude.{
  ℕ, zero, suc, ◌<◌, ◌≡◌, sym, ◌∙◌, List, [], ◌∷◌, ◌++◌, Bytes, All, length, subst, arith,
  append_assoc,
}
use lab.Prelude.Result.{Result, ok, raised}
use lab.Task1.Link.{Link, IsReliable, Fault, disconnected}
use lab.Task1.Package.{protocol_protobuf, package_bytes, header_size}
use lab.Task1.Package.Transfer.{recv_package-Receives, recv_package-short}
use lab.Task1.Respond.{Codec, IsCarried}
use lab.Task1.Stream.{stream_bytes, more_flags}
use lab.Task1.InStream.{handle_proto_buff_recv}

module _ {Message : Type 0} (k : Link) (r : IsReliable k) (c : Codec Message) where
  open k use {Sock}
  open r use {incoming, outgoing}

  -- The messages were consumed, and the call ended well with these bytes left.
  abbrev pub Delivers : Sock → List Message → Bytes → List Message × Result Fault Sock → Type 0
  Delivers s ms rest m =
      (s' : Sock) × (m ≡ (ms, ok s')) × (incoming s' ≡ rest) × (outgoing s' ≡ outgoing s)

  recv_last :
      (fuel : ℕ) (s : Sock) (last : Message) (rest : Bytes)
      → IsCarried c last
      → incoming s ≡ package_bytes k protocol_protobuf (c.serialize last) ++ rest
      → Delivers s (last ∷ []) rest (handle_proto_buff_recv k c (suc fuel) s)
  unfolding handle_proto_buff_recv
  recv_last fuel s last rest i e =
      let (s', got, left_over, same) =
        recv_package-Receives k r protocol_protobuf (c.serialize last) rest s i.small (omega arith)
          e in
      (s', rw (got, i.parse-serialize), left_over, same)

  recv_more :
      (fuel : ℕ) (s : Sock) (m : Message) (ms : List Message) (bytes rest : Bytes)
      → IsCarried c m
      → incoming s ≡ package_bytes k more_flags (c.serialize m) ++ bytes
      → ((s' : Sock)
          → incoming s' ≡ bytes
          → Delivers s' ms rest (handle_proto_buff_recv k c fuel s'))
      → Delivers s (m ∷ ms) rest (handle_proto_buff_recv k c (suc fuel) s)
  unfolding handle_proto_buff_recv
  recv_more fuel s m ms bytes rest i e others =
      let (s', got, left_over, same) =
        recv_package-Receives k r more_flags (c.serialize m) bytes s i.small (omega arith) e in
      let (s'', got', left_over', same') = others s' left_over in
      (s'', rw (got, i.parse-serialize, got', handle_proto_buff_recv), left_over', same' ∙ same)

  -- The messages of a stream are consumed in order, up to the one that has no `MSG_CONT`, and the
  -- bytes behind it are left.
  pub handle_proto_buff_recv-Delivers :
      (fuel : ℕ) (ms : List Message) (last : Message) (rest : Bytes) (s : Sock)
      → All (IsCarried c) (ms ++ last ∷ [])
      → length ms < fuel
      → incoming s ≡ stream_bytes k c ms last ++ rest
      → Delivers s (ms ++ last ∷ []) rest (handle_proto_buff_recv k c fuel s)
  handle_proto_buff_recv-Delivers zero ms last rest s i h e = absurd (omega arith)
  handle_proto_buff_recv-Delivers (suc fuel) [] last rest s (i, _) h e =
      recv_last fuel s last rest i e
  handle_proto_buff_recv-Delivers (suc fuel) (m ∷ ms) last rest s (i, others) h e =
      recv_more fuel s m (ms ++ last ∷ []) (stream_bytes k c ms last ++ rest) rest i
        (e
          ∙ append_assoc (package_bytes k more_flags (c.serialize m)) (stream_bytes k c ms last)
              rest)
        λ s' e'. handle_proto_buff_recv-Delivers fuel ms last rest s' others (omega arith) e'

  -- The bytes of messages that are not the last, and then `tail`.
  abbrev pub broken_stream : List Message → Bytes → Bytes
  broken_stream [] tail = tail
  broken_stream (m ∷ ms) tail = package_bytes k more_flags (c.serialize m) ++ broken_stream ms tail

  -- Where the peer closes before the header of a package that is announced is there, the messages
  -- before it are consumed all the same, and the call ends as disconnected.
  pub handle_proto_buff_recv-broken :
      (fuel : ℕ) (ms : List Message) (tail : Bytes) (s : Sock)
      → All (IsCarried c) ms
      → length ms < fuel
      → length tail < header_size
      → incoming s ≡ broken_stream ms tail
      → handle_proto_buff_recv k c fuel s ≡ (ms, raised disconnected)
  unfolding handle_proto_buff_recv
  handle_proto_buff_recv-broken zero ms tail s i h l e = absurd (omega arith)
  handle_proto_buff_recv-broken (suc fuel) [] tail s i h l e =
      rw (recv_package-short k r s (subst (λ x. length x < header_size) (sym e) l))
  handle_proto_buff_recv-broken (suc fuel) (m ∷ ms) tail s (i, carried) h l e =
      let (s', got, left_over, same) =
        recv_package-Receives k r more_flags (c.serialize m) (broken_stream ms tail) s i.small
          (omega arith) e in
      let others =
        handle_proto_buff_recv-broken fuel ms tail s' carried (omega arith) l left_over in
      rw (got, i.parse-serialize, others, handle_proto_buff_recv)
