-- ===== src/Nw/Tests.antt =====
-- A system with one connection, of which three bytes come at a time and two are taken, and the
-- theorems at its data.
use lab.Prelude.{
  sym, ◌∙◌, ℕ, zero, suc, ◌≤◌, ◌≡◌, ◌≢◌, refl, ap, true, false, [], ◌∷◌, ◌++◌, Option, none, some,
  Bytes, length, take, drop, min, arith, length-take, take-append-drop,
}
use lab.Prelude.Result.{ok}
use lab.Nw.Kernel.{Kernel, IsReliable, ready}
use lab.Nw.Drain.{drain_read}
use lab.Nw.Message.{header_bytes, overlay}
use lab.Nw.Acceptor.{Acceptor, success, minus_1, handle_request, handle_events, listen_loop}
use lab.Nw.Client.{BufferSz, ClientImpl, message_bytes, message_sz, zero_bytes, run_1024}
use lab.Nw.Client.Sending.{IsClient, WritesWhole, test_message, copies, run_1024-Sends}
use lab.Nw.Client.Served.{run_1024-stops}
use lab.Nw.Acceptor.Requests.{IsAcceptor, handle_request-Logs}
use lab.Nw.Acceptor.Events.{listen_loop-serves, listen_loop-hangup}

abbrev Streams : Type 0
Streams = Bytes × Bytes

abbrev one_connection : Kernel
one_connection = record {
  World = Streams;
  read = λ (inc, out) fd n. (some (take (min n 3) inc), (drop (min n 3) inc, out));
  write = λ (inc, out) fd bytes.
      (some (min (length bytes) 2), (inc, out ++ take (min (length bytes) 2) bytes));
  epoll_wait = λ w. (ready ((5, true) ∷ []), w);
  epoll_add = λ w fd. (true, w);
  accept = λ w fd. (none, w);
}

some_bytes : (bytes : Bytes) → bytes ≢ [] → 1 ≤ length bytes
some_bytes [] h = absurd (h refl)
some_bytes (c ∷ bytes) h = omega arith

ended :
    (n : ℕ) (inc out : Bytes)
    → inc ≡ []
    → (w' : Streams) × (◌≡◌ {A = Option Bytes × Streams}
        (some (take n inc), (drop n inc, out))
        (some [], w'))
      × (w'.0 ≡ [])
      × (w'.1 ≡ out)
ended zero [] out e = (([], out), refl, refl, refl)
ended (suc n) [] out e = (([], out), refl, refl, refl)
ended n (c ∷ inc) out e = absurd (cc e)

abbrev one_connection-IsReliable : IsReliable one_connection
one_connection-IsReliable = record {
  incoming = λ (inc, out) fd. inc;
  outgoing = λ (inc, out) fd. out;
  read_some = λ (inc, out) fd n asked there. (
    take (min n 3) inc,
    (drop (min n 3) inc, out),
    refl,
    omega (arith, length-take (min n 3) inc, some_bytes inc there),
    omega (arith, length-take (min n 3) inc),
    take-append-drop (min n 3) inc,
    λ other. refl,
  );
  read_end = λ (inc, out) fd n closed.
      let (w', e, still, same) = ended (min n 3) inc out closed in (w', e, still, λ other. same);
  write_some = λ (inc, out) fd bytes there. (
    min (length bytes) 2,
    (inc, out ++ take (min (length bytes) 2) bytes),
    refl,
    omega (arith, some_bytes bytes there),
    omega arith,
    refl,
    λ other. refl,
  );
}

abbrev pointer : Bytes
pointer = 1 ∷ 2 ∷ 3 ∷ 4 ∷ 5 ∷ 6 ∷ 7 ∷ 8 ∷ []

abbrev blank : ℕ → Bytes
blank zero = []
blank (suc n) = 0 ∷ blank n

length-blank : (n : ℕ) → length (blank n) ≡ n
length-blank zero = refl
length-blank (suc n) = ap suc (length-blank n)

abbrev server : Acceptor
server = record { listen_fd = 3; log_fd = 4; vptr = pointer; body = blank 1024 }

server-IsAcceptor : IsAcceptor server
server-IsAcceptor = record { vptr_size = refl; body_size = length-blank 1024 }

abbrev hello : Bytes
hello = 104 ∷ 105 ∷ []

abbrev request : ℕ → Bytes
request typ = header_bytes pointer typ 2 (blank 8) ++ (hello ++ [])

handle_request-Logs_example :
    (w' : Streams) × (handle_request one_connection server 5 (request 1, []) ≡ ok (minus_1, w'))
    × (w'.0 ≡ [])
    × (w'.1 ≡ [] ++ (header_bytes pointer 1 2 (blank 8) ++ overlay hello (blank 1024)))
handle_request-Logs_example =
    handle_request-Logs one_connection one_connection-IsReliable server server-IsAcceptor true 5
      (request 1, []) pointer (blank 8) hello [] refl refl (omega arith) refl

listen_loop-serves_example :
    (w'' : Streams) × (listen_loop one_connection server 7 (request 0, [])
      ≡ listen_loop one_connection server 6 w'')
    × (w''.0 ≡ [])
    × (w''.1 ≡ [] ++ (header_bytes pointer 0 2 (blank 8) ++ overlay hello (blank 1024)))
listen_loop-serves_example =
    listen_loop-serves one_connection one_connection-IsReliable server server-IsAcceptor false 6 5
      (request 0, []) (request 0, []) pointer (blank 8) hello [] refl (λ e. absurd (omega arith))
      refl refl (omega arith) refl

listen_loop-hangup_example :
    (w'' : Streams) × (listen_loop one_connection server 7 ([], []) ≡ ok (success, w''))
    × (w''.1 ≡ [])
listen_loop-hangup_example =
    listen_loop-hangup one_connection one_connection-IsReliable server server-IsAcceptor 6 5
      ([], []) ([], []) refl (λ e. absurd (omega arith)) refl

hung_up : handle_request one_connection server 5 ([], []) ≡ ok (minus_1, ([], []))
unfolding handle_request drain_read
hung_up = refl

no_request :
    handle_events one_connection server ((5, false) ∷ []) success ([], [])
    ≡ ok (some success, ([], []))
unfolding handle_events
no_request = refl

-- The same system with a blocking socket, which takes all bytes at once.
abbrev blocking : Kernel
blocking = record {
  World = Streams;
  read = one_connection.read;
  write = λ (inc, out) fd bytes. (some (length bytes), (inc, out ++ take (length bytes) bytes));
  epoll_wait = one_connection.epoll_wait;
  epoll_add = one_connection.epoll_add;
  accept = one_connection.accept;
}

abbrev blocking-IsReliable : IsReliable blocking
blocking-IsReliable = record {
  incoming = λ (inc, out) fd. inc;
  outgoing = λ (inc, out) fd. out;
  read_some = one_connection-IsReliable.read_some;
  read_end = one_connection-IsReliable.read_end;
  write_some = λ (inc, out) fd bytes there. (
    length bytes,
    (inc, out ++ take (length bytes) bytes),
    refl,
    some_bytes bytes there,
    omega arith,
    refl,
    λ other. refl,
  );
}

blocking-WritesWhole : WritesWhole blocking
blocking-WritesWhole w w' fd n bytes e = cc e

abbrev blank_buffer : BufferSz
blank_buffer = record { sz = 0; buff = blank 1024 }

abbrev client : ClientImpl
client = record {
  buff = blank_buffer;
  socket_fd = 6;
  num_evnt_to_snd = 1;
  msg = record { vptr = pointer; msg_type = 2; msg_sz = 0; seq = blank 8; body = blank 1024 };
}

client-IsClient : IsClient client
client-IsClient = record {
  buff_size = length-blank 1024;
  body_size = length-blank 1024;
  vptr_size = refl;
  seq_size = refl;
}

abbrev from_client : Bytes
from_client = copies 1 (message_bytes (test_message client.msg)) ++ copies 1 (zero_bytes message_sz)

client_sends :
    (u' : Streams) → run_1024 blocking blank_buffer client ([], []) ≡ ok u' → from_client ≡ u'.1
client_sends u' ran =
    let (u'', ran', silent, sent) =
      run_1024-Sends blocking blocking-IsReliable blocking-WritesWhole client blank_buffer ([], [])
        client-IsClient (length-blank 1024) refl in
    let same : ok u'' ≡ ok u' = sym ran' ∙ ran in cc (same, sent)

run_1024-stops_example :
    (u' : Streams) × (w' : Streams) × (run_1024 blocking blank_buffer client ([], []) ≡ ok u')
    × (listen_loop one_connection server 2 (from_client, []) ≡ ok (success, w'))
    × (w'.1 ≡ [] ++ (header_bytes pointer 0 0 (blank 8) ++ blank 1024))
run_1024-stops_example =
    run_1024-stops one_connection one_connection-IsReliable server server-IsAcceptor blocking
      blocking-IsReliable blocking-WritesWhole 0 5 0 client blank_buffer ([], []) (from_client, [])
      client-IsClient (length-blank 1024) refl refl refl refl (λ w h. (w, refl, refl, refl))
      (λ e. absurd (omega arith)) client_sends
