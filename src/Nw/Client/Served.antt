-- ===== src/Nw/Client/Served.antt =====
-- What the server makes of the message that the client of the tests sends.
use lab.Prelude.{
  ℕ, suc, ◌≡◌, ◌≢◌, refl, sym, ap, ◌∙◌, true, false, [], ◌∷◌, ◌++◌, Bytes, length, le_bytes, arith,
  append_assoc, length-append, ◌≤◌,
}
use lab.Prelude.Result.{ok}
use lab.Nw.Kernel.{Kernel, IsReliable, ready}
use lab.Nw.Drain.{drain_read}
use lab.Nw.Drain.Whole.{drain_read-prefix}
use lab.Nw.Message.{header_sz, header_bytes, new_header}
use lab.Nw.Acceptor.{Acceptor, success, minus_1, handle_type, handle_request, listen_loop}
use lab.Nw.Acceptor.Requests.{IsAcceptor, length-header_bytes}
use lab.Nw.Acceptor.Events.{single, listen_loop-serves}
use lab.Nw.Client.{
  BufferSz, ClientImpl, fill_letters, NwMessage, message_bytes, message_sz, zero_bytes, run_1024,
}
use lab.Nw.Client.Sending.{
  test_message, overlay_all, length-fill_letters, copies, IsClient, WritesWhole, run_1024-Sends,
}

-- The first bytes of the letters, which are as many as a header has, and the others.
abbrev first_letters : Bytes
first_letters = fill_letters 24 65

abbrev other_letters : Bytes
other_letters = fill_letters 1000 89

letters-split : fill_letters 1024 65 ≡ first_letters ++ other_letters
unfolding fill_letters
letters-split = refl

more : {bytes : Bytes} (xs rest : Bytes) → bytes ≡ xs ++ rest → 1 ≤ length xs → bytes ≢ []
more {bytes} xs rest e h none =
    absurd (omega (arith, length-append xs rest, ap length e, ap length none))

module _ (k : Kernel) (r : IsReliable k) (a : Acceptor) (v : IsAcceptor a) where
  open k use {World, epoll_wait}
  open r use {incoming, outgoing}

  unknown_type : (fd : ℕ) (w : World) → handle_type k a first_letters fd w ≡ ok (minus_1, w)
  unfolding fill_letters
  unknown_type fd w = refl

  -- The letters are no request.
  handle_request-letters :
      (fd : ℕ) (w : World) (rest : Bytes)
      → incoming w fd ≡ fill_letters 1024 65 ++ rest
      → (w' : World) × (handle_request k a fd w ≡ ok (minus_1, w'))
        × (outgoing w' a.log_fd ≡ outgoing w a.log_fd)
  unfolding handle_request
  handle_request-letters fd w rest e =
      let size : length first_letters ≡ header_sz = length-fill_letters 24 65 in
      let start =
        e ∙ (ap (λ x. x ++ rest) letters-split ∙ append_assoc first_letters other_letters rest) in
      let (w', got, left_over, same) =
        drain_read-prefix k r header_sz fd header_sz w first_letters (other_letters ++ rest)
          (omega arith) (omega arith) start in
      let got_header : drain_read k header_sz fd header_sz header_sz w ≡ ok (first_letters, w') =
        ap (λ n. drain_read k header_sz fd header_sz n w) (sym size) ∙ got in
      let new_size = length-header_bytes k r a v a.vptr (le_bytes 8 0) 2 0 v.vptr_size refl in
      let covered = overlay_all first_letters (new_header a.vptr) (omega arith) in
      (w', rw (got_header, covered) (unknown_type fd w'), same a.log_fd)

  -- The descriptor is reported, alone, while there is something to be read from it.
  abbrev pub Reports : ℕ → Type 0
  Reports fd =
      (w : World)
      → incoming w fd ≢ []
      → (w' : World) × (epoll_wait w ≡ (ready ((fd, true) ∷ []), w'))
        × (incoming w' fd ≡ incoming w fd)
        × (outgoing w' a.log_fd ≡ outgoing w a.log_fd)

  letters_stop :
      (fuel fd : ℕ) (w : World) (rest : Bytes)
      → Reports fd
      → fd ≢ a.listen_fd
      → incoming w fd ≡ fill_letters 1024 65 ++ rest
      → (w' : World) × (listen_loop k a (suc fuel) w ≡ ok (success, w'))
        × (outgoing w' a.log_fd ≡ outgoing w a.log_fd)
  unfolding listen_loop
  letters_stop fuel fd w rest reports other e =
      let (w1, waits, same, log) =
        reports w
          (more (fill_letters 1024 65) rest e (omega (arith, length-fill_letters 1024 65))) in
      let (w2, done, log') = handle_request-letters fd w1 rest (same ∙ e) in
      let batch = single k a fd success minus_1 w1 w2 other done in
      (w2, rw (waits, batch), log' ∙ log)

  -- A message of the client stops the server, whatever the client sends behind it: the server logs a
  -- message with the header, and with what the memory held for a body, since the header says no
  -- size. It takes the body for the next request, which is of no known type, and returns 0.
  pub listen_loop-client :
      (fuel fd : ℕ) (w : World) (m : NwMessage) (rest : Bytes)
      → Reports fd
      → fd ≢ a.listen_fd
      → length m.vptr ≡ 8
      → length m.seq ≡ 8
      → m.msg_sz ≡ 0
      → incoming w fd ≡ message_bytes (test_message m) ++ rest
      → (w' : World) × (listen_loop k a (suc (suc fuel)) w ≡ ok (success, w'))
        × (outgoing w' a.log_fd ≡ outgoing w a.log_fd ++ (header_bytes m.vptr 0 0 m.seq ++ a.body))
  listen_loop-client fuel fd w m rest reports other e f z inc =
      let header = header_bytes m.vptr 0 0 m.seq in
      let (w1, waits, same, log) = reports w (
        more (message_bytes (test_message m)) rest inc (
          omega (
            arith,
            length-append (header_bytes m.vptr 0 m.msg_sz m.seq) (fill_letters 1024 65),
            length-fill_letters 1024 65,
          ))) in
      let at : incoming w1 fd ≡ header ++ (fill_letters 1024 65 ++ rest) =
        same
        ∙ (inc
            ∙ (ap (λ n. (header_bytes m.vptr 0 n m.seq ++ fill_letters 1024 65) ++ rest) z
                ∙ append_assoc header (fill_letters 1024 65) rest)) in
      let (w2, served, left_over, logged) =
        listen_loop-serves k r a v false (suc fuel) fd w w1 m.vptr m.seq []
          (fill_letters 1024 65 ++ rest) waits other e f (omega arith) at in
      let (w3, stopped, silent) = letters_stop fuel fd w2 rest reports other left_over in
      (w3, served ∙ stopped, silent ∙ (logged ∙ ap (λ x. x ++ (header ++ a.body)) log))

module _ (k : Kernel) (r : IsReliable k) (a : Acceptor) (v : IsAcceptor a) (k' : Kernel)
    (r' : IsReliable k') (whole : WritesWhole k') where
  open r use {incoming, outgoing}

  -- The client of the test `test_nwmsg` and the server, each with a reliable system of its own,
  -- where the server gets what the client has sent and its descriptor is reported while there is
  -- something to be read. Each write of the client takes all its bytes, as the pointer of another
  -- one would be beyond its message; the server reads pieces of any size. The client's message
  -- has the size 0 that its constructor gives it, and arrays of their sizes; it is sent at least
  -- once, and nothing comes back. The client's run ends, and so does the server's loop, which
  -- returns 0 after two rounds: what it has logged is the header of the message with the body
  -- that the server's memory held, and no byte of the client's letters.
  pub run_1024-stops :
      (fuel fd n : ℕ) (c : ClientImpl) (stack : BufferSz) (u : k'.World) (w : k.World)
      → IsClient c
      → length stack.buff ≡ 1024
      → c.msg.msg_sz ≡ 0
      → c.num_evnt_to_snd ≡ suc n
      → r'.incoming u c.socket_fd ≡ []
      → r'.outgoing u c.socket_fd ≡ []
      → Reports k r a v fd
      → fd ≢ a.listen_fd
      → ((u' : k'.World)
          → run_1024 k' stack c u ≡ ok u'
          → incoming w fd ≡ r'.outgoing u' c.socket_fd)
      → (u' : k'.World) × (w' : k.World) × (run_1024 k' stack c u ≡ ok u')
        × (listen_loop k a (suc (suc fuel)) w ≡ ok (success, w'))
        × (outgoing w' a.log_fd
            ≡ outgoing w a.log_fd ++ (header_bytes c.msg.vptr 0 0 c.msg.seq ++ a.body))
  run_1024-stops fuel fd n c stack u w cv e z times silent new reports other link =
      let (u', ran, none_left, sent) = run_1024-Sends k' r' whole c stack u cv e silent in
      let msg = message_bytes (test_message c.msg) in
      let answers = copies c.num_evnt_to_snd (zero_bytes message_sz) in
      let all : incoming w fd ≡ msg ++ (copies n msg ++ answers) =
        link u' ran
        ∙ (sent
            ∙ (ap (λ x. x ++ (copies c.num_evnt_to_snd msg ++ answers)) new
                ∙ (ap (λ x. copies x msg ++ answers) times
                    ∙ append_assoc msg (copies n msg) answers))) in
      let (w', stopped, logged) =
        listen_loop-client k r a v fuel fd w c.msg (copies n msg ++ answers) reports other
          cv.vptr_size cv.seq_size z all in
      (u', w', ran, stopped, logged)
