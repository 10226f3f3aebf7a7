-- ===== src/Nw/Acceptor/Events.antt =====
-- The loop over events: what goes on and what stops it.
use lab.Prelude.{
  ℕ, suc, ◌≤◌, ◌≡◌, ◌≢◌, refl, ◌==◌, ==_of_ne, if◌then◌else◌, Bool, true, false, List, [], ◌∷◌,
  ◌++◌, Option, none, some, Bytes, length, arith, Bool-cases, inl, inr,
}
use lab.Prelude.Result.{Result, ok, raised, ◌>>=◌}
use lab.Nw.Kernel.{Kernel, IsReliable, ready}
use lab.Nw.Drain.{Fault}
use lab.Nw.Message.{max_msg_sz, type_code, header_bytes, overlay}
use lab.Nw.Acceptor.{
  Acceptor, Ret, success, minus_1, added, connected, handle_event, handle_request, handle_events,
  listen_loop,
}
use lab.Nw.Acceptor.Requests.{
  IsAcceptor, ret_of, type_of, handle_request-Logs, handle_request-hangup,
}

module _ (k : Kernel) (a : Acceptor) where
  open k use {World, epoll_wait, accept}

  abbrev then_events : List (ℕ × Bool) → Option Ret × World → Result Fault (Option Ret × World)
  then_events events (none, w) = ok (none, w)
  then_events events (some sts, w) = handle_events k a events sts w

  connected-bind :
      (events : List (ℕ × Bool)) (f g : World → Result Fault (Option Ret × World))
      (c : Bool × World)
      → ((w : World) → f w ≡ (g w >>= then_events events))
      → connected k a f c ≡ (connected k a g c >>= then_events events)
  connected-bind events f g (false, w) h = refl
  connected-bind events f g (true, w) h = h w

  event-bind :
      (events : List (ℕ × Bool)) (f g : Ret → World → Result Fault (Option Ret × World))
      (m : Result Fault (Ret × World))
      → ((sts : Ret) (w : World) → f sts w ≡ (g sts w >>= then_events events))
      → (m >>= λ (sts, w). f sts w) ≡ ((m >>= λ (sts, w). g sts w) >>= then_events events)
  event-bind events f g (ok (sts, w)) h = h sts w
  event-bind events f g (raised e) h = refl

  handle_events-append :
      (xs ys : List (ℕ × Bool)) (sts : Ret) (w : World)
      → handle_events k a (xs ++ ys) sts w ≡ (handle_events k a xs sts w >>= then_events ys)
  unfolding handle_events
  handle_events-append [] ys sts w = refl
  handle_events-append ((fd, input) ∷ xs) ys sts w = elim (Bool-cases (fd == a.listen_fd)) [
    | inl y ↦ rw y (
        connected-bind ys (handle_events k a (xs ++ ys) sts) (handle_events k a xs sts)
          (added k a (accept w a.listen_fd)) (λ w'. handle_events-append xs ys sts w'))
    | inr n ↦ rw n (
        event-bind ys (handle_events k a (xs ++ ys)) (handle_events k a xs)
          (handle_event k a sts fd input w) (λ sts' w'. handle_events-append xs ys sts' w'))
  ]

  -- The status of a batch is that of its last request: that of an earlier one, which may be the -1
  -- that was to stop the loop, is lost.
  pub handle_events-last :
      (events : List (ℕ × Bool)) (fd : ℕ) (sts earlier ret : Ret) (w w' w'' : World)
      → fd ≢ a.listen_fd
      → handle_events k a events sts w ≡ ok (some earlier, w')
      → handle_request k a fd w' ≡ ok (ret, w'')
      → handle_events k a (events ++ (fd, true) ∷ []) sts w ≡ ok (some ret, w'')
  unfolding handle_events
  handle_events-last events fd sts earlier ret w w' w'' other first last =
      let other_fd = ==_of_ne fd a.listen_fd other in
      rw (handle_events-append events ((fd, true) ∷ []) sts w, first, other_fd, last)

  -- A batch of one request.
  pub single :
      (fd : ℕ) (sts ret : Ret) (w w' : World)
      → fd ≢ a.listen_fd
      → handle_request k a fd w ≡ ok (ret, w')
      → handle_events k a ((fd, true) ∷ []) sts w ≡ ok (some ret, w')
  unfolding handle_events
  single fd sts ret w w' other e = let other_fd = ==_of_ne fd a.listen_fd other in rw (other_fd, e)

module _ (k : Kernel) (r : IsReliable k) (a : Acceptor) (v : IsAcceptor a) where
  open k use {World, epoll_wait}
  open r use {incoming, outgoing}

  -- A request that is reported alone is taken and logged, and the server waits for the next one
  -- where it was `REG`, and returns 0 where it was `TRM`.
  pub listen_loop-serves :
      (terminate : Bool) (fuel fd : ℕ) (w w' : World) (vptr seq body rest : Bytes)
      → epoll_wait w ≡ (ready ((fd, true) ∷ []), w')
      → fd ≢ a.listen_fd
      → length vptr ≡ 8
      → length seq ≡ 8
      → length body ≤ max_msg_sz
      → incoming w' fd
        ≡ header_bytes vptr (type_code (type_of terminate)) (length body) seq ++ (body ++ rest)
      → (w'' : World) × (listen_loop k a (suc fuel) w
          ≡ (if terminate then ok (success, w'') else listen_loop k a fuel w''))
        × (incoming w'' fd ≡ rest)
        × (outgoing w'' a.log_fd
            ≡ outgoing w' a.log_fd
              ++ (header_bytes vptr (type_code (type_of terminate)) (length body) seq
                  ++ overlay body a.body))
  unfolding listen_loop
  listen_loop-serves terminate fuel fd w w' vptr seq body rest waits other e f h inc =
      let (w'', done, left_over, logged) =
        handle_request-Logs k r a v terminate fd w' vptr seq body rest e f h inc in
      let batch = single k a fd success (ret_of terminate) w' w'' other done in
      (w'', ends terminate fuel fd w w' w'' waits batch, left_over, logged)
    where
      ends :
          (terminate : Bool) (fuel fd : ℕ) (w w' w'' : World)
          → epoll_wait w ≡ (ready ((fd, true) ∷ []), w')
          → handle_events k a ((fd, true) ∷ []) success w' ≡ ok (some (ret_of terminate), w'')
          → listen_loop k a (suc fuel) w
            ≡ (if terminate then ok (success, w'') else listen_loop k a fuel w'')
      ends true fuel fd w w' w'' waits batch = rw (waits, batch, listen_loop)
      ends false fuel fd w w' w'' waits batch = rw (waits, batch, listen_loop)

  -- A client that closes its connection without a request stops the server, where its descriptor is
  -- reported alone: the loop returns 0, and nothing is logged.
  pub listen_loop-hangup :
      (fuel fd : ℕ) (w w' : World)
      → epoll_wait w ≡ (ready ((fd, true) ∷ []), w')
      → fd ≢ a.listen_fd
      → incoming w' fd ≡ []
      → (w'' : World) × (listen_loop k a (suc fuel) w ≡ ok (success, w''))
        × (outgoing w'' a.log_fd ≡ outgoing w' a.log_fd)
  unfolding listen_loop
  listen_loop-hangup fuel fd w w' waits other closed =
      let (w'', done, silent) = handle_request-hangup k r a v fd w' (rw closed (omega arith)) in
      let batch = single k a fd success minus_1 w' w'' other done in
      (w'', rw (waits, batch), silent)
