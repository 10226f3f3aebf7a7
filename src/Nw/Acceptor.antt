-- ===== src/Nw/Acceptor.antt =====
-- common/nw/src/Acceptor.cpp: the loop that waits for events, and what is done with a request.
pub mod Requests
pub mod Events
use lab.Prelude.{
  ℕ, zero, suc, ◌+◌, ◌==◌, if◌then◌else◌, Bool, true, false, List, [], ◌∷◌, ◌++◌, Option, none,
  some, Bytes,
}
use lab.Prelude.Result.{Result, ok, raised, ◌>>=◌}
use lab.Nw.Kernel.{Kernel, Wait, interrupted, failed, ready}
use lab.Nw.Drain.{Fault, no_fuel, drain_read, drain_write}
use lab.Nw.Message.{
  max_msg_sz, header_sz, type_code, reg, trm, get_msg_type, get_msg_sz, new_header, overlay,
  int_rounds,
}

-- What the functions return: 0, -1 or -2.
pub data Ret : Type 0 where
  success minus_1 minus_2 : Ret

pub record Acceptor : Type 0 where
  pub listen_fd : ℕ
  pub log_fd : ℕ
  -- What the memory of a new message holds: the pointer of its class, and its body.
  pub vptr : Bytes
  pub body : Bytes

module _ (k : Kernel) (a : Acceptor) where
  open k use {World, epoll_wait, epoll_add, accept}

  -- The body is read, as many bytes as the header says, and the message goes to the log.
  unfoldable pub drain_body : Bytes → Ret → ℕ → World → Result Fault (Ret × World)
  drain_body header ret fd w = do
    let sz = int_rounds (get_msg_sz header)
    (body, w') ← drain_read k sz fd max_msg_sz sz w
    w'' ← drain_write k (header_sz + max_msg_sz) a.log_fd (header ++ overlay body a.body) w'
    ok (ret, w'')

  -- The `switch` on the type: `TRM` falls through.
  abbrev pub handle_type : Bytes → ℕ → World → Result Fault (Ret × World)
  handle_type header fd w =
      let typ = get_msg_type header in
      if typ == type_code trm
      then drain_body header minus_1 fd w
      else if typ == type_code reg
      then drain_body header success fd w
      else ok (minus_1, w)

  unfoldable pub handle_request : ℕ → World → Result Fault (Ret × World)
  handle_request fd w = do
    (got, w') ← drain_read k header_sz fd header_sz header_sz w
    handle_type (overlay got (new_header a.vptr)) fd w'

  -- A new connection is accepted, and added to what is waited for.
  abbrev pub added : Option ℕ × World → Bool × World
  added (none, w) = (false, w)
  added (some fd, w) = epoll_add w fd

  abbrev pub connected :
      (World → Result Fault (Option Ret × World)) → Bool × World → Result Fault (Option Ret × World)
  connected continue (false, w) = ok (none, w)
  connected continue (true, w) = continue w

  -- An event that is not of the listening socket: the status is that of the request, where there
  -- is one.
  abbrev pub handle_event : Ret → ℕ → Bool → World → Result Fault (Ret × World)
  handle_event sts fd false w = ok (sts, w)
  handle_event sts fd true w = handle_request fd w

  -- The events of a batch, each a descriptor and whether it can be read: the status, or `none` for
  -- `return -1`.
  unfoldable pub handle_events : List (ℕ × Bool) → Ret → World → Result Fault (Option Ret × World)
  handle_events [] sts w = ok (some sts, w)
  handle_events ((fd, input) ∷ events) sts w =
      if fd == a.listen_fd
      then connected (handle_events events sts) (added (accept w a.listen_fd))
      else (do (sts', w') ← handle_event sts fd input w; handle_events events sts' w')

  -- The loop goes on while the status is 0.
  abbrev pub next_batch :
      (World → Result Fault (Ret × World)) → Option Ret × World → Result Fault (Ret × World)
  next_batch continue (none, w) = ok (minus_1, w)
  next_batch continue (some success, w) = continue w
  next_batch continue (some minus_1, w) = ok (success, w)
  next_batch continue (some minus_2, w) = ok (success, w)

  abbrev pub waited :
      (World → Result Fault (Ret × World)) → Wait × World → Result Fault (Ret × World)
  waited continue (interrupted, w) = continue w
  waited continue (failed, w) = ok (minus_2, w)
  waited continue (ready events, w) = do
    batch ← handle_events events success w
    next_batch continue batch

  -- The loop, with `fuel` calls of `epoll_wait`.
  unfoldable pub listen_loop : ℕ → World → Result Fault (Ret × World)
  listen_loop zero w = raised no_fuel
  listen_loop (suc fuel) w = waited (listen_loop fuel) (epoll_wait w)

  abbrev pub set_up :
      (World → Result Fault (Ret × World)) → Bool × World → Result Fault (Ret × World)
  set_up continue (false, w) = ok (minus_1, w)
  set_up continue (true, w) = continue w

  unfoldable pub listen_2_events : ℕ → World → Result Fault (Ret × World)
  listen_2_events fuel w = set_up (listen_loop fuel) (epoll_add w a.listen_fd)
