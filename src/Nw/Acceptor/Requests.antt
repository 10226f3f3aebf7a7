-- ===== src/Nw/Acceptor/Requests.antt =====
-- What a request does, whatever the pieces in which it comes.
use lab.Prelude.{
  ℕ, ◌+◌, ◌-◌, ◌^◌, ◌≤◌, ◌<◌, ◌≡◌, refl, sym, ap, ◌∙◌, Bool, true, false, ◌++◌, Bytes, length, take,
  drop, le_bytes, le_value, le_value-le_bytes, arith, append-nil, length-append, length-drop,
  drop-append, drop-drop, take_all, drop_all, lt→ltb, ltb,
}
use lab.Prelude.Result.{Result, ok}
use lab.Nw.Kernel.{Kernel, IsReliable}
use lab.Nw.Drain.{Fault, drain_read, drain_write}
use lab.Nw.Drain.Whole.{drain_read-Reads, drain_read-prefix, drain_write-Writes}
use lab.Nw.Message.{
  max_msg_sz, header_sz, MsgType, reg, trm, type_code, header_bytes, get_msg_type, get_msg_sz,
  new_header, overlay, int_rounds,
}
use lab.Nw.Acceptor.{Acceptor, Ret, success, minus_1, drain_body, handle_type, handle_request}

-- The arrays of a message have their sizes.
pub record IsAcceptor (a : Acceptor) : Type 0 where
  pub vptr_size : length a.vptr ≡ 8
  pub body_size : length a.body ≡ max_msg_sz

behind_pointer :
    (n : ℕ) (vptr others : Bytes) → length vptr ≡ 8 → drop (8 + n) (vptr ++ others) ≡ drop n others
behind_pointer n vptr others e =
    let rest : 8 + n - length vptr ≡ n = omega arith in
    drop-append (8 + n) vptr others (omega arith) ∙ ap (λ x. drop x others) rest

get_msg_type-header :
    (vptr seq : Bytes) (typ sz : ℕ)
    → length vptr ≡ 8
    → typ < 2 ^ 32
    → get_msg_type (header_bytes vptr typ sz seq) ≡ typ
get_msg_type-header vptr seq typ sz e h =
    ap (λ x. le_value (take 4 x))
      (behind_pointer 0 vptr (le_bytes 4 typ ++ (le_bytes 4 sz ++ seq)) e)
    ∙ le_value-le_bytes 4 typ h

get_msg_sz-header :
    (vptr seq : Bytes) (typ sz : ℕ)
    → length vptr ≡ 8
    → sz < 2 ^ 32
    → get_msg_sz (header_bytes vptr typ sz seq) ≡ sz
get_msg_sz-header vptr seq typ sz e h =
    ap (λ x. le_value (take 4 x))
      (behind_pointer 4 vptr (le_bytes 4 typ ++ (le_bytes 4 sz ++ seq)) e)
    ∙ le_value-le_bytes 4 sz h

-- The type of a request and the answer to it: whether it terminates the server.
abbrev pub ret_of : Bool → Ret
ret_of true = minus_1
ret_of false = success

abbrev pub type_of : Bool → MsgType
type_of true = trm
type_of false = reg

module _ (k : Kernel) (r : IsReliable k) (a : Acceptor) (v : IsAcceptor a) where
  open k use {World}
  open r use {incoming, outgoing}

  -- The request is taken off the connection, and its message is put to the log.
  abbrev pub Logs : ℕ → World → Ret → Bytes → Bytes → Result Fault (Ret × World) → Type 0
  Logs fd w ret message rest m =
      (w' : World) × (m ≡ ok (ret, w'))
      × (incoming w' fd ≡ rest)
      × (outgoing w' a.log_fd ≡ outgoing w a.log_fd ++ message)

  drain_body_parts :
      (header : Bytes) (ret : Ret) (fd : ℕ) (w w' w'' : World) (body : Bytes)
      → get_msg_sz header ≡ length body
      → ltb (length body) (2 ^ 31) ≡ true
      → drain_read k (length body) fd max_msg_sz (length body) w ≡ ok (body, w')
      → drain_write k (header_sz + max_msg_sz) a.log_fd (header ++ overlay body a.body) w' ≡ ok w''
      → drain_body k a header ret fd w ≡ ok (ret, w'')
  unfolding drain_body
  drain_body_parts header ret fd w w' w'' body s small got put =
      let rounds : int_rounds (get_msg_sz header) ≡ length body = rw (s, small) refl in
      rw (rounds, got, put) refl

  drain_body-Logs :
      (header : Bytes) (ret : Ret) (fd : ℕ) (w : World) (body rest : Bytes)
      → length header ≡ header_sz
      → get_msg_sz header ≡ length body
      → length body ≤ max_msg_sz
      → incoming w fd ≡ body ++ rest
      → Logs fd w ret (header ++ overlay body a.body) rest (drain_body k a header ret fd w)
  drain_body-Logs header ret fd w body rest l s h e =
      let small = lt→ltb (length body) (2 ^ 31) (omega arith) in
      let (w', got, left_over, same) =
        drain_read-prefix k r (length body) fd max_msg_sz w body rest (omega arith) h e in
      let message = header ++ overlay body a.body in
      let size = length-append header (overlay body a.body) in
      let body_size = length-append body (drop (length body) a.body) in
      let (w'', put, out, same') =
        drain_write-Writes k r (header_sz + max_msg_sz) a.log_fd message w'
          (omega (arith, v.body_size, length-drop (length body) a.body)) in
      (
        w'',
        drain_body_parts header ret fd w w' w'' body s small got put,
        same' fd ∙ left_over,
        out ∙ ap (λ x. x ++ message) (same a.log_fd),
      )

  pub length-header_bytes :
      (vptr seq : Bytes) (typ sz : ℕ)
      → length vptr ≡ 8
      → length seq ≡ 8
      → length (header_bytes vptr typ sz seq) ≡ header_sz
  length-header_bytes vptr seq typ sz e f =
      omega (arith, length-append vptr (le_bytes 4 typ ++ (le_bytes 4 sz ++ seq)))

  type_code-lt : (terminate : Bool) → type_code (type_of terminate) < 2 ^ 32
  type_code-lt true = omega arith
  type_code-lt false = omega arith

  handle_type-drains :
      (terminate : Bool) (header : Bytes) (fd : ℕ) (w : World)
      → get_msg_type header ≡ type_code (type_of terminate)
      → handle_type k a header fd w ≡ drain_body k a header (ret_of terminate) fd w
  handle_type-drains true header fd w e = rw e refl
  handle_type-drains false header fd w e = rw e refl

  -- A request of the type `REG` or `TRM` that says the size of its body is taken whole and logged,
  -- in whatever pieces it comes and its log is written. The answer is 0 to `REG`, and -1 to `TRM`.
  pub handle_request-Logs :
      (terminate : Bool) (fd : ℕ) (w : World) (vptr seq body rest : Bytes)
      → length vptr ≡ 8
      → length seq ≡ 8
      → length body ≤ max_msg_sz
      → incoming w fd
        ≡ header_bytes vptr (type_code (type_of terminate)) (length body) seq ++ (body ++ rest)
      → Logs fd w
          (ret_of terminate)
          (header_bytes vptr (type_code (type_of terminate)) (length body) seq
            ++ overlay body a.body)
          rest
          (handle_request k a fd w)
  unfolding handle_request
  handle_request-Logs terminate fd w vptr seq body rest e f h inc =
      let header = header_bytes vptr (type_code (type_of terminate)) (length body) seq in
      let whole = length-header_bytes vptr seq (type_code (type_of terminate)) (length body) e f in
      let (w', got, left_over, same) =
        drain_read-prefix k r header_sz fd header_sz w header (body ++ rest) (omega arith)
          (omega arith) inc in
      let got_header : drain_read k header_sz fd header_sz header_sz w ≡ ok (header, w') =
        ap (λ n. drain_read k header_sz fd header_sz n w) (sym whole) ∙ got in
      let new_size = length-header_bytes a.vptr (le_bytes 8 0) 2 0 v.vptr_size refl in
      let covered : overlay header (new_header a.vptr) ≡ header =
        ap (λ x. header ++ x) (drop_all (length header) (new_header a.vptr) (omega arith))
        ∙ append-nil header in
      let (w'', done, others, logged) =
        drain_body-Logs header (ret_of terminate) fd w' body rest whole
          (get_msg_sz-header vptr seq (type_code (type_of terminate)) (length body) e (omega arith))
          h left_over in
      let typed = handle_type-drains terminate header fd w' (
        get_msg_type-header vptr seq (type_code (type_of terminate)) (length body) e
          (type_code-lt terminate)) in
      (
        w'',
        rw (got_header, covered) (typed ∙ done),
        others,
        logged ∙ ap (λ x. x ++ (header ++ overlay body a.body)) (same a.log_fd),
      )

  hangup_type : (got : Bytes) → length got ≤ 8 → get_msg_type (overlay got (new_header a.vptr)) ≡ 2
  hangup_type got h =
      let left : length got + (8 - length got) ≡ 8 = omega arith in
      ap (λ x. le_value (take 4 x))
        (drop-append 8 got (drop (length got) (new_header a.vptr)) h
          ∙ (drop-drop (8 - length got) (length got) (new_header a.vptr)
              ∙ (ap (λ n. drop n (new_header a.vptr)) left
                  ∙ behind_pointer 0 a.vptr _ v.vptr_size)))

  -- Where no more than eight bytes come before the other side closes, and so where it closes without
  -- a request, the answer is -1, and nothing is logged.
  pub handle_request-hangup :
      (fd : ℕ) (w : World)
      → length (incoming w fd) ≤ 8
      → (w' : World) × (handle_request k a fd w ≡ ok (minus_1, w'))
        × (outgoing w' a.log_fd ≡ outgoing w a.log_fd)
  unfolding handle_request
  handle_request-hangup fd w h =
      let (w', got, left_over, same) =
        drain_read-Reads k r header_sz fd header_sz header_sz w (omega arith) (omega arith) in
      let all : take header_sz (incoming w fd) ≡ incoming w fd =
        take_all header_sz (incoming w fd) (omega arith) in
      let got_all = got ∙ ap (λ x. ok (x, w')) all in
      (w', rw (got_all, hangup_type (incoming w fd) h), same a.log_fd)
