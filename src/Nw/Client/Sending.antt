-- ===== src/Nw/Client/Sending.antt =====
-- What the client sends.
use lab.Prelude.{
  some, le→ltb, lt→ltb, ◌<◌, le_bytes, ℕ, zero, suc, ◌≤◌, ◌≡◌, refl, sym, ap, ◌∙◌, [], ◌++◌, Bytes,
  length, take, arith, append-nil, append_assoc, length-append, drop_all, take_all,
}
use lab.Prelude.Result.{Result, ok, raised}
use lab.Nw.Kernel.{Kernel, IsReliable}
use lab.Nw.Drain.{Fault, beyond, write_object, drain_object_in, drain_object_out}
use lab.Nw.Message.{reg, header_bytes, overlay}
use lab.Nw.Client.{
  BufferSz, fill_letters, fill_buff_sz, assign, NwMessage, message_bytes, message_sz, init,
  zero_bytes, ClientImpl, send_msgs, ack_msgs, run, run_1024,
}

-- The same bytes again and again.
abbrev pub copies : ℕ → Bytes → Bytes
copies zero bytes = []
copies (suc n) bytes = bytes ++ copies n bytes

pub length-fill_letters : (n j : ℕ) → length (fill_letters n j) ≡ n
unfolding fill_letters
length-fill_letters zero j = refl
length-fill_letters (suc n) j = ap suc (length-fill_letters n _)

length-zero_bytes : (n : ℕ) → length (zero_bytes n) ≡ n
unfolding zero_bytes
length-zero_bytes zero = refl
length-zero_bytes (suc n) = ap suc (length-zero_bytes n)

-- An array that is written as a whole.
pub overlay_all : (bytes array : Bytes) → length array ≤ length bytes → overlay bytes array ≡ bytes
overlay_all bytes array h =
    ap (λ x. bytes ++ x) (drop_all (length bytes) array h) ∙ append-nil bytes

-- The message of the test: of the type `REG`, with the size that the constructor gave it, and the
-- letters.
abbrev pub test_message : NwMessage → NwMessage
test_message m = record m { msg_type = 0; body = fill_letters 1024 65 }

-- A write takes all the bytes, as that of a blocking socket does.
abbrev pub WritesWhole : Kernel → Type 0
WritesWhole k =
    (w w' : k.World) (fd n : ℕ) (bytes : Bytes)
    → k.write w fd bytes ≡ (some n, w')
    → n ≡ length bytes

write_object-whole :
    (k : Kernel) (size n : ℕ) (w : k.World)
    → 1 ≤ n
    → n ≡ size
    → write_object k size (some n, w) ≡ ok w
write_object-whole k size zero w h e = absurd (omega arith)
write_object-whole k size (suc n) w h e = rw (le→ltb (suc n) size (omega arith)) refl

-- Where a write is cut short, the pointer of the next one is beyond the message.
pub drain_object_out-short :
    (k : Kernel) (fd n : ℕ) (bytes : Bytes) (w w' : k.World)
    → k.write w fd bytes ≡ (some (suc n), w')
    → suc n < length bytes
    → drain_object_out k fd bytes w ≡ raised beyond
unfolding drain_object_out
drain_object_out-short k fd n bytes w w' e h = rw (e, lt→ltb (suc n) (length bytes) h) refl

module _ (k : Kernel) (r : IsReliable k) (whole : WritesWhole k) where
  open k use {World}
  open r use {incoming, outgoing}

  drain_object_out-Writes :
      (fd : ℕ) (bytes : Bytes) (w : World)
      → 1 ≤ length bytes
      → (w' : World) × (drain_object_out k fd bytes w ≡ ok w')
        × (outgoing w' fd ≡ outgoing w fd ++ bytes)
        × ((other : ℕ) → incoming w' other ≡ incoming w other)
  unfolding drain_object_out
  drain_object_out-Writes fd bytes w h =
      let (n, w', got, least, fits, out, same) =
        r.write_some w fd bytes (λ e. absurd (omega (arith, ap length e))) in
      let all = whole w w' fd n bytes got in
      (
        w',
        rw got (write_object-whole k (length bytes) n w' least all),
        out ∙ ap (λ x. outgoing w fd ++ x) (take_all n bytes (omega arith)),
        same,
      )

  -- These bytes were written to a socket on which nothing comes.
  abbrev pub Sends : ℕ → World → Bytes → Result Fault World → Type 0
  Sends fd w bytes m =
      (w' : World) × (m ≡ ok w') × (incoming w' fd ≡ []) × (outgoing w' fd ≡ outgoing w fd ++ bytes)

  send_msgs-Sends :
      (n fd : ℕ) (msg : Bytes) (w : World)
      → 1 ≤ length msg
      → incoming w fd ≡ []
      → Sends fd w (copies n msg) (send_msgs k n fd msg w)
  unfolding send_msgs
  send_msgs-Sends zero fd msg w h e = (w, refl, e, sym (append-nil (outgoing w fd)))
  send_msgs-Sends (suc n) fd msg w h e =
      let (w', put, out, same) = drain_object_out-Writes fd msg w h in
      let (w'', rest, e', out') = send_msgs-Sends n fd msg w' h (same fd ∙ e) in
      (
        w'',
        rw (put, rest) refl,
        e',
        out' ∙ (ap (λ x. x ++ copies n msg) out ∙ append_assoc (outgoing w fd) msg (copies n msg)),
      )

  ack_msgs-Sends :
      (n fd : ℕ) (w : World)
      → incoming w fd ≡ []
      → Sends fd w (copies n (zero_bytes message_sz)) (ack_msgs k n fd w)
  unfolding ack_msgs drain_object_in
  ack_msgs-Sends zero fd w e = (w, refl, e, sym (append-nil (outgoing w fd)))
  ack_msgs-Sends (suc n) fd w e =
      let nothing = zero_bytes message_sz in
      let (w1, got, e1, same1) = r.read_end w fd message_sz e in
      let (w2, put, out, same2) =
        drain_object_out-Writes fd nothing w1 (omega (arith, length-zero_bytes message_sz)) in
      let (w3, rest, e3, out3) = ack_msgs-Sends n fd w2 (same2 fd ∙ e1) in
      (
        w3,
        rw (got, put, rest) refl,
        e3,
        out3
            ∙ (ap (λ x. x ++ copies n nothing) (out ∙ ap (λ x. x ++ nothing) (same1 fd))
                ∙ append_assoc (outgoing w fd) nothing (copies n nothing)),
      )

take_fill : take 1024 (fill_letters 1024 65) ≡ fill_letters 1024 65
take_fill = take_all 1024 (fill_letters 1024 65) (omega (arith, length-fill_letters 1024 65))

overlay_fill :
    (array : Bytes)
    → length array ≡ 1024
    → overlay (fill_letters 1024 65) array ≡ fill_letters 1024 65
overlay_fill array e =
    overlay_all (fill_letters 1024 65) array (omega (arith, length-fill_letters 1024 65))

-- The buffer of the test, in an array of 1024 bytes.
abbrev letters : BufferSz
letters = record { sz = 1024; buff = fill_letters 1024 65 }

fill_buff_sz-letters : (b : BufferSz) → length b.buff ≡ 1024 → fill_buff_sz 1024 b ≡ ok letters
unfolding fill_buff_sz
fill_buff_sz-letters b e = rw (e, overlay_fill b.buff e) refl

assign-letters : (b : BufferSz) → length b.buff ≡ 1024 → assign b letters ≡ ok letters
unfolding assign
assign-letters b e = rw (e, take_fill, overlay_fill b.buff e) refl

init-letters :
    (m : NwMessage)
    → length m.body ≡ 1024
    → init m (fill_letters 1024 65) 1024 reg ≡ ok (test_message m)
unfolding init
init-letters m e = rw (take_fill, overlay_fill m.body e) refl

-- The arrays of a client have their sizes.
pub record IsClient (c : ClientImpl) : Type 0 where
  pub buff_size : length c.buff.buff ≡ 1024
  pub body_size : length c.msg.body ≡ 1024
  pub vptr_size : length c.msg.vptr ≡ 8
  pub seq_size : length c.msg.seq ≡ 8

length-message :
    (c : ClientImpl) → IsClient c → length (message_bytes (test_message c.msg)) ≡ message_sz
length-message c v = omega (
  arith,
  v.vptr_size,
  v.seq_size,
  length-fill_letters 1024 65,
  length-append (header_bytes c.msg.vptr 0 c.msg.msg_sz c.msg.seq) (fill_letters 1024 65),
  length-append c.msg.vptr (le_bytes 4 0 ++ (le_bytes 4 c.msg.msg_sz ++ c.msg.seq)),
)

module _ (k : Kernel) (r : IsReliable k) (whole : WritesWhole k) where
  open k use {World}
  open r use {incoming, outgoing}

  -- Where each write takes all its bytes, and nothing comes back, the client's run ends, and it has sent its message as often as it was
  -- told, and then as often a message of zeros. The message says the size that its constructor gave
  -- it, and not that of the letters in its body.
  pub run_1024-Sends :
      (c : ClientImpl) (stack : BufferSz) (w : World)
      → IsClient c
      → length stack.buff ≡ 1024
      → incoming w c.socket_fd ≡ []
      → Sends k r whole c.socket_fd w
          (copies c.num_evnt_to_snd (message_bytes (test_message c.msg))
            ++ copies c.num_evnt_to_snd (zero_bytes message_sz))
          (run_1024 k stack c w)
  unfolding run_1024 run
  run_1024-Sends c stack w v e silent =
      let n = c.num_evnt_to_snd in
      let fd = c.socket_fd in
      let msg = message_bytes (test_message c.msg) in
      let (w1, sent, e1, out1) =
        send_msgs-Sends k r whole n fd msg w (omega (arith, length-message c v)) silent in
      let (w2, acked, e2, out2) = ack_msgs-Sends k r whole n fd w1 e1 in
      (
        w2,
        rw
            (
              fill_buff_sz-letters stack e,
              assign-letters c.buff v.buff_size,
              init-letters c.msg v.body_size,
              sent,
              acked,
            )
            refl,
        e2,
        out2
            ∙ (ap (λ x. x ++ copies n (zero_bytes message_sz)) out1
                ∙ append_assoc (outgoing w fd) (copies n msg) (copies n (zero_bytes message_sz))),
      )
