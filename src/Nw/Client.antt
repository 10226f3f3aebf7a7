-- ===== src/Nw/Client.antt =====
-- common/ut/inc/nwUT.h and common/ut/src/nwUT.cpp: the client with which the server is tested, over
-- the system calls of its own process. What does not compile there is modelled as it is meant: the
-- message, and not what it would point to, is set to zeros.
pub mod Sending
pub mod Served
use lab.Prelude.{
  ℕ, zero, suc, ◌+◌, ◌%◌, ◌==◌, ltb, if◌then◌else◌, [], ◌∷◌, ◌++◌, Bytes, length, take,
}
use lab.Prelude.Result.{Result, ok, raised, ◌>>=◌}
use lab.Nw.Kernel.{Kernel}
use lab.Nw.Drain.{Fault, overflow, assertion, drain_object_in, drain_object_out}
use lab.Nw.Message.{max_msg_sz, header_sz, MsgType, reg, type_code, header_bytes, overlay}

pub record BufferSz : Type 0 where
  pub sz : ℕ
  pub buff : Bytes

-- The next `j` of `__FILL_BUFF_SZ`: 'A' follows 'Z'.
abbrev pub next_letter : ℕ → ℕ
next_letter j = if j + 1 == 91 then 65 else j + 1

-- The bytes that its loop writes.
unfoldable pub fill_letters : ℕ → ℕ → Bytes
fill_letters zero j = []
fill_letters (suc n) j = (j % 90 + 1) ∷ fill_letters n (next_letter j)

-- `__FILL_BUFF_SZ`
unfoldable pub fill_buff_sz : ℕ → BufferSz → Result Fault BufferSz
fill_buff_sz sz b =
    if ltb (length b.buff) sz
    then raised overflow
    else ok (record { sz = sz; buff = overlay (fill_letters sz 65) b.buff })

-- `operator=`: `raw_copy_bytes` asserts that there are bytes to be copied.
unfoldable pub assign : BufferSz → BufferSz → Result Fault BufferSz
assign b other =
    if other.sz == 0
    then raised assertion
    else if ltb (length b.buff) other.sz
    then raised overflow
    else ok (record { sz = other.sz; buff = overlay (take other.sz other.buff) b.buff })

-- A message with the fields of its header.
pub record NwMessage : Type 0 where
  pub vptr : Bytes
  pub msg_type : ℕ
  pub msg_sz : ℕ
  pub seq : Bytes
  pub body : Bytes

-- The message in memory.
abbrev pub message_bytes : NwMessage → Bytes
message_bytes m = header_bytes m.vptr m.msg_type m.msg_sz m.seq ++ m.body

abbrev pub message_sz : ℕ
message_sz = header_sz + max_msg_sz

-- `init`, from an array of 1024 bytes: the size in the header is not set.
unfoldable pub init : NwMessage → Bytes → ℕ → MsgType → Result Fault NwMessage
init m msg len typ =
    if ltb max_msg_sz len
    then raised overflow
    else ok (record m { msg_type = type_code typ; body = overlay (take len msg) m.body })

-- `memset(&m_msg, 0, ...)`
unfoldable pub zero_bytes : ℕ → Bytes
zero_bytes zero = []
zero_bytes (suc n) = 0 ∷ zero_bytes n

pub record ClientImpl : Type 0 where
  pub buff : BufferSz
  pub socket_fd : ℕ
  pub num_evnt_to_snd : ℕ
  pub msg : NwMessage

module _ (k : Kernel) where
  open k use {World}

  -- The two loops of `run`: the message is sent, and of what comes back each is sent back again.
  unfoldable pub send_msgs : ℕ → ℕ → Bytes → World → Result Fault World
  send_msgs zero fd msg w = ok w
  send_msgs (suc n) fd msg w = do w' ← drain_object_out k fd msg w; send_msgs n fd msg w'

  unfoldable pub ack_msgs : ℕ → ℕ → World → Result Fault World
  ack_msgs zero fd w = ok w
  ack_msgs (suc n) fd w = do
    (got, w') ← drain_object_in k fd message_sz w
    w'' ← drain_object_out k fd (overlay got (zero_bytes message_sz)) w'
    ack_msgs n fd w''

  -- `ClientImpl::run`, but for the two calls of `close` at its end.
  unfoldable pub run : ClientImpl → MsgType → World → Result Fault World
  run c typ w = do
    msg ← init c.msg c.buff.buff c.buff.sz typ
    w' ← send_msgs c.num_evnt_to_snd c.socket_fd (message_bytes msg) w
    ack_msgs c.num_evnt_to_snd c.socket_fd w'

  -- `ClientImplBuff_1024::run`. The first argument is the buffer on the stack.
  unfoldable pub run_1024 : BufferSz → ClientImpl → World → Result Fault World
  run_1024 buff c w = do
    filled ← fill_buff_sz 1024 buff
    m_buff ← assign c.buff filled
    run (record c { buff = m_buff }) reg w
