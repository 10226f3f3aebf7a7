-- ===== src/Nw/Message.antt =====
-- common/nw/inc/nw_message.h, as it is compiled for the tests: the header of a message in memory
-- has the pointer of the class, the type, the size, the sequence number and four bytes that are not
-- used.
use lab.Prelude.{ℕ, ◌^◌, ltb, if◌then◌else◌, ◌++◌, Bytes, length, take, drop, le_bytes, le_value}

abbrev pub max_msg_sz : ℕ
max_msg_sz = 1024

-- `sizeof(header)`
abbrev pub header_sz : ℕ
header_sz = 24

pub data MsgType : Type 0 where
  reg trm inv : MsgType

abbrev pub type_code : MsgType → ℕ
type_code reg = 0
type_code trm = 1
type_code inv = 2

-- A header with this pointer, type, size and the bytes behind them.
abbrev pub header_bytes : Bytes → ℕ → ℕ → Bytes → Bytes
header_bytes vptr typ sz seq = vptr ++ (le_bytes 4 typ ++ (le_bytes 4 sz ++ seq))

abbrev pub get_msg_type : Bytes → ℕ
get_msg_type header = le_value (take 4 (drop 8 header))

abbrev pub get_msg_sz : Bytes → ℕ
get_msg_sz header = le_value (take 4 (drop 12 header))

-- The constructor: no type and no size.
abbrev pub new_header : Bytes → Bytes
new_header vptr = header_bytes vptr (type_code inv) 0 (le_bytes 8 0)

-- The first bytes of an array are written.
abbrev pub overlay : Bytes → Bytes → Bytes
overlay bytes array = bytes ++ drop (length bytes) array

-- A 32-bit size as the `int` that bounds a loop: no round where it is negative.
abbrev pub int_rounds : ℕ → ℕ
int_rounds n = if ltb n (2 ^ 31) then n else 0
