-- ===== src/MessageStore/Device/StdStream.antt =====
-- MessageStore/framework/src/StdStreamIODevice.cpp: the device over `std::cin` and `std::cout`. A
-- standard stream is the bytes that are left in it, or that were written to it, and `good()`; what
-- is written to a sink that is good leaves it good.
use lab.Prelude.{ℕ, zero, suc, ◌==◌, if◌then◌else◌, Bool, true, false, [], ◌∷◌, ◌++◌, Bytes}
use lab.MessageStore.Outcome.{Outcome, ok, raised, stream_exception, bad_any_cast}

abbrev pub newline : ℕ
newline = 10

-- A `std::istream` with `noskipws` set.
pub record InStream : Type 0 where
  pub input : Bytes
  pub good : Bool

-- A `std::ostream`.
pub record OutStream : Type 0 where
  pub written : Bytes
  pub good : Bool

pub record StdStreamIoDevice : Type 0 where
  pub in_stream : InStream
  pub out_stream : OutStream

-- What a `std::any` from a device holds.
pub data AnyValue : Type 0 where
  chunk : Bytes → AnyValue
  integer : ℕ → AnyValue

abbrev pub at_end : InStream
at_end = record { input = []; good = false }

abbrev pub from_bytes : Bytes → InStream
from_bytes cs = record { input = cs; good = true }

-- `in >> ch`: where it fails, `ch` keeps its value.
abbrev extract_from : Bytes → ℕ → ℕ × InStream
extract_from [] ch = (ch, at_end)
extract_from (c ∷ cs) ch = (c, from_bytes cs)

abbrev pub extract : InStream → ℕ → ℕ × InStream
extract s ch = if s.good then extract_from s.input ch else (ch, s)

abbrev pub skip_till : Bytes → ℕ → InStream
skip_till [] ch = at_end
skip_till (c ∷ cs) ch = if c == ch then from_bytes cs else skip_till cs ch

-- `in.ignore(max, ch)`
abbrev pub ignore : InStream → ℕ → InStream
ignore s ch = if s.good then skip_till s.input ch else s

-- The loop of `readData`, with `n` rounds left and `ch` the byte read last.
unfoldable pub read_loop : ℕ → ℕ → InStream → Bytes × InStream
read_loop zero ch s = ([], s)
read_loop (suc n) ch s =
    let (c, s') = extract s ch in
    let (cs, s'') = read_loop n c s' in if ch == newline then ([], s) else (c ∷ cs, s'')

unfoldable pub read_data : StdStreamIoDevice → ℕ → Outcome (AnyValue × StdStreamIoDevice)
read_data d len =
    if d.in_stream.good
    then (let (data_chunk, s) = read_loop len 0 d.in_stream in
        ok (chunk data_chunk, record d { in_stream = s }))
    else raised stream_exception

-- The whole chunk and a newline: `len` is not read.
unfoldable pub write_data : StdStreamIoDevice → AnyValue → ℕ → Outcome StdStreamIoDevice
write_data d (chunk cs) len =
    if d.out_stream.good
    then ok (record d {
      out_stream = record { written = d.out_stream.written ++ cs ++ newline ∷ []; good = true };
    })
    else raised stream_exception
write_data d (integer n) len =
    if d.out_stream.good then raised bad_any_cast else raised stream_exception

unfoldable pub ignore_till_char : StdStreamIoDevice → ℕ → StdStreamIoDevice
ignore_till_char d ch = record d { in_stream = ignore d.in_stream ch }
