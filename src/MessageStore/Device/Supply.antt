-- ===== src/MessageStore/Device/Supply.antt =====
-- How much input a device still has: no call adds to it, and each read takes some.
use lab.Prelude.{
  ℕ, zero, suc, ◌≤◌, ◌<◌, ◌≡◌, refl, ◌==◌, if◌then◌else◌, true, [], ◌∷◌, ◌++◌, Bytes, length, arith,
  Bool-cases, inl, inr, ◌⊎◌,
}
use lab.MessageStore.Outcome.{ok, raised, stream_exception}
use lab.MessageStore.Device.StdStream
use lab.MessageStore.Device.{IoDevice, std_stream, stub, read_data, write_data, ignore_till_char}
use lab.MessageStore.Device.StdStream.{
  OutStream, chunk, integer, InStream, at_end, from_bytes, extract, ignore, skip_till, read_loop,
  newline,
}

-- The bytes that are left and one more for the state: a stream that has failed gives nothing.
abbrev pub stock : InStream → ℕ
stock s = if s.good then suc (length s.input) else 0

skip_till-stock : (cs : Bytes) (ch : ℕ) → stock (skip_till cs ch) ≤ suc (length cs)
skip_till-stock [] ch = omega arith
skip_till-stock (c ∷ cs) ch = ground (arith, skip_till-stock cs ch)

pub ignore-stock : (s : InStream) (ch : ℕ) → stock (ignore s ch) ≤ stock s
ignore-stock s ch = ground (arith, skip_till-stock s.input ch)

extract-stock : (s : InStream) (ch : ℕ) → stock (extract s ch).1 ≤ stock s
extract-stock s ch = ground arith

extract-stock_good : (s : InStream) (ch : ℕ) → s.good ≡ true → stock (extract s ch).1 < stock s
extract-stock_good s ch h = ground arith

read_loop-stock : (n ch : ℕ) (s : InStream) → stock (read_loop n ch s).1 ≤ stock s
unfolding read_loop
read_loop-stock zero ch s = omega arith
read_loop-stock (suc n) ch s = elim (Bool-cases (ch == newline)) [
  | inl e ↦ rw e (omega arith)
  | inr e ↦
      let (c, s') = extract s ch in rw e (omega (arith, extract-stock s ch, read_loop-stock n c s'))
]

-- A read of at least one byte from a good stream gives a chunk that is not empty.
pub read_loop_good :
    (n : ℕ) (s : InStream)
    → s.good ≡ true
    → (c : ℕ) × (cs : Bytes) × ((read_loop (suc n) 0 s).0 ≡ c ∷ cs)
      × (stock (read_loop (suc n) 0 s).1 < stock s)
unfolding read_loop
read_loop_good n s h =
    let (c, s') = extract s 0 in
    (c, (read_loop n c s').0, refl, omega (arith, extract-stock_good s 0 h, read_loop-stock n c s'))

abbrev pub supply : IoDevice → ℕ
supply (std_stream d) = stock d.in_stream
supply stub = 0

pub ignore_till_char-supply : (d : IoDevice) (ch : ℕ) → supply (ignore_till_char d ch) ≤ supply d
unfolding ignore_till_char StdStream.ignore_till_char
ignore_till_char-supply (std_stream d) ch = ignore-stock d.in_stream ch
ignore_till_char-supply stub ch = omega arith

-- A chunk is written, with no input taken, or the output stream has failed.
pub write_data_cases :
    (d : IoDevice) (cs : Bytes) (n : ℕ)
    → ((d' : IoDevice) × (write_data d (chunk cs) n ≡ ok d') × (supply d' ≡ supply d))
      ⊎ (write_data d (chunk cs) n ≡ raised stream_exception)
unfolding write_data StdStream.write_data
write_data_cases (std_stream d) cs n = elim (Bool-cases d.out_stream.good) [
  | inl e ↦ inl (std_stream (record d { out_stream = printed }), rw e, refl)
  | inr e ↦ inr (rw e)
]
  where
    printed : OutStream
    printed = record { written = d.out_stream.written ++ cs ++ newline ∷ []; good = true }
write_data_cases stub cs n = inl (stub, refl, refl)

-- Where at least one byte is asked for, `readData` gives a chunk that is not empty, and takes some
-- of the input; or it gives something else than a chunk; or the stream has failed.
pub read_data_cases :
    (d : IoDevice) (n : ℕ)
    → ((c : ℕ) × (cs : Bytes) × (d' : IoDevice) × (read_data d (suc n) ≡ ok (chunk (c ∷ cs), d'))
        × (supply d' < supply d))
      ⊎ (((k : ℕ) × (read_data d (suc n) ≡ ok (integer k, d)))
          ⊎ (read_data d (suc n) ≡ raised stream_exception))
unfolding read_data StdStream.read_data
read_data_cases (std_stream d) n = elim (Bool-cases d.in_stream.good) [
  | inl e ↦
      let (c, cs, eq, less) = read_loop_good n d.in_stream e in
      let s = (read_loop (suc n) 0 d.in_stream).1 in
      inl (c, cs, std_stream (record d { in_stream = s }), ground (arith, eq), less)
  | inr e ↦ inr (inr (rw e))
]
read_data_cases stub n = inr (inl (9, refl))
