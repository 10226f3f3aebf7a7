-- ===== src/Inotify.antt =====
-- pocs/inotify/inotify_test.cpp: a program that watches directories, and shows the events that the
-- kernel puts into a buffer. The calls of the kernel are parameters.
pub mod Order
pub mod Rounds
mod Tests
use lab.Prelude.{
  ℕ, zero, suc, ◌+◌, ◌-◌, ◌/◌, ◌%◌, ◌^◌, ◌==◌, ltb, if◌then◌else◌, Bool, true, false, ◌&&◌, List,
  [], ◌∷◌, ◌++◌, Option, none, some, Bytes, length, take, drop, le_value,
}
use lab.Prelude.Result.{Result, ok, raised, ◌>>=◌}

pub data Fault : Type 0 where
  -- `logFatalAndExit`
  fatal : Fault
  -- a read outside the buffer
  out_of_range : Fault
  -- an `int` that overflows
  overflow : Fault
  no_fuel : Fault

-- `sizeof(struct inotify_event)`
abbrev pub event_size : ℕ
event_size = 16

abbrev pub event_buffer_sz : ℕ
event_buffer_sz = 278528

-- What is shown of an event: the fields of its header as 32 bits each, and its name.
pub record Event : Type 0 where
  pub wd : ℕ
  pub mask : ℕ
  pub cookie : ℕ
  pub len : ℕ
  pub name : Bytes

-- The string at a pointer: the bytes before the first null byte.
unfoldable pub c_text : Bytes → Result Fault Bytes
c_text [] = raised out_of_range
c_text (c ∷ cs) = if c == 0 then ok [] else (do rest ← c_text cs; ok (c ∷ rest))

-- The fields at a pointer.
abbrev pub field_at : ℕ → Bytes → ℕ
field_at i bytes = le_value (take 4 (drop i bytes))

-- `printEvent` of the event at a pointer, as what it prints.
unfoldable pub print_event : Bytes → Result Fault Event
print_event bytes = if ltb (length bytes) event_size then raised out_of_range else (do
  name ← c_text (drop event_size bytes)
  ok (record {
    wd = field_at 0 bytes;
    mask = field_at 4 bytes;
    cookie = field_at 8 bytes;
    len = field_at 12 bytes;
    name = name;
  }))

-- `bytesRead-=fullEventSz`, with 0 for what is negative: the size is a sum of 32 bits without sign,
-- and then an `int`.
abbrev pub bytes_left : ℕ → ℕ → Result Fault ℕ
bytes_left bytes_read len =
    let full_event_sz = (event_size + len) % 2 ^ 32 in
    if ltb full_event_sz (2 ^ 31)
    then ok (bytes_read - full_event_sz)
    else if ltb (bytes_read + (2 ^ 32 - full_event_sz)) (2 ^ 31)
    then ok (bytes_read + (2 ^ 32 - full_event_sz))
    else raised overflow

-- The inner loop, with the event at the offset `at`, for `bytes_read` bytes more. The next event is
-- looked for at the number of the bytes that are left.
unfoldable pub show_events : ℕ → Bytes → ℕ → ℕ → Result Fault (List Event)
show_events fuel buffer at zero = ok []
show_events zero buffer at (suc bytes_read) = raised no_fuel
show_events (suc fuel) buffer at (suc bytes_read) = do
  event ← print_event (drop at buffer)
  left ← bytes_left (suc bytes_read) event.len
  events ← show_events fuel buffer left left
  ok (event ∷ events)

-- `IN_ISDIR` and `IN_CREATE`
abbrev pub is_new_dir : ℕ → Bool
is_new_dir mask = ((mask / 2 ^ 30) % 2 == 1) && ((mask / 2 ^ 8) % 2 == 1)

-- `IN_CREATE | IN_DELETE | IN_DELETE_SELF | IN_ATTRIB`
abbrev pub watch_mask : ℕ
watch_mask = 0x704

-- `read` of the list of watches, with `none` for -1, and `inotify_add_watch`, and whether it
-- succeeds.
pub record Kernel : Type 1 where
  pub World : Type 0
  pub read : World → ℕ → Option Bytes × World
  pub add_watch : World → Bytes → ℕ → Bool × World

module _ (k : Kernel) (watch_point_path : Bytes) where
  open k use {World, read, add_watch}

  abbrev pub watched : Bool × World → Result Fault World
  watched (true, w) = ok w
  watched (false, w) = raised fatal

  -- `addPath2WatchList`
  unfoldable pub add_path_2_watch_list : World → Bytes → ℕ → Result Fault World
  add_path_2_watch_list w path mask = watched (add_watch w path mask)

  -- The test of the first event of a batch: a new directory is watched.
  unfoldable pub watch_new_dir : Bytes → World → Result Fault World
  watch_new_dir buffer w =
      if is_new_dir (field_at 4 buffer)
      then (do
        name ← c_text (drop event_size buffer)
        add_path_2_watch_list w (watch_point_path ++ b'/' ∷ name) watch_mask)
      else ok w

  -- A batch of bytes at the front of the buffer: the events that are shown, and the system after it.
  unfoldable pub show_batch : Bytes → ℕ → World → Result Fault (List Event × World)
  show_batch buffer bytes_read w = if ltb bytes_read event_size then raised fatal else (do
    w' ← watch_new_dir buffer w
    events ← show_events (suc bytes_read) buffer 0 bytes_read
    ok (events, w'))

  -- What `read` has put into the buffer.
  abbrev pub got_batch : Bytes → Option Bytes × World → Result Fault ((List Event × World) × Bytes)
  got_batch buffer (none, w) = raised fatal
  got_batch buffer (some bytes, w) = do
    let filled = bytes ++ drop (length bytes) buffer
    shown ← show_batch filled (length bytes) w
    ok (shown, filled)

  -- The outer loop, which has no end, for a number of rounds: the batches that are shown. The bytes
  -- are what the buffer holds.
  unfoldable pub listen_2_events : ℕ → Bytes → World → Result Fault (List (List Event) × World)
  listen_2_events zero buffer w = ok ([], w)
  listen_2_events (suc rounds) buffer w = do
    ((events, w'), filled) ← got_batch buffer (read w event_buffer_sz)
    (batches, w'') ← listen_2_events rounds filled w'
    ok (events ∷ batches, w'')
