-- ===== src/Nw/Drain.antt =====
-- common/shr/macros.h: `__READ_FD_DRAIN` and `__WRITE_FD_DRAIN`, which call until all bytes are
-- through, there are no more, or a call fails. They add the bytes that are through to the pointer that
-- they are given: with a pointer to `char` they go on behind these bytes (`drain_read` and
-- `drain_write`), and with the pointer to an object they go on as many objects further
-- (`drain_object_in` and `drain_object_out`).
pub mod Whole
use lab.Prelude.{
  ℕ, zero, suc, ◌-◌, ltb, if◌then◌else◌, List, [], ◌∷◌, ◌++◌, Option, none, some, Bytes, length,
  drop,
}
use lab.Prelude.Result.{Result, ok, raised, ◌>>=◌}
use lab.Nw.Kernel.{Kernel}

pub data Fault : Type 0 where
  -- `exit(3)`
  exit_3 : Fault
  -- a write behind an array
  overflow : Fault
  -- a pointer beyond an object
  beyond : Fault
  -- an `assert` that fails
  assertion : Fault
  no_fuel : Fault

module _ (k : Kernel) where
  open k use {World, read, write}

  -- What is left of the loop after a call, with room for `room` more bytes.
  abbrev pub read_next :
      (ℕ → ℕ → World → Result Fault (Bytes × World))
      → ℕ
      → ℕ
      → Option Bytes × World
      → Result Fault (Bytes × World)
  read_next continue room left (none, w) = raised exit_3
  read_next continue room left (some [], w) = ok ([], w)
  read_next continue room left (some (c ∷ cs), w) =
      if ltb room (length (c ∷ cs)) then raised overflow else (do
        (rest, w') ← continue (room - length (c ∷ cs)) (left - length (c ∷ cs)) w
        ok (c ∷ cs ++ rest, w'))

  -- The bytes that were read, `left` at most.
  unfoldable pub drain_read : ℕ → ℕ → ℕ → ℕ → World → Result Fault (Bytes × World)
  drain_read fuel fd room zero w = ok ([], w)
  drain_read zero fd room (suc left) w = raised no_fuel
  drain_read (suc fuel) fd room (suc left) w =
      read_next (drain_read fuel fd) room (suc left) (read w fd (suc left))

  abbrev pub write_next :
      (Bytes → World → Result Fault World) → Bytes → Option ℕ × World → Result Fault World
  write_next continue bytes (none, w) = raised exit_3
  write_next continue bytes (some zero, w) = ok w
  write_next continue bytes (some (suc n), w) = continue (drop (suc n) bytes) w

  unfoldable pub drain_write : ℕ → ℕ → Bytes → World → Result Fault World
  drain_write fuel fd [] w = ok w
  drain_write zero fd (c ∷ bytes) w = raised no_fuel
  drain_write (suc fuel) fd (c ∷ bytes) w =
      write_next (drain_write fuel fd) (c ∷ bytes) (write w fd (c ∷ bytes))

  -- What is left of the loop over an object of `size` bytes after its first call: the pointer of a
  -- second one is beyond the object.
  abbrev pub read_object : ℕ → Option Bytes × World → Result Fault (Bytes × World)
  read_object size (none, w) = raised exit_3
  read_object size (some [], w) = ok ([], w)
  read_object size (some (c ∷ cs), w) =
      if ltb (length (c ∷ cs)) size
      then raised beyond
      else if ltb size (length (c ∷ cs))
      then raised overflow
      else ok (c ∷ cs, w)

  -- `__READ_FD_DRAIN(&object, fd, sizeof(object))`
  unfoldable pub drain_object_in : ℕ → ℕ → World → Result Fault (Bytes × World)
  drain_object_in fd size w = read_object size (read w fd size)

  abbrev pub write_object : ℕ → Option ℕ × World → Result Fault World
  write_object size (none, w) = raised exit_3
  write_object size (some zero, w) = ok w
  write_object size (some (suc n), w) = if ltb (suc n) size then raised beyond else ok w

  -- `__WRITE_FD_DRAIN(&object, fd, sizeof(object))` of an object of these bytes.
  unfoldable pub drain_object_out : ℕ → Bytes → World → Result Fault World
  drain_object_out fd bytes w = write_object (length bytes) (write w fd bytes)
