-- ===== src/MemDb/Allocator.antt =====
-- mem_db/common/src/shm_handler.cpp: the allocator of chunks in a segment of shared memory, over the
-- system calls as parameters. Where the file does not compile, a chunk's header is meant to be the
-- memory at its address.
pub mod Refuted
mod Tests
use lab.Prelude.{
  ℕ, ◌+◌, ◌*◌, ◌%◌, ◌^◌, ◌==◌, if◌then◌else◌, Option, none, some, Bytes, codes, le_bytes,
}
use lab.Prelude.Result.{Result, ok, raised, ◌>>=◌}
use lab.Nw.Kernel.{Kernel}
use lab.Nw.Drain
use lab.Nw.Drain.{drain_object_out}

pub data Fault : Type 0 where
  -- `exit(1)`
  exit_1 : Fault
  -- an `assert` that fails
  assertion : Fault
  -- a write to no memory
  undefined : Fault
  -- what ends the loop of `__WRITE_FD_DRAIN`
  drain : Drain.Fault → Fault

-- The calls of shared memory and `open`, with `none` for -1; `shmget` is given the key, the size and
-- the flags, and `open` the name and the flags. A segment is attached where the system chooses.
pub record ShmCalls (k : Kernel) : Type 0 where
  pub shmget : k.World → ℕ → ℕ → ℕ → Option ℕ × k.World
  pub shmat : k.World → ℕ → Option ℕ × k.World
  pub rmid : k.World → ℕ → Option (Unit {0}) × k.World
  pub shmdt : k.World → ℕ → Option (Unit {0}) × k.World
  pub open_file : k.World → Bytes → ℕ → Option ℕ × k.World

abbrev pub mega : ℕ
mega = 1024 * 1024

-- `O_CREAT|O_SYNC` of Linux
abbrev pub create_sync : ℕ
create_sync = 0x40 + 0x101000

-- `IPC_CREAT|0666|IPC_EXCL` of Linux
abbrev pub create_excl : ℕ
create_excl = 0x200 + 0x1b6 + 0x400

-- The allocator, with the two fields of the header at `mp_vmem` that it sets.
pub record MemAllocator : Type 0 where
  pub id : ℕ
  pub vmem : ℕ
  pub sz : ℕ
  pub act_sz : ℕ

module _ (k : Kernel) (c : ShmCalls k) where
  open k use {World}
  open c use {shmget, shmat, rmid, shmdt, open_file}

  abbrev pub drained : Result Drain.Fault World → Result Fault World
  drained (ok w) = ok w
  drained (raised e) = raised (drain e)

  -- The last part of the constructor: the identifier is written to the file.
  abbrev pub export_id : MemAllocator → Option ℕ × World → Result Fault (MemAllocator × World)
  export_id m (none, w) = raised exit_1
  export_id m (some fd, w) = do w' ← drained (drain_object_out k fd (le_bytes 4 m.id) w); ok (m, w')

  -- The address -1 of a `shmat` that fails passes the two tests, and is then written to.
  abbrev pub attached : ℕ → Option ℕ × World → Result Fault (MemAllocator × World)
  attached id (none, w) = raised undefined
  attached id (some vmem, w) =
      if vmem == 0
      then raised assertion
      else export_id (record { id = id; vmem = vmem; sz = mega; act_sz = 0 })
          (open_file w (codes "id") create_sync)

  abbrev pub got_segment : Option ℕ × World → Result Fault (MemAllocator × World)
  got_segment (none, w) = raised exit_1
  got_segment (some id, w) = attached id (shmat w id)

  -- The constructor.
  unfoldable pub mem_allocator : World → Result Fault (MemAllocator × World)
  mem_allocator w = got_segment (shmget w 1 mega create_excl)

  abbrev pub succeeded :
      Option (Unit {0}) × World → (World → Option (Unit {0}) × World) → Option (Unit {0}) × World
  succeeded (none, w) continue = (none, w)
  succeeded (some u, w) continue = continue w

  -- `disposeChunk`, which is given a pointer and removes the whole segment.
  unfoldable pub dispose_chunk : MemAllocator → ℕ → World → Option (Unit {0}) × World
  dispose_chunk m pointer w = succeeded (rmid w m.id) λ w'. shmdt w' m.vmem

-- `allocChunk`: the pointer, the address, and the allocator after it.
unfoldable pub alloc_chunk : MemAllocator → ℕ → (ℕ × ℕ) × MemAllocator
alloc_chunk m i_sz = ((i_sz, m.vmem + i_sz), record m { act_sz = (m.act_sz + i_sz) % 2 ^ 32 })

-- `pointerToLocalPointer`
unfoldable pub pointer_to_local_pointer : MemAllocator → ℕ → ℕ
pointer_to_local_pointer m pointer = m.vmem + pointer
