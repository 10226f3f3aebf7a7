-- ===== src/MemDb/Allocator/Refuted.antt =====
-- What the allocator does not give: it is never built, and its chunks are not apart.
use lab.Prelude.{
  ◌≢◌, ==_of_ne, ℕ, ◌+◌, ◌%◌, ◌<◌, ◌≤◌, ◌≡◌, refl, ◌==◌, Option, none, some, Bytes, codes, le_bytes,
  arith, Bool-cases, inl, inr,
}
use lab.Prelude.Result.{Result, raised}
use lab.Nw.Kernel.{Kernel}
use lab.Nw.Drain
use lab.Nw.Drain.{drain_object_out}
use lab.MemDb.Allocator.{
  Fault, exit_1, assertion, undefined, drain, ShmCalls, create_sync, create_excl, mega,
  MemAllocator, export_id, attached, got_segment, mem_allocator, alloc_chunk,
}

module _ (k : Kernel) (c : ShmCalls k) where
  open k use {World}

  -- A descriptor that is opened with neither `O_WRONLY` nor `O_RDWR` is not written to.
  abbrev pub NeedsAccess : Type 0
  NeedsAccess =
      (w w' : World) (name : Bytes) (flags fd : ℕ)
      → c.open_file w name flags ≡ (some fd, w')
      → flags % 4 ≡ 0
      → (bytes : Bytes) → (w'' : World) × (k.write w' fd bytes ≡ (none, w''))

  abbrev pub Ends : Result Fault (MemAllocator × World) → Type 0
  Ends m = (e : Fault) × (m ≡ raised e)

  export_id-Ends :
      (m : MemAllocator) (w : World) (opened : Option ℕ × World)
      → NeedsAccess
      → c.open_file w (codes "id") create_sync ≡ opened
      → Ends (export_id k c m opened)
  unfolding drain_object_out
  export_id-Ends m w (none, w') access e = (exit_1, refl)
  export_id-Ends m w (some fd, w') access e =
      let (w'', refused) = access w w' (codes "id") create_sync fd e refl (le_bytes 4 m.id) in
      (drain Drain.exit_3, rw refused refl)

  attached-Ends : (id : ℕ) (got : Option ℕ × World) → NeedsAccess → Ends (attached k c id got)
  attached-Ends id (none, w) access = (undefined, refl)
  attached-Ends id (some vmem, w) access = elim (Bool-cases (vmem == 0)) [
    | inl null ↦ (assertion, rw null refl)
    | inr there ↦ rw there (
        export_id-Ends (record { id = id; vmem = vmem; sz = mega; act_sz = 0 }) w
          (c.open_file w (codes "id") create_sync) access refl)
  ]

  got_segment-Ends : (got : Option ℕ × World) → NeedsAccess → Ends (got_segment k c got)
  got_segment-Ends (none, w) access = (exit_1, refl)
  got_segment-Ends (some id, w) access = attached-Ends id (c.shmat w id) access

  -- The constructor never returns.
  mem_allocator-Ends : (w : World) → NeedsAccess → Ends (mem_allocator k c w)
  unfolding mem_allocator
  mem_allocator-Ends w access = got_segment-Ends (c.shmget w 1 mega 0x7b6) access

  -- The constructor creates and attaches the segment and opens the file for the identifier, and where
  -- all of these succeed, the program ends by `exit(3)` at the write to this file, since a file that
  -- was not opened for writing is not written to. On no other path does it return either.
  pub mem_allocator-exits :
      (w w₁ w₂ w₃ : World) (id vmem fd : ℕ)
      → NeedsAccess
      → c.shmget w 1 mega create_excl ≡ (some id, w₁)
      → c.shmat w₁ id ≡ (some vmem, w₂)
      → vmem ≢ 0
      → c.open_file w₂ (codes "id") create_sync ≡ (some fd, w₃)
      → (mem_allocator k c w ≡ raised (drain Drain.exit_3))
        × ((s : World) → Ends (mem_allocator k c s))
  unfolding mem_allocator drain_object_out
  mem_allocator-exits w w₁ w₂ w₃ id vmem fd access got att there opened =
      let (w₄, refused) = access w₂ w₃ (codes "id") create_sync fd opened refl (le_bytes 4 id) in
      (rw (got, att, ==_of_ne vmem 0 there, opened, refused) refl, λ s. mem_allocator-Ends s access)

-- A chunk that is no smaller than the one before it, and less than twice as large, begins in that.
pub alloc_chunk-overlaps :
    (m : MemAllocator) (a b : ℕ)
    → a ≤ b
    → b < a + a
    → ((alloc_chunk m a).0.1 ≤ (alloc_chunk (alloc_chunk m a).1 b).0.1)
      × ((alloc_chunk (alloc_chunk m a).1 b).0.1 < (alloc_chunk m a).0.1 + a)
unfolding alloc_chunk
alloc_chunk-overlaps m a b low high = (omega arith, omega arith)
