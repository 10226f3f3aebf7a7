-- ===== src/MemDb/Allocator/Tests.antt =====
-- A system that keeps how the last file was opened, and the theorem at its data.
use lab.Prelude.{
  arith, ℕ, ◌%◌, ◌≡◌, refl, sym, ap, ◌∙◌, ◌==◌, if◌then◌else◌, true, Option, none, some, length,
}
use lab.Prelude.Result.{raised}
use lab.Nw.Kernel.{Kernel, failed}
use lab.Nw.Drain
use lab.MemDb.Allocator.{Fault, drain, ShmCalls, mem_allocator}
use lab.MemDb.Allocator.Refuted.{NeedsAccess, mem_allocator-exits}

abbrev files : Kernel
files = record {
  World = ℕ;
  read = λ w fd n. (none, w);
  write = λ w fd bytes. (if w == 0 then none else some (length bytes), w);
  epoll_wait = λ w. (failed, w);
  epoll_add = λ w fd. (true, w);
  accept = λ w fd. (none, w);
}

abbrev segments : ShmCalls files
segments = record {
  shmget = λ w key size flags. (some 7, w);
  shmat = λ w id. (some 4096, w);
  rmid = λ w id. (some tt, w);
  shmdt = λ w addr. (some tt, w);
  open_file = λ w name flags. (some 3, flags % 4);
}

files-NeedsAccess : NeedsAccess files segments
files-NeedsAccess w w' name flags fd e read_only bytes =
    let mode : w' ≡ 0 = sym (ap (λ (x : Option ℕ × ℕ). x.1) e) ∙ read_only in (w', rw mode refl)

mem_allocator-exits_example :
    (mem_allocator files segments 1 ≡ raised (drain Drain.exit_3))
    × ((s : ℕ) → (e : Fault) × (mem_allocator files segments s ≡ raised e))
mem_allocator-exits_example =
    mem_allocator-exits files segments 1 1 1 0 7 4096 3 files-NeedsAccess refl refl
      (λ e. absurd (omega arith)) refl
