-- ===== src/MemDb/ShmControl/Kernel.antt =====
-- The calls of System V shared memory that mem_db/utils/src/shm_control.cpp makes, on the state of the
-- system.
use lab.Prelude.{ℕ, ◌≡◌, ◌==◌, if◌then◌else◌, Option, none, some}

-- `none` is -1. `shmget` is called with the size 0 and 0666, `shmat` with no address, and `shmctl`
-- with `IPC_RMID`. `word` reads the `unsigned int` at an address.
pub record ShmKernel : Type 1 where
  pub State : Type 0
  pub shmget : ℕ → State → Option ℕ × State
  pub shmat : ℕ → State → Option ℕ × State
  pub shmctl_rmid : ℕ → State → Option (Unit {0}) × State
  pub shmdt : ℕ → State → Option (Unit {0}) × State
  pub word : State → ℕ → ℕ

-- The identifiers of the segments by their keys. The permissions suffice, so that a call fails only
-- where there is no segment, and a segment that was removed is not found by its key any more.
pub record HasSegments (k : ShmKernel) : Type 1 where
  pub keys : k.State → ℕ → Option ℕ
  pub IsAttached : k.State → ℕ → Type 0
  pub shmget_key :
      (key : ℕ) (s : k.State)
      → (s' : k.State) × (k.shmget key s ≡ (keys s key, s')) × ((j : ℕ) → keys s' j ≡ keys s j)
  pub shmat_id :
      (key id : ℕ) (s : k.State)
      → keys s key ≡ some id
      → (addr : ℕ) × (s' : k.State) × (k.shmat id s ≡ (some addr, s'))
        × ((j : ℕ) → keys s' j ≡ keys s j)
        × IsAttached s' addr
  pub rmid_id :
      (key id : ℕ) (s : k.State)
      → keys s key ≡ some id
      → (s' : k.State) × (k.shmctl_rmid id s ≡ (some tt, s'))
        × ((j : ℕ) → keys s' j ≡ (if j == key then none else keys s j))
        × ((addr : ℕ) → IsAttached s addr → IsAttached s' addr)
  pub shmdt_addr :
      (addr : ℕ) (s : k.State)
      → IsAttached s addr
      → (s' : k.State) × (k.shmdt addr s ≡ (some tt, s')) × ((j : ℕ) → keys s' j ≡ keys s j)
