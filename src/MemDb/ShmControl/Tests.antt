-- ===== src/MemDb/ShmControl/Tests.antt =====
-- A system whose identifiers are the keys, and the theorems at three segments and a gap.
use lab.Prelude.{
  ℕ, ◌≤◌, ◌≡◌, refl, ◌==◌, leb, ◌&&◌, ◌||◌, if◌then◌else◌, Bool, true, false, [], ◌∷◌, Option, none,
  some, map, arith, inr,
}
use lab.MemDb.Outcome.{ok}
use lab.MemDb.Layouts.Header.{failure}
use lab.MemDb.ShmControl.{ShmControl, handle_delete, run_user_loop}
use lab.MemDb.ShmControl.Kernel.{ShmKernel, HasSegments}
use lab.MemDb.ShmControl.Deleting.{handle_delete-removes}
use lab.MemDb.ShmControl.Menu.{run_user_loop_for_ever}

abbrev key_of : (ℕ → Bool) → ℕ → Option ℕ
key_of s key = if s key then some key else none

abbrev system : ShmKernel
system = record {
  State = ℕ → Bool;
  shmget = λ key s. (key_of s key, s);
  shmat = λ id s. (some id, s);
  shmctl_rmid = λ id s. (some tt, λ j. if j == id then false else s j);
  shmdt = λ addr s. (some tt, s);
  word = λ s addr. 2;
}

key_of-eq : (b : Bool) (key id : ℕ) → (if b then some key else none) ≡ some id → key ≡ id
key_of-eq true key id e = cc
key_of-eq false key id e = cc

key_of-removed :
    (s : ℕ → Bool) (key id j : ℕ)
    → key_of s key ≡ some id
    → key_of (λ i. if i == id then false else s i) j ≡ (if j == key then none else key_of s j)
key_of-removed s key id j e = ground (arith, key_of-eq (s key) key id e)

abbrev with_segments : HasSegments system
with_segments = record {
  keys = key_of;
  IsAttached = λ s addr. Unit;
  shmget_key = λ key s. (s, refl, λ j. refl);
  shmat_id = λ key id s e. (id, s, refl, λ j. refl, tt);
  rmid_id = λ key id s e.
      (λ i. if i == id then false else s i, refl, λ j. key_of-removed s key id j e, λ addr h. h);
  shmdt_addr = λ addr s h. (s, refl, λ j. refl);
}

-- The keys 1, 2 and 4.
abbrev three : ℕ → Bool
three key = (key == 1) || ((key == 2) || (key == 4))

abbrev tool : ShmControl (ℕ → Bool)
tool = record { system = three; s_num_of_seg = 4; input = [] }

handle_delete-removes_example :
    (s' : ℕ → Bool) × (handle_delete system tool ≡ some (ok (failure, record tool { system = s' })))
    × ((j : ℕ) → key_of s' j ≡ (if leb 1 j && leb j 2 then none else key_of three j))
handle_delete-removes_example =
    handle_delete-removes system with_segments tool 2 (omega arith) (omega arith) there (inr refl)
  where
    there : (j : ℕ) → 1 ≤ j → j ≤ 2 → (id : ℕ) × (key_of three j ≡ some id)
    there j a b = (j, ground arith)

run_user_loop_for_ever_example :
    run_user_loop system 1000
      (record { system = three; s_num_of_seg = 0; input = map some (7 ∷ []) })
    ≡ none
run_user_loop_for_ever_example = run_user_loop_for_ever system 1000 three 0 7 [] (omega arith, tt)
