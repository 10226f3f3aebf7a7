-- ===== src/MemDb/ShmControl.antt =====
-- mem_db/utils/src/shm_control.cpp: the tool that shows and deletes the segments of shared memory. A
-- system call that fails ends a function with -1.
pub mod Kernel
pub mod Deleting
pub mod Menu
mod Tests
use lab.Prelude.{
  ℕ, zero, suc, ◌+◌, ◌%◌, ◌^◌, ◌==◌, ltb, leb, if◌then◌else◌, Bool, true, false, List, [], ◌∷◌,
  Option, none, some,
}
use lab.MemDb.BitMap.{u32_mod}
use lab.MemDb.Outcome.{Outcome, ok, raised, undefined}
use lab.MemDb.Layouts.Header.{Status, success, failure}
use lab.MemDb.ShmControl.Kernel.{ShmKernel}

-- What a call of `scanf` for a number meets: a number, something else, which stays where it is, or
-- the end of the input.
pub data Scanned : Type 0 where
  number : ℕ → Scanned
  mismatch : Scanned
  end_of_input : Scanned

-- The input is what is left of it, with `none` for text that is not a number.
pub record ShmControl (State : Type 0) : Type 0 where
  pub system : State
  pub s_num_of_seg : ℕ
  pub input : List (Option ℕ)

-- How a call ends: `none` where it is still running when the fuel is spent.
abbrev pub Run : Type 0 → Type 0
Run State = Option (Outcome (Status × ShmControl State))

abbrev pub scan_from :
    {State : Type 0} → List (Option ℕ) → ShmControl State → Scanned × ShmControl State
scan_from [] c = (end_of_input, c)
scan_from (none ∷ rest) c = (mismatch, c)
scan_from (some n ∷ rest) c = (number n, record c { input = rest })

abbrev pub scan : {State : Type 0} → ShmControl State → Scanned × ShmControl State
scan c = scan_from c.input c

-- System calls in a row, up to the first that fails.
abbrev pub Calls : Type 0 → Type 0 → Type 0
Calls State A = State → Option A × State

abbrev pub call_then :
    {State A B : Type 0} → Option A × State → (A → Calls State B) → Option B × State
call_then (none, s) f = (none, s)
call_then (some a, s) f = f a s

infixl 5 ◌>>=◌ ◌>>◌
abbrev pub ◌>>=◌ : {State A B : Type 0} → Calls State A → (A → Calls State B) → Calls State B
◌>>=◌ m f s = call_then (m s) f

abbrev pub ◌>>◌ : {State A B : Type 0} → Calls State A → Calls State B → Calls State B
m >> n = m >>= λ _. n

module _ (k : ShmKernel) where
  open k use {State, shmget, shmat, shmctl_rmid, shmdt, word}

  unfoldable pub delete_by_seg : ℕ → Calls State (Unit {0})
  delete_by_seg i_opt = do id ← shmget i_opt; pshm ← shmat id; shmctl_rmid id; shmdt pshm

  -- A call that returns 0, and leaves the rest of the tool as it is.
  abbrev pub returned : ShmControl State → Option (Unit {0}) × State → Run State
  returned c (none, s) = some (ok (failure, record c { system = s }))
  returned c (some u, s) = some (ok (success, record c { system = s }))

  -- A round that fails is the last.
  abbrev pub unless_failed :
      Option (Unit {0}) × State
      → (State → Option (Option (Unit {0}) × State))
      → Option (Option (Unit {0}) × State)
  unless_failed (none, s) next = some (none, s)
  unless_failed (some u, s) next = next s

  -- The loop of `handle_delete`. `i` is an `unsigned short`, and the outer `none` means that the fuel
  -- ran out.
  unfoldable pub delete_loop : ℕ → ℕ → ℕ → State → Option (Option (Unit {0}) × State)
  delete_loop zero last i s = none
  delete_loop (suc fuel) last i s =
      if leb i last
      then unless_failed (delete_by_seg i s) (delete_loop fuel last ((i + 1) % 2 ^ 16))
      else some (some tt, s)

  abbrev pub finished : ShmControl State → Option (Option (Unit {0}) × State) → Run State
  finished c none = none
  finished c (some r) = returned c r

  unfoldable pub handle_delete : ShmControl State → Run State
  handle_delete c =
      finished c (delete_loop (c.s_num_of_seg + 2) ((1 + c.s_num_of_seg) % u32_mod) 1 c.system)

  abbrev pub attach : ℕ → Calls State ℕ
  attach key = do id ← shmget key; shmat id

  abbrev pub counted : ShmControl State → Option ℕ × State → Run State
  counted c (none, s) = some (ok (failure, record c { system = s }))
  counted c (some pshm, s) =
      some (ok (success, record c { system = s; s_num_of_seg = word s pshm }))

  unfoldable pub get_num_of_seg : ShmControl State → Run State
  get_num_of_seg c = counted c (attach 1 c.system)

  -- The sizes are read in front of the segment.
  abbrev pub shown : ShmControl State → Option ℕ × State → Run State
  shown c (none, s) = some (ok (failure, record c { system = s }))
  shown c (some pshm, s) = some (raised undefined)

  -- The first round of the loop is the last.
  unfoldable pub handle_disply : ShmControl State → Run State
  handle_disply c =
      if ltb 2 ((2 + c.s_num_of_seg) % u32_mod)
      then shown c (attach 2 c.system)
      else some (ok (success, c))

  -- A segment by its number. At the end of the input the number is not set.
  abbrev pub delete_scanned : Scanned × ShmControl State → Run State
  delete_scanned (number n, c) = returned c (delete_by_seg (n % u32_mod) c.system)
  delete_scanned (mismatch, c) = some (ok (success, c))
  delete_scanned (end_of_input, c) = some (raised undefined)

  unfoldable pub handle_opt : ℕ → ShmControl State → Run State
  handle_opt i_opt c =
      if i_opt == 1
      then handle_disply c
      else if i_opt == 2
      then handle_delete c
      else if i_opt == 3
      then delete_scanned (scan c)
      else if i_opt == 4
      then get_num_of_seg c
      else some (ok (success, c))

  -- What the condition of the loop makes of `scanf`: the option, or the end of the loop. At the end of
  -- the input `scanf` returns -1, and the option is that of the round before.
  abbrev pub next_opt : ℕ → Scanned → Option ℕ
  next_opt opt (number n) = if n % 2 ^ 16 == 0 then none else some (n % 2 ^ 16)
  next_opt opt mismatch = none
  next_opt opt end_of_input = if opt == 0 then none else some opt

  -- The loop goes on unless the handler returned -1.
  abbrev pub unless_minus_1 :
      Run State
      → (ShmControl State → Option (Outcome (ShmControl State)))
      → Option (Outcome (ShmControl State))
  unless_minus_1 none next = none
  unless_minus_1 (some (raised e)) next = some (raised e)
  unless_minus_1 (some (ok (failure, c))) next = some (ok c)
  unless_minus_1 (some (ok (success, c))) next = next c

  abbrev pub chosen :
      Option ℕ
      → ShmControl State
      → (ℕ → ShmControl State → Option (Outcome (ShmControl State)))
      → Option (Outcome (ShmControl State))
  chosen none c handle = some (ok c)
  chosen (some opt) c handle = handle opt c

  -- The loop of `run_user_loop`.
  unfoldable pub menu_loop : ℕ → ℕ → ShmControl State → Option (Outcome (ShmControl State))
  menu_loop zero opt c = none
  menu_loop (suc fuel) opt c =
      chosen (next_opt opt (scan c).0) (scan c).1
        λ opt' c'. unless_minus_1 (handle_opt opt' c') (menu_loop fuel opt')

  abbrev pub whatever :
      Run State
      → (ShmControl State → Option (Outcome (ShmControl State)))
      → Option (Outcome (ShmControl State))
  whatever none next = none
  whatever (some (raised e)) next = some (raised e)
  whatever (some (ok (r, c))) next = next c

  -- The first call counts the segments, and its result is not looked at.
  unfoldable pub run_user_loop : ℕ → ShmControl State → Option (Outcome (ShmControl State))
  run_user_loop fuel c = whatever (get_num_of_seg c) (menu_loop fuel 0)
