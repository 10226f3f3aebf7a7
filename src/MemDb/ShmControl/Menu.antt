-- ===== src/MemDb/ShmControl/Menu.antt =====
-- The menu at the end of its input.
use lab.Prelude.{
  ℕ, zero, suc, ◌%◌, ◌^◌, ◌≤◌, ◌≡◌, refl, ◌==◌, false, List, [], ◌∷◌, Option, none, some, map, All,
  arith,
}
use lab.MemDb.Outcome.{ok}
use lab.MemDb.Layouts.Header.{Status}
use lab.MemDb.ShmControl.{
  ShmControl, handle_opt, get_num_of_seg, counted, attach, menu_loop, run_user_loop, whatever,
}
use lab.MemDb.ShmControl.Kernel.{ShmKernel}

-- A number that the menu does not offer.
abbrev pub BadOption : ℕ → Type 0
BadOption n = 5 ≤ n % 2 ^ 16

module _ (k : ShmKernel) where
  open k use {State}

  bad_option :
      (opt : ℕ) (c : ShmControl State)
      → 5 ≤ opt
      → handle_opt k opt c ≡ some (ok (Status.success, c))
  unfolding handle_opt
  bad_option opt c h =
      let a : (opt == 1) ≡ false = ground arith in
      let b : (opt == 2) ≡ false = ground arith in
      let d : (opt == 3) ≡ false = ground arith in
      let e : (opt == 4) ≡ false = ground arith in rw (a, b, d, e) refl

  abbrev with_input : State → ℕ → List ℕ → ShmControl State
  with_input s n opts = record { system = s; s_num_of_seg = n; input = map some opts }

  menu_loop-bad :
      (fuel opt : ℕ) (s : State) (n : ℕ) (opts : List ℕ)
      → 5 ≤ opt
      → All BadOption opts
      → menu_loop k fuel opt (with_input s n opts) ≡ none
  unfolding menu_loop
  menu_loop-bad zero opt s n opts h bad = refl
  menu_loop-bad (suc fuel) opt s n [] h bad =
      let e : (opt == 0) ≡ false = ground arith in
      rw (menu_loop, e, bad_option opt (with_input s n []) h) (menu_loop-bad fuel opt s n [] h tt)
  menu_loop-bad (suc fuel) opt s n (o ∷ opts) h (b, bad) =
      let e : (o % 2 ^ 16 == 0) ≡ false = ground arith in
      rw (menu_loop, e, bad_option (o % 2 ^ 16) (with_input s n opts) b)
        (menu_loop-bad fuel (o % 2 ^ 16) s n opts b bad)

  from_the_start :
      (fuel : ℕ) (s : State) (n o : ℕ) (opts : List ℕ)
      → All BadOption (o ∷ opts)
      → menu_loop k fuel 0 (with_input s n (o ∷ opts)) ≡ none
  unfolding menu_loop
  from_the_start zero s n o opts bad = refl
  from_the_start (suc fuel) s n o opts (b, bad) =
      let e : (o % 2 ^ 16 == 0) ≡ false = ground arith in
      rw (menu_loop, e, bad_option (o % 2 ^ 16) (with_input s n opts) b)
        (menu_loop-bad fuel (o % 2 ^ 16) s n opts b bad)

  after_count :
      (fuel : ℕ) (s : State) (n o : ℕ) (opts : List ℕ) (got : Option ℕ × State)
      → All BadOption (o ∷ opts)
      → whatever k (counted k (with_input s n (o ∷ opts)) got) (menu_loop k fuel 0) ≡ none
  after_count fuel s n o opts (none, s') bad = from_the_start fuel s' n o opts bad
  after_count fuel s n o opts (some pshm, s') bad =
      from_the_start fuel s' (k.word s' pshm) o opts bad

  -- Where the input is numbers that the menu does not offer, and at least one, and then ends, the loop
  -- goes on for ever: no number of rounds is enough.
  pub run_user_loop_for_ever :
      (fuel : ℕ) (s : State) (n o : ℕ) (opts : List ℕ)
      → All BadOption (o ∷ opts)
      → run_user_loop k fuel (record { system = s; s_num_of_seg = n; input = map some (o ∷ opts) })
        ≡ none
  unfolding run_user_loop get_num_of_seg
  run_user_loop_for_ever fuel s n o opts bad = after_count fuel s n o opts (attach k 1 s) bad
