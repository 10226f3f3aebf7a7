-- ===== src/MemDb/ShmControl/Deleting.antt =====
-- Which segments the tool deletes.
use lab.Prelude.{
  ℕ, zero, suc, ◌+◌, ◌-◌, ◌%◌, ◌^◌, ◌≤◌, ◌<◌, ◌≡◌, refl, ◌∙◌, ap, ◌==◌, ltb, leb, ◌&&◌,
  if◌then◌else◌, true, false, Option, none, some, arith, ◌⊎◌, inl, inr, Bool-cases,
}
use lab.MemDb.Outcome.{ok}
use lab.MemDb.BitMap.{u32_mod}
use lab.MemDb.Layouts.Header.{success, failure}
use lab.MemDb.ShmControl.{ShmControl, delete_by_seg, delete_loop, handle_delete, returned, finished}
use lab.MemDb.ShmControl.Kernel.{ShmKernel, HasSegments}

module _ (k : ShmKernel) (h : HasSegments k) where
  open k use {State, shmget, shmat, shmctl_rmid, shmdt}
  open h use {keys, shmget_key, shmat_id, rmid_id, shmdt_addr}

  delete_by_seg-removes :
      (key id : ℕ) (s : State)
      → keys s key ≡ some id
      → (s' : State) × (delete_by_seg k key s ≡ (some tt, s'))
        × ((j : ℕ) → keys s' j ≡ (if j == key then none else keys s j))
  unfolding delete_by_seg
  delete_by_seg-removes key id s e =
      let (s1, got, same1) = shmget_key key s in
      let (addr, s2, at, same2, on) = shmat_id key id s1 (same1 key ∙ e) in
      let (s3, removed, gone, still) = rmid_id key id s2 (same2 key ∙ (same1 key ∙ e)) in
      let (s4, off, same4) = shmdt_addr addr s3 (still addr on) in
      (s4, rw (got, e, at, removed, off) refl, λ j. same4 j ∙ rw (gone j, same2 j, same1 j) refl)

  delete_by_seg-missing :
      (key : ℕ) (s : State)
      → keys s key ≡ none
      → (s' : State) × (delete_by_seg k key s ≡ (none, s')) × ((j : ℕ) → keys s' j ≡ keys s j)
  unfolding delete_by_seg
  delete_by_seg-missing key s e =
      let (s1, got, same1) = shmget_key key s in (s1, rw (got, e) refl, same1)

  -- Rounds that find their segments.
  delete_loop-removes :
      (d fuel last i : ℕ) (s : State)
      → i + d ≤ last + 1
      → i + d < 2 ^ 16
      → ((j : ℕ) → i ≤ j → j < i + d → (id : ℕ) × (keys s j ≡ some id))
      → (s' : State) × (delete_loop k (d + fuel) last i s ≡ delete_loop k fuel last (i + d) s')
        × ((j : ℕ) → keys s' j ≡ (if leb i j && ltb j (i + d) then none else keys s j))
  unfolding delete_loop
  delete_loop-removes zero fuel last i s low small found =
      let a : 0 + fuel ≡ fuel = omega arith in
      let b : i + 0 ≡ i = omega arith in (s, rw (a, b) refl, λ j. ground arith)
  delete_loop-removes (suc d) fuel last i s low small found =
      let (id, here) = found i (omega arith) (omega arith) in
      let (s1, deleted, gone) = delete_by_seg-removes i id s here in
      let (s2, rest, gone') =
        delete_loop-removes d fuel last (i + 1) s1 (omega arith) (omega arith) (λ j a b.
          let (id', e) = found j (omega arith) (omega arith) in (id', ground (arith, gone j, e))) in
      let more : leb i last ≡ true = ground arith in
      let e : suc d + fuel ≡ suc (d + fuel) = omega arith in
      let e' : (i + 1) % 2 ^ 16 ≡ i + 1 = omega arith in
      let e'' : i + suc d ≡ i + 1 + d = omega arith in
      (s2, rw (e, delete_loop, more, deleted, e', e'') rest, λ j. ground (arith, gone' j, gone j))

  abbrev Removes : ℕ → State → State → Type 0
  Removes m s s' = (j : ℕ) → keys s' j ≡ (if leb 1 j && leb j m then none else keys s j)

  all_removed :
      (n : ℕ) (s : State)
      → n < 65534
      → ((j : ℕ) → 1 ≤ j → j ≤ n + 1 → (id : ℕ) × (keys s j ≡ some id))
      → (s' : State) × (delete_loop k (n + 2) (1 + n) 1 s ≡ some (some tt, s'))
        × Removes (n + 1) s s'
  unfolding delete_loop
  all_removed n s few found =
      let (s', loop, gone) =
        delete_loop-removes (n + 1) 1 (1 + n) 1 s (omega arith) (omega arith)
          (λ j a b. found j a (omega arith)) in
      let fuel : n + 2 ≡ n + 1 + 1 = omega arith in
      let done : leb (1 + (n + 1)) (1 + n) ≡ false = ground arith in
      (s', rw (fuel, loop, delete_loop, done) refl, λ j. ground (arith, gone j))

  stopped :
      (n m : ℕ) (s : State)
      → n < 65534
      → m < n + 1
      → ((j : ℕ) → 1 ≤ j → j ≤ m → (id : ℕ) × (keys s j ≡ some id))
      → keys s (m + 1) ≡ none
      → (s' : State) × (delete_loop k (n + 2) (1 + n) 1 s ≡ some (none, s')) × Removes m s s'
  unfolding delete_loop
  stopped n m s few low found missing =
      let (s1, loop, gone) =
        delete_loop-removes m (suc (n + 1 - m)) (1 + n) 1 s (omega arith) (omega arith)
          (λ j a b. found j a (omega arith)) in
      let (s2, ends, same) =
        delete_by_seg-missing (1 + m) s1 (ground (arith, gone (1 + m), missing)) in
      let fuel : n + 2 ≡ m + suc (n + 1 - m) = omega arith in
      let more : leb (1 + m) (1 + n) ≡ true = ground arith in
      (s2, rw (fuel, loop, delete_loop, more, ends) refl, λ j. ground (arith, gone j, same j))

  after_loop :
      (c : ShmControl State) (res : Option (Unit {0})) (s' : State)
      → c.s_num_of_seg < 65534
      → delete_loop k (c.s_num_of_seg + 2) (1 + c.s_num_of_seg) 1 c.system ≡ some (res, s')
      → handle_delete k c ≡ returned k c (res, s')
  unfolding handle_delete
  after_loop c res s' few loop =
      let wide : (1 + c.s_num_of_seg) % u32_mod ≡ 1 + c.s_num_of_seg = omega arith in
      ap (λ last. finished k c (delete_loop k (c.s_num_of_seg + 2) last 1 c.system)) wide
      ∙ ap (finished k c) loop

  -- `handle_delete` ends where the segments are less than 65534, and removes those with the keys from 1
  -- up to the first that is missing, or up to one more than the number of segments that the tool
  -- counted: it returns 0 only where none of these is missing, and leaves every other segment.
  pub handle_delete-removes :
      (c : ShmControl State) (m : ℕ)
      → c.s_num_of_seg < 65534
      → m ≤ c.s_num_of_seg + 1
      → ((j : ℕ) → 1 ≤ j → j ≤ m → (id : ℕ) × (keys c.system j ≡ some id))
      → (m ≡ c.s_num_of_seg + 1) ⊎ (keys c.system (m + 1) ≡ none)
      → (s' : State) × (handle_delete k c
          ≡ some
              (ok (if m == c.s_num_of_seg + 1 then success else failure, record c { system = s' })))
        × ((j : ℕ) → keys s' j ≡ (if leb 1 j && leb j m then none else keys c.system j))
  unfolding handle_delete
  handle_delete-removes c m few low found ends = elim (Bool-cases (m == c.s_num_of_seg + 1)) [
    | inl all ↦
        let e : m ≡ c.s_num_of_seg + 1 = ground arith in
        let (s', loop, gone) =
          all_removed c.s_num_of_seg c.system few (λ j a b. found j a (omega arith)) in
        (s', after_loop c (some tt) s' few loop ∙ rw all refl, λ j. rw e (gone j))
    | inr early ↦
        let missing : keys c.system (m + 1) ≡ none = elim ends [
          | inl e ↦ absurd (ground arith)
          | inr e ↦ e
        ] in
        let (s', loop, gone) = stopped c.s_num_of_seg m c.system few (ground arith) found missing in
        (s', after_loop c none s' few loop ∙ rw early refl, gone)
  ]
