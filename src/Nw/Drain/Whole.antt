-- ===== src/Nw/Drain/Whole.antt =====
-- A drain takes all that there is, up to the bytes that it is asked for, and writes all that it has.
use lab.Prelude.{
  subst, take-append, drop-append, take-append_left, drop-append_left, ℕ, zero, suc, ◌-◌, ◌≤◌, ◌≡◌,
  ◌≢◌, refl, sym, ap, ◌∙◌, [], ◌∷◌, ◌++◌, some, Bytes, length, take, drop, arith, append-nil,
  append_assoc, le→ltb, take-append-drop, length-drop, List-cases, inl, inr,
}
use lab.Prelude.Result.{Result, ok}
use lab.Nw.Kernel.{Kernel, IsReliable}
use lab.Nw.Drain.{Fault, drain_read, drain_write}

module _ (k : Kernel) (r : IsReliable k) where
  open k use {World, read, write}
  open r use {incoming, outgoing}

  -- These bytes were read, and nothing was written.
  abbrev pub Reads : ℕ → World → Bytes → Bytes → Result Fault (Bytes × World) → Type 0
  Reads fd w bytes rest m =
      (w' : World) × (m ≡ ok (bytes, w'))
      × (incoming w' fd ≡ rest)
      × ((other : ℕ) → outgoing w' other ≡ outgoing w other)

  pub drain_read-end :
      (fuel fd room left : ℕ) (w : World)
      → incoming w fd ≡ []
      → left ≤ fuel
      → Reads fd w [] [] (drain_read k fuel fd room left w)
  unfolding drain_read
  drain_read-end fuel fd room zero w e h = (w, refl, e, λ other. refl)
  drain_read-end zero fd room (suc left) w e h = absurd (omega arith)
  drain_read-end (suc fuel) fd room (suc left) w e h =
      let (w', got, still, same) = r.read_end w fd (suc left) e in (w', rw got, still, same)

  read_round :
      (fuel fd room left : ℕ) (w w' : World) (c : ℕ) (cs more rest : Bytes)
      → read w fd (suc left) ≡ (some (c ∷ cs), w')
      → length (c ∷ cs) ≤ room
      → ((other : ℕ) → outgoing w' other ≡ outgoing w other)
      → Reads fd w' more rest
          (drain_read k fuel fd (room - length (c ∷ cs)) (suc left - length (c ∷ cs)) w')
      → Reads fd w (c ∷ cs ++ more) rest (drain_read k (suc fuel) fd room (suc left) w)
  unfolding drain_read
  read_round fuel fd room left w w' c cs more rest got fits same (w'', next, left_over, same') =
      let inside = le→ltb room (length (c ∷ cs)) fits in
      (w'', rw (got, inside, next, drain_read), left_over, λ other. same' other ∙ same other)

  piece_Reads :
      (fuel fd room left : ℕ) (w w' : World) (bytes : Bytes)
      → read w fd (suc left) ≡ (some bytes, w')
      → 1 ≤ length bytes
      → length bytes ≤ suc left
      → length bytes ≤ room
      → bytes ++ incoming w' fd ≡ incoming w fd
      → ((other : ℕ) → outgoing w' other ≡ outgoing w other)
      → Reads fd w'
          (take (suc left - length bytes) (incoming w' fd))
          (drop (suc left - length bytes) (incoming w' fd))
          (drain_read k fuel fd (room - length bytes) (suc left - length bytes) w')
      → Reads fd w
          (take (suc left) (incoming w fd))
          (drop (suc left) (incoming w fd))
          (drain_read k (suc fuel) fd room (suc left) w)
  piece_Reads fuel fd room left w w' [] got least fits room_for came same next =
      absurd (omega arith)
  piece_Reads fuel fd room left w w' (c ∷ cs) got least fits room_for came same next =
      let taken = take-append (suc left) (c ∷ cs) (incoming w' fd) fits in
      let dropped = drop-append (suc left) (c ∷ cs) (incoming w' fd) fits in
      let whole =
        read_round fuel fd room left w w' c cs (take (suc left - length (c ∷ cs)) (incoming w' fd))
          (drop (suc left - length (c ∷ cs)) (incoming w' fd)) got room_for same next in
      subst
        (λ x.
          Reads fd w (take (suc left) x) (drop (suc left) x)
            (drain_read k (suc fuel) fd room (suc left) w))
        came (rw (taken, dropped) whole)

  -- As many bytes as are asked for are read, or all that there are, in whatever pieces they come,
  -- and those behind them are left.
  pub drain_read-Reads :
      (fuel fd room left : ℕ) (w : World)
      → left ≤ fuel
      → left ≤ room
      → Reads fd w
          (take left (incoming w fd))
          (drop left (incoming w fd))
          (drain_read k fuel fd room left w)
  unfolding drain_read
  drain_read-Reads fuel fd room zero w f c = (w, refl, refl, λ other. refl)
  drain_read-Reads zero fd room (suc left) w f c = absurd (omega arith)
  drain_read-Reads (suc fuel) fd room (suc left) w f c = elim (List-cases (incoming w fd)) [
    | inl e ↦
        subst
          (λ x.
            Reads fd w (take (suc left) x) (drop (suc left) x)
              (drain_read k (suc fuel) fd room (suc left) w))
          (sym e) (drain_read-end (suc fuel) fd room (suc left) w e f)
    | inr (b, others, e) ↦
        let there : incoming w fd ≢ [] = λ z. cc (e, z) in
        let (bytes, w', got, least, fits, came, same) =
          r.read_some w fd (suc left) (omega arith) there in
        piece_Reads fuel fd room left w w' bytes got least fits (omega arith) came same (
          drain_read-Reads fuel fd (room - length bytes) (suc left - length bytes) w' (omega arith)
            (omega arith))
  ]

  pub drain_read-prefix :
      (fuel fd room : ℕ) (w : World) (body rest : Bytes)
      → length body ≤ fuel
      → length body ≤ room
      → incoming w fd ≡ body ++ rest
      → Reads fd w body rest (drain_read k fuel fd room (length body) w)
  drain_read-prefix fuel fd room w body rest f c e =
      let (w', got, left_over, same) = drain_read-Reads fuel fd room (length body) w f c in
      (
        w',
        got ∙ ap (λ x. ok (x, w')) (ap (λ x. take (length body) x) e ∙ take-append_left body rest),
        left_over ∙ (ap (λ x. drop (length body) x) e ∙ drop-append_left body rest),
        same,
      )

  -- These bytes were written, and nothing was read.
  abbrev pub Writes : ℕ → World → Bytes → Result Fault World → Type 0
  Writes fd w bytes m =
      (w' : World) × (m ≡ ok w')
      × (outgoing w' fd ≡ outgoing w fd ++ bytes)
      × ((other : ℕ) → incoming w' other ≡ incoming w other)

  write_round :
      (fuel fd c n : ℕ) (w w' : World) (bytes : Bytes)
      → write w fd (c ∷ bytes) ≡ (some n, w')
      → 1 ≤ n
      → outgoing w' fd ≡ outgoing w fd ++ take n (c ∷ bytes)
      → ((other : ℕ) → incoming w' other ≡ incoming w other)
      → Writes fd w' (drop n (c ∷ bytes)) (drain_write k fuel fd (drop n (c ∷ bytes)) w')
      → Writes fd w (c ∷ bytes) (drain_write k (suc fuel) fd (c ∷ bytes) w)
  unfolding drain_write
  write_round fuel fd c zero w w' bytes got least out same next = absurd (omega arith)
  write_round fuel fd c (suc n) w w' bytes got least out same (w'', next, out', same') = (
    w'',
    rw (got, next, drain_write),
    out'
        ∙ (ap (λ x. x ++ drop n bytes) out
            ∙ (append_assoc (outgoing w fd) (c ∷ take n bytes) (drop n bytes)
                ∙ ap (λ x. outgoing w fd ++ c ∷ x) (take-append-drop n bytes))),
    λ other. same' other ∙ same other,
  )

  -- All bytes are written, in whatever pieces they are taken.
  pub drain_write-Writes :
      (fuel fd : ℕ) (bytes : Bytes) (w : World)
      → length bytes ≤ fuel
      → Writes fd w bytes (drain_write k fuel fd bytes w)
  unfolding drain_write
  drain_write-Writes fuel fd [] w h = (w, refl, sym (append-nil (outgoing w fd)), λ other. refl)
  drain_write-Writes zero fd (c ∷ bytes) w h = absurd (omega arith)
  drain_write-Writes (suc fuel) fd (c ∷ bytes) w h =
      let (n, w', got, least, fits, out, same) = r.write_some w fd (c ∷ bytes) (λ e. cc e) in
      write_round fuel fd c n w w' bytes got least out same (
        drain_write-Writes fuel fd (drop n (c ∷ bytes)) w'
          (omega (arith, length-drop n (c ∷ bytes))))
