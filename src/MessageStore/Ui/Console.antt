-- ===== src/MessageStore/Ui/Console.antt =====
-- The task at a console whose streams are good: what it reads from the lines that are typed, and
-- what it answers.
use lab.Prelude.{
  ℕ, zero, suc, ◌-◌, ◌≤◌, ◌≡◌, refl, ◌==◌, Bool, true, false, [], ◌∷◌, ◌++◌, Bytes, Without, length,
  take, drop, arith, length-append, get_elem?-append_end, take-append_left, take_all,
}
use native.Mathlib.Decide.{dec_lt}
use lab.MessageStore.Outcome.{ok, at}
use lab.MessageStore.Device.StdStream
use lab.MessageStore.Device.StdStream.{StdStreamIoDevice, newline, from_bytes, chunk, read_loop}
use lab.MessageStore.Device.Lines.{read_loop_line, read_loop_part, ignore_line}
use lab.MessageStore.Device.{IoDevice, std_stream, read_data, write_data, ignore_till_char}
use lab.MessageStore.Users.{UserManager}
use lab.MessageStore.Ui.{ClientUiTask, display, say, read_line_from_stream, finish_line}
use lab.MessageStore.Ui.Prompts.{Prompt, text}

abbrev pub terminal : Bytes → Bytes → IoDevice
terminal input written = std_stream (record {
  in_stream = from_bytes input;
  out_stream = record { written = written; good = true };
})

-- The task with `input` still to be read and `written` on the screen.
abbrev pub console : Bytes → Bytes → UserManager → Bool → ClientUiTask
console input written m running = record {
  io_device = terminal input written;
  user_manager = m;
  keep_running = running;
}

-- The screen after one more line.
abbrev pub printed : Bytes → Bytes → Bytes
printed written line = written ++ line ++ newline ∷ []

abbrev pub shown : Bytes → Prompt → Bytes
shown written p = printed written (text p)

module _ (m : UserManager) (running : Bool) where
  pub display-console :
      (line input written : Bytes)
      → display line (console input written m running)
        ≡ ok (tt, console input (printed written line) m running)
  unfolding display write_data StdStream.write_data
  display-console line input written = refl

  pub say-console :
      (p : Prompt) (input written : Bytes)
      → say p (console input written m running) ≡ ok (tt, console input (shown written p) m running)
  unfolding say
  say-console p input written = display-console (text p) input written

last_at : (line : Bytes) (c : ℕ) → at (line ++ c ∷ []) (length (line ++ c ∷ []) - 1) ≡ ok c
last_at line c =
    let e : length (line ++ c ∷ []) - 1 ≡ length line =
      omega (arith, length-append line (c ∷ [])) in
    rw (e, at, get_elem?-append_end line c [])

-- A chunk that ends in the newline loses it.
finish_line-newline :
    (line : Bytes) (d : IoDevice) → finish_line (line ++ newline ∷ []) d ≡ ok (line, d)
unfolding finish_line
finish_line-newline line d =
    let e : length (line ++ newline ∷ []) - 1 ≡ length line =
      omega (arith, length-append line (newline ∷ [])) in
    rw (last_at line newline, e, take-append_left line (newline ∷ []))

-- A chunk without one is kept, and the rest of its line is dropped.
last-Without :
    (c : ℕ) (cs : Bytes)
    → Without newline (c ∷ cs)
    → (b : ℕ) × (at (c ∷ cs) (length cs) ≡ ok b) × ((b == newline) ≡ false)
last-Without c [] w = (c, refl, w.0)
last-Without c (d ∷ cs) w = last-Without d cs w.1

finish_line-part :
    (c : ℕ) (cs : Bytes) (d : IoDevice)
    → Without newline (c ∷ cs)
    → finish_line (c ∷ cs) d ≡ ok (c ∷ cs, ignore_till_char d newline)
unfolding finish_line
finish_line-part c cs d w =
    let (b, e, n) = last-Without c cs w in
    let l : length (c ∷ cs) - 1 ≡ length cs = omega arith in rw (l, e, n)

Without-take : (n : ℕ) (line : Bytes) → Without newline line → Without newline (take n line)
Without-take zero line w = tt
Without-take (suc n) [] w = tt
Without-take (suc n) (c ∷ line) w = (w.0, Without-take n line w.1)

Without-drop : (n : ℕ) (line : Bytes) → Without newline line → Without newline (drop n line)
Without-drop zero line w = w
Without-drop (suc n) [] w = tt
Without-drop (suc n) (c ∷ line) w = Without-drop n line w.1

ignore-terminal :
    (line rest written : Bytes)
    → Without newline line
    → ignore_till_char (terminal (line ++ newline ∷ rest) written) newline ≡ terminal rest written
unfolding ignore_till_char StdStream.ignore_till_char
ignore-terminal line rest written w = rw (ignore_line line rest w)

finish_line-take :
    (n : ℕ) (line rest written : Bytes)
    → Without newline line
    → suc n ≤ length line
    → finish_line (take (suc n) line) (terminal (drop (suc n) line ++ newline ∷ rest) written)
      ≡ ok (take (suc n) line, terminal rest written)
finish_line-take n [] rest written w h = absurd (omega arith)
finish_line-take n (c ∷ cs) rest written w h =
    rw
      (finish_line-part c (take n cs) (terminal (drop n cs ++ newline ∷ rest) written)
        (w.0, Without-take n cs w.1))
      (rw (ignore-terminal (drop n cs) rest written (Without-drop n cs w.1)))

module _ (m : UserManager) (running : Bool) where
  -- `readLineFromStream` returns the first bytes of the line that is typed, as many as it asks for,
  -- and takes the whole line with its newline from the input, whatever the line's length.
  pub read_line-console :
      (n : ℕ) (line rest written : Bytes)
      → Without newline line
      → read_line_from_stream (suc n) (console (line ++ newline ∷ rest) written m running)
        ≡ ok (take (suc n) line, console rest written m running)
  unfolding read_line_from_stream read_data StdStream.read_data
  read_line-console n line rest written w = elim (dec_lt (length line) (suc n)) [
    | yes short ↦ rw (
      read_loop_line (suc n) 0 line rest refl w short,
      finish_line-newline line (terminal rest written),
      take_all (suc n) line (omega arith),
    )
    | no long ↦ rw (
      read_loop_part (suc n) 0 line (newline ∷ rest) refl w (omega arith),
      finish_line-take n line rest written w (omega arith),
    )
  ]
