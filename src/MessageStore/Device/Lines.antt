-- ===== src/MessageStore/Device/Lines.antt =====
-- What one line of console input is to the loop of `readData` and to `ignore`.
use lab.Prelude.{
  ℕ, zero, suc, ◌<◌, ◌≤◌, ◌≡◌, refl, ◌==◌, false, [], ◌∷◌, ◌++◌, Bytes, Without, length, take, drop,
  arith,
}
use lab.MessageStore.Device.StdStream.{newline, from_bytes, read_loop, ignore}

-- The loop that meets the end of the line before `n` bytes takes the line and its newline.
pub read_loop_line :
    (n ch : ℕ) (line rest : Bytes)
    → (ch == newline) ≡ false
    → Without newline line
    → length line < n
    → read_loop n ch (from_bytes (line ++ newline ∷ rest)) ≡ (line ++ newline ∷ [], from_bytes rest)
unfolding read_loop
read_loop_line zero ch line rest h w short = absurd (omega arith)
read_loop_line (suc zero) ch [] rest h w short = ground arith
read_loop_line (suc (suc n)) ch [] rest h w short = ground arith
read_loop_line (suc n) ch (c ∷ line) rest h w short =
    ground (arith, read_loop_line n c line rest w.0 w.1)

-- The loop that reads `n` bytes of a longer line leaves the rest of the line.
pub read_loop_part :
    (n ch : ℕ) (line rest : Bytes)
    → (ch == newline) ≡ false
    → Without newline line
    → n ≤ length line
    → read_loop n ch (from_bytes (line ++ rest)) ≡ (take n line, from_bytes (drop n line ++ rest))
unfolding read_loop
read_loop_part zero ch line rest h w long = refl
read_loop_part (suc n) ch [] rest h w long = absurd (omega arith)
read_loop_part (suc n) ch (c ∷ line) rest h w long =
    ground (arith, read_loop_part n c line rest w.0 w.1)

-- `ignore` drops what is left of the line, and its newline.
pub ignore_line :
    (line rest : Bytes)
    → Without newline line
    → ignore (from_bytes (line ++ newline ∷ rest)) newline ≡ from_bytes rest
ignore_line [] rest w = refl
ignore_line (c ∷ line) rest w = ground (arith, ignore_line line rest w.1)
