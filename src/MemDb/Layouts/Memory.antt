-- ===== src/MemDb/Layouts/Memory.antt =====
-- `memcpy` and `memcmp` on arrays of bytes, undefined where they leave an array.
pub mod Splice
use lab.Prelude.{
  ℕ, zero, suc, ◌+◌, ◌/◌, ◌%◌, ◌==◌, ==_refl, ◌≡◌, refl, leb, if◌then◌else◌, Bool, true, false,
  ◌&&◌, [], ◌∷◌, ◌++◌, Bytes, length, take, drop,
}
use lab.MemDb.Outcome.{Outcome, ok, raised, undefined, ◌>>=◌}

-- The `n` bytes from the offset `off`.
unfoldable pub read : Bytes → ℕ → ℕ → Outcome Bytes
read mem off n = if leb (off + n) (length mem) then ok (take n (drop off mem)) else raised undefined

-- `memcpy(mem + off, bytes, ...)` of all the bytes.
unfoldable pub write : Bytes → ℕ → Bytes → Outcome Bytes
write mem off bytes =
    if leb (off + length bytes) (length mem)
    then ok (take off mem ++ (bytes ++ drop (off + length bytes) mem))
    else raised undefined

-- `0 == memcmp(a, b, n)` of the whole of two arrays of one length.
abbrev pub bytes_eq : Bytes → Bytes → Bool
bytes_eq [] [] = true
bytes_eq [] (d ∷ ds) = false
bytes_eq (c ∷ cs) [] = false
bytes_eq (c ∷ cs) (d ∷ ds) = (c == d) && bytes_eq cs ds

pub bytes_eq_refl : (bytes : Bytes) → bytes_eq bytes bytes ≡ true
bytes_eq_refl [] = refl
bytes_eq_refl (c ∷ bytes) = rw (==_refl c, bytes_eq_refl bytes) refl
