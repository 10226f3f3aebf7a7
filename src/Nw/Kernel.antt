-- ===== src/Nw/Kernel.antt =====
-- The system calls that common/nw makes, on the state `World` of the system.
use lab.Prelude.{ℕ, ◌≤◌, ◌≡◌, ◌≢◌, Bool, List, [], ◌++◌, Option, some, Bytes, length, take}

-- `epoll_wait`: -1 with `EINTR`, -1 with another error, or the events, each a descriptor and
-- whether it has `EPOLLIN`.
pub data Wait : Type 0 where
  interrupted failed : Wait
  ready : List (ℕ × Bool) → Wait

-- `none` is -1. `read` gives the bytes that came, none at the end of the stream, and `write` how
-- many bytes were taken.
pub record Kernel : Type 1 where
  pub World : Type 0
  pub read : World → ℕ → ℕ → Option Bytes × World
  pub write : World → ℕ → Bytes → Option ℕ × World
  pub epoll_wait : World → Wait × World
  pub epoll_add : World → ℕ → Bool × World
  pub accept : World → ℕ → Option ℕ × World

-- Reads and writes do not fail: a descriptor has bytes to be read, which come in pieces of any size,
-- and what is written, in pieces of any size, is appended to what was.
pub record IsReliable (k : Kernel) : Type 0 where
  pub incoming : k.World → ℕ → Bytes
  pub outgoing : k.World → ℕ → Bytes
  pub read_some :
      (w : k.World) (fd n : ℕ)
      → 1 ≤ n
      → incoming w fd ≢ []
      → (bytes : Bytes) × (w' : k.World) × (k.read w fd n ≡ (some bytes, w'))
        × (1 ≤ length bytes)
        × (length bytes ≤ n)
        × (bytes ++ incoming w' fd ≡ incoming w fd)
        × ((other : ℕ) → outgoing w' other ≡ outgoing w other)
  pub read_end :
      (w : k.World) (fd n : ℕ)
      → incoming w fd ≡ []
      → (w' : k.World) × (k.read w fd n ≡ (some [], w'))
        × (incoming w' fd ≡ [])
        × ((other : ℕ) → outgoing w' other ≡ outgoing w other)
  pub write_some :
      (w : k.World) (fd : ℕ) (bytes : Bytes)
      → bytes ≢ []
      → (n : ℕ) × (w' : k.World) × (k.write w fd bytes ≡ (some n, w'))
        × (1 ≤ n)
        × (n ≤ length bytes)
        × (outgoing w' fd ≡ outgoing w fd ++ take n bytes)
        × ((other : ℕ) → incoming w' other ≡ incoming w other)
