-- ===== src/PhoneOfficer/Agent.antt =====
-- phone-officer/agent/src/agent_interception_points.c: the `open` that stands in front of the one of
-- the C library in a process that preloads the agent.
pub mod Redirect
use lab.Prelude.{
  ℕ, zero, suc, ◌==◌, ltb, if◌then◌else◌, [], ◌∷◌, ◌++◌, Option, none, some, Bytes, codes,
}
use lab.Prelude.Result.{Result, ok, raised, ◌>>=◌}
use lab.PhoneOfficer.Preload.{
  Fault, out_of_range, Ret, success, failure, Linker, next, find_sym_by_name, get_string_length,
}

-- `MAX_PATH_SZ`
abbrev pub max_path_sz : ℕ
max_path_sz = 1024

-- ".preload" without its null byte, and "open" with it.
abbrev pub suffix : Bytes
suffix = codes ".preload"

abbrev pub open_name : Bytes
open_name = codes "open" ++ 0 ∷ []

-- A call of the function that was found: through which pointer, with what bytes from the name's
-- pointer on, and with which flags.
pub record Call (Sym : Type 0) : Type 0 where
  pub through : Sym
  pub name : Bytes
  pub flags : ℕ

-- `strcpy` of the bytes from a pointer on to a buffer: the buffer after it.
unfoldable pub strcpy : Bytes → Bytes → Result Fault Bytes
strcpy buffer [] = raised out_of_range
strcpy [] (c ∷ src) = raised out_of_range
strcpy (d ∷ buffer) (c ∷ src) =
    if c == 0 then ok (0 ∷ buffer) else (do rest ← strcpy buffer src; ok (c ∷ rest))

-- `strcat`: the copy starts at the first null byte.
unfoldable pub strcat : Bytes → Bytes → Result Fault Bytes
strcat [] src = raised out_of_range
strcat (d ∷ buffer) src =
    if d == 0 then strcpy (d ∷ buffer) src else (do rest ← strcat buffer src; ok (d ∷ rest))

-- `strcat(buffer + n, src)`
unfoldable pub strcat_at : ℕ → Bytes → Bytes → Result Fault Bytes
strcat_at zero buffer src = strcat buffer src
strcat_at (suc n) [] src = raised out_of_range
strcat_at (suc n) (d ∷ buffer) src = do rest ← strcat_at n buffer src; ok (d ∷ rest)

-- The swap of the name, in a buffer with any contents. `strlen` is what `get_string_length` computes.
unfoldable pub swap_name : Bytes → Bytes → Result Fault Bytes
swap_name buffer pathname = do
  copied ← strcpy buffer pathname
  len ← get_string_length pathname
  strcat_at len copied (suffix ++ 0 ∷ [])

module _ {Handle Sym : Type 0} (l : Linker Handle Sym) where
  -- What follows the look-up: 0 is returned, whatever the call returns.
  abbrev pub hijack : Bytes → Bytes → ℕ → Option Sym → Result Fault (Ret × Option (Call Sym))
  hijack buffer pathname flags none = ok (failure, none)
  hijack buffer pathname flags (some popen) = do
    name ← swap_name buffer pathname
    ok (success, some (record { through = popen; name = name; flags = flags }))

  -- `open`, with the call that it makes. The first argument is what the buffer on the stack holds,
  -- and a null pointer is `none`. The third argument of the look-up is not read.
  unfoldable pub open_file : Bytes → Option Bytes → ℕ → Result Fault (Ret × Option (Call Sym))
  open_file buffer none flags = ok (failure, none)
  open_file buffer (some pathname) flags = do
    len ← get_string_length pathname
    let opened = hijack buffer pathname flags (find_sym_by_name l (some open_name) next none)
    if ltb max_path_sz len then ok (failure, none) else opened
