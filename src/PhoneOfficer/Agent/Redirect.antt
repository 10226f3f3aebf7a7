-- ===== src/PhoneOfficer/Agent/Redirect.antt =====
-- Which file is opened in place of the one that a process asks for.
use lab.Prelude.{ℕ, suc, ltb, if◌then◌else◌, ◌++◌, Option, none, some, Bytes, length, drop}
use lab.Prelude.Result.{Result, ok, raised}
use lab.PhoneOfficer.Preload.{Fault, out_of_range, Ret, success, failure, Linker}
use lab.PhoneOfficer.Preload.Lookup.{c_string}
use lab.PhoneOfficer.Agent.{suffix, open_name, Call}

module _ {Handle Sym : Type 0} (l : Linker Handle Sym) where
  -- The file whose name is that of the path with ".preload" behind it, in a buffer of 1024 bytes.
  abbrev preloaded : Bytes → Bytes → ℕ → Sym → Result Fault (Ret × Option (Call Sym))
  preloaded buffer s flags popen =
      if ltb 1015 (length s)
      then raised out_of_range
      else ok (
        success,
        some (record {
          through = popen;
          name = s ++ (c_string suffix ++ drop 8 (drop (suc (length s)) buffer));
          flags = flags;
        }),
      )

  -- What the callers of `open` get for the path `s`.
  abbrev pub Redirected : Bytes → Bytes → ℕ → Result Fault (Ret × Option (Call Sym))
  Redirected buffer s flags =
      if ltb 1024 (length s) then ok (failure, none) else elim (l.dlsym l.rtld_next open_name) [
        | none ↦ ok (failure, none)
        | some popen ↦ preloaded buffer s flags popen
      ]
