-- ===== src/PhoneOfficer/Tests.antt =====
-- An environment of two entries, a linker that finds every symbol, and the theorems at these data.
use lab.Prelude.{take, ℕ, zero, suc, List, [], ◌∷◌, map, some, Bytes}
use lab.Prelude.Result.{ok}
use lab.PhoneOfficer.Preload.{Libc, Memcmp, update_entry_in_env}
use lab.PhoneOfficer.Preload.{Linker}
use lab.PhoneOfficer.Preload.Lookup.{same_text, c_string}
use lab.PhoneOfficer.Preload.Changes.{Fails, update_entry_in_env-Fails}

-- "A=1", and "A", which has no value.
abbrev entries : List Bytes
entries = (65 ∷ 61 ∷ 49 ∷ []) ∷ (65 ∷ []) ∷ []

-- A `memcmp` that does what it promises.
abbrev compare_bytes : Memcmp
compare_bytes a b n = ok (same_text (take n a) (take n b))

abbrev libc : Libc
libc = record {
  malloc = some (λ n. some []);
  strdup = some (λ s. some s);
  memcmp = some compare_bytes;
}

update_entry_in_env-Fails_example : Fails (some (map c_string entries)) (
    update_entry_in_env libc
      (c_string (65 ∷ []))
      (c_string (50 ∷ []))
      (some (map c_string entries)))
update_entry_in_env-Fails_example =
    update_entry_in_env-Fails libc (c_string (65 ∷ [])) (c_string (50 ∷ []))
      (some (map c_string entries))

abbrev linker : Linker ℕ ℕ
linker = record { dlopen = λ lib. some 1; dlsym = λ handle sym. some 7; rtld_next = 0 }

abbrev null_bytes : ℕ → Bytes
null_bytes zero = []
null_bytes (suc n) = 0 ∷ null_bytes n
