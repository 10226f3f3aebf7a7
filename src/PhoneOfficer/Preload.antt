-- ===== src/PhoneOfficer/Preload.antt =====
-- phone-officer/officer-common/src/preload_utils.c: symbols that are looked up at run time, and
-- changes to the environment without the C library. The functions that are looked up are
-- parameters.
pub mod Lookup
pub mod Changes
use lab.Prelude.{
  ℕ, zero, suc, ◌+◌, ◌*◌, ◌==◌, if◌then◌else◌, Bool, true, false, List, [], ◌∷◌, ◌++◌, map, Option,
  none, some, Bytes, length, take,
}
use lab.Prelude.Result.{Result, ok, raised, ◌>>=◌}

-- A call through a null pointer, and a read or a write that leaves an array.
pub data Fault : Type 0 where
  null_call out_of_range : Fault

-- What the functions return: 0 or -1.
pub data Ret : Type 0 where
  success failure : Ret

pub data LookupPolicy : Type 0 where
  lib_nm next invld : LookupPolicy

-- `dlopen` and `dlsym`: `none` is null. `rtld_next` is the handle `RTLD_NEXT`.
pub record Linker (Handle Sym : Type 0) : Type 0 where
  pub dlopen : Bytes → Option Handle
  pub dlsym : Handle → Bytes → Option Sym
  pub rtld_next : Handle

module _ {Handle Sym : Type 0} (l : Linker Handle Sym) where
  abbrev pub look_in : Bytes → Option Handle → Option Sym
  look_in sym_name none = none
  look_in sym_name (some handle) = l.dlsym handle sym_name

  -- `find_sym_by_name`, with null pointers as `none`: the first case falls through to the second.
  unfoldable pub find_sym_by_name : Option Bytes → LookupPolicy → Option Bytes → Option Sym
  find_sym_by_name none policy lib = none
  find_sym_by_name (some sym_name) lib_nm none = none
  find_sym_by_name (some sym_name) lib_nm (some lib) = look_in sym_name (l.dlopen lib)
  find_sym_by_name (some sym_name) next lib = look_in sym_name (some l.rtld_next)
  find_sym_by_name (some sym_name) invld lib = none

-- `get_string_length` of the bytes from a pointer on: the index of the first null byte.
unfoldable pub get_string_length : Bytes → Result Fault ℕ
get_string_length [] = raised out_of_range
get_string_length (c ∷ str) =
    if c == 0 then ok 0 else (do len ← get_string_length str; ok (len + 1))

-- `memcmp` of the bytes from two pointers on: whether it returns 0.
abbrev pub Memcmp : Type 0
Memcmp = Bytes → Bytes → ℕ → Result Fault Bool

-- The functions of the C library that are looked up: `none` where the symbol is not found.
pub record Libc : Type 0 where
  pub malloc : Option (ℕ → Option (List (Option Bytes)))
  pub strdup : Option (Bytes → Option Bytes)
  pub memcmp : Option Memcmp

-- A call through the pointer `pmemcmp`, which is not tested.
abbrev pub call_memcmp : Option Memcmp → Memcmp
call_memcmp none a b n = raised null_call
call_memcmp (some pmemcmp) a b n = pmemcmp a b n

-- The test of one entry, whose length is compared with that of the key.
abbrev pub is_entry : Option Memcmp → Bytes → ℕ → Bytes → Result Fault Bool
is_entry pmemcmp key ent_sz entry = do
  len ← get_string_length entry
  if ent_sz == len then call_memcmp pmemcmp entry key ent_sz else ok false

-- The loop over `environ`: the entry's index, and the offset in it of the pointer that is returned.
abbrev pub find_from : Option Memcmp → Bytes → ℕ → ℕ → List Bytes → Result Fault (Option (ℕ × ℕ))
find_from pmemcmp key ent_sz i [] = ok none
find_from pmemcmp key ent_sz i (entry ∷ environ) = do
  same ← is_entry pmemcmp key ent_sz entry
  let rest = find_from pmemcmp key ent_sz (i + 1) environ
  if same then ok (some (i, ent_sz + 1)) else rest

-- `environ`, which may be null.
abbrev pub Environ : Type 0
Environ = Option (List Bytes)

-- `find_entry_in_env`
unfoldable pub find_entry_in_env : Libc → Environ → Bytes → Result Fault (Option (ℕ × ℕ))
find_entry_in_env c none key = do _ ← get_string_length key; raised out_of_range
find_entry_in_env c (some environ) key = do
  ent_sz ← get_string_length key
  find_from c.memcmp key ent_sz 0 environ

-- The loop that copies the entries, with null for a copy that failed.
abbrev pub copy_entries :
    Option (Bytes → Option Bytes) → List Bytes → Result Fault (Option (List Bytes))
copy_entries strdup [] = ok (some [])
copy_entries none (entry ∷ environ) = raised null_call
copy_entries (some strdup) (entry ∷ environ) = do
  others ← copy_entries (some strdup) environ
  ok (elim (strdup entry) [
    | none ↦ none
    | some copy ↦ elim others [ none ↦ none | some copies ↦ some (copy ∷ copies) ]
  ])

-- The new entry is put behind the copies, and is overwritten by the null that ends the array. The
-- last call, which frees the first of the old entries, is not modelled.
abbrev pub finish_env :
    Option (Bytes → Option Bytes)
    → Bytes
    → List Bytes
    → Option (List Bytes)
    → Result Fault (Ret × Environ)
finish_env strdup entry environ none = ok (failure, some environ)
finish_env none entry environ (some copies) = raised null_call
finish_env (some strdup) entry environ (some copies) = ok (success, some copies)

-- What follows the look-up of `malloc`, called through the pointer `pmalloc`.
abbrev pub fill_env :
    Option (ℕ → Option (List (Option Bytes)))
    → Option (Bytes → Option Bytes)
    → Bytes
    → List Bytes
    → Result Fault (Ret × Environ)
fill_env none strdup entry environ = raised null_call
fill_env (some pmalloc) strdup entry environ = elim (pmalloc (8 * (length environ + 2))) [
  | none ↦ ok (failure, some environ)
  | some slots ↦ copy_entries strdup environ >>= finish_env strdup entry environ
]

-- `insert_entry_to_env`: `pmalloc` is null, and what is found is not assigned to it. The environment
-- is the second component.
unfoldable pub insert_entry_to_env : Libc → Bytes → Environ → Result Fault (Ret × Environ)
insert_entry_to_env c entry none = ok (failure, none)
insert_entry_to_env c entry (some environ) = elim c.malloc [
  | none ↦ ok (failure, some environ)
  | some malloc ↦ fill_env none c.strdup entry environ
]

-- The loop that copies the key: its condition is a pointer and its index stays, so that it writes
-- the first byte over and over, to the end of the `room` bytes of the new entry and beyond.
abbrev pub copy_key : ℕ → Result Fault (Ret × Environ)
copy_key zero = raised out_of_range
copy_key (suc room) = copy_key room

abbrev pub replace_entry : Libc → Bytes → Bytes → Environ → Result Fault (Ret × Environ)
replace_entry c key value environ = elim c.malloc [
  | none ↦ ok (failure, environ)
  | some malloc ↦ do
    key_len ← get_string_length key
    value_len ← get_string_length value
    elim (malloc (key_len + value_len + 2)) [
      | none ↦ ok (failure, environ)
      | some room ↦ copy_key (key_len + value_len + 2)
    ]
]

-- An entry that is not there is inserted.
abbrev pub update_found :
    Libc → Bytes → Bytes → Environ → Option (ℕ × ℕ) → Result Fault (Ret × Environ)
update_found c key value environ none = insert_entry_to_env c key environ
update_found c key value environ (some at) = replace_entry c key value environ

-- `update_entry_in_env`
unfoldable pub update_entry_in_env : Libc → Bytes → Bytes → Environ → Result Fault (Ret × Environ)
update_entry_in_env c key value environ = do
  found ← find_entry_in_env c environ key
  update_found c key value environ found
