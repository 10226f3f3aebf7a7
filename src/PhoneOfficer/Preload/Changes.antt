-- ===== src/PhoneOfficer/Preload/Changes.antt =====
-- What the functions that change the environment come to.
use lab.Prelude.{ℕ, zero, suc, ◌+◌, ◌≡◌, refl, ◌⊎◌, inl, inr, Option, none, some, Bytes}
use lab.Prelude.Result.{Result, ok, raised, ◌>>=◌}
use lab.PhoneOfficer.Preload.{
  Environ, Fault, null_call, out_of_range, Ret, failure, Libc, find_entry_in_env, get_string_length,
  insert_entry_to_env, copy_key, replace_entry, update_found, update_entry_in_env,
}

-- The call returns -1 and leaves the environment, or does not return.
abbrev pub Fails : Environ → Result Fault (Ret × Environ) → Type 0
Fails environ m = (m ≡ ok (failure, environ)) ⊎ ((e : Fault) × (m ≡ raised e))

-- So does a chain of calls whose last one does.
Fails-bind :
    {A : Type 0} (environ : Environ) (m : Result Fault A) (f : A → Result Fault (Ret × Environ))
    → ((a : A) → Fails environ (f a))
    → Fails environ (m >>= f)
Fails-bind environ (ok a) f h = h a
Fails-bind environ (raised e) f h = inr (e, refl)

Fails-found :
    {A : Type 0} (environ : Environ) (o : Option A) (f : A → Result Fault (Ret × Environ))
    → ((a : A) → Fails environ (f a))
    → Fails environ (elim o [ none ↦ ok (failure, environ) | some a ↦ f a ])
Fails-found environ none f h = inl refl
Fails-found environ (some a) f h = h a

insert-Fails :
    (c : Libc) (entry : Bytes) (environ : Environ)
    → Fails environ (insert_entry_to_env c entry environ)
unfolding insert_entry_to_env
insert-Fails c entry none = inl refl
insert-Fails c entry (some environ) =
    Fails-found (some environ) c.malloc _ λ malloc. inr (null_call, refl)

copy_key-raised : (room : ℕ) → copy_key room ≡ raised out_of_range
copy_key-raised zero = refl
copy_key-raised (suc room) = copy_key-raised room

replace-Fails :
    (c : Libc) (key value : Bytes) (environ : Environ)
    → Fails environ (replace_entry c key value environ)
replace-Fails c key value environ = Fails-found environ c.malloc _ λ malloc.
    Fails-bind environ (get_string_length key) _ λ key_len.
      Fails-bind environ (get_string_length value) _ λ value_len.
        Fails-found environ (malloc (key_len + value_len + 2)) _
          λ room. inr (out_of_range, copy_key-raised (key_len + value_len + 2))

update_found-Fails :
    (c : Libc) (key value : Bytes) (environ : Environ) (found : Option (ℕ × ℕ))
    → Fails environ (update_found c key value environ found)
update_found-Fails c key value environ none = insert-Fails c key environ
update_found-Fails c key value environ (some at) = replace-Fails c key value environ

-- No call of `update_entry_in_env` succeeds, whatever the key, the value and the environment, and
-- whichever functions of the C library are found: it returns -1 with the environment as it was, or
-- it faults, by a call through a null pointer or by leaving an array.
pub update_entry_in_env-Fails :
    (c : Libc) (key value : Bytes) (environ : Environ)
    → Fails environ (update_entry_in_env c key value environ)
unfolding update_entry_in_env
update_entry_in_env-Fails c key value environ =
    Fails-bind environ (find_entry_in_env c environ key) _
      λ found. update_found-Fails c key value environ found
