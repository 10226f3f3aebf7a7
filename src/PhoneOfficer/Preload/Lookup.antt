-- ===== src/PhoneOfficer/Preload/Lookup.antt =====
-- Which entry of the environment is found.
use lab.Prelude.{
  take, ◌≤◌, ℕ, suc, ◌+◌, ◌≡◌, ◌≢◌, refl, ◌==◌, ==_of_ne, ==_iff, Bool, true, false, if◌then◌else◌,
  List, [], ◌∷◌, ◌++◌, map, All, Option, none, some, Bytes, length, arith,
}
use lab.Prelude.Result.{ok, raised}
use lab.PhoneOfficer.Preload.{null_call, Memcmp, Libc, get_string_length, find_entry_in_env}

-- The bytes of a string without a null byte, as they are in memory.
abbrev pub c_string : Bytes → Bytes
c_string s = s ++ 0 ∷ []

abbrev pub IsText : Bytes → Type 0
IsText s = All (λ c. c ≢ 0) s

pub get_string_length-c_string :
    (s : Bytes) → IsText s → get_string_length (c_string s) ≡ ok (length s)
unfolding get_string_length
get_string_length-c_string [] h = refl
get_string_length-c_string (c ∷ s) (h, hs) =
    let e : length s + 1 ≡ suc (length s) = omega arith in
    rw (==_of_ne c 0 h, get_string_length-c_string s hs, e)

-- Whether two strings are the same.
abbrev pub same_text : Bytes → Bytes → Bool
same_text [] [] = true
same_text [] (d ∷ b) = false
same_text (c ∷ a) [] = false
same_text (c ∷ a) (d ∷ b) = if c == d then same_text a b else false

-- What `memcmp` promises, of arrays that have the bytes that are compared.
abbrev pub IsMemcmp : Memcmp → Type 0
IsMemcmp f =
    (a b : Bytes) (n : ℕ)
    → n ≤ length a
    → n ≤ length b
    → f a b n ≡ ok (same_text (take n a) (take n b))

-- The first of the strings that is the key itself.
abbrev pub first_same : Bytes → ℕ → List Bytes → Option (ℕ × ℕ)
first_same key i [] = none
first_same key i (s ∷ ss) =
    let rest = first_same key (i + 1) ss in
    if same_text s key then some (i, length (c_string s)) else rest

-- Where `memcmp` was not found, the first entry that is as long as the key is a call through null.
pub find_entry_in_env-null :
    (c : Libc) (key s : Bytes) (ss : List Bytes)
    → c.memcmp ≡ none
    → IsText key
    → IsText s
    → length key ≡ length s
    → find_entry_in_env c (some (map c_string (s ∷ ss))) (c_string key) ≡ raised null_call
unfolding find_entry_in_env
find_entry_in_env-null c key s ss missing t u e =
    rw
      (
        get_string_length-c_string key t,
        missing,
        get_string_length-c_string s u,
        (==_iff (length key) (length s)).1 e,
      )
      refl
