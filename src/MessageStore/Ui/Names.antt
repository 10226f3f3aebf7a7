-- ===== src/MessageStore/Ui/Names.antt =====
-- How `parseUserFromInput` splits a line into the two names of a user.
use lab.Prelude.{ℕ, ◌≡◌, refl, [], ◌∷◌, ◌++◌, Bytes, Without, arith}
use lab.MessageStore.Ui.{getline, parse_user}

getline-Without : (delim : ℕ) (cs : Bytes) → Without delim cs → getline cs delim ≡ (cs, [])
unfolding getline
getline-Without delim [] w = refl
getline-Without delim (c ∷ cs) w = ground (arith, getline-Without delim cs w.1)

getline-append :
    (delim : ℕ) (cs rest : Bytes)
    → Without delim cs
    → getline (cs ++ delim ∷ rest) delim ≡ (cs, rest)
unfolding getline
getline-append delim [] rest w = ground arith
getline-append delim (c ∷ cs) rest w = ground (arith, getline-append delim cs rest w.1)

-- A first name with no space, a space and a last name with no NUL byte are read back as these two
-- names.
pub parse_user-names :
    (first last : Bytes)
    → Without b' ' first
    → Without 0 last
    → parse_user (first ++ b' ' ∷ last) ≡ record { first_name = first; last_name = last }
unfolding parse_user
parse_user-names first last w v = rw (getline-append b' ' first last w, getline-Without 0 last v)

-- A line with no space is a first name, and the last name is empty.
pub parse_user_word :
    (word : Bytes)
    → Without b' ' word
    → parse_user word ≡ record { first_name = word; last_name = [] }
unfolding parse_user getline
parse_user_word word w = rw (getline-Without b' ' word w)
