-- ===== src/MemDb/Layouts/Memory/Splice.antt =====
-- A write of bytes as a splice, and what a read finds after it.
use lab.Prelude.{
  ℕ, zero, suc, ◌+◌, ◌-◌, ◌≤◌, ◌<◌, ◌≡◌, refl, leb, if◌then◌else◌, List, [], ◌∷◌, ◌++◌, Bytes,
  length, set, take, drop, arith, ap, sym, ◌∙◌, ◌⊎◌, inl, inr, length-append, length-take,
  length-drop, take-append-drop, append_assoc, take_all,
}
use lab.MemDb.Outcome.{ok, raised, undefined}
use lab.MemDb.Layouts.Memory.{read, write}

module _ {ℓ} {A : Type ℓ} where
  drop_nil : (n m : ℕ) → drop {A = A} n [] ≡ drop {A = A} m []
  drop_nil zero zero = refl
  drop_nil zero (suc m) = refl
  drop_nil (suc n) zero = refl
  drop_nil (suc n) (suc m) = refl

  take_nil : (n : ℕ) → take {A = A} n [] ≡ []
  take_nil zero = refl
  take_nil (suc n) = refl

  pub drop-drop : (n m : ℕ) (xs : List A) → drop n (drop m xs) ≡ drop (m + n) xs
  drop-drop n zero xs = let e : 0 + n ≡ n = omega arith in rw e
  drop-drop n (suc m) [] = drop_nil n (suc m + n)
  drop-drop n (suc m) (x ∷ xs) =
      let e : suc m + n ≡ suc (m + n) = omega arith in rw e (drop-drop n m xs)

  take-append_le : (n : ℕ) (xs ys : List A) → n ≤ length xs → take n (xs ++ ys) ≡ take n xs
  take-append_le zero xs ys h = refl
  take-append_le (suc n) [] ys h = absurd (omega arith)
  take-append_le (suc n) (x ∷ xs) ys h = rw (take-append_le n xs ys (omega arith))

  drop-append_le : (n : ℕ) (xs ys : List A) → n ≤ length xs → drop n (xs ++ ys) ≡ drop n xs ++ ys
  drop-append_le zero xs ys h = refl
  drop-append_le (suc n) [] ys h = absurd (omega arith)
  drop-append_le (suc n) (x ∷ xs) ys h = drop-append_le n xs ys (omega arith)

  drop-append_ge :
      (n : ℕ) (xs ys : List A) → length xs ≤ n → drop n (xs ++ ys) ≡ drop (n - length xs) ys
  drop-append_ge n [] ys h = let e : n - 0 ≡ n = omega arith in rw e
  drop-append_ge zero (x ∷ xs) ys h = absurd (omega arith)
  drop-append_ge (suc n) (x ∷ xs) ys h =
      let e : suc n - suc (length xs) ≡ n - length xs = omega arith in
      rw e (drop-append_ge n xs ys (omega arith))

  pub take-take_le : (n m : ℕ) (xs : List A) → n ≤ m → take n (take m xs) ≡ take n xs
  take-take_le zero m xs h = refl
  take-take_le (suc n) zero xs h = absurd (omega arith)
  take-take_le (suc n) (suc m) [] h = refl
  take-take_le (suc n) (suc m) (x ∷ xs) h = rw (take-take_le n m xs (omega arith))

  pub drop-take : (n m : ℕ) (xs : List A) → drop n (take (n + m) xs) ≡ take m (drop n xs)
  drop-take zero m xs = let e : 0 + m ≡ m = omega arith in rw e
  drop-take (suc n) m [] = ap (drop (suc n)) (take_nil (suc n + m)) ∙ sym (take_nil m)
  drop-take (suc n) m (x ∷ xs) =
      let e : suc n + m ≡ suc (n + m) = omega arith in rw e (drop-take n m xs)

  pub take-add : (n m : ℕ) (xs : List A) → take (n + m) xs ≡ take n xs ++ take m (drop n xs)
  take-add zero m xs = let e : 0 + m ≡ m = omega arith in rw e
  take-add (suc n) m [] = take_nil (suc n + m) ∙ sym (take_nil m)
  take-add (suc n) m (x ∷ xs) =
      let e : suc n + m ≡ suc (n + m) = omega arith in rw (e, take-add n m xs)

-- The elements `bs` in place of those from the index `o` on.
module _ {ℓ} {A : Type ℓ} where
  abbrev pub splice : List A → ℕ → List A → List A
  splice mem o bs = take o mem ++ (bs ++ drop (o + length bs) mem)

  head_length :
      (mem : List A) (o : ℕ) (bs : List A)
      → o ≤ length mem
      → length (take o mem ++ bs) ≡ o + length bs
  head_length mem o bs h = omega (arith, length-append (take o mem) bs, length-take o mem)

  pub length-splice :
      (mem : List A) (o : ℕ) (bs : List A)
      → o + length bs ≤ length mem
      → length (splice mem o bs) ≡ length mem
  length-splice mem o bs h = omega (
    arith,
    length-append (take o mem) (bs ++ drop (o + length bs) mem),
    length-append bs (drop (o + length bs) mem),
    length-take o mem,
    length-drop (o + length bs) mem,
  )

  pub splice_none : (mem : List A) (o : ℕ) → splice mem o [] ≡ mem
  splice_none mem o = let e : o + 0 ≡ o = omega arith in rw e (take-append-drop o mem)

  splice_assoc :
      (mem : List A) (o : ℕ) (bs : List A)
      → splice mem o bs ≡ (take o mem ++ bs) ++ drop (o + length bs) mem
  splice_assoc mem o bs = sym (append_assoc (take o mem) bs (drop (o + length bs) mem))

  pub take-splice :
      (mem : List A) (o : ℕ) (bs : List A)
      → o ≤ length mem
      → take (o + length bs) (splice mem o bs) ≡ take o mem ++ bs
  take-splice mem o bs h =
      let n : o + length bs ≡ length (take o mem ++ bs) = sym (head_length mem o bs h) in
      ap (take (o + length bs)) (splice_assoc mem o bs)
      ∙ (take-append_le (o + length bs) (take o mem ++ bs) (drop (o + length bs) mem) (omega arith)
          ∙ take_all (o + length bs) (take o mem ++ bs) (omega arith))

  drop-splice :
      (mem : List A) (o : ℕ) (bs : List A) (n : ℕ)
      → o ≤ length mem
      → o + length bs ≤ n
      → drop n (splice mem o bs) ≡ drop n mem
  drop-splice mem o bs n h l =
      ap (drop n) (splice_assoc mem o bs)
      ∙ (drop-append_ge n (take o mem ++ bs) (drop (o + length bs) mem)
            (omega (arith, head_length mem o bs h))
          ∙ (drop-drop (n - length (take o mem ++ bs)) (o + length bs) mem
              ∙ ap (λ k. drop k mem) (omega (arith, head_length mem o bs h))))

  -- Two writes side by side are one.
  pub splice-splice :
      (mem : List A) (o : ℕ) (a b : List A)
      → o + length a + length b ≤ length mem
      → splice (splice mem o a) (o + length a) b ≡ splice mem o (a ++ b)
  splice-splice mem o a b h =
      let e : o + (length a + length b) ≡ o + length a + length b = omega arith in
      rw (
        take-splice mem o a (omega arith),
        drop-splice mem o a (o + length a + length b) (omega arith) (omega arith),
        length-append a b,
        e,
        append_assoc (take o mem) a (b ++ drop (o + length a + length b) mem),
        append_assoc a b (drop (o + length a + length b) mem),
      )

  pub set-splice :
      (mem : List A) (o : ℕ) (x : A) → o < length mem → set mem o x ≡ splice mem o (x ∷ [])
  set-splice [] o x h = absurd (omega arith)
  set-splice (y ∷ mem) zero x h = refl
  set-splice (y ∷ mem) (suc o) x h =
      let e : suc o + 1 ≡ suc (o + 1) = omega arith in
      rw e (ap (◌∷◌ y) (set-splice mem o x (omega arith)))

pub read-take :
    (mem : Bytes) (o n : ℕ) → o + n ≤ length mem → read mem o n ≡ ok (take n (drop o mem))
unfolding read
read-take mem o n h = ground arith

pub write-splice :
    (mem : Bytes) (o : ℕ) (bs : Bytes)
    → o + length bs ≤ length mem
    → write mem o bs ≡ ok (splice mem o bs)
unfolding write
write-splice mem o bs h = ground arith

field_beside :
    (mem : Bytes) (o : ℕ) (bs : Bytes) (p n : ℕ)
    → o + length bs ≤ length mem
    → (p + n ≤ o) ⊎ (o + length bs ≤ p)
    → take n (drop p (splice mem o bs)) ≡ take n (drop p mem)
field_beside mem o bs p n h (inl below) =
    sym (drop-take p n (splice mem o bs))
    ∙ (ap (drop p) (
          take-append_le (p + n) (take o mem) (bs ++ drop (o + length bs) mem)
            (omega (arith, length-take o mem))
          ∙ take-take_le (p + n) o mem below)
        ∙ drop-take p n mem)
field_beside mem o bs p n h (inr above) = ap (take n) (drop-splice mem o bs p (omega arith) above)

-- A read of what was written, and one beside it.
pub read-splice_self :
    (mem : Bytes) (o : ℕ) (bs : Bytes)
    → o + length bs ≤ length mem
    → read (splice mem o bs) o (length bs) ≡ ok bs
read-splice_self mem o bs h =
    read-take (splice mem o bs) o (length bs) (omega (arith, length-splice mem o bs h))
    ∙ ap ok (
        sym (drop-take o (length bs) (splice mem o bs))
        ∙ (ap (drop o) (take-splice mem o bs (omega arith))
            ∙ (drop-append_ge o (take o mem) bs (omega (arith, length-take o mem))
                ∙ ap (λ k. drop k bs) {y = 0} (omega (arith, length-take o mem)))))

pub read-splice_beside :
    (mem : Bytes) (o : ℕ) (bs : Bytes) (p n : ℕ)
    → o + length bs ≤ length mem
    → (p + n ≤ o) ⊎ (o + length bs ≤ p)
    → read (splice mem o bs) p n ≡ read mem p n
unfolding read
read-splice_beside mem o bs p n h beside = rw (length-splice mem o bs h) (
    ap (λ x. if leb (p + n) (length mem) then ok x else raised undefined)
      (field_beside mem o bs p n h beside))
