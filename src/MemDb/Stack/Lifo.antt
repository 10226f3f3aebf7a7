-- ===== src/MemDb/Stack/Lifo.antt =====
-- The stack as a bounded list, its newest slot first.
use lab.Prelude.{
  ℕ, zero, suc, ◌+◌, ◌-◌, ◌≤◌, ◌<◌, ◌≡◌, refl, ltb, if◌then◌else◌, List, [], ◌∷◌, Option, length,
  set, get_elem?, none, some, arith, get_elem?-set_ne, get_elem?-set_self, ap, ltb→lt, Bool-cases,
  inl, inr, get_elem?-some, length-set,
}
use lab.MemDb.Outcome.{Outcome, ok}
use lab.MemDb.Stack.{Stack, inv_location, push, pop}

pub record IsValid (s : Stack) : Type 0 where
  pub room : s.sz ≤ length s.pstack
  pub bounded : s.capacity ≤ s.sz

abbrev onto : Option ℕ → List ℕ → List ℕ
onto none xs = xs
onto (some x) xs = x ∷ xs

-- The slots below the index `n` of an array, the last one first.
abbrev down : ℕ → List ℕ → List ℕ
down zero xs = []
down (suc n) xs = onto (get_elem? xs n) (down n xs)

abbrev pub slots : Stack → List ℕ
slots s = down s.capacity s.pstack

down-set : (n : ℕ) (xs : List ℕ) (i x : ℕ) → n ≤ i → down n (set xs i x) ≡ down n xs
down-set zero xs i x h = refl
down-set (suc n) xs i x h =
    cc (get_elem?-set_ne xs i n x (λ e. omega arith), down-set n xs i x (omega arith))

down-push :
    (n : ℕ) (xs : List ℕ) (x : ℕ) → n < length xs → down (n + 1) (set xs n x) ≡ x ∷ down n xs
down-push n xs x h =
    let e : n + 1 ≡ suc n = omega arith in
    rw e (rw (get_elem?-set_self xs n x h) (ap (◌∷◌ x) (down-set n xs n x (omega arith))))

pub length-down : (n : ℕ) (xs : List ℕ) → n ≤ length xs → length (down n xs) ≡ n
length-down zero xs h = refl
length-down (suc n) xs h =
    let (x, e) = get_elem?-some xs n (omega arith) in rw e (ap suc (length-down n xs (omega arith)))

-- What the two operations are on lists of slots, with room for `n`.
abbrev pub push_list : ℕ → ℕ → List ℕ → ℕ × List ℕ
push_list n x xs = if ltb (length xs) n then (0, x ∷ xs) else (inv_location, xs)

abbrev pub pop_list : List ℕ → ℕ × List ℕ
pop_list [] = (inv_location, [])
pop_list (x ∷ xs) = (x, xs)

-- The call returns, keeps the stack valid and its bound, and does `spec` to the slots.
abbrev pub Does : (List ℕ → ℕ × List ℕ) → Stack → Outcome (ℕ × Stack) → Type 0
Does spec s m =
    (code : ℕ) × (s' : Stack) × (m ≡ ok (code, s'))
    × IsValid s'
    × (s'.sz ≡ s.sz)
    × ((code, slots s') ≡ spec (slots s))

-- On a valid stack `push` puts a slot on top while there is room, and otherwise says `INV_LOCATION`
-- and changes nothing.
pub push-Does : (s : Stack) (x : ℕ) → IsValid s → Does (push_list s.sz x) s (push s x)
unfolding push
push-Does s x v =
    let n = length-down s.capacity s.pstack (omega arith) in
    elim (Bool-cases (ltb s.capacity s.sz)) [
      | inl room ↦
          let lt = ltb→lt s.capacity s.sz room in
          let s' : Stack = record s {
            capacity = s.capacity + 1;
            pstack = set s.pstack s.capacity x;
          } in
          (
            0,
            s',
            ground arith,
            record {
              room = omega (arith, length-set s.pstack s.capacity x);
              bounded = omega arith;
            },
            refl,
            ground (arith, n, down-push s.capacity s.pstack x),
          )
      | inr full ↦ (inv_location, s, ground arith, v, refl, ground (arith, n))
    ]

pop_empty : (s : Stack) → s.capacity ≡ 0 → pop s ≡ ok (inv_location, s)
unfolding pop
pop_empty s e = ground arith

pop_top :
    (s : Stack) (n x : ℕ)
    → s.capacity ≡ suc n
    → get_elem? s.pstack n ≡ some x
    → suc n ≤ s.sz
    → pop s ≡ ok (x, record s { capacity = n })
unfolding pop
pop_top s n x e there h = let p : s.capacity - 1 ≡ n = omega arith in ground (arith, p)

-- On a valid stack `pop` takes the top slot off, and says `INV_LOCATION` and changes nothing where
-- it is empty.
pub pop-Does : (s : Stack) → IsValid s → Does pop_list s (pop s)
pop-Does s v = go s.capacity refl
  where
    go : (n : ℕ) → s.capacity ≡ n → Does pop_list s (pop s)
    go zero e = (inv_location, s, pop_empty s e, v, refl, rw e)
    go (suc n) e =
        let (x, there) = get_elem?-some s.pstack n (omega arith) in
        (
          x,
          record s { capacity = n },
          pop_top s n x e there (omega arith),
          record { room = v.room; bounded = omega arith },
          refl,
          ground (arith, e, there),
        )
