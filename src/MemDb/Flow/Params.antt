-- ===== src/MemDb/Flow/Params.antt =====
-- The parameters of a message, as bytes, and that the loop reads back what was written.
use lab.Prelude.{
  le_value, le_bytes, length-le_bytes, le_value-le_bytes, ℕ, zero, suc, ◌+◌, ◌^◌, ◌≤◌, ◌<◌, ◌≡◌,
  refl, ltb, leb, true, List, [], ◌∷◌, ◌++◌, some, Bytes, length, arith, ap, sym, ◌∙◌, All,
  length-append, append_assoc, take-append_left, drop-append_left, lt→ltb, le→ltb, ==_of_ne,
}
use lab.MemDb.Outcome.{ok}
use lab.MemDb.Layouts.Memory.{read}
use lab.MemDb.Layouts.Memory.Splice.{read-take}
use lab.MemDb.Layouts.Header.{max_col_num}
use lab.MemDb.Layouts.ArrayLayout.{max_buff_sz}
use lab.MemDb.Flow.{sel, NetworkMsg, read_pair, read_params, prepend}

-- A pair that fits a message: a name that is not empty and fits its buffer, and a 64-bit value.
pub record IsPair (p : Bytes × ℕ) : Type 0 where
  pub named : 1 ≤ length p.0
  pub fits : length p.0 ≤ max_buff_sz
  pub narrow : p.1 < 256 ^ 8

-- The bytes of a pair, and of all of them.
abbrev pub pair_bytes : Bytes × ℕ → Bytes
pair_bytes p = le_bytes 4 (length p.0) ++ (p.0 ++ le_bytes 8 p.1)

abbrev pub params_bytes : List (Bytes × ℕ) → Bytes
params_bytes [] = []
params_bytes (p ∷ ps) = pair_bytes p ++ params_bytes ps

pub read-middle :
    (a b c : Bytes) (pos n : ℕ) → pos ≡ length a → n ≡ length b → read (a ++ (b ++ c)) pos n ≡ ok b
read-middle a b c pos n e f =
    read-take (a ++ (b ++ c)) pos n (omega (arith, length-append a (b ++ c), length-append b c))
    ∙ ap ok (rw (e, f, drop-append_left a (b ++ c)) (take-append_left b c))

read_pair_parts :
    (mem a name b : Bytes) (pos idx v : ℕ)
    → read mem pos 4 ≡ ok a
    → le_value a ≡ length name
    → read mem (pos + 4) (length name) ≡ ok name
    → read mem (pos + 4 + length name) 8 ≡ ok b
    → le_value b ≡ v
    → 1 ≤ length name
    → length name ≤ max_buff_sz
    → idx < max_col_num
    → read_pair mem pos idx ≡ ok (some ((name, v), 4 + length name + 8))
read_pair_parts mem a name b pos idx v ra va rn rb vb named fits room =
    let some_name = ==_of_ne (length name) 0 (λ e. omega arith) in
    let in_range = lt→ltb idx max_col_num room in
    let in_buff : leb (length name) max_buff_sz ≡ true = ground arith in
    rw (ra, va, some_name, in_range, in_buff, rn, rb, vb)

module _ (pre a name b rest : Bytes) where
  pub at_name : pre ++ ((a ++ (name ++ b)) ++ rest) ≡ (pre ++ a) ++ (name ++ (b ++ rest))
  at_name =
      rw (append_assoc a (name ++ b) rest, append_assoc name b rest)
        (sym (append_assoc pre a (name ++ (b ++ rest))))

  pub at_value : pre ++ ((a ++ (name ++ b)) ++ rest) ≡ (pre ++ (a ++ name)) ++ (b ++ rest)
  at_value =
      at_name
      ∙ (sym (append_assoc (pre ++ a) name (b ++ rest))
          ∙ ap (λ x. x ++ (b ++ rest)) (append_assoc pre a name))

read_pair-written :
    (pre rest : Bytes) (p : Bytes × ℕ) (pos idx : ℕ)
    → IsPair p
    → pos ≡ length pre
    → idx < max_col_num
    → read_pair (pre ++ (pair_bytes p ++ rest)) pos idx ≡ ok (some (p, 4 + length p.0 + 8))
read_pair-written pre rest (name, v) pos idx h e room =
    let a = le_bytes 4 (length name) in
    let b = le_bytes 8 v in
    let mem = pre ++ ((a ++ (name ++ b)) ++ rest) in
    let size_a = length-le_bytes 4 (length name) in
    let size_b = length-le_bytes 8 v in
    read_pair_parts mem a name b pos idx v
      (ap (λ m. read m pos 4) (ap (λ x. pre ++ x) (append_assoc a (name ++ b) rest))
        ∙ read-middle pre a ((name ++ b) ++ rest) pos 4 e (sym size_a))
      (le_value-le_bytes 4 (length name) (omega (arith, h.fits)))
      (ap (λ m. read m (pos + 4) (length name)) (at_name pre a name b rest)
        ∙ read-middle (pre ++ a) name (b ++ rest) (pos + 4) (length name)
            (omega (arith, length-append pre a)) refl)
      (ap (λ m. read m (pos + 4 + length name) 8) (at_value pre a name b rest)
        ∙ read-middle (pre ++ (a ++ name)) b rest (pos + 4 + length name) 8
            (omega (arith, length-append pre (a ++ name), length-append a name)) (sym size_b))
      (le_value-le_bytes 8 v h.narrow) h.named h.fits room

length-pair_bytes : (p : Bytes × ℕ) → length (pair_bytes p) ≡ 4 + length p.0 + 8
length-pair_bytes (name, v) = omega (arith, length-append name (le_bytes 8 v))

abbrev written : Bytes → ℕ → ℕ → NetworkMsg
written buff lay size = record { buff = buff; lay_nm_sz = lay; param_sz = size; q_typ = sel }

read_params_step :
    (fuel : ℕ) (msg : NetworkMsg) (acc idx n : ℕ) (p : Bytes × ℕ)
    → ltb acc msg.param_sz ≡ true
    → read_pair msg.buff (msg.lay_nm_sz + acc) idx ≡ ok (some (p, n))
    → read_params (suc fuel) msg acc idx ≡ prepend p (read_params fuel msg (acc + n) (idx + 1))
unfolding read_params
read_params_step fuel msg acc idx n p more this = rw (more, this, read_params)

read_params-from :
    (ps : List (Bytes × ℕ)) (pre rest : Bytes) (fuel lay acc size idx : ℕ)
    → All IsPair ps
    → length ps < fuel
    → idx + length ps ≤ max_col_num
    → lay + acc ≡ length pre
    → size ≡ acc + length (params_bytes ps)
    → read_params fuel (written (pre ++ (params_bytes ps ++ rest)) lay size) acc idx
      ≡ some (ok (some ps))
unfolding read_params
read_params-from ps pre rest zero lay acc size idx all f room e n = absurd (omega arith)
read_params-from [] pre rest (suc fuel) lay acc size idx all f room e n =
    let done = le→ltb acc size (omega arith) in rw (done, read_params)
read_params-from (p ∷ ps) pre rest (suc fuel) lay acc size idx all f room e n =
    let size_p = length-pair_bytes p in
    let more = lt→ltb acc size (omega (arith, length-append (pair_bytes p) (params_bytes ps))) in
    let this =
      read_pair-written pre (params_bytes ps ++ rest) p (lay + acc) idx all.0 e (omega arith) in
    let shift : pre ++ (pair_bytes p ++ (params_bytes ps ++ rest))
        ≡ (pre ++ pair_bytes p) ++ (params_bytes ps ++ rest) =
      sym (append_assoc pre (pair_bytes p) (params_bytes ps ++ rest)) in
    let next =
      read_params-from ps (pre ++ pair_bytes p) rest fuel lay (acc + (4 + length p.0 + 8)) size
        (idx + 1) all.1 (omega arith) (omega arith)
        (omega (arith, length-append pre (pair_bytes p)))
        (omega (arith, length-append (pair_bytes p) (params_bytes ps))) in
    ap (λ b. read_params (suc fuel) (written b lay size) acc idx)
      (ap (λ x. pre ++ x) (append_assoc (pair_bytes p) (params_bytes ps) rest))
    ∙ (read_params_step fuel (written (pre ++ (pair_bytes p ++ (params_bytes ps ++ rest))) lay size)
          acc idx (4 + length p.0 + 8) p more this
        ∙ ap (prepend p) (
            ap (λ b. read_params fuel (written b lay size) (acc + (4 + length p.0 + 8)) (idx + 1))
              shift
            ∙ next))

-- The parameters of a message are read back as they were written: at most 20 pairs of a name, not
-- empty and of at most 1024 bytes, and a 64-bit value, behind a table's name of any length.
pub read_params-written :
    (table rest : Bytes) (ps : List (Bytes × ℕ)) (fuel : ℕ)
    → All IsPair ps
    → length ps ≤ max_col_num
    → length ps < fuel
    → read_params fuel
        (record {
          buff = table ++ (params_bytes ps ++ rest);
          lay_nm_sz = length table;
          param_sz = length (params_bytes ps);
          q_typ = sel;
        })
        0
        0
      ≡ some (ok (some ps))
read_params-written table rest ps fuel all room f =
    read_params-from ps table rest fuel (length table) 0 (length (params_bytes ps)) 0 all f
      (omega arith) (omega arith) (omega arith)
