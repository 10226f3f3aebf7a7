-- ===== src/MemDb/Flow/Insert/Buffer.antt =====
-- What `handle_insert` leaves in its buffer.
use lab.Prelude.{
  ℕ, zero, suc, ◌+◌, ◌≤◌, ◌≡◌, refl, ◌==◌, ltb, leb, List, [], ◌∷◌, Option, none, some, Bytes,
  arith, Bool, true, false, if◌then◌else◌, Bool-cases, inl, inr, le→ltb, ltb→lt, length, ◌%◌, ap,
  ◌∙◌,
}
use lab.MemDb.Outcome.{Outcome, ok, raised, undefined, ◌>>=◌}
use lab.MemDb.BitMap.{u32_mod}
use lab.MemDb.Layouts.Memory.{read, write, bytes_eq}
use lab.MemDb.Layouts.Header.{ColumnDef, LayoutHeader}
use lab.MemDb.Layouts.ArrayLayout.{ArrayLayout}
use lab.MemDb.Flow.{NetworkMsg, TblNm2DataBuff, find_layout, read_number}
use lab.MemDb.Flow.Insert.{
  match_column, checked, read_col_name, insert_round, insert_loop, cleaned, insert_into,
  handle_insert, max_net_msg,
}

-- A round that goes on has taken bytes and left the buffer as it was.
abbrev Keeps : Bytes → Outcome (Option ((Bytes × ℕ) × ℕ)) → Type 0
Keeps buff (raised e) = Unit
Keeps buff (ok none) = Unit
Keeps buff (ok (some ((buff', n), offset))) = (buff' ≡ buff) × (1 ≤ n)

Keeps-bind :
    {A : Type 0} (buff : Bytes) (m : Outcome A) (f : A → Outcome (Option ((Bytes × ℕ) × ℕ)))
    → ((a : A) → Keeps buff (f a))
    → Keeps buff (m >>= f)
Keeps-bind buff (ok a) f h = h a
Keeps-bind buff (raised e) f h = tt

Keeps-if :
    (buff : Bytes) (b : Bool) (m : Outcome (Option ((Bytes × ℕ) × ℕ)))
    → Keeps buff m
    → Keeps buff (if b then ok none else m)
Keeps-if buff true m h = tt
Keeps-if buff false m h = h

checked-Keeps :
    (b : Bool) (buff : Bytes) (n offset : ℕ)
    → 1 ≤ n
    → Keeps buff (ok (if b then none else some ((buff, n), offset)))
checked-Keeps true buff n offset h = tt
checked-Keeps false buff n offset h = (refl, h)

-- Where a column was found, `offset` is 0, and the round ends in -1.
written-Keeps :
    (taken size : ℕ) (buff : Bytes) (copied : Outcome Bytes)
    → Keeps buff
        ((copied >>= λ written. ok ((written, size), 0)) >>= λ found. ok (checked taken found))
written-Keeps taken size buff (raised e) = tt
written-Keeps taken size buff (ok written) = tt

found-Keeps :
    (taken size : ℕ) (buff : Bytes) (val : Outcome Bytes) (copy : Bytes → Outcome Bytes)
    → Keeps buff (
        (val >>= λ v. copy v >>= λ written. ok ((written, size), 0)) >>= λ found.
        ok (checked taken found))
found-Keeps taken size buff (raised e) copy = tt
found-Keeps taken size buff (ok v) copy = written-Keeps taken size buff (copy v)

either-Keeps :
    (b b' : Bool) (buff : Bytes) (x y z : Outcome ((Bytes × ℕ) × ℕ))
    (f : (Bytes × ℕ) × ℕ → Outcome (Option ((Bytes × ℕ) × ℕ)))
    → Keeps buff (x >>= f)
    → Keeps buff (y >>= f)
    → Keeps buff (z >>= f)
    → Keeps buff ((if b then (if b' then x else y) else z) >>= f)
either-Keeps true true buff x y z f p q r = p
either-Keeps true false buff x y z f p q r = q
either-Keeps false b' buff x y z f p q r = r

match_column-Keeps :
    (mem : Bytes) (pos taken : ℕ) (col_name : Bytes) (n : ℕ) (cs : List ColumnDef) (buff : Bytes)
    (offset : ℕ)
    → 1 ≤ taken
    → Keeps buff
        (match_column mem pos col_name n cs buff offset >>= λ found. ok (checked taken found))
match_column-Keeps mem pos taken col_name zero cs buff offset h =
    checked-Keeps (offset == 0) buff (taken + 0) offset (omega arith)
match_column-Keeps mem pos taken col_name (suc n) [] buff offset h = tt
match_column-Keeps mem pos taken col_name (suc n) (c ∷ cs) buff offset h =
    either-Keeps (length c.name == length col_name) (bytes_eq c.name col_name) buff _ _ _
      (λ found. ok (checked taken found))
      (found-Keeps taken c.typsz buff (read mem pos c.typsz) (write buff offset))
      (match_column-Keeps mem pos taken col_name n cs buff ((offset + c.typsz) % u32_mod) h)
      (match_column-Keeps mem pos taken col_name n cs buff offset h)

insert_round-Keeps :
    (mem : Bytes) (pos : ℕ) (head : LayoutHeader) (buff : Bytes) (offset : ℕ)
    → Keeps buff (insert_round mem pos head buff offset)
insert_round-Keeps mem pos head buff offset = Keeps-bind buff (read_number mem pos 4) _ λ size.
    Keeps-if buff (size == 0) _ (
      Keeps-bind buff (read_col_name mem (pos + 4) size) _ λ col_name.
        match_column-Keeps mem (pos + (4 + size)) (4 + size) col_name head.sz head.columns buff
          offset (omega arith))

-- The call ends, and where it returns 0 the buffer is this.
abbrev pub Leaves : Bytes → Outcome (Option Bytes) → Type 0
Leaves buff (raised e) = Unit
Leaves buff (ok none) = Unit
Leaves buff (ok (some b)) = b ≡ buff

insert_rounds-Leaves :
    (o : Outcome (Option ((Bytes × ℕ) × ℕ))) (buff : Bytes)
    (next : Bytes → ℕ → ℕ → Option (Outcome (Option Bytes)))
    → Keeps buff o
    → ((n offset : ℕ)
        → 1 ≤ n
        → (r : Outcome (Option Bytes)) × (next buff n offset ≡ some r) × Leaves buff r)
    → (r : Outcome (Option Bytes)) × (elim o [
      | raised e ↦ some (raised e)
      | ok none ↦ some (ok none)
      | ok (some ((buff', n), offset')) ↦ next buff' n offset'
    ]
        ≡ some r)
      × Leaves buff r
insert_rounds-Leaves (raised e) buff next h k = (raised e, refl, tt)
insert_rounds-Leaves (ok none) buff next h k = (ok none, refl, tt)
insert_rounds-Leaves (ok (some ((buff', n), offset))) buff next (same, some_bytes) k =
    let (r, e, l) = k n offset some_bytes in (r, ap (λ x. next x n offset) same ∙ e, l)

insert_loop-Leaves :
    (fuel : ℕ) (msg : NetworkMsg) (head : LayoutHeader) (acc : ℕ) (buff : Bytes) (offset : ℕ)
    → msg.param_sz ≤ acc + fuel
    → (r : Outcome (Option Bytes)) × (insert_loop (suc fuel) msg head acc buff offset ≡ some r)
      × Leaves buff r
unfolding insert_loop
insert_loop-Leaves zero msg head acc buff offset h =
    (ok (some buff), rw (le→ltb acc msg.param_sz (omega arith), insert_loop), refl)
insert_loop-Leaves (suc fuel) msg head acc buff offset h =
    elim (Bool-cases (ltb acc msg.param_sz)) [
      | inr done ↦ (ok (some buff), rw (done, insert_loop), refl)
      | inl more ↦
          rw (more, insert_loop)
            (insert_rounds-Leaves (insert_round msg.buff (msg.lay_nm_sz + acc) head buff offset)
              buff (λ b n o. insert_loop (suc fuel) msg head (acc + n) b o)
              (insert_round-Keeps msg.buff (msg.lay_nm_sz + acc) head buff offset)
              λ n o h'.
                insert_loop-Leaves fuel msg head (acc + n) buff o
                  (omega (arith, ltb→lt acc msg.param_sz more)))
    ]

-- `handle_insert` ends on every message, and where it returns 0 its buffer is as it was cleaned: no
-- value of the message is in it.
pub handle_insert-Leaves :
    (stack : Bytes) (t : TblNm2DataBuff ArrayLayout) (msg : NetworkMsg)
    → (r : Outcome (Option Bytes)) × (handle_insert stack t msg ≡ some r)
      × Leaves (cleaned msg.param_sz stack) r
unfolding handle_insert
handle_insert-Leaves stack t msg = insert_into-Leaves stack msg (find_layout t msg)
  where
    insert_into-Leaves :
        (stack : Bytes) (msg : NetworkMsg) (o : Outcome (Option ArrayLayout))
        → (r : Outcome (Option Bytes)) × (insert_into stack msg o ≡ some r)
          × Leaves (cleaned msg.param_sz stack) r
    insert_into-Leaves stack msg (raised e) = (raised e, refl, tt)
    insert_into-Leaves stack msg (ok none) = (ok none, refl, tt)
    insert_into-Leaves stack msg (ok (some lay)) =
        elim (Bool-cases (leb msg.param_sz max_net_msg)) [
          | inr large ↦ (raised undefined, rw large, tt)
          | inl fits ↦
              let e : msg.param_sz + 1 ≡ suc msg.param_sz = omega arith in
              rw (fits, e)
                (insert_loop-Leaves msg.param_sz msg lay.header 0 (cleaned msg.param_sz stack) 0
                  (omega arith))
        ]
