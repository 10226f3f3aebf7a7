-- ===== src/MemDb/Flow/Server/Emptiness.antt =====
-- What the handlers make of tables without rows.
use lab.Prelude.{
  ℕ, zero, suc, ◌+◌, ◌≡◌, refl, List, [], ◌∷◌, Option, none, some, Bytes, All, set, length, take,
  ◌%◌, ◌^◌, ◌-◌, arith, ltb, Bool-cases, inl, inr, ◌==◌,
}
use lab.MemDb.Outcome.{Outcome, ok, raised, assert, Holds, Holds-bind, Holds-any, at}
use lab.MemDb.Stack
use lab.MemDb.Stack.{put, max_obj_num}
use lab.MemDb.BitMap
use lab.MemDb.BitMap.{u32_mod}
use lab.MemDb.Layouts.Header.{ColumnDef, LayoutHeader, max_col_num}
use lab.MemDb.Layouts.ArrayLayout.{ArrayLayout, construct, push_slots, copy_columns}
use lab.MemDb.Flow.{NetworkMsg, TblNm2DataBuff, find_layout, find_tb_idx, to_u16}
use lab.MemDb.Flow.Termination.{read_params-Ends}
use lab.MemDb.Flow.Create.{Column}
use lab.MemDb.Flow.Create.Termination.{read_columns-Ends}
use lab.MemDb.Flow.Registry.{
  handle_create, create_from, register, table_name, header_of, init_registry,
}
use lab.MemDb.Flow.Select.{
  Selected, no_such_obj, no_obj_selected, shown, select_matching, select_from, select_in,
  handle_select,
}
use lab.MemDb.Flow.Select.Nothing.{select_matching-empty}
use lab.MemDb.Flow.Server.{Answer, created, inserted, updated, answered, ignored}

abbrev pub IsEmpty : ArrayLayout → Type 0
IsEmpty l = l.bit_map.bits ≡ 0

-- No table that the registry can lead to has a row: those beyond the ones registered included.
abbrev pub AllEmpty : TblNm2DataBuff ArrayLayout → Type 0
AllEmpty t = All IsEmpty t.data_at

-- Nothing is shown.
abbrev pub ShowsNothing : Answer → Type 0
ShowsNothing (answered (shown obj objs)) = ⊥
ShowsNothing (answered no_such_obj) = Unit
ShowsNothing (answered no_obj_selected) = Unit
ShowsNothing (created done) = Unit
ShowsNothing (inserted buff) = Unit
ShowsNothing updated = Unit
ShowsNothing ignored = Unit

-- The call ends, and this holds of what it returns.
abbrev pub EndsWith : {A : Type 0} → (A → Type 0) → Option (Outcome A) → Type 0
EndsWith P none = ⊥
EndsWith P (some r) = Holds P r

at-All : {A : Type 0} (P : A → Type 0) (xs : List A) (i : ℕ) → All P xs → Holds P (at xs i)
at-All P [] i h = tt
at-All P (x ∷ xs) zero h = h.0
at-All P (x ∷ xs) (suc i) h = at-All P xs i h.1

set-All :
    {A : Type 0} (P : A → Type 0) (xs : List A) (i : ℕ) (a : A)
    → All P xs
    → P a
    → All P (set xs i a)
set-All P [] i a h p = tt
set-All P (x ∷ xs) zero a h p = (p, h.1)
set-All P (x ∷ xs) (suc i) a h p = (h.0, set-All P xs i a h.1 p)

put-All :
    {A : Type 0} (P : A → Type 0) (xs : List A) (i : ℕ) (a : A)
    → All P xs
    → P a
    → Holds (All P) (put xs i a)
put-All P xs i a h p = elim (Bool-cases (ltb i (length xs))) [
  | inl inside ↦ rw inside (set-All P xs i a h p)
  | inr beyond ↦ rw beyond tt
]

FoundEmpty : Option ArrayLayout → Type 0
FoundEmpty none = Unit
FoundEmpty (some l) = IsEmpty l

find_layout-FoundEmpty :
    (t : TblNm2DataBuff ArrayLayout) (msg : NetworkMsg)
    → AllEmpty t
    → Holds FoundEmpty (find_layout t msg)
unfolding find_layout FoundEmpty
find_layout-FoundEmpty t msg h =
    Holds-any FoundEmpty (find_tb_idx t (take (msg.lay_nm_sz % 2 ^ 16) msg.buff)) _ λ r.
      elim (Bool-cases (to_u16 r == u32_mod - 1)) [
        | inl yes_so ↦ rw yes_so tt
        | inr not_so ↦ rw not_so (
            Holds-bind IsEmpty FoundEmpty (at t.data_at (to_u16 r)) _
              (at-All IsEmpty t.data_at (to_u16 r) h) λ l e. e)
      ]

construct-IsEmpty : (h : LayoutHeader) (chunk : ArrayLayout) → Holds IsEmpty (construct h chunk)
unfolding construct BitMap.init
construct-IsEmpty h chunk = Holds-any IsEmpty (assert (ltb h.sz max_col_num)) _ λ u.
    Holds-any IsEmpty (Stack.init chunk.stack max_obj_num) _ λ s.
      Holds-any IsEmpty (push_slots max_obj_num 0 s) _ λ s'.
        Holds-any IsEmpty (assert (Stack.get_capacity s' == Stack.get_sz s')) _ λ u'.
          Holds-any IsEmpty (copy_columns h.sz 0 h.columns chunk.header.columns) _ λ columns. refl

register-AllEmpty :
    (t : TblNm2DataBuff ArrayLayout) (msg : NetworkMsg) (lay : ArrayLayout)
    → AllEmpty t
    → IsEmpty lay
    → Holds AllEmpty (register t msg lay)
unfolding register
register-AllEmpty t msg lay h e = Holds-any AllEmpty (table_name msg) _ λ name.
    Holds-any AllEmpty (put t.tb_nm t.indx name) _ λ names.
      Holds-bind (All IsEmpty) AllEmpty (put t.data_at t.indx lay) _
        (put-All IsEmpty t.data_at t.indx lay h e) λ tables all. all

create_from-AllEmpty :
    (made : TblNm2DataBuff ArrayLayout) (stack : List ColumnDef) (chunk : ArrayLayout)
    (msg : NetworkMsg) (r : Outcome (Option (List Column)))
    → AllEmpty made
    → EndsWith (λ a. AllEmpty a.1) (create_from made stack chunk msg (some r))
create_from-AllEmpty made stack chunk msg (raised e) h = tt
create_from-AllEmpty made stack chunk msg (ok none) h = h
create_from-AllEmpty made stack chunk msg (ok (some columns)) h =
    Holds-bind IsEmpty (λ a. AllEmpty a.1) (construct (header_of stack columns) chunk) _
      (construct-IsEmpty (header_of stack columns) chunk)
      λ lay e.
        Holds-bind AllEmpty (λ a. AllEmpty a.1) (register made msg lay) _
          (register-AllEmpty made msg lay h e) λ t all. all

pub handle_create-AllEmpty :
    (long_sz : ℕ) (fresh : TblNm2DataBuff ArrayLayout) (stack : List ColumnDef)
    (chunk : ArrayLayout) (msg : NetworkMsg)
    → AllEmpty fresh
    → EndsWith (λ a. AllEmpty a.1) (handle_create long_sz fresh stack chunk msg)
unfolding handle_create
handle_create-AllEmpty long_sz fresh stack chunk msg h =
    let (r, ends) = read_columns-Ends long_sz msg.param_sz msg 0 0 (omega arith) in
    let e : msg.param_sz + 1 ≡ suc msg.param_sz = omega arith in
    rw (e, ends) (create_from-AllEmpty (init_registry fresh) stack chunk msg r h)

abbrev pub NotShown : Selected → Type 0
NotShown s = ShowsNothing (answered s)

module _ (over : ℕ → ℕ) where
  select_from-NotShown :
      (lay : ArrayLayout) (r : Outcome (Option (List (Bytes × ℕ))))
      → IsEmpty lay
      → EndsWith NotShown (select_from over lay (some r))
  select_from-NotShown lay (raised e) h = tt
  select_from-NotShown lay (ok none) h = tt
  select_from-NotShown lay (ok (some pairs)) h =
      weaken (select_matching over lay pairs) (select_matching-empty over lay h pairs)
    where
      weaken : (o : Outcome Selected) → Holds (λ s. s ≡ no_obj_selected) o → Holds NotShown o
      weaken (raised e) k = tt
      weaken (ok s) k = rw k tt

  select_in-NotShown :
      (msg : NetworkMsg) (o : Outcome (Option ArrayLayout))
      → Holds FoundEmpty o
      → EndsWith NotShown (select_in over msg o)
  unfolding FoundEmpty
  select_in-NotShown msg (raised e) h = tt
  select_in-NotShown msg (ok none) h = tt
  select_in-NotShown msg (ok (some lay)) h =
      let (r, ends) = read_params-Ends msg.param_sz msg 0 0 (omega arith) in
      let e : msg.param_sz + 1 ≡ suc msg.param_sz = omega arith in
      rw (e, ends) (select_from-NotShown lay r h)

  pub handle_select-NotShown :
      (t : TblNm2DataBuff ArrayLayout) (msg : NetworkMsg)
      → AllEmpty t
      → EndsWith NotShown (handle_select over t msg)
  unfolding handle_select
  handle_select-NotShown t msg h =
      select_in-NotShown msg (find_layout t msg) (find_layout-FoundEmpty t msg h)
