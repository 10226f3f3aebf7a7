-- ===== src/MemDb/Flow/Server/Runs.antt =====
-- Runs of the flow manager: it never has a table with a row in it.
use lab.Prelude.{ℕ, List, [], ◌∷◌, Option, none, some, Bytes, Bool, All}
use lab.MemDb.Outcome.{Outcome, ok, raised, Holds}
use lab.MemDb.Layouts.ArrayLayout.{ArrayLayout}
use lab.MemDb.Flow.{NetworkMsg, QueryTyp, cr, inst, upd, sel, other, TblNm2DataBuff}
use lab.MemDb.Flow.Insert.{handle_insert}
use lab.MemDb.Flow.Insert.Buffer.{handle_insert-Leaves}
use lab.MemDb.Flow.Registry.{handle_create}
use lab.MemDb.Flow.Select.{handle_select}
use lab.MemDb.Flow.Server.{
  FlowMngr, Memory, Answer, inserted, answered, serve_typ, serve, run, reply, reply_created,
  through, add_answer,
}
use lab.MemDb.Flow.Server.Emptiness.{
  AllEmpty, NotShown, ShowsNothing, EndsWith, handle_create-AllEmpty, handle_select-NotShown,
}

-- The registry in use leads to no row.
abbrev pub MngrEmpty : Option (TblNm2DataBuff ArrayLayout) → Type 0
MngrEmpty none = Unit
MngrEmpty (some t) = AllEmpty t

-- A message was answered, nothing was shown, and the manager leads to no row.
abbrev pub Quiet : Answer × FlowMngr → Type 0
Quiet (a, m) = ShowsNothing a × MngrEmpty m.m_tb_nm2_arr_lay

reply_created-Quiet :
    (r : Option (Outcome (Bool × TblNm2DataBuff ArrayLayout)))
    → EndsWith (λ a. AllEmpty a.1) r
    → EndsWith Quiet (reply_created r)
reply_created-Quiet none h = h
reply_created-Quiet (some (raised e)) h = tt
reply_created-Quiet (some (ok (done, t))) h = (tt, h)

reply-Quiet :
    {A : Type 0} (f : A → Answer) (m : FlowMngr) (r : Option (Outcome A))
    → MngrEmpty m.m_tb_nm2_arr_lay
    → EndsWith (λ a. ShowsNothing (f a)) r
    → EndsWith Quiet (reply f m r)
reply-Quiet f m none e h = h
reply-Quiet f m (some (raised x)) e h = tt
reply-Quiet f m (some (ok a)) e h = (h, e)

through-Quiet :
    {A : Type 0} (P : A → Type 0) (p : Option (TblNm2DataBuff ArrayLayout))
    (f : TblNm2DataBuff ArrayLayout → Option (Outcome A))
    → MngrEmpty p
    → ((t : TblNm2DataBuff ArrayLayout) → AllEmpty t → EndsWith P (f t))
    → EndsWith P (through p f)
through-Quiet P none f e h = tt
through-Quiet P (some t) f e h = h t e

handle_insert-Quiet :
    (stack : Bytes) (t : TblNm2DataBuff ArrayLayout) (msg : NetworkMsg)
    → EndsWith (λ a. ShowsNothing (inserted a)) (handle_insert stack t msg)
handle_insert-Quiet stack t msg =
    let (r, ends, leaves) = handle_insert-Leaves stack t msg in rw ends (any r)
  where
    any : (r : Outcome (Option Bytes)) → Holds (λ a. ShowsNothing (inserted a)) r
    any (ok a) = tt
    any (raised e) = tt

abbrev pub AllQuiet : List Answer × FlowMngr → Type 0
AllQuiet (answers, m) = All ShowsNothing answers × MngrEmpty m.m_tb_nm2_arr_lay

add_answer-Quiet :
    (a : Answer) (r : Option (Outcome (List Answer × FlowMngr)))
    → ShowsNothing a
    → EndsWith AllQuiet r
    → EndsWith AllQuiet (add_answer a r)
add_answer-Quiet a none h k = k
add_answer-Quiet a (some (raised e)) h k = tt
add_answer-Quiet a (some (ok (answers, m))) h k = ((h, k.0), k.1)

module _ (over : ℕ → ℕ) (long_sz : ℕ) where
  serve_typ-Quiet :
      (typ : QueryTyp) (m : FlowMngr) (mem : Memory) (msg : NetworkMsg)
      → MngrEmpty m.m_tb_nm2_arr_lay
      → AllEmpty mem.fresh
      → EndsWith Quiet (serve_typ over long_sz typ m mem msg)
  serve_typ-Quiet cr m mem msg e h =
      reply_created-Quiet (handle_create long_sz mem.fresh mem.columns mem.chunk msg)
        (handle_create-AllEmpty long_sz mem.fresh mem.columns mem.chunk msg h)
  serve_typ-Quiet inst m mem msg e h =
      reply-Quiet inserted m (through m.m_tb_nm2_arr_lay (λ t. handle_insert mem.stack t msg)) e (
        through-Quiet (λ a. ShowsNothing (inserted a)) m.m_tb_nm2_arr_lay
          (λ t. handle_insert mem.stack t msg) e λ t all. handle_insert-Quiet mem.stack t msg)
  serve_typ-Quiet upd m mem msg e h = (tt, e)
  serve_typ-Quiet sel m mem msg e h =
      reply-Quiet answered m (through m.m_tb_nm2_arr_lay (λ t. handle_select over t msg)) e (
        through-Quiet NotShown m.m_tb_nm2_arr_lay (λ t. handle_select over t msg) e
          λ t all. handle_select-NotShown over t msg all)
  serve_typ-Quiet (other n) m mem msg e h = (tt, e)

  -- The manager serves every sequence of messages to its end, or faults, and no message in it is
  -- answered by an object: whatever was created and inserted before, a select shows nothing. What the
  -- memory of a new registry holds by chance leads to no table with rows.
  pub run-AllQuiet :
      (rounds : List (Memory × NetworkMsg)) (m : FlowMngr)
      → MngrEmpty m.m_tb_nm2_arr_lay
      → All (λ r. AllEmpty r.0.fresh) rounds
      → EndsWith AllQuiet (run over long_sz rounds m)
  unfolding run serve
  run-AllQuiet [] m e h = (tt, e)
  run-AllQuiet ((mem, msg) ∷ rest) m e h =
      next (serve_typ over long_sz msg.q_typ m mem msg) (serve_typ-Quiet msg.q_typ m mem msg e h.0)
        λ m' e'. run-AllQuiet rest m' e' h.1
    where
      next :
          (r : Option (Outcome (Answer × FlowMngr)))
          → EndsWith Quiet r
          → ((m' : FlowMngr)
              → MngrEmpty m'.m_tb_nm2_arr_lay
              → EndsWith AllQuiet (run over long_sz rest m'))
          → EndsWith AllQuiet (elim r [
            | none ↦ none
            | some (raised e) ↦ some (raised e)
            | some (ok (a, m')) ↦ add_answer a (run over long_sz rest m')
          ])
      next none q k = q
      next (some (raised e)) q k = tt
      next (some (ok (a, m'))) q k = add_answer-Quiet a (run over long_sz rest m') q.0 (k m' q.1)
