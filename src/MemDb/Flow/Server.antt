-- ===== src/MemDb/Flow/Server.antt =====
-- mem_db/server/flow/src/flow_manager.cpp: `run`, which serves the messages that the network
-- interface receives, until it fails to receive one. The messages are an argument, and so is what
-- the memory holds that each of them is served in.
pub mod Emptiness
pub mod Runs
use lab.Prelude.{ℕ, List, [], ◌∷◌, Option, none, some, Bytes, Bool, true, false}
use lab.MemDb.Outcome.{Outcome, ok, raised, undefined}
use lab.MemDb.Layouts.Header.{ColumnDef}
use lab.MemDb.Layouts.ArrayLayout.{ArrayLayout}
use lab.MemDb.Flow.{NetworkMsg, QueryTyp, cr, inst, upd, sel, other, TblNm2DataBuff}
use lab.MemDb.Flow.Insert.{handle_insert}
use lab.MemDb.Flow.Registry.{handle_create}
use lab.MemDb.Flow.Select.{Selected, handle_select}

-- `m_tbNm2ArrLay`: `none` as the constructor leaves it, which sets nothing.
pub record FlowMngr : Type 0 where
  pub m_tb_nm2_arr_lay : Option (TblNm2DataBuff ArrayLayout)

-- The memory of a new registry, of the columns of a header on the stack, of the chunk of a new table,
-- and of the buffer on the stack.
pub record Memory : Type 0 where
  pub fresh : TblNm2DataBuff ArrayLayout
  pub columns : List ColumnDef
  pub chunk : ArrayLayout
  pub stack : Bytes

-- What a handler did: whether a table was created, what was inserted, what was selected.
pub data Answer : Type 0 where
  created : Bool → Answer
  inserted : Option Bytes → Answer
  updated : Answer
  answered : Selected → Answer
  ignored : Answer

-- A handler that leaves the manager as it is, with its answer.
abbrev pub reply {ℓ} :
    {A : Type ℓ}
    → (A → Answer)
    → FlowMngr
    → Option (Outcome A)
    → Option (Outcome (Answer × FlowMngr))
reply f m none = none
reply f m (some (raised e)) = some (raised e)
reply f m (some (ok a)) = some (ok (f a, m))

abbrev pub reply_created :
    Option (Outcome (Bool × TblNm2DataBuff ArrayLayout)) → Option (Outcome (Answer × FlowMngr))
reply_created none = none
reply_created (some (raised e)) = some (raised e)
reply_created (some (ok (done, t))) = some (ok (created done, record { m_tb_nm2_arr_lay = some t }))

-- A handler that goes through the pointer to the registry.
abbrev pub through {ℓ} :
    {A : Type ℓ}
    → Option (TblNm2DataBuff ArrayLayout)
    → (TblNm2DataBuff ArrayLayout → Option (Outcome A))
    → Option (Outcome A)
through none f = some (raised undefined)
through (some t) f = f t

abbrev pub add_answer :
    Answer → Option (Outcome (List Answer × FlowMngr)) → Option (Outcome (List Answer × FlowMngr))
add_answer a none = none
add_answer a (some (raised e)) = some (raised e)
add_answer a (some (ok (answers, m))) = some (ok (a ∷ answers, m))

module _ (over : ℕ → ℕ) (long_sz : ℕ) where
  -- The `switch`.
  abbrev pub serve_typ :
      QueryTyp → FlowMngr → Memory → NetworkMsg → Option (Outcome (Answer × FlowMngr))
  serve_typ cr m mem msg = reply_created (handle_create long_sz mem.fresh mem.columns mem.chunk msg)
  serve_typ inst m mem msg =
      reply inserted m (through m.m_tb_nm2_arr_lay (λ t. handle_insert mem.stack t msg))
  serve_typ upd m mem msg = some (ok (updated, m))
  serve_typ sel m mem msg =
      reply answered m (through m.m_tb_nm2_arr_lay (λ t. handle_select over t msg))
  serve_typ (other n) m mem msg = some (ok (ignored, m))

  unfoldable pub serve : FlowMngr → Memory → NetworkMsg → Option (Outcome (Answer × FlowMngr))
  serve m mem msg = serve_typ msg.q_typ m mem msg

  -- The loop: what was answered to each message, and the manager at the end.
  unfoldable pub run :
      List (Memory × NetworkMsg) → FlowMngr → Option (Outcome (List Answer × FlowMngr))
  run [] m = some (ok ([], m))
  run ((mem, msg) ∷ rest) m = elim (serve m mem msg) [
    | none ↦ none
    | some (raised e) ↦ some (raised e)
    | some (ok (a, m')) ↦ add_answer a (run rest m')
  ]
