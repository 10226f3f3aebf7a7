-- ===== src/MemDb/Flow/Select.antt =====
-- mem_db/server/flow/src/flow_manager.cpp: `handle_select`, from the message to the objects that it
-- shows. The file calls the constructor of a comparison without the header, and `findEntry` with one
-- argument too many; they are called here as layouts.h has them.
pub mod Nothing
use lab.Prelude.{ℕ, ◌+◌, List, [], ◌∷◌, Option, none, some, Bytes}
use lab.MemDb.Outcome.{Outcome, ok, raised, ◌>>=◌}
use lab.MemDb.Layouts.Header.{comparable}
use lab.MemDb.Layouts.ArrayLayout.{ArrayLayout, ResultBuff, find_entry}
use lab.MemDb.Flow.{NetworkMsg, TblNm2DataBuff, find_layout, read_params}

-- What is returned: -1, -2, or 0 with the objects that are shown.
pub data Selected : Type 0 where
  no_such_obj : Selected
  no_obj_selected : Selected
  shown : ℕ × Bytes → ResultBuff → Selected

abbrev pub selected : ResultBuff → Selected
selected [] = no_obj_selected
selected (obj ∷ objs) = shown obj objs

module _ (over : ℕ → ℕ) where
  abbrev pub select_matching : ArrayLayout → List (Bytes × ℕ) → Outcome Selected
  select_matching lay pairs = do
    comp ← comparable pairs lay.header
    res ← find_entry over lay comp
    ok (selected res)

  abbrev pub select_from :
      ArrayLayout → Option (Outcome (Option (List (Bytes × ℕ)))) → Option (Outcome Selected)
  select_from lay none = none
  select_from lay (some (raised e)) = some (raised e)
  select_from lay (some (ok none)) = some (ok no_such_obj)
  select_from lay (some (ok (some pairs))) = some (select_matching lay pairs)

  abbrev pub select_in : NetworkMsg → Outcome (Option ArrayLayout) → Option (Outcome Selected)
  select_in msg (raised e) = some (raised e)
  select_in msg (ok none) = some (ok no_such_obj)
  select_in msg (ok (some lay)) = select_from lay (read_params (msg.param_sz + 1) msg 0 0)

  unfoldable pub handle_select : TblNm2DataBuff ArrayLayout → NetworkMsg → Option (Outcome Selected)
  handle_select t msg = select_in msg (find_layout t msg)
