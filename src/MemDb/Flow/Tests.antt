-- ===== src/MemDb/Flow/Tests.antt =====
-- A message with two parameters for the table `users`, and the theorems at its data.
use lab.Prelude.{
  ℕ, zero, suc, ◌+◌, true, ◌≡◌, ◌≤◌, ◌<◌, ◌^◌, refl, ◌++◌, List, [], ◌∷◌, Option, none, some, Bytes,
  length, codes, arith,
}
use lab.MemDb.Outcome.{Outcome, ok, raised}
use lab.MemDb.Flow.{
  cr, sel, inst, NetworkMsg, TblNm2DataBuff, find_tb_idx, find_layout, read_params,
}
use lab.MemDb.Flow.Params.{IsPair, params_bytes, read_params-written}
use lab.MemDb.Flow.Create.{Column, ColTyp, int, long, read_columns, get_typ_sz_by_str}
use lab.MemDb.Stack
use lab.MemDb.BitMap
use lab.MemDb.Layouts.Header.{ColumnDef, comparable, get_def_by_name}
use lab.MemDb.Flow.Create.Columns.{columns_bytes, read_columns-written}
use lab.MemDb.Layouts.Memory.{read, write}
use lab.MemDb.Layouts.ArrayLayout.{ArrayLayout, construct, find_entry}
use lab.MemDb.Layouts.ArrayLayout.Construct.{construct-IsValid}
use lab.MemDb.Flow.Registry.{header_of, register, handle_create}
use lab.MemDb.Flow.Select.{no_obj_selected, handle_select}
use lab.MemDb.Flow.Server.{FlowMngr, Memory, Answer, created, inserted, answered, serve, run}
use lab.MemDb.Flow.Server.Emptiness.{EndsWith, AllEmpty}
use lab.MemDb.Flow.Server.Runs.{AllQuiet, run-AllQuiet}
use lab.MemDb.Flow.Registry.Lookup.{handle_create-found}
use lab.MemDb.Flow.Insert.{zeros, cleaned, insert_loop, handle_insert}
use lab.MemDb.Flow.Insert.Buffer.{Leaves, handle_insert-Leaves}

abbrev params : List (Bytes × ℕ)
params = (codes "id", 7) ∷ (codes "age", 300) ∷ []

abbrev message : NetworkMsg
message = record {
  buff = codes "users" ++ (params_bytes params ++ 9 ∷ 9 ∷ []);
  lay_nm_sz = 5;
  param_sz = 29;
  q_typ = sel;
}

read_params-written_example : read_params 3 message 0 0 ≡ some (ok (some params))
read_params-written_example =
    read_params-written (codes "users") (9 ∷ 9 ∷ []) params 3
      (
        pair (omega arith) (omega arith) (omega arith),
        (pair (omega arith) (omega arith) (omega arith), tt),
      )
      (omega arith) (omega arith)
  where
    pair :
        {name : Bytes} {v : ℕ}
        → 1 ≤ length name
        → length name ≤ 1024
        → v < 256 ^ 8
        → IsPair (name, v)
    pair a b c = record { named = a; fits = b; narrow = c }

-- One table, which is not the one that is asked for.
abbrev orders : TblNm2DataBuff ℕ
orders = record { tb_nm = codes "orders" ∷ [] ∷ []; data_at = 1 ∷ 0 ∷ []; indx = 1 }

no_users : find_tb_idx orders (codes "users") ≡ ok none
unfolding find_tb_idx
no_users = refl

abbrev new_columns : List (Bytes × ColTyp)
new_columns = (codes "id", int) ∷ (codes "size", long) ∷ []

read_columns-written_example :
    read_columns 8 3
      (record {
        buff = codes "users" ++ (columns_bytes new_columns ++ []);
        lay_nm_sz = 5;
        param_sz = length (columns_bytes new_columns);
        q_typ = cr;
      })
      0
      0
    ≡ some (
        ok (
          some (
            record { name = codes "id"; typsz = 4; typ = int }
            ∷ record { name = codes "size"; typsz = 8; typ = long }
            ∷ [])))
read_columns-written_example =
    read_columns-written 8 (codes "users") [] new_columns 3
      (
        record { named = omega arith; fits = omega arith },
        (record { named = omega arith; fits = omega arith }, tt),
      )
      (omega arith) (omega arith)

-- A table whose column is the one that the message names.
abbrev id_column : ArrayLayout
id_column = record {
  stack = record { sz = 32; capacity = 32; pstack = [] };
  bit_map = record { bits = 0 };
  header = record { sz = 1; columns = record { name = codes "id"; loc = 0; typsz = 4 } ∷ [] };
  rows = [];
  tot_typ_sz = 4;
}

abbrev users : TblNm2DataBuff ArrayLayout
users = record { tb_nm = codes "users" ∷ [] ∷ []; data_at = id_column ∷ []; indx = 1 }

abbrev insert_id : NetworkMsg
insert_id = record {
  buff = codes "users" ++ (2 ∷ 0 ∷ 0 ∷ 0 ∷ codes "id" ++ (7 ∷ 0 ∷ 0 ∷ 0 ∷ []));
  lay_nm_sz = 5;
  param_sz = 10;
  q_typ = inst;
}

handle_insert-Leaves_example :
    (r : Outcome (Option Bytes)) × (handle_insert (zeros 16) users insert_id ≡ some r)
    × Leaves (cleaned 10 (zeros 16)) r
handle_insert-Leaves_example = handle_insert-Leaves (zeros 16) users insert_id

-- The column is found, its value is copied, and the answer is -1.
insert_refused : handle_insert (zeros 16) users insert_id ≡ some (ok none)
unfolding handle_insert find_layout find_tb_idx insert_loop read write
insert_refused = refl

abbrev fill {ℓ} : {A : Type ℓ} → ℕ → A → List A
fill zero x = []
fill (suc n) x = x ∷ fill n x

-- What the allocator gives for a table: memory with any contents.
abbrev chunk : ArrayLayout
chunk = record {
  stack = record { sz = 77; capacity = 77; pstack = fill 32 77 };
  bit_map = record { bits = 77 };
  header = record { sz = 77; columns = fill 20 (record { name = []; loc = 0; typsz = 0 }) };
  rows = fill 400 77;
  tot_typ_sz = 0;
}

abbrev create_users : NetworkMsg
create_users = record {
  buff = codes "users" ++ (columns_bytes new_columns ++ []);
  lay_nm_sz = 5;
  param_sz = length (columns_bytes new_columns);
  q_typ = cr;
}

abbrev columns : List Column
columns =
    record { name = codes "id"; typsz = 4; typ = int }
    ∷ record { name = codes "size"; typsz = 8; typ = long }
    ∷ []

columns_read :
    read_columns 8 (create_users.param_sz + 1) create_users 0 0 ≡ some (ok (some columns))
columns_read =
    read_columns-written 8 (codes "users") [] new_columns (create_users.param_sz + 1)
      (
        record { named = omega arith; fits = omega arith },
        (record { named = omega arith; fits = omega arith }, tt),
      )
      (omega arith) (omega arith)

-- What the stack held of the header's columns.
abbrev header_stack : List ColumnDef
header_stack =
    record { name = []; loc = 7; typsz = 7 }
    ∷ record { name = []; loc = 9; typsz = 9 }
    ∷ record { name = []; loc = 5; typsz = 5 }
    ∷ []

-- The table's layout, with the columns of the message.
abbrev built : (l : ArrayLayout) × (construct (header_of header_stack columns) chunk ≡ ok l)
built =
    let (l, made, valid, slots, bits, size, names) =
      construct-IsValid (header_of header_stack columns) chunk (omega arith) (omega arith)
        (omega arith) (omega arith) (omega arith) in
    (l, made)

-- Another table stands in the registry before.
handle_create-found_example :
    (t : TblNm2DataBuff ArrayLayout) × (handle_create 8
        (record { tb_nm = codes "orders" ∷ []; data_at = id_column ∷ []; indx = 1 })
        header_stack
        chunk
        create_users
      ≡ some (ok (true, t)))
    × (find_layout t create_users ≡ ok (some built.0))
    × (t.indx ≡ 1)
handle_create-found_example =
    handle_create-found 8 create_users columns (codes "orders") [] header_stack chunk id_column
      built.0 [] 1 (omega arith) (omega arith) columns_read built.1

-- A table is created, a row is to be inserted, and all rows with the id 7 are to be selected.
abbrev select_id : NetworkMsg
select_id = record {
  buff = codes "users" ++ (params_bytes ((codes "id", 7) ∷ []) ++ []);
  lay_nm_sz = 5;
  param_sz = 14;
  q_typ = sel;
}

abbrev memory : Memory
memory = record {
  fresh = record { tb_nm = [] ∷ [] ∷ []; data_at = chunk_unused ∷ chunk_unused ∷ []; indx = 9 };
  columns = header_stack;
  chunk = chunk;
  stack = zeros 16;
}
  where
    chunk_unused : ArrayLayout
    chunk_unused = record chunk { bit_map = record { bits = 0 } }

abbrev rounds : List (Memory × NetworkMsg)
rounds = (memory, create_users) ∷ (memory, insert_id) ∷ (memory, select_id) ∷ []

abbrev mngr : FlowMngr
mngr = record { m_tb_nm2_arr_lay = none }

run-AllQuiet_example : EndsWith AllQuiet (run (λ k. 0) 8 rounds mngr)
run-AllQuiet_example =
    run-AllQuiet (λ k. 0) 8 rounds mngr tt (none_marked, (none_marked, (none_marked, tt)))
  where
    none_marked : AllEmpty memory.fresh
    none_marked = (refl, (refl, tt))

abbrev answers : Option (Outcome (List Answer × FlowMngr)) → List Answer
answers none = []
answers (some (raised e)) = []
answers (some (ok (as_given, m))) = as_given

create_insert_select :
    answers (run (λ k. 0) 8 rounds mngr)
    ≡ created true ∷ inserted none ∷ answered no_obj_selected ∷ []
unfolding run serve handle_select handle_insert handle_create read_params find_layout find_tb_idx
    insert_loop read write read_columns get_typ_sz_by_str construct Stack.init Stack.push
    Stack.get_capacity Stack.get_sz register comparable get_def_by_name find_entry BitMap.is_on
    BitMap.init BitMap.mask
create_insert_select = refl
