-- ===== src/Task1/OutStream.antt =====
-- `BulkDataOutStreamMngr` of task1/src/DataStreamManager.cpp: the rows of a result are sent in
-- bulks, each a message of its own.
pub mod Rows
pub mod Bulks
use Prim.Native.Nat.{bit_or}
use lab.Prelude.{
  ℕ, zero, suc, ◌+◌, ◌*◌, ltb, if◌then◌else◌, List, [], ◌∷◌, ◌++◌, map, Option, none, some, Bytes,
  length,
}
use lab.Prelude.Result.{Result, ok, raised, ◌>>=◌}
use lab.Task1.Link.{Link, Fault, no_fuel}
use lab.Task1.Package.{send_package, protocol_protobuf, msg_cont}
use lab.Task1.Respond.{
  ColumnMetaData, Column, translate_column_type, ResultSet, Respond, cleared, Codec, status, result,
}

-- `MAX_TRX_BUFFER_SZ`
abbrev pub max_trx_buffer_sz : ℕ
max_trx_buffer_sz = 2 * 0x100000

abbrev pub translate_column : ColumnMetaData → Column
translate_column c = record {
  label = c.label;
  name = c.name;
  typ = translate_column_type c.typ;
  table_name = c.table_name;
}

module _ {Time : Type 0} where
  -- `add_csvrow`
  abbrev pub add_csvrow : Respond Time → Bytes → Respond Time
  add_csvrow m row = record m { csv_rows = m.csv_rows ++ row ∷ [] }

  -- The inner loop: the message, the count of rows and the rows that are left. `total` is
  -- `totalBulkSz`.
  unfoldable pub fill : ℕ → Respond Time → ℕ → List Bytes → (Respond Time × ℕ) × List Bytes
  fill total m count [] = ((m, count), [])
  fill total m count (row ∷ rows) =
      let next = fill (total + length row) (add_csvrow m row) (count + 1) rows in
      if ltb total max_trx_buffer_sz then next else ((m, count), row ∷ rows)

  -- `finalizeStream`
  unfoldable pub finalize_stream : ResultSet Time → Respond Time → ℕ → Respond Time
  finalize_stream rs m sz = record m {
    rows_size = sz;
    query_time = some rs.times;
    columns = m.columns ++ map translate_column rs.meta_data;
  }

  -- The message before the first row.
  abbrev pub first_message : ResultSet Time → Respond Time
  first_message rs = record cleared { type = some result; serialno = 1; rows_count = rs.size }

  -- The message for a query that has no result set.
  abbrev pub no_result : Respond Time
  no_result = record cleared { type = some status; serialno = 1 }

module _ {Time : Type 0} (k : Link) (c : Codec (Respond Time)) where
  open k use {Sock}

  -- `sendBulk`
  unfoldable pub send_bulk : Respond Time → ℕ → Sock → Result Fault Sock
  send_bulk m flags s = send_package k flags (c.serialize m) s

  -- The message is finished where no row is left, and sent.
  abbrev pub send_filled : ResultSet Time → Respond Time → ℕ → List Bytes → Sock → Result Fault Sock
  send_filled rs m count [] s = send_bulk (finalize_stream rs m count) protocol_protobuf s
  send_filled rs m count (row ∷ rows) s = send_bulk m (bit_or msg_cont protocol_protobuf) s

  -- The outer loop, with `rows` for the rows that are left.
  unfoldable pub send_rows :
      ℕ → ResultSet Time → Respond Time → ℕ → List Bytes → Sock → Result Fault Sock
  send_rows fuel rs m count [] s = ok s
  send_rows zero rs m count (row ∷ rows) s = raised no_fuel
  send_rows (suc fuel) rs m count (row ∷ rows) s = do
    let filled = fill 0 m count (row ∷ rows)
    s' ← send_filled rs filled.0.0 filled.0.1 filled.1 s
    send_rows fuel rs cleared filled.0.1 filled.1 s'

  -- What is done with the result of the query, `none` for a null pointer.
  abbrev pub send_result : Option (ResultSet Time) → Sock → Result Fault Sock
  send_result none s = send_bulk no_result protocol_protobuf s
  send_result (some rs) s = send_rows (length rs.rows) rs (first_message rs) 0 rs.rows s

  -- `handleProtoBuffSend`. A fault is an exception that the function catches: it fills in a message
  -- that is not sent.
  unfoldable pub handle_proto_buff_send :
      (Bytes → Result Fault (Option (ResultSet Time))) → Bytes → Sock → Result Fault Sock
  handle_proto_buff_send execute_query query s = do rs ← execute_query query; send_result rs s
