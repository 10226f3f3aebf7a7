-- ===== src/Task1/Respond.antt =====
-- The messages of task1. Their classes are generated from a file that is not in the repository: a
-- message is the fields that the code sets, and its bytes are a parameter.
use lab.Prelude.{ℕ, ◌^◌, ◌<◌, ◌≡◌, Bool, false, List, [], Option, none, some, Bytes, length}

-- `JethroResultSetMetaData::ColumnType_E`, and the types that `Column` has for it.
pub data JethroType : Type 0 where
  bigint binary blob clob char date decimal : JethroType
  double integer real smallint time timestamp varchar : JethroType
  -- a value that is none of the enumerators
  other : JethroType

pub data ColumnType : Type 0 where
  bigint binary blob clob char date decimal : ColumnType
  double integer real smallint time timestamp varchar none_type : ColumnType

unfoldable pub translate_column_type : JethroType → ColumnType
translate_column_type JethroType.bigint = ColumnType.bigint
translate_column_type JethroType.binary = ColumnType.binary
translate_column_type JethroType.blob = ColumnType.blob
translate_column_type JethroType.clob = ColumnType.clob
translate_column_type JethroType.char = ColumnType.char
translate_column_type JethroType.date = ColumnType.date
translate_column_type JethroType.decimal = ColumnType.decimal
translate_column_type JethroType.double = ColumnType.double
translate_column_type JethroType.integer = ColumnType.integer
translate_column_type JethroType.real = ColumnType.real
translate_column_type JethroType.smallint = ColumnType.smallint
translate_column_type JethroType.time = ColumnType.time
translate_column_type JethroType.timestamp = ColumnType.timestamp
translate_column_type JethroType.varchar = ColumnType.varchar
translate_column_type other = none_type

-- A column of the result, as the database describes it and as the message does.
pub record ColumnMetaData : Type 0 where
  pub label : Bytes
  pub name : Bytes
  pub typ : JethroType
  pub table_name : Bytes

pub record Column : Type 0 where
  pub label : Bytes
  pub name : Bytes
  pub typ : ColumnType
  pub table_name : Bytes

-- The result of a query: the rows that `getNextCSVRow` has not given yet, their number at the
-- start, the columns, and the times that the query took.
pub record ResultSet (Time : Type 0) : Type 0 where
  pub rows : List Bytes
  pub size : ℕ
  pub meta_data : List ColumnMetaData
  pub times : Time

pub data RespondType : Type 0 where
  status result : RespondType

-- `type` and `rowscount` may be unset; `failure` is that the status is FAILURE; `rows_size` is the
-- `size` of the row set.
pub record Respond (Time : Type 0) : Type 0 where
  pub type : Option RespondType
  pub serialno : ℕ
  pub rows_count : ℕ
  pub csv_rows : List Bytes
  pub rows_size : ℕ
  pub columns : List Column
  pub query_time : Option Time
  pub failure : Bool
  pub error_message : Bytes

-- A message that is new, or was cleared.
abbrev pub cleared : {Time : Type 0} → Respond Time
cleared = record {
  type = none;
  serialno = 0;
  rows_count = 0;
  csv_rows = [];
  rows_size = 0;
  columns = [];
  query_time = none;
  failure = false;
  error_message = [];
}

-- The request: whether it is a query, whether the query is in SQL, and its text.
pub record Request : Type 0 where
  pub is_query : Bool
  pub is_sql : Bool
  pub sqlquery : Bytes

-- `SerializeToArray` and `ParseFromArray`.
pub record Codec (Message : Type 0) : Type 0 where
  pub serialize : Message → Bytes
  pub parse : Bytes → Option Message

-- The message is read back from its bytes, and their number fits the header of a package.
pub record IsCarried {Message : Type 0} (c : Codec Message) (m : Message) : Type 0 where
  pub parse-serialize : c.parse (c.serialize m) ≡ some m
  pub small : length (c.serialize m) < 2 ^ 32
