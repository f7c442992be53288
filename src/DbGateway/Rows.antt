-- ===== src/DbGateway/Rows.antt =====
-- projects/dbgateway/db_gateway.cpp, from MySQL to Redis.
use qclib.Base.{
  ℕ, ◌+◌, Bool, true, false, List, [], ◌∷◌, ◌++◌, Option, none, some, ◌>>=◌, ◌==◌, length,
  get_elem?, map, replicate, if◌then◌else◌,
}
use qclib.Names.{Name, Dict, find, assign}
use qclib.Redis.{KeyValue, Hiredis}
use qclib.Redis.Cache.{NoSqlDbCache, set_data_cache, add_set_cache}
use qclib.DbGateway.{
  TableObjectMap, ConfigIndexMap, bytes, get_obj_field_name, get_table_object_map_by_tblname,
  is_empty,
}
use qclib.DbGateway.Sql.{
  SqlDb, Gateway, FieldType, interger, floats, strings, binary, FieldFlag, noflag, primary,
  binary_flag, primary_binary, FieldInfo,
}
pub mod Bound
pub mod Saved
pub mod Back

-- The results of the functions: `ERR_DBGW_D2R_OK` and the others.
pub data Result : Type 0 where
  d2r_ok preproc_continue db_logic rd_map_cfg : Result

-- The names of the objects' fields, or `rd_map_cfg` at a column that none belongs to.
unfoldable pub obj_fields : TableObjectMap → List FieldInfo → List Name → Result × List Name
obj_fields m [] names = (preproc_continue, names)
obj_fields m (f ∷ fs) names =
    let value = get_obj_field_name m f.field_name in
    let rest = obj_fields m fs (names ++ value ∷ []) in
    if is_empty value then (rd_map_cfg, names) else rest

-- `Preprocess`; it throws, `none`, where the configuration has no table at an index.
unfoldable pub preprocess :
    ConfigIndexMap → Name → List (List Name) → List FieldInfo → Option (Result × List Name)
unfolding obj_fields
preprocess config tblname [] infos = some (d2r_ok, [])
preprocess config tblname (row ∷ rows) infos =
    if length row == length infos
    then (get_table_object_map_by_tblname config tblname >>= λ found.
        some (elim found [ none ↦ (rd_map_cfg, []) | some m ↦ obj_fields m infos [] ]))
    else some (db_logic, [])

-- What one row has come to: the key, the fields of `set_value` that have been set, `binditems.key`, and
-- the values of the bound fields.
pub record RowState : Type 0 where
  pub set_table_key : Name
  pub set_value : List KeyValue
  pub bind_key : Name
  pub bind_items : Dict Name

abbrev pub is_binary : FieldFlag → Bool
is_binary noflag = false
is_binary primary = false
is_binary binary_flag = true
is_binary primary_binary = true

-- `field_flag == FIELD_FLAG_PRIMARY`
abbrev pub is_primary : FieldFlag → Bool
is_primary noflag = false
is_primary primary = true
is_primary binary_flag = false
is_primary primary_binary = false

-- The value that a column is saved as.
abbrev pub column_value : FieldType → FieldFlag → Name → Name
column_value interger flag value = value
column_value floats flag value = value
column_value strings flag value = if is_binary flag then bytes "default_bin_data" else value
column_value binary flag value = if is_binary flag then bytes "default_bin_data" else value

-- One column of a row.
unfoldable pub row_column : TableObjectMap → Name → FieldInfo → Name → RowState → RowState
row_column m name f value s =
    let v = column_value f.field_type f.field_flag value in
    record {
      set_value = s.set_value ++ record { redis_field = name; redis_value = v } ∷ [];
      bind_items = elim (find f.field_name m.bind_items) [
        | none ↦ s.bind_items
        | some _ ↦ assign f.field_name v s.bind_items
      ];
      set_table_key = if is_primary f.field_flag then s.set_table_key ++ v else s.set_table_key;
      bind_key = if is_primary f.field_flag then v else s.bind_key;
    }

-- The loop over the columns, with the fields of `set_value` that are left; `at` beyond a list throws.
unfoldable pub row_columns :
    TableObjectMap
    → List Name
    → List FieldInfo
    → List Name
    → List KeyValue
    → RowState
    → Option RowState
unfolding row_column
row_columns m [] infos row left s = some (record s { set_value = s.set_value ++ left })
row_columns m (name ∷ names) [] row left s = none
row_columns m (name ∷ names) (f ∷ fs) [] left s = none
row_columns m (name ∷ names) (f ∷ fs) (value ∷ values) [] s = none
row_columns m (name ∷ names) (f ∷ fs) (value ∷ values) (kv ∷ left) s =
    row_columns m names fs values left (row_column m name f value s)

module _ (H : Hiredis) where
  -- `SetBindItemsToNosql`
  unfoldable pub set_bind_items_to_nosql :
      Name → Name → Name → Dict Name → NoSqlDbCache H → Option (NoSqlDbCache H)
  unfolding add_set_cache
  set_bind_items_to_nosql key objname sep [] nosql = some nosql
  set_bind_items_to_nosql key objname sep ((field, value) ∷ items) nosql =
      add_set_cache H (some (objname ++ (sep ++ (field ++ (sep ++ value))))) (key ∷ []) nosql
      >>= λ (done, nosql'). set_bind_items_to_nosql key objname sep items nosql'

  -- `MysqlRowDataToNosql`, with `set_value` as it was after the row before. A table that has no map is a
  -- pointer that is NULL, `none`.
  unfoldable pub mysql_row_data_to_nosql :
      ConfigIndexMap
      → Name
      → List Name
      → List Name
      → List FieldInfo
      → List KeyValue
      → NoSqlDbCache H
      → Option (Result × List KeyValue × NoSqlDbCache H)
  unfolding row_columns set_bind_items_to_nosql set_data_cache
  mysql_row_data_to_nosql config tblname row names infos set_value nosql =
      if length row == length names
      then (get_table_object_map_by_tblname config tblname >>= λ found. found >>= λ m.
          row_columns m names infos row set_value (record {
            set_table_key = m.object_name ++ m.key_separator;
            set_value = [];
            bind_key = [];
            bind_items = [];
          })
          >>= λ s.
              set_bind_items_to_nosql s.bind_key m.object_name m.key_separator s.bind_items nosql
              >>= λ bound. set_data_cache H s.set_table_key s.set_value bound >>= λ (done, nosql').
                  some (d2r_ok, s.set_value, nosql'))
      else some (db_logic, set_value, nosql)

  -- The rows of a table, one after the other; what a row answers is not looked at.
  unfoldable pub rows_to_nosql :
      ConfigIndexMap
      → Name
      → List (List Name)
      → List Name
      → List FieldInfo
      → List KeyValue
      → NoSqlDbCache H
      → Option (NoSqlDbCache H)
  unfolding mysql_row_data_to_nosql
  rows_to_nosql config tblname [] names infos set_value nosql = some nosql
  rows_to_nosql config tblname (row ∷ rows) names infos set_value nosql =
      mysql_row_data_to_nosql config tblname row names infos set_value nosql
      >>= λ (result, set_value', nosql').
          rows_to_nosql config tblname rows names infos set_value' nosql'

  abbrev pub blank_values : List Name → List KeyValue
  blank_values [] = []
  blank_values (name ∷ names) = record { redis_field = []; redis_value = [] } ∷ blank_values names

  abbrev pub select_all : Name → Name
  select_all tblname = bytes "select * from " ++ (tblname ++ bytes ";")

  -- The rows and columns that `GetDataFromDb` leaves behind, none on an error.
  abbrev pub rows_or_none :
      Option (List (List Name) × List FieldInfo) → List (List Name) × List FieldInfo
  rows_or_none none = ([], [])
  rows_or_none (some r) = r

  module _ (S : SqlDb) where
    -- `MysqlToNoSql`
    unfoldable pub mysql_to_nosql : Name → Gateway H S → Option (Result × Gateway H S)
    unfolding preprocess rows_to_nosql
    mysql_to_nosql tblname g =
        let (rows, infos) = rows_or_none (S.get_data_from_db g.db (select_all tblname)) in
        preprocess g.config tblname rows infos >>= λ (result, names). elim result [
          | preproc_continue ↦
              rows_to_nosql g.config tblname rows names infos (blank_values names) g.nosql
              >>= λ nosql. some (d2r_ok, record g { nosql = nosql })
          | d2r_ok ↦ some (d2r_ok, g)
          | db_logic ↦ some (db_logic, g)
          | rd_map_cfg ↦ some (rd_map_cfg, g)
        ]

    -- The loop of `MysqlToRedis` over the tables, which looks at no result.
    unfoldable pub mysql_tables : List TableObjectMap → Gateway H S → Option (Gateway H S)
    unfolding mysql_to_nosql
    mysql_tables [] g = some g
    mysql_tables (obj ∷ objs) g =
        mysql_to_nosql obj.table_name g >>= λ (result, g'). mysql_tables objs g'

    abbrev pub mysql_to_redis : Gateway H S → Option (Gateway H S)
    mysql_to_redis g = mysql_tables g.config.configs g
