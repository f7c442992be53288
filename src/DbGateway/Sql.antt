-- ===== src/DbGateway/Sql.antt =====
-- projects/dbgateway/db_gateway.cpp, from Redis to MySQL. hiredis and MySQL are parameters, records of the
-- calls that are made of them. A call that throws, or an access beyond the end, has no result.
use qclib.Base.{
  ℕ, ◌+◌, Bool, true, false, not, List, [], ◌∷◌, ◌++◌, Option, none, some, ◌>>=◌, ◌==◌, ltb, length,
  drop, get_elem?, if◌then◌else◌,
}
use qclib.Names.{Name, same}
use qclib.Redis.{KeyValue, Hiredis}
use qclib.Redis.Cache.{NoSqlDbCache, get_data_cache_all, get_all_keys}
use qclib.DbGateway.{
  TableObjectMap, ConfigIndexMap, bytes, get_tbl_field_name, get_table_object_map_by_tblname,
  is_empty, strstr,
}
pub mod Text

-- `FieldType` without the values that `FieldTypeMap` does not give, and the four values of
-- `FieldFlagMap`.
pub data FieldType : Type 0 where
  interger floats strings binary : FieldType

pub data FieldFlag : Type 0 where
  noflag primary binary_flag primary_binary : FieldFlag

pub record FieldInfo : Type 0 where
  pub field_name : Name
  pub field_type : FieldType
  pub field_flag : FieldFlag

-- `DBSqlBase`: a statement that changes the tables, and a query, whose answer is `none` on an error.
pub record SqlDb : Type 1 where
  pub State : Type 0
  pub set_data_to_db : State → Name → State
  pub get_data_from_db : State → Name → Option (List (List Name) × List FieldInfo)

-- The fields of an UPDATE, behind what is there; `false` at a field that no column belongs to.
unfoldable pub update_fields : TableObjectMap → List KeyValue → Name → Bool × Name
update_fields m [] sql = (true, sql)
update_fields m (kv ∷ kvs) sql =
    let field = get_tbl_field_name m kv.redis_field in
    let rest =
      update_fields m kvs (sql ++ (field ++ (bytes "='" ++ (kv.redis_value ++ bytes "',")))) in
    if is_empty field then (false, sql) else rest

-- The last byte of a text made a blank, and taken away.
abbrev pub blank_last : Name → Name
blank_last [] = []
blank_last (c ∷ []) = 32 ∷ []
blank_last (c ∷ d ∷ ds) = c ∷ blank_last (d ∷ ds)

abbrev pub erase_last : Name → Name
erase_last [] = []
erase_last (c ∷ []) = []
erase_last (c ∷ d ∷ ds) = c ∷ erase_last (d ∷ ds)

-- `UpdateRowMysql`, with the text that it writes into `sql`.
unfoldable pub update_row_mysql : ConfigIndexMap → Name → List KeyValue → Name → Name → Option Name
unfolding update_fields
update_row_mysql config tblname get_value condition sql =
    get_table_object_map_by_tblname config tblname >>= λ found. elim found [
      | none ↦ some sql
      | some m ↦
          let (whole, text) =
            update_fields m get_value (bytes "update " ++ (tblname ++ bytes " set ")) in
          some (if whole then blank_last text ++ condition else text)
    ]

-- The names and the values of an INSERT.
unfoldable pub insert_fields : TableObjectMap → List KeyValue → Name → Name → Option (Name × Name)
insert_fields m [] names values = some (names, values)
insert_fields m (kv ∷ kvs) names values =
    let field = get_tbl_field_name m kv.redis_field in
    let rest =
      insert_fields m kvs (names ++ (field ++ bytes ","))
        (values ++ (bytes "'" ++ (kv.redis_value ++ bytes "',"))) in
    if is_empty field then none else rest

abbrev no_comma : List KeyValue → Name → Name
no_comma [] text = text
no_comma (kv ∷ kvs) text = erase_last text

-- The whole INSERT, if all fields were found.
unfoldable pub insert_text : List KeyValue → Name → Option (Name × Name) → Name
insert_text get_value sql none = sql
insert_text get_value sql (some (names, values)) =
    bytes "insert into "
    ++ ((no_comma get_value names ++ bytes ")")
        ++ (bytes " " ++ ((no_comma get_value values ++ bytes ")") ++ bytes ";")))

-- `InsertRowToMysql`
unfoldable pub insert_row_to_mysql : ConfigIndexMap → Name → List KeyValue → Name → Option Name
unfolding insert_fields insert_text
insert_row_to_mysql config tblname get_value sql =
    get_table_object_map_by_tblname config tblname >>= λ found. elim found [
      | none ↦ some sql
      | some m ↦ some (
          insert_text get_value sql
            (insert_fields m get_value (tblname ++ bytes "(") (bytes "values(")))
    ]

abbrev pub where_key : Name → Name → Name
where_key keyname tbl_key =
    bytes " where " ++ (keyname ++ (bytes " = '" ++ (tbl_key ++ bytes "';")))

abbrev pub select_count : Name → Name → Name
select_count tblname condition = bytes "select count(*) from " ++ (tblname ++ condition)

-- What stands behind the first ':' of a key, if anything does.
abbrev pub table_key : Name → Option Name
table_key rediskey = elim (strstr rediskey (bytes ":")) [
  | none ↦ none
  | some (before, at) ↦ elim (drop 1 at) [ [] ↦ none | c ∷ cs ↦ some (c ∷ cs) ]
]

-- `resultset.at(0).at(0)`
abbrev pub first_value : List (List Name) → Option Name
first_value rows = get_elem? rows 0 >>= λ row. get_elem? row 0

module _ (H : Hiredis) (S : SqlDb) where
  pub record Gateway : Type 0 where
    pub config : ConfigIndexMap
    pub db : S.State
    pub nosql : NoSqlDbCache H

  -- `ValuesToMysql`
  unfoldable pub values_to_mysql : Name → Name → Name → List KeyValue → Name → Gateway → Option Name
  unfolding update_row_mysql insert_row_to_mysql
  values_to_mysql keyname rediskey tblname get_value sql g = elim (table_key rediskey) [
    | none ↦ some sql
    | some key ↦
        let condition = where_key keyname key in
        elim (S.get_data_from_db g.db (select_count tblname condition)) [
          | none ↦ some sql
          | some (rows, infos) ↦ first_value rows >>= λ count.
              if same count (bytes "1")
              then update_row_mysql g.config tblname get_value condition sql
              else if same count (bytes "0")
              then insert_row_to_mysql g.config tblname get_value sql
              else some sql
        ]
  ]

  abbrev pub execute : Name → Gateway → Gateway
  execute sql g = if is_empty sql then g else record g { db = S.set_data_to_db g.db sql }

  -- One key of `NosqlToMysqlByKeys`: one that has the separator behind the name of the object is that of
  -- a bound field. `sqlstr` is empty before and after.
  unfoldable pub nosql_to_mysql_by_key : Name → TableObjectMap → Gateway → Option Gateway
  unfolding values_to_mysql get_data_cache_all
  nosql_to_mysql_by_key key obj g =
      let prefix = length (obj.object_name ++ bytes ":") in
      if ltb (length key) prefix then none else elim (strstr (drop prefix key) obj.key_separator) [
        | some _ ↦ some g
        | none ↦ get_data_cache_all H key [] g.nosql >>= λ (get_value, nosql).
            let g' = record g { nosql = nosql } in
            elim get_value [
              | [] ↦ some g'
              | kv ∷ kvs ↦
                  values_to_mysql obj.tbl_key_name key obj.table_name (kv ∷ kvs) [] g' >>= λ sql.
                  some (execute sql g')
            ]
      ]

  unfoldable pub nosql_to_mysql_by_keys : List Name → TableObjectMap → Gateway → Option Gateway
  unfolding nosql_to_mysql_by_key
  nosql_to_mysql_by_keys [] obj g = some g
  nosql_to_mysql_by_keys (key ∷ keys) obj g =
      nosql_to_mysql_by_key key obj g >>= λ g'. nosql_to_mysql_by_keys keys obj g'

  -- The loop of `RedisToMysql` over the tables.
  unfoldable pub redis_tables : List TableObjectMap → Gateway → Option Gateway
  unfolding nosql_to_mysql_by_keys get_all_keys
  redis_tables [] g = some g
  redis_tables (obj ∷ objs) g =
      get_all_keys H (some (obj.object_name ++ bytes ":*")) [] g.nosql >>= λ (get_key, nosql).
      nosql_to_mysql_by_keys get_key obj (record g { nosql = nosql }) >>= λ g'. redis_tables objs g'

  abbrev pub redis_to_mysql : Gateway → Option Gateway
  redis_to_mysql g = redis_tables g.config.configs g
