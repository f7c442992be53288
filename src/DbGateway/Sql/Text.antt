-- ===== src/DbGateway/Sql/Text.antt =====
-- projects/dbgateway/db_gateway.cpp: the statements that the gateway writes.
use qclib.Base.{ℕ, ◌≡◌, refl, ap, ap₂, ◌∙◌, true, false, List, [], ◌∷◌, ◌++◌, Option, some, map}
use qclib.Names.{Name}
use qclib.Redis.{KeyValue}
use qclib.DbGateway.{
  TableObjectMap, ConfigIndexMap, bytes, get_tbl_field_name, get_table_object_map_by_tblname,
  is_empty,
}
use qclib.DbGateway.Sql.{
  update_fields, blank_last, erase_last, update_row_mysql, insert_fields, insert_row_to_mysql,
  insert_text,
}
use mathlib.Core.List.{append_assoc}

-- Each field belongs to a column.
abbrev pub Known : TableObjectMap → List KeyValue → Type 0
Known m [] = Unit {0}
Known m (kv ∷ kvs) = (is_empty (get_tbl_field_name m kv.redis_field) ≡ false) × Known m kvs

-- Texts with commas between them.
abbrev pub commas : List Name → Name
commas [] = []
commas (t ∷ []) = t
commas (t ∷ u ∷ us) = t ++ (44 ∷ commas (u ∷ us))

-- field='value'
abbrev pub assignment : TableObjectMap → KeyValue → Name
assignment m kv =
    get_tbl_field_name m kv.redis_field ++ (bytes "='" ++ (kv.redis_value ++ bytes "'"))

abbrev pub column : TableObjectMap → KeyValue → Name
column m kv = get_tbl_field_name m kv.redis_field

abbrev pub quoted : KeyValue → Name
quoted kv = bytes "'" ++ (kv.redis_value ++ bytes "'")

blank_last-append : (s : Name) (c : ℕ) → blank_last (s ++ c ∷ []) ≡ s ++ 32 ∷ []
blank_last-append [] c = refl
blank_last-append (a ∷ []) c = refl
blank_last-append (a ∷ b ∷ s) c = ap (λ (r : Name). a ∷ r) (blank_last-append (b ∷ s) c)

erase_last-append : (s : Name) (c : ℕ) → erase_last (s ++ c ∷ []) ≡ s
erase_last-append [] c = refl
erase_last-append (a ∷ []) c = refl
erase_last-append (a ∷ b ∷ s) c = ap (λ (r : Name). a ∷ r) (erase_last-append (b ∷ s) c)

-- The text behind `sql`, with the comma at its end.
update_fields-commas :
    (m : TableObjectMap) (kv : KeyValue) (kvs : List KeyValue) (sql : Name)
    → Known m (kv ∷ kvs)
    → update_fields m (kv ∷ kvs) sql
      ≡ (true, (sql ++ commas (map (assignment m) (kv ∷ kvs))) ++ 44 ∷ [])
unfolding update_fields
update_fields-commas m kv [] sql (e, k) = rw e (simp append_assoc)
update_fields-commas m kv (kv2 ∷ kvs) sql (e, k) =
    rw
      (
        e,
        update_fields-commas m kv2 kvs
            (sql ++ (column m kv ++ (bytes "='" ++ (kv.redis_value ++ bytes "',")))) k,
      )
      (simp append_assoc)

-- The statement that UpdateRowMysql writes: for a table in the configuration, and one or more fields that
-- all belong to columns of it, the text is UPDATE with the name of the table, each column with its value in
-- their order, between commas, and the condition.
pub update_row_mysql_lem :
    (config : ConfigIndexMap) (tblname : Name) (m : TableObjectMap) (kv : KeyValue)
    (kvs : List KeyValue) (condition sql : Name)
    → get_table_object_map_by_tblname config tblname ≡ some (some m)
    → Known m (kv ∷ kvs)
    → update_row_mysql config tblname (kv ∷ kvs) condition sql
      ≡ some (
          bytes "update "
          ++ (tblname
              ++ (bytes " set "
                  ++ (commas (map (assignment m) (kv ∷ kvs)) ++ (bytes " " ++ condition)))))
unfolding update_row_mysql
update_row_mysql_lem config tblname m kv kvs condition sql e k =
    let begin = bytes "update " ++ (tblname ++ bytes " set ") in
    let set = commas (map (assignment m) (kv ∷ kvs)) in
    rw (e, update_fields-commas m kv kvs begin k)
      (ap (λ (r : Name). some (r ++ condition)) (blank_last-append (begin ++ set) 44)
        ∙ simp append_assoc)

insert_fields-commas :
    (m : TableObjectMap) (kv : KeyValue) (kvs : List KeyValue) (names values : Name)
    → Known m (kv ∷ kvs)
    → insert_fields m (kv ∷ kvs) names values
      ≡ some (
        (names ++ commas (map (column m) (kv ∷ kvs))) ++ 44 ∷ [],
        (values ++ commas (map quoted (kv ∷ kvs))) ++ 44 ∷ [],
      )
unfolding insert_fields
insert_fields-commas m kv [] names values (e, k) = rw e (simp append_assoc)
insert_fields-commas m kv (kv2 ∷ kvs) names values (e, k) =
    rw
      (
        e,
        insert_fields-commas m kv2 kvs (names ++ (column m kv ++ bytes ","))
            (values ++ (bytes "'" ++ (kv.redis_value ++ bytes "',"))) k,
      )
      (simp append_assoc)

-- The statement that InsertRowToMysql writes: under the same conditions, INSERT with the name of the
-- table, the columns in their order between commas, and their values in the same order.
pub insert_row_to_mysql_lem :
    (config : ConfigIndexMap) (tblname : Name) (m : TableObjectMap) (kv : KeyValue)
    (kvs : List KeyValue) (sql : Name)
    → get_table_object_map_by_tblname config tblname ≡ some (some m)
    → Known m (kv ∷ kvs)
    → insert_row_to_mysql config tblname (kv ∷ kvs) sql
      ≡ some (
          bytes "insert into "
          ++ (tblname
              ++ (bytes "("
                  ++ (commas (map (column m) (kv ∷ kvs))
                      ++ (bytes ") values(" ++ (commas (map quoted (kv ∷ kvs)) ++ bytes ");"))))))
unfolding insert_row_to_mysql insert_text
insert_row_to_mysql_lem config tblname m kv kvs sql e k =
    let names = tblname ++ bytes "(" in
    let columns = commas (map (column m) (kv ∷ kvs)) in
    let values = commas (map quoted (kv ∷ kvs)) in
    rw e (
      ap (λ (r : Option (Name × Name)). some (insert_text (kv ∷ kvs) sql r))
        (insert_fields-commas m kv kvs names (bytes "values(") k)
      ∙ ap₂
          (λ (n v : Name). some (
            bytes "insert into "
            ++ ((n ++ bytes ")") ++ (bytes " " ++ ((v ++ bytes ")") ++ bytes ";")))))
          (erase_last-append (names ++ columns) 44)
          (erase_last-append (bytes "values(" ++ values) 44)
      ∙ simp append_assoc)
