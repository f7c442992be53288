-- ===== src/DbGateway/Tests.antt =====
-- Runs of the gateway on a table of two columns, and the theorems at concrete inputs.
use qclib.Base.{◌≡◌, refl, List, [], ◌∷◌, ◌++◌, none, some}
use qclib.Names.{Name, find, assign, same, less}
use qclib.DbGateway.{
  TableObjectMap, ConfigIndexMap, TableElement, FieldElement, bytes, get_bind_items, init_config,
  init_table, config_at, get_table_object_map_by_tblname, get_table_object_map_by_objname,
}
use qclib.DbGateway.Config.{empty_config, Answers, init_config-Answers}
use qclib.DbGateway.Items.{add_all, joined, get_bind_items-joined}
use qclib.DbGateway.Sql.{SqlDb, FieldInfo, strings, primary, noflag, update_row_mysql, where_key}
use qclib.Base.Int.{pos}
use qclib.Redis.{KeyValue, Client}
use qclib.Redis.Tests.{small_redis}

abbrev field : Name → Name → FieldElement
field t r = record { t_field = some t; r_field = some r }

abbrev goods_element : TableElement
goods_element = record {
  t_name = some (bytes "goods");
  r_key_prefix = some (bytes "obj");
  t_primary_key_field = some (bytes "idx");
  r_key_separator = some (bytes ":");
  bind_item = none;
  fields = field (bytes "idx") (bytes "r_idx") ∷ field (bytes "count") (bytes "r_count") ∷ [];
}

abbrev goods : TableObjectMap
goods = record {
  object_name = bytes "obj";
  table_name = bytes "goods";
  tbl_key_name = bytes "idx";
  key_separator = bytes ":";
  object_table_map = (bytes "r_count", bytes "count") ∷ (bytes "r_idx", bytes "idx") ∷ [];
  table_object_map = (bytes "count", bytes "r_count") ∷ (bytes "idx", bytes "r_idx") ∷ [];
  bind_items = [];
}

abbrev goods_config : ConfigIndexMap
goods_config = record {
  configs = goods ∷ [];
  table_map = (bytes "goods", 0) ∷ [];
  object_map = (bytes "obj", 0) ∷ [];
}

init_config-goods : init_config (goods_element ∷ []) empty_config ≡ some goods_config
unfolding init_config init_table get_bind_items assign same less
init_config-goods = refl

init_config-Answers_example :
    Answers
      (λ m. m.table_name)
      (goods ∷ [])
      (bytes "goods")
      (get_table_object_map_by_tblname goods_config (bytes "goods"))
    × Answers
        (λ m. m.object_name)
        (goods ∷ [])
        (bytes "goods")
        (get_table_object_map_by_objname goods_config (bytes "goods"))
init_config-Answers_example =
    init_config-Answers (goods_element ∷ []) goods_config (bytes "goods") init_config-goods

get_bind_items-joined_example :
    get_bind_items [] (58 ∷ []) (some (joined 58 (bytes "user" ∷ []) (bytes "name")))
    ≡ some (assign (bytes "name") tt (add_all (bytes "user" ∷ []) []))
get_bind_items-joined_example =
    get_bind_items-joined 58 (bytes "user" ∷ []) 110 (bytes "ame") []
      ((refl, (refl, (refl, (refl, tt)))), tt) (refl, (refl, (refl, (refl, tt))))

abbrev r_idx : KeyValue
r_idx = record { redis_field = bytes "r_idx"; redis_value = bytes "7" }

abbrev r_count : KeyValue
r_count = record { redis_field = bytes "r_count"; redis_value = bytes "30" }

update_row_mysql-goods :
    update_row_mysql goods_config
      (bytes "goods")
      (r_idx ∷ r_count ∷ [])
      (where_key (bytes "idx") (bytes "7"))
      []
    ≡ some (bytes "update goods set idx='7',count='30'  where idx = '7';")
unfolding update_row_mysql find same config_at
update_row_mysql-goods = refl

-- A MySQL that keeps the statements and counts one row.
abbrev statements : SqlDb
statements = record {
  State = List Name;
  set_data_to_db = λ s sql. s ++ sql ∷ [];
  get_data_from_db = λ s sql. some ((bytes "1" ∷ []) ∷ [], []);
}

abbrev small_client : Client small_redis
small_client = record { redis_ip = bytes "ip"; redis_port = pos 6379; redis_context = none }

abbrev idx : FieldInfo
idx = record { field_name = bytes "idx"; field_type = strings; field_flag = primary }

abbrev count : FieldInfo
count = record { field_name = bytes "count"; field_type = strings; field_flag = noflag }
