-- ===== src/DbGateway.antt =====
-- projects/dbgateway/table_object_map.h, and the reading of the configuration in db_gateway.cpp: which
-- table of MySQL belongs to which objects of Redis, and which field to which. A name or a text is the list
-- of its bytes; the elements of the XML file are what tinyxml makes of it, a parameter.
use Prim.Native.String.{String}
use Prim.Native.Char.{code}
use qclib.Base.{
  ℕ, zero, suc, ◌+◌, Bool, true, false, ◌&&◌, List, [], ◌∷◌, ◌++◌, Option, none, some, ◌>>=◌, ◌==◌,
  length, get_elem?, drop, if◌then◌else◌,
}
use qclib.Names.{Name, Dict, find, assign}
pub mod Items
pub mod Sql
pub mod Rows
pub mod Config
mod Tests

abbrev pub bytes : String → Name
bytes String.[] = []
bytes (String.◌∷◌ c s) = code c ∷ bytes s

-- `hash_map<string, string>` is a `Dict`, and `hash_set<string>` the keys of one.
pub record TableObjectMap : Type 0 where
  pub object_name : Name
  pub table_name : Name
  pub tbl_key_name : Name
  pub key_separator : Name
  pub object_table_map : Dict Name
  pub table_object_map : Dict Name
  pub bind_items : Dict (Unit {0})

pub record ConfigIndexMap : Type 0 where
  pub configs : List TableObjectMap
  pub table_map : Dict ℕ
  pub object_map : Dict ℕ

-- `m_empty` where there is nothing.
abbrev pub name_or : Option Name → Name
name_or none = []
name_or (some n) = n

abbrev pub get_obj_field_name : TableObjectMap → Name → Name
get_obj_field_name m tbl_field_name = name_or (find tbl_field_name m.table_object_map)

abbrev pub get_tbl_field_name : TableObjectMap → Name → Name
get_tbl_field_name m obj_field_name = name_or (find obj_field_name m.object_table_map)

-- `at` throws, `none`, where the index is beyond the list; a name that is not there has no map.
unfoldable pub config_at : List TableObjectMap → Option ℕ → Option (Option TableObjectMap)
config_at configs none = some none
config_at configs (some i) = get_elem? configs i >>= λ m. some (some m)

abbrev pub get_table_object_map_by_tblname : ConfigIndexMap → Name → Option (Option TableObjectMap)
get_table_object_map_by_tblname c n = config_at c.configs (find n c.table_map)

abbrev pub get_table_object_map_by_objname : ConfigIndexMap → Name → Option (Option TableObjectMap)
get_table_object_map_by_objname c n = config_at c.configs (find n c.object_map)

abbrev pub starts_with : Name → Name → Bool
starts_with [] s = true
starts_with (p ∷ ps) [] = false
starts_with (p ∷ ps) (c ∷ cs) = p == c && starts_with ps cs

-- `strstr`: what stands before the first place where `sep` begins, and what begins there.
unfoldable pub strstr : Name → Name → Option (Name × Name)
strstr [] sep = if starts_with sep [] then some ([], []) else none
strstr (c ∷ cs) sep =
    let rest = strstr cs sep >>= λ (before, at). some (c ∷ before, at) in
    if starts_with sep (c ∷ cs) then some ([], c ∷ cs) else rest

abbrev pub is_empty : Name → Bool
is_empty [] = true
is_empty (c ∷ cs) = false

-- The loop of `GetBindItems`, which goes on one byte behind the place of the separator. With an empty
-- separator it goes on beyond the end of the text: `none`. Each round takes a byte of fuel.
unfoldable pub bind_loop : ℕ → Name → Name → Dict (Unit {0}) → Option (Dict (Unit {0}))
bind_loop zero sep source items = none
bind_loop (suc fuel) sep source items = elim (strstr source sep) [
  | none ↦ some (if is_empty source then items else assign source tt items)
  | some (str, at) ↦ elim at [
    | [] ↦ none
    | c ∷ more ↦ bind_loop fuel sep more (assign str tt items)
  ]
]

-- `GetBindItems`; an element without the attribute gives NULL.
unfoldable pub get_bind_items : Dict (Unit {0}) → Name → Option Name → Option (Dict (Unit {0}))
unfolding bind_loop
get_bind_items items sep none = some items
get_bind_items items sep (some source) = bind_loop (suc (length source)) sep source items

-- A "field" element and a "table" element of the file, with the attributes that are read; one that is
-- missing is NULL.
pub record FieldElement : Type 0 where
  pub t_field : Option Name
  pub r_field : Option Name

pub record TableElement : Type 0 where
  pub t_name : Option Name
  pub r_key_prefix : Option Name
  pub t_primary_key_field : Option Name
  pub r_key_separator : Option Name
  pub bind_item : Option Name
  pub fields : List FieldElement

-- The fields of a table; a missing attribute ends the program by `assert`.
unfoldable pub init_fields : List FieldElement → TableObjectMap → Option TableObjectMap
init_fields [] m = some m
init_fields (f ∷ fs) m = f.t_field >>= λ t. f.r_field >>= λ r. init_fields fs (record m {
  table_object_map = assign t r m.table_object_map;
  object_table_map = assign r t m.object_table_map;
})

-- One table; a text made of NULL has no result.
unfoldable pub init_table : TableElement → Option TableObjectMap
unfolding init_fields get_bind_items
init_table e = do
  t_name ← e.t_name
  prefix ← e.r_key_prefix
  key ← e.t_primary_key_field
  sep ← e.r_key_separator
  items ← get_bind_items [] sep e.bind_item
  init_fields e.fields (record {
    object_name = prefix;
    table_name = t_name;
    tbl_key_name = key;
    key_separator = sep;
    object_table_map = [];
    table_object_map = [];
    bind_items = items;
  })

-- `InitConfig` on the tables of the file, into a configuration.
unfoldable pub init_config : List TableElement → ConfigIndexMap → Option ConfigIndexMap
unfolding init_table
init_config [] c = some c
init_config (e ∷ es) c = init_table e >>= λ m. init_config es (record {
  configs = c.configs ++ m ∷ [];
  table_map = assign m.table_name (length c.configs) c.table_map;
  object_map = assign m.object_name (length c.configs) c.object_map;
})
