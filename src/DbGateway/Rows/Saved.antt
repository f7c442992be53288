-- ===== src/DbGateway/Rows/Saved.antt =====
-- projects/dbgateway/db_gateway.cpp: a row of MySQL on its way to Redis.
use qclib.Base.{
  suc, ◌≡◌, refl, sym, ap, subst, ◌∙◌, arith, Bool, true, false, List, [], ◌∷◌, ◌++◌, Option, none,
  some, ◌==◌, length, Bool-cases, inl, inr, if◌then◌else◌,
}
use qclib.Names.{Name, Dict, find, assign}
use qclib.Redis.{KeyValue, Reply, Hiredis, Client}
use qclib.Redis.Cache.{NoSqlDbCache, set_data_cache}
use qclib.Redis.Words.{IsWord, AreWords, Lacks-append, in_turn, field_names}
use qclib.Redis.Stored.{Splits}
use qclib.Redis.Server.{Serves, AreDistinct, linked, set_data_cache-linked}
use qclib.DbGateway.{
  TableObjectMap, ConfigIndexMap, bytes, get_obj_field_name, get_tbl_field_name,
  get_table_object_map_by_tblname, is_empty,
}
use qclib.DbGateway.Items.{Lacks}
use qclib.DbGateway.Sql.{FieldType, interger, floats, strings, binary, FieldInfo}
use qclib.DbGateway.Rows.{
  RowState, is_binary, is_primary, column_value, row_column, row_columns, set_bind_items_to_nosql,
  mysql_row_data_to_nosql, d2r_ok,
}
use qclib.DbGateway.Rows.Bound.{IsWord-append, AllWords, assign-AllWords, set_bind_items-linked}
use mathlib.Core.List.{append_assoc, append-nil}

-- No column is binary.
abbrev pub IsPlain : List FieldInfo → Type 0
IsPlain [] = Unit {0}
IsPlain (f ∷ fs) = (is_binary f.field_flag ≡ false) × IsPlain fs

-- Each column has a name, and the object's field of it leads back to it.
abbrev pub Invertible : TableObjectMap → List FieldInfo → Type 0
Invertible m [] = Unit {0}
Invertible m (f ∷ fs) =
    (is_empty f.field_name ≡ false)
    × (get_tbl_field_name m (get_obj_field_name m f.field_name) ≡ f.field_name)
    × Invertible m fs

abbrev pub obj_names : TableObjectMap → List FieldInfo → List Name
obj_names m [] = []
obj_names m (f ∷ fs) = get_obj_field_name m f.field_name ∷ obj_names m fs

pub length-obj_names :
    (m : TableObjectMap) (fs : List FieldInfo) → length (obj_names m fs) ≡ length fs
length-obj_names m [] = refl
length-obj_names m (f ∷ fs) = ap suc (length-obj_names m fs)

-- The fields and values of an object with the columns of a row.
abbrev pub saved : TableObjectMap → List FieldInfo → List Name → List KeyValue
saved m [] vs = []
saved m (f ∷ fs) [] = []
saved m (f ∷ fs) (v ∷ vs) =
    record { redis_field = get_obj_field_name m f.field_name; redis_value = v } ∷ saved m fs vs

-- The values of the primary columns, one behind the other.
abbrev pub key_of : List FieldInfo → List Name → Name
key_of [] vs = []
key_of (f ∷ fs) [] = []
key_of (f ∷ fs) (v ∷ vs) = if is_primary f.field_flag then v ++ key_of fs vs else key_of fs vs

-- column='value'
abbrev pub assignments : List FieldInfo → List Name → List Name
assignments [] vs = []
assignments (f ∷ fs) [] = []
assignments (f ∷ fs) (v ∷ vs) =
    (f.field_name ++ (bytes "='" ++ (v ++ bytes "'"))) ∷ assignments fs vs

column_value-plain :
    (f : FieldInfo) (v : Name)
    → is_binary f.field_flag ≡ false
    → column_value f.field_type f.field_flag v ≡ v
column_value-plain f v h = of f.field_type
  where
    of : (t : FieldType) → column_value t f.field_flag v ≡ v
    of interger = refl
    of floats = refl
    of strings = rw h refl
    of binary = rw h refl

append_if :
    (b : Bool) (x y z : Name) → (if b then x ++ y else x) ++ z ≡ x ++ (if b then y ++ z else z)
append_if true x y z = append_assoc x y z
append_if false x y z = refl

-- The names and values that are saved are words, and the names of the columns.
abbrev pub column_names : List FieldInfo → List Name
column_names [] = []
column_names (f ∷ fs) = f.field_name ∷ column_names fs

field_names-saved :
    (m : TableObjectMap) (fs : List FieldInfo) (vs : List Name)
    → length vs ≡ length fs
    → field_names (saved m fs vs) ≡ obj_names m fs
field_names-saved m [] vs h = refl
field_names-saved m (f ∷ fs) [] h = absurd (omega arith)
field_names-saved m (f ∷ fs) (v ∷ vs) h =
    ap (λ (ns : List Name). get_obj_field_name m f.field_name ∷ ns)
      (field_names-saved m fs vs (omega arith))

key_of-Lacks :
    (m : TableObjectMap) (fs : List FieldInfo) (vs : List Name)
    → AreWords (in_turn (saved m fs vs))
    → Lacks 32 (key_of fs vs) × Lacks 37 (key_of fs vs)
unfolding in_turn
key_of-Lacks m [] vs a = (tt, tt)
key_of-Lacks m (f ∷ fs) [] a = (tt, tt)
key_of-Lacks m (f ∷ fs) (v ∷ vs) (n, ((full, blank, percent), a)) =
    let (b, p) = key_of-Lacks m fs vs a in
    elim (Bool-cases (is_primary f.field_flag)) [
      | inl e ↦
          rw e
            (Lacks-append 32 v (key_of fs vs) blank b, Lacks-append 37 v (key_of fs vs) percent p)
      | inr e ↦ rw e (b, p)
    ]

bound-AllWords :
    (o : Option (Unit {0})) (k v : Name) (items : Dict Name)
    → IsWord k
    → IsWord v
    → AllWords items
    → AllWords (elim o [ none ↦ items | some _ ↦ assign k v items ])
bound-AllWords none k v items wk wv h = h
bound-AllWords (some x) k v items wk wv h = assign-AllWords k v items wk wv h

Lacks-if : (b : Bool) (x y : Name) → Lacks 37 x → Lacks 37 y → Lacks 37 (if b then x else y)
Lacks-if true x y hx hy = hx
Lacks-if false x y hx hy = hy

row_columns-saved :
    (m : TableObjectMap) (fs : List FieldInfo) (vs : List Name) (left : List KeyValue)
    (s : RowState)
    → IsPlain fs
    → length vs ≡ length fs
    → length left ≡ length fs
    → AreWords (in_turn (saved m fs vs))
    → AreWords (column_names fs)
    → AllWords s.bind_items
    → Lacks 37 s.bind_key
    → (u : RowState) × (row_columns m (obj_names m fs) fs vs left s ≡ some u)
      × (u.set_value ≡ s.set_value ++ saved m fs vs)
      × (u.set_table_key ≡ s.set_table_key ++ key_of fs vs)
      × AllWords u.bind_items
      × Lacks 37 u.bind_key
unfolding row_columns row_column in_turn
row_columns-saved m [] vs [] s p h k a c items key = (
  record s { set_value = s.set_value ++ [] },
  refl,
  refl,
  sym (append-nil s.set_table_key),
  items,
  key,
)
row_columns-saved m [] vs (kv ∷ left) s p h k a c items key = absurd (omega arith)
row_columns-saved m (f ∷ fs) [] left s p h k a c items key = absurd (omega arith)
row_columns-saved m (f ∷ fs) (v ∷ vs) [] s p h k a c items key = absurd (omega arith)
row_columns-saved m (f ∷ fs) (v ∷ vs) (kv ∷ left) s (p, ps) h k (n, (w, a)) (wf, c) items key =
    let plain = column_value-plain f v p in
    let w' : IsWord (column_value f.field_type f.field_flag v) = subst IsWord (sym plain) w in
    let (u, ran, values, place, items', key') =
      row_columns-saved m fs vs left (row_column m (get_obj_field_name m f.field_name) f v s) ps
        (omega arith) (omega arith) a c
        (bound-AllWords (find f.field_name m.bind_items) f.field_name _ s.bind_items wf w' items)
        (Lacks-if (is_primary f.field_flag) _ s.bind_key w'.2 key) in
    (
      u,
      ran,
      values ∙ rw plain (append_assoc s.set_value (_ ∷ []) (saved m fs vs)),
      place ∙ rw plain (append_if (is_primary f.field_flag) s.set_table_key v (key_of fs vs)),
      items',
      key',
    )

module _ (H : Hiredis) (exec : H.Context → List Name → Option Reply × H.Context)
    (hash : H.Context → Name → Option (List Name)) (split : Splits H exec)
    (serves : Serves exec hash) (client : Client H) where
  row-ran :
      (config : ConfigIndexMap) (m : TableObjectMap) (fs : List FieldInfo) (vs names : List Name)
      (left : List KeyValue) (nosql bound last : NoSqlDbCache H) (u : RowState)
      → get_table_object_map_by_tblname config m.table_name ≡ some (some m)
      → length vs == length names ≡ true
      → row_columns m names fs vs left (record {
        set_table_key = m.object_name ++ m.key_separator;
        set_value = [];
        bind_key = [];
        bind_items = [];
      })
        ≡ some u
      → set_bind_items_to_nosql H u.bind_key m.object_name m.key_separator u.bind_items nosql
        ≡ some bound
      → set_data_cache H u.set_table_key u.set_value bound ≡ some (tt, last)
      → mysql_row_data_to_nosql H config m.table_name vs names fs left nosql
        ≡ some (d2r_ok, u.set_value, last)
  unfolding mysql_row_data_to_nosql
  row-ran config m fs vs names left nosql bound last u found size ran items stored =
      rw (size, found, ran, items, stored) refl

  -- A row comes to Redis as the fields of the object, under the name of the object and its key.
  pub row-saved :
      (config : ConfigIndexMap) (m : TableObjectMap) (fs : List FieldInfo) (vs : List Name)
      (left : List KeyValue) (context : H.Context)
      → get_table_object_map_by_tblname config m.table_name ≡ some (some m)
      → m.key_separator ≡ bytes ":"
      → IsPlain fs
      → length vs ≡ length fs
      → length left ≡ length fs
      → IsWord m.object_name
      → AreWords (in_turn (saved m fs vs))
      → AreWords (column_names fs)
      → AreDistinct (obj_names m fs)
      → Lacks 58 (key_of fs vs)
      → hash context ((m.object_name ++ bytes ":") ++ key_of fs vs) ≡ some []
      → (context' : H.Context) × (mysql_row_data_to_nosql H config m.table_name vs
            (obj_names m fs)
            fs
            left
            (linked H client context)
          ≡ some (d2r_ok, saved m fs vs, linked H client context'))
        × (hash context' ((m.object_name ++ bytes ":") ++ key_of fs vs)
            ≡ some (in_turn (saved m fs vs)))
  unfolding mysql_row_data_to_nosql
  row-saved config m fs vs left context found sep plain h k o a c d no_colon fresh =
      let begin : RowState = record {
        set_table_key = m.object_name ++ m.key_separator;
        set_value = [];
        bind_key = [];
        bind_items = [];
      } in
      let (u, ran, values, place, items, key) =
        row_columns-saved m fs vs left begin plain h k a c tt tt in
      let same_length : length vs == length (obj_names m fs) ≡ true =
        ground (arith, length-obj_names m fs) in
      let at : u.set_table_key ≡ (m.object_name ++ bytes ":") ++ key_of fs vs =
        place ∙ ap (λ (t : Name). (m.object_name ++ t) ++ key_of fs vs) sep in
      let (blank, percent) = key_of-Lacks m fs vs a in
      let whole : IsWord ((m.object_name ++ bytes ":") ++ key_of fs vs) =
        IsWord-append (m.object_name ++ bytes ":") (key_of fs vs)
          (IsWord-append m.object_name (bytes ":") o (refl, tt) (refl, tt)) blank percent in
      let (bound, ran_items, kept) =
        set_bind_items-linked H exec hash split serves client u.bind_key m.object_name
          (key_of fs vs) [] u.bind_items context o key no_colon items fresh in
      let (last, stored, there) =
        set_data_cache-linked H exec hash split serves client bound
          ((m.object_name ++ bytes ":") ++ key_of fs vs) (saved m fs vs) whole a
          (subst AreDistinct (sym (field_names-saved m fs vs h)) d) kept in
      (
        last,
        row-ran config m fs vs (obj_names m fs) left (linked H client context)
              (linked H client bound) (linked H client last) u found same_length ran
              (ap
                  (λ (t : Name).
                    set_bind_items_to_nosql H u.bind_key m.object_name t u.bind_items
                      (linked H client context))
                  sep
                ∙ ran_items)
              (ap (λ (t : Name). set_data_cache H t u.set_value (linked H client bound)) at
                ∙ ap
                    (λ (kvs : List KeyValue).
                      set_data_cache H ((m.object_name ++ bytes ":") ++ key_of fs vs) kvs
                        (linked H client bound))
                    values
                ∙ stored)
            ∙ ap (λ (kvs : List KeyValue). some (d2r_ok, kvs, linked H client last)) values,
        there,
      )
