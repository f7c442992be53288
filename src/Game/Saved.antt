-- ===== src/Game/Saved.antt =====
-- projects/logic_svr/define_logic_data.h: the macros DESCRIBE_STRUCT, DESCRIBE_FIELD and
-- DESCRIBE_FIELD2, by which `PlayerDataMsg` goes to the database and comes back as fields and values.
-- The stream that they share is cleared before each use, so a field is what `<<` writes, read by
-- `>>`.
use qclib.Base.{
  ℕ, zero, suc, ◌+◌, ◌-◌, ◌*◌, ◌/◌, ◌%◌, ◌^◌, Bool, true, false, List, [], ◌∷◌, ◌++◌, ◌&&◌, ◌||◌,
  ◌==◌, ltb, leb, min, if◌then◌else◌,
}
use qclib.Base.Int.{ℤ, pos, negsuc}
use qclib.Names.{Name, same}
use qclib.DbGateway.{bytes}
use qclib.Redis.{KeyValue}
use qclib.Game.{PlayerDataMsg}
pub mod RoundTrip

abbrev pub Text : Type 0
Text = List ℕ

-- The blanks of the C locale.
abbrev pub is_space : ℕ → Bool
is_space c = (c == 32) || (leb 9 c && leb c 13)

abbrev pub is_digit : ℕ → Bool
is_digit c = leb 48 c && leb c 57

-- `<<` of an unsigned and of a signed number; no number here has more than twenty digits.
unfoldable pub digits : ℕ → ℕ → Text
digits zero n = []
digits (suc fuel) n =
    let front = digits fuel (n / 10) in
    if ltb n 10 then (48 + n) ∷ [] else front ++ ((48 + n % 10) ∷ [])

abbrev pub put_nat : ℕ → Text
put_nat n = digits 20 n

abbrev pub put_int : ℤ → Text
put_int (pos n) = put_nat n
put_int (negsuc n) = 45 ∷ put_nat (suc n)

abbrev pub skip_spaces : Text → Text
skip_spaces [] = []
skip_spaces (c ∷ t) = if is_space c then skip_spaces t else c ∷ t

abbrev pub word : Text → Text
word [] = []
word (c ∷ t) = if is_space c then [] else c ∷ word t

-- `>>` into a string: without a word the string keeps what it has.
abbrev pub or_old : Text → Text → Text
or_old [] old = old
or_old (c ∷ t) old = c ∷ t

unfoldable pub get_string : Text → Text → Text
get_string t old = or_old (word (skip_spaces t)) old

-- `>>` into a number: the digits at the front, 0 without any, and the limit where they are more.
unfoldable pub value : ℕ → Text → ℕ
value acc [] = acc
value acc (c ∷ t) = let more = value (acc * 10 + (c - 48)) t in if is_digit c then more else acc

unfoldable pub get_nat : ℕ → Text → ℕ
get_nat limit t = min limit (value 0 (skip_spaces t))

-- A signed number of 32 bits.
abbrev pub signed : Text → ℤ
signed [] = pos 0
signed (c ∷ t) =
    if c == 45 then minus (min (2 ^ 31) (value 0 t)) else pos (min (2 ^ 31 - 1) (value 0 (c ∷ t)))
  where
    minus : ℕ → ℤ
    minus zero = pos 0
    minus (suc n) = negsuc n

unfoldable pub get_int : Text → ℤ
get_int t = signed (skip_spaces t)

-- DESCRIBE_FIELD: `struct_member` is one variable for all fields, so `old` is the value of the field
-- before.
abbrev pub describe_field : Name → Text → Text → KeyValue
describe_field field written old = record {
  redis_field = field;
  redis_value = get_string written old;
}

-- `StructToMap` adds to the shared list.
unfoldable pub struct_to_map : List KeyValue → PlayerDataMsg → List KeyValue
struct_to_map kvs p =
    let object_id = describe_field (bytes "m_object_id") (put_nat p.object_id) [] in
    let user_id = describe_field (bytes "m_user_id") (put_nat p.user_id) object_id.redis_value in
    let name = describe_field (bytes "m_player_name") p.player_name user_id.redis_value in
    let level = describe_field (bytes "m_playerLevel") (put_int p.player_level) name.redis_value in
    let job = describe_field (bytes "m_playerJob") (put_nat p.player_job) level.redis_value in
    let country =
      describe_field (bytes "m_playerCountry") (put_nat p.player_country) job.redis_value in
    let login =
      describe_field (bytes "m_lastLoginTime") (put_nat p.last_login_time) country.redis_value in
    kvs ++ (object_id ∷ user_id ∷ name ∷ level ∷ job ∷ country ∷ login ∷ [])

-- DESCRIBE_FIELD2 for one value.
abbrev pub read_field : Name → Text → PlayerDataMsg → PlayerDataMsg
read_field field v p =
    if same field (bytes "m_object_id")
    then record p { object_id = get_nat (2 ^ 63 - 1) v }
    else if same field (bytes "m_user_id")
    then record p { user_id = get_nat (2 ^ 63 - 1) v }
    else if same field (bytes "m_player_name")
    then record p { player_name = get_string v p.player_name }
    else if same field (bytes "m_playerLevel")
    then record p { player_level = get_int v }
    else if same field (bytes "m_playerJob")
    then record p { player_job = get_nat (2 ^ 32 - 1) v }
    else if same field (bytes "m_playerCountry")
    then record p { player_country = get_nat (2 ^ 32 - 1) v }
    else if same field (bytes "m_lastLoginTime")
    then record p { last_login_time = get_nat (2 ^ 32 - 1) v }
    else p

-- `MapToStruct`
unfoldable pub map_to_struct : List KeyValue → PlayerDataMsg → PlayerDataMsg
map_to_struct [] p = p
map_to_struct (kv ∷ kvs) p = map_to_struct kvs (read_field kv.redis_field kv.redis_value p)
