-- ===== src/Game/Stored.antt =====
-- projects/logic_svr/data_cache.cpp, the functions that go to the database, and CreatePlayer and PreLogin of
-- login_module.cpp, over the database cache.
use qclib.Base.{
  ℕ, zero, suc, ◌+◌, ◌*◌, ◌/◌, ◌^◌, ◌<◌, ◌≡◌, Bool, true, false, not, ◌&&◌, List, [], ◌∷◌, ◌++◌,
  Option, none, some, ◌>>=◌, leb, ltb, length, if◌then◌else◌, take,
}
use qclib.Base.Int.{ℤ, pos}
use qclib.Names.{Name}
use qclib.DbGateway.{bytes}
use qclib.Redis.{KeyValue, Hiredis}
use qclib.Redis.Cache.{
  NoSqlDbCache, set_data_cache, get_data_cache_all, add_set_cache, get_set_cache,
}
use qclib.Game.{Game, PlayerDataMsg, have_player_data, add_player_data, get_user_id}
use qclib.Game.Saved.{Text, put_nat, struct_to_map, map_to_struct}
pub mod Listed
mod Tests

-- "player_data:%s" of an id and "player_data:m_user_id:%lld", in a buffer of TABLEKETLEN bytes of which
-- `snprintf` is given one less.
abbrev pub player_key : Text → Name
player_key id = take 254 (bytes "player_data:" ++ id)

abbrev pub roles_key : ℕ → Name
roles_key user_id = take 254 (bytes "player_data:m_user_id:" ++ put_nat user_id)

abbrev pub max_count : ℕ
max_count = 0xffffffffffffff

-- `g_count`, from the count before.
unfoldable pub next_count : ℕ → ℕ
next_count count = if ltb count max_count then count + 1 else 0

-- `get_next_obj_id`: the type stands above 56 bits of the count.
abbrev pub obj_id : ℕ → ℕ → ℕ
obj_id type count = type * 2 ^ 56 + count

abbrev pub get_type_by_objid : ℕ → ℕ
get_type_by_objid id = id / 2 ^ 56

-- `ObjectType_Player`
abbrev pub object_type_player : ℕ
object_type_player = 0

-- `PlayerDataMsg()`
abbrev pub empty_data : PlayerDataMsg
empty_data = record {
  object_id = 0;
  user_id = 0;
  player_name = [];
  player_level = pos 0;
  player_job = 0;
  player_country = 0;
  last_login_time = 0;
}

-- The fields of the generated `ReqCreateRole`.
pub record ReqCreateRole : Type 0 where
  pub player_name : Text
  pub player_job : ℕ
  pub player_country : ℕ

-- The answers to a client: `AckCreateRole`, and `AckLogin` with the number of roles and at most four of
-- them.
pub data Ack : Type 0 where
  create_role_ack : (user : ℕ) → PlayerDataMsg → Ack
  login_ack : (user : ℕ) → (player_count : ℕ) → List PlayerDataMsg → Ack

module _ (H : Hiredis) where
  -- The players, the database, `g_count` and what was answered.
  pub record Server : Type 0 where
    pub game : Game
    pub db : NoSqlDbCache H
    pub count : ℕ
    pub acks : List Ack

  unfoldable pub save_player_data_to_db : NoSqlDbCache H → PlayerDataMsg → Option (NoSqlDbCache H)
  unfolding set_data_cache
  save_player_data_to_db db p =
      set_data_cache H (player_key (put_nat p.object_id)) (struct_to_map [] p) db >>= λ (done, db').
      some db'

  -- The data with its new id, whether or not the player could be added.
  unfoldable pub new_and_save_player_data : Server → PlayerDataMsg → Option (PlayerDataMsg × Server)
  unfolding set_data_cache add_set_cache
  new_and_save_player_data s new_data =
      let count' = next_count s.count in
      let p : PlayerDataMsg = record new_data { object_id = obj_id object_type_player count' } in
      let (added, g) = add_player_data s.game p in
      let t : Server = record s { count = count'; game = g } in
      if added
      then (set_data_cache H (player_key (put_nat p.object_id)) (struct_to_map [] p) s.db
          >>= λ (done, saved).
              add_set_cache H (some (roles_key p.user_id)) (put_nat p.object_id ∷ []) saved
              >>= λ (done', db). some (p, record t { db = db }))
      else some (p, t)

  unfoldable pub create_player : Server → ℕ → ReqCreateRole → Option Server
  unfolding new_and_save_player_data
  create_player s user_id role =
      let new_data : PlayerDataMsg = record empty_data {
        user_id = user_id;
        player_name = role.player_name;
        player_job = role.player_job;
        player_country = role.player_country;
      } in
      new_and_save_player_data s new_data >>= λ (p, t).
      some (record t { acks = t.acks ++ (create_role_ack user_id p ∷ []) })

  -- `GetRoleIds` into an empty list.
  unfoldable pub get_role_ids : NoSqlDbCache H → ℕ → Option (List Text × NoSqlDbCache H)
  unfolding get_set_cache
  get_role_ids db user_id = get_set_cache H (some (roles_key user_id)) [] db

  -- `GetPreLoginPlayerInfo`: without a hash the record keeps what it has. `PlayerDataPreLogin` has the fields
  -- of `PlayerDataMsg`, under the same names.
  unfoldable pub get_pre_login_player_info :
      NoSqlDbCache H → Text → PlayerDataMsg → Option (PlayerDataMsg × NoSqlDbCache H)
  unfolding get_data_cache_all
  get_pre_login_player_info db id info =
      get_data_cache_all H (player_key id) [] db >>= λ (kvs, db').
      some (map_to_struct kvs info, db')

  -- The loop of `PreLogin` from round `i` on, which has one record for all players.
  unfoldable pub player_infos :
      NoSqlDbCache H → List Text → ℕ → PlayerDataMsg → Option (List PlayerDataMsg × NoSqlDbCache H)
  unfolding get_pre_login_player_info
  player_infos db [] i info = some ([], db)
  player_infos db (id ∷ ids) i info = get_pre_login_player_info db id info >>= λ (info', db').
      let rest = player_infos db' ids (suc i) info' in
      if leb 3 i
      then some (info' ∷ [], db')
      else (rest >>= λ (infos, db''). some (info' ∷ infos, db''))

  unfoldable pub login_pre_login : Server → ℕ → Option Server
  unfolding get_role_ids player_infos
  login_pre_login s user_id = get_role_ids s.db user_id >>= λ (player_list, db).
      player_infos db player_list 0 empty_data >>= λ (infos, db').
      some (record s {
        db = db';
        acks = s.acks ++ (login_ack user_id (length player_list) infos ∷ []);
      })
