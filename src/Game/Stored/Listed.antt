-- ===== src/Game/Stored/Listed.antt =====
-- projects/logic_svr/login_module.cpp: a role that is created, as PreLogin reads it later.
use qclib.Base.{ℕ}
use qclib.Redis.{KeyValue}
use qclib.Game.{Game, PlayerDataMsg}
use qclib.Game.Stored.{next_count, obj_id, object_type_player, empty_data, ReqCreateRole, Server}

-- The data of a new role.
abbrev pub role_data : ℕ → ℕ → ReqCreateRole → PlayerDataMsg
role_data count user_id role = record empty_data {
  object_id = obj_id object_type_player (next_count count);
  user_id = user_id;
  player_name = role.player_name;
  player_job = role.player_job;
  player_country = role.player_country;
}
