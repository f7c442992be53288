-- ===== src/Game/Stored/Tests.antt =====
-- What comes back of a player with a name that is not one word, and the theorem at a concrete role.
use qclib.Base.{◌≡◌, refl, [], ◌∷◌, none}
use qclib.Base.Int.{pos}
use qclib.Names.{same}
use qclib.DbGateway.{bytes}
use qclib.Redis.{Client}
use qclib.Redis.Server.{linked}
use qclib.Redis.Tests.{small_redis}
use qclib.Game.{Game, PlayerDataMsg}
use qclib.Game.Saved.{
  Text, digits, value, get_string, get_nat, get_int, struct_to_map, map_to_struct,
}
use qclib.Game.Stored.{empty_data, ReqCreateRole, Server}

-- A name with a blank comes back cut, and an empty one as the id of the user.
abbrev named : Text → PlayerDataMsg
named t = record empty_data { object_id = 5; user_id = 77; player_name = t }

cut_name : map_to_struct (struct_to_map [] (named (97 ∷ 32 ∷ 98 ∷ []))) empty_data ≡ named (97 ∷ [])
unfolding same map_to_struct struct_to_map digits value get_string get_nat get_int
cut_name = refl

empty_name : map_to_struct (struct_to_map [] (named [])) empty_data ≡ named (55 ∷ 55 ∷ [])
unfolding same map_to_struct struct_to_map digits value get_string get_nat get_int
empty_name = refl

abbrev no_game : Game
no_game = record { user_object_ids = []; players = []; default_set = []; saved = []; sent = [] }

abbrev small_client : Client small_redis
small_client = record { redis_ip = bytes "ip"; redis_port = pos 6379; redis_context = none }

abbrev server : Server small_redis
server = record { game = no_game; db = linked small_redis small_client []; count = 4; acks = [] }

abbrev archer : ReqCreateRole
archer = record { player_name = bytes "bob"; player_job = 2; player_country = 1 }
