-- ===== src/Game.antt =====
-- projects/logic_svr/data_cache.cpp, namespace `DataManager`, on the records of
-- projects/logic_svr/define_logic_data.h: the players that are loaded and the object that each user
-- plays. An id is a number, and a name is the list of its bytes.
pub mod Views
pub mod Chat
pub mod Saved
pub mod Stored
pub mod Tables
pub mod World
mod Tests
use qclib.Base.{
  ℕ, ◌≡◌, Bool, true, false, not, ◌&&◌, List, [], ◌∷◌, ◌++◌, map, Option, none, some, ◌==◌,
  if◌then◌else◌,
}
use qclib.Base.Int.{ℤ, pos}
use qclib.ObjectSet.{ObjectSet}
use qclib.Aoi.{Point}
use qclib.Table.{Table, find, is_some, insert_new, remove, update}

pub record PlayerBase : Type 0 where
  pub object_id : ℕ
  pub user_id : ℕ
  pub player_name : List ℕ
  pub player_level : ℤ
  pub player_job : ℕ
  pub player_country : ℕ
  pub last_login_time : ℕ

-- `PlayerDataMsg` has the same fields.
abbrev pub PlayerDataMsg : Type 0
PlayerDataMsg = PlayerBase

pub record PlayerMapData : Type 0 where
  pub map_id : ℕ
  pub location : Point
  pub move_speed : ℕ
  pub move_count : ℕ

pub record PlayerData : Type 0 where
  pub base_data : PlayerBase
  pub map_data : PlayerMapData
  pub view_object_set : ObjectSet

-- What is sent to a user: a `MapDelObject`, a `MapAddObject`, an `AckMove` under `MOVE_ACK`, and the
-- `AckMove` that a refused move gets under `DELOBJ_CMD`, and the bytes of a `CHAT_CMD`.
pub data Notice : Type 0 where
  del_object : (user : ℕ) → (obj : ℕ) → Notice
  add_object : (user : ℕ) → (obj : ℕ) → Point → Notice
  move_ack : (user : ℕ) → (obj : ℕ) → (mapid : ℕ) → Point → Notice
  move_refused : (user : ℕ) → (obj : ℕ) → (mapid : ℕ) → Point → Notice
  chat : (user : ℕ) → List ℕ → Notice

-- The two tables, `defult_object_set`, what was written to the database and what was sent, each oldest
-- first.
pub record Game : Type 0 where
  pub user_object_ids : Table ℕ
  pub players : Table PlayerData
  pub default_set : ObjectSet
  pub saved : List PlayerDataMsg
  pub sent : List Notice

-- The constructor of `PlayerData`.
unfoldable pub new_player : PlayerDataMsg → PlayerData
new_player msg = record {
  base_data = msg;
  map_data = record {
    map_id = 1;
    location = record { x = pos 1; y = pos 1 };
    move_speed = 100;
    move_count = 0;
  };
  view_object_set = [];
}

-- 0 for a user without an object.
unfoldable pub get_object_id : Game → ℕ → ℕ
get_object_id g user = elim (find user g.user_object_ids) [ none ↦ 0 | some obj ↦ obj ]

unfoldable pub get_user_id : Game → ℕ → ℕ
get_user_id g obj = elim (find obj g.players) [ none ↦ 0 | some p ↦ p.base_data.user_id ]

unfoldable pub have_player_data : Game → ℕ → Bool
have_player_data g obj = is_some (find obj g.players)

unfoldable pub add_player_data : Game → PlayerDataMsg → Bool × Game
add_player_data g msg = elim (find msg.object_id g.players) [
  | none ↦ (
    true,
    record g {
      players = insert_new msg.object_id (new_player msg) g.players;
      user_object_ids = insert_new msg.user_id msg.object_id g.user_object_ids;
    },
  )
  | some _ ↦ (false, g)
]

-- `GetPlayerAllData` copies all fields of the base data.
unfoldable pub del_player_data : Game → ℕ → Bool × Game
del_player_data g obj = elim (find obj g.players) [
  | none ↦ (false, g)
  | some p ↦ (
    true,
    record g {
      players = remove obj g.players;
      user_object_ids = remove p.base_data.user_id g.user_object_ids;
      saved = g.saved ++ p.base_data ∷ [];
    },
  )
]

-- `GetPlayerBase` fills all but the object id of `base`.
unfoldable pub get_player_base_data : Game → ℕ → PlayerBase → Bool × PlayerBase
get_player_base_data g obj base = elim (find obj g.players) [
  | none ↦ (false, base)
  | some p ↦ (true, record p.base_data { object_id = base.object_id })
]

-- `SetPlayerBase` writes all but the object id.
unfoldable pub set_player_base_data : Game → ℕ → PlayerBase → Bool × Game
set_player_base_data g obj base =
    if have_player_data g obj
    then (
      true,
      record g {
        players =
            update obj
              (λ (p : PlayerData). record p {
                base_data = record base { object_id = p.base_data.object_id };
              })
              g.players;
      },
    )
    else (false, g)

unfoldable pub get_player_map_data : Game → ℕ → Option PlayerMapData
get_player_map_data g obj = elim (find obj g.players) [ none ↦ none | some p ↦ some p.map_data ]

unfoldable pub set_player_map_data : Game → ℕ → PlayerMapData → Bool × Game
set_player_map_data g obj mapdata =
    if have_player_data g obj
    then (
      true,
      record g {
        players = update obj (λ (p : PlayerData). record p { map_data = mapdata }) g.players;
      },
    )
    else (false, g)

-- `GetUserIds`: ids without a player are passed over.
unfoldable pub get_user_ids : Game → ObjectSet → List ℕ
get_user_ids g [] = []
get_user_ids g (obj ∷ objs) =
    let rest = get_user_ids g objs in
    elim (find obj g.players) [ none ↦ rest | some p ↦ p.base_data.user_id ∷ rest ]

-- `GetAllUserId` and `GetAllPlayerId`
abbrev pub get_all_user_id : Game → List ℕ
get_all_user_id g = map (λ (entry : ℕ × ℕ). entry.0) g.user_object_ids

abbrev pub get_all_player_id : Game → List ℕ
get_all_player_id g = map (λ (entry : ℕ × ℕ). entry.1) g.user_object_ids

-- `GetViewListPlayerSet`: a reference to the player's set, or to `defult_object_set`. Reading and writing
-- through it:
unfoldable pub view_set : Game → ℕ → ObjectSet
view_set g obj = elim (find obj g.players) [ none ↦ g.default_set | some p ↦ p.view_object_set ]

unfoldable pub set_view_set : Game → ℕ → ObjectSet → Game
set_view_set g obj s =
    if have_player_data g obj
    then record g {
      players = update obj (λ (p : PlayerData). record p { view_object_set = s }) g.players;
    }
    else record g { default_set = s }

-- `SendMsgToPlayer`.
unfoldable pub send : Game → Notice → Game
send g n = record g { sent = g.sent ++ n ∷ [] }
