-- ===== src/Game/World.antt =====
-- The maps (projects/logic_svr/define_game_map.h and `MapDataManager` of data_cache.cpp), and the
-- operations of projects/logic_svr/map_module.cpp and login_module.cpp on maps and players. `none` is a
-- read outside an array, or the missing `return` of `GetMapTowerAoi` for an unknown map.
pub mod Near
pub mod Walk
pub mod Begin
use qclib.Base.{
  ℕ, zero, ◌+◌, ◌%◌, ◌≡◌, Bool, true, false, not, ◌&&◌, List, [], ◌∷◌, Option, none, some, ◌>>=◌,
  ◌==◌, if◌then◌else◌, get_elem?,
}
use qclib.Base.Int.{ℤ, pos, negsuc, ◌+ℤ◌, ◌*ℤ◌, ltb_ℤ, to_i16}
use qclib.ObjectSet.{ObjectSet, Moves}
use qclib.Aoi.{Point, TowerAoi}
use qclib.Aoi.Ops.{add_watcher, del_watcher, move_watcher}
use qclib.Table.{Table, find, update}
use qclib.Game.{
  Game, PlayerMapData, move_refused, get_object_id, have_player_data, del_player_data,
  get_player_map_data, set_player_map_data, send,
}
use qclib.Game.Views.{send_del_view_players, send_move_view_players, send_add_view_players}

-- `MapGrid` by its flags; bit 0 is `bitCanWalk`.
abbrev pub MapGrid : Type 0
MapGrid = ℕ

pub record GameMap : Type 0 where
  pub map_width : ℕ
  pub map_height : ℕ
  pub map_grid_info : List MapGrid
  pub toweraoi : TowerAoi

pub record World : Type 0 where
  pub game : Game
  pub maps : Table GameMap

-- `GameMap::GetGridInfo`: what it returns, and the grid that it leaves.
unfoldable pub get_grid_info : GameMap → Point → MapGrid → Option (Bool × MapGrid)
get_grid_info m p grid =
    if ltb_ℤ p.x (pos m.map_width) && ltb_ℤ p.y (pos m.map_height)
    then (elim (p.y *ℤ pos m.map_width +ℤ p.x) [
      | pos n ↦ get_elem? m.map_grid_info n >>= λ grid'. some (true, grid')
      | negsuc _ ↦ none
    ])
    else some (false, grid)

-- `IsGridCanWalk`: the flags of a new `MapGridInfo` are 0, and what `GetGridInfo` returns is not looked
-- at.
unfoldable pub is_grid_can_walk : World → ℕ → Point → Option Bool
is_grid_can_walk w mapid p = elim (find mapid w.maps) [
  | none ↦ some false
  | some m ↦ get_grid_info m p 0 >>= λ (_, grid). some (grid % 2 == 0)
]

-- A map whose towers have changed.
abbrev pub set_aoi : World → ℕ → TowerAoi → World
set_aoi w mapid a = record w {
  maps = update mapid (λ (m : GameMap). record m { toweraoi = a }) w.maps;
}

abbrev pub no_moves : Moves
no_moves = record { inserted = []; same = []; removed = [] }

unfoldable pub add_user_to_map : World → ℕ → ℕ → ℕ → Option World
add_user_to_map w mapid user obj = elim (get_player_map_data w.game obj) [
  | none ↦ some w
  | some mapdata ↦ (do
    m ← find mapid w.maps
    (a, watchers, _) ← add_watcher m.toweraoi obj mapdata.location [] []
    some (record (set_aoi w mapid a) {
      game = send_add_view_players w.game user obj watchers mapdata;
    }))
]

unfoldable pub del_user_from_map : World → ℕ → ℕ → Option World
del_user_from_map w user obj = elim (get_player_map_data w.game obj) [
  | none ↦ some w
  | some mapdata ↦ (do
    m ← find mapdata.map_id w.maps
    (a, watchers, _) ← del_watcher m.toweraoi obj mapdata.location [] []
    some (record (set_aoi w mapdata.map_id a) {
      game = send_del_view_players w.game user obj watchers;
    }))
]

-- The views and the data of a player after a move; `mapdata` has the new location.
unfoldable pub moved_game : Game → ℕ → ℕ → PlayerMapData → Moves → Game
moved_game g user obj mapdata ws =
    if have_player_data g obj
    then (let g1 = send_del_view_players g user obj ws.removed in
        let g2 = send_move_view_players g1 user obj mapdata in
        let mapdata' = record mapdata { move_count = mapdata.move_count + 1 } in
        let g3 = send_add_view_players g2 user obj ws.inserted mapdata' in
        (set_player_map_data g3 obj mapdata').1)
    else (set_player_map_data g obj mapdata).1

-- `PlayerMapData()`.
abbrev pub zero_map_data : PlayerMapData
zero_map_data = record {
  map_id = 0;
  location = record { x = pos 0; y = pos 0 };
  move_speed = 0;
  move_count = 0;
}

unfoldable pub map_data_or_zero : Game → ℕ → PlayerMapData
map_data_or_zero g obj = elim (get_player_map_data g obj) [ none ↦ zero_map_data | some d ↦ d ]

unfoldable pub move_to : World → ℕ → ℕ → PlayerMapData → Point → Option World
move_to w user obj mapdata dst = do
  m ← find mapdata.map_id w.maps
  (a, ws, _) ← move_watcher m.toweraoi obj mapdata.location dst no_moves no_moves
  some (record (set_aoi w mapdata.map_id a) {
    game = moved_game w.game user obj (record mapdata { location = dst }) ws;
  })

-- `PlayerMove`, to the coordinates of the command.
unfoldable pub player_move : World → ℕ → ℕ → ℤ → ℤ → Option World
player_move w user obj curx cury =
    let dst : Point = record { x = to_i16 curx; y = to_i16 cury } in
    let mapdata = map_data_or_zero w.game obj in
    is_grid_can_walk w mapdata.map_id dst >>= λ can.
    if can
    then move_to w user obj mapdata dst
    else some
        (record w { game = send w.game (move_refused user obj mapdata.map_id mapdata.location) })

-- `LoginModule::ClientReady`, with the map module in place.
unfoldable pub client_ready : World → ℕ → Option World
client_ready w user = add_user_to_map w 1 user (get_object_id w.game user)

-- `LoginModule::LoginOut`, with the map module in place.
unfoldable pub login_out : World → ℕ → Option World
login_out w user =
    let obj = get_object_id w.game user in
    if have_player_data w.game obj
    then (del_user_from_map w user obj >>= λ w'.
        some (record w' { game = (del_player_data w'.game obj).1 }))
    else some w
