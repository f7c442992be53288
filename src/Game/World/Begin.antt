-- ===== src/Game/World/Begin.antt =====
-- projects/logic_svr/define_game_map.h and `MapDataManager` of data_cache.cpp: the map that the server
-- makes when it starts.
use qclib.Base.{
  ℕ, ◌*◌, ◌≡◌, refl, arith, Bool, true, false, ◌&&◌, List, [], Option, none, some, ltb,
  if◌then◌else◌, replicate, ◌>>=◌,
}
use qclib.Base.Int.{ℤ}
use qclib.ObjectSet.{contains}
use qclib.Aoi.{TowerAoi, Point}
use qclib.Aoi.Init.{make, sized}
use qclib.Aoi.Built.{make_lem}
use qclib.Table.{find, insert_new, find-insert_new_self}
use qclib.Game.{Game, view_set}
use qclib.Game.Views.Pairs.{IsMutual}
use qclib.Game.World.{GameMap, MapGrid, World, get_grid_info}
use qclib.Game.World.Near.{IsLive}

-- `InitMapGrids`: `old` is what `m_map_grid_info` held, which a map of one row or column keeps.
abbrev pub init_map_grids : ℕ → ℕ → List MapGrid → Bool × List MapGrid
init_map_grids width height old =
    if ltb 1 width && ltb 1 height then (true, replicate (width * height) 0) else (false, old)

-- `LoadMapData`; the name of the file is not used.
abbrev pub load_map_data : ℕ → ℕ → List MapGrid → Bool × List MapGrid
load_map_data width height old =
    let (done, grids) = init_map_grids width height old in
    if done then (true, grids) else (false, grids)

-- `TestTnit` on a new `GameMap`; `blank_id` is what the allocator leaves in the ids of the towers.
unfoldable pub test_init : ℤ → Option GameMap
test_init blank_id = make 100 100 5 5 20 20 1 blank_id >>= λ (toweraoi : TowerAoi). some (record {
  map_width = 100;
  map_height = 100;
  map_grid_info = (init_map_grids 100 100 []).1;
  toweraoi = toweraoi;
})

-- `NewAndAddMap`; the id of the map is 1.
unfoldable pub new_and_add_map : ℤ → World → Option World
new_and_add_map blank_id w =
    test_init blank_id >>= λ (m : GameMap). some (record w { maps = insert_new 1 m w.maps })

-- `GetMapGridInfo`
unfoldable pub get_map_grid_info : World → ℕ → Point → MapGrid → Option (Bool × MapGrid)
get_map_grid_info w mapid p grid = elim (find mapid w.maps) [
  | none ↦ some (false, grid)
  | some m ↦ get_grid_info m p grid
]

-- The tables before the first player.
abbrev pub new_game : Game
new_game = record { user_object_ids = []; players = []; default_set = []; saved = []; sent = [] }

abbrev pub new_world : World
new_world = record { game = new_game; maps = [] }

no_views : (i : ℕ) → view_set new_game i ≡ []
unfolding view_set find
no_views i = refl

new_game-IsMutual : IsMutual new_game
unfolding contains view_set find
new_game-IsMutual = record {
  both = λ i j. refl;
  not_self = λ i. refl;
  bounded = λ i. omega arith;
  sorted = λ i. tt;
  no_default = refl;
}

-- The server starts with a live state: NewAndAddMap succeeds on the empty tables, whatever is in the
-- memory of the towers, and on its map 1 nobody stands, watches or sees anybody.
pub new_and_add_map-IsLive :
    (blank_id : ℤ)
    → (w : World) × (m : GameMap) × (new_and_add_map blank_id new_world ≡ some w)
      × IsLive w 1 m (λ _. none) (λ _. false)
unfolding new_and_add_map test_init contains view_set find sized
new_and_add_map-IsLive blank_id =
    let (ts, r, tracks, labels) =
      make_lem 100 100 5 5 20 20 1 blank_id (omega arith) (omega arith) refl (omega arith)
        (omega arith) in
    let m : GameMap = record {
      map_width = 100;
      map_height = 100;
      map_grid_info = (init_map_grids 100 100 []).1;
      toweraoi = record (sized 100 100 5 5 20 20 1 blank_id) { towers = ts };
    } in
    (
      record new_world { maps = insert_new 1 m [] },
      m,
      rw r refl,
      record {
        on_map = find-insert_new_self 1 m [] refl;
        tracks = tracks;
        views = new_game-IsMutual;
        near = λ i j h. h;
      },
    )
