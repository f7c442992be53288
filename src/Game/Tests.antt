-- ===== src/Game/Tests.antt =====
-- Two players log in, move and log out on a map of 30 by 30 cells, and the theorems at these runs.
use qclib.Base.{
  ℕ, ◌≡◌, refl, zero, suc, subst, arith, Bool, true, false, List, [], ◌∷◌, ◌++◌, none, some,
  replicate,
}
use qclib.Base.Int.{pos, ◌+ℤ◌, ◌-ℤ◌, ◌*ℤ◌, to_i16}
use qclib.ObjectSet.{ObjectSet, contains, insert, insert_all, erase}
use qclib.Aoi.{
  TowerAoi, cell_to_tower, view_towers, rounds, visit, visit_row, visit_rows, visit_area,
  change_objs, index,
}
use qclib.Aoi.Ops.{add_or_delete_watcher, tower_of}
use qclib.Aoi.Grid.{cell}
use qclib.Aoi.Seen.{Places}
use qclib.Aoi.Track.{put}
use qclib.Aoi.Tests.{tower, with_towers, empty_map, empty_map-Tracks, same_result}
use qclib.Table.{find, update, insert_new, remove}
use qclib.Game.{
  Game, PlayerBase, PlayerMapData, PlayerData, Notice, add_object, new_player, get_object_id,
  get_user_id, have_player_data, add_player_data, del_player_data, get_player_map_data, view_set,
  set_view_set, send,
}
use qclib.Game.Tables.{IsConsistent, add-del_player_data}
use qclib.Game.Views.{add_to_views, add_one_view, send_add_view_players}
use qclib.Game.Views.Pairs.{IsMutual}
use qclib.Game.World.{
  GameMap, World, is_grid_can_walk, add_user_to_map, client_ready, login_out, player_move,
}
use qclib.Game.World.Walk.{AllOf, can_walk, is_grid_can_walk-rows}
use qclib.Game.World.Begin.{new_world, new_and_add_map, new_and_add_map-IsLive}
use qclib.Game.World.Near.{IsLive}
use qclib.Game.World.Near.Move.{player_move-IsLive}
use qclib.Game.World.Near.Login.{client_ready-IsLive, login_out-IsLive}

abbrev base : ℕ → ℕ → PlayerBase
base obj user = record {
  object_id = obj;
  user_id = user;
  player_name = 97 ∷ [];
  player_level = pos 1;
  player_job = 0;
  player_country = 0;
  last_login_time = 0;
}

abbrev start_data : PlayerMapData
start_data = record { map_id = 1; location = cell 1 1; move_speed = 100; move_count = 0 }

abbrev player : ℕ → ℕ → ObjectSet → PlayerData
player obj user views = record {
  base_data = base obj user;
  map_data = start_data;
  view_object_set = views;
}

abbrev game : ObjectSet → ObjectSet → List Notice → Game
game views1 views2 sent = record {
  user_object_ids = (12, 2) ∷ (11, 1) ∷ [];
  players = (2, player 2 12 views2) ∷ (1, player 1 11 views1) ∷ [];
  default_set = [];
  saved = [];
  sent = sent;
}

abbrev map_with : TowerAoi → GameMap
map_with a = record {
  map_width = 30;
  map_height = 30;
  map_grid_info = replicate 900 0;
  toweraoi = a;
}

abbrev towers_of : ObjectSet → TowerAoi
towers_of s = with_towers (
    tower 0 0 0 s s
    ∷ tower 10 0 1 [] s
    ∷ tower 20 0 2 [] []
    ∷ tower 0 10 3 [] s
    ∷ tower 10 10 4 [] s
    ∷ tower 20 10 5 [] []
    ∷ tower 0 20 6 [] []
    ∷ tower 10 20 7 [] []
    ∷ tower 20 20 8 [] []
    ∷ [])

abbrev empty_world : World
empty_world = record { game = game [] [] []; maps = (1, map_with empty_map) ∷ [] }

abbrev world_1 : World
world_1 = record { game = game [] [] []; maps = (1, map_with (towers_of (1 ∷ []))) ∷ [] }

abbrev world_2 : World
world_2 = record {
  game = game (2 ∷ []) (1 ∷ []) (add_object 12 1 (cell 1 1) ∷ add_object 11 2 (cell 1 1) ∷ []);
  maps = (1, map_with (towers_of (1 ∷ 2 ∷ []))) ∷ [];
}

client_ready-empty_world : client_ready empty_world 11 ≡ some world_1
unfolding client_ready add_user_to_map get_player_map_data find get_object_id add_or_delete_watcher
    index ◌+ℤ◌ ◌*ℤ◌ cell_to_tower to_i16 visit_area rounds ◌-ℤ◌ view_towers visit_rows visit_row
    tower_of change_objs visit add_one_view add_to_views send_add_view_players get_user_id
    have_player_data send set_view_set view_set contains erase insert insert_all update
client_ready-empty_world = refl

client_ready-world_1 : client_ready world_1 12 ≡ some world_2
unfolding client_ready add_user_to_map get_player_map_data find get_object_id add_or_delete_watcher
    index ◌+ℤ◌ ◌*ℤ◌ cell_to_tower to_i16 visit_area rounds ◌-ℤ◌ view_towers visit_rows visit_row
    tower_of change_objs visit add_one_view add_to_views send_add_view_players get_user_id
    have_player_data send set_view_set view_set contains erase insert insert_all update
client_ready-world_1 = refl

no_views : (k : ℕ) → view_set (game [] [] []) k ≡ []
unfolding view_set find
no_views k = ground arith

game-IsMutual : IsMutual (game [] [] [])
unfolding contains
game-IsMutual = record {
  both = λ i j. rw (no_views i, no_views j) refl;
  not_self = λ i. rw (no_views i) refl;
  bounded = λ i. rw (no_views i) (omega arith);
  sorted = λ i. rw (no_views i) tt;
  no_default = refl;
}

empty_world-IsLive : IsLive empty_world 1 (map_with empty_map) (λ _. none) (λ _. false)
unfolding contains find
empty_world-IsLive = record {
  on_map = refl;
  tracks = empty_map-Tracks;
  views = game-IsMutual;
  near = λ i j c. ground (arith, rw (no_views j) at c);
}

found-world :
    (m : GameMap) (a : TowerAoi) (w : World)
    → w.maps ≡ (1, map_with a) ∷ []
    → find 1 w.maps ≡ some m
    → m ≡ map_with a
unfolding find
found-world m a w e f = same_result (rw e at f) refl

abbrev place_1 : Places
place_1 = put (λ _. none) 1 (some (0, 0))

abbrev watching_1 : ℕ → Bool
watching_1 = put (λ _. false) 1 true

abbrev place_2 : Places
place_2 = put place_1 2 (some (0, 0))

abbrev watching_2 : ℕ → Bool
watching_2 = put watching_1 2 true

player_1-data :
    (views1 views2 : ObjectSet) (sent : List Notice)
    → get_player_map_data (game views1 views2 sent) 1 ≡ some start_data
unfolding get_player_map_data find
player_1-data views1 views2 sent = refl

player_2-data :
    (views1 views2 : ObjectSet) (sent : List Notice)
    → get_player_map_data (game views1 views2 sent) 2 ≡ some start_data
unfolding get_player_map_data find
player_2-data views1 views2 sent = refl

plays-1 :
    (views1 views2 : ObjectSet) (sent : List Notice)
    → get_object_id (game views1 views2 sent) 11 ≡ 1
unfolding get_object_id find
plays-1 views1 views2 sent = refl

plays-2 :
    (views1 views2 : ObjectSet) (sent : List Notice)
    → get_object_id (game views1 views2 sent) 12 ≡ 2
unfolding get_object_id find
plays-2 views1 views2 sent = refl

world_1-IsLive : IsLive world_1 1 (map_with (towers_of (1 ∷ []))) place_1 watching_1
world_1-IsLive =
    let (w, m, r, l) =
      client_ready-IsLive 11 1 1 1 (plays-1 [] [] []) start_data empty_world-IsLive
        (player_1-data [] [] []) refl (omega arith) (omega arith) refl in
    let l1 : IsLive world_1 1 m place_1 watching_1 =
      subst (λ v. IsLive v 1 m place_1 watching_1) (same_result r client_ready-empty_world) l in
    subst (λ n. IsLive world_1 1 n place_1 watching_1)
      (found-world m (towers_of (1 ∷ [])) world_1 refl l1.on_map) l1

world_2-IsLive : IsLive world_2 1 (map_with (towers_of (1 ∷ 2 ∷ []))) place_2 watching_2
world_2-IsLive =
    let (w, m, r, l) =
      client_ready-IsLive 12 2 1 1 (plays-2 [] [] []) start_data world_1-IsLive
        (player_2-data [] [] []) refl (omega arith) (omega arith) refl in
    let l2 : IsLive world_2 1 m place_2 watching_2 =
      subst (λ v. IsLive v 1 m place_2 watching_2) (same_result r client_ready-world_1) l in
    subst (λ n. IsLive world_2 1 n place_2 watching_2)
      (found-world m (towers_of (1 ∷ 2 ∷ [])) world_2 refl l2.on_map) l2

abbrev flat_rows : List (List ℕ)
flat_rows = replicate 30 (replicate 30 0)

flat_rows-AllOf : (k : ℕ) → AllOf 30 (replicate k (replicate 30 0))
flat_rows-AllOf zero = tt
flat_rows-AllOf (suc k) = (refl, flat_rows-AllOf k)

can_walk_there : is_grid_can_walk world_2 1 (cell 25 25) ≡ some true
can_walk_there =
    is_grid_can_walk-rows world_2 1 25 25 (map_with (towers_of (1 ∷ 2 ∷ []))) flat_rows
      world_2-IsLive.on_map refl (flat_rows-AllOf 30) refl

client_ready-IsLive_example :
    (w : World) × (m : GameMap) × (client_ready world_1 12 ≡ some w)
    × IsLive w 1 m place_2 watching_2
client_ready-IsLive_example =
    client_ready-IsLive 12 2 1 1 (plays-2 [] [] []) start_data world_1-IsLive
      (player_2-data [] [] []) refl (omega arith) (omega arith) refl

player_move-IsLive_example :
    (w : World) × (m : GameMap) × (player_move world_2 11 1 (pos 25) (pos 25) ≡ some w)
    × IsLive w 1 m (put place_2 1 (some (2, 2))) watching_2
player_move-IsLive_example =
    player_move-IsLive world_2-IsLive 11 1 1 1 25 25 (player_1-data _ _ _) refl (omega arith)
      (omega arith) (omega arith) (omega arith) refl refl (omega arith) (omega arith) can_walk_there

login_out-IsLive_example :
    (w : World) × (m : GameMap) × (login_out world_2 11 ≡ some w)
    × IsLive w 1 m (put place_2 1 none) (put watching_2 1 false)
    × ((k : ℕ) → contains 1 (view_set w.game k) ≡ false)
login_out-IsLive_example =
    login_out-IsLive 11 1 1 1 (plays-1 _ _ _) 1 start_data world_2-IsLive (player_1-data _ _ _) refl
      refl (omega arith) (omega arith) refl

player_1-loaded : have_player_data (game [] [] []) 1 ≡ true
unfolding have_player_data find
player_1-loaded = refl

not_me : contains 1 (2 ∷ []) ≡ false
unfolding contains
not_me = refl

is_grid_can_walk-rows_example :
    is_grid_can_walk world_2 1 (cell 7 3) ≡ some (can_walk flat_rows 7 3)
is_grid_can_walk-rows_example =
    is_grid_can_walk-rows world_2 1 7 3 (map_with (towers_of (1 ∷ 2 ∷ []))) flat_rows
      world_2-IsLive.on_map refl (flat_rows-AllOf 30) refl

abbrev no_game : Game
no_game = record { user_object_ids = []; players = []; default_set = []; saved = []; sent = [] }

no_game-IsConsistent : IsConsistent no_game
unfolding find
no_game-IsConsistent = record { owner = λ user obj e. ground (arith, e) }

not_loaded : find 3 (game [] [] []).players ≡ none
unfolding find
not_loaded = refl

no_object : find 13 (game [] [] []).user_object_ids ≡ none
unfolding find
no_object = refl

add-del_player_data_example :
    let g1 = (add_player_data (game [] [] []) (base 3 13)).1 in
    let g2 = (del_player_data g1 3).1 in
    (get_object_id g1 13 ≡ 3)
    × (get_user_id g1 3 ≡ 13)
    × (g2.saved ≡ [] ++ base 3 13 ∷ [])
    × ((k : ℕ) → find k g2.players ≡ find k (game [] [] []).players)
    × ((k : ℕ) → find k g2.user_object_ids ≡ find k (game [] [] []).user_object_ids)
add-del_player_data_example = add-del_player_data (game [] [] []) (base 3 13) not_loaded no_object

-- A user with two loaded players: when the second goes, the user has no object though the first is there.
second_player :
    get_object_id
      (del_player_data (add_player_data (add_player_data no_game (base 1 11)).1 (base 2 11)).1 2).1
      11
    ≡ 0
unfolding get_object_id find del_player_data add_player_data insert_new remove new_player
second_player = refl

new_and_add_map-IsLive_example :
    (w : World) × (m : GameMap) × (new_and_add_map (pos 9) new_world ≡ some w)
    × IsLive w 1 m (λ _. none) (λ _. false)
new_and_add_map-IsLive_example = new_and_add_map-IsLive (pos 9)
