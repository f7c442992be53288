-- ===== src/Game/Views.antt =====
-- `SendDelViewPlayers`, `SendMoveViewPlayers` and `SendAddViewPlayers` of
-- projects/logic_svr/map_module.cpp: which players see each other.
pub mod Pairs
pub mod Removed
pub mod Added
use qclib.Base.{
  ℕ, ◌≡◌, Bool, true, false, not, ◌&&◌, List, [], ◌∷◌, ◌++◌, Option, none, some, ltb, ◌==◌,
  if◌then◌else◌, length,
}
use qclib.ObjectSet.{ObjectSet, contains, insert, erase}
use qclib.Aoi.{Point}
use qclib.Game.{
  Game, Notice, del_object, add_object, move_ack, PlayerMapData, get_user_id, get_user_ids,
  get_player_map_data, view_set, set_view_set, send,
}

-- `MAX_VIEW_COUNT`.
abbrev pub max_view_count : ℕ
max_view_count = 100

-- `size() > 0`.
abbrev pub is_empty_set : ObjectSet → Bool
is_empty_set [] = true
is_empty_set (x ∷ xs) = false

-- `my_view_player_set` is the reference that `GetViewListPlayerSet(objId)` gave.
-- One who is in my view goes out of it, and I out of his.
unfoldable pub del_from_views : Game → ℕ → ℕ → ℕ → Game
del_from_views g user obj temp =
    let g1 = send (set_view_set g obj (erase temp (view_set g obj))) (del_object user temp) in
    let his = view_set g1 temp in
    if not (is_empty_set his) && contains obj his
    then send (set_view_set g1 temp (erase obj his)) (del_object (get_user_id g1 temp) obj)
    else g1

-- The loop ends early when nobody is left in my view.
unfoldable pub send_del_view_players : Game → ℕ → ℕ → ObjectSet → Game
send_del_view_players g user obj [] = g
send_del_view_players g user obj (temp ∷ temps) =
    if is_empty_set (view_set g obj)
    then g
    else send_del_view_players
        (if contains temp (view_set g obj) then del_from_views g user obj temp else g) user obj
        temps

-- One who is not in my view comes into it, and I into his, if both have room. The last condition looks
-- for me in my own view.
unfoldable pub add_to_views : Game → ℕ → ℕ → PlayerMapData → ℕ → PlayerMapData → Game
add_to_views g user obj mapdata temp his_mapdata =
    let his = view_set g temp in
    if ltb (length his) max_view_count && not (contains obj (view_set g obj))
    then (let g1 =
          send (set_view_set g obj (insert temp (view_set g obj)))
            (add_object user temp his_mapdata.location) in
        send (set_view_set g1 temp (insert obj (view_set g1 temp)))
          (add_object (get_user_id g1 temp) obj mapdata.location))
    else g

unfoldable pub add_one_view : Game → ℕ → ℕ → PlayerMapData → ℕ → Game
add_one_view g user obj mapdata temp =
    if ltb (length (view_set g obj)) max_view_count && not (contains temp (view_set g obj))
    then elim (get_player_map_data g temp) [
      | none ↦ g
      | some his_mapdata ↦ add_to_views g user obj mapdata temp his_mapdata
    ]
    else g

unfoldable pub send_add_view_players : Game → ℕ → ℕ → ObjectSet → PlayerMapData → Game
send_add_view_players g user obj [] mapdata = g
send_add_view_players g user obj (temp ∷ temps) mapdata =
    send_add_view_players (add_one_view g user obj mapdata temp) user obj temps mapdata

-- `BroadcastMsg`.
unfoldable pub broadcast : Game → List ℕ → (ℕ → Notice) → Game
broadcast g [] n = g
broadcast g (user ∷ users) n = broadcast (send g (n user)) users n

unfoldable pub send_move_view_players : Game → ℕ → ℕ → PlayerMapData → Game
send_move_view_players g user obj mapdata =
    let ack : ℕ → Notice = λ to. move_ack to obj mapdata.map_id mapdata.location in
    send (broadcast g (get_user_ids g (view_set g obj)) ack) (ack user)
