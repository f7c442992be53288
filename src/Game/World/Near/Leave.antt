-- ===== src/Game/World/Near/Leave.antt =====
-- `DelUserFromMap` of projects/logic_svr/map_module.cpp.
use qclib.Base.{
  ℕ, ◌<◌, ◌≡◌, refl, ◌∙◌, arith, Bool, true, false, not, ◌&&◌, ◌||◌, [], none, some, ◌==◌,
  Bool-cases, inl, inr,
}
use qclib.ObjectSet.{ObjectSet, contains}
use qclib.Aoi.{TowerAoi}
use qclib.Aoi.Grid.{cell, cell_to_tower-cell}
use qclib.Aoi.Seen.{Places}
use qclib.Aoi.Track.{put, sees}
use qclib.Aoi.Watchers.{tower_x, tower_y, del_watcher_lem}
use qclib.Game.{have_player_data, PlayerMapData, view_set, get_player_map_data}
use qclib.Game.Views.{send_del_view_players}
use qclib.Game.Views.Removed.{send_del_view_players-IsMutual, have-send_del_view_players}
use qclib.Game.World.{GameMap, World, set_aoi, del_user_from_map}
use qclib.Game.World.Near.Frames.{find-set_aoi}
use qclib.Game.World.Near.{IsLive, near-sees}

module _ {w : World} {mapid : ℕ} {m : GameMap} {place : Places} {watching : ℕ → Bool}
    (l : IsLive w mapid m place watching) (user obj x y : ℕ) (d : PlayerMapData)
    (loaded : get_player_map_data w.game obj ≡ some d) (here : d.map_id ≡ mapid)
    (at_cell : d.location ≡ cell x y) (in_x : x < m.toweraoi.weight) (in_y : y < m.toweraoi.hight)
    (stands_at : place obj ≡ some (tower_x m.toweraoi x, tower_y m.toweraoi y)) where
  -- Who is in the view of the player that leaves is told.
  told :
      (watchers : ObjectSet) (k : ℕ)
      → contains k watchers
        ≡ not (obj == k)
          && (contains k []
              || watching k
                && sees m.toweraoi (place k) (tower_x m.toweraoi x) (tower_y m.toweraoi y))
      → contains k (view_set w.game obj) ≡ true
      → contains k watchers ≡ true
  unfolding contains
  told watchers k e c =
      let (_, hx, hy) = cell_to_tower-cell x y l.tracks.grid in_x in_y in
      let s = near-sees l obj k _ _ stands_at hx hy c in
      let apart : obj == k ≡ false = ground (arith, l.views.not_self obj, c) in
      e ∙ rw (apart, s) refl

  -- From a live state, `DelUserFromMap` for a player that stands on the map leaves a live state, in
  -- which the player stands nowhere and nobody sees it, and the same players are loaded.
  pub del_user_from_map-IsLive :
      (w' : World) × (m' : GameMap) × (del_user_from_map w user obj ≡ some w')
      × IsLive w' mapid m' (put place obj none) (put watching obj false)
      × ((k : ℕ) → contains obj (view_set w'.game k) ≡ false)
      × ((k : ℕ) → have_player_data w'.game k ≡ have_player_data w.game k)
  unfolding del_user_from_map
  del_user_from_map-IsLive =
      let (ts, watchers, objs, r, tr, wl, _) =
        del_watcher_lem l.tracks obj x y in_x in_y [] [] stands_at in
      let (views', found) = send_del_view_players-IsMutual w.game user obj watchers l.views in
      let a' : TowerAoi = record m.toweraoi { towers = ts } in
      let w' : World = record (set_aoi w mapid a') {
        game = send_del_view_players w.game user obj watchers;
      } in
      let gone : (i j : ℕ)
          → contains i (view_set w'.game j) ≡ true
          → (obj == i ≡ false) × (obj == j ≡ false) =
        λ i j c.
          ground (
            arith,
            found i j,
            c,
            told watchers i (wl i),
            told watchers j (wl j),
            l.views.both i j,
          ) in
      (
        w',
        record m { toweraoi = a' },
        rw (loaded, del_user_from_map) (rw (here, at_cell, l.on_map, r) refl),
        record {
          on_map = find-set_aoi w mapid m a' l.on_map;
          tracks = tr;
          views = views';
          near = λ i j c.
              let (p, q) = gone i j c in rw (p, q) (l.near i j (ground (arith, found i j, c)));
        },
        (λ k. elim (Bool-cases (contains obj (view_set w'.game k))) [
          | inr e ↦ e
          | inl e ↦ let (p, _) = gone obj k e in ground arith
        ]),
        (λ k. have-send_del_view_players w.game user obj watchers k l.views),
      )
