-- ===== src/Game/World/Near/Move.antt =====
-- `PlayerMove` of projects/logic_svr/map_module.cpp.
use mathlib.Core.Path.{fun_ext}
use qclib.Base.{
  ℕ, ◌+◌, ◌<◌, ◌≡◌, refl, sym, ap, subst, ◌∙◌, arith, Bool, true, false, not, ◌&&◌, ◌||◌, List,
  some, ◌==◌, ==_iff, Bool-cases, inl, inr,
}
use qclib.Base.Int.{pos, to_i16-pos}
use qclib.ObjectSet.{Moves, contains}
use qclib.Aoi.{Tower, TowerAoi}
use qclib.Aoi.Grid.{cell, cell_to_tower-cell}
use qclib.Aoi.Seen.{Places}
use qclib.Aoi.Track.{put, sees, Tracks}
use qclib.Aoi.Ops.{move_watcher}
use qclib.Aoi.Watchers.{tower_x, tower_y}
use qclib.Aoi.Movers.{move_watcher_lem, move_watcher_within, sees_own, put_same}
use qclib.Game.{Game, PlayerMapData, view_set, have_player_data, get_player_map_data}
use qclib.Game.Views.{send_del_view_players, send_move_view_players, send_add_view_players}
use qclib.Game.Views.Pairs.{IsMutual}
use qclib.Game.Views.Removed.{send_del_view_players-IsMutual, have-send_del_view_players}
use qclib.Game.Views.Added.{listed, send_add_view_players-Grown}
use qclib.Game.World.{
  GameMap, World, set_aoi, no_moves, moved_game, move_to, map_data_or_zero, is_grid_can_walk,
  player_move,
}
use qclib.Game.World.Near.Frames.{
  find-set_aoi, have-loaded, SameViews-IsMutual, move_views-SameViews, set_data-SameViews,
}
use qclib.Game.World.Near.{meets, meets_sym, meets_of_sees, IsLive, near-sees}

-- Who may see whom after a move.
pub record Moved (g g' : Game) (obj : ℕ) (ws : Moves) : Type 0 where
  pub views_kept : IsMutual g'
  pub only :
      (i j : ℕ)
      → contains i (view_set g' j) ≡ true
      → contains i (view_set g j) && not (listed obj ws.removed i j) || listed obj ws.inserted i j
        ≡ true

pub moved_game-Moved :
    (g : Game) (user obj : ℕ) (d : PlayerMapData) (ws : Moves)
    → IsMutual g
    → have_player_data g obj ≡ true
    → contains obj ws.inserted ≡ false
    → Moved g (moved_game g user obj d ws) obj ws
unfolding moved_game
moved_game-Moved g user obj d ws m h n =
    let g1 = send_del_view_players g user obj ws.removed in
    let (m1, found1) = send_del_view_players-IsMutual g user obj ws.removed m in
    let h1 = have-send_del_view_players g user obj ws.removed obj m ∙ h in
    let s2 = move_views-SameViews g1 user obj d in
    let d' = record d { move_count = d.move_count + 1 } in
    let g2 = send_move_view_players g1 user obj d in
    let v =
      send_add_view_players-Grown g2 user obj ws.inserted d' (SameViews-IsMutual s2 m1)
        (s2.haves_same obj ∙ h1) n in
    let g3 = send_add_view_players g2 user obj ws.inserted d' in
    let s4 = set_data-SameViews g3 obj d' in
    rw (h, moved_game)
      (record {
        views_kept = SameViews-IsMutual s4 v.mutual_kept;
        only = λ i j c. ground (
          arith,
          v.only i j (sym (ap (contains i) (s4.views_same j)) ∙ c),
          ap (contains i) (s2.views_same j),
          found1 i j,
        );
      })

module _ {w : World} {mapid : ℕ} {m : GameMap} {place : Places} {watching : ℕ → Bool}
    (l : IsLive w mapid m place watching) (obj : ℕ) (new : ℕ × ℕ)
    (watches : watching obj ≡ true) where
  -- One who watches from near the new tower.
  abbrev IsBeside : ℕ → Type 0
  IsBeside k = watching k && meets m.toweraoi (place k) (some new) ≡ true

  in_my_view :
      (g' : Game) (ws : Moves)
      → Moved w.game g' obj ws
      → contains obj ws.inserted ≡ false
      → ((k : ℕ)
          → contains k (view_set w.game obj) ≡ true
          → contains k ws.removed ≡ false
          → IsBeside k)
      → ((k : ℕ) → contains k ws.inserted ≡ true → IsBeside k)
      → (k : ℕ) → contains k (view_set g' obj) ≡ true
      → (obj == k ≡ false) × IsBeside k
  in_my_view g' ws v n stay come k c = (
    ground (arith, v.views_kept.not_self obj, c),
    elim (Bool-cases (contains k ws.inserted)) [
      | inl e ↦ come k e
      | inr e ↦ stay k (ground (arith, v.only k obj c, e, n)) (ground (arith, v.only k obj c, e, n))
    ],
  )

  -- Views reach only near players after a move, if those of the moved player who stay and those who come
  -- are near its new tower.
  near-Moved :
      (g' : Game) (ws : Moves)
      → Moved w.game g' obj ws
      → contains obj ws.inserted ≡ false
      → ((k : ℕ)
          → contains k (view_set w.game obj) ≡ true
          → contains k ws.removed ≡ false
          → IsBeside k)
      → ((k : ℕ) → contains k ws.inserted ≡ true → IsBeside k)
      → (i j : ℕ) → contains i (view_set g' j) ≡ true
      → watching i && meets m.toweraoi (put place obj (some new) i) (put place obj (some new) j)
        ≡ true
  near-Moved g' ws v n stay come i j c = elim (Bool-cases (obj == j)) [
    | inl e ↦
        let at_obj : contains i (view_set g' obj) ≡ true =
          subst (λ k. contains i (view_set g' k) ≡ true) (sym ((==_iff obj j).0 e)) c in
        let (apart, b) = in_my_view g' ws v n stay come i at_obj in rw (apart, e) b
    | inr e ↦ elim (Bool-cases (obj == i)) [
      | inl f ↦
          let back : contains j (view_set g' obj) ≡ true =
            subst (λ k. contains j (view_set g' k) ≡ true) (sym ((==_iff obj i).0 f))
              (sym (v.views_kept.both i j) ∙ c) in
          let (apart, b) = in_my_view g' ws v n stay come j back in
          let watches_i : watching i ≡ true =
            subst (λ k. watching k ≡ true) ((==_iff obj i).0 f) watches in
          rw (e, f, watches_i) (meets_sym m.toweraoi (some new) (place j) ∙ ground (arith, b))
      | inr f ↦ rw (e, f) (l.near i j (ground (arith, v.only i j c)))
    ]
  ]

kept_in : (was is c : Bool) → c ≡ false || was && not is → was ≡ true → c ≡ false → is ≡ true
kept_in was is c e f g = ground arith

come_in : (was is c : Bool) → c ≡ false || is && not was → c ≡ true → (is ≡ true) × (was ≡ false)
come_in was is c e f = ground arith

module _ {w : World} {d : PlayerMapData} {m : GameMap} {place : Places} {watching : ℕ → Bool}
    (l : IsLive w d.map_id m place watching) (user obj ox oy nx ny : ℕ)
    (loaded : get_player_map_data w.game obj ≡ some d) (at_cell : d.location ≡ cell ox oy)
    (in_ox : ox < m.toweraoi.weight) (in_oy : oy < m.toweraoi.hight)
    (in_nx : nx < m.toweraoi.weight) (in_ny : ny < m.toweraoi.hight)
    (stands_at : place obj ≡ some (tower_x m.toweraoi ox, tower_y m.toweraoi oy))
    (watches : watching obj ≡ true) where
  abbrev new : ℕ × ℕ
  new = (tower_x m.toweraoi nx, tower_y m.toweraoi ny)

  watched_old :
      watching obj && sees m.toweraoi (place obj) (tower_x m.toweraoi ox) (tower_y m.toweraoi oy)
      ≡ true
  watched_old =
      let (_, hx, hy) = cell_to_tower-cell ox oy l.tracks.grid in_ox in_oy in
      rw (watches, stands_at) (sees_own m.toweraoi _ _ hx hy)

  not_me :
      (k : ℕ)
      → watching k && sees m.toweraoi (place k) (tower_x m.toweraoi ox) (tower_y m.toweraoi oy)
        ≡ false
      → obj == k ≡ false
  not_me k e = elim (Bool-cases (obj == k)) [
    | inr f ↦ f
    | inl f ↦ ground (
      arith,
      e,
      subst
          (λ i.
            watching i && sees m.toweraoi (place i) (tower_x m.toweraoi ox) (tower_y m.toweraoi oy)
            ≡ true)
          ((==_iff obj k).0 f) watched_old,
    )
  ]

  beside_new :
      (k : ℕ)
      → obj == k ≡ false
      → watching k
          && sees m.toweraoi
              (put place obj (some new) k)
              (tower_x m.toweraoi nx)
              (tower_y m.toweraoi ny)
        ≡ true
      → watching k && meets m.toweraoi (place k) (some new) ≡ true
  beside_new k apart h =
      let h' : watching k
            && sees m.toweraoi (place k) (tower_x m.toweraoi nx) (tower_y m.toweraoi ny)
          ≡ true =
        rw apart at h in
      let watches_k : watching k ≡ true = ground (arith, h') in
      rw watches_k (meets_of_sees m.toweraoi (place k) _ _ (rw watches_k at h'))

  was_seen :
      (k : ℕ)
      → contains k (view_set w.game obj) ≡ true
      → watching k && sees m.toweraoi (place k) (tower_x m.toweraoi ox) (tower_y m.toweraoi oy)
        ≡ true
  was_seen k c =
      let (_, hx, hy) = cell_to_tower-cell ox oy l.tracks.grid in_ox in_oy in
      near-sees l obj k _ _ stands_at hx hy c

  abbrev Result : Type 0
  Result =
      (ts : List Tower) × (ws : Moves) × (os : Moves) × (move_watcher m.toweraoi obj (cell ox oy)
          (cell nx ny) no_moves no_moves
        ≡ some (record m.toweraoi { towers = ts }, ws, os))
      × Tracks (record m.toweraoi { towers = ts }) (put place obj (some new)) watching
      × (contains obj ws.inserted ≡ false)
      × ((k : ℕ)
          → contains k (view_set w.game obj) ≡ true
          → contains k ws.removed ≡ false
          → watching k && meets m.toweraoi (place k) (some new) ≡ true)
      × ((k : ℕ)
          → contains k ws.inserted ≡ true
          → watching k && meets m.toweraoi (place k) (some new) ≡ true)

  goes_on :
      tower_x m.toweraoi ox == tower_x m.toweraoi nx
          && tower_y m.toweraoi oy == tower_y m.toweraoi ny
        ≡ false
      → Result
  unfolding contains
  goes_on e =
      let (ts, ws, os, r, tr, cw, _) =
        move_watcher_lem l.tracks obj ox oy nx ny no_moves no_moves in_ox in_oy in_nx in_ny
          stands_at watches e in
      (
        ts,
        ws,
        os,
        r,
        tr,
        (cw obj).inserts ∙ rw watched_old (ground arith),
        (λ k c g.
            beside_new k (ground (arith, l.views.not_self obj, c))
              (kept_in _ _ _ (cw k).removes (was_seen k c) g)),
        (λ k c.
            beside_new k (not_me k (come_in _ _ _ (cw k).inserts c).1)
              (come_in _ _ _ (cw k).inserts c).0),
      )

  stays :
      tower_x m.toweraoi ox == tower_x m.toweraoi nx
          && tower_y m.toweraoi oy == tower_y m.toweraoi ny
        ≡ true
      → Result
  unfolding contains
  stays e =
      let (ws, r, cw) =
        move_watcher_within l.tracks obj ox oy nx ny no_moves no_moves in_ox in_oy in_nx in_ny e in
      let ex : tower_x m.toweraoi ox ≡ tower_x m.toweraoi nx = ground (arith, e) in
      let ey : tower_y m.toweraoi oy ≡ tower_y m.toweraoi ny = ground (arith, e) in
      let same : place obj ≡ some new = stands_at ∙ rw (ex, ey) refl in
      (
        m.toweraoi.towers,
        ws,
        no_moves,
        r,
        subst (λ q. Tracks m.toweraoi q watching)
            (fun_ext (λ k. sym (put_same place obj k (some new) same))) l.tracks,
        (cw obj).inserts ∙ ground arith,
        (λ k c _.
            subst (λ q. watching k && meets m.toweraoi (place k) q ≡ true) same (l.near k obj c)),
        (λ k c. ground (arith, (cw k).inserts, c)),
      )

  loaded_data : map_data_or_zero w.game obj ≡ d
  unfolding map_data_or_zero
  loaded_data = rw (loaded, map_data_or_zero) refl

  -- The two cases of `MoveWatcher` in one.
  watcher_moves : Result
  watcher_moves =
      elim (Bool-cases (
        tower_x m.toweraoi ox == tower_x m.toweraoi nx
        && tower_y m.toweraoi oy == tower_y m.toweraoi ny)) [ inl e ↦ stays e | inr e ↦ goes_on e ]

  -- From a live state, a move to another cell of the map leaves a live state, in which the player
  -- stands at the tower of the new cell.
  move_to-IsLive :
      (w' : World) × (m' : GameMap) × (move_to w user obj d (cell nx ny) ≡ some w')
      × IsLive w' d.map_id m' (put place obj (some new)) watching
  unfolding move_to
  move_to-IsLive =
      let (ts, ws, os, r, tr, n, stay, come) = watcher_moves in
      let a' : TowerAoi = record m.toweraoi { towers = ts } in
      let d' = record d { location = cell nx ny } in
      let g' = moved_game w.game user obj d' ws in
      let v = moved_game-Moved w.game user obj d' ws l.views (have-loaded w.game obj d loaded) n in
      let w' : World = record (set_aoi w d.map_id a') { game = g' } in
      (
        w',
        record m { toweraoi = a' },
        rw (l.on_map, move_to) (rw (at_cell, r) refl),
        record {
          on_map = find-set_aoi w d.map_id m a' l.on_map;
          tracks = tr;
          views = v.views_kept;
          near = near-Moved l obj new watches g' ws v n stay come;
        },
      )

  -- From a live state, `PlayerMove` of a loaded player that watches and stands at the tower of its
  -- location, to a cell of the map that can be walked on and whose coordinates are below 32768,
  -- succeeds and leaves a live state, in which the player stands at the tower of the new cell.
  pub player_move-IsLive :
      nx < 32768
      → ny < 32768
      → is_grid_can_walk w d.map_id (cell nx ny) ≡ some true
      → (w' : World) × (m' : GameMap) × (player_move w user obj (pos nx) (pos ny) ≡ some w')
        × IsLive w' d.map_id m' (put place obj (some new)) watching
  unfolding player_move
  player_move-IsLive sx sy walk =
      let (w', m', r, l') = move_to-IsLive in
      (w', m', rw (to_i16-pos nx sx, to_i16-pos ny sy, player_move) (rw (loaded_data, walk) r), l')
