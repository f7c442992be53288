-- ===== src/Game/World/Near/Enter.antt =====
-- `AddUserToMap` of projects/logic_svr/map_module.cpp.
use qclib.Base.{
  ℕ, ◌<◌, ◌≡◌, refl, sym, subst, ◌∙◌, arith, Bool, true, false, ◌&&◌, ◌||◌, [], Option, none, some,
  ◌==◌, ==_iff, Bool-cases, inl, inr,
}
use qclib.ObjectSet.{ObjectSet, contains}
use qclib.Aoi.{TowerAoi}
use qclib.Aoi.Grid.{cell}
use qclib.Aoi.Seen.{Places}
use qclib.Aoi.Track.{put, sees}
use qclib.Aoi.Watchers.{tower_x, tower_y, add_watcher_lem}
use qclib.Game.{PlayerMapData, view_set, get_player_map_data}
use qclib.Game.Views.{send_add_view_players}
use qclib.Game.Views.Added.{listed, send_add_view_players-Grown}
use qclib.Game.World.{GameMap, World, set_aoi, add_user_to_map}
use qclib.Game.World.Near.Frames.{find-set_aoi, have-loaded}
use qclib.Game.World.Near.{meets, meets_sym, meets_of_sees, IsLive}

meets-none : (a : TowerAoi) (p : Option (ℕ × ℕ)) → meets a p none ≡ false
meets-none a none = refl
meets-none a (some p) = refl

module _ {w : World} {mapid : ℕ} {m : GameMap} {place : Places} {watching : ℕ → Bool}
    (l : IsLive w mapid m place watching) (user obj x y : ℕ) (d : PlayerMapData)
    (loaded : get_player_map_data w.game obj ≡ some d) (at_cell : d.location ≡ cell x y)
    (in_x : x < m.toweraoi.weight) (in_y : y < m.toweraoi.hight)
    (stands_nowhere : place obj ≡ none) where
  -- Nobody sees one who stands nowhere.
  unseen :
      (i j : ℕ) → contains i (view_set w.game j) ≡ true → (obj == i ≡ false) × (obj == j ≡ false)
  unseen i j c = (
    elim (Bool-cases (obj == i)) [
      | inr e ↦ e
      | inl e ↦ ground (
        arith,
        subst (λ q. watching i && meets m.toweraoi q (place j) ≡ true) (nowhere i e) (l.near i j c),
      )
    ],
    elim (Bool-cases (obj == j)) [
      | inr e ↦ e
      | inl e ↦ ground (
        arith,
        meets-none m.toweraoi (place i),
        subst (λ q. watching i && meets m.toweraoi (place i) q ≡ true) (nowhere j e) (l.near i j c),
      )
    ],
  )
    where
      nowhere : (k : ℕ) → obj == k ≡ true → place k ≡ none
      nowhere k e = subst (λ i. place i ≡ none) ((==_iff obj k).0 e) stands_nowhere

  abbrev tx : ℕ
  tx = tower_x m.toweraoi x

  abbrev ty : ℕ
  ty = tower_y m.toweraoi y

  -- One who is told of the player that comes watches from near.
  told_near :
      (watchers : ObjectSet) (k : ℕ)
      → contains k watchers ≡ contains k [] || watching k && sees m.toweraoi (place k) tx ty
      → contains k watchers ≡ true
      → (obj == k ≡ false)
        × (watching k ≡ true)
        × (meets m.toweraoi (place k) (some (tx, ty)) ≡ true)
  unfolding contains
  told_near watchers k e c =
      let s : watching k && sees m.toweraoi (place k) tx ty ≡ true = sym e ∙ c in
      let watches : watching k ≡ true = ground (arith, s) in
      let seen : sees m.toweraoi (place k) tx ty ≡ true = rw watches at s in
      (
        elim (Bool-cases (obj == k)) [
          | inr f ↦ f
          | inl f ↦ ground (
            arith,
            subst (λ q. sees m.toweraoi q tx ty ≡ true)
                (subst (λ i. place i ≡ none) ((==_iff obj k).0 f) stands_nowhere) seen,
          )
        ],
        watches,
        meets_of_sees m.toweraoi (place k) tx ty seen,
      )

  near_entered :
      (watchers : ObjectSet) (i j : ℕ)
      → ((k : ℕ)
          → contains k watchers ≡ contains k [] || watching k && sees m.toweraoi (place k) tx ty)
      → contains i (view_set w.game j) || listed obj watchers i j ≡ true
      → put watching obj true i
          && meets m.toweraoi (put place obj (some (tx, ty)) i) (put place obj (some (tx, ty)) j)
        ≡ true
  unfolding contains
  near_entered watchers i j wl c = elim (Bool-cases (contains i (view_set w.game j))) [
    | inl e ↦ let (p, q) = unseen i j e in rw (p, q) (l.near i j e)
    | inr e ↦ elim (Bool-cases (obj == j && contains i watchers)) [
      | inl f ↦
          let (p, q, r) = told_near watchers i (wl i) (ground (arith, f)) in
          let at_j : obj == j ≡ true = ground (arith, f) in rw (p, q, at_j) r
      | inr f ↦
          let (p, q, r) = told_near watchers j (wl j) (ground (arith, c, e, f)) in
          let at_i : obj == i ≡ true = ground (arith, c, e, f) in
          rw (p, at_i) (meets_sym m.toweraoi (some (tx, ty)) (place j) ∙ r)
    ]
  ]

  -- From a live state, `AddUserToMap` for a loaded player that stands nowhere leaves a live state, in
  -- which the player stands at the tower of its location and watches.
  pub add_user_to_map-IsLive :
      (w' : World) × (m' : GameMap) × (add_user_to_map w mapid user obj ≡ some w')
      × IsLive w' mapid m' (put place obj (some (tx, ty))) (put watching obj true)
  unfolding add_user_to_map contains
  add_user_to_map-IsLive =
      let (ts, watchers, objs, r, tr, wl, _) =
        add_watcher_lem l.tracks obj x y in_x in_y [] [] stands_nowhere in
      let not_told : contains obj watchers ≡ false =
        wl obj
        ∙ ground (arith, subst (λ q. sees m.toweraoi q tx ty ≡ false) (sym stands_nowhere) refl) in
      let v =
        send_add_view_players-Grown w.game user obj watchers d l.views
          (have-loaded w.game obj d loaded) not_told in
      let a' : TowerAoi = record m.toweraoi { towers = ts } in
      let w' : World = record (set_aoi w mapid a') {
        game = send_add_view_players w.game user obj watchers d;
      } in
      (
        w',
        record m { toweraoi = a' },
        rw (loaded, add_user_to_map) (rw (at_cell, l.on_map, r) refl),
        record {
          on_map = find-set_aoi w mapid m a' l.on_map;
          tracks = tr;
          views = v.mutual_kept;
          near = λ i j c. near_entered watchers i j wl (v.only i j c);
        },
      )
