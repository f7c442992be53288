-- ===== src/Game/World/Near/Login.antt =====
-- `ClientReady` and `LoginOut` of projects/logic_svr/login_module.cpp.
use qclib.Base.{
  ℕ, ◌<◌, ◌≡◌, refl, sym, ap, subst, ◌∙◌, arith, Bool, true, false, Option, none, some, ◌==◌,
  ==_iff, if◌then◌else◌, Bool-cases, inl, inr, length,
}
use qclib.ObjectSet.{ObjectSet, contains}
use qclib.Aoi.Grid.{cell}
use qclib.Aoi.Seen.{Places}
use qclib.Aoi.Track.{put}
use qclib.Aoi.Watchers.{tower_x, tower_y}
use qclib.Table.{find, is_some, find-remove}
use qclib.Game.{
  Game, PlayerData, PlayerMapData, view_set, have_player_data, get_player_map_data, get_object_id,
  del_player_data,
}
use qclib.Game.Views.Pairs.{IsMutual}
use qclib.Game.World.{GameMap, World, login_out, client_ready}
use qclib.Game.World.Near.{IsLive}
use qclib.Game.World.Near.Frames.{have-loaded}
use qclib.Game.World.Near.Enter.{add_user_to_map-IsLive}
use qclib.Game.World.Near.Leave.{del_user_from_map-IsLive}

player_of : (p : Option PlayerData) → is_some p ≡ true → (q : PlayerData) × (p ≡ some q)
player_of none h = ground (arith, h)
player_of (some q) h = (q, refl)

view_of_removed :
    (b : Bool) (p : Option PlayerData) (d : ObjectSet)
    → (elim (if b then none else p) [ none ↦ d | some q ↦ q.view_object_set ])
      ≡ (if b then d else elim p [ none ↦ d | some q ↦ q.view_object_set ])
view_of_removed true p d = refl
view_of_removed false p d = refl

view_set-del :
    (g : Game) (obj k : ℕ)
    → have_player_data g obj ≡ true
    → view_set (del_player_data g obj).1 k ≡ (if obj == k then g.default_set else view_set g k)
unfolding view_set have_player_data del_player_data
view_set-del g obj k h =
    let (q, e) = player_of (find obj g.players) h in
    rw (e, del_player_data)
      (rw (view_set, find-remove k obj g.players)
        (view_of_removed (obj == k) (find k g.players) g.default_set))

default-del :
    (g : Game) (obj : ℕ)
    → have_player_data g obj ≡ true
    → (del_player_data g obj).1.default_set ≡ g.default_set
unfolding have_player_data del_player_data
default-del g obj h = let (q, e) = player_of (find obj g.players) h in rw (e, del_player_data) refl

-- A player whom nobody sees goes.
contains-del :
    (g : Game) (obj i j : ℕ)
    → have_player_data g obj ≡ true
    → IsMutual g
    → ((k : ℕ) → contains obj (view_set g k) ≡ false)
    → contains i (view_set (del_player_data g obj).1 j) ≡ contains i (view_set g j)
unfolding contains
contains-del g obj i j h m n =
    let unseen : contains i (view_set g obj) ≡ false = m.both i obj ∙ n i in
    elim (Bool-cases (obj == j)) [
      | inl e ↦
          let same : contains i (view_set g j) ≡ false =
            subst (λ k. contains i (view_set g k) ≡ false) ((==_iff obj j).0 e) unseen in
          rw (view_set-del g obj j h) (rw (e, same) (ap (contains i) m.no_default))
      | inr e ↦ rw (view_set-del g obj j h) (rw e refl)
    ]

del_player_data-IsMutual :
    (g : Game) (obj : ℕ)
    → have_player_data g obj ≡ true
    → IsMutual g
    → ((k : ℕ) → contains obj (view_set g k) ≡ false)
    → IsMutual (del_player_data g obj).1
del_player_data-IsMutual g obj h m n = record {
  both = λ i j. rw (contains-del g obj i j h m n, contains-del g obj j i h m n) (m.both i j);
  not_self = λ i. contains-del g obj i i h m n ∙ m.not_self i;
  bounded = λ i. ground (arith, view_set-del g obj i h, m.bounded i, ap length m.no_default);
  sorted = λ i. elim (Bool-cases (obj == i)) [
    | inl e ↦ rw (view_set-del g obj i h) (rw (e, m.no_default) tt)
    | inr e ↦ rw (view_set-del g obj i h) (rw e (m.sorted i))
  ];
  no_default = default-del g obj h ∙ m.no_default;
}

module _ {w : World} {m : GameMap} {place : Places} {watching : ℕ → Bool} (user obj x y : ℕ)
    (plays : get_object_id w.game user ≡ obj) where
  -- From a live state, `ClientReady` for a user whose player is loaded and stands nowhere leaves a live
  -- state on the map 1, in which the player stands at the tower of its location and watches.
  pub client_ready-IsLive :
      (d : PlayerMapData)
      → IsLive w 1 m place watching
      → get_player_map_data w.game obj ≡ some d
      → d.location ≡ cell x y
      → x < m.toweraoi.weight
      → y < m.toweraoi.hight
      → place obj ≡ none
      → (w' : World) × (m' : GameMap) × (client_ready w user ≡ some w')
        × IsLive w' 1 m'
            (put place obj (some (tower_x m.toweraoi x, tower_y m.toweraoi y)))
            (put watching obj true)
  unfolding client_ready
  client_ready-IsLive d l loaded at_cell in_x in_y nowhere =
      rw plays (add_user_to_map-IsLive l user obj x y d loaded at_cell in_x in_y nowhere)

  -- From a live state, `LoginOut` of a user whose player stands on the map leaves a live state, in
  -- which the player stands nowhere and nobody sees it.
  pub login_out-IsLive :
      (mapid : ℕ) (d : PlayerMapData)
      → IsLive w mapid m place watching
      → get_player_map_data w.game obj ≡ some d
      → d.map_id ≡ mapid
      → d.location ≡ cell x y
      → x < m.toweraoi.weight
      → y < m.toweraoi.hight
      → place obj ≡ some (tower_x m.toweraoi x, tower_y m.toweraoi y)
      → (w' : World) × (m' : GameMap) × (login_out w user ≡ some w')
        × IsLive w' mapid m' (put place obj none) (put watching obj false)
        × ((k : ℕ) → contains obj (view_set w'.game k) ≡ false)
  unfolding login_out
  login_out-IsLive mapid d l loaded here at_cell in_x in_y stands_at =
      let (w1, m1, r, l1, unseen, haves) =
        del_user_from_map-IsLive l user obj x y d loaded here at_cell in_x in_y stands_at in
      let h = have-loaded w.game obj d loaded in
      let h1 : have_player_data w1.game obj ≡ true = haves obj ∙ h in
      (
        record w1 { game = (del_player_data w1.game obj).1 },
        m1,
        rw (plays, login_out) (rw (h, r) refl),
        record {
          on_map = l1.on_map;
          tracks = l1.tracks;
          views = del_player_data-IsMutual w1.game obj h1 l1.views unseen;
          near = λ i j c. l1.near i j (sym (contains-del w1.game obj i j h1 l1.views unseen) ∙ c);
        },
        (λ k. contains-del w1.game obj obj k h1 l1.views unseen ∙ unseen k),
      )
