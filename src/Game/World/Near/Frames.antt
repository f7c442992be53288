-- ===== src/Game/World/Near/Frames.antt =====
-- What the operations on maps and players leave as it was.
use qclib.Base.{
  ℕ, ◌≡◌, refl, ◌∙◌, arith, Bool, true, false, List, [], ◌∷◌, Option, none, some, ◌==◌,
  if◌then◌else◌, Bool-cases, inl, inr,
}
use qclib.ObjectSet.{ObjectSet}
use qclib.Aoi.{TowerAoi}
use qclib.Table.{find, is_some, map_some, find-update}
use qclib.Game.{
  Game, PlayerData, PlayerMapData, Notice, view_set, have_player_data, get_player_map_data,
  set_player_map_data, send, get_user_ids, move_ack,
}
use qclib.Game.Views.{broadcast, send_move_view_players}
use qclib.Game.Views.Pairs.{IsMutual, view_set-send, have-send}
use qclib.Game.World.{GameMap, World, set_aoi}

-- A map after its towers have changed.
pub find-set_aoi :
    (w : World) (mapid : ℕ) (m : GameMap) (a : TowerAoi)
    → find mapid w.maps ≡ some m
    → find mapid (set_aoi w mapid a).maps ≡ some (record m { toweraoi = a })
find-set_aoi w mapid m a f =
    let same : mapid == mapid ≡ true = ground arith in
    find-update mapid mapid (λ (n : GameMap). record n { toweraoi = a }) w.maps ∙ rw (same, f) refl

pub have-loaded :
    (g : Game) (obj : ℕ) (d : PlayerMapData)
    → get_player_map_data g obj ≡ some d
    → have_player_data g obj ≡ true
unfolding get_player_map_data have_player_data
have-loaded g obj d h = of (find obj g.players) h
  where
    of :
        (p : Option PlayerData)
        → (elim p [ none ↦ none | some q ↦ some q.map_data ]) ≡ some d
        → is_some p ≡ true
    of none h = ground (arith, h)
    of (some q) h = refl

-- The same views of the same players.
pub record SameViews (g g' : Game) : Type 0 where
  pub views_same : (k : ℕ) → view_set g' k ≡ view_set g k
  pub haves_same : (k : ℕ) → have_player_data g' k ≡ have_player_data g k
  pub default_same : g'.default_set ≡ g.default_set

pub SameViews-IsMutual : {g g' : Game} → SameViews g g' → IsMutual g → IsMutual g'
SameViews-IsMutual s m = record {
  both = λ i j. rw (s.views_same i, s.views_same j) (m.both i j);
  not_self = λ i. rw (s.views_same i) (m.not_self i);
  bounded = λ i. rw (s.views_same i) (m.bounded i);
  sorted = λ i. rw (s.views_same i) (m.sorted i);
  no_default = s.default_same ∙ m.no_default;
}

send-SameViews : (g : Game) (n : Notice) → SameViews g (send g n)
unfolding send
send-SameViews g n = record {
  views_same = view_set-send g n;
  haves_same = have-send g n;
  default_same = refl;
}

then_same : {g g1 g2 : Game} → SameViews g g1 → SameViews g1 g2 → SameViews g g2
then_same s t = record {
  views_same = λ k. t.views_same k ∙ s.views_same k;
  haves_same = λ k. t.haves_same k ∙ s.haves_same k;
  default_same = t.default_same ∙ s.default_same;
}

broadcast-SameViews :
    (g : Game) (users : List ℕ) (n : ℕ → Notice) → SameViews g (broadcast g users n)
unfolding broadcast
broadcast-SameViews g [] n = record {
  views_same = λ k. refl;
  haves_same = λ k. refl;
  default_same = refl;
}
broadcast-SameViews g (user ∷ users) n =
    then_same (send-SameViews g (n user)) (broadcast-SameViews (send g (n user)) users n)

pub move_views-SameViews :
    (g : Game) (user obj : ℕ) (d : PlayerMapData)
    → SameViews g (send_move_view_players g user obj d)
unfolding send_move_view_players
move_views-SameViews g user obj d =
    then_same
      (broadcast-SameViews g (get_user_ids g (view_set g obj))
        (λ to. move_ack to obj d.map_id d.location))
      (send-SameViews _ (move_ack user obj d.map_id d.location))

views_kept :
    (b : Bool) (p : Option PlayerData) (d : PlayerMapData) (none_set : ObjectSet)
    → (elim (if b then map_some (λ (q : PlayerData). record q { map_data = d }) p else p) [
      | none ↦ none_set
      | some q ↦ q.view_object_set
    ])
      ≡ (elim p [ none ↦ none_set | some q ↦ q.view_object_set ])
views_kept true none d n = refl
views_kept true (some q) d n = refl
views_kept false p d n = refl

haves_kept :
    (b : Bool) (p : Option PlayerData) (f : PlayerData → PlayerData)
    → is_some (if b then map_some f p else p) ≡ is_some p
haves_kept true none f = refl
haves_kept true (some q) f = refl
haves_kept false p f = refl

pub set_data-SameViews :
    (g : Game) (obj : ℕ) (d : PlayerMapData) → SameViews g (set_player_map_data g obj d).1
unfolding set_player_map_data view_set have_player_data
set_data-SameViews g obj d = elim (Bool-cases (is_some (find obj g.players))) [
  | inr e ↦
      rw (e, set_player_map_data)
        (record { views_same = λ k. refl; haves_same = λ k. refl; default_same = refl })
  | inl e ↦
      let f : PlayerData → PlayerData = λ p. record p { map_data = d } in
      rw (e, set_player_map_data)
        (record {
          views_same = λ k.
              rw (view_set, find-update k obj f g.players)
                (views_kept (obj == k) (find k g.players) d g.default_set);
          haves_same = λ k.
              rw (have_player_data, find-update k obj f g.players)
                (haves_kept (obj == k) (find k g.players) f);
          default_same = refl;
        })
]
