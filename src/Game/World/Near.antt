-- ===== src/Game/World/Near.antt =====
-- The views of projects/logic_svr/map_module.cpp against the towers of tower_aoi.cpp.
pub mod Leave
pub mod Enter
pub mod Frames
pub mod Move
pub mod Login
use qclib.Base.{
  ℕ, ◌+◌, ◌-◌, ◌≤◌, ◌<◌, ◌≡◌, refl, sym, ap, subst, ◌∙◌, arith, min, Bool, true, false, not, ◌&&◌,
  ◌||◌, List, [], ◌∷◌, Option, none, some, ltb, leb, ◌==◌, ==_iff, if◌then◌else◌, Bool-cases, inl,
  inr,
}
use qclib.ObjectSet.{ObjectSet, contains}
use qclib.Aoi.{Point, TowerAoi}
use qclib.Aoi.Seen.{Places}
use qclib.Aoi.Track.{sees, Tracks}
use qclib.Table.{find}
use qclib.Game.{Game, view_set}
use qclib.Game.Views.Pairs.{IsMutual}
use qclib.Game.World.{GameMap, World}

-- Two towers are within the view of each other.
abbrev pub meets : TowerAoi → Option (ℕ × ℕ) → Option (ℕ × ℕ) → Bool
meets a none q = false
meets a (some p) none = false
meets a (some (px, py)) (some (x, y)) =
    (leb px (x + a.tower_view_weight) && leb x (px + a.tower_view_weight))
    && (leb py (y + a.tower_view_hight) && leb y (py + a.tower_view_hight))

pub meets_sym : (a : TowerAoi) (p q : Option (ℕ × ℕ)) → meets a p q ≡ meets a q p
meets_sym a none none = refl
meets_sym a none (some q) = refl
meets_sym a (some p) none = refl
meets_sym a (some (px, py)) (some (x, y)) = ground arith

pub meets_of_sees :
    (a : TowerAoi) (p : Option (ℕ × ℕ)) (x y : ℕ)
    → sees a p x y ≡ true
    → meets a p (some (x, y)) ≡ true
meets_of_sees a none x y h = h
meets_of_sees a (some (px, py)) x y h = ground (arith, h)

pub sees_of_meets :
    (a : TowerAoi) (p : Option (ℕ × ℕ)) (x y : ℕ)
    → x < a.tower_xn
    → y < a.tower_yn
    → meets a p (some (x, y)) ≡ true
    → sees a p x y ≡ true
sees_of_meets a none x y h k m = m
sees_of_meets a (some (px, py)) x y h k m = ground (arith, m)

-- A live state: the towers of the map show who stands and who watches where, views are mutual, and who is
-- in the view of a player watches and stands near it.
pub record IsLive (w : World) (mapid : ℕ) (m : GameMap) (place : Places) (watching : ℕ → Bool)
    : Type 0 where
  pub on_map : find mapid w.maps ≡ some m
  pub tracks : Tracks m.toweraoi place watching
  pub views : IsMutual w.game
  pub near :
      (i j : ℕ)
      → contains i (view_set w.game j) ≡ true
      → watching i && meets m.toweraoi (place i) (place j) ≡ true

-- Who is in the view of a player watches the tower of the player.
pub near-sees :
    {w : World} {mapid : ℕ} {m : GameMap} {place : Places} {watching : ℕ → Bool}
    → IsLive w mapid m place watching
    → (obj k x y : ℕ) → place obj ≡ some (x, y)
    → x < m.toweraoi.tower_xn
    → y < m.toweraoi.tower_yn
    → contains k (view_set w.game obj) ≡ true
    → watching k && sees m.toweraoi (place k) x y ≡ true
near-sees {w} {mapid} {m} {place} {watching} l obj k x y e h i c =
    let n : watching k && meets m.toweraoi (place k) (some (x, y)) ≡ true =
      subst (λ p. watching k && meets m.toweraoi (place k) p ≡ true) e (l.near k obj c) in
    let watches : watching k ≡ true = ground (arith, n) in
    rw watches (sees_of_meets m.toweraoi (place k) x y h i (rw watches at n))
