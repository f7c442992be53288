-- ===== src/Aoi/Tests.antt =====
-- Runs of tower_aoi.cpp on a map of 30 by 30 cells in towers of 10 by 10, and the theorems at them.
use qclib.Base.{
  ℕ, ◌<◌, ◌≡◌, refl, sym, ap, subst, ◌∙◌, arith, Bool, true, false, not, ◌&&◌, ◌||◌, List, [], ◌∷◌,
  Option, none, some, ◌==◌,
}
use mathlib.Core.Option.{some-injective}
use qclib.Base.Int.{◌+ℤ◌, ◌-ℤ◌, ◌*ℤ◌, to_i16, pos}
use qclib.ObjectSet.{ObjectSet, Moves, contains, insert, insert_all, erase}
use qclib.Aoi.{
  Tower, TowerAoi, cell_to_tower, view_towers, rounds, visit, visit_row, visit_rows, visit_area,
  change_objs, index,
}
use qclib.Aoi.Init.{init_rows, init_row, make, sized, IsLabelled}
use qclib.Aoi.Built.{make_lem}
use qclib.Aoi.Ops.{
  add_or_delete_watcher, add_or_delete_object, tower_of, add_watcher, del_watcher, add_object,
  move_watcher,
}
use qclib.Aoi.Grid.{cell}
use qclib.Aoi.Seen.{Places, at}
use qclib.Aoi.Track.{put, sees, in_view, Tracks}
use qclib.Aoi.Watchers.{add_watcher_lem, del_watcher_lem}
use qclib.Aoi.Movers.{Changed, move_watcher_lem}
use qclib.Aoi.Objects.{add_object_lem}

abbrev pub tower : ℕ → ℕ → ℕ → ObjectSet → ObjectSet → Tower
tower x y n objs watchers = record {
  left_up = cell x y;
  id = pos n;
  objs = objs;
  watchers = watchers;
}

abbrev pub with_towers : List Tower → TowerAoi
with_towers ts = record {
  weight = 30;
  hight = 30;
  view_weight = 5;
  view_hight = 5;
  tower_view_weight = 1;
  tower_view_hight = 1;
  tower_xn = 3;
  tower_yn = 3;
  tower_weight = 10;
  tower_hight = 10;
  mapid = 1;
  towers = ts;
}

abbrev pub empty_map : TowerAoi
empty_map = with_towers (
    tower 0 0 0 [] []
    ∷ tower 10 0 1 [] []
    ∷ tower 20 0 2 [] []
    ∷ tower 0 10 3 [] []
    ∷ tower 10 10 4 [] []
    ∷ tower 20 10 5 [] []
    ∷ tower 0 20 6 [] []
    ∷ tower 10 20 7 [] []
    ∷ tower 20 20 8 [] []
    ∷ [])

-- After object 7 begins to watch from (5, 5).
abbrev one_watcher : TowerAoi
one_watcher = with_towers (
    tower 0 0 0 (7 ∷ []) (7 ∷ [])
    ∷ tower 10 0 1 [] (7 ∷ [])
    ∷ tower 20 0 2 [] []
    ∷ tower 0 10 3 [] (7 ∷ [])
    ∷ tower 10 10 4 [] (7 ∷ [])
    ∷ tower 20 10 5 [] []
    ∷ tower 0 20 6 [] []
    ∷ tower 10 20 7 [] []
    ∷ tower 20 20 8 [] []
    ∷ [])

-- After object 9 also stands at (15, 12).
abbrev with_object : TowerAoi
with_object = with_towers (
    tower 0 0 0 (7 ∷ []) (7 ∷ [])
    ∷ tower 10 0 1 [] (7 ∷ [])
    ∷ tower 20 0 2 [] []
    ∷ tower 0 10 3 [] (7 ∷ [])
    ∷ tower 10 10 4 (9 ∷ []) (7 ∷ [])
    ∷ tower 20 10 5 [] []
    ∷ tower 0 20 6 [] []
    ∷ tower 10 20 7 [] []
    ∷ tower 20 20 8 [] []
    ∷ [])

make-empty_map : make 30 30 10 10 5 5 1 (pos 0) ≡ some empty_map
unfolding make init_rows init_row index ◌+ℤ◌ ◌*ℤ◌ to_i16
make-empty_map = refl

add_watcher-empty_map : add_watcher empty_map 7 (cell 5 5) [] [] ≡ some (one_watcher, [], [])
unfolding add_or_delete_watcher tower_of change_objs cell_to_tower view_towers rounds visit
    visit_row visit_rows visit_area index insert insert_all erase ◌+ℤ◌ ◌-ℤ◌ ◌*ℤ◌ to_i16
add_watcher-empty_map = refl

add_object-one_watcher : add_object one_watcher 9 (cell 15 12) [] ≡ some (with_object, 7 ∷ [])
unfolding add_or_delete_object tower_of change_objs cell_to_tower view_towers rounds visit visit_row
    visit_rows visit_area index insert insert_all erase ◌+ℤ◌ ◌-ℤ◌ ◌*ℤ◌ to_i16
add_object-one_watcher = refl

-- A map of 3 rows of 2 towers: the constructor writes past the end of `m_towers`.
make-outside : make 20 30 10 10 5 5 1 (pos 0) ≡ none
unfolding make init_rows init_row index ◌+ℤ◌ ◌*ℤ◌ to_i16
make-outside = refl

-- Two results of one run are the same.
pub same_result : {A : Type 0} {r : Option A} {a b : A} → r ≡ some a → r ≡ some b → a ≡ b
same_result {a = a} {b = b} p q = some-injective a b (sym p ∙ q)

pub empty_map-Tracks : Tracks empty_map (λ _. none) (λ _. false)
empty_map-Tracks =
    let (ts, r, t, _) =
      make_lem 30 30 10 10 5 5 1 (pos 0) (omega arith) (omega arith) refl (omega arith)
        (omega arith) in
    subst (λ a. Tracks a (λ _. none) (λ _. false)) (same_result r make-empty_map) t

-- Object 7 watches at the tower (0, 0).
abbrev place_7 : Places
place_7 = put (λ _. none) 7 (some (0, 0))

abbrev watching_7 : ℕ → Bool
watching_7 = put (λ _. false) 7 true

one_watcher-Tracks : Tracks one_watcher place_7 watching_7
one_watcher-Tracks =
    let (ts, w, o, r, t, _, _) =
      add_watcher_lem empty_map-Tracks 7 5 5 (omega arith) (omega arith) [] [] refl in
    subst (λ a. Tracks a place_7 watching_7) (ap (λ p. p.0) (same_result r add_watcher-empty_map)) t

-- Object 9 stands at the tower (1, 1).
abbrev place_9 : Places
place_9 = put place_7 9 (some (1, 1))

with_object-Tracks : Tracks with_object place_9 watching_7
with_object-Tracks =
    let (ts, w, r, t, _) =
      add_object_lem one_watcher-Tracks 9 15 12 (omega arith) (omega arith) [] refl refl in
    subst (λ a. Tracks a place_9 watching_7) (ap (λ p. p.0) (same_result r add_object-one_watcher))
      t

abbrev no_moves : Moves
no_moves = record { inserted = []; same = []; removed = [] }

add_watcher_lem_example :
    (ts : List Tower) × (watcher : ObjectSet) × (objs : ObjectSet) × (add_watcher with_object 8
        (cell 25 25)
        []
        []
      ≡ some (record with_object { towers = ts }, watcher, objs))
    × Tracks
        (record with_object { towers = ts })
        (put place_9 8 (some (2, 2)))
        (put watching_7 8 true)
    × ((k : ℕ)
        → contains k watcher ≡ contains k [] || watching_7 k && sees with_object (place_9 k) 2 2)
    × ((k : ℕ) → contains k objs ≡ contains k [] || in_view with_object 2 2 (place_9 k))
add_watcher_lem_example =
    add_watcher_lem with_object-Tracks 8 25 25 (omega arith) (omega arith) [] [] refl

del_watcher_lem_example :
    (ts : List Tower) × (watcher : ObjectSet) × (objs : ObjectSet) × (del_watcher with_object 7
        (cell 5 5)
        []
        []
      ≡ some (record with_object { towers = ts }, watcher, objs))
    × Tracks (record with_object { towers = ts }) (put place_9 7 none) (put watching_7 7 false)
    × ((k : ℕ)
        → contains k watcher
          ≡ not (7 == k) && (contains k [] || watching_7 k && sees with_object (place_9 k) 0 0))
    × ((k : ℕ)
        → contains k objs ≡ contains k [] || not (7 == k) && in_view with_object 0 0 (place_9 k))
del_watcher_lem_example =
    del_watcher_lem with_object-Tracks 7 5 5 (omega arith) (omega arith) [] [] refl

move_watcher_lem_example :
    (ts : List Tower) × (w : Moves) × (o : Moves) × (move_watcher with_object 7
        (cell 5 5)
        (cell 25 25)
        no_moves
        no_moves
      ≡ some (record with_object { towers = ts }, w, o))
    × Tracks (record with_object { towers = ts }) (put place_9 7 (some (2, 2))) watching_7
    × ((k : ℕ)
        → Changed
            (λ j. watching_7 j && sees with_object (place_9 j) 0 0)
            (λ j. watching_7 j && sees with_object (put place_9 7 (some (2, 2)) j) 2 2)
            no_moves
            w
            k)
    × ((k : ℕ)
        → Changed
            (λ j. not (7 == j) && in_view with_object 0 0 (place_9 j))
            (λ j. not (7 == j) && in_view with_object 2 2 (place_9 j))
            no_moves
            o
            k)
move_watcher_lem_example =
    move_watcher_lem with_object-Tracks 7 5 5 25 25 no_moves no_moves (omega arith) (omega arith)
      (omega arith) (omega arith) refl refl refl

make_lem_example :
    (ts : List Tower) × (make 30 30 10 10 5 5 1 (pos 0)
      ≡ some (record (sized 30 30 10 10 5 5 1 (pos 0)) { towers = ts }))
    × Tracks (record (sized 30 30 10 10 5 5 1 (pos 0)) { towers = ts }) (λ _. none) (λ _. false)
    × ((x y : ℕ)
        → x < 3
        → y < 3
        → IsLabelled
            (sized 30 30 10 10 5 5 1 (pos 0))
            x
            y
            (at (sized 30 30 10 10 5 5 1 (pos 0)) ts x y))
make_lem_example =
    make_lem 30 30 10 10 5 5 1 (pos 0) (omega arith) (omega arith) refl (omega arith) (omega arith)
