-- ===== src/Aoi/Objects.antt =====
-- `AddObject`, `DelObject` and `MoveObject` of tower_aoi.cpp: objects that do not watch.
use qclib.Base.{
  ℕ, ◌<◌, ◌≡◌, refl, ap, subst, Bool, false, ◌&&◌, ◌||◌, List, Option, none, some, ◌==◌, ==_iff,
  Bool-cases, inl, inr,
}
use qclib.ObjectSet.{ObjectSet, Moves, contains, insert_all, move_object_sets}
use qclib.ObjectSet.Move.{move_object_sets-Sorts}
use qclib.Aoi.{Tower, TowerAoi}
use qclib.Aoi.Ops.{add_or_delete_object, add_object, del_object, move_object}
use qclib.Aoi.Grid.{cell, cell_to_tower-cell}
use qclib.Aoi.Seen.{Places, stands, at}
use qclib.Aoi.Paint.{Shows-ext}
use qclib.Aoi.Track.{put, sees, watch_of, Tracks, Tracks-towers, enter_lem, leave_lem}
use qclib.Aoi.Watchers.{tower_of-cell, tower_x, tower_y, watchers_lem}
use qclib.Aoi.Movers.{Changed, Sorts-Changed, put_self, put-put}

-- The views do not change when one who does not watch moves.
still :
    (a : TowerAoi) (place : Places) (watching : ℕ → Bool) (id k x y : ℕ) (p : Option (ℕ × ℕ))
    → watching id ≡ false
    → watch_of a place watching k x y ≡ watch_of a (put place id p) watching k x y
still a place watching id k x y p h = elim (Bool-cases (id == k)) [
  | inl e ↦
      let h' : watching k ≡ false = subst (λ j. watching j ≡ false) ((==_iff id k).0 e) h in
      rw h' refl
  | inr e ↦ rw e refl
]

module _ {a : TowerAoi} {place : Places} {watching : ℕ → Bool} (t : Tracks a place watching)
    (id x y : ℕ) (in_x : x < a.weight) (in_y : y < a.hight) (watcher : ObjectSet) where
  -- For an id that stands nowhere and does not watch, `AddObject` at a cell of the map succeeds: the id
  -- then stands at the tower of the cell, and all else is tracked as before. `watcher` gains exactly
  -- the watchers whose view has the tower.
  pub add_object_lem :
      place id ≡ none
      → watching id ≡ false
      → (ts : List Tower) × (watcher' : ObjectSet) × (add_object a id (cell x y) watcher
          ≡ some (record a { towers = ts }, watcher'))
        × Tracks
            (record a { towers = ts })
            (put place id (some (tower_x a x, tower_y a y)))
            watching
        × ((k : ℕ)
            → contains k watcher'
              ≡ contains k watcher || watching k && sees a (place k) (tower_x a x) (tower_y a y))
  unfolding add_or_delete_object
  add_object_lem e h =
      let (c, hx, hy) = cell_to_tower-cell x y t.grid in_x in_y in
      let tx = tower_x a x in
      let ty = tower_y a y in
      let (ts, r, s) = enter_lem t.grid id tx ty a.towers place _ hx hy e t.shown in
      (
        ts,
        insert_all watcher (at a a.towers tx ty).watchers,
        rw c (rw (tower_of-cell tx ty t.grid hx hy) (rw r refl)),
        Tracks-towers ts t.grid (
            Shows-ext (λ k x' y' i j. refl) (λ k x' y' i j. still a place watching id k x' y' _ h)
              s),
        (λ k. watchers_lem t tx ty k watcher hx hy),
      )

  -- For an id that stands at the tower of a cell and does not watch, `DelObject` at the cell succeeds:
  -- the id then stands nowhere, and all else is tracked as before. `watcher` gains exactly the watchers
  -- whose view has the tower.
  pub del_object_lem :
      place id ≡ some (tower_x a x, tower_y a y)
      → watching id ≡ false
      → (ts : List Tower) × (watcher' : ObjectSet) × (del_object a id (cell x y) watcher
          ≡ some (record a { towers = ts }, watcher'))
        × Tracks (record a { towers = ts }) (put place id none) watching
        × ((k : ℕ)
            → contains k watcher'
              ≡ contains k watcher || watching k && sees a (place k) (tower_x a x) (tower_y a y))
  unfolding add_or_delete_object
  del_object_lem e h =
      let (c, hx, hy) = cell_to_tower-cell x y t.grid in_x in_y in
      let tx = tower_x a x in
      let ty = tower_y a y in
      let (ts, r, s) = leave_lem t.grid id tx ty a.towers place _ hx hy e t.shown in
      (
        ts,
        insert_all watcher (at a a.towers tx ty).watchers,
        rw c (rw (tower_of-cell tx ty t.grid hx hy) (rw r refl)),
        Tracks-towers ts t.grid (
            Shows-ext (λ k x' y' i j. refl) (λ k x' y' i j. still a place watching id k x' y' _ h)
              s),
        (λ k. watchers_lem t tx ty k watcher hx hy),
      )

-- For an object that does not watch and stands at the tower of its old cell, `MoveObject` to a cell of
-- another tower returns 0: the object then stands at the tower of the new cell, and all else is
-- tracked as before. The three sets gain the difference between the watchers of the old tower and those
-- of the new one.
pub move_object_lem :
    {a : TowerAoi} {place : Places} {watching : ℕ → Bool} (t : Tracks a place watching)
    (id ox oy nx ny : ℕ) (w : Moves)
    → ox < a.weight
    → oy < a.hight
    → nx < a.weight
    → ny < a.hight
    → place id ≡ some (tower_x a ox, tower_y a oy)
    → watching id ≡ false
    → tower_x a ox == tower_x a nx && tower_y a oy == tower_y a ny ≡ false
    → (ts : List Tower) × (w' : Moves) × (move_object a id (cell ox oy) (cell nx ny) w
        ≡ some (0, record a { towers = ts }, w'))
      × Tracks
          (record a { towers = ts })
          (put place id (some (tower_x a nx, tower_y a ny)))
          watching
      × ((k : ℕ)
          → Changed
              (λ j. watching j && sees a (place j) (tower_x a ox) (tower_y a oy))
              (λ j. watching j && sees a (place j) (tower_x a nx) (tower_y a ny))
              w
              w'
              k)
unfolding move_object
move_object_lem {a} {place} {watching} t id ox oy nx ny w in_ox in_oy in_nx in_ny e h differ =
    let (c, hox, hoy) = cell_to_tower-cell ox oy t.grid in_ox in_oy in
    let (d, hnx, hny) = cell_to_tower-cell nx ny t.grid in_nx in_ny in
    let (ts, r, s) =
      leave_lem t.grid id (tower_x a ox) (tower_y a oy) a.towers place _ hox hoy e t.shown in
    let (ts', r', s') =
      enter_lem t.grid id (tower_x a nx) (tower_y a ny) ts (put place id none) _ hnx hny
        (put_self place id none) s in
    (
      ts',
      move_object_sets (at a a.towers (tower_x a ox) (tower_y a oy)).watchers
          (at a a.towers (tower_x a nx) (tower_y a ny)).watchers w,
      rw (c, d, differ)
          (rw (tower_of-cell (tower_x a ox) (tower_y a oy) t.grid hox hoy)
            (rw (tower_of-cell (tower_x a nx) (tower_y a ny) t.grid hnx hny) (rw r (rw r' refl)))),
      Tracks-towers ts' t.grid (
          Shows-ext (λ k x y i j. ap (λ p. stands p x y) (put-put place id k none _))
            (λ k x y i j. still a place watching id k x y (some (tower_x a nx, tower_y a ny)) h)
            s'),
      (λ k.
          Sorts-Changed _ _ k (t.shown.watchers_at k _ _ hox hoy)
            (t.shown.watchers_at k _ _ hnx hny)
            (move_object_sets-Sorts _ _ w k (t.shown.sorted _ _ hox hoy).1
              (t.shown.sorted _ _ hnx hny).1)),
    )
