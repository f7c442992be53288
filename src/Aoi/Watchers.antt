-- ===== src/Aoi/Watchers.antt =====
-- `AddWatcher` and `DelWatcher` of tower_aoi.cpp.
use qclib.Base.{
  ℕ, ◌+◌, ◌-◌, ◌*◌, ◌/◌, ◌<◌, ◌≡◌, refl, ap, subst, ◌∙◌, arith, min, Bool, true, false, not, ◌&&◌,
  ◌||◌, List, Option, none, some, ◌==◌, if◌then◌else◌, Bool-cases, inl, inr,
}
use qclib.ObjectSet.{ObjectSet, contains, insert, insert_all, erase}
use qclib.ObjectSet.Laws.{IsSorted, contains-insert_all, contains-erase}
use qclib.Aoi.{Tower, TowerAoi, view_towers, visit_area, change_objs}
use qclib.Aoi.Ops.{tower_of, add_or_delete_watcher, add_watcher, del_watcher}
use qclib.Aoi.Grid.{cell, IsGrid, index-cell, cell_to_tower-cell, view_towers-cell}
use qclib.Aoi.Seen.{Places, Watch, at, Shows, Acts, insert-Acts, erase-Acts, get_elem?-at, in_range}
use qclib.Aoi.Paint.{Shows-ext, Visited, area_lem}
use qclib.Aoi.Track.{put, sees, in_view, watch_of, Tracks, Tracks-towers, enter_lem, leave_lem}

-- The loops over the view of a tower.
pub view_lem :
    {a : TowerAoi} (g : IsGrid a) {f : ObjectSet → ObjectSet} {act : ℕ → Bool → Bool}
    (acts : Acts f act) (place : Places) (x y : ℕ) (ts : List Tower) (objs : ObjectSet) (w : Watch)
    → x < a.tower_xn
    → y < a.tower_yn
    → Shows a ts place w
    → (ts' : List Tower) × (objs' : ObjectSet) × (visit_area a f
          (view_towers a (cell x y))
          (ts, objs)
        ≡ some (ts', objs'))
      × Visited g acts place
          (x - a.tower_view_weight)
          (min (x + a.tower_view_weight + 1) a.tower_xn)
          (y - a.tower_view_hight)
          (min (y + a.tower_view_hight + 1) a.tower_yn)
          w
          objs
          ts'
          objs'
view_lem {a} g acts place x y ts objs w h k s = rw (view_towers-cell x y g h k) (
    area_lem g acts place _ _ _ _ ts objs w (omega arith) (omega arith) (omega arith) (omega arith)
      s)

pub tower_of-cell :
    {a : TowerAoi} (x y : ℕ)
    → IsGrid a
    → x < a.tower_xn
    → y < a.tower_yn
    → tower_of a (cell x y) ≡ some (y * a.tower_yn + x, at a a.towers x y)
unfolding tower_of
tower_of-cell {a} x y g h k =
    rw (index-cell a x y)
      (rw (get_elem?-at a.towers (y * a.tower_yn + x) (in_range a.towers x y g g.sized h k)) refl)

-- One who stood nowhere now watches its view.
watch_enter :
    (a : TowerAoi) (id k x y x' y' : ℕ) (p : Option (ℕ × ℕ)) (b : Bool)
    → (id ≡ k → p ≡ none)
    → (if in_view a x y (some (x', y'))
        then id == k || b && sees a p x' y'
        else b && sees a p x' y')
      ≡ (if id == k then true else b) && sees a (if id == k then some (x, y) else p) x' y'
watch_enter a id k x y x' y' none b h = ground arith
watch_enter a id k x y x' y' (some (px, py)) b h = elim (Bool-cases (id == k)) [
  | inl e ↦ cc (h (ground arith))
  | inr e ↦ rw e (ground arith)
]

watch_leave :
    (a : TowerAoi) (id k x y x' y' : ℕ) (p : Option (ℕ × ℕ)) (b : Bool)
    → (id ≡ k → p ≡ some (x, y))
    → (if in_view a x y (some (x', y'))
        then not (id == k) && (b && sees a p x' y')
        else b && sees a p x' y')
      ≡ (if id == k then false else b) && sees a (if id == k then none else p) x' y'
watch_leave a id k x y x' y' none b h = ground arith
watch_leave a id k x y x' y' (some (px, py)) b h = elim (Bool-cases (id == k)) [
  | inl e ↦ rw (h (ground arith), e) (ground arith)
  | inr e ↦ rw e (ground arith)
]

in_view_gone :
    (a : TowerAoi) (id k x y : ℕ) (p : Option (ℕ × ℕ))
    → in_view a x y (if id == k then none else p) ≡ not (id == k) && in_view a x y p
in_view_gone a id k x y p = elim (Bool-cases (id == k)) [ inl e ↦ rw e | inr e ↦ rw e ]

-- The tower of a cell.
abbrev pub tower_x : TowerAoi → ℕ → ℕ
tower_x a x = x / a.tower_weight

abbrev pub tower_y : TowerAoi → ℕ → ℕ
tower_y a y = y / a.tower_hight

-- The watchers of the tower of a cell are those whose view has the tower.
pub watchers_lem :
    {a : TowerAoi} {place : Places} {watching : ℕ → Bool} (t : Tracks a place watching) (x y k : ℕ)
    (watcher : ObjectSet)
    → x < a.tower_xn
    → y < a.tower_yn
    → contains k (insert_all watcher (at a a.towers x y).watchers)
      ≡ contains k watcher || watching k && sees a (place k) x y
watchers_lem {a} t x y k watcher h i =
    contains-insert_all k watcher (at a a.towers x y).watchers
    ∙ ap (λ (b : Bool). contains k watcher || b) (t.shown.watchers_at k x y h i)

-- A watcher comes to a tower: the loops over its view, then its entry.
pub arrive_lem :
    {a : TowerAoi} (g : IsGrid a) (place : Places) (watching : ℕ → Bool) (id x y : ℕ)
    (ts : List Tower) (objs : ObjectSet)
    → x < a.tower_xn
    → y < a.tower_yn
    → place id ≡ none
    → Shows a ts place (watch_of a place watching)
    → (ts1 : List Tower) × (objs' : ObjectSet) × (ts2 : List Tower) × (visit_area a
          (insert id)
          (view_towers a (cell x y))
          (ts, objs)
        ≡ some (ts1, objs'))
      × (change_objs (insert id) (y * a.tower_yn + x) ts1 ≡ some ts2)
      × Shows a ts2
          (put place id (some (x, y)))
          (watch_of a (put place id (some (x, y))) (put watching id true))
      × ((k : ℕ) → contains k objs' ≡ contains k objs || in_view a x y (place k))
      × (IsSorted objs → IsSorted objs')
arrive_lem {a} g place watching id x y ts objs h i e s =
    let (ts1, objs', r1, v) = view_lem g (insert-Acts id) place x y ts objs _ h i s in
    let (ts2, r2, s2) = enter_lem g id x y ts1 place _ h i e v.shown in
    (
      ts1,
      objs',
      ts2,
      r1,
      r2,
      Shows-ext (λ k x' y' h i. refl)
          (λ k x' y' h i.
            watch_enter a id k x y x' y' (place k) (watching k)
              (λ q. subst (λ j. place j ≡ none) q e))
          s2,
      v.found,
      v.ordered,
    )

-- A watcher leaves a tower: its exit, then the loops over its view.
pub depart_lem :
    {a : TowerAoi} (g : IsGrid a) (place : Places) (watching : ℕ → Bool) (id x y : ℕ)
    (ts : List Tower) (objs : ObjectSet)
    → x < a.tower_xn
    → y < a.tower_yn
    → place id ≡ some (x, y)
    → Shows a ts place (watch_of a place watching)
    → (ts1 : List Tower) × (ts2 : List Tower) × (objs' : ObjectSet) × (change_objs
          (erase id)
          (y * a.tower_yn + x)
          ts
        ≡ some ts1)
      × (visit_area a (erase id) (view_towers a (cell x y)) (ts1, objs) ≡ some (ts2, objs'))
      × Shows a ts2 (put place id none) (watch_of a (put place id none) (put watching id false))
      × ((k : ℕ) → contains k objs' ≡ contains k objs || not (id == k) && in_view a x y (place k))
      × (IsSorted objs → IsSorted objs')
depart_lem {a} g place watching id x y ts objs h i e s =
    let (ts1, r1, s1) = leave_lem g id x y ts place _ h i e s in
    let (ts2, objs', r2, v) =
      view_lem g (erase-Acts id) (put place id none) x y ts1 objs _ h i s1 in
    (
      ts1,
      ts2,
      objs',
      r1,
      r2,
      Shows-ext (λ k x' y' h i. refl)
          (λ k x' y' h i.
            watch_leave a id k x y x' y' (place k) (watching k)
              (λ q. subst (λ j. place j ≡ some (x, y)) q e))
          v.shown,
      (λ k.
          v.found k ∙ ap (λ (b : Bool). contains k objs || b) (in_view_gone a id k x y (place k))),
      v.ordered,
    )

module _ {a : TowerAoi} {place : Places} {watching : ℕ → Bool} (t : Tracks a place watching)
    (id x y : ℕ) (in_x : x < a.weight) (in_y : y < a.hight) (watcher objs : ObjectSet) where
  -- For an id that stands nowhere, `AddWatcher` at a cell of the map succeeds: the id then stands at
  -- the tower of the cell and watches its view, and all else is tracked as before. `watcher` gains
  -- exactly the watchers whose view has the tower, `objs` exactly the objects in the view from it.
  pub add_watcher_lem :
      place id ≡ none
      → (ts : List Tower) × (watcher' : ObjectSet) × (objs' : ObjectSet) × (add_watcher a id
            (cell x y)
            watcher
            objs
          ≡ some (record a { towers = ts }, watcher', objs'))
        × Tracks
            (record a { towers = ts })
            (put place id (some (tower_x a x, tower_y a y)))
            (put watching id true)
        × ((k : ℕ)
            → contains k watcher'
              ≡ contains k watcher || watching k && sees a (place k) (tower_x a x) (tower_y a y))
        × ((k : ℕ)
            → contains k objs' ≡ contains k objs || in_view a (tower_x a x) (tower_y a y) (place k))
  unfolding add_or_delete_watcher
  add_watcher_lem e =
      let (c, hx, hy) = cell_to_tower-cell x y t.grid in_x in_y in
      let tx = tower_x a x in
      let ty = tower_y a y in
      let (ts1, objs', ts2, r1, r2, s2, found, _) =
        arrive_lem t.grid place watching id tx ty a.towers objs hx hy e t.shown in
      (
        ts2,
        insert_all watcher (at a a.towers tx ty).watchers,
        objs',
        rw c (rw (tower_of-cell tx ty t.grid hx hy) (rw r1 (rw r2 refl))),
        Tracks-towers ts2 t.grid s2,
        (λ k. watchers_lem t tx ty k watcher hx hy),
        found,
      )

  -- For an id that stands at the tower of a cell, `DelWatcher` at the cell succeeds: the id then stands
  -- nowhere and watches nothing, and all else is tracked as before. `watcher` gains exactly the other
  -- watchers whose view has the tower and loses the id, `objs` gains exactly the other objects in the
  -- view from it.
  pub del_watcher_lem :
      place id ≡ some (tower_x a x, tower_y a y)
      → (ts : List Tower) × (watcher' : ObjectSet) × (objs' : ObjectSet) × (del_watcher a id
            (cell x y)
            watcher
            objs
          ≡ some (record a { towers = ts }, watcher', objs'))
        × Tracks (record a { towers = ts }) (put place id none) (put watching id false)
        × ((k : ℕ)
            → contains k watcher'
              ≡ not (id == k)
                && (contains k watcher
                    || watching k && sees a (place k) (tower_x a x) (tower_y a y)))
        × ((k : ℕ)
            → contains k objs'
              ≡ contains k objs || not (id == k) && in_view a (tower_x a x) (tower_y a y) (place k))
  unfolding add_or_delete_watcher
  del_watcher_lem e =
      let (c, hx, hy) = cell_to_tower-cell x y t.grid in_x in_y in
      let tx = tower_x a x in
      let ty = tower_y a y in
      let (ts1, ts2, objs', r1, r2, s2, found, _) =
        depart_lem t.grid place watching id tx ty a.towers objs hx hy e t.shown in
      (
        ts2,
        erase id (insert_all watcher (at a a.towers tx ty).watchers),
        objs',
        rw c (rw (tower_of-cell tx ty t.grid hx hy) (rw r1 (rw r2 refl))),
        Tracks-towers ts2 t.grid s2,
        (λ k.
            contains-erase k id _
            ∙ ap (λ (b : Bool). not (id == k) && b) (watchers_lem t tx ty k watcher hx hy)),
        found,
      )
