-- ===== src/Aoi/Movers.antt =====
-- `MoveWatcher` of tower_aoi.cpp: a watcher goes from one tower to another.
use qclib.Base.{
  ℕ, ◌+◌, ◌*◌, ◌<◌, ◌≡◌, refl, sym, ap, subst, ◌∙◌, arith, Bool, true, false, not, ◌&&◌, ◌||◌, List,
  [], Option, none, some, ◌==◌, ==_iff, Bool-cases, inl, inr,
}
use qclib.ObjectSet.{ObjectSet, Moves, contains, insert, insert_all, move_object_sets}
use qclib.ObjectSet.Laws.{contains-insert}
use qclib.ObjectSet.Move.{Sorts, move_object_sets-Sorts}
use qclib.Aoi.{Tower, TowerAoi}
use qclib.Aoi.Ops.{move_between, move_watcher}
use qclib.Aoi.Grid.{cell, IsGrid, cell_to_tower-cell}
use qclib.Aoi.Seen.{Places, stands, at, Shows, get_elem?-at, in_range}
use qclib.Aoi.Paint.{Shows-ext}
use qclib.Aoi.Track.{put, sees, in_view, watch_of, Tracks, Tracks-towers}
use qclib.Aoi.Watchers.{arrive_lem, depart_lem, tower_of-cell, tower_x, tower_y, watchers_lem}

-- The three sets gain the difference of two sets of ids.
pub record Changed (was is : ℕ → Bool) (m r : Moves) (k : ℕ) : Type 0 where
  pub inserts : contains k r.inserted ≡ contains k m.inserted || is k && not (was k)
  pub sames : contains k r.same ≡ contains k m.same || is k && was k
  pub removes : contains k r.removed ≡ contains k m.removed || was k && not (is k)

pub Sorts-Changed :
    {old new : ObjectSet} {m r : Moves} (was is : ℕ → Bool) (k : ℕ)
    → contains k old ≡ was k
    → contains k new ≡ is k
    → Sorts old new m r k
    → Changed was is m r k
Sorts-Changed was is k e f s = ground arith

-- A tower is in its own view.
pub sees_own :
    (a : TowerAoi) (x y : ℕ) → x < a.tower_xn → y < a.tower_yn → sees a (some (x, y)) x y ≡ true
sees_own a x y h k = ground arith

pub put_self : {A : Type 0} (f : ℕ → A) (id : ℕ) (p : A) → put f id p id ≡ p
put_self f id p = let e : id == id ≡ true = ground arith in rw e

pub put-put : {A : Type 0} (f : ℕ → A) (id k : ℕ) (p q : A) → put (put f id p) id q k ≡ put f id q k
put-put f id k p q = elim (Bool-cases (id == k)) [ inl e ↦ rw e | inr e ↦ rw e ]

pub put_same : {A : Type 0} (f : ℕ → A) (id k : ℕ) (p : A) → f id ≡ p → put f id p k ≡ f k
put_same f id k p h = elim (Bool-cases (id == k)) [
  | inl e ↦ rw e (sym h ∙ ap f ((==_iff id k).0 e))
  | inr e ↦ rw e
]

-- The id itself is in both sets of watchers, once it is added to those that stay.
Changed-self :
    {old new : ObjectSet} {m r : Moves} (was is : ℕ → Bool) (id k : ℕ)
    → contains k old ≡ not (id == k) && was k
    → contains k new ≡ not (id == k) && is k
    → was id ≡ true
    → is id ≡ true
    → Sorts old new m r k
    → Changed was is m (record r { same = insert id r.same }) k
Changed-self {old} {new} {m} {r} was is id k e f h i s = elim (Bool-cases (id == k)) [
  | inl q ↦
      let q' : id ≡ k = (==_iff id k).0 q in
      let h' : was k ≡ true = subst (λ j. was j ≡ true) q' h in
      let i' : is k ≡ true = subst (λ j. is j ≡ true) q' i in
      ground (arith, contains-insert k id r.same)
  | inr q ↦ ground (arith, contains-insert k id r.same)
]

-- Without the id, the watchers of a tower are the same before and after the id moves.
others :
    (a : TowerAoi) (place : Places) (watching : ℕ → Bool) (id k x y : ℕ) (p : Option (ℕ × ℕ))
    → put watching id false k && sees a (put place id none k) x y
      ≡ not (id == k) && (watching k && sees a (put place id p k) x y)
others a place watching id k x y p = elim (Bool-cases (id == k)) [ inl e ↦ rw e | inr e ↦ rw e ]

others_old :
    (a : TowerAoi) (place : Places) (watching : ℕ → Bool) (id k x y : ℕ)
    → put watching id false k && sees a (put place id none k) x y
      ≡ not (id == k) && (watching k && sees a (place k) x y)
others_old a place watching id k x y = elim (Bool-cases (id == k)) [ inl e ↦ rw e | inr e ↦ rw e ]

gone_view :
    (a : TowerAoi) (place : Places) (id k x y : ℕ)
    → in_view a x y (put place id none k) ≡ not (id == k) && in_view a x y (place k)
gone_view a place id k x y = elim (Bool-cases (id == k)) [ inl e ↦ rw e | inr e ↦ rw e ]

module _ {a : TowerAoi} (g : IsGrid a) (place : Places) (watching : ℕ → Bool) (id ox oy nx ny : ℕ)
    (w o : Moves) where
  -- `MoveWatcher` between two towers of the grid.
  between_lem :
      ox < a.tower_xn
      → oy < a.tower_yn
      → nx < a.tower_xn
      → ny < a.tower_yn
      → place id ≡ some (ox, oy)
      → watching id ≡ true
      → Shows a a.towers place (watch_of a place watching)
      → (ts : List Tower) × (w' : Moves) × (o' : Moves) × (move_between a id
            (cell ox oy)
            (cell nx ny)
            w
            o
          ≡ some (record a { towers = ts }, w', o'))
        × Tracks (record a { towers = ts }) (put place id (some (nx, ny))) watching
        × ((k : ℕ)
            → Changed
                (λ j. watching j && sees a (place j) ox oy)
                (λ j. watching j && sees a (put place id (some (nx, ny)) j) nx ny)
                w
                w'
                k)
        × ((k : ℕ)
            → Changed
                (λ j. not (id == j) && in_view a ox oy (place j))
                (λ j. not (id == j) && in_view a nx ny (place j))
                o
                o'
                k)
  unfolding move_between contains
  between_lem hox hoy hnx hny e watches s =
      let (ts, ts1, oldobjs, r1, r2, s1, found1, sorted1) =
        depart_lem g place watching id ox oy a.towers [] hox hoy e s in
      let (ts2, newobjs, ts3, r3, r4, s3, found2, sorted2) =
        arrive_lem g (put place id none) (put watching id false) id nx ny ts1 [] hnx hny
          (put_self place id none) s1 in
      let oldtower = at a ts1 ox oy in
      let newtower = at a ts1 nx ny in
      let w1 = move_object_sets oldtower.watchers newtower.watchers w in
      (
        ts3,
        record w1 { same = insert id w1.same },
        move_object_sets oldobjs newobjs o,
        rw (tower_of-cell ox oy g hox hoy) (
            rw (tower_of-cell nx ny g hnx hny) (
              rw r1 (
                rw r2 (
                  rw
                    (get_elem?-at ts1 (oy * a.tower_yn + ox) (in_range ts1 ox oy g s1.long hox hoy))
                    (rw
                      (get_elem?-at ts1 (ny * a.tower_yn + nx)
                        (in_range ts1 nx ny g s1.long hnx hny))
                      (rw r3 (rw r4 refl))))))),
        Tracks-towers ts3 g (
            Shows-ext
              (λ k x y h i. ap (λ p. stands p x y) (put-put place id k none (some (nx, ny))))
              (λ k x y h i. rw (
                put-put place id k none (some (nx, ny)),
                put-put watching id k false true,
                put_same watching id k true watches,
              ))
              s3),
        (λ k.
            Changed-self _ _ id k
              (s1.watchers_at k ox oy hox hoy ∙ others_old a place watching id k ox oy)
              (s1.watchers_at k nx ny hnx hny ∙ others a place watching id k nx ny (some (nx, ny)))
              (rw (watches, e) (sees_own a ox oy hox hoy))
              (rw (watches, put_self place id (some (nx, ny))) (sees_own a nx ny hnx hny))
              (move_object_sets-Sorts oldtower.watchers newtower.watchers w k
                (s1.sorted ox oy hox hoy).1 (s1.sorted nx ny hnx hny).1)),
        (λ k.
            Sorts-Changed _ _ k (found1 k) (found2 k ∙ gone_view a place id k nx ny)
              (move_object_sets-Sorts oldobjs newobjs o k (sorted1 tt) (sorted2 tt))),
      )

module _ {a : TowerAoi} {place : Places} {watching : ℕ → Bool} (t : Tracks a place watching)
    (id ox oy nx ny : ℕ) (w o : Moves) (in_ox : ox < a.weight) (in_oy : oy < a.hight)
    (in_nx : nx < a.weight) (in_ny : ny < a.hight) where
  -- For a watcher that stands at the tower of its old cell, `MoveWatcher` to a cell of another tower
  -- succeeds: the watcher then stands at the tower of the new cell and watches the view from it, and all
  -- else is tracked as before. `winsert`, `wsame` and `wremove` gain the difference between the watchers
  -- of the old tower before the move and those of the new tower after it, the watcher itself among those
  -- that stay; `addobjs`, `sameobjs` and `rmobjs` gain the difference between the other objects in the
  -- view from the old tower and in the view from the new one.
  pub move_watcher_lem :
      place id ≡ some (tower_x a ox, tower_y a oy)
      → watching id ≡ true
      → tower_x a ox == tower_x a nx && tower_y a oy == tower_y a ny ≡ false
      → (ts : List Tower) × (w' : Moves) × (o' : Moves) × (move_watcher a id
            (cell ox oy)
            (cell nx ny)
            w
            o
          ≡ some (record a { towers = ts }, w', o'))
        × Tracks
            (record a { towers = ts })
            (put place id (some (tower_x a nx, tower_y a ny)))
            watching
        × ((k : ℕ)
            → Changed
                (λ j. watching j && sees a (place j) (tower_x a ox) (tower_y a oy))
                (λ j.
                  watching j
                  && sees a
                      (put place id (some (tower_x a nx, tower_y a ny)) j)
                      (tower_x a nx)
                      (tower_y a ny))
                w
                w'
                k)
        × ((k : ℕ)
            → Changed
                (λ j. not (id == j) && in_view a (tower_x a ox) (tower_y a oy) (place j))
                (λ j. not (id == j) && in_view a (tower_x a nx) (tower_y a ny) (place j))
                o
                o'
                k)
  unfolding move_watcher
  move_watcher_lem e watches differ =
      let (c, hox, hoy) = cell_to_tower-cell ox oy t.grid in_ox in_oy in
      let (d, hnx, hny) = cell_to_tower-cell nx ny t.grid in_nx in_ny in
      let (ts, w', o', r, tr, cw, co) =
        between_lem t.grid place watching id _ _ _ _ w o hox hoy hnx hny e watches t.shown in
      (ts, w', o', rw (c, d, differ) r, tr, cw, co)

  -- `MoveWatcher` to a cell of the same tower succeeds and only adds the watchers of the tower to
  -- `wsame`.
  pub move_watcher_within :
      tower_x a ox == tower_x a nx && tower_y a oy == tower_y a ny ≡ true
      → (w' : Moves) × (move_watcher a id (cell ox oy) (cell nx ny) w o ≡ some (a, w', o))
        × ((k : ℕ)
            → Changed
                (λ j. watching j && sees a (place j) (tower_x a ox) (tower_y a oy))
                (λ j. watching j && sees a (place j) (tower_x a ox) (tower_y a oy))
                w
                w'
                k)
  unfolding move_watcher
  move_watcher_within same =
      let (c, hox, hoy) = cell_to_tower-cell ox oy t.grid in_ox in_oy in
      let (d, hnx, hny) = cell_to_tower-cell nx ny t.grid in_nx in_ny in
      (
        record w {
          same = insert_all w.same (at a a.towers (tower_x a ox) (tower_y a oy)).watchers;
        },
        rw (c, d, same) (rw (tower_of-cell (tower_x a ox) (tower_y a oy) t.grid hox hoy) refl),
        (λ k. ground (arith, watchers_lem t (tower_x a ox) (tower_y a oy) k w.same hox hoy)),
      )
