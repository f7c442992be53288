-- ===== src/Aoi/Paint.antt =====
-- The nested loops of tower_aoi.cpp over the towers of an area.
use qclib.Base.{
  ℕ, zero, suc, ◌+◌, ◌-◌, ◌*◌, ◌≤◌, ◌<◌, ◌≡◌, refl, ◌∙◌, arith, Bool, false, ◌&&◌, ◌||◌, List,
  Option, none, some, ltb, leb, if◌then◌else◌, set, length-set,
}
use qclib.Base.Int.{pos}
use qclib.ObjectSet.{ObjectSet, contains, insert_all}
use qclib.ObjectSet.Laws.{IsSorted, contains-insert_all, insert_all-IsSorted}
use qclib.Aoi.{Tower, TowerAoi, visit, visit_row, visit_rows, visit_area}
use qclib.Aoi.Grid.{cell, IsGrid, index-cell, rounds_lem}
use qclib.Aoi.Seen.{Places, stands, Watch, at, Shows, Acts, at-set, in_range, get_elem?-at}

-- The towers from `(x0, y0)` up to, and without, `(x1, y1)`.
abbrev pub in_box : ℕ → ℕ → ℕ → ℕ → ℕ → ℕ → Bool
in_box x0 x1 y0 y1 x y = (leb x0 x && ltb x x1) && (leb y0 y && ltb y y1)

abbrev pub within : Option (ℕ × ℕ) → ℕ → ℕ → ℕ → ℕ → Bool
within none x0 x1 y0 y1 = false
within (some (px, py)) x0 x1 y0 y1 = in_box x0 x1 y0 y1 px py

-- `g` done to the watchers of the towers of a box.
abbrev pub paint : (ℕ → Bool → Bool) → ℕ → ℕ → ℕ → ℕ → Watch → Watch
paint g x0 x1 y0 y1 w k x y = if in_box x0 x1 y0 y1 x y then g k (w k x y) else w k x y

pub stands-within : (p : Option (ℕ × ℕ)) (x y : ℕ) → stands p x y ≡ within p x (suc x) y (suc y)
stands-within none x y = refl
stands-within (some (px, py)) x y = ground arith

pub Shows-ext :
    {a : TowerAoi} {ts : List Tower} {place place' : Places} {w w' : Watch}
    → ((k x y : ℕ) → x < a.tower_xn → y < a.tower_yn → stands (place k) x y ≡ stands (place' k) x y)
    → ((k x y : ℕ) → x < a.tower_xn → y < a.tower_yn → w k x y ≡ w' k x y)
    → Shows a ts place w
    → Shows a ts place' w'
Shows-ext p q s = record {
  long = s.long;
  objs_at = λ k x y h i. s.objs_at k x y h i ∙ p k x y h i;
  watchers_at = λ k x y h i. s.watchers_at k x y h i ∙ q k x y h i;
  sorted = s.sorted;
}

none_x : (p : Option (ℕ × ℕ)) (x y0 y1 : ℕ) → within p x x y0 y1 ≡ false
none_x none x y0 y1 = refl
none_x (some (px, py)) x y0 y1 = ground arith

none_y : (p : Option (ℕ × ℕ)) (x0 x1 y : ℕ) → within p x0 x1 y y ≡ false
none_y none x0 x1 y = refl
none_y (some (px, py)) x0 x1 y = ground arith

split_x :
    (p : Option (ℕ × ℕ)) (x x1 y0 y1 : ℕ)
    → x < x1
    → within p x x1 y0 y1 ≡ within p x (suc x) y0 y1 || within p (suc x) x1 y0 y1
split_x none x x1 y0 y1 h = refl
split_x (some (px, py)) x x1 y0 y1 h = ground arith

split_y :
    (p : Option (ℕ × ℕ)) (x0 x1 y y1 : ℕ)
    → y < y1
    → within p x0 x1 y y1 ≡ within p x0 x1 y (suc y) || within p x0 x1 (suc y) y1
split_y none x0 x1 y y1 h = refl
split_y (some (px, py)) x0 x1 y y1 h = ground arith

module _ {a : TowerAoi} (g : IsGrid a) {f : ObjectSet → ObjectSet} {act : ℕ → Bool → Bool}
    (acts : Acts f act) (place : Places) where
  -- What visiting the towers of a box leaves.
  pub record Visited (x0 x1 y0 y1 : ℕ) (w : Watch) (objs : ObjectSet) (ts' : List Tower)
      (objs' : ObjectSet) : Type 0 where
    pub shown : Shows a ts' place (paint act x0 x1 y0 y1 w)
    pub found : (k : ℕ) → contains k objs' ≡ contains k objs || within (place k) x0 x1 y0 y1
    pub ordered : IsSorted objs → IsSorted objs'

  visit_lem :
      (x y : ℕ) (ts : List Tower) (objs : ObjectSet) (w : Watch)
      → x < a.tower_xn
      → y < a.tower_yn
      → Shows a ts place w
      → (ts' : List Tower) × (objs' : ObjectSet) × (visit a f (pos x) (pos y) (ts, objs)
          ≡ some (ts', objs'))
        × Visited x (suc x) y (suc y) w objs ts' objs'
  unfolding visit
  visit_lem x y ts objs w h k s =
      let t = at a ts x y in
      let t' : Tower = record t { watchers = f t.watchers } in
      (
        set ts (y * a.tower_yn + x) t',
        insert_all objs t.objs,
        rw (index-cell a x y)
            (rw (get_elem?-at ts (y * a.tower_yn + x) (in_range ts x y g s.long h k)) refl),
        record {
          shown = record {
            long = length-set ts (y * a.tower_yn + x) t' ∙ s.long;
            objs_at = λ j x' y' h' k'.
                rw (at-set ts t' x y x' y' g s.long h k h' k')
                  (ground (arith, s.objs_at j x' y' h' k', s.objs_at j x y h k));
            watchers_at = λ j x' y' h' k'. rw (at-set ts t' x y x' y' g s.long h k h' k') (
                ground (
                  arith,
                  s.watchers_at j x' y' h' k',
                  acts.acts j t.watchers,
                  s.watchers_at j x y h k,
                ));
            sorted = λ x' y' h' k'.
                rw (at-set ts t' x y x' y' g s.long h k h' k')
                  (ground (arith, s.sorted x' y' h' k', acts.keeps t.watchers, s.sorted x y h k));
          };
          found = λ j. ground (
            arith,
            contains-insert_all j objs t.objs,
            s.objs_at j x y h k,
            stands-within (place j) x y,
          );
          ordered = insert_all-IsSorted objs t.objs;
        },
      )

  Visited-none :
      (x y0 y1 : ℕ) (w : Watch) (objs : ObjectSet) (ts : List Tower)
      → Shows a ts place w
      → Visited x x y0 y1 w objs ts objs
  Visited-none x y0 y1 w objs ts s = record {
    shown = Shows-ext (λ k x' y' h i. refl) (λ k x' y' h i. ground arith) s;
    found = λ k. ground (arith, none_x (place k) x y0 y1);
    ordered = λ h. h;
  }

  Visited-no_row :
      (x0 x1 y : ℕ) (w : Watch) (objs : ObjectSet) (ts : List Tower)
      → Shows a ts place w
      → Visited x0 x1 y y w objs ts objs
  Visited-no_row x0 x1 y w objs ts s = record {
    shown = Shows-ext (λ k x' y' h i. refl) (λ k x' y' h i. ground arith) s;
    found = λ k. ground (arith, none_y (place k) x0 x1 y);
    ordered = λ h. h;
  }

  -- A row goes on to the right.
  Visited-right :
      (x x1 y : ℕ) (w : Watch) (objs : ObjectSet) {ts ts' : List Tower} {objs1 objs' : ObjectSet}
      → x < x1
      → Visited x (suc x) y (suc y) w objs ts objs1
      → Visited (suc x) x1 y (suc y) (paint act x (suc x) y (suc y) w) objs1 ts' objs'
      → Visited x x1 y (suc y) w objs ts' objs'
  Visited-right x x1 y w objs h v v' = record {
    shown = Shows-ext (λ k x' y' h' i. refl) (λ k x' y' h' i. ground arith) v'.shown;
    found = λ k. ground (arith, v.found k, v'.found k, split_x (place k) x x1 y (suc y));
    ordered = λ s. v'.ordered (v.ordered s);
  }

  -- The rows go on below.
  Visited-below :
      (x0 x1 y y1 : ℕ) (w : Watch) (objs : ObjectSet) {ts ts' : List Tower}
      {objs1 objs' : ObjectSet}
      → y < y1
      → Visited x0 x1 y (suc y) w objs ts objs1
      → Visited x0 x1 (suc y) y1 (paint act x0 x1 y (suc y) w) objs1 ts' objs'
      → Visited x0 x1 y y1 w objs ts' objs'
  Visited-below x0 x1 y y1 w objs h v v' = record {
    shown = Shows-ext (λ k x' y' h' i. refl) (λ k x' y' h' i. ground arith) v'.shown;
    found = λ k. ground (arith, v.found k, v'.found k, split_y (place k) x0 x1 y y1);
    ordered = λ s. v'.ordered (v.ordered s);
  }

  row_lem :
      (n x x1 y : ℕ) (ts : List Tower) (objs : ObjectSet) (w : Watch)
      → x + n ≡ x1
      → x1 ≤ a.tower_xn
      → y < a.tower_yn
      → Shows a ts place w
      → (ts' : List Tower) × (objs' : ObjectSet) × (visit_row a f n (pos x) (pos y) (ts, objs)
          ≡ some (ts', objs'))
        × Visited x x1 y (suc y) w objs ts' objs'
  unfolding visit_row
  row_lem zero x x1 y ts objs w e h k s =
      let ex : x ≡ x1 = omega arith in
      (ts, objs, refl, rw (← ex) (Visited-none x y (suc y) w objs ts s))
  row_lem (suc n) x x1 y ts objs w e h k s =
      let (ts1, objs1, r, v) = visit_lem x y ts objs w (omega arith) k s in
      let (ts', objs', r', v') =
        row_lem n (suc x) x1 y ts1 objs1 (paint act x (suc x) y (suc y) w) (omega arith) h k
          v.shown in
      (ts', objs', rw r r', Visited-right x x1 y w objs (omega arith) v v')

  rows_lem :
      (m x0 x1 y y0 y1 y2 : ℕ) (ts : List Tower) (objs : ObjectSet) (w : Watch)
      → y + m ≡ y1
      → x0 ≤ x1
      → x1 ≤ a.tower_xn
      → y1 ≤ a.tower_yn
      → Shows a ts place w
      → (ts' : List Tower) × (objs' : ObjectSet) × (visit_rows a f m
            (record { left_up = cell x0 y0; right_down = cell x1 y2 })
            (pos y)
            (ts, objs)
          ≡ some (ts', objs'))
        × Visited x0 x1 y y1 w objs ts' objs'
  unfolding visit_rows
  rows_lem zero x0 x1 y y0 y1 y2 ts objs w e o h k s =
      let ey : y ≡ y1 = omega arith in
      (ts, objs, refl, rw (← ey) (Visited-no_row x0 x1 y w objs ts s))
  rows_lem (suc m) x0 x1 y y0 y1 y2 ts objs w e o h k s =
      let (ts1, objs1, r, v) =
        row_lem (x1 - x0) x0 x1 y ts objs w (omega arith) h (omega arith) s in
      let (ts', objs', r', v') =
        rows_lem m x0 x1 (suc y) y0 y1 y2 ts1 objs1 (paint act x0 x1 y (suc y) w) (omega arith) o h
          k v.shown in
      (
        ts',
        objs',
        rw (rounds_lem x0 x1 o) (rw r r'),
        Visited-below x0 x1 y y1 w objs (omega arith) v v',
      )

  -- Over an area of the grid the loops end, within `m_towers`.
  pub area_lem :
      (x0 x1 y0 y1 : ℕ) (ts : List Tower) (objs : ObjectSet) (w : Watch)
      → x0 ≤ x1
      → y0 ≤ y1
      → x1 ≤ a.tower_xn
      → y1 ≤ a.tower_yn
      → Shows a ts place w
      → (ts' : List Tower) × (objs' : ObjectSet) × (visit_area a f
            (record { left_up = cell x0 y0; right_down = cell x1 y1 })
            (ts, objs)
          ≡ some (ts', objs'))
        × Visited x0 x1 y0 y1 w objs ts' objs'
  unfolding visit_area
  area_lem x0 x1 y0 y1 ts objs w o p h k s =
      let (ts', objs', r, v) =
        rows_lem (y1 - y0) x0 x1 y0 y0 y1 y1 ts objs w (omega arith) o h k s in
      (ts', objs', rw (rounds_lem y0 y1 p) r, v)
