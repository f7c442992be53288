-- ===== src/Aoi/Track.antt =====
-- What `TowerAoi` keeps: where each object stands and which objects watch, as seen in the towers.
use qclib.Base.{
  ℕ, ◌+◌, ◌-◌, ◌*◌, ◌<◌, ◌≡◌, refl, ap, subst, ◌∙◌, arith, min, Bool, false, not, ◌&&◌, ◌||◌, List,
  Option, none, some, ◌==◌, if◌then◌else◌, set, length-set,
}
use qclib.ObjectSet.{ObjectSet, contains, insert, erase}
use qclib.ObjectSet.Laws.{
  IsSorted, contains-insert, contains-erase, insert-IsSorted, erase-IsSorted,
}
use qclib.Aoi.{Tower, TowerAoi, change_objs}
use qclib.Aoi.Grid.{IsGrid}
use qclib.Aoi.Seen.{Places, stands, Watch, at, Shows, at-set, in_range, get_elem?-at}
use qclib.Aoi.Paint.{in_box, within}

-- `k` now stands at `p`.
abbrev pub put {ℓ} : {A : Type ℓ} → (ℕ → A) → ℕ → A → ℕ → A
put place id p k = if id == k then p else place k

-- The tower `(x, y)` is in the view of one who stands at `p`.
abbrev pub sees : TowerAoi → Option (ℕ × ℕ) → ℕ → ℕ → Bool
sees a none x y = false
sees a (some (px, py)) x y =
    in_box (px - a.tower_view_weight) (min (px + a.tower_view_weight + 1) a.tower_xn)
      (py - a.tower_view_hight) (min (py + a.tower_view_hight + 1) a.tower_yn) x y

-- One who stands at `p` is in the view from the tower `(x, y)`.
abbrev pub in_view : TowerAoi → ℕ → ℕ → Option (ℕ × ℕ) → Bool
in_view a x y p =
    within p (x - a.tower_view_weight) (min (x + a.tower_view_weight + 1) a.tower_xn)
      (y - a.tower_view_hight) (min (y + a.tower_view_hight + 1) a.tower_yn)

-- Each watcher watches the towers in its view.
abbrev pub watch_of : TowerAoi → Places → (ℕ → Bool) → Watch
watch_of a place watching k x y = watching k && sees a (place k) x y

pub record Tracks (a : TowerAoi) (place : Places) (watching : ℕ → Bool) : Type 0 where
  pub grid : IsGrid a
  pub shown : Shows a a.towers place (watch_of a place watching)

pub Tracks-towers :
    {a : TowerAoi} {place : Places} {watching : ℕ → Bool} (ts : List Tower)
    → IsGrid a
    → Shows a ts place (watch_of a place watching)
    → Tracks (record a { towers = ts }) place watching
Tracks-towers ts g s = record {
  grid = record {
    square = g.square;
    wide = g.wide;
    high = g.high;
    covers_x = g.covers_x;
    covers_y = g.covers_y;
    small_x = g.small_x;
    small_y = g.small_y;
    sized = s.long;
  };
  shown = record {
    long = s.long;
    objs_at = s.objs_at;
    watchers_at = s.watchers_at;
    sorted = s.sorted;
  };
}

enter_eq :
    (id j x y x' y' : ℕ) (p : Option (ℕ × ℕ)) (c : Bool)
    → c ≡ id == j || stands p x y
    → (id ≡ j → p ≡ none)
    → (if x == x' && y == y' then c else stands p x' y')
      ≡ stands (if id == j then some (x, y) else p) x' y'
enter_eq id j x y x' y' none c e h = ground arith
enter_eq id j x y x' y' (some (px, py)) c e h = ground (arith, λ (q : id ≡ j). h q)

leave_eq :
    (id j x y x' y' : ℕ) (p : Option (ℕ × ℕ)) (c : Bool)
    → c ≡ not (id == j) && stands p x y
    → (id ≡ j → p ≡ some (x, y))
    → (if x == x' && y == y' then c else stands p x' y')
      ≡ stands (if id == j then none else p) x' y'
leave_eq id j x y x' y' none c e h = ground (arith, λ (q : id ≡ j). h q)
leave_eq id j x y x' y' (some (px, py)) c e h = ground (arith, λ (q : id ≡ j). h q)

module _ {a : TowerAoi} (g : IsGrid a) where
  change_lem :
      (f : ObjectSet → ObjectSet) (x y : ℕ) (ts : List Tower) (place place' : Places) (w : Watch)
      → x < a.tower_xn
      → y < a.tower_yn
      → Shows a ts place w
      → ((s : ObjectSet) → IsSorted s → IsSorted (f s))
      → ((k x' y' : ℕ)
          → (if x == x' && y == y'
              then contains k (f (at a ts x y).objs)
              else stands (place k) x' y')
            ≡ stands (place' k) x' y')
      → (ts' : List Tower) × (change_objs f (y * a.tower_yn + x) ts ≡ some ts')
        × Shows a ts' place' w
  unfolding change_objs
  change_lem f x y ts place place' w h k s keeps changes =
      let t = at a ts x y in
      let t' : Tower = record t { objs = f t.objs } in
      (
        set ts (y * a.tower_yn + x) t',
        rw (get_elem?-at ts (y * a.tower_yn + x) (in_range ts x y g s.long h k)) refl,
        record {
          long = length-set ts (y * a.tower_yn + x) t' ∙ s.long;
          objs_at = λ j x' y' h' k'.
              rw (at-set ts t' x y x' y' g s.long h k h' k')
                (ground (arith, changes j x' y', s.objs_at j x' y' h' k'));
          watchers_at = λ j x' y' h' k'.
              rw (at-set ts t' x y x' y' g s.long h k h' k')
                (ground (arith, s.watchers_at j x' y' h' k'));
          sorted = λ x' y' h' k'.
              rw (at-set ts t' x y x' y' g s.long h k h' k')
                (ground (arith, s.sorted x' y' h' k', keeps t.objs, s.sorted x y h k));
        },
      )

  -- An object comes to a tower.
  pub enter_lem :
      (id x y : ℕ) (ts : List Tower) (place : Places) (w : Watch)
      → x < a.tower_xn
      → y < a.tower_yn
      → place id ≡ none
      → Shows a ts place w
      → (ts' : List Tower) × (change_objs (insert id) (y * a.tower_yn + x) ts ≡ some ts')
        × Shows a ts' (put place id (some (x, y))) w
  enter_lem id x y ts place w h k e s =
      change_lem (insert id) x y ts place (put place id (some (x, y))) w h k s (insert-IsSorted id)
        λ j x' y'.
          enter_eq id j x y x' y' (place j) _
            (contains-insert j id (at a ts x y).objs
              ∙ ap (λ (b : Bool). id == j || b) (s.objs_at j x y h k))
            (λ q. subst (λ i. place i ≡ none) q e)

  -- An object leaves its tower.
  pub leave_lem :
      (id x y : ℕ) (ts : List Tower) (place : Places) (w : Watch)
      → x < a.tower_xn
      → y < a.tower_yn
      → place id ≡ some (x, y)
      → Shows a ts place w
      → (ts' : List Tower) × (change_objs (erase id) (y * a.tower_yn + x) ts ≡ some ts')
        × Shows a ts' (put place id none) w
  leave_lem id x y ts place w h k e s =
      change_lem (erase id) x y ts place (put place id none) w h k s (erase-IsSorted id) λ j x' y'.
        leave_eq id j x y x' y' (place j) _
          (contains-erase j id (at a ts x y).objs
            ∙ ap (λ (b : Bool). not (id == j) && b) (s.objs_at j x y h k))
          (λ q. subst (λ i. place i ≡ some (x, y)) q e)
