-- ===== src/Aoi/Init.antt =====
-- The constructor of `TowerAoi` and `InitTowers` (tower_aoi.cpp). `blank_id` is what the memory of a
-- tower's id holds before it is written.
use qclib.Base.{
  ℕ, zero, suc, ◌+◌, ◌-◌, ◌*◌, ◌/◌, ◌<◌, ◌≡◌, refl, ◌∙◌, arith, Bool, true, false, ◌&&◌, ◌||◌, List,
  [], Option, none, some, length, ◌==◌, if◌then◌else◌, set, get_elem?, length-set, replicate, ◌>>=◌,
}
use qclib.Base.Int.{ℤ, *ℤ-pos, pos, inc, ◌*ℤ◌, to_i16, to_i16-pos}
use qclib.Aoi.{Tower, TowerAoi, tower_id, index}
use qclib.Aoi.Grid.{cell, IsGrid, index-cell, tower_id-cell}
use qclib.Aoi.Seen.{blank, at, at-set, in_range, get_elem?-at}
use qclib.Aoi.Paint.{in_box}

-- `m_towers[towerid].Init(p, towerid)` over a row, then over the rows.
module _ (a : TowerAoi) where
  unfoldable pub init_row : ℕ → ℤ → ℤ → List Tower → Option (List Tower)
  init_row zero x y ts = some ts
  init_row (suc n) x y ts = do
    i ← index a x y
    t ← get_elem? ts i
    init_row n (inc x) y (
        set ts i (record t {
          left_up = record {
            x = to_i16 (x *ℤ pos a.tower_weight);
            y = to_i16 (y *ℤ pos a.tower_hight);
          };
          id = tower_id a x y;
        }))

  unfoldable pub init_rows : ℕ → ℤ → List Tower → Option (List Tower)
  init_rows zero y ts = some ts
  init_rows (suc m) y ts = init_row a.tower_xn (pos 0) y ts >>= λ ts'. init_rows m (inc y) ts'

-- The sizes as the constructor sets them; the towers are not yet written.
unfoldable pub sized : ℕ → ℕ → ℕ → ℕ → ℕ → ℕ → ℕ → ℤ → TowerAoi
sized w h tw th vw vh mapid blank_id =
    let xn = (w + tw - 1) / tw in
    let yn = (h + th - 1) / th in
    record {
      weight = w;
      hight = h;
      view_weight = vw;
      view_hight = vh;
      tower_view_weight = (vw + tw - 1) / tw;
      tower_view_hight = (vh + th - 1) / th;
      tower_xn = xn;
      tower_yn = yn;
      tower_weight = tw;
      tower_hight = th;
      mapid = mapid;
      towers = replicate (xn * yn) (record blank { id = blank_id });
    }

-- A division by zero has no result.
unfoldable pub make : ℕ → ℕ → ℕ → ℕ → ℕ → ℕ → ℕ → ℤ → Option TowerAoi
unfolding sized
make w h tw th vw vh mapid blank_id =
    if tw == 0 || th == 0
    then none
    else (let a = sized w h tw th vw vh mapid blank_id in
        init_rows a a.tower_yn (pos 0) a.towers >>= λ ts. some (record a { towers = ts }))

-- What `Tower::Init` writes into the tower `(x, y)`.
abbrev labelled : TowerAoi → ℕ → ℕ → Tower → Tower
labelled a x y t = record t {
  left_up = cell (x * a.tower_weight) (y * a.tower_hight);
  id = pos (y * a.tower_yn + x);
}

-- A tower has its corner and its id.
pub record IsLabelled (a : TowerAoi) (x y : ℕ) (t : Tower) : Type 0 where
  pub corner : t.left_up ≡ cell (x * a.tower_weight) (y * a.tower_hight)
  pub number : t.id ≡ pos (y * a.tower_yn + x)

-- All sets are empty, and the towers marked by `done` are labelled.
pub record Fresh (a : TowerAoi) (ts : List Tower) (done : ℕ → ℕ → Bool) : Type 0 where
  pub long : length ts ≡ a.tower_xn * a.tower_yn
  pub no_objs : (x y : ℕ) → x < a.tower_xn → y < a.tower_yn → (at a ts x y).objs ≡ []
  pub no_watchers : (x y : ℕ) → x < a.tower_xn → y < a.tower_yn → (at a ts x y).watchers ≡ []
  pub labels :
      (x y : ℕ) → x < a.tower_xn → y < a.tower_yn → done x y ≡ true → IsLabelled a x y (at a ts x y)

choose :
    {A : Type 0} (P : A → Type 0) (b : Bool) (t u : A)
    → (b ≡ true → P t)
    → (b ≡ false → P u)
    → P (if b then t else u)
choose P true t u p q = p refl
choose P false t u p q = q refl

relabel :
    (a : TowerAoi) (x y x' y' : ℕ) (t : Tower)
    → x == x' && y == y' ≡ true
    → IsLabelled a x' y' (labelled a x y t)
relabel a x y x' y' t e =
    let ex : x ≡ x' = ground arith in
    let ey : y ≡ y' = ground arith in rw (← ex, ← ey) (record { corner = refl; number = refl })

module _ {a : TowerAoi} (g : IsGrid a) (fit_x : a.tower_xn * a.tower_weight < 32768)
    (fit_y : a.tower_yn * a.tower_hight < 32768) where
  corner_lem :
      (x y : ℕ)
      → x < a.tower_xn
      → y < a.tower_yn
      → (to_i16 (pos x *ℤ pos a.tower_weight) ≡ pos (x * a.tower_weight))
        × (to_i16 (pos y *ℤ pos a.tower_hight) ≡ pos (y * a.tower_hight))
  corner_lem x y h k = (
    rw (*ℤ-pos x a.tower_weight) (to_i16-pos (x * a.tower_weight) (grind (arith, fit_x, h))),
    rw (*ℤ-pos y a.tower_hight) (to_i16-pos (y * a.tower_hight) (grind (arith, fit_y, k))),
  )

  Fresh-set :
      (x y : ℕ) (ts : List Tower) (done : ℕ → ℕ → Bool)
      → x < a.tower_xn
      → y < a.tower_yn
      → Fresh a ts done
      → Fresh a
          (set ts (y * a.tower_yn + x) (labelled a x y (at a ts x y)))
          (λ x' y'. done x' y' || in_box x (suc x) y (suc y) x' y')
  Fresh-set x y ts done h k f =
      let t' = labelled a x y (at a ts x y) in
      record {
        long = length-set ts (y * a.tower_yn + x) t' ∙ f.long;
        no_objs = λ x' y' h' k'. rw (at-set ts t' x y x' y' g f.long h k h' k') (
            choose (λ (t : Tower). t.objs ≡ []) _ t' _ (λ _. f.no_objs x y h k)
              (λ _. f.no_objs x' y' h' k'));
        no_watchers = λ x' y' h' k'. rw (at-set ts t' x y x' y' g f.long h k h' k') (
            choose (λ (t : Tower). t.watchers ≡ []) _ t' _ (λ _. f.no_watchers x y h k)
              (λ _. f.no_watchers x' y' h' k'));
        labels = λ x' y' h' k' d. rw (at-set ts t' x y x' y' g f.long h k h' k') (
            choose (IsLabelled a x' y') _ t' _ (relabel a x y x' y' (at a ts x y))
              (λ e. f.labels x' y' h' k' (ground arith)));
      }

  init_row_lem :
      (n x y : ℕ) (ts : List Tower) (done : ℕ → ℕ → Bool)
      → x + n ≡ a.tower_xn
      → y < a.tower_yn
      → Fresh a ts done
      → (ts' : List Tower) × (init_row a n (pos x) (pos y) ts ≡ some ts')
        × Fresh a ts' (λ x' y'. done x' y' || in_box x a.tower_xn y (suc y) x' y')
  unfolding init_row
  init_row_lem zero x y ts done e k f = (
    ts,
    refl,
    record {
      long = f.long;
      no_objs = f.no_objs;
      no_watchers = f.no_watchers;
      labels = λ x' y' h i d. f.labels x' y' h i (ground arith);
    },
  )
  init_row_lem (suc n) x y ts done e k f =
      let h : x < a.tower_xn = omega arith in
      let i = y * a.tower_yn + x in
      let t' = labelled a x y (at a ts x y) in
      let (cx, cy) = corner_lem x y h k in
      let f1 = Fresh-set x y ts done h k f in
      let (ts', r, f') =
        init_row_lem n (suc x) y (set ts i t')
          (λ x' y'. done x' y' || in_box x (suc x) y (suc y) x' y') (omega arith) k f1 in
      (
        ts',
        rw (index-cell a x y) (
            rw (get_elem?-at ts i (in_range ts x y g f.long h k))
              (rw (cx, cy, tower_id-cell a x y) r)),
        record {
          long = f'.long;
          no_objs = f'.no_objs;
          no_watchers = f'.no_watchers;
          labels = λ x' y' h' k' d. f'.labels x' y' h' k' (ground arith);
        },
      )

  pub init_rows_lem :
      (m y : ℕ) (ts : List Tower) (done : ℕ → ℕ → Bool)
      → y + m ≡ a.tower_yn
      → Fresh a ts done
      → (ts' : List Tower) × (init_rows a m (pos y) ts ≡ some ts')
        × Fresh a ts' (λ x' y'. done x' y' || in_box 0 a.tower_xn y a.tower_yn x' y')
  unfolding init_rows
  init_rows_lem zero y ts done e f = (
    ts,
    refl,
    record {
      long = f.long;
      no_objs = f.no_objs;
      no_watchers = f.no_watchers;
      labels = λ x' y' h i d. f.labels x' y' h i (ground arith);
    },
  )
  init_rows_lem (suc m) y ts done e f =
      let (ts1, r1, f1) = init_row_lem a.tower_xn 0 y ts done (omega arith) (omega arith) f in
      let (ts', r, f') =
        init_rows_lem m (suc y) ts1 (λ x' y'. done x' y' || in_box 0 a.tower_xn y (suc y) x' y')
          (omega arith) f1 in
      (
        ts',
        rw r1 r,
        record {
          long = f'.long;
          no_objs = f'.no_objs;
          no_watchers = f'.no_watchers;
          labels = λ x' y' h' k' d. f'.labels x' y' h' k' (ground arith);
        },
      )
