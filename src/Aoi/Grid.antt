-- ===== src/Aoi/Grid.antt =====
-- The geometry of the towers: where the cells of the map, the towers and the views lie in `m_towers`.
use native.Mathlib.Nat.{div-lt_iff_lt-mul}
use qclib.Base.{ℕ, suc, sym, ap, ◌∙◌, ◌+◌, ◌-◌, ◌*◌, ◌/◌, ◌≤◌, ◌<◌, ◌≡◌, arith, min, some, length}
use qclib.Base.Int.{pos, ◌+ℤ◌, ◌-ℤ◌, ◌*ℤ◌, to_i16, to_i16-pos}
use qclib.Aoi.{
  Point, Area, TowerAoi, tower_id, index, cell_to_tower, view_towers, rounds, check_min, check_max,
}

-- The point with two coordinates at or above 0.
abbrev pub cell : ℕ → ℕ → Point
cell x y = record { x = pos x; y = pos y }

-- The towers cover the map and form a square, and coordinates fit an `int16_t`.
pub record IsGrid (a : TowerAoi) : Type 0 where
  pub square : a.tower_xn ≡ a.tower_yn
  pub wide : 0 < a.tower_weight
  pub high : 0 < a.tower_hight
  pub covers_x : a.weight ≤ a.tower_xn * a.tower_weight
  pub covers_y : a.hight ≤ a.tower_yn * a.tower_hight
  pub small_x : a.tower_xn + a.tower_view_weight + 1 < 32768
  pub small_y : a.tower_yn + a.tower_view_hight + 1 < 32768
  pub sized : length a.towers ≡ a.tower_xn * a.tower_yn

pub tower_id-cell : (a : TowerAoi) (x y : ℕ) → tower_id a (pos x) (pos y) ≡ pos (y * a.tower_yn + x)
unfolding tower_id ◌+ℤ◌ ◌*ℤ◌
tower_id-cell a x y = grind arith

pub index-cell : (a : TowerAoi) (x y : ℕ) → index a (pos x) (pos y) ≡ some (y * a.tower_yn + x)
unfolding index
index-cell a x y = rw (tower_id-cell a x y, index)

-- `TowerId` gives one number to two places: the tower as far right of another as there are rows, and the
-- tower below that other one.
pub tower_id-shared :
    (a : TowerAoi) (x y : ℕ)
    → tower_id a (pos (x + a.tower_yn)) (pos y) ≡ tower_id a (pos x) (pos (suc y))
tower_id-shared a x y =
    let same : y * a.tower_yn + (x + a.tower_yn) ≡ suc y * a.tower_yn + x = grind arith in
    tower_id-cell a (x + a.tower_yn) y ∙ ap pos same ∙ sym (tower_id-cell a x (suc y))

pub rounds_lem : (m n : ℕ) → m ≤ n → rounds (pos m) (pos n) ≡ some (n - m)
unfolding rounds ◌-ℤ◌
rounds_lem m n h = ground arith

-- Towers of the grid have indexes in `m_towers`.
pub index_in : (n x y : ℕ) → x < n → y < n → y * n + x < n * n
index_in n x y h k = grind arith

-- Of a cell of the map, `CellToTower` gives the tower of the grid in which the cell lies: the
-- coordinates divided by the size of a tower, within the grid.
pub cell_to_tower-cell :
    {a : TowerAoi} (x y : ℕ)
    → IsGrid a
    → x < a.weight
    → y < a.hight
    → (cell_to_tower a (cell x y) ≡ cell (x / a.tower_weight) (y / a.tower_hight))
      × (x / a.tower_weight < a.tower_xn)
      × (y / a.tower_hight < a.tower_yn)
unfolding cell_to_tower
cell_to_tower-cell {a} x y g h k = (
  rw (
    to_i16-pos (x / a.tower_weight) (omega (arith, in_x)),
    to_i16-pos (y / a.tower_hight) (omega (arith, in_y)),
  ),
  in_x,
  in_y,
)
  where
    in_x : x / a.tower_weight < a.tower_xn
    in_x = (div-lt_iff_lt-mul g.wide).1 (omega (arith, g.covers_x))

    in_y : y / a.tower_hight < a.tower_yn
    in_y = (div-lt_iff_lt-mul g.high).1 (omega (arith, g.covers_y))

low_side : (n v : ℕ) → n < 32768 → v < 32768 → check_min (to_i16 (pos n -ℤ pos v)) ≡ pos (n - v)
unfolding ◌-ℤ◌ to_i16
low_side n v h k = ground arith

high_side :
    (n v m : ℕ)
    → n < m
    → m + v + 1 < 32768
    → check_max (to_i16 (pos n +ℤ pos v +ℤ pos 1)) m ≡ pos (min (n + v + 1) m)
unfolding ◌+ℤ◌ to_i16
high_side n v m h k = ground arith

-- The view of a tower, cut to the grid.
abbrev pub view : TowerAoi → ℕ → ℕ → Area
view a x y = record {
  left_up = cell (x - a.tower_view_weight) (y - a.tower_view_hight);
  right_down =
      cell (min (x + a.tower_view_weight + 1) a.tower_xn)
        (min (y + a.tower_view_hight + 1) a.tower_yn);
}

-- Of a tower of the grid, `ViewTowers` gives the towers up to the view's size away, cut at the sides of
-- the grid.
pub view_towers-cell :
    {a : TowerAoi} (x y : ℕ)
    → IsGrid a
    → x < a.tower_xn
    → y < a.tower_yn
    → view_towers a (cell x y) ≡ view a x y
unfolding view_towers
view_towers-cell {a} x y g h k = rw (
  low_side x a.tower_view_weight (omega (arith, g.small_x)) (omega (arith, g.small_x)),
  low_side y a.tower_view_hight (omega (arith, g.small_y)) (omega (arith, g.small_y)),
  high_side x a.tower_view_weight a.tower_xn h g.small_x,
  high_side y a.tower_view_hight a.tower_yn k g.small_y,
)
