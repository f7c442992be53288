-- ===== src/Aoi.antt =====
-- projects/logic_svr/tower.h and tower_aoi.h, tower_aoi.cpp: the towers that divide a map into
-- areas, and who stands at and who watches each. Coordinates are `int16_t`, kept as the integers that
-- they stand for; sizes are taken to be at least 0 and their `int32_t` products not to overflow.
-- An operation that reaches outside `m_towers` has no result (`none`).
pub mod Init
pub mod Ops
pub mod Grid
pub mod Seen
pub mod Paint
pub mod Track
pub mod Watchers
pub mod Movers
pub mod Objects
pub mod Built
pub mod Tests
use Prim.Native.Nat.{ℕ}
use qclib.Base.{
  ℕ, zero, suc, ◌+◌, ◌-◌, ◌*◌, ◌/◌, Bool, true, false, ◌&&◌, List, [], ◌∷◌, Option, none, some,
  ◌>>=◌, if◌then◌else◌, get_elem?, set, replicate,
}
use qclib.Base.Int.{ℤ, pos, negsuc, ◌+ℤ◌, ◌-ℤ◌, ◌*ℤ◌, ltb_ℤ, eq_ℤ, inc, div_ℤ, to_i16}
use qclib.ObjectSet.{ObjectSet, Moves, insert, insert_all, erase, move_object_sets}

pub record Point : Type 0 where
  pub x : ℤ
  pub y : ℤ

pub record Area : Type 0 where
  pub left_up : Point
  pub right_down : Point

pub record Tower : Type 0 where
  pub left_up : Point
  pub id : ℤ
  pub objs : ObjectSet
  pub watchers : ObjectSet

pub record TowerAoi : Type 0 where
  pub weight : ℕ
  pub hight : ℕ
  pub view_weight : ℕ
  pub view_hight : ℕ
  pub tower_view_weight : ℕ
  pub tower_view_hight : ℕ
  pub tower_xn : ℕ
  pub tower_yn : ℕ
  pub tower_weight : ℕ
  pub tower_hight : ℕ
  pub mapid : ℕ
  pub towers : List Tower

-- `TOWER_OPERATOR_ADD` and `TOWER_OPERATOR_DEL`.
pub data Operator : Type 0 where
  operator_add operator_del : Operator

-- `TowerAoi::TowerId`.
unfoldable pub tower_id : TowerAoi → ℤ → ℤ → ℤ
tower_id a x y = y *ℤ pos a.tower_yn +ℤ x

-- The index `m_towers[TowerId(x, y)]`, which a negative id has not.
unfoldable pub index : TowerAoi → ℤ → ℤ → Option ℕ
unfolding tower_id
index a x y = elim (tower_id a x y) [ pos n ↦ some n | negsuc _ ↦ none ]

unfoldable pub cell_to_tower : TowerAoi → Point → Point
cell_to_tower a p = record {
  x = to_i16 (div_ℤ p.x a.tower_weight);
  y = to_i16 (div_ℤ p.y a.tower_hight);
}

pub tower_to_cell : TowerAoi → Point → Point
tower_to_cell a p = record {
  x = to_i16 (p.x *ℤ pos a.tower_weight);
  y = to_i16 (p.y *ℤ pos a.tower_hight);
}

abbrev pub check_min : ℤ → ℤ
check_min v = if ltb_ℤ v (pos 0) then pos 0 else v

-- The bound is an `int32_t` that is assigned to a coordinate.
abbrev pub check_max : ℤ → ℕ → ℤ
check_max v m = if ltb_ℤ (pos m) v then to_i16 (pos m) else v

unfoldable pub view_towers : TowerAoi → Point → Area
view_towers a p = record {
  left_up = record {
    x = check_min (to_i16 (p.x -ℤ pos a.tower_view_weight));
    y = check_min (to_i16 (p.y -ℤ pos a.tower_view_hight));
  };
  right_down = record {
    x = check_max (to_i16 (p.x +ℤ pos a.tower_view_weight +ℤ pos 1)) a.tower_xn;
    y = check_max (to_i16 (p.y +ℤ pos a.tower_view_hight +ℤ pos 1)) a.tower_yn;
  };
}

-- The rounds of `for (v = from; v != to; ++v)`. From above `to` the loop leaves `m_towers` long before
-- `v` could come round to it.
unfoldable pub rounds : ℤ → ℤ → Option ℕ
rounds from to = elim (to -ℤ from) [ pos n ↦ some n | negsuc _ ↦ none ]

-- The body of the loops of `AddOrDeleteWatcher` and `MoveWatcher`: the objects of the tower are
-- gathered, and `f` is done to its watchers.
unfoldable pub visit :
    TowerAoi
    → (ObjectSet → ObjectSet)
    → ℤ
    → ℤ
    → List Tower × ObjectSet
    → Option (List Tower × ObjectSet)
visit a f x y (towers, objs) = do
  i ← index a x y
  t ← get_elem? towers i
  some (set towers i (record t { watchers = f t.watchers }), insert_all objs t.objs)

module _ (a : TowerAoi) (f : ObjectSet → ObjectSet) where
  -- `for (x = ...)`, then `for (y = ...)`.
  unfoldable pub visit_row : ℕ → ℤ → ℤ → List Tower × ObjectSet → Option (List Tower × ObjectSet)
  visit_row zero x y s = some s
  visit_row (suc n) x y s = visit a f x y s >>= λ s'. visit_row n (inc x) y s'

  unfoldable pub visit_rows :
      ℕ → Area → ℤ → List Tower × ObjectSet → Option (List Tower × ObjectSet)
  visit_rows zero area y s = some s
  visit_rows (suc m) area y s =
      (rounds area.left_up.x area.right_down.x >>= λ n. visit_row n area.left_up.x y s) >>= λ s'.
      visit_rows m area (inc y) s'

  unfoldable pub visit_area : Area → List Tower × ObjectSet → Option (List Tower × ObjectSet)
  visit_area area s =
      rounds area.left_up.y area.right_down.y >>= λ m. visit_rows m area area.left_up.y s

-- `tower.m_objs` of the tower at an index, changed by `g`.
unfoldable pub change_objs : (ObjectSet → ObjectSet) → ℕ → List Tower → Option (List Tower)
change_objs g i towers = do
  t ← get_elem? towers i
  some (set towers i (record t { objs = g t.objs }))
