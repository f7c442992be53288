-- ===== src/Aoi/Ops.antt =====
-- The operations of `TowerAoi` (tower_aoi.cpp). A set that the source fills through a reference is an
-- argument, and comes back in the result.
use qclib.Base.{ℕ, Bool, ◌&&◌, [], Option, some, ◌>>=◌, if◌then◌else◌, get_elem?}
use qclib.Base.Int.{eq_ℤ}
use qclib.ObjectSet.{ObjectSet, Moves, insert, insert_all, erase, move_object_sets}
use qclib.Aoi.{
  Point, Tower, TowerAoi, Operator, operator_add, operator_del, index, cell_to_tower, view_towers,
  visit_area, change_objs,
}

-- `m_towers[TowerId(tp.m_x, tp.m_y)]`.
unfoldable pub tower_of : TowerAoi → Point → Option (ℕ × Tower)
tower_of a tp = do i ← index a tp.x tp.y; t ← get_elem? a.towers i; some (i, t)

unfoldable pub add_or_delete_watcher :
    TowerAoi
    → ℕ
    → Point
    → ObjectSet
    → ObjectSet
    → Operator
    → Option (TowerAoi × ObjectSet × ObjectSet)
unfolding tower_of change_objs
add_or_delete_watcher a objid p watcher objs operator_add = do
  let tp = cell_to_tower a p
  (i, tower) ← tower_of a tp
  (ts, objs') ← visit_area a (insert objid) (view_towers a tp) (a.towers, objs)
  ts' ← change_objs (insert objid) i ts
  some (record a { towers = ts' }, insert_all watcher tower.watchers, objs')
add_or_delete_watcher a objid p watcher objs operator_del = do
  let tp = cell_to_tower a p
  (i, tower) ← tower_of a tp
  ts ← change_objs (erase objid) i a.towers
  (ts', objs') ← visit_area a (erase objid) (view_towers a tp) (ts, objs)
  some (record a { towers = ts' }, erase objid (insert_all watcher tower.watchers), objs')

-- `AddWatcher` and `DelWatcher`; the 0 that they return carries nothing.
abbrev pub add_watcher :
    TowerAoi → ℕ → Point → ObjectSet → ObjectSet → Option (TowerAoi × ObjectSet × ObjectSet)
add_watcher a objid p watcher objs = add_or_delete_watcher a objid p watcher objs operator_add

abbrev pub del_watcher :
    TowerAoi → ℕ → Point → ObjectSet → ObjectSet → Option (TowerAoi × ObjectSet × ObjectSet)
del_watcher a objid p watcher objs = add_or_delete_watcher a objid p watcher objs operator_del

-- What `AddOrDeleteObject` does to the objects of the tower.
abbrev pub object_change : Operator → ℕ → ObjectSet → ObjectSet
object_change operator_add objid = insert objid
object_change operator_del objid = erase objid

unfoldable pub add_or_delete_object :
    TowerAoi → ℕ → Point → ObjectSet → Operator → Option (TowerAoi × ObjectSet)
unfolding tower_of change_objs
add_or_delete_object a objid p watcher op = do
  (i, tower) ← tower_of a (cell_to_tower a p)
  ts ← change_objs (object_change op objid) i a.towers
  some (record a { towers = ts }, insert_all watcher tower.watchers)

abbrev pub add_object : TowerAoi → ℕ → Point → ObjectSet → Option (TowerAoi × ObjectSet)
add_object a objid p watcher = add_or_delete_object a objid p watcher operator_add

abbrev pub del_object : TowerAoi → ℕ → Point → ObjectSet → Option (TowerAoi × ObjectSet)
del_object a objid p watcher = add_or_delete_object a objid p watcher operator_del

-- `0 == memcmp(&p, &q, sizeof(Point))`.
abbrev pub same_point : Point → Point → Bool
same_point p q = eq_ℤ p.x q.x && eq_ℤ p.y q.y

-- `MoveWatcher` between two towers.
unfoldable pub move_between :
    TowerAoi → ℕ → Point → Point → Moves → Moves → Option (TowerAoi × Moves × Moves)
unfolding tower_of change_objs
move_between a objid oldt newt w o = do
  (i, _) ← tower_of a oldt
  (j, _) ← tower_of a newt
  ts ← change_objs (erase objid) i a.towers
  (ts1, oldobjs) ← visit_area a (erase objid) (view_towers a oldt) (ts, [])
  oldtower ← get_elem? ts1 i
  newtower ← get_elem? ts1 j
  let w' = move_object_sets oldtower.watchers newtower.watchers w
  (ts2, newobjs) ← visit_area a (insert objid) (view_towers a newt) (ts1, [])
  ts3 ← change_objs (insert objid) j ts2
  some (
    record a { towers = ts3 },
    record w' { same = insert objid w'.same },
    move_object_sets oldobjs newobjs o,
  )

-- `MoveWatcher`: the towers, the changes of the watchers and those of the objects in view.
unfoldable pub move_watcher :
    TowerAoi → ℕ → Point → Point → Moves → Moves → Option (TowerAoi × Moves × Moves)
unfolding tower_of
move_watcher a objid op np w o =
    let oldt = cell_to_tower a op in
    let newt = cell_to_tower a np in
    if same_point oldt newt
    then (tower_of a oldt >>= λ (_, tower).
        some (a, record w { same = insert_all w.same tower.watchers }, o))
    else move_between a objid oldt newt w o

-- `MoveObject`: the number that it returns, the towers and the changes of the watchers.
unfoldable pub move_object : TowerAoi → ℕ → Point → Point → Moves → Option (ℕ × TowerAoi × Moves)
unfolding tower_of change_objs
move_object a objid op np w =
    let oldt = cell_to_tower a op in
    let newt = cell_to_tower a np in
    if same_point oldt newt then some (1, a, w) else (do
      (i, oldtower) ← tower_of a oldt
      (j, newtower) ← tower_of a newt
      ts ← change_objs (erase objid) i a.towers
      ts' ← change_objs (insert objid) j ts
      some (0, record a { towers = ts' }, move_object_sets oldtower.watchers newtower.watchers w))
