-- ===== src/ObjectSet.antt =====
-- `std::set<ObjectId>` as projects/logic_svr/tower.h uses it: the ids in ascending order. An
-- `ObjectId` is what `get_next_obj_id` of projects/logic_svr/define_logic_data.h issues, a type below
-- 128 shifted over a 56-bit count, hence a number.
pub mod Laws
pub mod Move
mod Tests
use Prim.Native.Nat.{compare, Ordering}
use qclib.Base.{ℕ, ◌+◌, ◌*◌, ◌^◌, Bool, true, false, ◌||◌, List, [], ◌∷◌, ltb, ◌==◌, if◌then◌else◌}

abbrev pub ObjectSet : Type 0
ObjectSet = List ℕ

-- `count(id)`, as a truth value.
unfoldable pub contains : ℕ → ObjectSet → Bool
contains k [] = false
contains k (x ∷ xs) = x == k || contains k xs

unfoldable pub insert : ℕ → ObjectSet → ObjectSet
insert k [] = k ∷ []
insert k (x ∷ xs) = elim (compare k x) [
  | Ordering.lt ↦ k ∷ x ∷ xs
  | Ordering.eq ↦ x ∷ xs
  | Ordering.gt ↦ x ∷ insert k xs
]

-- `insert(first, last)`.
unfoldable pub insert_all : ObjectSet → ObjectSet → ObjectSet
insert_all s [] = s
insert_all s (x ∷ xs) = insert_all (insert x s) xs

unfoldable pub erase : ℕ → ObjectSet → ObjectSet
erase k [] = []
erase k (x ∷ xs) = if x == k then erase k xs else x ∷ erase k xs

-- The three sets that `TowerAoi::MoveOject` fills.
pub record Moves : Type 0 where
  pub inserted : ObjectSet
  pub same : ObjectSet
  pub removed : ObjectSet

-- `TowerAoi::MoveOject` of projects/logic_svr/tower_aoi.cpp: one pass over two ascending sets.
unfoldable pub move_object_sets : ObjectSet → ObjectSet → Moves → Moves
move_object_sets [] new m = record m { inserted = insert_all m.inserted new }
move_object_sets (o ∷ old) [] m = record m { removed = insert_all m.removed (o ∷ old) }
move_object_sets (o ∷ old) (n ∷ new) m = elim (compare o n) [
  | Ordering.gt ↦ move_object_sets (o ∷ old) new (record m { inserted = insert n m.inserted })
  | Ordering.lt ↦ move_object_sets old (n ∷ new) (record m { removed = insert o m.removed })
  | Ordering.eq ↦ move_object_sets old new (record m { same = insert o m.same })
]
