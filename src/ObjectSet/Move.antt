-- ===== src/ObjectSet/Move.antt =====
-- `TowerAoi::MoveOject` of projects/logic_svr/tower_aoi.cpp: the change from one set to another.
use qclib.Base.{ℕ, ◌≡◌, arith, not, ◌&&◌, ◌||◌, [], ◌∷◌}
use qclib.ObjectSet.{ObjectSet, Moves, contains, insert, move_object_sets}
use qclib.ObjectSet.Laws.{
  IsSorted, Above-IsSorted, contains-Above, contains-insert, contains-insert_all,
}

-- What the pass adds to the three sets, for every id `j`.
pub record Sorts (old new : ObjectSet) (m r : Moves) (j : ℕ) : Type 0 where
  pub inserts :
      contains j r.inserted ≡ contains j m.inserted || contains j new && not (contains j old)
  pub sames : contains j r.same ≡ contains j m.same || contains j new && contains j old
  pub removes :
      contains j r.removed ≡ contains j m.removed || contains j old && not (contains j new)

-- Of two ascending sets, `MoveOject` adds to `insert` exactly the ids that only the new set has, to
-- `same` those that both have and to `remove` those that only the old set has; nothing leaves the
-- three sets.
pub move_object_sets-Sorts :
    (old new : ObjectSet) (m : Moves) (j : ℕ)
    → IsSorted old
    → IsSorted new
    → Sorts old new m (move_object_sets old new m) j
unfolding move_object_sets contains
move_object_sets-Sorts [] new m j h k = ground (arith, contains-insert_all j m.inserted new)
move_object_sets-Sorts (o ∷ old) [] m j h k =
    ground (arith, contains-insert_all j m.removed (o ∷ old))
move_object_sets-Sorts (o ∷ old) (n ∷ new) m j h k = ground (
  arith,
  move_object_sets-Sorts (o ∷ old) new (record m { inserted = insert n m.inserted }) j h
      (Above-IsSorted n new k),
  move_object_sets-Sorts old (n ∷ new) (record m { removed = insert o m.removed }) j
      (Above-IsSorted o old h) k,
  move_object_sets-Sorts old new (record m { same = insert o m.same }) j (Above-IsSorted o old h)
      (Above-IsSorted n new k),
  contains-insert j n m.inserted,
  contains-insert j o m.removed,
  contains-insert j o m.same,
  contains-Above o j old,
  contains-Above n j new,
)
