-- ===== src/ObjectSet/Tests.antt =====
-- The change from one set of ids to another, at concrete sets.
use qclib.Base.{◌≡◌, refl, arith, [], ◌∷◌}
use qclib.ObjectSet.{Moves, insert, insert_all, move_object_sets}
use qclib.ObjectSet.Move.{Sorts, move_object_sets-Sorts}

abbrev seen : Moves
seen = record { inserted = 4 ∷ []; same = []; removed = [] }

move_object_sets-seen :
    move_object_sets (1 ∷ 3 ∷ 6 ∷ []) (2 ∷ 3 ∷ 5 ∷ 9 ∷ []) seen
    ≡ record { inserted = 2 ∷ 4 ∷ 5 ∷ 9 ∷ []; same = 3 ∷ []; removed = 1 ∷ 6 ∷ [] }
unfolding move_object_sets insert insert_all
move_object_sets-seen = refl

move_object_sets-Sorts_example :
    Sorts
      (1 ∷ 3 ∷ 6 ∷ [])
      (2 ∷ 3 ∷ 5 ∷ 9 ∷ [])
      seen
      (move_object_sets (1 ∷ 3 ∷ 6 ∷ []) (2 ∷ 3 ∷ 5 ∷ 9 ∷ []) seen)
      3
move_object_sets-Sorts_example =
    move_object_sets-Sorts (1 ∷ 3 ∷ 6 ∷ []) (2 ∷ 3 ∷ 5 ∷ 9 ∷ []) seen 3
      (omega arith, (omega arith, tt)) (omega arith, (omega arith, (omega arith, tt)))
