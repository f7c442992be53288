-- ===== src/LoopArray/Tests.antt =====
-- Runs of `LoopArray` on small arrays, and the theorems at concrete inputs.
use qclib.Base.{ℕ, ◌≡◌, refl, arith, true, [], ◌∷◌, some}
use qclib.LoopArray.{LoopArray, pop_front, push_back, append_loop, append}
use qclib.LoopArray.Inv.{IsValid}
use qclib.LoopArray.Refine.{contents, queue_push, queue_pop, push_back_refines, pop_front_refines}
use qclib.LoopArray.Append.{append_lem, Moved}

-- 8, then 9, round the end of the storage.
abbrev wrapped : LoopArray ℕ
wrapped = record { head = 2; tail = 1; size = 2; capacity = 3; buf = 9 ∷ 7 ∷ 8 ∷ [] }

abbrev source : LoopArray ℕ
source = record { head = 0; tail = 0; size = 2; capacity = 2; buf = 5 ∷ 6 ∷ [] }

contents-wrapped : contents 0 wrapped ≡ 8 ∷ 9 ∷ []
contents-wrapped = refl

pop_front-wrapped : (pop_front 0 wrapped).0 ≡ 8
unfolding pop_front
pop_front-wrapped = refl

append-wrapped :
    append 0 wrapped source
    ≡ some (
      true,
      record wrapped { tail = 2; size = 3; buf = 9 ∷ 5 ∷ 8 ∷ [] },
      record source { head = 1; size = 1 },
    )
unfolding append append_loop push_back pop_front
append-wrapped = refl

wrapped-IsValid : IsValid wrapped
wrapped-IsValid = omega arith

source-IsValid : IsValid source
source-IsValid = omega arith

push_back_refines_example :
    let (s, a) = push_back wrapped 4 in (s, contents 0 a) ≡ queue_push 3 (8 ∷ 9 ∷ []) 4
push_back_refines_example = push_back_refines 0 4 wrapped-IsValid

pop_front_refines_example :
    let (x, a) = pop_front 0 wrapped in (x, contents 0 a) ≡ queue_pop 0 (8 ∷ 9 ∷ [])
pop_front_refines_example = pop_front_refines 0 wrapped-IsValid

append_lem_example :
    (a : LoopArray ℕ) × (b : LoopArray ℕ) × (append 0 wrapped source ≡ some (true, a, b))
    × Moved 0 wrapped source a b
append_lem_example = append_lem 0 wrapped-IsValid source-IsValid
