-- ===== src/LogicThread/Tests.antt =====
-- A run of the hand-over, and its theorem at a concrete schedule.
use qclib.Base.{ℕ, ◌≡◌, refl, arith, List, [], ◌∷◌, some}
use qclib.LogicThread.{
  LogicThread, Event, set_message, poll, take_all, dispatch, init, run, waiting,
}
use qclib.LoopArray.{LoopArray}
use qclib.LogicThread.Order.{IsOrdered, init-IsOrdered, run-IsOrdered}
use qclib.LogicThread.Drain.{rounds, rounds-dispatch}

abbrev schedule : List (Event ℕ)
schedule =
    set_message 1
    ∷ set_message 2
    ∷ poll
    ∷ set_message 3
    ∷ take_all
    ∷ dispatch
    ∷ poll
    ∷ dispatch
    ∷ []

run-IsOrdered_example :
    (s : LogicThread ℕ) × (run 0 (init (λ (n : ℕ). n)) schedule ≡ some s) × IsOrdered 0 s
run-IsOrdered_example =
    run-IsOrdered 0 schedule (init (λ (n : ℕ). n)) (init-IsOrdered 0 (λ (n : ℕ). n))

abbrev no_messages : LoopArray ℕ
no_messages = record { head = 0; tail = 0; size = 0; capacity = 3; buf = 0 ∷ 0 ∷ 0 ∷ [] }

-- Two messages are in the queue of the network thread.
abbrev two_waiting : LogicThread ℕ
two_waiting = record {
  outer = record { head = 0; tail = 2; size = 2; capacity = 3; buf = 8 ∷ 9 ∷ 0 ∷ [] };
  inner = no_messages;
  mine = no_messages;
  phase = waiting;
  accepted = 8 ∷ 9 ∷ [];
  dispatched = [];
}

two_waiting-IsOrdered : IsOrdered 0 two_waiting
two_waiting-IsOrdered = record {
  outer_ok = omega arith;
  inner_ok = omega arith;
  mine_ok = omega arith;
  phase_ok = refl;
  fifo = refl;
}

rounds-dispatch_example :
    (t : LogicThread ℕ) × (run 0 two_waiting (rounds 0 2) ≡ some t)
    × (t.accepted ≡ 8 ∷ 9 ∷ [])
    × (t.dispatched ≡ 8 ∷ 9 ∷ [])
rounds-dispatch_example = rounds-dispatch 0 2 two_waiting two_waiting-IsOrdered (omega arith)
