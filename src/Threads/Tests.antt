-- ===== src/Threads/Tests.antt =====
-- Runs of the thread groups, and the theorems at concrete inputs.
use qclib.Base.{ℕ, ◌≡◌, refl, arith, List, [], ◌∷◌, ◌++◌, Option, none, some}
use qclib.Names.{less}
use qclib.Packets.{Message, analyze_svr_msg, get_le, msg_in_server_at}
use qclib.Threads.{ThreadModule, ThreadGroup, without_group, waiting, called, handled}
use qclib.Threads.Deal.{dispatch_all, deal, every, dispatch_all-deal}
use qclib.Threads.Order.{
  Event, message, function, set_group, step, run, on, functions, messages, InPhase, all_functions,
  all_messages, run-order,
}
use qclib.Threads.Turn.{Finished, steps, turn}

-- A message between servers for user 3, with a message inside, and one of another kind.
abbrev for_user : Message
for_user =
    0 ∷ 0 ∷ 0 ∷ 0 ∷ 0 ∷ 0 ∷ 0 ∷ 0 ∷ 10 ∷ 3 ∷ 3 ∷ 0 ∷ 0 ∷ 0 ∷ 0 ∷ 0 ∷ 0 ∷ 0 ∷ 1 ∷ 0 ∷ 0 ∷ 0 ∷ 9 ∷ []

abbrev plain : Message
plain = 0 ∷ 0 ∷ 0 ∷ 0 ∷ 0 ∷ 0 ∷ 0 ∷ 0 ∷ 1 ∷ 1 ∷ []

abbrev new_thread : ThreadModule ℕ
new_thread = record {
  msg_queue = record { functors = []; datas = [] };
  phase = without_group;
  functors = [];
  taken = [];
  srv_hdr = record { m_user_only_id = 0; m_server_id = 0 };
  done = [];
}

abbrev events : List (Event ℕ)
events =
    set_group
    ∷ message for_user
    ∷ message plain
    ∷ function 5
    ∷ step
    ∷ step
    ∷ step
    ∷ function 6
    ∷ step
    ∷ []

-- The function runs before the messages that came first, and the plain message is handled for the user
-- of the one before it.
done-events :
    (run events new_thread).done
    ≡ called 5 ∷ handled 3 (some (9 ∷ [])) ∷ handled 3 (some plain) ∷ []
unfolding run on analyze_svr_msg get_le msg_in_server_at
done-events = refl

run-order_example :
    InPhase (run events new_thread).phase (run events new_thread)
    × (all_functions (run events new_thread) ≡ all_functions new_thread ++ functions events)
    × (all_messages (run events new_thread) [] ≡ all_messages new_thread (messages events))
run-order_example = run-order events new_thread (refl, refl)

abbrev queued : ThreadModule ℕ
queued = record new_thread {
  phase = waiting;
  msg_queue = record { functors = 5 ∷ []; datas = for_user ∷ [] };
}

turn_example :
    Finished
      (record queued { msg_queue = record { functors = []; datas = [] } })
      (run (steps 4) queued)
      (5 ∷ [])
      (for_user ∷ [])
turn_example = turn queued refl (refl, refl) (omega arith)

abbrev pair : ThreadGroup ℕ
pair = record { threads = (1 ∷ [], new_thread) ∷ (2 ∷ [], new_thread) ∷ []; thread_iter = none }

dispatch_all-deal_example :
    (it : Option (List ℕ)) × (dispatch_all (plain ∷ for_user ∷ plain ∷ []) pair
      ≡ some (record {
        threads = deal 1 0 (plain ∷ for_user ∷ plain ∷ []) pair.threads;
        thread_iter = it;
      }))
unfolding less
dispatch_all-deal_example =
    dispatch_all-deal (plain ∷ for_user ∷ plain ∷ []) 1 pair refl ((refl, tt), (tt, tt)) refl

-- The first thread has the first and the third message.
deal-pair :
    deal 1 0 (plain ∷ for_user ∷ plain ∷ []) pair.threads
    ≡ (
      1 ∷ [],
      record new_thread { msg_queue = record { functors = []; datas = plain ∷ plain ∷ [] } },
    )
      ∷ (2 ∷ [], record new_thread { msg_queue = record { functors = []; datas = for_user ∷ [] } })
      ∷ []
unfolding deal every
deal-pair = refl
