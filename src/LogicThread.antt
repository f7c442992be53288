-- ===== src/LogicThread.antt =====
-- projects/logic_svr/logic_thread.cpp: the hand-over of messages from the network thread to the
-- logic thread, through `m_msg_queue` (`outer`), `m_msg_queue_inner` (`inner`) and the local queue of
-- `ThreadRun` (`mine`). A schedule is the sequence of the steps that the two threads make; each is
-- atomic, since `inner` changes only under `m_cond` and the other queues belong to one thread each.
pub mod Order
pub mod Drain
mod Tests
use qclib.Base.{
  ℕ, Bool, true, false, not, ◌||◌, List, [], ◌∷◌, ◌++◌, Option, none, some, ◌>>=◌, if◌then◌else◌,
}
use qclib.LoopArray.{LoopArray, make_default, is_empty, pop_front, push_back, append}

-- Where `ThreadRun` stands: at the wait for `inner`, or in its do-while loop.
pub data Phase : Type 0 where
  waiting dispatching : Phase

-- `accepted` are the messages that `push_back` took, `dispatched` those that were handed to
-- `DispatchModuleMessage`, each oldest first.
pub record LogicThread (A : Type 0) : Type 0 where
  pub outer : LoopArray A
  pub inner : LoopArray A
  pub mine : LoopArray A
  pub phase : Phase
  pub accepted : List A
  pub dispatched : List A

pub data Event (A : Type 0) : Type 0 where
  set_message : A → Event A
  poll : Event A
  take_all : Event A
  dispatch : Event A

module _ {A : Type 0} where
  pub init : (ℕ → A) → LogicThread A
  init fill = record {
    outer = make_default fill;
    inner = make_default fill;
    mine = make_default fill;
    phase = waiting;
    accepted = [];
    dispatched = [];
  }

  abbrev pub have_message : LogicThread A → Bool
  have_message s = not (is_empty s.outer) || not (is_empty s.inner)

  -- `SetMessage`: what `push_back` returns is not looked at, a refused message is lost.
  unfoldable pub on_set_message : LogicThread A → A → LogicThread A
  on_set_message s msg =
      let (done, q) = push_back s.outer msg in
      record s { outer = q; accepted = if done then s.accepted ++ msg ∷ [] else s.accepted }

  -- `Notify`; what `Append` returns is not looked at.
  unfoldable pub on_notify : A → LogicThread A → Option (LogicThread A)
  on_notify null s = append null s.inner s.outer >>= λ (_, inner', outer').
      some (record s { inner = inner'; outer = outer' })

  -- The network thread calls `Notify` if there is a message (projects/logic_svr/logic_manager.cpp).
  unfoldable pub on_poll : A → LogicThread A → Option (LogicThread A)
  on_poll null s = if have_message s then on_notify null s else some s

  -- The locked part of `ThreadRun`; it goes on waiting while `inner` is empty.
  unfoldable pub on_take : A → LogicThread A → Option (LogicThread A)
  on_take null s =
      if is_empty s.inner
      then some s
      else (append null s.mine s.inner >>= λ (_, mine', inner').
          some (record s { mine = mine'; inner = inner'; phase = dispatching }))

  -- One round of the do-while loop of `ThreadRun`.
  unfoldable pub on_dispatch : A → LogicThread A → LogicThread A
  on_dispatch null s =
      let (msg, q) = pop_front null s.mine in
      record s {
        mine = q;
        dispatched = s.dispatched ++ msg ∷ [];
        phase = if is_empty q then waiting else dispatching;
      }

  -- A step of the logic thread that its phase does not allow does not happen.
  unfoldable pub step_in : A → LogicThread A → Phase → Event A → Option (LogicThread A)
  step_in null s waiting (set_message msg) = some (on_set_message s msg)
  step_in null s dispatching (set_message msg) = some (on_set_message s msg)
  step_in null s waiting poll = on_poll null s
  step_in null s dispatching poll = on_poll null s
  step_in null s waiting take_all = on_take null s
  step_in null s dispatching take_all = some s
  step_in null s waiting dispatch = some s
  step_in null s dispatching dispatch = some (on_dispatch null s)

  abbrev pub step : A → LogicThread A → Event A → Option (LogicThread A)
  step null s e = step_in null s s.phase e

  unfoldable pub run : A → LogicThread A → List (Event A) → Option (LogicThread A)
  run null s [] = some s
  run null s (e ∷ es) = step null s e >>= λ s'. run null s' es
