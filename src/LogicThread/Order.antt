-- ===== src/LogicThread/Order.antt =====
-- The order of the messages of projects/logic_svr/logic_thread.cpp under any schedule.
use mathlib.Core.List.{append_assoc}
use qclib.Base.{
  if◌then◌else◌, ℕ, ◌<◌, ◌≡◌, refl, arith, List, [], ◌∷◌, ◌++◌, Bool-cases, inl, inr, some,
}
use qclib.LoopArray.{LoopArray, pop_front, is_empty, is_full}
use qclib.LoopArray.Inv.{IsValid, make_default-IsValid, push_back-IsValid, pop_front-IsValid}
use qclib.LoopArray.Refine.{
  contents, contents-push_back, contents-pop_front, size-push_back, push_back_full,
  size-make_default, contents-make_default,
}
use qclib.LoopArray.Append.{append_lem, Moved-all, size-Moved}
use qclib.LogicThread.{
  init, LogicThread, Phase, waiting, dispatching, Event, set_message, poll, take_all, dispatch,
  have_message, on_set_message, on_notify, on_poll, on_take, on_dispatch, step_in, run,
}

module _ {A : Type 0} (null : A) where
  -- The messages on their way, oldest first.
  abbrev pub pending : LogicThread A → List A
  pending s = contents null s.mine ++ (contents null s.inner ++ contents null s.outer)

  -- In the loop of `ThreadRun` the local queue is not empty.
  abbrev pub InPhase : Phase → LoopArray A → Type 0
  InPhase waiting q = q.size ≡ 0
  InPhase dispatching q = 0 < q.size

  pub record IsOrdered (s : LogicThread A) : Type 0 where
    pub outer_ok : IsValid s.outer
    pub inner_ok : IsValid s.inner
    pub mine_ok : IsValid s.mine
    pub phase_ok : InPhase s.phase s.mine
    pub fifo : s.dispatched ++ pending s ≡ s.accepted

  pub set_message-IsOrdered :
      (s : LogicThread A) (msg : A) → IsOrdered s → IsOrdered (on_set_message s msg)
  unfolding on_set_message
  set_message-IsOrdered s msg v = elim (Bool-cases (is_full s.outer)) [
    | inl e ↦ rw (push_back_full s.outer msg e) (record {
      outer_ok = v.outer_ok;
      inner_ok = v.inner_ok;
      mine_ok = v.mine_ok;
      phase_ok = v.phase_ok;
      fifo = v.fifo;
    })
    | inr e ↦
        let room : s.outer.size < s.outer.capacity = ground arith in
        record {
          outer_ok = push_back-IsValid msg v.outer_ok;
          inner_ok = v.inner_ok;
          mine_ok = v.mine_ok;
          phase_ok = v.phase_ok;
          fifo =
              rw
                (
                  (size-push_back msg v.outer_ok room).0,
                  contents-push_back null msg v.outer_ok room,
                  ← v.fifo,
                )
                (simp append_assoc);
        }
  ]

  pub take_all-IsOrdered :
      (s : LogicThread A)
      → IsOrdered s
      → s.mine.size ≡ 0
      → (s' : LogicThread A) × (on_take null s ≡ some s') × IsOrdered s'
  unfolding on_take
  take_all-IsOrdered s v p = elim (Bool-cases (is_empty s.inner)) [
    | inl e ↦ (s, rw e, v)
    | inr e ↦
        let (mine', inner', r, m) = append_lem null v.mine_ok v.inner_ok in
        let many : 0 < s.inner.size = ground arith in
        (
          record s { mine = mine'; inner = inner'; phase = dispatching },
          rw (e, r),
          record {
            outer_ok = v.outer_ok;
            inner_ok = m.right;
            mine_ok = m.left;
            phase_ok = omega (arith, size-Moved null m, many, v.mine_ok.positive);
            fifo =
                rw (← append_assoc (contents null mine') (contents null inner'), Moved-all null m)
                  (rw append_assoc v.fifo);
          },
        )
  ]

  pub notify-IsOrdered :
      (s : LogicThread A)
      → IsOrdered s
      → (s' : LogicThread A) × (on_notify null s ≡ some s') × IsOrdered s'
  unfolding on_notify
  notify-IsOrdered s v =
      let (inner', outer', r, m) = append_lem null v.inner_ok v.outer_ok in
      (
        record s { inner = inner'; outer = outer' },
        rw r,
        record {
          outer_ok = m.right;
          inner_ok = m.left;
          mine_ok = v.mine_ok;
          phase_ok = v.phase_ok;
          fifo = rw (Moved-all null m) v.fifo;
        },
      )

  pub poll-IsOrdered :
      (s : LogicThread A)
      → IsOrdered s
      → (s' : LogicThread A) × (on_poll null s ≡ some s') × IsOrdered s'
  unfolding on_poll
  poll-IsOrdered s v = elim (Bool-cases (have_message s)) [
    | inl e ↦ rw e (notify-IsOrdered s v)
    | inr e ↦ rw e (s, refl, v)
  ]

  InPhase-next : (q : LoopArray A) → InPhase (if is_empty q then waiting else dispatching) q
  InPhase-next q = elim (Bool-cases (is_empty q)) [
    | inl e ↦ rw e (ground arith)
    | inr e ↦ rw e (ground arith)
  ]

  pub dispatch-IsOrdered :
      (s : LogicThread A) → IsOrdered s → 0 < s.mine.size → IsOrdered (on_dispatch null s)
  unfolding on_dispatch
  dispatch-IsOrdered s v p = record {
    outer_ok = v.outer_ok;
    inner_ok = v.inner_ok;
    mine_ok = pop_front-IsValid null v.mine_ok;
    phase_ok = InPhase-next (pop_front null s.mine).1;
    fifo = rw append_assoc (rw (contents-pop_front null v.mine_ok p) at v.fifo);
  }

  step_in-IsOrdered :
      (s : LogicThread A) (at : Phase) (e : Event A)
      → InPhase at s.mine
      → IsOrdered s
      → (s' : LogicThread A) × (step_in null s at e ≡ some s') × IsOrdered s'
  unfolding step_in
  step_in-IsOrdered s waiting (set_message msg) h v =
      (on_set_message s msg, refl, set_message-IsOrdered s msg v)
  step_in-IsOrdered s dispatching (set_message msg) h v =
      (on_set_message s msg, refl, set_message-IsOrdered s msg v)
  step_in-IsOrdered s waiting poll h v = poll-IsOrdered s v
  step_in-IsOrdered s dispatching poll h v = poll-IsOrdered s v
  step_in-IsOrdered s waiting take_all h v = take_all-IsOrdered s v h
  step_in-IsOrdered s dispatching take_all h v = (s, refl, v)
  step_in-IsOrdered s waiting dispatch h v = (s, refl, v)
  step_in-IsOrdered s dispatching dispatch h v =
      (on_dispatch null s, refl, dispatch-IsOrdered s v h)

  pub init-IsOrdered : (fill : ℕ → A) → IsOrdered (init fill)
  unfolding init
  init-IsOrdered fill =
      let v = make_default-IsValid fill in
      record {
        outer_ok = v;
        inner_ok = v;
        mine_ok = v;
        phase_ok = size-make_default fill;
        fifo = rw contents-make_default;
      }

  -- From a state in order, every schedule of the two threads runs to its end, and in the state that
  -- it reaches the three queues are valid and the messages dispatched so far, followed by those on
  -- their way, are the messages accepted so far, in the order of their arrival.
  pub run-IsOrdered :
      (es : List (Event A)) (s : LogicThread A)
      → IsOrdered s
      → (s' : LogicThread A) × (run null s es ≡ some s') × IsOrdered s'
  unfolding run
  run-IsOrdered [] s v = (s, refl, v)
  run-IsOrdered (e ∷ es) s v =
      let (s1, r, w) = step_in-IsOrdered s s.phase e v.phase_ok v in
      let (s', q, x) = run-IsOrdered es s1 w in (s', rw (r, run) q, x)
