-- ===== src/Threads/Turn.antt =====
-- projects/logic_svr/module_thread_group.cpp: one turn of a thread, from its wait to the next.
use qclib.Base.{
  ℕ, zero, suc, ◌+◌, ◌≡◌, refl, sym, ap, ap₂, subst, ◌<◌, ◌∙◌, arith, List, [], ◌∷◌, ◌++◌, Option,
  length, map,
}
use qclib.Packets.{Message}
use qclib.Threads.{
  ThreadModule, Phase, waiting, working, Done, called, handled, thread_run, work, do_message,
  swap_out, take_out,
}
use qclib.Threads.Order.{Event, step, run, on, analyzed, InPhase}
use mathlib.Core.List.{append_assoc, append-nil}

module _ {F : Type 0} where
  abbrev pub handle : ℕ × Option Message → Done F
  handle (user, msg) = handled user msg

  unfoldable pub steps : ℕ → List (Event F)
  steps zero = []
  steps (suc n) = step ∷ steps n

  -- A thread that has done all that it was given.
  pub record Finished (t u : ThreadModule F) (fs : List F) (msgs : List Message) : Type 0 where
    pub phase_lem : u.phase ≡ waiting
    pub queue_lem : u.msg_queue ≡ t.msg_queue
    pub done_lem : u.done ≡ t.done ++ (map called fs ++ map handle (analyzed t.srv_hdr msgs))

  stepped :
      (es : List (Event F)) (fs : List F) (msgs : List Message) {gs : List F} {ns : List Message}
      (t : ThreadModule F)
      → t.phase ≡ working
      → t.functors ≡ fs
      → t.taken ≡ msgs
      → Finished t (run es (work fs msgs t)) gs ns
      → Finished t (run (step ∷ es) t) gs ns
  unfolding run on thread_run
  stepped es fs msgs {gs} {ns} t p e g =
      subst (λ (u : ThreadModule F). Finished t (run es u) gs ns)
        (sym (
          ap (λ (q : Phase). thread_run q t) p
          ∙ ap₂ (λ (a : List F) (b : List Message). work a b t) e g))

  take-some :
      (fs : List F) (msgs : List Message) (t : ThreadModule F)
      → 0 < length fs + length msgs
      → take_out (swap_out t.taken fs msgs) t ≡ record t {
        msg_queue = record { functors = []; datas = t.taken };
        phase = working;
        functors = fs;
        taken = msgs;
      }
  unfolding take_out swap_out
  take-some [] [] t h = absurd (omega arith)
  take-some (f ∷ fs) msgs t h = refl
  take-some [] (msg ∷ msgs) t h = refl

  on_take :
      (t : ThreadModule F)
      → t.phase ≡ waiting
      → 0 < length t.msg_queue.functors + length t.msg_queue.datas
      → on step t ≡ record t {
        msg_queue = record { functors = []; datas = t.taken };
        phase = working;
        functors = t.msg_queue.functors;
        taken = t.msg_queue.datas;
      }
  unfolding on thread_run
  on_take t p h =
      ap (λ (q : Phase). thread_run q t) p ∙ take-some t.msg_queue.functors t.msg_queue.datas t h

  -- The loop of a thread that has functions and messages in its hands.
  work_all :
      (n : ℕ) (fs : List F) (msgs : List Message) (t : ThreadModule F)
      → n ≡ length fs + length msgs
      → t.phase ≡ working
      → t.functors ≡ fs
      → t.taken ≡ msgs
      → Finished t (run (steps (suc n)) t) fs msgs
  unfolding run steps work do_message analyzed
  work_all zero [] [] t h p e g =
      stepped [] [] [] t p e g
        (record { phase_lem = refl; queue_lem = refl; done_lem = sym (append-nil t.done) })
  work_all zero (f ∷ fs) msgs t h p e g = absurd (omega arith)
  work_all zero [] (msg ∷ msgs) t h p e g = absurd (omega arith)
  work_all (suc n) [] [] t h p e g = absurd (omega arith)
  work_all (suc n) (f ∷ fs) msgs t h p e g =
      let u : ThreadModule F = record t { functors = fs; done = t.done ++ called f ∷ [] } in
      let r = work_all n fs msgs u (omega arith) p refl g in
      stepped (steps (suc n)) (f ∷ fs) msgs t p e g (record {
        phase_lem = r.phase_lem;
        queue_lem = r.queue_lem;
        done_lem = r.done_lem ∙ append_assoc t.done (called f ∷ []) _;
      })
  work_all (suc n) [] (msg ∷ msgs) t h p e g =
      let u : ThreadModule F = do_message msg msgs t in
      let r = work_all n [] msgs u (omega arith) p e refl in
      stepped (steps (suc n)) [] (msg ∷ msgs) t p e g (record {
        phase_lem = r.phase_lem;
        queue_lem = r.queue_lem;
        done_lem = r.done_lem ∙ append_assoc t.done (_ ∷ []) _;
      })

  -- One turn: a thread that waits with nothing in its hands, while something is in its queue, comes back
  -- to its wait in as many steps as there are functions and messages in the queue, and two; it has then
  -- emptied the queue, called all the functions in their order, and after them, also where they came
  -- later, handled all the messages in their order.
  pub turn :
      (t : ThreadModule F)
      → t.phase ≡ waiting
      → InPhase waiting t
      → 0 < length t.msg_queue.functors + length t.msg_queue.datas
      → Finished
          (record t { msg_queue = record { functors = []; datas = [] } })
          (run (steps (suc (suc (length t.msg_queue.functors + length t.msg_queue.datas)))) t)
          t.msg_queue.functors
          t.msg_queue.datas
  unfolding run steps
  turn t p (i, j) h =
      let fs = t.msg_queue.functors in
      let msgs = t.msg_queue.datas in
      let n = length fs + length msgs in
      let u : ThreadModule F = record t {
        msg_queue = record { functors = []; datas = t.taken };
        phase = working;
        functors = fs;
        taken = msgs;
      } in
      let r = work_all n fs msgs u refl refl refl refl in
      subst
        (λ (v : ThreadModule F).
          Finished (record t { msg_queue = record { functors = []; datas = [] } })
            (run (steps (suc n)) v) fs msgs)
        (sym (on_take t p h))
        (record {
          phase_lem = r.phase_lem;
          queue_lem =
              r.queue_lem ∙ ap (λ (l : List Message). record { functors = []; datas = l }) j;
          done_lem = r.done_lem;
        })
