-- ===== src/LogicThread/Drain.antt =====
-- projects/logic_svr/logic_thread.cpp: the two threads taking turns until no message is on its way.
use qclib.Base.{
  ℕ, zero, suc, ◌+◌, ◌≤◌, ◌<◌, ◌≡◌, ◌⊎◌, refl, sym, ap, subst, ◌∙◌, arith, true, List, [], ◌∷◌,
  ◌++◌, Option, some, length, length-append, Bool-cases, inl, inr,
}
use qclib.LoopArray.{is_empty, pop_front}
use qclib.LoopArray.Refine.{contents, length-contents}
use qclib.LoopArray.Append.{append_lem, size-Moved}
use qclib.LogicThread.{
  LogicThread, Event, Phase, waiting, dispatching, poll, take_all, dispatch, have_message, on_poll,
  on_notify, on_take, on_dispatch, step_in, run,
}
use qclib.LogicThread.Order.{
  IsOrdered, InPhase, pending, poll-IsOrdered, take_all-IsOrdered, dispatch-IsOrdered,
}
use mathlib.Core.List.{append-nil}
use mathlib.Core.Option.{some-injective}

nil_of_length : {A : Type 0} (xs : List A) → length xs ≡ 0 → xs ≡ []
nil_of_length [] h = refl
nil_of_length (x ∷ xs) h = absurd (omega arith)

module _ {A : Type 0} (null : A) where
  -- A call of `Notify` by the one thread, then the wait and one round of the loop of the other.
  abbrev pub rounds : ℕ → List (Event A)
  rounds zero = []
  rounds (suc n) = poll ∷ take_all ∷ dispatch ∷ rounds n

  -- The messages are those that they were.
  record IsSame (s t : LogicThread A) : Type 0 where
    dispatched : t.dispatched ≡ s.dispatched
    accepted : t.accepted ≡ s.accepted

  -- Nothing is in the two shared queues, or there is something for the logic thread to take.
  abbrev Offered : LogicThread A → Type 0
  Offered s = (s.inner.size + s.outer.size ≡ 0) ⊎ (0 < s.inner.size)

  -- A call has one result.
  same_result :
      {o : Option (LogicThread A)} {a b : LogicThread A}
      → o ≡ some a
      → o ≡ some b
      → IsOrdered null a
      → IsOrdered null b
  same_result {a = a} {b = b} p q = subst (IsOrdered null) (some-injective a b (sym p ∙ q))

  poll-Offered :
      (s : LogicThread A)
      → IsOrdered null s
      → (t : LogicThread A) × (on_poll null s ≡ some t)
        × IsOrdered null t
        × IsSame s t
        × Offered t
        × (t.phase ≡ s.phase)
  unfolding on_poll on_notify
  poll-Offered s v = elim (Bool-cases (have_message s)) [
    | inr e ↦
        (s, rw e refl, v, record { dispatched = refl; accepted = refl }, inl (ground arith), refl)
    | inl e ↦
        let (inner', outer', r, m) = append_lem null v.inner_ok v.outer_ok in
        let t : LogicThread A = record s { inner = inner'; outer = outer' } in
        let ran : on_poll null s ≡ some t = rw (e, r) refl in
        let (u, other, w) = poll-IsOrdered null s v in
        let some_left : 0 < s.inner.size + s.outer.size = ground arith in
        (
          t,
          ran,
          same_result other ran w,
          record { dispatched = refl; accepted = refl },
          inr (omega (arith, size-Moved null m, v.inner_ok.positive)),
          refl,
        )
  ]

  -- Nothing is on its way when the queues are empty.
  pending_none :
      (s : LogicThread A) → s.mine.size + s.inner.size + s.outer.size ≡ 0 → pending null s ≡ []
  pending_none s h = nil_of_length (pending null s) (
      omega (
        arith,
        length-append (contents null s.mine) (contents null s.inner ++ contents null s.outer),
        length-append (contents null s.inner) (contents null s.outer),
        length-contents null s.mine,
        length-contents null s.inner,
        length-contents null s.outer,
      ))

  take_all-Ready :
      (s : LogicThread A) (at : Phase)
      → IsOrdered null s
      → Offered s
      → s.phase ≡ at
      → (t : LogicThread A) × (step_in null s at take_all ≡ some t)
        × IsOrdered null t
        × IsSame s t
        × ((t.phase ≡ dispatching) ⊎ (pending null t ≡ []))
  unfolding step_in on_take
  take_all-Ready s dispatching v o h =
      (s, refl, v, record { dispatched = refl; accepted = refl }, inl h)
  take_all-Ready s waiting v o h = elim (Bool-cases (is_empty s.inner)) [
    | inl e ↦ (
      s,
      rw e refl,
      v,
      record { dispatched = refl; accepted = refl },
      inr (pending_none s (empty v h o e)),
    )
    | inr e ↦
        let (mine', inner', r, m) = append_lem null v.mine_ok v.inner_ok in
        let t : LogicThread A = record s { mine = mine'; inner = inner'; phase = dispatching } in
        let ran : on_take null s ≡ some t = rw (e, r) refl in
        let (u, other, w) = take_all-IsOrdered null s v (idle v h) in
        (t, ran, same_result other ran w, record { dispatched = refl; accepted = refl }, inl refl)
  ]
    where
      idle : IsOrdered null s → s.phase ≡ waiting → s.mine.size ≡ 0
      idle v h = subst (λ (p : Phase). InPhase null p s.mine) h v.phase_ok

      empty :
          IsOrdered null s
          → s.phase ≡ waiting
          → Offered s
          → is_empty s.inner ≡ true
          → s.mine.size + s.inner.size + s.outer.size ≡ 0
      empty v h o e = ground (arith, idle v h)

  dispatch-More :
      (s : LogicThread A) (at : Phase)
      → IsOrdered null s
      → (s.phase ≡ dispatching) ⊎ (pending null s ≡ [])
      → s.phase ≡ at
      → (t : LogicThread A) × (step_in null s at dispatch ≡ some t)
        × IsOrdered null t
        × (t.accepted ≡ s.accepted)
        × ((length t.dispatched ≡ suc (length s.dispatched))
            ⊎ (length s.accepted ≤ length t.dispatched))
  unfolding step_in on_dispatch
  dispatch-More s dispatching v o h = (
    on_dispatch null s,
    refl,
    dispatch-IsOrdered null s v (subst (λ (p : Phase). InPhase null p s.mine) h v.phase_ok),
    refl,
    inl (length-append s.dispatched ((pop_front null s.mine).0 ∷ []) ∙ omega arith),
  )
  dispatch-More s waiting v (inl busy) h = absurd (ground (arith, busy, h))
  dispatch-More s waiting v (inr none_left) h = (
    s,
    refl,
    v,
    refl,
    inr (
        omega (
          arith,
          ap length v.fifo,
          ap length none_left,
          length-append s.dispatched (pending null s),
        )),
  )

  step-poll : (s : LogicThread A) (at : Phase) → step_in null s at poll ≡ on_poll null s
  unfolding step_in
  step-poll s waiting = refl
  step-poll s dispatching = refl

  run_three :
      (s s1 s2 s3 : LogicThread A) (es : List (Event A))
      → step_in null s s.phase poll ≡ some s1
      → step_in null s1 s1.phase take_all ≡ some s2
      → step_in null s2 s2.phase dispatch ≡ some s3
      → run null s (poll ∷ take_all ∷ dispatch ∷ es) ≡ run null s3 es
  unfolding run
  run_three s s1 s2 s3 es p q r = rw (p, q, r) refl

  -- More is dispatched, counted from an earlier state with the same messages.
  more_before :
      (s t u : LogicThread A)
      → IsSame s t
      → (length u.dispatched ≡ suc (length t.dispatched))
        ⊎ (length t.accepted ≤ length u.dispatched)
      → (length u.dispatched ≡ suc (length s.dispatched))
        ⊎ (length s.accepted ≤ length u.dispatched)
  more_before s t u same (inl h) = inl (omega (arith, h, ap length same.dispatched))
  more_before s t u same (inr h) = inr (omega (arith, h, ap length same.accepted))

  -- One round: a message is dispatched, or all have been.
  round-More :
      (s : LogicThread A) (es : List (Event A))
      → IsOrdered null s
      → (t : LogicThread A) × (run null s (poll ∷ take_all ∷ dispatch ∷ es) ≡ run null t es)
        × IsOrdered null t
        × (t.accepted ≡ s.accepted)
        × ((length t.dispatched ≡ suc (length s.dispatched))
            ⊎ (length s.accepted ≤ length t.dispatched))
  unfolding run step_in
  round-More s es v =
      let (s1, ran1, v1, same1, offered, phase1) = poll-Offered s v in
      let (s2, ran2, v2, same2, ready) = take_all-Ready s1 s1.phase v1 offered refl in
      let (s3, ran3, v3, acc, more) = dispatch-More s2 s2.phase v2 ready refl in
      (
        s3,
        run_three s s1 s2 s3 es (step-poll s s.phase ∙ ran1) ran2 ran3,
        v3,
        acc ∙ same2.accepted ∙ same1.accepted,
        more_before s s1 s3 same1 (more_before s1 s2 s3 same2 more),
      )

  drain :
      (n : ℕ) (s : LogicThread A)
      → IsOrdered null s
      → length s.accepted ≤ n + length s.dispatched
      → (t : LogicThread A) × (run null s (rounds n) ≡ some t)
        × (t.accepted ≡ s.accepted)
        × (t.dispatched ≡ s.accepted)
  unfolding run
  drain zero s v h = (s, refl, refl, all)
    where
      nothing : pending null s ≡ []
      nothing =
          nil_of_length (pending null s)
            (omega (arith, ap length v.fifo, length-append s.dispatched (pending null s)))

      all : s.dispatched ≡ s.accepted
      all = sym (append-nil s.dispatched) ∙ rw (sym nothing) v.fifo
  drain (suc n) s v h =
      let (t, ran, w, acc, more) = round-More s (rounds n) v in
      let (u, rest, acc2, all) = drain n t w (omega (arith, h, more, ap length acc)) in
      (u, ran ∙ rest, acc2 ∙ acc, all ∙ acc)

  -- From a state in order, as many turns of the two threads as there are messages on their way, or
  -- more, with no new message in between, run to their end, and then every message accepted so far
  -- has been dispatched, in the order of their arrival.
  pub rounds-dispatch :
      (n : ℕ) (s : LogicThread A)
      → IsOrdered null s
      → length (pending null s) ≤ n
      → (t : LogicThread A) × (run null s (rounds n) ≡ some t)
        × (t.accepted ≡ s.accepted)
        × (t.dispatched ≡ s.accepted)
  rounds-dispatch n s v h =
      drain n s v (omega (arith, ap length v.fifo, length-append s.dispatched (pending null s)))
