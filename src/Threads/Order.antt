-- ===== src/Threads/Order.antt =====
-- projects/logic_svr/module_thread_group.cpp: what a thread does with the messages and functions that it
-- is given, whatever the order in which they come.
use qclib.Base.{ℕ, ◌≡◌, refl, sym, ap, ap₂, subst, ◌∙◌, List, [], ◌∷◌, ◌++◌, Option, some}
use qclib.Packets.{Message, MsgInServer, analyze_svr_msg}
use qclib.Threads.{
  ThreadModule, MsgQueue, Phase, without_group, waiting, working, Done, called, handled,
  set_module_message, set_function, on_set_group, thread_run, work, do_message, swap_out, take_out,
}
use mathlib.Core.List.{append_assoc, append-nil}

-- What happens to a thread: a message or a function put into its queue, its group set, a step of its own.
pub data Event (F : Type 0) : Type 0 where
  message : Message → Event F
  function : F → Event F
  set_group : Event F
  step : Event F

module _ {F : Type 0} where
  unfoldable pub on : Event F → ThreadModule F → ThreadModule F
  unfolding on_set_group thread_run
  on (message msg) t = set_module_message msg t
  on (function f) t = set_function f t
  on set_group t = on_set_group t.phase t
  on step t = thread_run t.phase t

  unfoldable pub run : List (Event F) → ThreadModule F → ThreadModule F
  run [] t = t
  run (e ∷ es) t = run es (on e t)

  unfoldable pub messages : List (Event F) → List Message
  messages [] = []
  messages (message msg ∷ es) = msg ∷ messages es
  messages (function f ∷ es) = messages es
  messages (set_group ∷ es) = messages es
  messages (step ∷ es) = messages es

  unfoldable pub functions : List (Event F) → List F
  functions [] = []
  functions (message msg ∷ es) = functions es
  functions (function f ∷ es) = f ∷ functions es
  functions (set_group ∷ es) = functions es
  functions (step ∷ es) = functions es

  -- The functions that were called, and the calls of DoModuleMessage.
  unfoldable pub calls : List (Done F) → List F
  calls [] = []
  calls (called f ∷ ds) = f ∷ calls ds
  calls (handled user msg ∷ ds) = calls ds

  unfoldable pub handles : List (Done F) → List (ℕ × Option Message)
  handles [] = []
  handles (called f ∷ ds) = handles ds
  handles (handled user msg ∷ ds) = (user, msg) ∷ handles ds

  calls-append : (xs ys : List (Done F)) → calls (xs ++ ys) ≡ calls xs ++ calls ys
  unfolding calls
  calls-append [] ys = refl
  calls-append (called f ∷ xs) ys = rw (calls-append xs ys) refl
  calls-append (handled user msg ∷ xs) ys = calls-append xs ys

  handles-append : (xs ys : List (Done F)) → handles (xs ++ ys) ≡ handles xs ++ handles ys
  unfolding handles
  handles-append [] ys = refl
  handles-append (called f ∷ xs) ys = handles-append xs ys
  handles-append (handled user msg ∷ xs) ys = rw (handles-append xs ys) refl

-- The users and messages that a list of messages comes to, one after the other, from the header of an
-- earlier one.
unfoldable pub analyzed : MsgInServer → List Message → List (ℕ × Option Message)
analyzed hdr [] = []
analyzed hdr (msg ∷ msgs) =
    let (client_msg, whole_cmd, hdr') = analyze_svr_msg (some msg) hdr in
    (hdr'.m_user_only_id, client_msg) ∷ analyzed hdr' msgs

module _ {F : Type 0} where
  -- Outside its loop the thread has nothing in its hands.
  abbrev pub InPhase : Phase → ThreadModule F → Type 0
  InPhase without_group t = (t.functors ≡ []) × (t.taken ≡ [])
  InPhase waiting t = (t.functors ≡ []) × (t.taken ≡ [])
  InPhase working t = Unit {0}

  -- All functions: called, in the thread's hands, and in its queue.
  abbrev pub all_functions : ThreadModule F → List F
  all_functions t = calls t.done ++ (t.functors ++ t.msg_queue.functors)

  -- All messages: handled, or still to be.
  abbrev pub all_messages : ThreadModule F → List Message → List (ℕ × Option Message)
  all_messages t later =
      handles t.done ++ analyzed t.srv_hdr (t.taken ++ (t.msg_queue.datas ++ later))

  -- A step of the thread leaves all of them as they are.
  record Keeps (t u : ThreadModule F) : Type 0 where
    in_phase : InPhase u.phase u
    same_functions : all_functions u ≡ all_functions t
    same_messages : (later : List Message) → all_messages u later ≡ all_messages t later

  InPhase-queue :
      (at : Phase) (t : ThreadModule F) (q : MsgQueue F)
      → InPhase at t
      → InPhase at (record t { msg_queue = q })
  InPhase-queue without_group t q i = i
  InPhase-queue waiting t q i = i
  InPhase-queue working t q i = i

  Keeps-refl : (at : Phase) (t : ThreadModule F) → t.phase ≡ at → InPhase at t → Keeps t t
  Keeps-refl at t p i = record {
    in_phase = subst (λ (q : Phase). InPhase q t) (sym p) i;
    same_functions = refl;
    same_messages = λ later. refl;
  }

  work-Keeps :
      (fs : List F) (msgs : List Message) (t : ThreadModule F)
      → t.phase ≡ working
      → t.functors ≡ fs
      → t.taken ≡ msgs
      → Keeps t (work fs msgs t)
  unfolding work do_message calls handles analyzed
  work-Keeps (f ∷ fs) msgs t p e g = record {
    in_phase = subst (λ (q : Phase). InPhase q (work (f ∷ fs) msgs t)) (sym p) tt;
    same_functions =
        ap (λ (r : List F). r ++ (fs ++ t.msg_queue.functors)) (calls-append t.done (called f ∷ []))
        ∙ append_assoc (calls t.done) (f ∷ []) (fs ++ t.msg_queue.functors)
        ∙ ap (λ (r : List F). calls t.done ++ (r ++ t.msg_queue.functors)) (sym e);
    same_messages = λ later.
        ap
          (λ (r : List (ℕ × Option Message)).
            r ++ analyzed t.srv_hdr (t.taken ++ (t.msg_queue.datas ++ later)))
          (handles-append t.done (called f ∷ []) ∙ append-nil (handles t.done));
  }
  work-Keeps [] (msg ∷ more) t p e g =
      let (client_msg, whole_cmd, hdr) = analyze_svr_msg (some msg) t.srv_hdr in
      let entry : ℕ × Option Message = (hdr.m_user_only_id, client_msg) in
      record {
        in_phase = subst (λ (q : Phase). InPhase q (work [] (msg ∷ more) t)) (sym p) tt;
        same_functions =
            ap (λ (r : List F). r ++ (t.functors ++ t.msg_queue.functors))
              (calls-append t.done (handled hdr.m_user_only_id client_msg ∷ [])
                ∙ append-nil (calls t.done));
        same_messages = λ later.
            let rest = analyzed hdr (more ++ (t.msg_queue.datas ++ later)) in
            ap (λ (r : List (ℕ × Option Message)). r ++ rest)
              (handles-append t.done (handled hdr.m_user_only_id client_msg ∷ []))
            ∙ append_assoc (handles t.done) (entry ∷ []) rest
            ∙ ap
                (λ (r : List Message).
                  handles t.done ++ analyzed t.srv_hdr (r ++ (t.msg_queue.datas ++ later)))
                (sym g);
      }
  work-Keeps [] [] t p e g = record {
    in_phase = (e, g);
    same_functions = refl;
    same_messages = λ later. refl;
  }

  taken-Keeps :
      (fs : List F) (msgs : List Message) (t : ThreadModule F)
      → InPhase waiting t
      → t.msg_queue.functors ≡ fs
      → t.msg_queue.datas ≡ msgs
      → Keeps t (record t {
        msg_queue = record { functors = []; datas = t.taken };
        phase = working;
        functors = fs;
        taken = msgs;
      })
  taken-Keeps fs msgs t (i, j) e g = record {
    in_phase = tt;
    same_functions =
        ap (λ (r : List F). calls t.done ++ r)
          (append-nil fs ∙ sym (ap₂ (λ (a b : List F). a ++ b) i e));
    same_messages = λ later.
        ap (λ (r : List Message). handles t.done ++ analyzed t.srv_hdr r)
          (ap (λ (r : List Message). msgs ++ (r ++ later)) j
            ∙ sym (ap₂ (λ (a b : List Message). a ++ (b ++ later)) j g));
  }

  take-Keeps :
      (fs : List F) (msgs : List Message) (t : ThreadModule F)
      → t.phase ≡ waiting
      → InPhase waiting t
      → t.msg_queue.functors ≡ fs
      → t.msg_queue.datas ≡ msgs
      → Keeps t (take_out (swap_out t.taken fs msgs) t)
  unfolding take_out swap_out
  take-Keeps [] [] t p i e g = Keeps-refl waiting t p i
  take-Keeps (f ∷ fs) msgs t p i e g = taken-Keeps (f ∷ fs) msgs t i e g
  take-Keeps [] (msg ∷ msgs) t p i e g = taken-Keeps [] (msg ∷ msgs) t i e g

  thread_run-Keeps :
      (at : Phase) (t : ThreadModule F) → t.phase ≡ at → InPhase at t → Keeps t (thread_run at t)
  unfolding thread_run
  thread_run-Keeps without_group t p i = Keeps-refl without_group t p i
  thread_run-Keeps waiting t p i = take-Keeps t.msg_queue.functors t.msg_queue.datas t p i refl refl
  thread_run-Keeps working t p i = work-Keeps t.functors t.taken t p refl refl

  set_group-Keeps :
      (at : Phase) (t : ThreadModule F) → t.phase ≡ at → InPhase at t → Keeps t (on_set_group at t)
  unfolding on_set_group
  set_group-Keeps without_group t p i = record {
    in_phase = i;
    same_functions = refl;
    same_messages = λ later. refl;
  }
  set_group-Keeps waiting t p i = Keeps-refl waiting t p i
  set_group-Keeps working t p i = Keeps-refl working t p i

  -- The same for a sequence of events, with the messages that come after it.
  record Runs (es : List (Event F)) (t : ThreadModule F) : Type 0 where
    in_phase : InPhase (run es t).phase (run es t)
    same_functions : all_functions (run es t) ≡ all_functions t ++ functions es
    same_messages :
        (later : List Message)
        → all_messages (run es t) later ≡ all_messages t (messages es ++ later)

  -- After a step of the thread, or its group set.
  Runs-kept :
      (e : Event F) (es : List (Event F)) (t : ThreadModule F)
      → Keeps t (on e t)
      → Runs es (on e t)
      → run (e ∷ es) t ≡ run es (on e t)
      → functions (e ∷ es) ≡ functions es
      → messages (e ∷ es) ≡ messages es
      → Runs (e ∷ es) t
  Runs-kept e es t k r ran f m = record {
    in_phase = rw ran r.in_phase;
    same_functions =
        rw (ran, f) (r.same_functions ∙ ap (λ (l : List F). l ++ functions es) k.same_functions);
    same_messages =
        λ later. rw (ran, m) (r.same_messages later ∙ k.same_messages (messages es ++ later));
  }

  run-Runs : (es : List (Event F)) (t : ThreadModule F) → InPhase t.phase t → Runs es t
  unfolding run on functions messages
  run-Runs [] t i = record {
    in_phase = i;
    same_functions = sym (append-nil (all_functions t));
    same_messages = λ later. refl;
  }
  run-Runs (step ∷ es) t i =
      let k = thread_run-Keeps t.phase t refl i in
      Runs-kept step es t k (run-Runs es (on step t) k.in_phase) refl refl refl
  run-Runs (set_group ∷ es) t i =
      let k = set_group-Keeps t.phase t refl i in
      Runs-kept set_group es t k (run-Runs es (on set_group t) k.in_phase) refl refl refl
  run-Runs (message msg ∷ es) t i =
      let r = run-Runs es (set_module_message msg t) (InPhase-queue t.phase t _ i) in
      record {
        in_phase = r.in_phase;
        same_functions = r.same_functions;
        same_messages = λ later.
            r.same_messages later
            ∙ ap (λ (l : List Message). handles t.done ++ analyzed t.srv_hdr (t.taken ++ l))
                (append_assoc t.msg_queue.datas (msg ∷ []) (messages es ++ later));
      }
  run-Runs (function f ∷ es) t i =
      let r = run-Runs es (set_function f t) (InPhase-queue t.phase t _ i) in
      record {
        in_phase = r.in_phase;
        same_functions =
            r.same_functions
            ∙ ap (λ (l : List F). l ++ functions es)
                (ap (λ (l : List F). calls t.done ++ l)
                    (sym (append_assoc t.functors t.msg_queue.functors (f ∷ [])))
                  ∙ sym (append_assoc (calls t.done) (t.functors ++ t.msg_queue.functors) (f ∷ [])))
            ∙ append_assoc (all_functions t) (f ∷ []) (functions es);
        same_messages = r.same_messages;
      }

  -- Nothing is lost, repeated or reordered: from a thread that has nothing in its hands while it waits,
  -- whatever the order of the messages and functions put into its queue and of its own steps, it has
  -- nothing in its hands while it waits; the functions called, those it has taken and those in its queue
  -- are, in this order, those from before and then the new ones; and the calls of DoModuleMessage, with
  -- those that the messages taken and queued will come to, are in this order the ones from before and
  -- then those of the new messages.
  pub run-order :
      (es : List (Event F)) (t : ThreadModule F)
      → InPhase t.phase t
      → InPhase (run es t).phase (run es t)
        × (all_functions (run es t) ≡ all_functions t ++ functions es)
        × (all_messages (run es t) [] ≡ all_messages t (messages es))
  run-order es t i =
      let r = run-Runs es t i in
      (
        r.in_phase,
        r.same_functions,
        r.same_messages [] ∙ ap (all_messages t) (append-nil (messages es)),
      )
