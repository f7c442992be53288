-- ===== src/Threads.antt =====
-- commonsrc/include/containers_define.h (FunctionQueue, FuncAndDateBlockQueue) and
-- projects/logic_svr/module_thread_group.cpp: threads with a queue of messages and functions each, in a
-- group that hands messages to them. A function that is queued is a value of `F`.
use qclib.Base.{ℕ, Bool, true, false, List, [], ◌∷◌, ◌++◌, Option, none, some, if◌then◌else◌, ◌>>=◌}
use qclib.Names.{Name, Dict, same, find, assign, update}
use qclib.Packets.{Bytes, Message, MsgInServer, analyze_svr_msg, set_server_new_message, m_data_len}
pub mod Deal
pub mod Order
pub mod Turn
mod Tests

-- `FuncAndDateBlockQueue`; each of its calls holds the lock.
pub record MsgQueue (F : Type 0) : Type 0 where
  pub functors : List F
  pub datas : List Message

-- Where a thread stands: it waits for its group, it waits for its queue, or it goes through what it took.
pub data Phase : Type 0 where
  without_group waiting working : Phase

-- What a thread did: a function called, or `DoModuleMessage` with a user and a message.
pub data Done (F : Type 0) : Type 0 where
  called : F → Done F
  handled : (user : ℕ) → Option Message → Done F

-- `ThreadModule` with the variables of `ThreadRun`: the messages it took and `srv_hdr`.
pub record ThreadModule (F : Type 0) : Type 0 where
  pub msg_queue : MsgQueue F
  pub phase : Phase
  pub functors : List F
  pub taken : List Message
  pub srv_hdr : MsgInServer
  pub done : List (Done F)

-- `ThreadGroup`. The iterator is the key that it stands at, or `end()`.
pub record ThreadGroup (F : Type 0) : Type 0 where
  pub threads : Dict (ThreadModule F)
  pub thread_iter : Option Name

module _ {F : Type 0} where
  abbrev pub put_data : Message → MsgQueue F → MsgQueue F
  put_data x q = record q { datas = q.datas ++ x ∷ [] }

  abbrev pub put_func : F → MsgQueue F → MsgQueue F
  put_func f q = record q { functors = q.functors ++ f ∷ [] }

  -- `GetData` swaps the queue's messages with the list `mine` that it is given, and its functions with
  -- none, up to the unlock; it waits, `none`, while nothing is there.
  unfoldable pub swap_out :
      List Message → List F → List Message → Option (List F × List Message × MsgQueue F)
  swap_out mine [] [] = none
  swap_out mine (f ∷ fs) datas = some (f ∷ fs, datas, record { functors = []; datas = mine })
  swap_out mine [] (d ∷ ds) = some ([], d ∷ ds, record { functors = []; datas = mine })

  abbrev pub get_data : List Message → MsgQueue F → Option (List F × List Message × MsgQueue F)
  get_data mine q = swap_out mine q.functors q.datas

  abbrev pub set_module_message : Message → ThreadModule F → ThreadModule F
  set_module_message msg t = record t { msg_queue = put_data msg t.msg_queue }

  abbrev pub set_function : F → ThreadModule F → ThreadModule F
  set_function f t = record t { msg_queue = put_func f t.msg_queue }

  -- `SetGroup`, which the thread waits for.
  unfoldable pub on_set_group : Phase → ThreadModule F → ThreadModule F
  on_set_group without_group t = record t { phase = waiting }
  on_set_group waiting t = t
  on_set_group working t = t

  -- One message of the loop in `ThreadRun`: `srv_hdr` is that of an earlier message, where this one is
  -- not between servers.
  unfoldable pub do_message : Message → List Message → ThreadModule F → ThreadModule F
  do_message msg more t =
      let (client_msg, whole_cmd, srv_hdr) = analyze_svr_msg (some msg) t.srv_hdr in
      record t {
        taken = more;
        srv_hdr = srv_hdr;
        done = t.done ++ handled srv_hdr.m_user_only_id client_msg ∷ [];
      }

  -- What the thread does next with what it took: a function of `CallAllFunc`, a message, or back to the
  -- queue.
  unfoldable pub work : List F → List Message → ThreadModule F → ThreadModule F
  unfolding do_message
  work (f ∷ fs) msgs t = record t { functors = fs; done = t.done ++ called f ∷ [] }
  work [] (msg ∷ more) t = do_message msg more t
  work [] [] t = record t { phase = waiting }

  -- What `GetData` hands over, or a further wait.
  unfoldable pub take_out :
      Option (List F × List Message × MsgQueue F) → ThreadModule F → ThreadModule F
  take_out none t = t
  take_out (some (fs, msgs, q)) t = record t {
    msg_queue = q;
    phase = working;
    functors = fs;
    taken = msgs;
  }

  -- A step of the thread; it stays where it is while it has to wait.
  unfoldable pub thread_run : Phase → ThreadModule F → ThreadModule F
  unfolding swap_out take_out work
  thread_run without_group t = t
  thread_run waiting t = take_out (get_data t.taken t.msg_queue) t
  thread_run working t = work t.functors t.taken t

  -- The group's calls. An iterator at the first thread, and the one after a key's.
  abbrev pub begin : Dict (ThreadModule F) → Option Name
  begin [] = none
  begin ((k, t) ∷ ts) = some k

  unfoldable pub after : Name → Dict (ThreadModule F) → Option Name
  after k [] = none
  after k ((j, t) ∷ ts) = if same j k then begin ts else after k ts

  -- `AddModuleThread`; a thread that had the key is no longer in the group.
  unfoldable pub add_module_thread : Name → ThreadModule F → ThreadGroup F → ThreadGroup F
  unfolding on_set_group
  add_module_thread key t g = record g { threads = assign key (on_set_group t.phase t) g.threads }

  abbrev pub place : Option Name → Dict (ThreadModule F) → Option Name
  place none ts = begin ts
  place (some k) ts = some k

  -- `DispatchThreadMessage(msg)`: to the thread at the iterator, which moves on. In a group with no
  -- thread it moves beyond `end()`, which is undefined: `none`.
  unfoldable pub dispatch_next : Message → ThreadGroup F → Option (ThreadGroup F)
  unfolding after
  dispatch_next msg g = place g.thread_iter g.threads >>= λ k. some (record g {
    threads = update k (set_module_message msg) g.threads;
    thread_iter = after k g.threads;
  })

  -- `DispatchThreadMessage(key, msg)` and `RunInModuleThread`, which drop what has no thread.
  unfoldable pub dispatch_thread_message : Name → Message → ThreadGroup F → ThreadGroup F
  dispatch_thread_message key msg g = record g {
    threads = update key (set_module_message msg) g.threads;
  }

  unfoldable pub run_in_module_thread : Name → F → ThreadGroup F → ThreadGroup F
  run_in_module_thread key f g = record g { threads = update key (set_function f) g.threads }

  -- `RunInBrother` of the thread with a key: in another thread, or at once.
  unfoldable pub run_in_brother : Name → Name → F → ThreadGroup F → ThreadGroup F
  unfolding run_in_module_thread
  run_in_brother own key f g =
      if same key own
      then record g {
        threads = update own (λ t. record t { done = t.done ++ called f ∷ [] }) g.threads;
      }
      else run_in_module_thread key f g

  -- `SetMessageToBrother` of the thread with a key; `fresh` is what `new` returns.
  unfoldable pub set_message_to_brother :
      Bytes → Name → Name → ℕ → Message → ThreadGroup F → Option (ThreadGroup F)
  unfolding dispatch_thread_message
  set_message_to_brother fresh own key user msg g =
      if same key own
      then some g
      else (set_server_new_message fresh (record { m_user_only_id = user; m_server_id = 0 }) msg
            (m_data_len msg)
          >>= λ new_msg. some (dispatch_thread_message key new_msg g))
