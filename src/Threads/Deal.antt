-- ===== src/Threads/Deal.antt =====
-- projects/logic_svr/module_thread_group.cpp: which thread of a group gets which message.
use qclib.Base.{
  ℕ, zero, suc, ◌+◌, ◌≡◌, refl, sym, ap, subst, ◌∙◌, arith, false, List, [], ◌∷◌, ◌++◌, Option,
  none, some, ◌>>=◌, length, length-append,
}
use qclib.Names.{Name, Dict, same, update, same_self, same_comm}
use qclib.Packets.{Message}
use qclib.Threads.{
  ThreadModule, ThreadGroup, begin, after, place, dispatch_next, set_module_message,
}
use qclib.Names.Ascending.{Ascends, Without, Distinct, Ascends-Distinct}
use mathlib.Core.List.{append_assoc, append-nil}

-- The messages at the places i, i + n + 1, i + 2 * (n + 1), ... of a list.
unfoldable pub every : ℕ → ℕ → List Message → List Message
every n i [] = []
every n zero (m ∷ ms) = m ∷ every n n ms
every n (suc i) (m ∷ ms) = every n i ms

module _ {F : Type 0} where
  abbrev pub give : List Message → ThreadModule F → ThreadModule F
  give ms t = record t { msg_queue = record t.msg_queue { datas = t.msg_queue.datas ++ ms } }

  -- Each thread, from the one that is `i` places from the iterator, gets the messages of its turn.
  unfoldable pub deal : ℕ → ℕ → List Message → Dict (ThreadModule F) → Dict (ThreadModule F)
  deal n i ms [] = []
  deal n i ms ((k, t) ∷ ts) = (k, give (every n i ms) t) ∷ deal n (suc i) ms ts

  unfoldable pub dispatch_all : List Message → ThreadGroup F → Option (ThreadGroup F)
  dispatch_all [] g = some g
  dispatch_all (m ∷ ms) g = dispatch_next m g >>= λ g'. dispatch_all ms g'

  update_middle :
      (f : ThreadModule F → ThreadModule F) (k : Name) (t : ThreadModule F)
      (pre suf : Dict (ThreadModule F))
      → Without k pre
      → update k f (pre ++ (k, t) ∷ suf) ≡ pre ++ (k, f t) ∷ suf
  unfolding update
  update_middle f k t [] suf w = rw (same_self k) refl
  update_middle f k t ((j, a) ∷ pre) suf (other, w) = rw (other, update_middle f k t pre suf w) refl

  after_middle :
      (k : Name) (t : ThreadModule F) (pre suf : Dict (ThreadModule F))
      → Without k pre
      → after k (pre ++ (k, t) ∷ suf) ≡ begin suf
  unfolding after
  after_middle k t [] suf w = rw (same_self k) refl
  after_middle k t ((j, a) ∷ pre) suf (other, w) = rw (other, after_middle k t pre suf w) refl

  Without-middle :
      (k : Name) (t : ThreadModule F) (pre suf : Dict (ThreadModule F))
      → Distinct (pre ++ (k, t) ∷ suf)
      → Without k pre
  Without-middle k t [] suf d = tt
  Without-middle k t ((j, a) ∷ pre) suf (w, d) = (here pre w, Without-middle k t pre suf d)
    where
      here : (pre : Dict (ThreadModule F)) → Without j (pre ++ (k, t) ∷ suf) → same j k ≡ false
      here [] (e, w) = same_comm j k ∙ e
      here ((i, b) ∷ pre) (e, w) = here pre w

  Distinct-middle :
      (k : Name) (t u : ThreadModule F) (pre suf : Dict (ThreadModule F))
      → Distinct (pre ++ (k, t) ∷ suf)
      → Distinct (pre ++ (k, u) ∷ suf)
  Distinct-middle k t u [] suf d = d
  Distinct-middle k t u ((j, a) ∷ pre) suf (w, d) = (there pre w, Distinct-middle k t u pre suf d)
    where
      there :
          (pre : Dict (ThreadModule F))
          → Without j (pre ++ (k, t) ∷ suf)
          → Without j (pre ++ (k, u) ∷ suf)
      there [] w = w
      there ((i, b) ∷ pre) (e, w) = (e, there pre w)

  deal-append :
      (n i : ℕ) (ms : List Message) (xs ys : Dict (ThreadModule F))
      → deal n i ms (xs ++ ys) ≡ deal n i ms xs ++ deal n (i + length xs) ms ys
  unfolding deal
  deal-append n i ms [] ys = ap (λ (j : ℕ). deal n j ms ys) (omega arith)
  deal-append n i ms ((k, t) ∷ xs) ys =
      ap (λ (r : Dict (ThreadModule F)). (k, give (every n i ms) t) ∷ r)
        (deal-append n (suc i) ms xs ys
          ∙ ap (λ (j : ℕ). deal n (suc i) ms xs ++ deal n j ms ys) (omega arith))

  deal-later :
      (n i : ℕ) (m : Message) (ms : List Message) (xs : Dict (ThreadModule F))
      → deal n (suc i) (m ∷ ms) xs ≡ deal n i ms xs
  unfolding deal every
  deal-later n i m ms [] = refl
  deal-later n i m ms ((k, t) ∷ xs) = rw (deal-later n (suc i) m ms xs) refl

  deal-none : (n i : ℕ) (xs : Dict (ThreadModule F)) → deal n i [] xs ≡ xs
  unfolding deal every
  deal-none n i [] = refl
  deal-none n i ((k, t) ∷ xs) = rw (append-nil t.msg_queue.datas, deal-none n (suc i) xs) refl

  -- The thread that was served is the last one to be served again.
  deal-served :
      (n i : ℕ) (m : Message) (ms : List Message) (k : Name) (t : ThreadModule F)
      (pre : Dict (ThreadModule F))
      → i + length pre ≡ n
      → deal n i ms (pre ++ (k, set_module_message m t) ∷ [])
        ≡ deal n (suc i) (m ∷ ms) pre ++ (k, give (every n zero (m ∷ ms)) t) ∷ []
  unfolding deal every
  deal-served n i m ms k t pre h =
      deal-append n i ms pre ((k, set_module_message m t) ∷ [])
      ∙ rw (h, deal-later n i m ms pre, append_assoc t.msg_queue.datas (m ∷ []) (every n n ms)) refl

  dispatch_middle :
      (m : Message) (it : Option Name) (k : Name) (t : ThreadModule F)
      (pre suf : Dict (ThreadModule F))
      → place it (pre ++ (k, t) ∷ suf) ≡ some k
      → Without k pre
      → dispatch_next m (record { threads = pre ++ (k, t) ∷ suf; thread_iter = it })
        ≡ some
            (record { threads = pre ++ (k, set_module_message m t) ∷ suf; thread_iter = begin suf })
  unfolding dispatch_next
  dispatch_middle m it k t pre suf at w =
      rw (at, update_middle (set_module_message m) k t pre suf w, after_middle k t pre suf w) refl

  -- What becomes of the threads when the messages are handed over, from an iterator.
  Dealt : List Message → Option Name → Dict (ThreadModule F) → Dict (ThreadModule F) → Type 0
  Dealt ms it ts us =
      (it' : Option Name) × (dispatch_all ms (record { threads = ts; thread_iter = it })
        ≡ some (record { threads = us; thread_iter = it' }))

  Dealt-step :
      (m : Message) (ms : List Message) (it : Option Name) (k : Name) (t : ThreadModule F)
      (pre suf ts us vs : Dict (ThreadModule F))
      → place it (pre ++ (k, t) ∷ suf) ≡ some k
      → Distinct (pre ++ (k, t) ∷ suf)
      → ts ≡ pre ++ (k, set_module_message m t) ∷ suf
      → us ≡ vs
      → Dealt ms (begin suf) ts us
      → Dealt (m ∷ ms) it (pre ++ (k, t) ∷ suf) vs
  unfolding Dealt dispatch_all
  Dealt-step m ms it k t pre suf ts us vs at d e f (it', ran) = (
    it',
    rw (dispatch_middle m it k t pre suf at (Without-middle k t pre suf d), sym e)
        (ran
          ∙ ap (λ (r : Dict (ThreadModule F)). some (record { threads = r; thread_iter = it' })) f),
  )

  -- The threads that wait longer come first. `n` is one less than their number.
  spin :
      (n : ℕ) (ms : List Message) (it : Option Name) (k : Name) (t : ThreadModule F)
      (pre suf : Dict (ThreadModule F))
      → place it (pre ++ (k, t) ∷ suf) ≡ some k
      → Distinct (pre ++ (k, t) ∷ suf)
      → length pre + length suf ≡ n
      → Dealt ms it
          (pre ++ (k, t) ∷ suf)
          (deal n (suc (length suf)) ms pre ++ deal n 0 ms ((k, t) ∷ suf))
  unfolding Dealt dispatch_all deal
  spin n [] it k t pre suf at d h =
      (it, rw (deal-none n (suc (length suf)) pre, deal-none n 0 ((k, t) ∷ suf)) refl)
  spin n (m ∷ ms) it k t pre ((k', t') ∷ suf) at d h =
      let t1 = set_module_message m t in
      let middle = append_assoc pre ((k, t1) ∷ []) ((k', t') ∷ suf) in
      Dealt-step m ms it k t pre ((k', t') ∷ suf) _ _ _ at d middle
        (rw (deal-served n (suc (length suf)) m ms k t pre (omega (arith, h))) (
          append_assoc (deal n (suc (suc (length suf))) (m ∷ ms) pre)
            ((k, give (every n zero (m ∷ ms)) t) ∷ []) (deal n 0 ms ((k', t') ∷ suf))
          ∙ rw (deal-later n 0 m ms ((k', t') ∷ suf)) refl))
        (spin n ms (some k') k' t' (pre ++ (k, t1) ∷ []) suf refl
          (subst Distinct (sym middle) (Distinct-middle k t t1 pre ((k', t') ∷ suf) d))
          (omega (arith, h, length-append pre ((k, t1) ∷ []))))
  spin n (m ∷ ms) it k t [] [] at d h =
      Dealt-step m ms it k t [] [] _ _ _ at d refl (deal-served n 0 m ms k t [] (omega (arith, h)))
        (spin n ms none k (set_module_message m t) [] [] refl d h)
  spin n (m ∷ ms) it k t ((j, a) ∷ pre) [] at d h =
      let t1 = set_module_message m t in
      Dealt-step m ms it k t ((j, a) ∷ pre) [] _ _ _ at d refl
        (deal-served n 0 m ms k t ((j, a) ∷ pre) (omega (arith, h)))
        (spin n ms none j a [] (pre ++ (k, t1) ∷ []) refl
          (Distinct-middle k t t1 ((j, a) ∷ pre) [] d)
          (omega (arith, h, length-append pre ((k, t1) ∷ []))))

  deal_from :
      (ms : List Message) (n : ℕ) (ts : Dict (ThreadModule F))
      → length ts ≡ suc n
      → Distinct ts
      → Dealt ms none ts (deal n 0 ms ts)
  unfolding deal
  deal_from ms n [] h d = absurd (omega arith)
  deal_from ms n ((k, t) ∷ suf) h d = spin n ms none k t [] suf refl d (omega arith)

  -- Messages are dealt out in turn: in a group whose keys ascend, with a thread at least and its iterator
  -- at the end, any list of messages can be handed over by DispatchThreadMessage one after the other, and
  -- then, of n + 1 threads, the one at place i in the order of the keys has got the messages at the places
  -- i, i + (n + 1), i + 2 * (n + 1), ... of the list, in their order, behind what it had.
  pub dispatch_all-deal :
      (ms : List Message) (n : ℕ) (g : ThreadGroup F)
      → length g.threads ≡ suc n
      → Ascends g.threads
      → g.thread_iter ≡ none
      → (it : Option Name) × (dispatch_all ms g
          ≡ some (record { threads = deal n 0 ms g.threads; thread_iter = it }))
  unfolding Dealt
  dispatch_all-deal ms n g h d e =
      subst (λ (it : Option Name). Dealt ms it g.threads (deal n 0 ms g.threads)) (sym e)
        (deal_from ms n g.threads h (Ascends-Distinct g.threads d))
