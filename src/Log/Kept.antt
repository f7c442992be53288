-- ===== src/Log/Kept.antt =====
-- commonsrc/src/file_writer.cpp: what becomes of all lines that are logged, over any sequence of calls.
use qclib.Base.{
  ℕ, ◌+◌, ◌^◌, ◌≤◌, ◌<◌, ◌≡◌, ◌⊎◌, refl, sym, ap, ap₂, ◌∙◌, arith, Bool, true, false, List, [], ◌∷◌,
  ◌++◌, Option, some, ◌>>=◌, length, length-append, Option-cases, inl, inr,
}
use qclib.Log.{
  Text, Fd, Kernel, FileWriter, flush2_file, into_file_buffer, switch_buffer, switch_file,
  open_new_file,
}
use qclib.Log.Written.{Takes, texts, texts-append, write_file-done}
use mathlib.Core.List.{append_assoc, append-nil}
use mathlib.Core.Option.{some-injective}

-- The calls of one writer: a line logged, with its flag, and a call of `Flush2File` at a time.
pub data Event : Type 0 where
  line : Text → Bool → Event
  flush : (time : ℕ) → Kernel → Event

module _ (path_of : ℕ → Text) where
  unfoldable pub run : List Event → FileWriter → Option FileWriter
  run [] w = some w
  run (line s realtime ∷ es) w = run es (into_file_buffer s realtime w)
  run (flush t kernel ∷ es) w = flush2_file path_of kernel t w >>= λ (_, w'). run es w'

-- The lines that were logged, each with its newline.
unfoldable pub logged : List Event → Text
logged [] = []
logged (line s realtime ∷ es) = (s ++ 10 ∷ []) ++ logged es
logged (flush t kernel ∷ es) = logged es

-- The kernel takes bytes at each call, for as many calls as there are bytes.
abbrev pub Serves : ℕ → List Event → Type 0
Serves n [] = Unit {0}
Serves n (line s realtime ∷ es) = Serves n es
Serves n (flush t kernel ∷ es) = Takes kernel.answers × (n ≤ length kernel.answers) × Serves n es

-- What one flush does: all of the buffer is written, or nothing changes, in which case the last write
-- was less than two seconds before.
record Flushed (t : ℕ) (w w' : FileWriter) : Type 0 where
  emptied : w'.cache ≡ []
  texts_lem : texts w'.output ++ w'.buffer ≡ texts w.output ++ w.buffer
  short : length w'.buffer ≤ length w.buffer
  late : (w'.buffer ≡ []) ⊎ (t ≤ w.prev_write_time + 1)
  time : (w'.prev_write_time ≡ t) ⊎ (w'.prev_write_time ≡ w.prev_write_time)

-- The flushes of a sequence come two seconds or more before a time.
abbrev pub Before : ℕ → List Event → Type 0
Before last [] = Unit {0}
Before last (line s realtime ∷ es) = Before last es
Before last (flush t kernel ∷ es) = (t + 1 < last) × Before last es

-- What a sequence of calls does.
record Kept (es : List Event) (w u : FileWriter) : Type 0 where
  emptied : u.cache ≡ []
  texts_lem : texts u.output ++ u.buffer ≡ texts w.output ++ (w.buffer ++ logged es)
  short : length u.buffer ≤ length w.buffer + length (logged es)
  before : (t : ℕ) → Before t es → w.prev_write_time + 1 < t → u.prev_write_time + 1 < t

module _ (path_of : ℕ → Text) where
  switch_file-keeps :
      (kernel : Kernel) (t : ℕ) (w : FileWriter)
      → ((switch_file path_of kernel t w).cache ≡ w.cache)
        × ((switch_file path_of kernel t w).buffer ≡ w.buffer)
        × ((switch_file path_of kernel t w).output ≡ w.output)
        × ((switch_file path_of kernel t w).prev_write_time ≡ w.prev_write_time)
  unfolding switch_file open_new_file
  switch_file-keeps kernel t w = (ground arith, ground arith, ground arith, ground arith)

  switch_buffer-cases :
      (t : ℕ) (w : FileWriter)
      → ((switch_buffer t w).0 ≡ true)
          × ((switch_buffer t w).1.cache ≡ w.buffer)
          × ((switch_buffer t w).1.buffer ≡ w.cache)
          × ((switch_buffer t w).1.output ≡ w.output)
          × ((switch_buffer t w).1.prev_write_time ≡ t)
        ⊎ ((switch_buffer t w ≡ (false, w)) × (t ≤ w.prev_write_time + 1))
  unfolding switch_buffer
  switch_buffer-cases t w = ground arith

  -- A flush that the kernel serves.
  flush-Flushed :
      (kernel : Kernel) (t : ℕ) (w : FileWriter)
      → w.cache ≡ []
      → Takes kernel.answers
      → length w.buffer ≤ length kernel.answers
      → length w.buffer < 2 ^ 64
      → (b : Bool) × (w' : FileWriter) × (flush2_file path_of kernel t w ≡ some (b, w'))
        × Flushed t w w'
  unfolding flush2_file
  flush-Flushed kernel t w empty takes enough bound = elim (switch_buffer-cases t w) [
    | inr (same, soon) ↦ (
      false,
      w,
      rw same refl,
      record {
        emptied = empty;
        texts_lem = refl;
        short = omega arith;
        late = inr soon;
        time = inr refl;
      },
    )
    | inl (switched, cached, swapped, out, time) ↦
        let w1 : FileWriter = (switch_buffer t w).1 in
        let w2 : FileWriter = switch_file path_of kernel t w1 in
        let (cache2, buffer2, output2, time2) = switch_file-keeps kernel t w1 in
        let block : w2.cache ≡ w.buffer = cache2 ∙ cached in
        let done =
          write_file-done kernel.answers w2 takes (omega (arith, ap length block, enough))
            (omega (arith, ap length block, bound)) in
        (
          true,
          record w2 {
            offset = w2.offset + length w2.cache;
            cache = [];
            output = w2.output ++ (w2.fd, w2.cache) ∷ [];
          },
          rw (switched, done) refl,
          record {
            emptied = refl;
            texts_lem =
                ap (λ (s : Text). texts (w2.output ++ (w2.fd, w2.cache) ∷ []) ++ s)
                  (buffer2 ∙ swapped ∙ empty)
                ∙ append-nil (texts (w2.output ++ (w2.fd, w2.cache) ∷ []))
                ∙ texts-append w2.output w2.fd w2.cache
                ∙ ap₂ (λ (o : List (Fd × Text)) (s : Text). texts o ++ s) (output2 ∙ out) block;
            short = omega (arith, ap length buffer2, ap length swapped, ap length empty);
            late = inl (buffer2 ∙ swapped ∙ empty);
            time = inl (time2 ∙ time);
          },
        )
  ]

  run-Kept :
      (n : ℕ) (es : List Event) (w : FileWriter)
      → w.cache ≡ []
      → Serves n es
      → length w.buffer + length (logged es) ≤ n
      → n < 2 ^ 64
      → (u : FileWriter) × (run path_of es w ≡ some u) × Kept es w u
  unfolding run logged into_file_buffer
  run-Kept n [] w empty s h b = (
    w,
    refl,
    record {
      emptied = empty;
      texts_lem = ap (λ (r : Text). texts w.output ++ r) (sym (append-nil w.buffer));
      short = omega arith;
      before = λ t late first. first;
    },
  )
  run-Kept n (line s realtime ∷ es) w empty serves h b =
      let whole : Text = s ++ 10 ∷ [] in
      let w' : FileWriter = into_file_buffer s realtime w in
      let grown : length w'.buffer + length (logged es)
          ≤ length w.buffer + length (whole ++ logged es) =
        omega (arith, length-append w.buffer whole, length-append whole (logged es)) in
      let (u, ran, k) = run-Kept n es w' empty serves (omega (arith, h, grown)) b in
      (
        u,
        ran,
        record {
          emptied = k.emptied;
          texts_lem =
              k.texts_lem
              ∙ ap (λ (r : Text). texts w.output ++ r) (append_assoc w.buffer whole (logged es));
          short = omega (arith, grown, k.short);
          before = k.before;
        },
      )
  run-Kept n (flush t kernel ∷ es) w empty (takes, enough, serves) h b =
      let (done, w', flushed, f) =
        flush-Flushed kernel t w empty takes (omega (arith, h, enough)) (omega (arith, h, b)) in
      let (u, ran, k) = run-Kept n es w' f.emptied serves (omega (arith, h, f.short)) b in
      (
        u,
        rw flushed ran,
        record {
          emptied = k.emptied;
          texts_lem =
              k.texts_lem
              ∙ sym (append_assoc (texts w'.output) w'.buffer (logged es))
              ∙ ap (λ (r : Text). r ++ logged es) f.texts_lem
              ∙ append_assoc (texts w.output) w.buffer (logged es);
          short = omega (arith, f.short, k.short);
          before = λ t' (now, late) first. k.before t' late (next w' t' f.time now first);
        },
      )
    where
      next :
          (w' : FileWriter) (t' : ℕ)
          → (w'.prev_write_time ≡ t) ⊎ (w'.prev_write_time ≡ w.prev_write_time)
          → t + 1 < t'
          → w.prev_write_time + 1 < t'
          → w'.prev_write_time + 1 < t'
      next w' t' time now first = omega (arith, time, now, first)

  run-append :
      (es fs : List Event) (w u : FileWriter)
      → run path_of es w ≡ some u
      → run path_of (es ++ fs) w ≡ run path_of fs u
  unfolding run
  run-append [] fs w u h = ap (run path_of fs) (some-injective _ _ h)
  run-append (line s realtime ∷ es) fs w u h = run-append es fs (into_file_buffer s realtime w) u h
  run-append (flush t kernel ∷ es) fs w u h = elim (Option-cases (flush2_file path_of kernel t w)) [
    | inl e ↦ absurd (ground (arith, e, h))
    | inr ((done, w'), e) ↦
        let h' : run path_of es w' ≡ some u = sym (rw e refl) ∙ h in rw e (run-append es fs w' u h')
  ]

  -- Nothing is lost: from a writer with an empty cache, while the kernel serves each flush (takes a byte
  -- or more at each call of `write`, as often as there are bytes), any sequence of lines and flushes runs
  -- to its end, and then the bytes written, and after them the buffer, are what was there before and all
  -- lines in their order, each once and with its newline.
  pub run-logged :
      (n : ℕ) (es : List Event) (w : FileWriter)
      → w.cache ≡ []
      → Serves n es
      → length w.buffer + length (logged es) ≤ n
      → n < 2 ^ 64
      → (u : FileWriter) × (run path_of es w ≡ some u)
        × (u.cache ≡ [])
        × (texts u.output ++ u.buffer ≡ texts w.output ++ (w.buffer ++ logged es))
  run-logged n es w empty serves h b =
      let (u, ran, k) = run-Kept n es w empty serves h b in (u, ran, k.emptied, k.texts_lem)

  -- A last flush, two seconds or more after all others, writes whatever is left: from a writer with an
  -- empty cache, while the kernel serves each flush and the last one, all that was in the buffer and all
  -- lines have been written in the end, in their order, and nothing is left.
  pub run-last :
      (n : ℕ) (es : List Event) (last : ℕ) (kernel : Kernel) (w : FileWriter)
      → w.cache ≡ []
      → Serves n es
      → Before last es
      → w.prev_write_time + 1 < last
      → Takes kernel.answers
      → n ≤ length kernel.answers
      → length w.buffer + length (logged es) ≤ n
      → n < 2 ^ 64
      → (u : FileWriter) × (run path_of (es ++ flush last kernel ∷ []) w ≡ some u)
        × (u.buffer ≡ [])
        × (texts u.output ≡ texts w.output ++ (w.buffer ++ logged es))
  unfolding run
  run-last n es last kernel w empty serves late first takes enough h b =
      let (v, ran, k) = run-Kept n es w empty serves h b in
      let (done, u, flushed, f) =
        flush-Flushed kernel last v k.emptied takes (omega (arith, enough, k.short, h))
          (omega (arith, k.short, h, b)) in
      let none_left : u.buffer ≡ [] = left u v f.late (k.before last late first) in
      (
        u,
        run-append es (flush last kernel ∷ []) w v ran ∙ rw flushed refl,
        none_left,
        sym (append-nil (texts u.output))
            ∙ ap (λ (r : Text). texts u.output ++ r) (sym none_left)
            ∙ f.texts_lem
            ∙ k.texts_lem,
      )
    where
      left :
          (u v : FileWriter)
          → (u.buffer ≡ []) ⊎ (last ≤ v.prev_write_time + 1)
          → v.prev_write_time + 1 < last
          → u.buffer ≡ []
      left u v (inl e) now = e
      left u v (inr soon) now = absurd (omega arith)
