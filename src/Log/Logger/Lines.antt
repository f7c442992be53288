-- ===== src/Log/Logger/Lines.antt =====
-- commonsrc/src/logger.cpp: which line a call of `Logging` hands to which writer.
use qclib.Base.{
  ℕ, zero, suc, ◌+◌, ◌-◌, ◌≤◌, ◌<◌, ◌≡◌, ◌≢◌, ◌⊎◌, refl, sym, ap, ◌∙◌, arith, Bool, true, false, [],
  ◌∷◌, ◌++◌, none, some, ltb, length, take, drop, length-append, length-take, length-drop,
  take-append-drop, inl, inr, Option-cases, Bool-cases,
}
use qclib.Base.Int.{ℤ}
use qclib.Names.{Name}
use qclib.Packets.{write}
use qclib.Packets.Memory.{write-parts, take-append_at}
use qclib.Log.{Text, into_file_buffer, level_need_write}
use qclib.Log.Logger.{
  Logger, Formatted, log_buf_size, snprintf, read, log_line, writer_of, set_writer, logging,
}
use native.Mathlib.Decide.{dec_lt}
use mathlib.Core.List.{append_assoc}

take_more : (n : ℕ) (xs : Text) → length xs ≤ n → take n xs ≡ xs
take_more zero [] h = refl
take_more zero (x ∷ xs) h = absurd (omega arith)
take_more (suc n) [] h = refl
take_more (suc n) (x ∷ xs) h = ap (λ (r : Text). x ∷ r) (take_more n xs (omega arith))

-- A text that fits comes behind what the buffer begins with, which stays.
snprintf_fits :
    (pre rest text : Text)
    → length pre + length rest ≡ log_buf_size
    → length pre + length text < log_buf_size
    → (rest' : Text) × (snprintf (length pre) text (pre ++ rest) ≡ some ((pre ++ text) ++ rest'))
      × (length (pre ++ text) + length rest' ≡ log_buf_size)
unfolding snprintf
snprintf_fits pre rest text size fits = (
  0 ∷ drop n rest,
  rw (room, whole, split, written) (ap some shape),
  omega (arith, length-append pre text, length-drop n rest, size, fits),
)
  where
    n : ℕ
    n = length text + 1

    room : ltb (length pre) log_buf_size ≡ true
    room = ground arith

    whole : take (log_buf_size - length pre - 1) text ≡ text
    whole = take_more (log_buf_size - length pre - 1) text (omega arith)

    split : pre ++ rest ≡ pre ++ (take n rest ++ drop n rest)
    split = ap (λ (r : Text). pre ++ r) (sym (take-append-drop n rest))

    written :
        write (length pre) (text ++ 0 ∷ []) (pre ++ (take n rest ++ drop n rest))
        ≡ some (pre ++ ((text ++ 0 ∷ []) ++ drop n rest))
    written =
        write-parts (length pre) pre (take n rest) (text ++ 0 ∷ []) (drop n rest) refl
          (omega (arith, length-append text (0 ∷ []), length-take n rest, size, fits))

    shape : pre ++ ((text ++ 0 ∷ []) ++ drop n rest) ≡ (pre ++ text) ++ (0 ∷ drop n rest)
    shape =
        ap (λ (r : Text). pre ++ r) (append_assoc text (0 ∷ []) (drop n rest))
        ∙ sym (append_assoc pre text (0 ∷ drop n rest))

abbrev pub full : Formatted → Text
full f = (f.time ++ f.info) ++ f.message

length-full : (f : Formatted) → length (full f) ≡ length f.time + length f.info + length f.message
length-full f =
    length-append (f.time ++ f.info) f.message
    ∙ ap (λ (n : ℕ). n + length f.message) (length-append f.time f.info)

read_front : (n : ℕ) (xs ys : Text) → n ≡ length xs → read n (xs ++ ys) ≡ some xs
unfolding read
read_front n xs ys h =
    let inside : ltb (length (xs ++ ys)) n ≡ false = ground (arith, length-append xs ys) in
    rw (inside, take-append_at n xs ys h) refl

log_line_parts :
    (f : Formatted) (buf r1 r2 r3 : Text)
    → snprintf 0 f.time buf ≡ some (f.time ++ r1)
    → snprintf (length f.time) f.info (f.time ++ r1) ≡ some ((f.time ++ f.info) ++ r2)
    → snprintf (length f.time + length f.info) f.message ((f.time ++ f.info) ++ r2)
      ≡ some (full f ++ r3)
    → log_line f buf ≡ some (full f, full f ++ r3)
unfolding log_line
log_line_parts f buf r1 r2 r3 s1 s2 s3 =
    rw (s1, s2, s3, read_front _ (full f) r3 (sym (length-full f))) refl

log_line_fits :
    (f : Formatted) (buf : Text)
    → length buf ≡ log_buf_size
    → length (full f) < log_buf_size
    → (buf' : Text) × (log_line f buf ≡ some (full f, buf')) × (length buf' ≡ log_buf_size)
log_line_fits f buf size fits =
    let total = length-full f in
    let two = length-append f.time f.info in
    let (r1, s1, e1) = snprintf_fits [] buf f.time (omega arith) (omega (arith, total, fits)) in
    let (r2, s2, e2) = snprintf_fits f.time r1 f.info e1 (omega (arith, total, fits)) in
    let (r3, s3, e3) =
      snprintf_fits (f.time ++ f.info) r2 f.message e2
        (omega (arith, length-append (f.time ++ f.info) f.message, fits)) in
    (
      full f ++ r3,
      log_line_parts f buf r1 r2 r3 s1 s2
          (ap (λ (n : ℕ). snprintf n f.message ((f.time ++ f.info) ++ r2)) (sym two) ∙ s3),
      length-append (full f) r3 ∙ e3,
    )

write-length : (at : ℕ) (bs block b : Text) → write at bs block ≡ some b → length b ≡ length block
unfolding write
write-length at bs block b h = ground (
  arith,
  length-append (take at block) (bs ++ drop (at + length bs) block),
  length-append bs (drop (at + length bs) block),
  length-take at block,
  length-drop (at + length bs) block,
)

snprintf-length :
    (at : ℕ) (text buf b : Text) → snprintf at text buf ≡ some b → length b ≡ length buf
unfolding snprintf
snprintf-length at text buf b h =
    ground (arith, write-length at (take (log_buf_size - at - 1) text ++ 0 ∷ []) buf b)

read_long : (size : ℕ) (buf : Text) → length buf < size → read size buf ≡ none
unfolding read
read_long size buf h = ground arith

log_line_long :
    (f : Formatted) (buf : Text)
    → length buf ≡ log_buf_size
    → log_buf_size < length (full f)
    → log_line f buf ≡ none
unfolding log_line
log_line_long f buf size long = elim (Option-cases (snprintf 0 f.time buf)) [
  | inl e1 ↦ rw e1 refl
  | inr (b1, e1) ↦ elim (Option-cases (snprintf (length f.time) f.info b1)) [
    | inl e2 ↦ rw (e1, e2) refl
    | inr (b2, e2) ↦ elim (Option-cases (snprintf (length f.time + length f.info) f.message b2)) [
      | inl e3 ↦ rw (e1, e2, e3) refl
      | inr (b3, e3) ↦
          let same : length b3 ≡ log_buf_size =
            snprintf-length (length f.time + length f.info) f.message b2 b3 e3
            ∙ snprintf-length (length f.time) f.info b1 b2 e2
            ∙ snprintf-length 0 f.time buf b1 e1
            ∙ size in
          rw
            (
              e1,
              e2,
              e3,
              read_long (length f.time + length f.info + length f.message) b3
                  (omega (arith, same, long, length-full f)),
            )
            refl
    ]
  ]
]

-- `Logging` with the thread's buffer of 12288 bytes, for a line of another length, does one of three
-- things: below the level of the writer for the module (its own, or that of the process) nothing
-- changes; a line that is shorter than the buffer comes whole, with its three parts in order, to the end
-- of that writer's buffer, and the other writers stay as they are; a line that is longer is read beyond
-- the end of the thread's buffer.
pub logging_lem :
    (f : Formatted) (model : Name) (lvl : ℤ) (realtimewrite : Bool) (buf : Text) (l : Logger)
    → length buf ≡ log_buf_size
    → length (full f) ≢ log_buf_size
    → ((level_need_write (writer_of model l) lvl ≡ false)
        × (logging f model lvl realtimewrite buf l ≡ some (buf, l)))
      ⊎ ((level_need_write (writer_of model l) lvl ≡ true)
          × (length (full f) < log_buf_size)
          × (buf' : Text) × (logging f model lvl realtimewrite buf l
              ≡ some
                  (buf', set_writer model (into_file_buffer (full f) false (writer_of model l)) l))
          × (length buf' ≡ log_buf_size))
      ⊎ ((level_need_write (writer_of model l) lvl ≡ true)
          × (log_buf_size < length (full f))
          × (logging f model lvl realtimewrite buf l ≡ none))
unfolding logging
logging_lem f model lvl realtimewrite buf l size other =
    elim (Bool-cases (level_need_write (writer_of model l) lvl)) [
      | inr low ↦ inl (low, rw low refl)
      | inl high ↦ elim (dec_lt (length (full f)) log_buf_size) [
        | yes fits ↦
            let (buf', made, size') = log_line_fits f buf size fits in
            inr (inl (high, fits, buf', rw (high, made) refl, size'))
        | no over ↦
            let long : log_buf_size < length (full f) = ground (arith, over, other) in
            inr (inr (high, long, rw (high, log_line_long f buf size long) refl))
      ]
    ]
