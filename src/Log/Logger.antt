-- ===== src/Log/Logger.antt =====
-- commonsrc/include/logger.h and src/logger.cpp: the log of the process and those of its modules. What the
-- three format calls of `Logging` make of their arguments is a parameter, as it comes out in full.
use qclib.Base.{
  ℕ, ◌+◌, ◌-◌, Bool, true, false, List, [], ◌∷◌, ◌++◌, Option, none, some, ◌>>=◌, ltb, length, take,
  if◌then◌else◌,
}
use qclib.Base.Int.{ℤ, pos, ltb_ℤ}
use qclib.Names.{Name, Dict, find, assign, update}
use qclib.Packets.{write}
use qclib.Log.{
  Text, Fd, Kernel, FileWriter, init, into_file_buffer, flush2_file, level_need_write, stdin,
}
pub mod Lines

pub record Logger : Type 0 where
  pub run : Bool
  pub into_file : Bool
  pub process_log_level : ℤ
  pub process_log_writer : FileWriter
  pub module_writers : Dict FileWriter

-- The time and the thread's index with the level, and the message.
pub record Formatted : Type 0 where
  pub time : Text
  pub info : Text
  pub message : Text

abbrev pub log_buf_size : ℕ
log_buf_size = 12288

-- `snprintf(buf + at, LOG_BUF_SIZE - at, ...)`, with the length that it returns. It writes what fits and a
-- zero, and nothing into no room; a negative size is a huge one, so that it writes beyond the buffer.
unfoldable pub snprintf : ℕ → Text → Text → Option Text
snprintf at text buf =
    if ltb at log_buf_size
    then write at (take (log_buf_size - at - 1) text ++ 0 ∷ []) buf
    else if ltb log_buf_size at
    then none
    else some buf

-- The first `size` bytes of the buffer, which has no more than it has.
unfoldable pub read : ℕ → Text → Option Text
read size buf = if ltb (length buf) size then none else some (take size buf)

-- The line that `Logging` hands to the writer.
unfoldable pub log_line : Formatted → Text → Option (Text × Text)
unfolding snprintf read
log_line f buf = do
  buf1 ← snprintf 0 f.time buf
  buf2 ← snprintf (length f.time) f.info buf1
  buf3 ← snprintf (length f.time + length f.info) f.message buf2
  line ← read (length f.time + length f.info + length f.message) buf3
  some (line, buf3)

-- The writer of a module, or that of the process.
abbrev pub writer_of : Name → Logger → FileWriter
writer_of model l = elim (find model l.module_writers) [ none ↦ l.process_log_writer | some w ↦ w ]

unfoldable pub set_writer : Name → FileWriter → Logger → Logger
set_writer model w l = elim (find model l.module_writers) [
  | none ↦ record l { process_log_writer = w }
  | some _ ↦ record l { module_writers = update model (λ _. w) l.module_writers }
]

-- `Logging`, with the buffer of the thread. What it is told of `realtimewrite` goes nowhere.
unfoldable pub logging : Formatted → Name → ℤ → Bool → Text → Logger → Option (Text × Logger)
unfolding log_line set_writer
logging f model lvl realtimewrite buf l =
    let w = writer_of model l in
    if level_need_write w lvl
    then (log_line f buf >>= λ (line, buf').
        some (buf', set_writer model (into_file_buffer line false w) l))
    else some (buf, l)

-- `AddLogModel` at the time `now`; `fresh` is a writer that nobody has set.
unfoldable pub add_log_model :
    (Name → ℕ → Text) → Kernel → ℕ → FileWriter → Name → ℤ → Logger → Bool × Logger
add_log_model path_of kernel now fresh [] lvl l = (false, l)
add_log_model path_of kernel now fresh (c ∷ cs) lvl l =
    let model = c ∷ cs in
    let lvl' = if ltb_ℤ (pos 0) lvl then lvl else l.process_log_level in
    elim (find model l.module_writers) [
      | some _ ↦ (false, l)
      | none ↦ (
        true,
        record l {
          module_writers =
              assign model (init (path_of model) kernel now lvl' l.into_file fresh)
                l.module_writers;
        },
      )
    ]

unfoldable pub flush_modules :
    (Name → ℕ → Text) → (Name → Kernel) → ℕ → Dict FileWriter → Option (Dict FileWriter)
flush_modules path_of kernel t [] = some []
flush_modules path_of kernel t ((model, w) ∷ ws) =
    flush2_file (path_of model) (kernel model) t w >>= λ (_, w').
    flush_modules path_of kernel t ws >>= λ ws'. some ((model, w') ∷ ws')

-- A round of `ThreadMain` at a time; the name of the process's log is empty.
unfoldable pub log_round : (Name → ℕ → Text) → (Name → Kernel) → ℕ → Logger → Option Logger
unfolding flush_modules
log_round path_of kernel t l =
    flush2_file (path_of []) (kernel []) t l.process_log_writer >>= λ (_, w).
    flush_modules path_of kernel t l.module_writers >>= λ ws.
    some (record l { process_log_writer = w; module_writers = ws })

-- The destructor at the time `now`, once the thread has ended.
unfoldable pub destroy : (Name → ℕ → Text) → (Name → Kernel) → ℕ → Logger → Option Logger
unfolding log_round
destroy path_of kernel now l = log_round path_of kernel (now + 1000) (record l { run = false })
