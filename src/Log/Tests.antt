-- ===== src/Log/Tests.antt =====
-- Runs of the log on short lines, and the theorems at concrete inputs.
use qclib.Base.{
  ℕ, ◌<◌, ◌≡◌, refl, arith, true, false, List, [], ◌∷◌, ◌++◌, none, some, length, replicate,
  length-replicate, ◌⊎◌,
}
use qclib.Base.Int.{pos}
use qclib.Log.{
  Text, took, failed, Kernel, FileWriter, write_file, flush2_file, log_file, into_file_buffer,
  level_need_write,
}
use qclib.Log.Written.{texts}
use qclib.Log.Kept.{Event, line, flush, run, logged, run-logged, run-last}
use qclib.Log.Failed.{write_file-twice}
use qclib.Log.Logger.{Logger, Formatted, logging, set_writer, writer_of}
use qclib.Log.Logger.Lines.{full, logging_lem}

abbrev path_of : ℕ → Text
path_of t = t ∷ []

-- Each call of `write` takes two bytes.
abbrev by_twos : Kernel
by_twos = record {
  answers = took 2 ∷ took 2 ∷ took 2 ∷ took 2 ∷ took 2 ∷ took 2 ∷ [];
  opened = some 0;
}

abbrev empty_writer : FileWriter
empty_writer = record {
  need_real_write = false;
  prev_write_time = 0;
  buffer = [];
  cache = [];
  level = pos 1;
  into_file = true;
  fd = log_file (7 ∷ []);
  offset = 67108864;
  output = [];
}

abbrev calls : List Event
calls = line (65 ∷ 66 ∷ []) false ∷ flush 5 by_twos ∷ line (67 ∷ []) false ∷ flush 6 by_twos ∷ []

-- A full file is left for a new one; the flush one second later does nothing.
run-calls :
    run path_of calls empty_writer
    ≡ some (record empty_writer {
      prev_write_time = 5;
      buffer = 67 ∷ 10 ∷ [];
      fd = log_file (5 ∷ []);
      offset = 3;
      output = (log_file (5 ∷ []), 65 ∷ 66 ∷ 10 ∷ []) ∷ [];
    })
unfolding run into_file_buffer flush2_file
run-calls = refl

run-logged_example :
    (u : FileWriter) × (run path_of calls empty_writer ≡ some u)
    × (u.cache ≡ [])
    × (texts u.output ++ u.buffer ≡ logged calls)
unfolding logged texts
run-logged_example =
    run-logged path_of 5 calls empty_writer refl (omega arith) (omega arith) (omega arith)

run-last_example :
    (u : FileWriter) × (run path_of (calls ++ flush 9 by_twos ∷ []) empty_writer ≡ some u)
    × (u.buffer ≡ [])
    × (texts u.output ≡ logged calls)
unfolding logged texts
run-last_example =
    run-last path_of 5 calls 9 by_twos empty_writer refl (omega arith) (omega arith) (omega arith)
      (omega arith) (omega arith) (omega arith) (omega arith)

abbrev full_cache : FileWriter
full_cache = record empty_writer { cache = 1 ∷ 2 ∷ 3 ∷ []; offset = 0 }

write_file-twice_example :
    write_file (took 2 ∷ failed ∷ took 3 ∷ []) full_cache
    ≡ some (record full_cache {
      offset = 3;
      cache = [];
      output = (log_file (7 ∷ []), 1 ∷ 2 ∷ 2 ∷ 3 ∷ []) ∷ [];
    })
write_file-twice_example = write_file-twice full_cache 2 (omega arith) (omega arith) (omega arith)

abbrev process_log : Logger
process_log = record {
  run = true;
  into_file = true;
  process_log_level = pos 1;
  process_log_writer = empty_writer;
  module_writers = (77 ∷ [], record empty_writer { level = pos 3 }) ∷ [];
}

abbrev hello : Formatted
hello = record { time = 91 ∷ []; info = 93 ∷ []; message = 104 ∷ 105 ∷ [] }

abbrev thread_buffer : Text
thread_buffer = replicate 12288 0

logging_lem_example :
    ((level_need_write (writer_of (77 ∷ []) process_log) (pos 4) ≡ false)
      × (logging hello (77 ∷ []) (pos 4) false thread_buffer process_log
          ≡ some (thread_buffer, process_log)))
    ⊎ ((level_need_write (writer_of (77 ∷ []) process_log) (pos 4) ≡ true)
        × (4 < 12288)
        × (buf' : Text) × (logging hello (77 ∷ []) (pos 4) false thread_buffer process_log
            ≡ some (
              buf',
              set_writer
                  (77 ∷ [])
                  (into_file_buffer (full hello) false (writer_of (77 ∷ []) process_log))
                  process_log,
            ))
        × (length buf' ≡ 12288))
    ⊎ ((level_need_write (writer_of (77 ∷ []) process_log) (pos 4) ≡ true)
        × (12288 < 4)
        × (logging hello (77 ∷ []) (pos 4) false thread_buffer process_log ≡ none))
logging_lem_example =
    logging_lem hello (77 ∷ []) (pos 4) false thread_buffer process_log
      (length-replicate {A = ℕ} 12288 0) (ground arith)
