-- ===== src/Log.antt =====
-- commonsrc/include/file_writer.h and src/file_writer.cpp: the buffer of a log and its file. The kernel
-- is a parameter: what its calls of `write` and `open` answer, and the path that a time gives. What the
-- program wrote is the list of `write` calls that took bytes, with the descriptor of each.
use qclib.Base.{
  ℕ, zero, suc, ◌+◌, ◌-◌, ◌*◌, ◌%◌, ◌^◌, Bool, true, false, not, ◌&&◌, List, [], ◌∷◌, ◌++◌, Option,
  none, some, ◌>>=◌, ◌==◌, ltb, leb, min, length, take, drop, if◌then◌else◌,
}
use qclib.Base.Int.{ℤ, ltb_ℤ}
pub mod Written
pub mod Kept
pub mod Failed
pub mod Logger
mod Tests

abbrev pub Text : Type 0
Text = List ℕ

-- A descriptor. 0 is what `OpenNewFile` keeps when `open` fails.
pub data Fd : Type 0 where
  stdin stdout : Fd
  log_file : (path : Text) → Fd

-- A call of `write` takes some of the bytes it is given, or fails with -1.
pub data Answer : Type 0 where
  took : ℕ → Answer
  failed : Answer

-- What the kernel does during one call of the program: `opened` is the size of the file that `open`
-- and `lseek` find, or `none` where `open` fails.
pub record Kernel : Type 0 where
  pub answers : List Answer
  pub opened : Option ℕ

pub record FileWriter : Type 0 where
  pub need_real_write : Bool
  pub prev_write_time : ℕ
  pub buffer : Text
  pub cache : Text
  pub level : ℤ
  pub into_file : Bool
  pub fd : Fd
  pub offset : ℕ
  pub output : List (Fd × Text)

abbrev pub write_size_per_time : ℕ
write_size_per_time = 4096

abbrev pub logger_flush_size : ℕ
logger_flush_size = 65536

abbrev pub logger_file_size : ℕ
logger_file_size = 67108864

abbrev pub logger_write_to_file_inter : ℕ
logger_write_to_file_inter = 1

abbrev pub level_need_write : FileWriter → ℤ → Bool
level_need_write w lvl = not (ltb_ℤ lvl w.level)

-- `OpenNewFile` at a time, with the path that `snprintf` makes of it.
unfoldable pub open_new_file : (ℕ → Text) → Kernel → ℕ → FileWriter → FileWriter
open_new_file path_of kernel t w =
    if w.into_file
    then elim kernel.opened [
      | none ↦ record w { fd = stdin; offset = 0 }
      | some size ↦ record w { fd = log_file (path_of t); offset = size }
    ]
    else record w { fd = stdout }

-- `Init` at the time `now`; `old` is the object that the constructor left, whose fields nobody set.
unfoldable pub init : (ℕ → Text) → Kernel → ℕ → ℤ → Bool → FileWriter → FileWriter
unfolding open_new_file
init path_of kernel now lvl into old =
    open_new_file path_of kernel now
      (record old { into_file = into; level = lvl; prev_write_time = 0 })

-- The line and a newline.
unfoldable pub into_file_buffer : Text → Bool → FileWriter → FileWriter
into_file_buffer line realtime w = record w {
  need_real_write = realtime;
  buffer = w.buffer ++ (line ++ 10 ∷ []);
}

abbrev swap_buffers : ℕ → FileWriter → FileWriter
swap_buffers t w = record w { cache = w.buffer; buffer = w.cache; prev_write_time = t }

abbrev is_empty : Text → Bool
is_empty [] = true
is_empty (b ∷ bs) = false

unfoldable pub switch_buffer : ℕ → FileWriter → Bool × FileWriter
switch_buffer t w =
    if ltb logger_flush_size (length w.buffer)
    then (true, swap_buffers t w)
    else if w.need_real_write && not (is_empty w.buffer)
    then (true, swap_buffers t (record w { need_real_write = false }))
    else if ltb (w.prev_write_time + logger_write_to_file_inter) t
    then (true, swap_buffers t w)
    else (false, w)

unfoldable pub switch_file : (ℕ → Text) → Kernel → ℕ → FileWriter → FileWriter
unfolding open_new_file
switch_file path_of kernel t w =
    if ltb w.offset logger_file_size then w else open_new_file path_of kernel t w

-- The variables of the loop of `WriteFile`, and the bytes that its calls of `write` took.
pub record Writing : Type 0 where
  pub dsize : ℕ
  pub pos : ℕ
  pub taken : Text

abbrev pub asked : ℕ → ℕ
asked dsize = if ltb write_size_per_time dsize then write_size_per_time else dsize

-- One round over the block at `data`. `wsize` is added to a `size_t`, so that -1 is 2 ^ 64 - 1 there.
-- A call beyond the block, `none`, is undefined.
unfoldable pub write_round : Text → Answer → Writing → Option Writing
write_round block (took n) v =
    let wsize = min n (asked v.dsize) in
    if leb (v.pos + asked v.dsize) (length block)
    then some (record {
      dsize = v.dsize - wsize;
      pos = (v.pos + wsize) % 2 ^ 64;
      taken = v.taken ++ take wsize (drop v.pos block);
    })
    else none
write_round block failed v =
    if leb (v.pos + asked v.dsize) (length block)
    then some (record v { dsize = v.dsize + 1; pos = (v.pos + (2 ^ 64 - 1)) % 2 ^ 64 })
    else none

-- The loop, as far as the answers go: it has ended if `dsize` is 0, and is still running otherwise.
unfoldable pub write_loop : Text → List Answer → Writing → Option Writing
unfolding write_round
write_loop block [] v = some v
write_loop block (a ∷ more) v =
    let rest = write_round block a v >>= λ v'. write_loop block more v' in
    if v.dsize == 0 then some v else rest

-- The bytes of `c_str`, with the zero at their end.
abbrev pub c_str : Text → Text
c_str s = s ++ 0 ∷ []

-- `WriteFile`, which answers `none` if it does not end with these answers.
unfoldable pub write_file : List Answer → FileWriter → Option FileWriter
unfolding write_loop
write_file answers w =
    let begin : Writing = record { dsize = length w.cache; pos = 0; taken = [] } in
    write_loop (c_str w.cache) answers begin >>= λ v.
    if v.dsize == 0
    then some (record w {
      offset = w.offset + length w.cache;
      cache = [];
      output = w.output ++ (w.fd, v.taken) ∷ [];
    })
    else none

unfoldable pub flush2_file : (ℕ → Text) → Kernel → ℕ → FileWriter → Option (Bool × FileWriter)
unfolding switch_buffer switch_file write_file
flush2_file path_of kernel t w =
    let (switched, w1) = switch_buffer t w in
    if switched
    then (write_file kernel.answers (switch_file path_of kernel t w1) >>= λ w2. some (true, w2))
    else some (false, w1)
