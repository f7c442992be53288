-- ===== src/LoopArray.antt =====
-- commonsrc/include/containers_define.h: the circular buffer `LoopArray`, and its use as the two
-- message queues of projects/logic_svr/logic_thread.cpp. `size_t` sums wrap at 2 ^ 64.
-- `null` is the value `NULL` of the element type that `pop_front` returns on an empty array, and
-- `fill` is what the fresh storage holds.
pub mod Inv
pub mod Refine
pub mod Append
mod Tests
use qclib.Base.{
  ℕ, zero, suc, ◌+◌, ◌-◌, ◌%◌, ◌^◌, Bool, true, false, not, ◌&&◌, ◌||◌, List, [], ◌∷◌, Option, none,
  some, ltb, leb, ◌==◌, if◌then◌else◌, get_or, set,
}

abbrev pub default_len : ℕ
default_len = 1024

abbrev pub size_mod : ℕ
size_mod = 2 ^ 64

pub record LoopArray (A : Type 0) : Type 0 where
  pub head : ℕ
  pub tail : ℕ
  pub size : ℕ
  pub capacity : ℕ
  pub buf : List A

module _ {A : Type 0} where
  -- `new _Type[n]`
  abbrev pub storage : (ℕ → A) → ℕ → List A
  storage fill zero = []
  storage fill (suc n) = fill n ∷ storage fill n

  pub make_default : (ℕ → A) → LoopArray A
  make_default fill = record {
    head = 0;
    tail = 0;
    size = 0;
    capacity = default_len;
    buf = storage fill default_len;
  }

  pub make : (ℕ → A) → ℕ → LoopArray A
  unfolding make_default
  make fill bufsize =
      if ltb bufsize 1
      then make_default fill
      else record { head = 0; tail = 0; size = 0; capacity = bufsize; buf = storage fill bufsize }

  abbrev pub is_full : LoopArray A → Bool
  is_full a = leb a.capacity a.size

  abbrev pub is_empty : LoopArray A → Bool
  is_empty a = a.size == 0

  unfoldable pub pop_front : A → LoopArray A → A × LoopArray A
  pop_front null a = if is_empty a then (null, a) else (
    get_or a.buf a.head null,
    record a { head = (a.head + 1) % size_mod % a.capacity; size = a.size - 1 },
  )

  unfoldable pub push_back : LoopArray A → A → Bool × LoopArray A
  push_back a item = if is_full a then (false, a) else (
    true,
    record a {
      buf = set a.buf a.tail item;
      tail = (a.tail + 1) % size_mod % a.capacity;
      size = (a.size + 1) % size_mod;
    },
  )

  pub clear : LoopArray A → LoopArray A
  clear a = record a { head = 0; tail = 0; size = 0 }

  -- The do-while loop of `Append`; `none` if the rounds run out.
  unfoldable pub append_loop :
      A → ℕ → LoopArray A → LoopArray A → Option (LoopArray A × LoopArray A)
  append_loop null zero a b = none
  append_loop null (suc rounds) a b =
      let (x, b') = pop_front null b in
      let (_, a') = push_back a x in
      let rest = append_loop null rounds a' b' in
      if not (is_full a') && not (is_empty b') then rest else some (a', b')

  -- `a.Append(b)` for two different arrays: what it returns, then `a` and `b` afterwards. Each round
  -- takes one element of `b`, so `b.size` rounds are enough.
  unfoldable pub append : A → LoopArray A → LoopArray A → Option (Bool × LoopArray A × LoopArray A)
  append null a b =
      if is_full a
      then some (false, a, b)
      else if is_empty b
      then some (false, a, b)
      else elim (append_loop null b.size a b) [ none ↦ none | some (a', b') ↦ some (true, a', b') ]
