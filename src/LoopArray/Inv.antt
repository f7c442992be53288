-- ===== src/LoopArray/Inv.antt =====
-- The representation invariant of `LoopArray`: no index leaves the storage, and `tail` is where the
-- element after the last one goes.
use native.Mathlib.Nat.{mod-add-mod, mod-lt}
use qclib.Base.{ℕ, zero, suc, ◌+◌, ◌-◌, ◌%◌, ◌≤◌, ◌<◌, ◌≡◌, refl, ap, arith, length, length-set}
use qclib.LoopArray.{
  LoopArray, size_mod, default_len, storage, make_default, make, pop_front, push_back, clear,
}

pub record IsValid {A : Type 0} (a : LoopArray A) : Type 0 where
  pub positive : 0 < a.capacity
  pub small : a.capacity < size_mod
  pub stored : length a.buf ≡ a.capacity
  pub head_in : a.head < a.capacity
  pub size_in : a.size ≤ a.capacity
  pub tail_at : a.tail ≡ (a.head + a.size) % a.capacity

-- A step of an index below the capacity does not wrap.
pub next_in : (c i : ℕ) → c < size_mod → i < c → (i + 1) % size_mod % c ≡ (i + 1) % c
next_in c i h k = ap (λ (t : ℕ). t % c) (omega arith)

-- Stepping an index after reducing it is the same as before.
pub mod_step : (c x : ℕ) → (x % c + 1) % c ≡ (x + 1) % c
mod_step c x = mod-add-mod x c 1

next_sum : (h s : ℕ) → h + s + 1 ≡ h + (s + 1)
next_sum h s = omega arith

module _ {A : Type 0} where
  length-storage : (fill : ℕ → A) (n : ℕ) → length (storage fill n) ≡ n
  length-storage fill zero = refl
  length-storage fill (suc n) = ap suc (length-storage fill n)

  pub make_default-IsValid : (fill : ℕ → A) → IsValid (make_default fill)
  unfolding make_default
  make_default-IsValid fill = omega (arith, length-storage fill default_len)

  -- Both constructors give a valid empty array; a size of 0 means the default capacity.
  pub make-IsValid : (fill : ℕ → A) (n : ℕ) → n < size_mod → IsValid (make fill n)
  unfolding make
  make-IsValid fill n h = ground (arith, make_default-IsValid fill, length-storage fill n)

  pub tail_in : {a : LoopArray A} → IsValid a → a.tail < a.capacity
  tail_in {a} v = rw v.tail_at (mod-lt (a.head + a.size) v.positive)

  -- `push_back` keeps an array valid, full or not.
  pub push_back-IsValid : {a : LoopArray A} (x : A) → IsValid a → IsValid (push_back a x).1
  unfolding push_back
  push_back-IsValid {a} x v = ground (
    arith,
    length-set a.buf a.tail x,
    tail_in v,
    next_in a.capacity a.tail,
    mod_step a.capacity (a.head + a.size),
    ap (λ (t : ℕ). t % a.capacity) (next_sum a.head a.size),
  )

  -- `pop_front` keeps an array valid, empty or not.
  pub pop_front-IsValid : (null : A) {a : LoopArray A} → IsValid a → IsValid (pop_front null a).1
  unfolding pop_front
  pop_front-IsValid null {a} v = ground (
    arith,
    next_in a.capacity a.head,
    mod-lt (a.head + 1) {m = a.capacity},
    mod-add-mod (a.head + 1) a.capacity (a.size - 1),
  )

  pub clear-IsValid : {a : LoopArray A} → IsValid a → IsValid (clear a)
  unfolding clear
  clear-IsValid {a} v = omega arith
