-- ===== src/LoopArray/Refine.antt =====
-- A valid `LoopArray` against the bounded queue of its elements, oldest first.
use mathlib.Core.Logic.{◌≢◌}
use native.Mathlib.Nat.{mod-add-mod, mod-eq_of_lt, mod-eq-sub-mod, add-zero}
use qclib.Base.{
  ℕ, zero, suc, ◌+◌, ◌-◌, ◌%◌, ◌≤◌, ◌<◌, ◌≡◌, refl, sym, ap, ap₂, ◌∙◌, arith, length, get_or, set,
  get_or-set_self, get_or-set_ne, Bool, true, false, List, [], ◌∷◌, ◌++◌, ltb, if◌then◌else◌,
  Bool-cases, inl, inr,
}
use qclib.LoopArray.{LoopArray, make_default, is_full, pop_front, push_back}
use qclib.LoopArray.Inv.{IsValid, next_in}

-- The first-in first-out queue that the array stands for.
module _ {A : Type 0} where
  unfoldable pub queue_push : ℕ → List A → A → Bool × List A
  queue_push cap q x = if ltb (length q) cap then (true, q ++ x ∷ []) else (false, q)

  unfoldable pub queue_pop : A → List A → A × List A
  queue_pop null [] = (null, [])
  queue_pop null (x ∷ q) = (x, q)

  -- The `n` elements from index `h` on, going round at `cap`.
  abbrev pub window : A → List A → ℕ → ℕ → ℕ → List A
  window null buf cap h zero = []
  window null buf cap h (suc n) = get_or buf h null ∷ window null buf cap ((h + 1) % cap) n

  abbrev pub contents : A → LoopArray A → List A
  contents null a = window null a.buf a.capacity a.head a.size

  length-window : (null : A) (buf : List A) (cap h n : ℕ) → length (window null buf cap h n) ≡ n
  length-window null buf cap h zero = refl
  length-window null buf cap h (suc n) = ap suc (length-window null buf cap ((h + 1) % cap) n)

  pub length-contents : (null : A) (a : LoopArray A) → length (contents null a) ≡ a.size
  length-contents null a = length-window null a.buf a.capacity a.head a.size

  -- The code tests `size == 0`, `window` matches on the number.
  window_pos :
      (null : A) (buf : List A) (cap h n : ℕ)
      → n ≢ 0
      → window null buf cap h n ≡ get_or buf h null ∷ window null buf cap ((h + 1) % cap) (n - 1)
  window_pos null buf cap h zero p = absurd (p refl)
  window_pos null buf cap h (suc n) p = ap (λ (k : ℕ). window null buf cap h (suc k)) (omega arith)

-- Fewer than `cap` steps round do not come back to the start.
round_ne : (cap h k : ℕ) → h < cap → suc k < cap → (h + suc k) % cap ≢ h
round_ne cap h k hh hk = elim (Bool-cases (ltb (h + suc k) cap)) [
  | inl e ↦ let lt : h + suc k < cap = ground arith in omega (arith, mod-eq_of_lt lt)
  | inr e ↦
      let ge : cap ≤ h + suc k = ground arith in
      let small : h + suc k - cap < cap = omega arith in
      omega (arith, mod-eq-sub-mod ge, mod-eq_of_lt small)
]

next_sum : (h n : ℕ) → h + suc n ≡ h + 1 + n
next_sum h n = omega arith

shift_index : (cap h n : ℕ) → (h + suc n) % cap ≡ ((h + 1) % cap + n) % cap
shift_index cap h n = ap (λ (k : ℕ). k % cap) (next_sum h n) ∙ sym (mod-add-mod (h + 1) cap n)

module _ {A : Type 0} where
  -- A write just past the window extends it by the written element.
  window-set :
      (null : A) (buf : List A) (cap : ℕ) (x : A) (n h i : ℕ)
      → cap ≤ length buf
      → h < cap
      → n < cap
      → i ≡ (h + n) % cap
      → window null (set buf i x) cap h (suc n) ≡ window null buf cap h n ++ x ∷ []
  window-set null buf cap x zero h i hs hh hn e =
      rw (e, add-zero, mod-eq_of_lt hh, get_or-set_self buf h x null (omega arith))
  window-set null buf cap x (suc n) h i hs hh hn e =
      ap₂ ◌∷◌ (get_or-set_ne buf x null (rw e (round_ne cap h n hh hn))) (
        window-set null buf cap x n ((h + 1) % cap) i hs (omega arith) (omega arith)
          (e ∙ shift_index cap h n))

  -- `push_back` is the push of the bounded queue of the contents: refused exactly when the array is
  -- full, which leaves it alone, and otherwise adding the element at the end.
  pub push_back_refines :
      (null : A) {a : LoopArray A} (x : A)
      → IsValid a
      → let (s, a') = push_back a x in
        (s, contents null a') ≡ queue_push a.capacity (contents null a) x
  unfolding push_back queue_push
  push_back_refines null {a} x v =
      ground
        (arith, length-contents null a, window-set null a.buf a.capacity x a.size a.head a.tail)

  -- `pop_front` is the pop of the queue of the contents, `null` on the empty one.
  pub pop_front_refines :
      (null : A) {a : LoopArray A}
      → IsValid a
      → let (x, a') = pop_front null a in (x, contents null a') ≡ queue_pop null (contents null a)
  unfolding pop_front queue_pop
  pop_front_refines null {a} v =
      ground (arith, next_in a.capacity a.head, window_pos null a.buf a.capacity a.head a.size)

  pub capacity-push_back : (a : LoopArray A) (x : A) → (push_back a x).1.capacity ≡ a.capacity
  unfolding push_back
  capacity-push_back a x = ground arith

  pub capacity-pop_front : (null : A) (a : LoopArray A) → (pop_front null a).1.capacity ≡ a.capacity
  unfolding pop_front
  capacity-pop_front null a = ground arith

  pub contents-push_back :
      (null : A) {a : LoopArray A} (x : A)
      → IsValid a
      → a.size < a.capacity
      → contents null (push_back a x).1 ≡ contents null a ++ x ∷ []
  unfolding queue_push
  contents-push_back null {a} x v h =
      ground (arith, push_back_refines null x v, length-contents null a)

  pub size-push_back :
      {a : LoopArray A} (x : A)
      → IsValid a
      → a.size < a.capacity
      → ((push_back a x).0 ≡ true) × ((push_back a x).1.size ≡ a.size + 1)
  unfolding push_back
  size-push_back {a} x v h = ground arith

  pub contents-pop_front :
      (null : A) {a : LoopArray A}
      → IsValid a
      → 0 < a.size
      → contents null a ≡ (pop_front null a).0 ∷ contents null (pop_front null a).1
  unfolding pop_front
  contents-pop_front null {a} v h =
      ground (arith, next_in a.capacity a.head, window_pos null a.buf a.capacity a.head a.size)

  pub size-pop_front :
      (null : A) (a : LoopArray A) → 0 < a.size → (pop_front null a).1.size + 1 ≡ a.size
  unfolding pop_front
  size-pop_front null a h = ground arith

  -- A refused push changes nothing.
  pub push_back_full : (a : LoopArray A) (x : A) → is_full a ≡ true → push_back a x ≡ (false, a)
  unfolding push_back
  push_back_full a x e = rw e

  pub size-make_default : (fill : ℕ → A) → (make_default fill).size ≡ 0
  unfolding make_default
  size-make_default fill = refl

  pub contents-make_default : (null : A) (fill : ℕ → A) → contents null (make_default fill) ≡ []
  unfolding make_default
  contents-make_default null fill = refl
