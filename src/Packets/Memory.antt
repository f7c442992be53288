-- ===== src/Packets/Memory.antt =====
-- commonsrc/include/base_define.h: numbers in bytes, and copies into a block that is seen as its parts.
use qclib.Base.{
  ℕ, zero, suc, ◌+◌, ◌/◌, ◌^◌, ◌≤◌, ◌<◌, ◌≡◌, refl, sym, ap, ◌∙◌, arith, List, [], ◌∷◌, ◌++◌, some,
  leb, true, length, take, drop, length-append,
}
use qclib.Packets.{Bytes, get_le, le, write}

pub length-le : (k v : ℕ) → length (le k v) ≡ k
unfolding le
length-le zero v = refl
length-le (suc k) v = ap suc (length-le k (v / 256))

pub get_le-append : (k : ℕ) (xs ys : Bytes) → k ≤ length xs → get_le k (xs ++ ys) ≡ get_le k xs
unfolding get_le
get_le-append zero xs ys h = refl
get_le-append (suc k) [] ys h = absurd (omega arith)
get_le-append (suc k) (x ∷ xs) ys h = rw (get_le-append k xs ys (omega arith)) refl

pub get_le-le : (k v : ℕ) → v < 256 ^ k → get_le k (le k v) ≡ v
unfolding get_le le
get_le-le zero v h = omega arith
get_le-le (suc k) v h =
    let inner : get_le k (le k (v / 256)) ≡ v / 256 = get_le-le k (v / 256) (omega arith) in
    omega (arith, inner)

pub get_le-le_append : (k v : ℕ) (rest : Bytes) → v < 256 ^ k → get_le k (le k v ++ rest) ≡ v
get_le-le_append k v rest h =
    get_le-append k (le k v) rest (omega (arith, length-le k v)) ∙ get_le-le k v h

module _ {ℓ} {A : Type ℓ} where
  pub take-append : (xs ys : List A) → take (length xs) (xs ++ ys) ≡ xs
  take-append [] ys = refl
  take-append (x ∷ xs) ys = ap (λ (zs : List A). x ∷ zs) (take-append xs ys)

  pub drop-append : (xs ys : List A) → drop (length xs) (xs ++ ys) ≡ ys
  drop-append [] ys = refl
  drop-append (x ∷ xs) ys = drop-append xs ys

  pub take-append_at : (n : ℕ) (xs ys : List A) → n ≡ length xs → take n (xs ++ ys) ≡ xs
  take-append_at n xs ys h = rw h (take-append xs ys)

  pub drop-append_at : (n : ℕ) (xs ys : List A) → n ≡ length xs → drop n (xs ++ ys) ≡ ys
  drop-append_at n xs ys h = rw h (drop-append xs ys)

  drop-nil : (n : ℕ) → drop {A = A} n [] ≡ []
  drop-nil zero = refl
  drop-nil (suc n) = refl

  pub drop-drop : (m n k : ℕ) (xs : List A) → k ≡ m + n → drop n (drop m xs) ≡ drop k xs
  drop-drop zero n k xs h = ap (λ (i : ℕ). drop i xs) (omega arith)
  drop-drop (suc m) n k [] h = drop-nil n ∙ sym (drop-nil k)
  drop-drop (suc m) n zero (x ∷ xs) h = absurd (omega arith)
  drop-drop (suc m) n (suc k) (x ∷ xs) h = drop-drop m n k xs (omega arith)

-- A copy over the middle one of the three parts of a block.
pub write-parts :
    (at : ℕ) (xs old new ys : Bytes)
    → at ≡ length xs
    → length new ≡ length old
    → write at new (xs ++ (old ++ ys)) ≡ some (xs ++ (new ++ ys))
unfolding write
write-parts at xs old new ys ha hn =
    let fits : leb (at + length new) (length (xs ++ (old ++ ys))) ≡ true =
      ground (arith, length-append xs (old ++ ys), length-append old ys) in
    let front : take at (xs ++ (old ++ ys)) ≡ xs = take-append_at at xs (old ++ ys) ha in
    let back : drop (at + length new) (xs ++ (old ++ ys)) ≡ ys =
      sym (drop-drop at (length new) (at + length new) (xs ++ (old ++ ys)) refl)
      ∙ ap (drop (length new)) (drop-append_at at xs (old ++ ys) ha)
      ∙ drop-append_at (length new) old ys hn in
    rw (fits, front, back) refl
