-- ===== src/Names.antt =====
-- `std::string` where the program uses it as a key: its bytes, with their comparison, and `std::map`
-- with such keys, as the entries that its iterators show.
use qclib.Base.{
  ℕ, ◌≡◌, refl, sym, ap, ap₂, arith, Bool, true, false, ◌&&◌, List, [], ◌∷◌, Option, none, some,
  ◌==◌, ==_iff, ltb, if◌then◌else◌, Bool-cases, inl, inr,
}
pub mod Ascending

abbrev pub Name : Type 0
Name = List ℕ

unfoldable pub same : Name → Name → Bool
same [] [] = true
same [] (y ∷ ys) = false
same (x ∷ xs) [] = false
same (x ∷ xs) (y ∷ ys) = x == y && same xs ys

-- `operator<` compares byte by byte; a name comes before those that it begins.
unfoldable pub less : Name → Name → Bool
less [] [] = false
less [] (y ∷ ys) = true
less (x ∷ xs) [] = false
less (x ∷ xs) (y ∷ ys) = let rest = less xs ys in if x == y then rest else ltb x y

pub same_self : (a : Name) → same a a ≡ true
unfolding same
same_self [] = refl
same_self (x ∷ xs) = ground (arith, same_self xs)

pub eq_of_same : (a b : Name) → same a b ≡ true → a ≡ b
unfolding same
eq_of_same [] [] h = refl
eq_of_same [] (y ∷ ys) h = cc
eq_of_same (x ∷ xs) [] h = cc
eq_of_same (x ∷ xs) (y ∷ ys) h = ground (arith, eq_of_same xs ys)

pub same_comm : (a b : Name) → same a b ≡ same b a
unfolding same
same_comm [] [] = refl
same_comm [] (y ∷ ys) = refl
same_comm (x ∷ xs) [] = refl
same_comm (x ∷ xs) (y ∷ ys) = ground (arith, same_comm xs ys)

abbrev pub Dict : Type 0 → Type 0
Dict A = List (Name × A)

module _ {A : Type 0} where
  unfoldable pub find : Name → Dict A → Option A
  find k [] = none
  find k ((j, a) ∷ t) = if same j k then some a else find k t

  -- `m[k] = a`: in the place of the old value, or before the first key that is greater.
  unfoldable pub assign : Name → A → Dict A → Dict A
  assign k a [] = (k, a) ∷ []
  assign k a ((j, b) ∷ t) =
      let rest = assign k a t in
      if same j k then (k, a) ∷ t else if less k j then (k, a) ∷ (j, b) ∷ t else (j, b) ∷ rest

  -- A write through an iterator at the key.
  unfoldable pub update : Name → (A → A) → Dict A → Dict A
  update k f [] = []
  update k f ((j, a) ∷ t) = if same j k then (j, f a) ∷ t else (j, a) ∷ update k f t

  pub find-assign :
      (i k : Name) (a : A) (t : Dict A)
      → find i (assign k a t) ≡ (if same k i then some a else find i t)
  unfolding find assign
  find-assign i k a [] = refl
  find-assign i k a ((j, b) ∷ t) = ground (
    arith,
    find-assign i k a t,
    eq_of_same j k,
    eq_of_same k i,
    eq_of_same j i,
    same_self i,
    same_self k,
    same_self j,
  )
