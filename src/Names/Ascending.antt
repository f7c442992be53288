-- ===== src/Names/Ascending.antt =====
-- The order of the keys in a `std::map` of names.
use qclib.Base.{◌≡◌, refl, subst, ◌∙◌, arith, true, false, [], ◌∷◌, Bool-cases, inl, inr}
use qclib.Names.{Name, Dict, same, less, assign, same_comm, eq_of_same}

less_trans : (a b c : Name) → less a b ≡ true → less b c ≡ true → less a c ≡ true
unfolding less
less_trans [] [] c h k = cc
less_trans [] (y ∷ ys) [] h k = cc
less_trans [] (y ∷ ys) (z ∷ zs) h k = refl
less_trans (x ∷ xs) [] c h k = cc
less_trans (x ∷ xs) (y ∷ ys) [] h k = cc
less_trans (x ∷ xs) (y ∷ ys) (z ∷ zs) h k = ground (arith, less_trans xs ys zs)

less_ne : (a b : Name) → less a b ≡ true → same a b ≡ false
unfolding less same
less_ne [] [] h = cc
less_ne [] (y ∷ ys) h = refl
less_ne (x ∷ xs) [] h = refl
less_ne (x ∷ xs) (y ∷ ys) h = ground (arith, less_ne xs ys)

less_total : (a b : Name) → less a b ≡ false → same a b ≡ false → less b a ≡ true
unfolding less same
less_total [] [] h k = cc
less_total [] (y ∷ ys) h k = cc
less_total (x ∷ xs) [] h k = refl
less_total (x ∷ xs) (y ∷ ys) h k = ground (arith, less_total xs ys)

module _ {A : Type 0} where
  -- No entry has the key.
  abbrev pub Without : Name → Dict A → Type 0
  Without k [] = Unit {0}
  Without k ((j, a) ∷ t) = (same j k ≡ false) × Without k t

  -- No two entries have one key.
  abbrev pub Distinct : Dict A → Type 0
  Distinct [] = Unit {0}
  Distinct ((k, a) ∷ t) = Without k t × Distinct t

  -- All keys are greater than `k`.
  abbrev pub Above : Name → Dict A → Type 0
  Above k [] = Unit {0}
  Above k ((j, a) ∷ t) = (less k j ≡ true) × Above k t

  abbrev pub Ascends : Dict A → Type 0
  Ascends [] = Unit {0}
  Ascends ((k, a) ∷ t) = Above k t × Ascends t

  Above-Without : (k : Name) (t : Dict A) → Above k t → Without k t
  Above-Without k [] h = tt
  Above-Without k ((j, a) ∷ t) (h, hs) = (same_comm j k ∙ less_ne k j h, Above-Without k t hs)

  pub Ascends-Distinct : (t : Dict A) → Ascends t → Distinct t
  Ascends-Distinct [] h = tt
  Ascends-Distinct ((k, a) ∷ t) (h, hs) = (Above-Without k t h, Ascends-Distinct t hs)

  Above-trans : (i k : Name) (t : Dict A) → less i k ≡ true → Above k t → Above i t
  Above-trans i k [] h hs = tt
  Above-trans i k ((j, a) ∷ t) h (g, gs) = (less_trans i k j h g, Above-trans i k t h gs)

  Above-assign :
      (i k : Name) (a : A) (t : Dict A) → less i k ≡ true → Above i t → Above i (assign k a t)
  unfolding assign
  Above-assign i k a [] h hs = (h, tt)
  Above-assign i k a ((j, b) ∷ t) h (g, gs) = elim (Bool-cases (same j k)) [
    | inl e ↦ rw e (h, gs)
    | inr e ↦ elim (Bool-cases (less k j)) [
      | inl f ↦ rw (e, f) (h, (g, gs))
      | inr f ↦ rw (e, f) (g, Above-assign i k a t h gs)
    ]
  ]

  pub assign-Ascends : (k : Name) (a : A) (t : Dict A) → Ascends t → Ascends (assign k a t)
  unfolding assign
  assign-Ascends k a [] h = (tt, tt)
  assign-Ascends k a ((j, b) ∷ t) (h, hs) = elim (Bool-cases (same j k)) [
    | inl e ↦ rw e (subst (λ (n : Name). Above n t) (eq_of_same j k e) h, hs)
    | inr e ↦ elim (Bool-cases (less k j)) [
      | inl f ↦ rw (e, f) ((f, Above-trans k j t f h), (h, hs))
      | inr f ↦
          let greater : less j k ≡ true = less_total k j f (same_comm k j ∙ e) in
          rw (e, f) (Above-assign j k a t greater h, assign-Ascends k a t hs)
    ]
  ]
