-- ===== src/Table.antt =====
-- `hash_map` as the tables of projects/logic_svr/data_cache.h use it: the pairs of a key and a value.
use qclib.Base.{
  ℕ, ◌≡◌, refl, sym, ap, ◌∙◌, arith, Bool, true, false, List, [], ◌∷◌, Option, none, some, ◌==◌,
  ==_iff, if◌then◌else◌, Bool-cases, inl, inr,
}

abbrev pub Table {ℓ} : Type ℓ → Type ℓ
Table A = List (ℕ × A)

module _ {A : Type 0} where
  unfoldable pub find : ℕ → Table A → Option A
  find k [] = none
  find k ((j, a) ∷ t) = if j == k then some a else find k t

  abbrev pub is_some : Option A → Bool
  is_some none = false
  is_some (some a) = true

  -- `insert`: a key that is there keeps its value.
  unfoldable pub insert_new : ℕ → A → Table A → Table A
  insert_new k a t = elim (find k t) [ none ↦ (k, a) ∷ t | some _ ↦ t ]

  -- `erase` of a key.
  unfoldable pub remove : ℕ → Table A → Table A
  remove k [] = []
  remove k ((j, a) ∷ t) = if j == k then remove k t else (j, a) ∷ remove k t

  -- A write through the iterator of a key.
  unfoldable pub update : ℕ → (A → A) → Table A → Table A
  update k f [] = []
  update k f ((j, a) ∷ t) = if j == k then (j, f a) ∷ update k f t else (j, a) ∷ update k f t

  abbrev pub map_some : (A → A) → Option A → Option A
  map_some f none = none
  map_some f (some a) = some (f a)

  pub find-insert_new :
      (i k : ℕ) (a : A) (t : Table A)
      → find k t ≡ none
      → find i (insert_new k a t) ≡ (if k == i then some a else find i t)
  unfolding find insert_new
  find-insert_new i k a t h = rw (h, insert_new) refl

  pub insert_new_old : (k : ℕ) (a b : A) (t : Table A) → find k t ≡ some b → insert_new k a t ≡ t
  unfolding insert_new
  insert_new_old k a b t h = rw (h, insert_new) refl

  pub find-remove :
      (i k : ℕ) (t : Table A) → find i (remove k t) ≡ (if k == i then none else find i t)
  unfolding find remove
  find-remove i k [] = ground arith
  find-remove i k ((j, a) ∷ t) = ground (arith, find-remove i k t)

  pub find-update :
      (i k : ℕ) (f : A → A) (t : Table A)
      → find i (update k f t) ≡ (if k == i then map_some f (find i t) else find i t)
  unfolding find update
  find-update i k f [] = ground arith
  find-update i k f ((j, a) ∷ t) = ground (arith, find-update i k f t)

  -- A key that was not there is added and removed.
  pub remove-insert_new :
      (i k : ℕ) (a : A) (t : Table A)
      → find k t ≡ none
      → find i (remove k (insert_new k a t)) ≡ find i t
  remove-insert_new i k a t h = elim (Bool-cases (k == i)) [
    | inl e ↦
        find-remove i k (insert_new k a t)
        ∙ rw e (sym h ∙ ap (λ (j : ℕ). find j t) ((==_iff k i).0 e))
    | inr e ↦ find-remove i k (insert_new k a t) ∙ rw e (find-insert_new i k a t h ∙ rw e refl)
  ]

  pub find-insert_new_self :
      (k : ℕ) (a : A) (t : Table A) → find k t ≡ none → find k (insert_new k a t) ≡ some a
  find-insert_new_self k a t h =
      let same : k == k ≡ true = ground arith in find-insert_new k k a t h ∙ rw same refl

  -- The entry of a key set, whether or not there was one.
  unfoldable pub put : ℕ → A → Table A → Table A
  put k a t = (k, a) ∷ remove k t

  pub find-put :
      (i k : ℕ) (a : A) (t : Table A) → find i (put k a t) ≡ (if k == i then some a else find i t)
  unfolding find put
  find-put i k a t = ground (arith, find-remove i k t)
