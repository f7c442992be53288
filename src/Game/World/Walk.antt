-- ===== src/Game/World/Walk.antt =====
-- `IsGridCanWalk` of projects/logic_svr/data_cache.cpp on the map and beside it.
use qclib.Base.{
  ℕ, zero, suc, ◌+◌, ◌*◌, ◌%◌, ◌≤◌, ◌<◌, ◌≡◌, refl, ap, ◌∙◌, subst, arith, Bool, true, ◌&&◌, List,
  [], ◌∷◌, ◌++◌, none, some, ◌==◌, ◌⊎◌, inl, inr, get_elem?, length, Option-cases, Bool-cases,
}
use qclib.Base.Int.{pos, ◌+ℤ◌, ◌*ℤ◌, ltb_ℤ}
use qclib.Aoi.Grid.{cell}
use qclib.Table.{find}
use mathlib.Core.Option.{some-injective}
use qclib.Game.World.{GameMap, World, get_grid_info, is_grid_can_walk}

grid_index : (w x y : ℕ) → pos y *ℤ pos w +ℤ pos x ≡ pos (y * w + x)
unfolding ◌+ℤ◌ ◌*ℤ◌
grid_index w x y = grind arith

get_elem?-found {ℓ} :
    {A : Type ℓ} (xs : List A) (i : ℕ) → i < length xs → (a : A) × (get_elem? xs i ≡ some a)
get_elem?-found [] i h = elim h [ ]
get_elem?-found (x ∷ xs) zero h = (x, refl)
get_elem?-found (x ∷ xs) (suc i) h = get_elem?-found xs i (omega arith)

-- The rows of a map, one behind the other.
abbrev pub flattened : List (List ℕ) → List ℕ
flattened [] = []
flattened (row ∷ rows) = row ++ flattened rows

abbrev pub AllOf : ℕ → List (List ℕ) → Type 0
AllOf n [] = Unit {0}
AllOf n (row ∷ rows) = (length row ≡ n) × AllOf n rows

-- Whether one can walk on the point `x` of row `y`; beside the rows one can.
abbrev pub can_walk : List (List ℕ) → ℕ → ℕ → Bool
can_walk rows x y = elim (get_elem? rows y) [
  | none ↦ true
  | some row ↦ elim (get_elem? row x) [ none ↦ true | some grid ↦ grid % 2 == 0 ]
]

get_elem?-front : (xs ys : List ℕ) (i : ℕ) → i < length xs → get_elem? (xs ++ ys) i ≡ get_elem? xs i
get_elem?-front [] ys i h = elim h [ ]
get_elem?-front (x ∷ xs) ys zero h = refl
get_elem?-front (x ∷ xs) ys (suc i) h = get_elem?-front xs ys i (omega arith)

get_elem?-behind : (xs ys : List ℕ) (i : ℕ) → get_elem? (xs ++ ys) (length xs + i) ≡ get_elem? ys i
get_elem?-behind [] ys i =
    let same : length {A = ℕ} [] + i ≡ i = omega arith in ap (get_elem? ys) same
get_elem?-behind (x ∷ xs) ys i =
    let same : length (x ∷ xs) + i ≡ suc (length xs + i) = omega arith in
    ap (get_elem? (x ∷ (xs ++ ys))) same ∙ get_elem?-behind xs ys i

get_elem?-beyond {ℓ} : {A : Type ℓ} (xs : List A) (i : ℕ) → length xs ≤ i → get_elem? xs i ≡ none
get_elem?-beyond [] i h = refl
get_elem?-beyond (x ∷ xs) zero h = absurd (omega arith)
get_elem?-beyond (x ∷ xs) (suc i) h = get_elem?-beyond xs i (omega arith)

-- The element of a row stands behind the rows before it.
get_elem?-flattened :
    (rows : List (List ℕ)) (n x y : ℕ)
    → AllOf n rows
    → x < n
    → y < length rows
    → (grid : ℕ) × (row : List ℕ) × (get_elem? rows y ≡ some row)
      × (get_elem? row x ≡ some grid)
      × (get_elem? (flattened rows) (y * n + x) ≡ some grid)
get_elem?-flattened [] n x y a h k = elim k [ ]
get_elem?-flattened (row ∷ rows) n x zero (l, a) h k =
    let (grid, found) = get_elem?-found row x (omega arith) in
    let first : 0 * n + x ≡ x = omega arith in
    (
      grid,
      row,
      refl,
      found,
      ap (get_elem? (row ++ flattened rows)) first
          ∙ get_elem?-front row (flattened rows) x (omega arith)
          ∙ found,
    )
get_elem?-flattened (row ∷ rows) n x (suc y) (l, a) h k =
    let (grid, r, found, there, flat) = get_elem?-flattened rows n x y a h (omega arith) in
    let next : suc y * n + x ≡ length row + (y * n + x) = grind arith in
    (
      grid,
      r,
      found,
      there,
      ap (get_elem? (row ++ flattened rows)) next
          ∙ get_elem?-behind row (flattened rows) (y * n + x)
          ∙ flat,
    )

get_elem?-short :
    (rows : List (List ℕ)) (n x y : ℕ)
    → AllOf n rows
    → n ≤ x
    → (row : List ℕ) → get_elem? rows y ≡ some row
    → get_elem? row x ≡ none
get_elem?-short [] n x y a h row e = cc
get_elem?-short (r ∷ rows) n x zero (l, a) h row e =
    subst (λ (q : List ℕ). get_elem? q x ≡ none) (some-injective _ _ e)
      (get_elem?-beyond r x (omega arith))
get_elem?-short (r ∷ rows) n x (suc y) (l, a) h row e = get_elem?-short rows n x y a h row e

beside :
    (rows : List (List ℕ)) (n x y : ℕ)
    → AllOf n rows
    → (n ≤ x) ⊎ (length rows ≤ y)
    → can_walk rows x y ≡ true
beside rows n x y a (inr low) = rw (get_elem?-beyond rows y low, can_walk) refl
beside rows n x y a (inl right) = elim (Option-cases (get_elem? rows y)) [
  | inl e ↦ rw (e, can_walk) refl
  | inr (row, e) ↦ rw (e, can_walk, get_elem?-short rows n x y a right row e) refl
]

inside :
    (w : World) (mapid x y : ℕ) (m : GameMap) (rows : List (List ℕ)) (grid : ℕ) (row : List ℕ)
    → find mapid w.maps ≡ some m
    → ltb_ℤ (pos x) (pos m.map_width) && ltb_ℤ (pos y) (pos m.map_height) ≡ true
    → get_elem? rows y ≡ some row
    → get_elem? row x ≡ some grid
    → get_elem? m.map_grid_info (y * m.map_width + x) ≡ some grid
    → is_grid_can_walk w mapid (cell x y) ≡ some (can_walk rows x y)
unfolding is_grid_can_walk get_grid_info
inside w mapid x y m rows grid row f within found there stored =
    rw (f, is_grid_can_walk, get_grid_info)
      (rw (within, grid_index m.map_width x y, stored) (rw (found, there, can_walk) refl))

-- On a known map whose grids are rows as wide as the map, as many as it is high, for a point that is
-- neither left of the map nor above it: `IsGridCanWalk` has a result, the answer of the grid at the
-- point, or that one can walk, where the point is to the right of the map or below it.
pub is_grid_can_walk-rows :
    (w : World) (mapid x y : ℕ) (m : GameMap) (rows : List (List ℕ))
    → find mapid w.maps ≡ some m
    → m.map_grid_info ≡ flattened rows
    → AllOf m.map_width rows
    → length rows ≡ m.map_height
    → is_grid_can_walk w mapid (cell x y) ≡ some (can_walk rows x y)
unfolding is_grid_can_walk get_grid_info
is_grid_can_walk-rows w mapid x y m rows f g a l =
    elim (Bool-cases (ltb_ℤ (pos x) (pos m.map_width) && ltb_ℤ (pos y) (pos m.map_height))) [
      | inl within ↦
          let h : x < m.map_width = ground arith in
          let k : y < length rows = ground (arith, l) in
          let (grid, row, found, there, flat) = get_elem?-flattened rows m.map_width x y a h k in
          let stored : get_elem? m.map_grid_info (y * m.map_width + x) ≡ some grid =
            ap (λ (q : List ℕ). get_elem? q (y * m.map_width + x)) g ∙ flat in
          inside w mapid x y m rows grid row f within found there stored
      | inr outside ↦
          let far : (m.map_width ≤ x) ⊎ (length rows ≤ y) = ground (arith, l) in
          rw (f, is_grid_can_walk, get_grid_info)
            (rw (outside, beside rows m.map_width x y a far) refl)
    ]
