-- ===== src/Aoi/Seen.antt =====
-- What the towers show: who stands at and who watches each, and how a visit of a tower by the loops of
-- tower_aoi.cpp changes it.
use qclib.Base.{
  ℕ, zero, suc, ◌+◌, ◌*◌, ◌<◌, ◌≡◌, refl, ap, arith, Bool, false, not, ◌&&◌, ◌||◌, List, [], ◌∷◌,
  Option, none, some, length, ◌==◌, if◌then◌else◌, get_or, set, get_elem?, get_or-set_self,
  get_or-set_ne, Bool-cases, inl, inr,
}
use qclib.Base.Int.{pos}
use qclib.ObjectSet.{ObjectSet, contains, insert, erase}
use qclib.ObjectSet.Laws.{
  IsSorted, contains-insert, contains-erase, insert-IsSorted, erase-IsSorted,
}
use qclib.Aoi.{Tower, TowerAoi}
use qclib.Aoi.Grid.{cell, IsGrid, index_in}

abbrev pub blank : Tower
blank = record { left_up = cell 0 0; id = pos 0; objs = []; watchers = [] }

-- Where each object stands, as a tower of the grid.
abbrev pub Places : Type 0
Places = ℕ → Option (ℕ × ℕ)

abbrev pub stands : Option (ℕ × ℕ) → ℕ → ℕ → Bool
stands none x y = false
stands (some (px, py)) x y = px == x && py == y

-- Who watches which tower.
abbrev pub Watch : Type 0
Watch = ℕ → ℕ → ℕ → Bool

abbrev pub at : TowerAoi → List Tower → ℕ → ℕ → Tower
at a ts x y = get_or ts (y * a.tower_yn + x) blank

pub record Shows (a : TowerAoi) (ts : List Tower) (place : Places) (w : Watch) : Type 0 where
  pub long : length ts ≡ a.tower_xn * a.tower_yn
  pub objs_at :
      (k x y : ℕ)
      → x < a.tower_xn
      → y < a.tower_yn
      → contains k (at a ts x y).objs ≡ stands (place k) x y
  pub watchers_at :
      (k x y : ℕ) → x < a.tower_xn → y < a.tower_yn → contains k (at a ts x y).watchers ≡ w k x y
  pub sorted :
      (x y : ℕ)
      → x < a.tower_xn
      → y < a.tower_yn
      → IsSorted (at a ts x y).objs × IsSorted (at a ts x y).watchers

-- A change of a set that does `g k` to the membership of each `k`.
pub record Acts (f : ObjectSet → ObjectSet) (g : ℕ → Bool → Bool) : Type 0 where
  pub acts : (k : ℕ) (s : ObjectSet) → contains k (f s) ≡ g k (contains k s)
  pub keeps : (s : ObjectSet) → IsSorted s → IsSorted (f s)

pub insert-Acts : (id : ℕ) → Acts (insert id) (λ k b. id == k || b)
insert-Acts id = record {
  acts = λ k s. contains-insert k id s;
  keeps = λ s h. insert-IsSorted id s h;
}

pub erase-Acts : (id : ℕ) → Acts (erase id) (λ k b. not (id == k) && b)
erase-Acts id = record { acts = λ k s. contains-erase k id s; keeps = λ s h. erase-IsSorted id s h }

row_lt : (n x y x' y' : ℕ) → x < n → y < y' → y * n + x < y' * n + x'
row_lt n x y x' y' h k = grind arith

-- Different towers of the grid have different indexes.
pub index_inj : (n x y x' y' : ℕ) → x < n → x' < n → y * n + x ≡ y' * n + x' → (x ≡ x') × (y ≡ y')
index_inj n x y x' y' h k e =
    let same : y ≡ y' = grind (arith, row_lt n x y x' y' h, row_lt n x' y' x y k) in
    (omega (arith, e, ap (λ (t : ℕ). t * n) same), same)

pub get_elem?-at :
    (ts : List Tower) (i : ℕ) → i < length ts → get_elem? ts i ≡ some (get_or ts i blank)
get_elem?-at [] i h = elim h [ ]
get_elem?-at (t ∷ ts) zero h = refl
get_elem?-at (t ∷ ts) (suc i) h = get_elem?-at ts i (omega arith)

pub in_range :
    {a : TowerAoi} (ts : List Tower) (x y : ℕ)
    → IsGrid a
    → length ts ≡ a.tower_xn * a.tower_yn
    → x < a.tower_xn
    → y < a.tower_yn
    → y * a.tower_yn + x < length ts
in_range {a} ts x y g len h k =
    rw (len, g.square) (index_in a.tower_yn x y (omega (arith, g.square)) k)

-- What a write of a tower of the grid leaves at every tower.
pub at-set :
    {a : TowerAoi} (ts : List Tower) (t : Tower) (x y x' y' : ℕ)
    → IsGrid a
    → length ts ≡ a.tower_xn * a.tower_yn
    → x < a.tower_xn
    → y < a.tower_yn
    → x' < a.tower_xn
    → y' < a.tower_yn
    → at a (set ts (y * a.tower_yn + x) t) x' y' ≡ (if x == x' && y == y' then t else at a ts x' y')
at-set {a} ts t x y x' y' g len hx hy hx' hy' = elim (Bool-cases (x == x' && y == y')) [
  | inl e ↦
      let ex : x ≡ x' = ground arith in
      let ey : y ≡ y' = ground arith in
      rw (e, ← ex, ← ey) (get_or-set_self ts _ t blank (in_range ts x y g len hx hy))
  | inr e ↦ rw e (
      get_or-set_ne ts t blank (λ q.
        differ e
          (index_inj a.tower_yn x y x' y' (omega (arith, g.square)) (omega (arith, g.square)) q)))
]
  where
    differ : x == x' && y == y' ≡ false → (x ≡ x') × (y ≡ y') → ⊥
    differ e (p, q) = ground arith
