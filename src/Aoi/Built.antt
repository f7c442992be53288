-- ===== src/Aoi/Built.antt =====
-- A `TowerAoi` as its constructor (tower_aoi.cpp) leaves it.
use native.Mathlib.Nat.{div-mul-le_self, lt-div-mul-add}
use qclib.Base.{
  ℕ, zero, suc, ◌+◌, ◌-◌, ◌*◌, ◌/◌, ◌≤◌, ◌<◌, ◌≡◌, refl, arith, Bool, false, ◌||◌, List, [], none,
  some, leb, ◌==◌, get_or, replicate, length-replicate, Bool-cases, inl, inr,
}
use qclib.Base.Int.{ℤ}
use qclib.ObjectSet.{contains}
use qclib.Aoi.{Tower, TowerAoi}
use qclib.Aoi.Grid.{IsGrid}
use qclib.Aoi.Seen.{blank, at, Shows}
use qclib.Aoi.Track.{watch_of, Tracks, Tracks-towers}
use qclib.Aoi.Init.{sized, make, IsLabelled, Fresh, init_rows_lem}

-- A length cut into parts of length `t`, rounded up.
ceil_covers : (n t : ℕ) → 0 < t → n ≤ (n + t - 1) / t * t
ceil_covers n t h = omega (arith, lt-div-mul-add {a = n + t - 1} h)

ceil_top : (n t : ℕ) → 0 < t → (n + t - 1) / t * t < n + t
ceil_top n t h = omega (arith, div-mul-le_self (n + t - 1) t)

ceil_le : (n t : ℕ) → 0 < t → (n + t - 1) / t ≤ n
ceil_le n t h = elim (Bool-cases (leb ((n + t - 1) / t) n)) [
  | inl e ↦ ground arith
  | inr e ↦ grind (arith, ceil_top n t h)
]

blank_rows :
    (n i : ℕ) (t : Tower)
    → t.objs ≡ []
    → t.watchers ≡ []
    → ((get_or (replicate n t) i blank).objs ≡ [])
      × ((get_or (replicate n t) i blank).watchers ≡ [])
blank_rows zero i t h k = (refl, refl)
blank_rows (suc n) zero t h k = (h, k)
blank_rows (suc n) (suc i) t h k = blank_rows n i t h k

Fresh-Shows :
    {a : TowerAoi} {ts : List Tower} {done : ℕ → ℕ → Bool}
    → Fresh a ts done
    → Shows a ts (λ _. none) (watch_of a (λ _. none) (λ _. false))
unfolding contains
Fresh-Shows f = record {
  long = f.long;
  objs_at = λ k x y h i. rw (f.no_objs x y h i);
  watchers_at = λ k x y h i. rw (f.no_watchers x y h i);
  sorted = λ x y h i. (rw (f.no_objs x y h i) tt, rw (f.no_watchers x y h i) tt);
}

module _ (w h tw th vw vh mapid : ℕ) (blank_id : ℤ) (wide : 0 < tw) (high : 0 < th) where
  sized-IsGrid :
      (w + tw - 1) / tw ≡ (h + th - 1) / th
      → w + tw + vw + 1 < 32768
      → h + th + vh + 1 < 32768
      → IsGrid (sized w h tw th vw vh mapid blank_id)
  unfolding sized
  sized-IsGrid e fx fy = record {
    square = e;
    wide = wide;
    high = high;
    covers_x = ceil_covers w tw wide;
    covers_y = ceil_covers h th high;
    small_x = omega (arith, ceil_le w tw wide, ceil_le vw tw wide);
    small_y = omega (arith, ceil_le h th high, ceil_le vh th high);
    sized = length-replicate _ _;
  }

  -- If the sizes of a tower are positive, both sides of the map have as many towers and the sizes fit
  -- the coordinates, the constructor succeeds: nothing stands or watches anywhere, and each tower has
  -- its corner and its id.
  pub make_lem :
      (w + tw - 1) / tw ≡ (h + th - 1) / th
      → w + tw + vw + 1 < 32768
      → h + th + vh + 1 < 32768
      → (ts : List Tower) × (make w h tw th vw vh mapid blank_id
          ≡ some (record (sized w h tw th vw vh mapid blank_id) { towers = ts }))
        × Tracks
            (record (sized w h tw th vw vh mapid blank_id) { towers = ts })
            (λ _. none)
            (λ _. false)
        × ((x y : ℕ)
            → x < (w + tw - 1) / tw
            → y < (h + th - 1) / th
            → IsLabelled
                (sized w h tw th vw vh mapid blank_id)
                x
                y
                (at (sized w h tw th vw vh mapid blank_id) ts x y))
  unfolding make sized
  make_lem e fx fy =
      let g = sized-IsGrid e fx fy in
      let b = sized w h tw th vw vh mapid blank_id in
      let f0 : Fresh b b.towers (λ _ _. false) = record {
        long = g.sized;
        no_objs = λ x y _ _. (blank_rows _ (y * b.tower_yn + x) _ refl refl).0;
        no_watchers = λ x y _ _. (blank_rows _ (y * b.tower_yn + x) _ refl refl).1;
        labels = λ x y _ _ d. ground arith;
      } in
      let (ts, r, f) =
        init_rows_lem g (omega (arith, ceil_top w tw wide)) (omega (arith, ceil_top h th high))
          b.tower_yn 0 b.towers (λ _ _. false) (omega arith) f0 in
      let nz : tw == 0 || th == 0 ≡ false = ground arith in
      (
        ts,
        rw nz (rw r refl),
        Tracks-towers ts g (Fresh-Shows f),
        λ x y i k. f.labels x y i k (ground arith),
      )
