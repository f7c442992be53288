-- ===== src/Game/Views/Added.antt =====
-- `SendAddViewPlayers` of projects/logic_svr/map_module.cpp.
use qclib.Base.{
  ℕ, suc, ◌≡◌, ◌≤◌, refl, sym, subst, ◌∙◌, arith, Bool, true, false, not, ◌&&◌, ◌||◌, [], ◌∷◌,
  Option, none, some, ltb, leb, ◌==◌, ==_iff, length, Bool-cases, inl, inr,
}
use qclib.Table.{find, is_some}
use qclib.ObjectSet.{ObjectSet, contains, insert}
use qclib.ObjectSet.Laws.{contains-insert, insert-IsSorted}
use qclib.Game.{
  add_object, get_player_map_data, PlayerMapData, Game, PlayerData, view_set, set_view_set, send,
  have_player_data,
}
use qclib.Game.Views.{max_view_count, add_to_views, add_one_view, send_add_view_players}
use qclib.Game.Views.Pairs.{
  IsMutual, Paired, Paired-contains, Paired-IsMutual, written, view_set-set, view_set-send,
}

length-insert : (k : ℕ) (s : ObjectSet) → length (insert k s) ≤ suc (length s)
unfolding insert
length-insert k [] = omega arith
length-insert k (x ∷ s) = ground (arith, length-insert k s)

length-insert_up : (k : ℕ) (s : ObjectSet) → length s ≤ length (insert k s)
unfolding insert
length-insert_up k [] = omega arith
length-insert_up k (x ∷ s) = ground (arith, length-insert_up k s)

map_data_some :
    (g : Game) (k : ℕ)
    → have_player_data g k ≡ true
    → (d : PlayerMapData) × (get_player_map_data g k ≡ some d)
unfolding have_player_data get_player_map_data
map_data_some g k h = of (find k g.players) h
  where
    of :
        (p : Option PlayerData)
        → is_some p ≡ true
        → (d : PlayerMapData) × ((elim p [ none ↦ none | some q ↦ some q.map_data ]) ≡ some d)
    of none h = ground (arith, h)
    of (some q) h = (q.map_data, refl)

map_data_none : (g : Game) (k : ℕ) → have_player_data g k ≡ false → get_player_map_data g k ≡ none
unfolding have_player_data get_player_map_data
map_data_none g k h = of (find k g.players) h
  where
    of :
        (p : Option PlayerData)
        → is_some p ≡ false
        → (elim p [ none ↦ none | some q ↦ some q.map_data ]) ≡ none
    of none h = refl
    of (some q) h = ground (arith, h)

module _ (g : Game) (user obj : ℕ) (mapdata : PlayerMapData) (temp : ℕ) (m : IsMutual g)
    (have_obj : have_player_data g obj ≡ true) (differ : obj == temp ≡ false) where
  -- There is room in both views, and he is a player.
  abbrev taken : Bool
  taken =
      (ltb (length (view_set g obj)) max_view_count && not (contains temp (view_set g obj)))
      && (have_player_data g temp && ltb (length (view_set g temp)) max_view_count)

  add_one_view-Paired :
      taken ≡ true
      → Paired g
          (add_one_view g user obj mapdata temp)
          obj
          temp
          (insert temp (view_set g obj))
          (insert obj (view_set g temp))
  unfolding add_one_view add_to_views
  add_one_view-Paired h =
      let mine = insert temp (view_set g obj) in
      let a : ltb (length (view_set g obj)) max_view_count && not (contains temp (view_set g obj))
          ≡ true =
        ground (arith, h) in
      let have_temp : have_player_data g temp ≡ true = ground (arith, h) in
      let b : ltb (length (view_set g temp)) max_view_count ≡ true = ground (arith, h) in
      let (d, e) = map_data_some g temp have_temp in
      let n1 = add_object user temp d.location in
      let his_same : view_set (send (set_view_set g obj mine) n1) temp ≡ view_set g temp =
        view_set-send (set_view_set g obj mine) n1 temp
        ∙ ground (arith, view_set-set g obj temp mine have_obj) in
      rw (a, e, b, m.not_self obj, his_same, add_one_view, add_to_views)
        (written g obj temp mine _ _ _ have_obj have_temp differ)

  add_one_view-same : taken ≡ false → add_one_view g user obj mapdata temp ≡ g
  unfolding add_one_view add_to_views
  add_one_view-same h =
      elim (Bool-cases
        (ltb (length (view_set g obj)) max_view_count && not (contains temp (view_set g obj)))) [
          | inr a ↦ rw (a, add_one_view) refl
          | inl a ↦ elim (Bool-cases (have_player_data g temp)) [
            | inr b ↦ rw (a, map_data_none g temp b, add_one_view) refl
            | inl b ↦
                let (d, e) = map_data_some g temp b in
                let c : ltb (length (view_set g temp)) max_view_count ≡ false = ground (arith, h) in
                rw (a, e, c, add_one_view, add_to_views) refl
          ]
        ]

  add_one_view-IsMutual : IsMutual (add_one_view g user obj mapdata temp)
  add_one_view-IsMutual = elim (Bool-cases taken) [
    | inr h ↦ rw (add_one_view-same h) m
    | inl h ↦
        Paired-IsMutual (λ _. true) m (add_one_view-Paired h) differ
          (λ k. ground (arith, contains-insert k temp (view_set g obj)))
          (λ k. ground (arith, contains-insert k obj (view_set g temp)))
          (ground (arith, length-insert temp (view_set g obj), h))
          (ground (arith, length-insert obj (view_set g temp), h))
          (insert-IsSorted temp _ (m.sorted obj)) (insert-IsSorted obj _ (m.sorted temp))
  ]

  add_one_view-contains :
      (i j : ℕ)
      → contains i (view_set (add_one_view g user obj mapdata temp) j)
        ≡ contains i (view_set g j) || taken && ((obj == j && temp == i) || (temp == j && obj == i))
  add_one_view-contains i j = elim (Bool-cases taken) [
    | inr h ↦ rw (add_one_view-same h, h) (ground arith)
    | inl h ↦
        Paired-contains (λ _. true) i j (add_one_view-Paired h) differ
          (λ k. ground (arith, contains-insert k temp (view_set g obj)))
          (λ k. ground (arith, contains-insert k obj (view_set g temp)))
        ∙ rw h (ground arith)
  ]

  have-add_one_view :
      (k : ℕ) → have_player_data (add_one_view g user obj mapdata temp) k ≡ have_player_data g k
  have-add_one_view k = elim (Bool-cases taken) [
    | inr h ↦ rw (add_one_view-same h) refl
    | inl h ↦ (add_one_view-Paired h).haves k
  ]

  length-add_one_view :
      (k : ℕ) → length (view_set g k) ≤ length (view_set (add_one_view g user obj mapdata temp) k)
  length-add_one_view k = elim (Bool-cases taken) [
    | inr h ↦ rw (add_one_view-same h) (omega arith)
    | inl h ↦ ground (
      arith,
      (add_one_view-Paired h).views k,
      length-insert_up temp (view_set g obj),
      length-insert_up obj (view_set g temp),
    )
  ]

  add_one_view-all :
      have_player_data g temp ≡ true
      → contains temp (view_set (add_one_view g user obj mapdata temp) obj)
          || (leb max_view_count (length (view_set g obj))
              || leb max_view_count (length (view_set g temp)))
        ≡ true
  add_one_view-all h = ground (arith, add_one_view-contains temp obj, h)

-- A pair of me and one of the listed players.
abbrev pub listed : ℕ → ObjectSet → ℕ → ℕ → Bool
listed obj temps i j = (obj == j && contains i temps) || (obj == i && contains j temps)

abbrev pub is_full_view : Game → ℕ → Bool
is_full_view g k = leb max_view_count (length (view_set g k))

pub record Grown (g g' : Game) (obj : ℕ) (temps : ObjectSet) : Type 0 where
  pub mutual_kept : IsMutual g'
  pub haves : (k : ℕ) → have_player_data g' k ≡ have_player_data g k
  pub kept : (i j : ℕ) → contains i (view_set g j) ≡ true → contains i (view_set g' j) ≡ true
  pub only :
      (i j : ℕ)
      → contains i (view_set g' j) ≡ true
      → contains i (view_set g j) || listed obj temps i j ≡ true
  pub longer : (k : ℕ) → length (view_set g k) ≤ length (view_set g' k)
  pub all :
      (k : ℕ)
      → contains k temps ≡ true
      → have_player_data g k ≡ true
      → contains k (view_set g' obj) || (is_full_view g' obj || is_full_view g' k) ≡ true

-- Where the views of players are mutual, `SendAddViewPlayers` for a player that is not in the list keeps
-- them mutual and within `MAX_VIEW_COUNT`; nobody leaves a view, only pairs of me and a listed player
-- come to see each other, and a listed player whom I do not see afterwards is missing, or my view or his
-- is full.
pub send_add_view_players-Grown :
    (g : Game) (user obj : ℕ) (temps : ObjectSet) (mapdata : PlayerMapData)
    → IsMutual g
    → have_player_data g obj ≡ true
    → contains obj temps ≡ false
    → Grown g (send_add_view_players g user obj temps mapdata) obj temps
unfolding send_add_view_players contains
send_add_view_players-Grown g user obj [] mapdata m h n = record {
  mutual_kept = m;
  haves = λ k. refl;
  kept = λ i j c. c;
  only = λ i j c. ground arith;
  longer = λ k. omega arith;
  all = λ k c _. ground (arith, c);
}
send_add_view_players-Grown g user obj (temp ∷ temps) mapdata m h n =
    let differ : obj == temp ≡ false = ground (arith, n) in
    let g1 = add_one_view g user obj mapdata temp in
    let m1 = add_one_view-IsMutual g user obj mapdata temp m h differ in
    let v =
      send_add_view_players-Grown g1 user obj temps mapdata m1
        (have-add_one_view g user obj mapdata temp m h differ obj ∙ h) (ground (arith, n)) in
    record {
      mutual_kept = v.mutual_kept;
      haves = λ k. v.haves k ∙ have-add_one_view g user obj mapdata temp m h differ k;
      kept = λ i j c.
          v.kept i j
            (add_one_view-contains g user obj mapdata temp m h differ i j ∙ ground (arith, c));
      only = λ i j c.
          ground
            (arith, v.only i j c, add_one_view-contains g user obj mapdata temp m h differ i j);
      longer =
          λ k. omega (arith, v.longer k, length-add_one_view g user obj mapdata temp m h differ k);
      all = λ k c d. elim (Bool-cases (temp == k)) [
        | inr e ↦
            v.all k (ground (arith, c)) (have-add_one_view g user obj mapdata temp m h differ k ∙ d)
        | inl e ↦
            let same : temp ≡ k = (==_iff temp k).0 e in
            let first =
              add_one_view-all g user obj mapdata temp m h differ
                (subst (λ i. have_player_data g i ≡ true) (sym same) d) in
            ground (
              arith,
              subst
                  (λ i.
                    contains i (view_set g1 obj)
                      || (leb max_view_count (length (view_set g obj))
                          || leb max_view_count (length (view_set g i)))
                    ≡ true)
                  same first,
              v.kept k obj,
              v.longer obj,
              v.longer k,
              length-add_one_view g user obj mapdata temp m h differ obj,
              length-add_one_view g user obj mapdata temp m h differ k,
            )
      ];
    }
