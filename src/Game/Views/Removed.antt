-- ===== src/Game/Views/Removed.antt =====
-- `SendDelViewPlayers` of projects/logic_svr/map_module.cpp.
use qclib.Base.{
  ℕ, ◌≡◌, ◌≤◌, refl, ◌∙◌, arith, true, false, not, ◌&&◌, ◌||◌, [], ◌∷◌, ◌==◌, length, Bool-cases,
  inl, inr,
}
use qclib.ObjectSet.{ObjectSet, contains, erase}
use qclib.ObjectSet.Laws.{contains-erase, erase-IsSorted}
use qclib.Game.{del_object, Game, view_set, set_view_set, send, have_player_data}
use qclib.Game.Views.{is_empty_set, del_from_views, send_del_view_players}
use qclib.Game.Views.Pairs.{
  IsMutual, Paired, seen-have, Paired-contains, Paired-IsMutual, written, view_set-set,
  view_set-send,
}

length-erase : (k : ℕ) (s : ObjectSet) → length (erase k s) ≤ length s
unfolding erase
length-erase k [] = omega arith
length-erase k (x ∷ s) = ground (arith, length-erase k s)

not_empty : (k : ℕ) (s : ObjectSet) → contains k s ≡ true → is_empty_set s ≡ false
unfolding contains
not_empty k [] h = ground (arith, h)
not_empty k (x ∷ s) h = refl

del_from_views-Paired :
    (g : Game) (user obj temp : ℕ)
    → IsMutual g
    → contains temp (view_set g obj) ≡ true
    → Paired g
        (del_from_views g user obj temp)
        obj
        temp
        (erase temp (view_set g obj))
        (erase obj (view_set g temp))
unfolding del_from_views
del_from_views-Paired g user obj temp m h =
    let have_temp = seen-have obj temp m h in
    let seen = m.both obj temp ∙ h in
    let have_obj = seen-have temp obj m seen in
    let mine = erase temp (view_set g obj) in
    let differ : obj == temp ≡ false = ground (arith, m.not_self obj) in
    let his_same : view_set (send (set_view_set g obj mine) (del_object user temp)) temp
        ≡ view_set g temp =
      view_set-send (set_view_set g obj mine) (del_object user temp) temp
      ∙ ground (arith, view_set-set g obj temp mine have_obj) in
    rw (his_same, not_empty obj (view_set g temp) seen, seen, del_from_views)
      (written g obj temp mine _ _ _ have_obj have_temp differ)

del_from_views-IsMutual :
    (g : Game) (user obj temp : ℕ)
    → IsMutual g
    → contains temp (view_set g obj) ≡ true
    → IsMutual (del_from_views g user obj temp)
del_from_views-IsMutual g user obj temp m h =
    Paired-IsMutual (λ _. false) m (del_from_views-Paired g user obj temp m h)
      (ground (arith, m.not_self obj)) (λ k. ground (arith, contains-erase k temp (view_set g obj)))
      (λ k. ground (arith, contains-erase k obj (view_set g temp)))
      (omega (arith, length-erase temp (view_set g obj), m.bounded obj))
      (omega (arith, length-erase obj (view_set g temp), m.bounded temp))
      (erase-IsSorted temp _ (m.sorted obj)) (erase-IsSorted obj _ (m.sorted temp))

del_from_views-contains :
    (g : Game) (user obj temp i j : ℕ)
    → IsMutual g
    → contains temp (view_set g obj) ≡ true
    → contains i (view_set (del_from_views g user obj temp) j)
      ≡ contains i (view_set g j) && not ((obj == j && temp == i) || (temp == j && obj == i))
del_from_views-contains g user obj temp i j m h =
    Paired-contains (λ _. false) i j (del_from_views-Paired g user obj temp m h)
      (ground (arith, m.not_self obj)) (λ k. ground (arith, contains-erase k temp (view_set g obj)))
      (λ k. ground (arith, contains-erase k obj (view_set g temp)))
    ∙ ground arith

empty_not : (k : ℕ) (s : ObjectSet) → is_empty_set s ≡ true → contains k s ≡ false
unfolding contains
empty_not k [] h = refl
empty_not k (x ∷ s) h = ground (arith, h)

-- Where the views of players are mutual, `SendDelViewPlayers` takes exactly the listed players out of my
-- view and me out of theirs, and the views stay mutual.
pub send_del_view_players-IsMutual :
    (g : Game) (user obj : ℕ) (temps : ObjectSet)
    → IsMutual g
    → IsMutual (send_del_view_players g user obj temps)
      × ((i j : ℕ)
          → contains i (view_set (send_del_view_players g user obj temps) j)
            ≡ contains i (view_set g j)
              && not ((obj == j && contains i temps) || (obj == i && contains j temps)))
unfolding send_del_view_players contains
send_del_view_players-IsMutual g user obj [] m = (m, λ i j. ground arith)
send_del_view_players-IsMutual g user obj (temp ∷ temps) m =
    elim (Bool-cases (is_empty_set (view_set g obj))) [
      | inl e ↦
          let none_i : (i : ℕ) → contains i (view_set g obj) ≡ false =
            λ i. empty_not i (view_set g obj) e in
          rw e (m, λ i j. ground (arith, none_i i, none_i j, m.both i j))
      | inr e ↦ elim (Bool-cases (contains temp (view_set g obj))) [
        | inl h ↦
            let (m', found) =
              send_del_view_players-IsMutual (del_from_views g user obj temp) user obj temps
                (del_from_views-IsMutual g user obj temp m h) in
            rw (e, h)
              (
                m',
                λ i j.
                    found i j ∙ rw (del_from_views-contains g user obj temp i j m h) (ground arith),
              )
        | inr h ↦
            let (m', found) = send_del_view_players-IsMutual g user obj temps m in
            rw (e, h) (m', λ i j. found i j ∙ ground (arith, m.both i j))
      ]
    ]

-- No player comes or goes.
pub have-send_del_view_players :
    (g : Game) (user obj : ℕ) (temps : ObjectSet) (k : ℕ)
    → IsMutual g
    → have_player_data (send_del_view_players g user obj temps) k ≡ have_player_data g k
unfolding send_del_view_players
have-send_del_view_players g user obj [] k m = refl
have-send_del_view_players g user obj (temp ∷ temps) k m =
    elim (Bool-cases (is_empty_set (view_set g obj))) [
      | inl e ↦ rw e refl
      | inr e ↦ elim (Bool-cases (contains temp (view_set g obj))) [
        | inl h ↦
            rw (e, h)
              (have-send_del_view_players (del_from_views g user obj temp) user obj temps k
                  (del_from_views-IsMutual g user obj temp m h)
                ∙ (del_from_views-Paired g user obj temp m h).haves k)
        | inr h ↦ rw (e, h) (have-send_del_view_players g user obj temps k m)
      ]
    ]
