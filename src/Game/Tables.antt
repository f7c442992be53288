-- ===== src/Game/Tables.antt =====
-- The tables of players and of users in projects/logic_svr/data_cache.cpp.
use qclib.Base.{
  ℕ, ◌≡◌, refl, sym, ap, subst, ◌∙◌, arith, true, false, [], ◌∷◌, ◌++◌, Option, none, some, ◌⊎◌,
  ◌==◌, ==_iff, Bool-cases, inl, inr,
}
use mathlib.Core.Option.{some-injective, none-ne-some}
use qclib.Table.{
  Table, find, insert_new, insert_new_old, remove, find-insert_new, find-remove,
  find-insert_new_self, remove-insert_new,
}
use qclib.Game.{
  Game, PlayerDataMsg, PlayerData, new_player, get_object_id, get_user_id, add_player_data,
  del_player_data,
}

-- The object of a user is a loaded player of that user.
pub record IsConsistent (g : Game) : Type 0 where
  pub owner :
      (user obj : ℕ)
      → find user g.user_object_ids ≡ some obj
      → (p : PlayerData) × (find obj g.players ≡ some p) × (p.base_data.user_id ≡ user)

option_cases : {A : Type 0} (p : Option A) → (p ≡ none) ⊎ ((a : A) × (p ≡ some a))
option_cases none = inl refl
option_cases (some a) = inr (a, refl)

add-is :
    (g : Game) (msg : PlayerDataMsg)
    → find msg.object_id g.players ≡ none
    → (add_player_data g msg).1 ≡ record g {
      players = insert_new msg.object_id (new_player msg) g.players;
      user_object_ids = insert_new msg.user_id msg.object_id g.user_object_ids;
    }
unfolding add_player_data
add-is g msg h = rw (h, add_player_data) refl

del-is :
    (g : Game) (obj : ℕ) (p : PlayerData)
    → find obj g.players ≡ some p
    → (del_player_data g obj).1 ≡ record g {
      players = remove obj g.players;
      user_object_ids = remove p.base_data.user_id g.user_object_ids;
      saved = g.saved ++ p.base_data ∷ [];
    }
unfolding del_player_data
del-is g obj p h = rw (h, del_player_data) refl

absent : {A : Type 0} {p : Option A} {a : A} → p ≡ none → p ≡ some a → ⊥
absent {a = a} h k = none-ne-some a (sym h ∙ k)

-- An owner among the players before is one among the players with a new one.
owner_added :
    (players : Table PlayerData) (obj new user : ℕ) (q : PlayerData)
    → find new players ≡ none
    → (p : PlayerData) × (find obj players ≡ some p) × (p.base_data.user_id ≡ user)
    → (p : PlayerData) × (find obj (insert_new new q players) ≡ some p)
      × (p.base_data.user_id ≡ user)
owner_added players obj new user q h (p, f, u) = elim (Bool-cases (new == obj)) [
  | inl e ↦ absurd (absent h (subst (λ i. find i players ≡ some p) (sym ((==_iff new obj).0 e)) f))
  | inr e ↦ (p, find-insert_new obj new q players h ∙ rw e f, u)
]

-- `AddPlayerData` keeps the tables in agreement, whether or not the player is loaded already.
pub add_player_data-IsConsistent :
    (g : Game) (msg : PlayerDataMsg) → IsConsistent g → IsConsistent (add_player_data g msg).1
unfolding add_player_data new_player
add_player_data-IsConsistent g msg c = elim (option_cases (find msg.object_id g.players)) [
  | inr (p, h) ↦ rw (h, add_player_data) c
  | inl h ↦ rw (add-is g msg h) (record {
    owner = λ user obj f. elim (option_cases (find msg.user_id g.user_object_ids)) [
      | inr (o, k) ↦ owner_added g.players obj msg.object_id user (new_player msg) h (
          c.owner user obj
            (rw (insert_new_old msg.user_id msg.object_id o g.user_object_ids k) at f))
      | inl k ↦ elim (Bool-cases (msg.user_id == user)) [
        | inl e ↦ (
          new_player msg,
          (let same : msg.object_id ≡ obj = some-injective msg.object_id obj (
                sym (find-insert_new user msg.user_id msg.object_id g.user_object_ids k ∙ rw e refl)
                ∙ f) in
              let t : msg.object_id == obj ≡ true = ground arith in
              find-insert_new obj msg.object_id (new_player msg) g.players h ∙ rw t refl),
          (==_iff msg.user_id user).0 e,
        )
        | inr e ↦ owner_added g.players obj msg.object_id user (new_player msg) h (
            c.owner user obj (
              sym (find-insert_new user msg.user_id msg.object_id g.user_object_ids k ∙ rw e refl)
              ∙ f))
      ]
    ];
  })
]

-- An owner other than the player that goes.
owner_left :
    (players : Table PlayerData) (ids : Table ℕ) (gone obj user : ℕ) (q : PlayerData)
    → find gone players ≡ some q
    → find user (remove q.base_data.user_id ids) ≡ some obj
    → (find user ids ≡ some obj
        → (p : PlayerData) × (find obj players ≡ some p) × (p.base_data.user_id ≡ user))
    → (p : PlayerData) × (find obj (remove gone players) ≡ some p) × (p.base_data.user_id ≡ user)
owner_left players ids gone obj user q h f own =
    let other : q.base_data.user_id == user ≡ false =
      ground (arith, sym (find-remove user q.base_data.user_id ids) ∙ f) in
    let (p, k, u) = own (sym (find-remove user q.base_data.user_id ids ∙ rw other refl) ∙ f) in
    let apart : gone == obj ≡ false = elim (Bool-cases (gone == obj)) [
      | inr e ↦ e
      | inl e ↦
          let same : q ≡ p =
            some-injective q p
              (sym h ∙ ap (λ (i : ℕ). find i players) ((==_iff gone obj).0 e) ∙ k) in
          ground (arith, ap (λ (x : PlayerData). x.base_data.user_id) same, u)
    ] in
    (p, find-remove obj gone players ∙ rw apart k, u)

-- `DelPlayerData` keeps the tables in agreement, whether or not the player is loaded.
pub del_player_data-IsConsistent :
    (g : Game) (obj : ℕ) → IsConsistent g → IsConsistent (del_player_data g obj).1
unfolding del_player_data
del_player_data-IsConsistent g obj c = elim (option_cases (find obj g.players)) [
  | inl h ↦ rw (h, del_player_data) c
  | inr (p, h) ↦ rw (del-is g obj p h) (record {
    owner = λ user o f. owner_left g.players g.user_object_ids obj o user p h f (c.owner user o);
  })
]

-- A player that is loaded for a user without an object and then dropped leaves both tables as they were,
-- and what is saved is what was loaded.
pub add-del_player_data :
    (g : Game) (msg : PlayerDataMsg)
    → find msg.object_id g.players ≡ none
    → find msg.user_id g.user_object_ids ≡ none
    → let g1 = (add_player_data g msg).1 in
      let g2 = (del_player_data g1 msg.object_id).1 in
      (get_object_id g1 msg.user_id ≡ msg.object_id)
      × (get_user_id g1 msg.object_id ≡ msg.user_id)
      × (g2.saved ≡ g.saved ++ msg ∷ [])
      × ((k : ℕ) → find k g2.players ≡ find k g.players)
      × ((k : ℕ) → find k g2.user_object_ids ≡ find k g.user_object_ids)
unfolding get_object_id get_user_id new_player
add-del_player_data g msg h k =
    let f = find-insert_new_self msg.object_id (new_player msg) g.players h in
    let i = find-insert_new_self msg.user_id msg.object_id g.user_object_ids k in
    let g1 : Game = record g {
      players = insert_new msg.object_id (new_player msg) g.players;
      user_object_ids = insert_new msg.user_id msg.object_id g.user_object_ids;
    } in
    rw (add-is g msg h) (
      rw (i, get_object_id) refl,
      rw (f, get_user_id) refl,
      rw (del-is g1 msg.object_id (new_player msg) f) refl,
      (λ j.
          rw (del-is g1 msg.object_id (new_player msg) f)
            (remove-insert_new j msg.object_id (new_player msg) g.players h)),
      (λ j.
          rw (del-is g1 msg.object_id (new_player msg) f)
            (remove-insert_new j msg.user_id msg.object_id g.user_object_ids k)),
    )
