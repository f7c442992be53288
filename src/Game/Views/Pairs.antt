-- ===== src/Game/Views/Pairs.antt =====
-- The views of two players, written together (projects/logic_svr/map_module.cpp).
use qclib.Base.{
  ℕ, ◌≡◌, ◌≤◌, refl, subst, ◌∙◌, arith, Bool, true, false, ◌&&◌, ◌||◌, [], Option, none, some, ◌==◌,
  ==_iff, if◌then◌else◌, length, Bool-cases, inl, inr,
}
use qclib.Table.{map_some, find, update, find-update, is_some}
use qclib.ObjectSet.{ObjectSet, contains}
use qclib.ObjectSet.Laws.{IsSorted}
use qclib.Game.{Game, Notice, PlayerData, view_set, set_view_set, send, have_player_data}
use qclib.Game.Views.{max_view_count}

pub view_set-send : (g : Game) (n : Notice) (k : ℕ) → view_set (send g n) k ≡ view_set g k
unfolding view_set send
view_set-send g n k = refl

pub have-send :
    (g : Game) (n : Notice) (k : ℕ) → have_player_data (send g n) k ≡ have_player_data g k
unfolding have_player_data send
have-send g n k = refl

pick :
    (b : Bool) (p : Option PlayerData) (d s : ObjectSet)
    → (b ≡ true → is_some p ≡ true)
    → (elim (if b then map_some (λ (q : PlayerData). record q { view_object_set = s }) p else p) [
      | none ↦ d
      | some q ↦ q.view_object_set
    ])
      ≡ (if b then s else elim p [ none ↦ d | some q ↦ q.view_object_set ])
pick true none d s h = ground (arith, h refl)
pick true (some q) d s h = refl
pick false p d s h = refl

is_some-update :
    (b : Bool) (f : PlayerData → PlayerData) (p : Option PlayerData)
    → is_some (if b then map_some f p else p) ≡ is_some p
is_some-update true f none = refl
is_some-update true f (some p) = refl
is_some-update false f p = refl

default-set :
    (g : Game) (i : ℕ) (s : ObjectSet)
    → have_player_data g i ≡ true
    → (set_view_set g i s).default_set ≡ g.default_set
unfolding set_view_set
default-set g i s h = rw (h, set_view_set) refl

set_view_set-have :
    (g : Game) (i : ℕ) (s : ObjectSet)
    → have_player_data g i ≡ true
    → set_view_set g i s ≡ record g {
      players = update i (λ (q : PlayerData). record q { view_object_set = s }) g.players;
    }
unfolding set_view_set
set_view_set-have g i s h = rw (h, set_view_set) refl

-- Writing the set of a player changes no other set.
pub view_set-set :
    (g : Game) (i k : ℕ) (s : ObjectSet)
    → have_player_data g i ≡ true
    → view_set (set_view_set g i s) k ≡ (if i == k then s else view_set g k)
unfolding view_set have_player_data
view_set-set g i k s h = rw (set_view_set-have g i s h) (
    rw (view_set, find-update k i (λ (q : PlayerData). record q { view_object_set = s }) g.players)
      (pick (i == k) (find k g.players) g.default_set s
        (λ e. subst (λ j. is_some (find j g.players) ≡ true) ((==_iff i k).0 e) h)))

pub have-set :
    (g : Game) (i k : ℕ) (s : ObjectSet)
    → have_player_data (set_view_set g i s) k ≡ have_player_data g k
unfolding have_player_data set_view_set
have-set g i k s = elim (Bool-cases (is_some (find i g.players))) [
  | inl e ↦
      rw (e, set_view_set)
        (rw (find-update k i (λ (q : PlayerData). record q { view_object_set = s }) g.players)
          (is_some-update (i == k) _ (find k g.players)))
  | inr e ↦ rw (e, set_view_set) refl
]

default-view : (g : Game) (k : ℕ) → have_player_data g k ≡ false → view_set g k ≡ g.default_set
unfolding view_set have_player_data
default-view g k h = default_of (find k g.players) g.default_set h
  where
    default_of :
        (p : Option PlayerData) (d : ObjectSet)
        → is_some p ≡ false
        → (elim p [ none ↦ d | some q ↦ q.view_object_set ]) ≡ d
    default_of none d h = refl
    default_of (some p) d h = ground (arith, h)

-- Two players see each other or neither does, nobody sees itself, a view has at most
-- `MAX_VIEW_COUNT` members, and the set that stands for missing players is empty.
pub record IsMutual (g : Game) : Type 0 where
  pub both : (i j : ℕ) → contains i (view_set g j) ≡ contains j (view_set g i)
  pub not_self : (i : ℕ) → contains i (view_set g i) ≡ false
  pub bounded : (i : ℕ) → length (view_set g i) ≤ max_view_count
  pub sorted : (i : ℕ) → IsSorted (view_set g i)
  pub no_default : g.default_set ≡ []

-- Who is in a view is a player.
pub seen-have :
    {g : Game} (i j : ℕ)
    → IsMutual g
    → contains j (view_set g i) ≡ true
    → have_player_data g j ≡ true
unfolding contains
seen-have {g} i j m h = elim (Bool-cases (have_player_data g j)) [
  | inl e ↦ e
  | inr e ↦
      let empty : view_set g j ≡ [] = default-view g j e ∙ m.no_default in
      ground (arith, h, m.both j i, empty)
]

-- Both views of a pair are changed at once.
pub record Paired (g g' : Game) (obj temp : ℕ) (mine his : ObjectSet) : Type 0 where
  pub views :
      (k : ℕ) → view_set g' k ≡ (if obj == k then mine else if temp == k then his else view_set g k)
  pub haves : (k : ℕ) → have_player_data g' k ≡ have_player_data g k
  pub default_kept : g'.default_set ≡ g.default_set

-- Who sees whom afterwards.
pub Paired-contains :
    {g g' : Game} {obj temp : ℕ} {mine his : ObjectSet} (f : Bool → Bool) (i j : ℕ)
    → Paired g g' obj temp mine his
    → obj == temp ≡ false
    → ((k : ℕ)
        → contains k mine
          ≡ (if temp == k then f (contains k (view_set g obj)) else contains k (view_set g obj)))
    → ((k : ℕ)
        → contains k his
          ≡ (if obj == k then f (contains k (view_set g temp)) else contains k (view_set g temp)))
    → contains i (view_set g' j) ≡ (
        if (obj == j && temp == i) || (temp == j && obj == i)
        then f (contains i (view_set g j))
        else contains i (view_set g j))
Paired-contains {g} {g'} {obj} {temp} {mine} {his} f i j p differ cm ch =
    rw (p.views j) (ground (arith, cm i, ch i))

pub Paired-IsMutual :
    {g g' : Game} {obj temp : ℕ} {mine his : ObjectSet} (f : Bool → Bool)
    → IsMutual g
    → Paired g g' obj temp mine his
    → obj == temp ≡ false
    → ((k : ℕ)
        → contains k mine
          ≡ (if temp == k then f (contains k (view_set g obj)) else contains k (view_set g obj)))
    → ((k : ℕ)
        → contains k his
          ≡ (if obj == k then f (contains k (view_set g temp)) else contains k (view_set g temp)))
    → length mine ≤ max_view_count
    → length his ≤ max_view_count
    → IsSorted mine
    → IsSorted his
    → IsMutual g'
Paired-IsMutual {g} {g'} {obj} {temp} {mine} {his} f m p differ cm ch lm lh sm sh = record {
  both = λ i j. ground (
    arith,
    Paired-contains f i j p differ cm ch,
    Paired-contains f j i p differ cm ch,
    m.both i j,
  );
  not_self = λ i. ground (arith, Paired-contains f i i p differ cm ch, m.not_self i);
  bounded = λ i. rw (p.views i) (ground (arith, m.bounded i));
  sorted = λ i. rw (p.views i) (ground (arith, m.sorted i));
  no_default = p.default_kept ∙ m.no_default;
}

-- Both sets of a pair are written, with a notice after each.
pub written :
    (g : Game) (obj temp : ℕ) (mine his : ObjectSet) (n1 n2 : Notice)
    → have_player_data g obj ≡ true
    → have_player_data g temp ≡ true
    → obj == temp ≡ false
    → Paired g
        (send (set_view_set (send (set_view_set g obj mine) n1) temp his) n2)
        obj
        temp
        mine
        his
unfolding send
written g obj temp mine his n1 n2 h k differ =
    let g1 = send (set_view_set g obj mine) n1 in
    let k1 : have_player_data g1 temp ≡ true =
      have-send (set_view_set g obj mine) n1 temp ∙ have-set g obj temp mine ∙ k in
    record {
      views = λ i.
          view_set-send (set_view_set g1 temp his) n2 i
          ∙ ground (
            arith,
            view_set-set g1 temp i his k1,
            view_set-send (set_view_set g obj mine) n1 i,
            view_set-set g obj i mine h,
          );
      haves = λ i.
          have-send (set_view_set g1 temp his) n2 i
          ∙ have-set g1 temp i his
          ∙ have-send (set_view_set g obj mine) n1 i
          ∙ have-set g obj i mine;
      default_kept = default-set g1 temp his k1 ∙ default-set g obj mine h;
    }
