-- ===== src/Game/Saved/RoundTrip.antt =====
-- projects/logic_svr/define_logic_data.h: what `MapToStruct` reads of what `StructToMap` wrote.
use qclib.Base.{
  ℕ, zero, suc, ◌+◌, ◌-◌, ◌*◌, ◌/◌, ◌%◌, ◌^◌, ◌≤◌, ◌<◌, ◌≡◌, refl, sym, ap, subst, ◌∙◌, arith, true,
  false, [], ◌∷◌, ◌++◌, ◌==◌, ltb, min, Bool-cases, inl, inr,
}
use qclib.Base.Int.{ℤ, pos, negsuc}
use qclib.Game.{PlayerDataMsg}
use qclib.Names.{same}
use qclib.Game.Saved.{
  Text, is_space, is_digit, digits, put_nat, put_int, skip_spaces, word, get_string, value, get_nat,
  signed, get_int, struct_to_map, map_to_struct,
}

abbrev pub IsDigits : Text → Type 0
IsDigits [] = Unit
IsDigits (c ∷ t) = (is_digit c ≡ true) × IsDigits t

abbrev pub IsUnblank : Text → Type 0
IsUnblank [] = Unit
IsUnblank (c ∷ t) = (is_space c ≡ false) × IsUnblank t

-- One word: not empty, and without blanks.
abbrev pub IsWord : Text → Type 0
IsWord [] = ⊥
IsWord (c ∷ t) = (is_space c ≡ false) × IsUnblank t

IsDigits-append : (xs ys : Text) → IsDigits xs → IsDigits ys → IsDigits (xs ++ ys)
IsDigits-append [] ys hx hy = hy
IsDigits-append (x ∷ xs) ys (h, hx) hy = (h, IsDigits-append xs ys hx hy)

pub IsDigits-digits : (fuel n : ℕ) → IsDigits (digits fuel n)
unfolding digits
IsDigits-digits zero n = tt
IsDigits-digits (suc fuel) n = elim (Bool-cases (ltb n 10)) [
  | inl e ↦ rw e (ground arith, tt)
  | inr e ↦ rw e (
      IsDigits-append (digits fuel (n / 10)) ((48 + n % 10) ∷ []) (IsDigits-digits fuel (n / 10))
        (ground arith, tt))
]

-- A digit more at the end.
value-append :
    (xs : Text) (acc d : ℕ)
    → IsDigits xs
    → d < 10
    → value acc (xs ++ ((48 + d) ∷ [])) ≡ value acc xs * 10 + d
unfolding value
value-append [] acc d h hd = ground arith
value-append (x ∷ xs) acc d (h, hs) hd = rw h (value-append xs (acc * 10 + (x - 48)) d hs hd)

value-digits : (fuel n : ℕ) → n < 10 ^ fuel → value 0 (digits fuel n) ≡ n
unfolding digits value
value-digits zero n h = omega arith
value-digits (suc fuel) n h = elim (Bool-cases (ltb n 10)) [
  | inl e ↦ rw e (ground arith)
  | inr e ↦
      let front : value 0 (digits fuel (n / 10)) ≡ n / 10 =
        value-digits fuel (n / 10) (omega arith) in
      rw e (
        value-append (digits fuel (n / 10)) 0 (n % 10) (IsDigits-digits fuel (n / 10)) (omega arith)
        ∙ omega (arith, front))
]

IsUnblank-digits : (xs : Text) → IsDigits xs → IsUnblank xs
IsUnblank-digits [] h = tt
IsUnblank-digits (x ∷ xs) (h, hs) = (ground (arith, h), IsUnblank-digits xs hs)

word_all : (xs : Text) → IsUnblank xs → word xs ≡ xs
word_all [] h = refl
word_all (x ∷ xs) (h, hs) = rw h (ap (λ (t : Text). x ∷ t) (word_all xs hs))

pub get_string-word : (t old : Text) → IsWord t → get_string t old ≡ t
unfolding get_string
get_string-word [] old h = absurd h
get_string-word (c ∷ t) old (h, hs) = rw (h, h, word_all t hs) refl

-- A written number is a word of digits.
append-front : (xs : Text) (d : ℕ) → (c : ℕ) × (t : Text) × (xs ++ (d ∷ []) ≡ c ∷ t)
append-front [] d = (d, [], refl)
append-front (x ∷ xs) d = (x, xs ++ (d ∷ []), refl)

digits-front : (fuel n : ℕ) → (c : ℕ) × (t : Text) × (digits (suc fuel) n ≡ c ∷ t)
unfolding digits
digits-front fuel n = elim (Bool-cases (ltb n 10)) [
  | inl e ↦ (48 + n, [], rw (digits, e) refl)
  | inr e ↦
      let (c, t, front) = append-front (digits fuel (n / 10)) (48 + n % 10) in
      (c, t, rw (digits, e) front)
]

pub put_nat-front : (n : ℕ) → (c : ℕ) × (t : Text) × (put_nat n ≡ c ∷ t)
put_nat-front n = digits-front 19 n

pub put_nat-IsWord : (n : ℕ) → IsWord (put_nat n)
put_nat-IsWord n =
    let (c, t, e) = put_nat-front n in
    let ds : IsDigits (c ∷ t) = subst IsDigits e (IsDigits-digits 20 n) in
    subst IsWord (sym e) (ground (arith, ds.0), IsUnblank-digits t ds.1)

skip_spaces-word : (t : Text) → IsWord t → skip_spaces t ≡ t
skip_spaces-word [] h = absurd h
skip_spaces-word (c ∷ t) (h, hs) = rw h refl

get_nat-put : (limit n : ℕ) → n ≤ limit → n < 10 ^ 20 → get_nat limit (put_nat n) ≡ n
unfolding get_nat
get_nat-put limit n h big =
    rw (skip_spaces-word (put_nat n) (put_nat-IsWord n), value-digits 20 n big) (omega arith)

-- The least `int32_t` and the greatest.
abbrev pub IsInt32 : ℤ → Type 0
IsInt32 (pos n) = n < 2 ^ 31
IsInt32 (negsuc n) = n < 2 ^ 31

pub put_int-IsWord : (z : ℤ) → IsWord (put_int z)
put_int-IsWord (pos n) = put_nat-IsWord n
put_int-IsWord (negsuc n) = (refl, IsUnblank-digits (put_nat (suc n)) (IsDigits-digits 20 (suc n)))

signed-digits : (t : Text) → IsDigits t → IsWord t → signed t ≡ pos (min (2 ^ 31 - 1) (value 0 t))
signed-digits [] h w = absurd w
signed-digits (c ∷ t) (h, hs) w = let plus : c == 45 ≡ false = ground (arith, h) in rw plus refl

get_int-put : (z : ℤ) → IsInt32 z → get_int (put_int z) ≡ z
unfolding get_int
get_int-put (pos n) h =
    rw
      (
        skip_spaces-word (put_nat n) (put_nat-IsWord n),
        signed-digits (put_nat n) (IsDigits-digits 20 n) (put_nat-IsWord n),
        value-digits 20 n (omega arith),
      )
      (ap pos (omega arith))
get_int-put (negsuc n) h =
    let whole : min (2 ^ 31) (suc n) ≡ suc n = omega arith in
    rw (value-digits 20 (suc n) (omega arith), whole) refl

-- The numbers of a player fit their types, and the name is one word.
pub record IsStorable (p : PlayerDataMsg) : Type 0 where
  pub object_id_fits : p.object_id < 2 ^ 63
  pub user_id_fits : p.user_id < 2 ^ 63
  pub name_word : IsWord p.player_name
  pub level_fits : IsInt32 p.player_level
  pub job_fits : p.player_job < 2 ^ 32
  pub country_fits : p.player_country < 2 ^ 32
  pub login_fits : p.last_login_time < 2 ^ 32

-- What `StructToMap` makes of a player whose numbers fit their types and whose name is one word without
-- blanks, in an empty list, `MapToStruct` reads back in full, whatever the record was before.
pub map_to_struct-struct_to_map :
    (p before : PlayerDataMsg) → IsStorable p → map_to_struct (struct_to_map [] p) before ≡ p
unfolding map_to_struct struct_to_map same
map_to_struct-struct_to_map p before h =
    rw
      (
        get_string-word (put_nat p.object_id) [] (put_nat-IsWord p.object_id),
        get_string-word (put_nat p.user_id) (put_nat p.object_id) (put_nat-IsWord p.user_id),
        get_string-word p.player_name (put_nat p.user_id) h.name_word,
        get_string-word (put_int p.player_level) p.player_name (put_int-IsWord p.player_level),
        get_string-word (put_nat p.player_job) (put_int p.player_level)
            (put_nat-IsWord p.player_job),
        get_string-word (put_nat p.player_country) (put_nat p.player_job)
            (put_nat-IsWord p.player_country),
        get_string-word (put_nat p.last_login_time) (put_nat p.player_country)
            (put_nat-IsWord p.last_login_time),
      )
      (rw
        (
          get_nat-put (2 ^ 63 - 1) p.object_id (omega (arith, h.object_id_fits))
              (omega (arith, h.object_id_fits)),
          get_nat-put (2 ^ 63 - 1) p.user_id (omega (arith, h.user_id_fits))
              (omega (arith, h.user_id_fits)),
          get_string-word p.player_name before.player_name h.name_word,
          get_int-put p.player_level h.level_fits,
          get_nat-put (2 ^ 32 - 1) p.player_job (omega (arith, h.job_fits))
              (omega (arith, h.job_fits)),
          get_nat-put (2 ^ 32 - 1) p.player_country (omega (arith, h.country_fits))
              (omega (arith, h.country_fits)),
          get_nat-put (2 ^ 32 - 1) p.last_login_time (omega (arith, h.login_fits))
              (omega (arith, h.login_fits)),
        )
        refl)
