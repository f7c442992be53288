-- ===== src/Redis/Words.antt =====
-- commonsrc/src/redis_client.cpp: a command as hiredis takes it apart, at its blanks.
use qclib.Base.{
  Bool, true, ◌==◌, ℕ, ◌≡◌, refl, sym, ap, ◌∙◌, false, List, [], ◌∷◌, ◌++◌, map, ◌==◌,
  if◌then◌else◌,
}
use qclib.Names.{Name}
use qclib.DbGateway.{bytes, is_empty}
use qclib.DbGateway.Items.{Lacks}
use qclib.Redis.{KeyValue, set_fields, get_fields, set_members}
use mathlib.Core.List.{append_assoc, append-nil}

-- The words of a text, behind the word `w` that was begun.
unfoldable pub words_from : Name → Name → List Name
words_from w [] = if is_empty w then [] else w ∷ []
words_from w (c ∷ cs) =
    let begun = words_from (w ++ (c ∷ [])) cs in
    let rest = words_from [] cs in
    if 32 == c then (if is_empty w then rest else w ∷ rest) else begun

abbrev pub words : Name → List Name
words = words_from []

-- A text that is one word and has no '%'.
abbrev pub IsWord : Name → Type 0
IsWord n = (is_empty n ≡ false) × Lacks 32 n × Lacks 37 n

-- The same as a test, for texts that are known.
unfoldable pub lacks : ℕ → Name → Bool
lacks c [] = true
lacks c (d ∷ ds) = let rest = lacks c ds in elim (c == d) [ true ↦ false | false ↦ rest ]

pub lacks-Lacks : (c : ℕ) (n : Name) → lacks c n ≡ true → Lacks c n
unfolding lacks
lacks-Lacks c [] h = tt
lacks-Lacks c (d ∷ ds) h = go (c == d) (lacks-Lacks c ds) h
  where
    go :
        (b : Bool)
        → (lacks c ds ≡ true → Lacks c ds)
        → (elim b [ true ↦ false | false ↦ lacks c ds ]) ≡ true
        → (b ≡ false) × Lacks c ds
    go true rest e = cc
    go false rest e = (refl, rest e)

pub known-IsWord :
    (n : Name) → is_empty n ≡ false → lacks 32 n ≡ true → lacks 37 n ≡ true → IsWord n
known-IsWord n full blank percent = (full, lacks-Lacks 32 n blank, lacks-Lacks 37 n percent)

abbrev pub AreWords : List Name → Type 0
AreWords [] = Unit {0}
AreWords (n ∷ ns) = IsWord n × AreWords ns

-- Each word with a blank before it.
unfoldable pub spaced : List Name → Name
spaced [] = []
spaced (n ∷ ns) = 32 ∷ (n ++ spaced ns)

is_empty-append : (w t : Name) → is_empty t ≡ false → is_empty (w ++ t) ≡ false
is_empty-append [] t h = h
is_empty-append (c ∷ w) t h = refl

words_from-spaced :
    (w t : Name) (ns : List Name)
    → is_empty (w ++ t) ≡ false
    → Lacks 32 t
    → AreWords ns
    → words_from w (t ++ spaced ns) ≡ (w ++ t) ∷ ns
unfolding words_from spaced
words_from-spaced w [] [] h l a =
    let whole : is_empty w ≡ false = ap is_empty (sym (append-nil w)) ∙ h in
    rw (whole, append-nil w) refl
words_from-spaced w [] (n ∷ ns) h l ((full, blank, percent), a) =
    let whole : is_empty w ≡ false = ap is_empty (sym (append-nil w)) ∙ h in
    rw (whole, append-nil w, words_from-spaced [] n ns full blank a) refl
words_from-spaced w (c ∷ t) ns h (other, l) a =
    let join : (w ++ (c ∷ [])) ++ t ≡ w ++ (c ∷ t) = append_assoc w (c ∷ []) t in
    rw (other, words_from-spaced (w ++ (c ∷ [])) t ns (ap is_empty join ∙ h) l a, join) refl

-- A command of a word and words behind it comes apart into them.
words-spaced :
    (n : Name) (ns : List Name) → IsWord n → AreWords ns → words (n ++ spaced ns) ≡ n ∷ ns
words-spaced n ns (full, blank, percent) a = words_from-spaced [] n ns full blank a

pub Lacks-append : (c : ℕ) (a b : Name) → Lacks c a → Lacks c b → Lacks c (a ++ b)
Lacks-append c [] b ha hb = hb
Lacks-append c (d ∷ a) b (other, ha) hb = (other, Lacks-append c a b ha hb)

Lacks-spaced : (ns : List Name) → AreWords ns → Lacks 37 (spaced ns)
unfolding spaced
Lacks-spaced [] a = tt
Lacks-spaced (n ∷ ns) ((full, blank, percent), a) =
    (refl, Lacks-append 37 n (spaced ns) percent (Lacks-spaced ns a))

pub plain-spaced :
    (n : Name) (ns : List Name)
    → IsWord n
    → AreWords ns
    → Lacks 37 (n ++ spaced ns) × (words (n ++ spaced ns) ≡ n ∷ ns)
plain-spaced n ns (full, blank, percent) a = (
  Lacks-append 37 n (spaced ns) percent (Lacks-spaced ns a),
  words-spaced n ns (full, blank, percent) a,
)

-- The words behind a first one, whatever they are.
pub word-words :
    (w t rest : Name)
    → is_empty (w ++ t) ≡ false
    → Lacks 32 t
    → words_from w (t ++ (32 ∷ rest)) ≡ (w ++ t) ∷ words rest
unfolding words_from
word-words w [] rest h l =
    let whole : is_empty w ≡ false = ap is_empty (sym (append-nil w)) ∙ h in
    rw (whole, append-nil w) refl
word-words w (c ∷ t) rest h (other, l) =
    let join : (w ++ (c ∷ [])) ++ t ≡ w ++ (c ∷ t) = append_assoc w (c ∷ []) t in
    rw (other, word-words (w ++ (c ∷ [])) t rest (ap is_empty join ∙ h) l, join) refl

-- The fields and the values of an object, in turn.
unfoldable pub in_turn : List KeyValue → List Name
in_turn [] = []
in_turn (kv ∷ kvs) = kv.redis_field ∷ kv.redis_value ∷ in_turn kvs

abbrev pub field_names : List KeyValue → List Name
field_names = map (λ kv. kv.redis_field)

-- What is appended to a command, as words behind it.
pub set_fields_lem :
    (kvs : List KeyValue) (command : Name)
    → set_fields kvs command ≡ command ++ spaced (in_turn kvs)
unfolding set_fields spaced in_turn
set_fields_lem [] command = sym (append-nil command)
set_fields_lem (kv ∷ kvs) command =
    rw
      (
        set_fields_lem kvs
            ((((command ++ bytes " ") ++ kv.redis_field) ++ bytes " ") ++ kv.redis_value),
        append_assoc (((command ++ bytes " ") ++ kv.redis_field) ++ bytes " ") kv.redis_value
            (spaced (in_turn kvs)),
        append_assoc ((command ++ bytes " ") ++ kv.redis_field) (bytes " ")
            (kv.redis_value ++ spaced (in_turn kvs)),
        append_assoc (command ++ bytes " ") kv.redis_field
            (bytes " " ++ (kv.redis_value ++ spaced (in_turn kvs))),
        append_assoc command (bytes " ")
            (kv.redis_field ++ (bytes " " ++ (kv.redis_value ++ spaced (in_turn kvs)))),
      )
      refl

word-appended :
    (command n rest : Name) → ((command ++ bytes " ") ++ n) ++ rest ≡ command ++ (32 ∷ (n ++ rest))
word-appended command n rest =
    append_assoc (command ++ bytes " ") n rest ∙ append_assoc command (bytes " ") (n ++ rest)

pub get_fields_lem :
    (kvs : List KeyValue) (command : Name)
    → get_fields kvs command ≡ command ++ spaced (field_names kvs)
unfolding get_fields spaced
get_fields_lem [] command = sym (append-nil command)
get_fields_lem (kv ∷ kvs) command =
    get_fields_lem kvs ((command ++ bytes " ") ++ kv.redis_field)
    ∙ word-appended command kv.redis_field (spaced (field_names kvs))

pub set_members_lem :
    (keys : List Name) (command : Name) → set_members keys command ≡ command ++ spaced keys
unfolding set_members spaced
set_members_lem [] command = sym (append-nil command)
set_members_lem (key ∷ keys) command =
    set_members_lem keys ((command ++ bytes " ") ++ key) ∙ word-appended command key (spaced keys)
