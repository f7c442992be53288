-- ===== src/DbGateway/Config.antt =====
-- projects/dbgateway/table_object_map.h: the configuration's indexes.
use qclib.Base.{
  ℕ, zero, suc, ◌≡◌, ◌≢◌, ◌⊎◌, refl, sym, ap, subst, ◌∙◌, arith, List, [], ◌∷◌, ◌++◌, Option, none,
  some, length, get_elem?, Bool-cases, Option-cases, inl, inr,
}
use qclib.Names.{Name, Dict, find, assign, find-assign, same, same_self, eq_of_same}
use qclib.DbGateway.{
  TableObjectMap, ConfigIndexMap, TableElement, init_table, init_config, config_at,
  get_table_object_map_by_tblname, get_table_object_map_by_objname,
}
use mathlib.Core.Option.{some-injective}

-- A place in the list of maps that holds one of which `named` gives the name.
abbrev Holds : (TableObjectMap → Name) → List TableObjectMap → Name → ℕ → Type 0
Holds named configs n i = (m : TableObjectMap) × (get_elem? configs i ≡ some m) × (named m ≡ n)

-- An index leads to a map of the name that it is found under, and has the names of all maps.
record Indexes (named : TableObjectMap → Name) (configs : List TableObjectMap) (index : Dict ℕ)
    : Type 0 where
  sound : (n : Name) (i : ℕ) → find n index ≡ some i → Holds named configs n i
  complete :
      (i : ℕ) (m : TableObjectMap) → get_elem? configs i ≡ some m → find (named m) index ≢ none

record IsValid (c : ConfigIndexMap) : Type 0 where
  tables : Indexes (λ m. m.table_name) c.configs c.table_map
  objects : Indexes (λ m. m.object_name) c.configs c.object_map

get_elem?-append :
    (xs ys : List TableObjectMap) (i : ℕ) {m : TableObjectMap}
    → get_elem? xs i ≡ some m
    → get_elem? (xs ++ ys) i ≡ some m
get_elem?-append [] ys i h = cc
get_elem?-append (x ∷ xs) ys zero h = h
get_elem?-append (x ∷ xs) ys (suc i) h = get_elem?-append xs ys i h

get_elem?-last :
    (xs : List TableObjectMap) (m : TableObjectMap) → get_elem? (xs ++ m ∷ []) (length xs) ≡ some m
get_elem?-last [] m = refl
get_elem?-last (x ∷ xs) m = get_elem?-last xs m

-- One map more at the end, and its name set in an index.
Holds-assign :
    (named : TableObjectMap → Name) (configs : List TableObjectMap) (index : Dict ℕ)
    (m : TableObjectMap)
    → ((n : Name) (i : ℕ) → find n index ≡ some i → Holds named configs n i)
    → (n : Name) (i : ℕ) → find n (assign (named m) (length configs) index) ≡ some i
    → Holds named (configs ++ m ∷ []) n i
Holds-assign named configs index m old n i h = elim (Bool-cases (same (named m) n)) [
  | inl e ↦
      let at : length configs ≡ i =
        some-injective _ _ (sym (find-assign n (named m) (length configs) index ∙ rw e refl) ∙ h) in
      (m, rw (sym at) (get_elem?-last configs m), eq_of_same (named m) n e)
  | inr e ↦
      let (m', got, name) =
        old n i (sym (find-assign n (named m) (length configs) index ∙ rw e refl) ∙ h) in
      (m', get_elem?-append configs (m ∷ []) i got, name)
]

get_elem?-append_inv :
    (xs : List TableObjectMap) (x : TableObjectMap) (i : ℕ) {m : TableObjectMap}
    → get_elem? (xs ++ x ∷ []) i ≡ some m
    → (get_elem? xs i ≡ some m) ⊎ (x ≡ m)
get_elem?-append_inv [] x zero h = inr (some-injective _ _ h)
get_elem?-append_inv [] x (suc i) h = inl h
get_elem?-append_inv (y ∷ xs) x zero h = inl h
get_elem?-append_inv (y ∷ xs) x (suc i) h = get_elem?-append_inv xs x i h

-- A name that is set, or was there, is there.
find-assign_some :
    (n k : Name) (i : ℕ) (index : Dict ℕ)
    → (k ≡ n) ⊎ (find n index ≢ none)
    → find n (assign k i index) ≢ none
find-assign_some n k i index (inl e) h =
    absurd (ground (arith, find-assign n k i index, same_self n, e, h))
find-assign_some n k i index (inr old) h = elim (Bool-cases (same k n)) [
  | inl e ↦ absurd (ground (arith, find-assign n k i index, e, h))
  | inr e ↦ old (sym (find-assign n k i index ∙ rw e refl) ∙ h)
]

Indexes-assign :
    (named : TableObjectMap → Name) (configs : List TableObjectMap) (index : Dict ℕ)
    (m : TableObjectMap)
    → Indexes named configs index
    → Indexes named (configs ++ m ∷ []) (assign (named m) (length configs) index)
Indexes-assign named configs index m v = record {
  sound = Holds-assign named configs index m v.sound;
  complete = λ i m' got.
      find-assign_some (named m') (named m) (length configs) index
        (elim (get_elem?-append_inv configs m i got) [
          | inl old ↦ inr (v.complete i m' old)
          | inr e ↦ inl (ap named e)
        ]);
}

init_config-IsValid :
    (es : List TableElement) (c c' : ConfigIndexMap)
    → IsValid c
    → init_config es c ≡ some c'
    → IsValid c'
unfolding init_config
init_config-IsValid [] c c' v h = subst IsValid (some-injective c c' h) v
init_config-IsValid (e ∷ es) c c' v h = elim (Option-cases (init_table e)) [
  | inl failed ↦ absurd (ground (arith, failed, h))
  | inr (m, made) ↦
      init_config-IsValid es
        (record {
          configs = c.configs ++ m ∷ [];
          table_map = assign m.table_name (length c.configs) c.table_map;
          object_map = assign m.object_name (length c.configs) c.object_map;
        })
        c'
        (record {
          tables = Indexes-assign (λ m. m.table_name) c.configs c.table_map m v.tables;
          objects = Indexes-assign (λ m. m.object_name) c.configs c.object_map m v.objects;
        })
        (sym (rw made refl) ∙ h)
]

abbrev pub empty_config : ConfigIndexMap
empty_config = record { configs = []; table_map = []; object_map = [] }

empty-IsValid : IsValid empty_config
unfolding find
empty-IsValid = record {
  tables = record { sound = λ n i h. absurd (ground (arith, h)); complete = λ i m h. cc };
  objects = record { sound = λ n i h. absurd (ground (arith, h)); complete = λ i m h. cc };
}

-- What a lookup answers: a map with the name, or that no map has it.
abbrev pub Answers :
    (TableObjectMap → Name) → List TableObjectMap → Name → Option (Option TableObjectMap) → Type 0
Answers named configs n o =
    ((m : TableObjectMap) × (o ≡ some (some m)) × (named m ≡ n))
    ⊎ ((o ≡ some none)
        × ((i : ℕ) (m : TableObjectMap) → get_elem? configs i ≡ some m → named m ≢ n))

config_at-Answers :
    (named : TableObjectMap → Name) (configs : List TableObjectMap) (index : Dict ℕ) (n : Name)
    → Indexes named configs index
    → Answers named configs n (config_at configs (find n index))
unfolding config_at
config_at-Answers named configs index n v = elim (Option-cases (find n index)) [
  | inl e ↦ inr (
    rw e refl,
    λ i m got same_name. v.complete i m got (ap (λ (k : Name). find k index) same_name ∙ e),
  )
  | inr (i, e) ↦ let (m, got, name) = v.sound n i e in inl (m, rw (e, got) refl, name)
]

-- In a configuration that InitConfig made of the tables of a file, however often a name stands there, no
-- lookup throws: by the name of a table as by that of an object, it finds a map of that name, or answers
-- NULL, in which case no map has the name.
pub init_config-Answers :
    (es : List TableElement) (c : ConfigIndexMap) (n : Name)
    → init_config es empty_config ≡ some c
    → Answers (λ m. m.table_name) c.configs n (get_table_object_map_by_tblname c n)
      × Answers (λ m. m.object_name) c.configs n (get_table_object_map_by_objname c n)
init_config-Answers es c n h =
    let v = init_config-IsValid es empty_config c empty-IsValid h in
    (
      config_at-Answers (λ m. m.table_name) c.configs c.table_map n v.tables,
      config_at-Answers (λ m. m.object_name) c.configs c.object_map n v.objects,
    )
