-- ===== src/DbGateway/Rows/Bound.antt =====
-- projects/dbgateway/db_gateway.cpp: the sets of keys that the bound fields of a row go to.
use qclib.Base.{
  ◌≡◌, refl, ap, ◌∙◌, arith, true, false, List, [], ◌∷◌, ◌++◌, Option, some, ◌==◌, Bool-cases, inl,
  inr,
}
use qclib.Names.{Name, Dict, same, less, assign}
use qclib.DbGateway.{bytes}
use qclib.DbGateway.Items.{Lacks}
use qclib.DbGateway.Rows.{set_bind_items_to_nosql}
use qclib.Redis.{Reply, Hiredis, Client}
use qclib.Redis.Cache.{NoSqlDbCache}
use qclib.Redis.Words.{IsWord, Lacks-append}
use qclib.Redis.Stored.{Splits}
use qclib.Redis.Server.{Serves, linked, add_set_cache-linked}
use mathlib.Core.List.{append_assoc}

pub IsWord-append : (a b : Name) → IsWord a → Lacks 32 b → Lacks 37 b → IsWord (a ++ b)
IsWord-append [] b (full, blank, percent) l k = absurd (true_false full)
  where
    true_false : true ≡ false → ⊥
    true_false e = cc
IsWord-append (c ∷ a) b (full, blank, percent) l k =
    (refl, Lacks-append 32 (c ∷ a) b blank l, Lacks-append 37 (c ∷ a) b percent k)

-- The key of a bound field is one word.
bind_key-IsWord :
    (object field value : Name)
    → IsWord object
    → IsWord field
    → IsWord value
    → IsWord (object ++ (bytes ":" ++ (field ++ (bytes ":" ++ value))))
bind_key-IsWord object field value o (ff, fb, fp) (vf, vb, vp) =
    IsWord-append object (bytes ":" ++ (field ++ (bytes ":" ++ value))) o
      (refl, Lacks-append 32 field (bytes ":" ++ value) fb (refl, vb))
      (refl, Lacks-append 37 field (bytes ":" ++ value) fp (refl, vp))

same-prefix : (p a b : Name) → same (p ++ a) (p ++ b) ≡ same a b
unfolding same
same-prefix [] a b = refl
same-prefix (c ∷ p) a b = let self : (c == c) ≡ true = ground arith in rw self (same-prefix p a b)

-- A name with a colon in it is none without.
same-colon : (a rest b : Name) → Lacks 58 b → same (a ++ (58 ∷ rest)) b ≡ false
unfolding same
same-colon [] rest [] h = refl
same-colon [] rest (d ∷ ds) (other, h) = rw other refl
same-colon (c ∷ a) rest [] h = refl
same-colon (c ∷ a) rest (d ∷ ds) (other, h) = elim (Bool-cases (c == d)) [
  | inl e ↦ rw e (same-colon a rest ds h)
  | inr e ↦ rw e refl
]

bind_key-other :
    (object field value tail : Name)
    → Lacks 58 tail
    → same
        (object ++ (bytes ":" ++ (field ++ (bytes ":" ++ value))))
        ((object ++ bytes ":") ++ tail)
      ≡ false
unfolding same
bind_key-other object field value tail h =
    ap (same (object ++ (bytes ":" ++ (field ++ (bytes ":" ++ value)))))
      (append_assoc object (bytes ":") tail)
    ∙ same-prefix object (bytes ":" ++ (field ++ (bytes ":" ++ value))) (bytes ":" ++ tail)
    ∙ same-colon field value tail h

-- The names and the values are words.
abbrev pub AllWords : Dict Name → Type 0
AllWords [] = Unit {0}
AllWords ((field, value) ∷ items) = IsWord field × IsWord value × AllWords items

pub assign-AllWords :
    (k v : Name) (t : Dict Name) → IsWord k → IsWord v → AllWords t → AllWords (assign k v t)
unfolding assign
assign-AllWords k v [] wk wv h = (wk, wv, tt)
assign-AllWords k v ((j, b) ∷ t) wk wv (wj, wb, h) = elim (Bool-cases (same j k)) [
  | inl e ↦ rw e (wk, wv, h)
  | inr e ↦ elim (Bool-cases (less k j)) [
    | inl l ↦ rw (e, l) (wk, wv, (wj, wb, h))
    | inr l ↦ rw (e, l) (wj, wb, assign-AllWords k v t wk wv h)
  ]
]

module _ (H : Hiredis) (exec : H.Context → List Name → Option Reply × H.Context)
    (hash : H.Context → Name → Option (List Name)) (split : Splits H exec)
    (serves : Serves exec hash) (client : Client H) where
  abbrev cache : H.Context → NoSqlDbCache H
  cache = linked H client

  -- What is done to the sets of bound fields leaves the hash of an object.
  pub set_bind_items-linked :
      (key object tail : Name) (fields : List Name) (items : Dict Name) (context : H.Context)
      → IsWord object
      → Lacks 37 key
      → Lacks 58 tail
      → AllWords items
      → hash context ((object ++ bytes ":") ++ tail) ≡ some fields
      → (context' : H.Context) × (set_bind_items_to_nosql H key object
            (bytes ":")
            items
            (cache context)
          ≡ some (cache context'))
        × (hash context' ((object ++ bytes ":") ++ tail) ≡ some fields)
  unfolding set_bind_items_to_nosql
  set_bind_items-linked key object tail fields [] context o k t h there = (context, refl, there)
  set_bind_items-linked key object tail fields ((field, value) ∷ items) context o k t (f, v, h)
        there =
      let (next, ran, kept) =
        add_set_cache-linked H exec hash split serves client context
          (object ++ (bytes ":" ++ (field ++ (bytes ":" ++ value)))) key
          (bind_key-IsWord object field value o f v) k in
      let (last, rest, stays) = set_bind_items-linked key object tail fields items next o k t h (
        kept ((object ++ bytes ":") ++ tail) fields (bind_key-other object field value tail t)
          there) in
      (last, rw ran rest, stays)
