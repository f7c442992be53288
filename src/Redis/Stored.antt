-- ===== src/Redis/Stored.antt =====
-- commonsrc/src/redis_client.cpp and commonsrc/src/db_cache.cpp: what is sent to the server, and what is
-- made of its replies.
use qclib.Base.{
  ◌≡◌, refl, sym, ap, ◌∙◌, arith, true, List, [], ◌∷◌, ◌++◌, Option, none, some, ◌==◌, length,
  if◌then◌else◌,
}
use qclib.Names.{Name}
use qclib.DbGateway.{bytes}
use qclib.DbGateway.Items.{Lacks}
use qclib.Redis.{
  KeyValue, Reply, array_reply, Hiredis, Client, connected, set_fields, get_fields, fill_values,
  fill_pairs, redis_get_hash,
}
use qclib.Redis.Words.{
  words, IsWord, AreWords, spaced, plain-spaced, in_turn, field_names, set_fields_lem,
  get_fields_lem,
}
use mathlib.Core.List.{append_assoc, append-nil}

-- hiredis: a command without '%' goes to the server as its words, and the text for a '%s' as one argument.
pub record Splits (H : Hiredis) (exec : H.Context → List Name → Option Reply × H.Context)
    : Type 0 where
  pub plain :
      (context : H.Context) (text : Name)
      → Lacks 37 text
      → H.redis_command context text [] ≡ exec context (words text)
  pub argument :
      (context : H.Context) (key : Name)
      → H.redis_command context (bytes "HGETALL  %s") (key ∷ [])
        ≡ exec context (bytes "HGETALL" ∷ key ∷ [])

-- The values of the reply behind those that are there.
unfoldable pub answered : List Name → List KeyValue → List KeyValue
answered [] kvs = []
answered (e ∷ es) [] = []
answered (e ∷ es) (kv ∷ kvs) =
    record { redis_field = kv.redis_field; redis_value = kv.redis_value ++ e } ∷ answered es kvs

fill_values_lem :
    (es : List Name) (kvs : List KeyValue)
    → fill_values es kvs ≡ (if length es == length kvs then some (answered es kvs) else none)
unfolding fill_values answered
fill_values_lem [] [] = refl
fill_values_lem [] (kv ∷ kvs) = ground arith
fill_values_lem (e ∷ es) [] = ground arith
fill_values_lem (e ∷ es) (kv ∷ kvs) = ground (arith, fill_values_lem es kvs)

pub fill_pairs-in_turn :
    (kv : KeyValue) (kvs got : List KeyValue) → fill_pairs true kv (in_turn kvs) got ≡ got ++ kvs
unfolding fill_pairs in_turn
fill_pairs-in_turn kv [] got = sym (append-nil got)
fill_pairs-in_turn kv (new ∷ kvs) got =
    fill_pairs-in_turn new kvs (got ++ (new ∷ [])) ∙ append_assoc got (new ∷ []) kvs

module _ (H : Hiredis) (exec : H.Context → List Name → Option Reply × H.Context)
    (split : Splits H exec) where
  pub sent :
      (context : H.Context) (n : Name) (ns : List Name)
      → IsWord n
      → AreWords ns
      → H.redis_command context (n ++ spaced ns) [] ≡ exec context (n ∷ ns)
  sent context n ns w a =
      let (plain, same) = plain-spaced n ns w a in
      split.plain context (n ++ spaced ns) plain ∙ ap (exec context) same

  pub set-sent :
      (context : H.Context) (key : Name) (kvs : List KeyValue)
      → IsWord key
      → AreWords (in_turn kvs)
      → H.redis_command context (set_fields kvs (bytes "HMSET " ++ key)) []
        ≡ exec context (bytes "HMSET" ∷ key ∷ in_turn kvs)
  unfolding spaced
  set-sent context key kvs w a =
      ap (λ (t : Name). H.redis_command context t []) (set_fields_lem kvs (bytes "HMSET " ++ key))
      ∙ sent context (bytes "HMSET") (key ∷ in_turn kvs)
          (
            refl,
            (refl, (refl, (refl, (refl, (refl, tt))))),
            (refl, (refl, (refl, (refl, (refl, tt))))),
          )
          (w, a)

  get-sent :
      (context : H.Context) (key : Name) (kvs : List KeyValue)
      → IsWord key
      → AreWords (field_names kvs)
      → H.redis_command context (get_fields kvs (bytes "HMGET " ++ key)) []
        ≡ exec context (bytes "HMGET" ∷ key ∷ field_names kvs)
  unfolding spaced
  get-sent context key kvs w a =
      ap (λ (t : Name). H.redis_command context t []) (get_fields_lem kvs (bytes "HMGET " ++ key))
      ∙ sent context (bytes "HMGET") (key ∷ field_names kvs)
          (
            refl,
            (refl, (refl, (refl, (refl, (refl, tt))))),
            (refl, (refl, (refl, (refl, (refl, tt))))),
          )
          (w, a)

  -- RedisGetHash on an open connection, for a key and fields that are words, when the server replies with
  -- an array: with as many elements as fields were asked for, each is appended to the value of its field;
  -- with any other number the loop reads beyond the end of one of the two.
  pub redis_get_hash_lem :
      (key : Name) (kvs : List KeyValue) (es : List Name) (c : Client H)
      (context context' : H.Context)
      → c.redis_context ≡ some context
      → IsWord key
      → AreWords (field_names kvs)
      → exec context (bytes "HMGET" ∷ key ∷ field_names kvs) ≡ (some (array_reply es), context')
      → redis_get_hash H key kvs c
        ≡ (if length es == length kvs then some (answered es kvs, connected H context' c) else none)
  unfolding redis_get_hash
  redis_get_hash_lem key kvs es c context context' link w a got =
      rw (link, get-sent context key kvs w a, got, fill_values_lem es kvs) (ground arith)
