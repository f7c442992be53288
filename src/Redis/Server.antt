-- ===== src/Redis/Server.antt =====
-- commonsrc/src/db_cache.cpp over a server that keeps hashes: what the calls of an open cache do to it.
use qclib.Base.{◌≡◌, refl, ap, ◌∙◌, false, List, [], ◌∷◌, ◌++◌, Option, some}
use qclib.Names.{Name, same}
use qclib.DbGateway.{bytes}
use qclib.DbGateway.Items.{Lacks}
use qclib.Redis.{
  KeyValue, Reply, array_reply, Hiredis, Client, connected, no_pair, set_members, redis_set_hash,
  redis_get_hash_all, redis_add_set,
}
use qclib.Redis.Cache.{NoSqlDbCache, with_client, set_data_cache, get_data_cache_all, add_set_cache}
use qclib.Redis.Words.{
  IsWord, AreWords, in_turn, field_names, words, words_from, spaced, word-words, Lacks-append,
  set_members_lem,
}
use mathlib.Core.List.{append-nil}
use qclib.Redis.Stored.{Splits, set-sent, fill_pairs-in_turn}

-- No name stands twice.
abbrev pub Differs : Name → List Name → Type 0
Differs n [] = Unit {0}
Differs n (m ∷ ms) = (same n m ≡ false) × Differs n ms

abbrev pub AreDistinct : List Name → Type 0
AreDistinct [] = Unit {0}
AreDistinct (n ∷ ns) = Differs n ns × AreDistinct ns

-- Redis, by what stands under a key: a hash, as its fields and values in turn and in the order in which a
-- small hash keeps them, the empty one where there is no key, or `none` for another type. HGETALL
-- gives a hash, HMSET on a key that is not there stores fields that differ, and SADD on one
-- key leaves the hashes under other keys; all three are replied to.
pub record Serves {C : Type 0} (exec : C → List Name → Option Reply × C)
    (hash : C → Name → Option (List Name)) : Type 0 where
  pub hgetall_lem :
      (c : C) (k : Name) (fields : List Name)
      → hash c k ≡ some fields
      → exec c (bytes "HGETALL" ∷ k ∷ []) ≡ (some (array_reply fields), c)
  pub hmset_lem :
      (c : C) (k : Name) (kvs : List KeyValue)
      → AreDistinct (field_names kvs)
      → hash c k ≡ some []
      → (reply : Reply) × (c' : C) × (exec c (bytes "HMSET" ∷ k ∷ in_turn kvs) ≡ (some reply, c'))
        × (hash c' k ≡ some (in_turn kvs))
  pub sadd_lem :
      (c : C) (j : Name) (members : List Name)
      → (reply : Reply) × (c' : C) × (exec c (bytes "SADD" ∷ j ∷ members) ≡ (some reply, c'))
        × ((k : Name) (fields : List Name)
            → same j k ≡ false
            → hash c k ≡ some fields
            → hash c' k ≡ some fields)

-- The cache whose client is connected.
abbrev pub linked : (H : Hiredis) → Client H → H.Context → NoSqlDbCache H
linked H client context = with_client H (connected H context client)

module _ (H : Hiredis) (exec : H.Context → List Name → Option Reply × H.Context)
    (hash : H.Context → Name → Option (List Name)) (split : Splits H exec)
    (serves : Serves exec hash) (client : Client H) where
  pub set_data_cache-linked :
      (context : H.Context) (key : Name) (kvs : List KeyValue)
      → IsWord key
      → AreWords (in_turn kvs)
      → AreDistinct (field_names kvs)
      → hash context key ≡ some []
      → (context' : H.Context) × (set_data_cache H key kvs (linked H client context)
          ≡ some (tt, linked H client context'))
        × (hash context' key ≡ some (in_turn kvs))
  unfolding set_data_cache redis_set_hash
  set_data_cache-linked context key kvs w a d fresh =
      let (reply, context', ran, stored) = serves.hmset_lem context key kvs d fresh in
      (context', rw (set-sent H exec split context key kvs w a, ran) refl, stored)

  pub get_data_cache_all-linked :
      (context : H.Context) (key : Name) (kvs : List KeyValue)
      → hash context key ≡ some (in_turn kvs)
      → get_data_cache_all H key [] (linked H client context) ≡ some (kvs, linked H client context)
  unfolding get_data_cache_all redis_get_hash_all
  get_data_cache_all-linked context key kvs there =
      rw
        (
          split.argument context key,
          serves.hgetall_lem context key (in_turn kvs) there,
          fill_pairs-in_turn no_pair kvs [],
        )
        refl

  pub add_set_cache-linked :
      (context : H.Context) (j n : Name)
      → IsWord j
      → Lacks 37 n
      → (context' : H.Context) × (add_set_cache H (some j) (n ∷ []) (linked H client context)
          ≡ some (tt, linked H client context'))
        × ((k : Name) (fields : List Name)
            → same j k ≡ false
            → hash context k ≡ some fields
            → hash context' k ≡ some fields)
  unfolding add_set_cache redis_add_set spaced words_from
  add_set_cache-linked context j n (full, blank, percent) l =
      let (reply, context', ran, kept) = serves.sadd_lem context j (words n) in
      let plain : Lacks 37 (bytes "SADD" ++ spaced (j ∷ n ∷ [])) = (
        refl,
        (
          refl,
          (
            refl,
            (
              refl,
              (refl, Lacks-append 37 j (32 ∷ (n ++ [])) percent (refl, Lacks-append 37 n [] l tt)),
            ),
          ),
        ),
      ) in
      let sent : H.redis_command context (set_members (n ∷ []) (bytes "SADD " ++ j)) []
          ≡ exec context (bytes "SADD" ∷ j ∷ words n) =
        ap (λ (t : Name). H.redis_command context t [])
          (set_members_lem (n ∷ []) (bytes "SADD " ++ j))
        ∙ split.plain context (bytes "SADD" ++ spaced (j ∷ n ∷ [])) plain
        ∙ ap (exec context) (
            ap (λ (ws : List Name). bytes "SADD" ∷ ws)
              (word-words [] j (n ++ []) full blank
                ∙ ap (λ (t : Name). j ∷ words t) (append-nil n))) in
      (context', rw (sent, ran) refl, kept)
