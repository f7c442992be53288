-- ===== src/Redis/Cache.antt =====
-- commonsrc/src/db_cache.cpp: `NoSqlDBCache`, which has a client of Redis once it is configured.
use qclib.Base.{Bool, true, false, List, Option, none, some, ◌>>=◌}
use qclib.Base.Int.{ℤ}
use qclib.Names.{Name}
use qclib.Redis.{
  KeyValue, Hiredis, Client, new_client, redis_connect, redis_set_hash, redis_get_hash,
  redis_get_hash_all, redis_get_all_keys, redis_add_set, redis_get_set,
}

module _ (H : Hiredis) where
  pub record NoSqlDbCache : Type 0 where
    pub nosql_db_cache : Option (Client H)

  abbrev pub no_cache : NoSqlDbCache
  no_cache = record { nosql_db_cache = none }

  abbrev pub with_client : Client H → NoSqlDbCache
  with_client c = record { nosql_db_cache = some c }

  unfoldable pub load_config : Name → ℤ → NoSqlDbCache → Bool × NoSqlDbCache
  load_config ip port d = elim d.nosql_db_cache [
    | none ↦ (true, with_client (new_client H ip port))
    | some c ↦ (false, d)
  ]

  unfoldable pub open_cache : NoSqlDbCache → Bool × NoSqlDbCache
  unfolding redis_connect
  open_cache d = elim d.nosql_db_cache [
    | none ↦ (false, d)
    | some c ↦ let (done, c') = redis_connect H c in (done, with_client c')
  ]

  -- The calls that are handed on: without a client, the caller's value stays.
  abbrev pub hand_on :
      {A : Type 0}
      → NoSqlDbCache
      → A
      → (Client H → Option (A × Client H))
      → Option (A × NoSqlDbCache)
  hand_on d a call = elim d.nosql_db_cache [
    | none ↦ some (a, d)
    | some c ↦ call c >>= λ result. let (a', c') = result in some (a', with_client c')
  ]

  unfoldable pub set_data_cache :
      Name → List KeyValue → NoSqlDbCache → Option ((Unit {0}) × NoSqlDbCache)
  unfolding redis_set_hash
  set_data_cache key set_value d = hand_on d tt (redis_set_hash H key set_value)

  unfoldable pub get_data_cache :
      Name → List KeyValue → NoSqlDbCache → Option (List KeyValue × NoSqlDbCache)
  unfolding redis_get_hash
  get_data_cache key get_value d = hand_on d get_value (redis_get_hash H key get_value)

  unfoldable pub get_data_cache_all :
      Name → List KeyValue → NoSqlDbCache → Option (List KeyValue × NoSqlDbCache)
  unfolding redis_get_hash_all
  get_data_cache_all key get_value d = hand_on d get_value (redis_get_hash_all H key get_value)

  unfoldable pub get_all_keys :
      Option Name → List Name → NoSqlDbCache → Option (List Name × NoSqlDbCache)
  unfolding redis_get_all_keys
  get_all_keys pattern get_value d = hand_on d get_value (redis_get_all_keys H pattern get_value)

  unfoldable pub add_set_cache :
      Option Name → List Name → NoSqlDbCache → Option ((Unit {0}) × NoSqlDbCache)
  unfolding redis_add_set
  add_set_cache key set_value d = hand_on d tt (redis_add_set H key set_value)

  unfoldable pub get_set_cache :
      Option Name → List Name → NoSqlDbCache → Option (List Name × NoSqlDbCache)
  unfolding redis_get_set
  get_set_cache key get_value d = hand_on d get_value (redis_get_set H key get_value)
