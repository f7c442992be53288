-- ===== src/Redis/Tests.antt =====
-- Runs of the client of Redis, and the theorems at concrete inputs.
use qclib.Base.{◌≡◌, refl, ap, ◌∙◌, false, List, [], ◌∷◌, Option, none, some, if◌then◌else◌}
use qclib.Base.Int.{ℤ, pos}
use qclib.Names.{Name, Dict, find, assign, same, same_self, find-assign}
use qclib.DbGateway.{bytes}
use qclib.Redis.{
  KeyValue, Reply, array_reply, other_reply, error_reply, Hiredis, Client, connected,
  redis_get_hash,
}
use qclib.Redis.Words.{words, words_from, in_turn}
use mathlib.Core.Option.{some-injective}
use qclib.Redis.Server.{Serves}
use qclib.Redis.Stored.{Splits, answered, redis_get_hash_lem}

abbrev pub hash_or : Option (List Name) → List Name
hash_or none = []
hash_or (some fields) = fields

-- A server that keeps the arguments of HMSET under its key.
abbrev pub exec : Dict (List Name) → List Name → Option Reply × Dict (List Name)
exec store [] = (some (error_reply (bytes "ERR")), store)
exec store (command ∷ []) = (some (error_reply (bytes "ERR")), store)
exec store (command ∷ key ∷ args) =
    if same command (bytes "HMSET")
    then (some other_reply, assign key args store)
    else if same command (bytes "SADD")
    then (some other_reply, store)
    else (some (array_reply (hash_or (find key store))), store)

abbrev pub hash_at : Dict (List Name) → Name → Option (List Name)
hash_at store key = some (hash_or (find key store))

abbrev pub command_of : Dict (List Name) → Name → List Name → Option Reply × Dict (List Name)
command_of store text [] = exec store (words text)
command_of store text (key ∷ keys) = exec store (bytes "HGETALL" ∷ key ∷ keys)

abbrev pub small_redis : Hiredis
small_redis = record {
  Context = Dict (List Name);
  redis_connect = λ (ip : Name) (port : ℤ). some (false, []);
  redis_command = command_of;
  free_null = λ (store : Dict (List Name)). none;
}

pub small_redis-Splits : Splits small_redis exec
small_redis-Splits = record { plain = λ context text h. refl; argument = λ context key. refl }

kept_hash :
    (k : Name) (fields : List Name) (c : Dict (List Name))
    → hash_at (assign k fields c) k ≡ some fields
kept_hash k fields c =
    let there : find k (assign k fields c) ≡ some fields =
      find-assign k k fields c ∙ rw (same_self k) refl in
    ap (λ (r : Option (List Name)). some (hash_or r)) there

pub small_redis-Serves : Serves exec hash_at
unfolding same
small_redis-Serves = record {
  hgetall_lem = λ c k fields h. ap (λ r. (some (array_reply r), c)) (some-injective _ _ h);
  hmset_lem =
      λ c k kvs d h. (other_reply, assign k (in_turn kvs) c, refl, kept_hash k (in_turn kvs) c);
  sadd_lem = λ c j members. (other_reply, c, refl, λ k fields other h. h);
}

abbrev level : KeyValue
level = record { redis_field = bytes "l"; redis_value = bytes "1" }

abbrev gold : KeyValue
gold = record { redis_field = bytes "g"; redis_value = bytes "7" }

-- Two fields asked for, and one element in the reply of a server that knows one.
abbrev one_reply : Dict (List Name) → List Name → Option Reply × Dict (List Name)
one_reply store ws = (some (array_reply (bytes "12" ∷ [])), store)

abbrev short_redis : Hiredis
short_redis = record {
  Context = Dict (List Name);
  redis_connect = λ (ip : Name) (port : ℤ). some (false, []);
  redis_command = λ (store : Dict (List Name)) (text : Name) (args : List Name). one_reply store [];
  free_null = λ (store : Dict (List Name)). none;
}

short_redis-Splits : Splits short_redis one_reply
short_redis-Splits = record { plain = λ context text h. refl; argument = λ context key. refl }

abbrev short_client : Client short_redis
short_client = record { redis_ip = bytes "ip"; redis_port = pos 6379; redis_context = some [] }

redis_get_hash_lem_example :
    redis_get_hash short_redis
      (bytes "k")
      (record { redis_field = bytes "l"; redis_value = bytes "L" } ∷ [])
      short_client
    ≡ some (
      record { redis_field = bytes "l"; redis_value = bytes "L12" } ∷ [],
      connected short_redis [] short_client,
    )
unfolding answered
redis_get_hash_lem_example =
    redis_get_hash_lem short_redis one_reply short_redis-Splits (bytes "k")
      (record { redis_field = bytes "l"; redis_value = bytes "L" } ∷ []) (bytes "12" ∷ [])
      short_client [] [] refl (refl, (refl, tt), (refl, tt)) ((refl, (refl, tt), (refl, tt)), tt)
      refl

-- A blank in a value makes two words of it.
set_data_cache-blank :
    words (bytes "HMSET k f a b")
    ≡ bytes "HMSET" ∷ bytes "k" ∷ bytes "f" ∷ bytes "a" ∷ bytes "b" ∷ []
unfolding words_from
set_data_cache-blank = refl
