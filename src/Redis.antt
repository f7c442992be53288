-- ===== src/Redis.antt =====
-- commonsrc/src/redis_client.cpp, the synchronous client (`RedisSyncClient`), and commonsrc/src/db_cache.cpp,
-- which hands its calls on. The library hiredis is a parameter, a record of the calls that the client
-- makes. A read through a null pointer or beyond the end has no result.
use qclib.Base.{ℕ, Bool, true, false, List, [], ◌∷◌, ◌++◌, Option, none, some, ◌>>=◌}
use qclib.Base.Int.{ℤ}
use qclib.Names.{Name}
use qclib.DbGateway.{bytes}
pub mod Cache
pub mod Words
pub mod Stored
pub mod Server
pub mod Tests

-- `RedisKeyValue`
pub record KeyValue : Type 0 where
  pub redis_field : Name
  pub redis_value : Name

-- `redisReply` by its type: an error with its text, an array with the texts of its elements (a nil is
-- the empty text), or another.
pub data Reply : Type 0 where
  error_reply : Name → Reply
  array_reply : List Name → Reply
  other_reply : Reply

-- A context stands for the connection and the server behind it.
pub record Hiredis : Type 1 where
  pub Context : Type 0
  -- `redisConnect`: no context, or one with the flag `err`.
  pub redis_connect : Name → ℤ → Option (Bool × Context)
  -- `redisCommand` with a format and the texts for its `%s`; the reply may be null.
  pub redis_command : Context → Name → List Name → Option Reply × Context
  -- `freeReplyObject` on null
  pub free_null : Context → Option Context

-- The loop of RedisSetHash and those of RedisGetHash and RedisAddSet, which append to the command.
unfoldable pub set_fields : List KeyValue → Name → Name
set_fields [] command = command
set_fields (kv ∷ kvs) command =
    set_fields kvs ((((command ++ bytes " ") ++ kv.redis_field) ++ bytes " ") ++ kv.redis_value)

unfoldable pub get_fields : List KeyValue → Name → Name
get_fields [] command = command
get_fields (kv ∷ kvs) command = get_fields kvs ((command ++ bytes " ") ++ kv.redis_field)

unfoldable pub set_members : List Name → Name → Name
set_members [] command = command
set_members (key ∷ keys) command = set_members keys ((command ++ bytes " ") ++ key)

-- The loop of RedisGetHash over the reply and the fields that were asked for: it ends with the longer one.
unfoldable pub fill_values : List Name → List KeyValue → Option (List KeyValue)
fill_values [] [] = some []
fill_values [] (kv ∷ kvs) = none
fill_values (e ∷ es) [] = none
fill_values (e ∷ es) (kv ∷ kvs) = fill_values es kvs >>= λ rest.
    some (record { redis_field = kv.redis_field; redis_value = kv.redis_value ++ e } ∷ rest)

-- The loop of RedisGetHashAll: `even` is `i % 2 == 0`, and `kv` the variable of the loop.
unfoldable pub fill_pairs : Bool → KeyValue → List Name → List KeyValue → List KeyValue
fill_pairs even kv [] get_value = get_value
fill_pairs true kv (e ∷ es) get_value =
    fill_pairs false (record { redis_field = e; redis_value = kv.redis_value }) es get_value
fill_pairs false kv (e ∷ es) get_value =
    let kv' : KeyValue = record { redis_field = kv.redis_field; redis_value = e } in
    fill_pairs true kv' es (get_value ++ (kv' ∷ []))

abbrev pub no_pair : KeyValue
no_pair = record { redis_field = []; redis_value = [] }

module _ (H : Hiredis) where
  pub record Client : Type 0 where
    pub redis_ip : Name
    pub redis_port : ℤ
    pub redis_context : Option H.Context

  abbrev pub new_client : Name → ℤ → Client
  new_client ip port = record { redis_ip = ip; redis_port = port; redis_context = none }

  unfoldable pub redis_connect : Client → Bool × Client
  redis_connect c = elim c.redis_context [
    | some _ ↦ (false, c)
    | none ↦ elim (H.redis_connect c.redis_ip c.redis_port) [
      | none ↦ (false, c)
      | some (err, context) ↦ elim err [
        | true ↦ (false, c)
        | false ↦ (true, record c { redis_context = some context })
      ]
    ]
  ]

  abbrev pub connected : H.Context → Client → Client
  connected context c = record c { redis_context = some context }

  -- A reply that is read without a test for null.
  abbrev pub read_reply :
      {A : Type 0} → Client → Option Reply × H.Context → (Reply → Option A) → Option (A × Client)
  read_reply c (none, context) read = none
  read_reply c (some reply, context) read = read reply >>= λ a. some (a, connected context c)

  -- A reply that is only read if it is not null, and freed in any case.
  abbrev pub free_reply :
      {A : Type 0} → Client → Option Reply × H.Context → A → (Reply → A) → Option (A × Client)
  free_reply c (none, context) a read =
      H.free_null context >>= λ context'. some (a, connected context' c)
  free_reply c (some reply, context) a read = some (read reply, connected context c)

  unfoldable pub redis_set_hash : Name → List KeyValue → Client → Option ((Unit {0}) × Client)
  unfolding set_fields
  redis_set_hash key set_value c = elim c.redis_context [
    | none ↦ some (tt, c)
    | some context ↦
        read_reply c (H.redis_command context (set_fields set_value (bytes "HMSET " ++ key)) [])
          (λ reply. some tt)
  ]

  unfoldable pub redis_get_hash : Name → List KeyValue → Client → Option (List KeyValue × Client)
  unfolding get_fields fill_values
  redis_get_hash key get_value c = elim c.redis_context [
    | none ↦ some (get_value, c)
    | some context ↦
        read_reply c (H.redis_command context (get_fields get_value (bytes "HMGET " ++ key)) [])
          (λ reply. elim reply [
            | error_reply str ↦ some get_value
            | array_reply es ↦ fill_values es get_value
            | other_reply ↦ some get_value
          ])
  ]

  unfoldable pub redis_get_hash_all :
      Name → List KeyValue → Client → Option (List KeyValue × Client)
  unfolding fill_pairs
  redis_get_hash_all key get_value c = elim c.redis_context [
    | none ↦ some (get_value, c)
    | some context ↦
        read_reply c (H.redis_command context (bytes "HGETALL  %s") (key ∷ [])) (λ reply.
          elim reply [
            | error_reply str ↦ some []
            | array_reply es ↦ some (fill_pairs true no_pair es [])
            | other_reply ↦ some []
          ])
  ]

  -- The keys of a reply, behind those that are there.
  unfoldable pub add_keys : List Name → Reply → List Name
  add_keys get_keys (error_reply str) = get_keys
  add_keys get_keys (array_reply es) = get_keys ++ es
  add_keys get_keys other_reply = get_keys

  -- `none` is the pattern NULL.
  unfoldable pub redis_get_all_keys : Option Name → List Name → Client → Option (List Name × Client)
  unfolding add_keys
  redis_get_all_keys pattern get_keys c = elim c.redis_context [
    | none ↦ some (get_keys, c)
    | some context ↦
        free_reply c
          (elim pattern [
            | some key ↦ H.redis_command context (bytes "KEYS  %s") (key ∷ [])
            | none ↦ H.redis_command context (bytes "KEYS  *") []
          ])
          get_keys (add_keys get_keys)
  ]

  unfoldable pub redis_add_set : Option Name → List Name → Client → Option ((Unit {0}) × Client)
  unfolding set_members
  redis_add_set set_table_key set_keys c = elim c.redis_context [
    | none ↦ some (tt, c)
    | some context ↦ elim set_table_key [
      | none ↦ some (tt, c)
      | some key ↦
          free_reply c (H.redis_command context (set_members set_keys (bytes "SADD " ++ key)) []) tt
            (λ reply. tt)
    ]
  ]

  unfoldable pub redis_get_set : Option Name → List Name → Client → Option (List Name × Client)
  unfolding add_keys
  redis_get_set get_table_key get_keys c = elim c.redis_context [
    | none ↦ some (get_keys, c)
    | some context ↦ elim get_table_key [
      | none ↦ some (get_keys, c)
      | some key ↦
          free_reply c (H.redis_command context (bytes "SMEMBERS " ++ key) []) get_keys
            (add_keys get_keys)
    ]
  ]
