-- ===== src/Routers/Kv/Spec.antt =====
-- What the single-key handlers of app/routers/kv.py promise: a map from keys to texts.
use redgw_lite.Prelude.{String, ◌≡◌, true, false, Option, none, some, List, [], ◌∷◌, ◌⧺◌, ℤ}
use redgw_lite.Python.Value.{Value, null, bool, str}
use redgw_lite.Python.Exec.{Result, returned, raised}
use redgw_lite.Response.{error, not_found}
use redgw_lite.Settings.{DefaultsConfig}
use redgw_lite.Redis.{Command, Redis, reply_of, count_of}
use redgw_lite.Validation.{exceeds_size}
use redgw_lite.Routers.Kv.{
  KvSetRequest, KvRequest, read, remove, exists, write, write_nx, store_command,
}

-- What Redis documents of GET, SET, SETEX, DEL and EXISTS, while nobody else sends a command.
pub record StringServer {R : Type 0} (redis : Redis R) : Type 0 where
  pub contents : String → R → Option String
  pub lifetime : String → R → Value
  pub get :
      (k : String) (r : R)
      → (redis.execute false (Command.get k ∷ Command.ttl k ∷ []) r).0
        ≡ returned (reply_of (contents k r) ∷ lifetime k r ∷ [])
  pub contents-get :
      (k : String) (r : R)
      → contents k (redis.execute false (Command.get k ∷ Command.ttl k ∷ []) r).1 ≡ contents k r
  pub set :
      (k v : String) (ttl : ℤ) (r : R)
      → (redis.call (store_command k ttl v) r).0 ≡ returned (bool true)
  pub contents-set :
      (k v : String) (ttl : ℤ) (r : R)
      → contents k (redis.call (store_command k ttl v) r).1 ≡ some v
  pub set_nx :
      (k v : String) (ex : Option ℤ) (r : R)
      → (redis.call (Command.set k v true ex) r).0
        ≡ returned (elim (contents k r) [ none ↦ bool true | some u ↦ null ])
  pub contents-set_nx :
      (k v : String) (ex : Option ℤ) (r : R)
      → contents k (redis.call (Command.set k v true ex) r).1
        ≡ elim (contents k r) [ none ↦ some v | some u ↦ some u ]
  pub delete :
      (k : String) (r : R)
      → (redis.call (Command.delete k) r).0 ≡ returned (count_of (contents k r))
  pub contents-delete : (k : String) (r : R) → contents k (redis.call (Command.delete k) r).1 ≡ none
  pub exist :
      (k : String) (r : R)
      → (redis.call (Command.exists k) r).0 ≡ returned (count_of (contents k r))
  pub contents-exists :
      (k : String) (r : R) → contents k (redis.call (Command.exists k) r).1 ≡ contents k r

-- A request for one key.
pub data KeyRequest : Type 0 where
  get_key delete_key has_key : KeyRequest
  put_key put_new_key : KvSetRequest → KeyRequest

abbrev pub request : String → KeyRequest → KvRequest
request key get_key = read key
request key delete_key = remove key
request key has_key = exists key
request key (put_key body) = write key body
request key (put_new_key body) = write_nx key body

-- The map's operations at a key: the data of the response or the exception, and what the key holds.
abbrev pub specified :
    String → String → KeyRequest → Option String → Result (List (String × Value)) × Option String
specified ns key get_key none = (raised (not_found key ns), none)
specified ns key get_key (some v) = (returned (("value", str v) ∷ []), some v)
specified ns key delete_key none = (raised (not_found key ns), none)
specified ns key delete_key (some v) = (returned (("deleted", bool true) ∷ []), none)
specified ns key has_key none = (returned (("exists", bool false) ∷ []), none)
specified ns key has_key (some v) = (returned (("exists", bool true) ∷ []), some v)
specified ns key (put_key body) held = (returned (("value", str body.value) ∷ []), some body.value)
specified ns key (put_new_key body) none =
    (returned (("acquired", bool true) ∷ ("value", str body.value) ∷ []), some body.value)
specified ns key (put_new_key body) (some v) = (
  raised (error "KEY_EXISTS" ("Key '" ⧺ key ⧺ "' already exists in namespace '" ⧺ ns ⧺ "'") 409),
  some v,
)

-- A body within the limit; `write_nx` does not ask.
abbrev pub Fits : DefaultsConfig → KeyRequest → Type 0
Fits defaults (put_key body) = exceeds_size body.value defaults.max_value_size ≡ false
Fits defaults _ = Unit
