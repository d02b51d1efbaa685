-- ===== src/Routers/Map.antt =====
-- app/routers/map.py: the handlers of the Hash type, under /ns/{ns}/map.
pub mod Scope
pub mod Tests
pub mod Reports
use redgw_lite.Prelude.{
  String, Bool, true, false, not, Option, List, [], ◌∷◌, ◌++◌, ◌⧺◌, length, ℤ, pos, negsuc, is_pos,
  map, if◌then◌else◌,
}
use redgw_lite.Python.Value.{Value, int, str, bool, dict, fields_of, is_none, truthy, normalised}
use redgw_lite.Python.Exec.{Exec, pure, raise, lift, ◌>>=◌, ◌>>◌, for_each, comprehension}
use redgw_lite.Response.{Response, ok, ok_ttl, error, not_found}
use redgw_lite.Settings.{DefaultsConfig}
use redgw_lite.KeyBuilder.{build_key, map_prefix}
use redgw_lite.Redis.{Command, Redis, World, await, execute, unpack_two, last_of_results}
use redgw_lite.Auth.ApiKey.{ClientInfo}
use redgw_lite.Auth.Guard.{require_read, require_write}
use redgw_lite.Validation.{
  check_value_size, check_dict_values_size, resolve_ttl, touch_key, expire_or_persist,
}
use redgw_lite.Routers.Batch.{build_keys, paired, counted, flattened}

-- Bodies: app/schemas/map.py
pub record MapSetRequest : Type 0 where
  pub fields : List (String × String)
  pub ttl : Option ℤ

pub record MapFieldSetRequest : Type 0 where
  pub value : String
  pub ttl : Option ℤ

pub record MapBatchSetRequest : Type 0 where
  pub items : List (String × List (String × String))
  pub ttl : Option ℤ

-- A dict of texts as a value.
abbrev pub text_fields : List (String × String) → Value
text_fields fields = dict (fields_of (map (λ f. (f.0, str f.1)) fields))

-- `raise error("FIELD_NOT_FOUND", …)`
abbrev pub field_not_found : {W A : Type 0} → String → String → Exec W A
field_not_found key field =
    raise (error "FIELD_NOT_FOUND" ("Field '" ⧺ field ⧺ "' not found in key '" ⧺ key ⧺ "'") 404)

module _ {R : Type 0} (redis : Redis R) (defaults : DefaultsConfig) (client : ClientInfo) where
  unfoldable pub batch_get_map : String → List String → Exec (World R) Response
  batch_get_map ns body_keys = do
    require_read client ns
    redis_keys ← build_keys ns map_prefix body_keys
    results ← execute redis false (map Command.hgetall redis_keys)
    pure (ok (counted "values" (paired truthy (λ v. v) body_keys results [])) ns "batch" "hash")

  -- The two queued commands of one key of `batch_set_map`.
  unfoldable pub queued_hset :
      String → ℤ → String × List (String × String) → Exec (World R) (List Command)
  queued_hset ns ttl item = do
    redis_key ← lift (build_key ns map_prefix item.0)
    pure (Command.hset redis_key item.1 ∷ expire_or_persist redis_key ttl ∷ [])

  unfoldable pub batch_set_map : String → MapBatchSetRequest → Exec (World R) Response
  batch_set_map ns body = do
    require_write client ns
    for_each body.items (λ item. check_dict_values_size defaults item.1)
    commands ← comprehension (queued_hset ns (resolve_ttl defaults body.ttl)) body.items
    _ ← execute redis true (flattened commands)
    pure (ok (("stored", int (pos (length body.items))) ∷ []) ns "batch" "hash")

  unfoldable pub get_map : String → String → Exec (World R) Response
  get_map ns key = do
    require_read client ns
    redis_key ← lift (build_key ns map_prefix key)
    results ← execute redis false (Command.hgetall redis_key ∷ Command.ttl redis_key ∷ [])
    pair ← lift (unpack_two results)
    if not (truthy pair.0)
        then raise (not_found key ns)
        else pure (ok_ttl (("fields", pair.0) ∷ []) ns key "hash" (normalised pair.1))

  unfoldable pub get_map_field : String → String → String → Exec (World R) Response
  get_map_field ns key field = do
    require_read client ns
    redis_key ← lift (build_key ns map_prefix key)
    results ← execute redis false (Command.hget redis_key field ∷ Command.ttl redis_key ∷ [])
    pair ← lift (unpack_two results)
    if is_none pair.0
        then field_not_found key field
        else pure (
            ok_ttl (("field", str field) ∷ ("value", pair.0) ∷ []) ns key "hash"
              (normalised pair.1))

  unfoldable pub set_map : String → String → MapSetRequest → Exec (World R) Response
  set_map ns key body = do
    require_write client ns
    check_dict_values_size defaults body.fields
    redis_key ← lift (build_key ns map_prefix key)
    let ttl = resolve_ttl defaults body.ttl
    results ← execute redis true (
        Command.hset redis_key body.fields
        ∷ expire_or_persist redis_key ttl
        ∷ Command.ttl redis_key
        ∷ [])
    remaining ← lift (last_of_results results)
    pure (ok_ttl (("fields", text_fields body.fields) ∷ []) ns key "hash" remaining)

  unfoldable pub touch_map : String → String → ℤ → Exec (World R) Response
  touch_map ns key ttl = do
    require_write client ns
    redis_key ← lift (build_key ns map_prefix key)
    touch_key redis redis_key ttl ns key "hash"

  -- The two branches of `set_map_field`: with a lifetime in a transaction, without one not.
  unfoldable pub set_field_for :
      String → String → String → String → ℤ → Bool → Exec (World R) Response
  set_field_for ns key field value ttl true = do
    redis_key ← lift (build_key ns map_prefix key)
    results ← execute redis true (
        Command.hset redis_key ((field, value) ∷ [])
        ∷ Command.expire redis_key ttl
        ∷ Command.ttl redis_key
        ∷ [])
    remaining ← lift (last_of_results results)
    pure (ok_ttl (("field", str field) ∷ ("value", str value) ∷ []) ns key "hash" remaining)
  set_field_for ns key field value ttl false = do
    redis_key ← lift (build_key ns map_prefix key)
    results ← execute redis false (
        Command.hset redis_key ((field, value) ∷ [])
        ∷ Command.persist redis_key
        ∷ Command.ttl redis_key
        ∷ [])
    remaining ← lift (last_of_results results)
    pure (
        ok_ttl (("field", str field) ∷ ("value", str value) ∷ []) ns key "hash"
          (normalised remaining))

  unfoldable pub set_map_field :
      String → String → String → MapFieldSetRequest → Exec (World R) Response
  set_map_field ns key field body = do
    require_write client ns
    check_value_size defaults body.value "Value"
    let ttl = resolve_ttl defaults body.ttl
    set_field_for ns key field body.value ttl (is_pos ttl)

  unfoldable pub delete_map : String → String → Exec (World R) Response
  delete_map ns key = do
    require_write client ns
    redis_key ← lift (build_key ns map_prefix key)
    deleted ← await redis (Command.delete redis_key)
    if not (truthy deleted)
        then raise (not_found key ns)
        else pure (ok (("deleted", bool true) ∷ []) ns key "hash")

  unfoldable pub delete_map_field : String → String → String → Exec (World R) Response
  delete_map_field ns key field = do
    require_write client ns
    redis_key ← lift (build_key ns map_prefix key)
    deleted ← await redis (Command.hdel redis_key field)
    if not (truthy deleted)
        then field_not_found key field
        else pure (ok (("deleted", bool true) ∷ ("field", str field) ∷ []) ns key "hash")

-- The routes of the file, each with the parts of the request that its handler takes.
pub data MapRequest : Type 0 where
  batch_get : List String → MapRequest
  batch_set : MapBatchSetRequest → MapRequest
  read remove : String → MapRequest
  read_field remove_field : String → String → MapRequest
  write : String → MapSetRequest → MapRequest
  write_field : String → String → MapFieldSetRequest → MapRequest
  touch : String → ℤ → MapRequest

-- Whether the handler of a route requires "write", and not "read".
abbrev pub writes : MapRequest → Bool
writes (batch_get ks) = false
writes (read k) = false
writes (read_field k f) = false
writes _ = true

module _ {R : Type 0} (redis : Redis R) (defaults : DefaultsConfig) (client : ClientInfo) where
  abbrev pub serve : String → MapRequest → Exec (World R) Response
  serve ns (batch_get ks) = batch_get_map redis defaults client ns ks
  serve ns (batch_set body) = batch_set_map redis defaults client ns body
  serve ns (read key) = get_map redis defaults client ns key
  serve ns (remove key) = delete_map redis defaults client ns key
  serve ns (read_field key field) = get_map_field redis defaults client ns key field
  serve ns (remove_field key field) = delete_map_field redis defaults client ns key field
  serve ns (write key body) = set_map redis defaults client ns key body
  serve ns (write_field key field body) = set_map_field redis defaults client ns key field body
  serve ns (touch key ttl) = touch_map redis defaults client ns key ttl
