-- ===== src/Routers/Kv.antt =====
-- app/routers/kv.py: the handlers of the String type, under /ns/{ns}/kv.
pub mod Scope
pub mod Atomic
pub mod Store
pub mod Spec
pub mod Tests
use redgw_lite.Prelude.{
  ℕ, String, Bool, true, false, not, Option, none, some, List, [], ◌∷◌, ◌⧺◌, length, ℤ, pos, negsuc,
  is_pos, if◌then◌else◌,
}
use redgw_lite.Python.Value.{Value, int, str, bool, is_none, truthy, text_of, normalised}
use redgw_lite.Python.Exec.{Exec, pure, raise, lift, ◌>>=◌, ◌>>◌, for_each, comprehension}
use redgw_lite.Response.{Response, ok, ok_ttl, error, not_found}
use redgw_lite.Settings.{DefaultsConfig}
use redgw_lite.KeyBuilder.{build_key, kv_prefix}
use redgw_lite.Redis.{Command, Redis, World, await, execute, unpack_two, rescue}
use redgw_lite.Auth.ApiKey.{ClientInfo}
use redgw_lite.Auth.Guard.{require_read, require_write}
use redgw_lite.Validation.{check_value_size, resolve_ttl, touch_key}
use redgw_lite.Routers.Batch.{build_keys, iterate, paired, counted}

-- Bodies: app/schemas/kv.py, and the body of every touch handler, app/schemas/admin.py. Their
-- ranges are checked before a handler runs.
pub record KvSetRequest : Type 0 where
  pub value : String
  pub ttl : Option ℤ

pub record KvBatchSetRequest : Type 0 where
  pub items : List (String × String)
  pub ttl : Option ℤ

-- `ttl if ttl > 0 else -1`
abbrev pub reported_ttl : ℤ → Value
reported_ttl ttl = if is_pos ttl then int ttl else int (negsuc 0)

-- `pipe.setex(key, ttl, value)` or `pipe.set(key, value)`
abbrev pub store_command : String → ℤ → String → Command
store_command redis_key ttl value =
    if is_pos ttl then Command.setex redis_key ttl value else Command.set redis_key value false none

module _ {R : Type 0} (redis : Redis R) (defaults : DefaultsConfig) (client : ClientInfo) where
  unfoldable pub batch_get_kv : String → List String → Exec (World R) Response
  batch_get_kv ns body_keys = do
    require_read client ns
    redis_keys ← build_keys ns kv_prefix body_keys
    reply ← await redis (Command.mget redis_keys)
    values ← lift (iterate reply)
    pure (
        ok (counted "values" (paired (λ v. not (is_none v)) (λ v. v) body_keys values [])) ns
          "batch" "string")

  -- One queued command of `batch_set_kv`; `build_key` may raise, and then nothing is sent.
  unfoldable pub queued_set : String → ℤ → String × String → Exec (World R) Command
  queued_set ns ttl item = do
    redis_key ← lift (build_key ns kv_prefix item.0)
    pure (store_command redis_key ttl item.1)

  unfoldable pub batch_set_kv : String → KvBatchSetRequest → Exec (World R) Response
  batch_set_kv ns body = do
    require_write client ns
    for_each body.items (λ item. check_value_size defaults item.1 ("Key '" ⧺ item.0 ⧺ "'"))
    commands ← comprehension (queued_set ns (resolve_ttl defaults body.ttl)) body.items
    _ ← execute redis true commands
    pure (ok (("stored", int (pos (length body.items))) ∷ []) ns "batch" "string")

  unfoldable pub get_kv : String → String → Exec (World R) Response
  get_kv ns key = do
    require_read client ns
    redis_key ← lift (build_key ns kv_prefix key)
    results ← execute redis false (Command.get redis_key ∷ Command.ttl redis_key ∷ [])
    pair ← lift (unpack_two results)
    if is_none pair.0
        then raise (not_found key ns)
        else pure (ok_ttl (("value", pair.0) ∷ []) ns key "string" (normalised pair.1))

  unfoldable pub set_kv : String → String → KvSetRequest → Exec (World R) Response
  set_kv ns key body = do
    require_write client ns
    check_value_size defaults body.value "Value"
    redis_key ← lift (build_key ns kv_prefix key)
    let ttl = resolve_ttl defaults body.ttl
    _ ← await redis (store_command redis_key ttl body.value)
    pure (ok_ttl (("value", str body.value) ∷ []) ns key "string" (reported_ttl ttl))

  unfoldable pub delete_kv : String → String → Exec (World R) Response
  delete_kv ns key = do
    require_write client ns
    redis_key ← lift (build_key ns kv_prefix key)
    deleted ← await redis (Command.delete redis_key)
    if not (truthy deleted)
        then raise (not_found key ns)
        else pure (ok (("deleted", bool true) ∷ []) ns key "string")

  unfoldable pub exists_kv : String → String → Exec (World R) Response
  exists_kv ns key = do
    require_read client ns
    redis_key ← lift (build_key ns kv_prefix key)
    found ← await redis (Command.exists redis_key)
    pure (ok (("exists", bool (truthy found)) ∷ []) ns key "string")

  -- The text of the reply stands for `str(new_value)`: INCRBY replies an integer.
  unfoldable pub incr_kv : String → String → ℤ → Exec (World R) Response
  incr_kv ns key delta = do
    require_write client ns
    redis_key ← lift (build_key ns kv_prefix key)
    results ←
        rescue (execute redis false (Command.incrby redis_key delta ∷ Command.ttl redis_key ∷ []))
          (λ _. raise (
            error "INVALID_VALUE"
              "Existing value is not an integer or the increment is out of int64 range" 400))
    pair ← lift (unpack_two results)
    pure (ok_ttl (("value", text_of pair.0) ∷ []) ns key "string" (normalised pair.1))

  unfoldable pub touch_kv : String → String → ℤ → Exec (World R) Response
  touch_kv ns key ttl = do
    require_write client ns
    redis_key ← lift (build_key ns kv_prefix key)
    touch_key redis redis_key ttl ns key "string"

  unfoldable pub set_kv_nx : String → String → KvSetRequest → Exec (World R) Response
  set_kv_nx ns key body = do
    require_write client ns
    redis_key ← lift (build_key ns kv_prefix key)
    let ttl = resolve_ttl defaults body.ttl
    acquired ←
        await redis (Command.set redis_key body.value true (if is_pos ttl then some ttl else none))
    if not (truthy acquired)
        then raise
            (error "KEY_EXISTS" ("Key '" ⧺ key ⧺ "' already exists in namespace '" ⧺ ns ⧺ "'") 409)
        else pure (
            ok_ttl (("acquired", bool true) ∷ ("value", str body.value) ∷ []) ns key "string"
              (reported_ttl ttl))

-- The routes of the file, each with the parts of the request that its handler takes.
pub data KvRequest : Type 0 where
  batch_get : List String → KvRequest
  batch_set : KvBatchSetRequest → KvRequest
  read remove exists : String → KvRequest
  write write_nx : String → KvSetRequest → KvRequest
  incr touch : String → ℤ → KvRequest

-- The operation that the handler of a route requires.
abbrev pub writes : KvRequest → Bool
writes (batch_get ks) = false
writes (read k) = false
writes (exists k) = false
writes _ = true

module _ {R : Type 0} (redis : Redis R) (defaults : DefaultsConfig) (client : ClientInfo) where
  abbrev pub serve : String → KvRequest → Exec (World R) Response
  serve ns (batch_get ks) = batch_get_kv redis defaults client ns ks
  serve ns (batch_set body) = batch_set_kv redis defaults client ns body
  serve ns (read key) = get_kv redis defaults client ns key
  serve ns (remove key) = delete_kv redis defaults client ns key
  serve ns (exists key) = exists_kv redis defaults client ns key
  serve ns (write key body) = set_kv redis defaults client ns key body
  serve ns (write_nx key body) = set_kv_nx redis defaults client ns key body
  serve ns (incr key delta) = incr_kv redis defaults client ns key delta
  serve ns (touch key ttl) = touch_kv redis defaults client ns key ttl
