-- ===== src/Routers/Queue.antt =====
-- app/routers/queue.py: the handlers of the List type, under /ns/{ns}/queue.
pub mod Lua
pub mod Scope
pub mod Tests
pub mod Cache
pub mod Bounds
use redgw_lite.Prelude.{
  ℕ, String, Bool, true, false, not, ◌&&◌, Option, none, some, List, [], ◌∷◌, ◌++◌, ◌==◌, ◌⧺◌,
  length, ℤ, pos, negsuc, negate, show_int, show_nat, if◌then◌else◌,
}
use redgw_lite.Python.Value.{Value, int, bool, is_none, equals_int, truthy, normalised}
use redgw_lite.Python.Exec.{Exec, returned, pure, raise, lift, ◌>>=◌, ◌>>◌, for_each}
use redgw_lite.Response.{Response, ok, ok_ttl, error, not_found}
use redgw_lite.Settings.{DefaultsConfig}
use redgw_lite.KeyBuilder.{build_key, queue_prefix}
use redgw_lite.Redis.{Command, Redis, World, await, execute, last_of_results}
use redgw_lite.Auth.ApiKey.{ClientInfo}
use redgw_lite.Auth.Guard.{require_read, require_write}
use redgw_lite.Validation.{check_value_size, resolve_ttl, touch_key, expire_or_persist}
use redgw_lite.Routers.Batch.{iterate}

-- `Literal["left", "right"]`
pub data Direction : Type 0 where
  left right : Direction

pub data Mode : Type 0 where
  single batch : Mode

-- The command that a script pushes with.
abbrev pub push_name : Direction → String
push_name left = "lpush"
push_name right = "rpush"

-- `_LUA_SOURCES[(mode, direction)]`: `_single_push_lua` and `_batch_push_lua` of the command's name.
abbrev pub lua_source : Mode → Direction → String
lua_source single d =
    "if redis.call('llen',KEYS[1])>=tonumber(ARGV[2]) then return -1 end\nreturn redis.call('"
    ⧺ push_name d
    ⧺ "',KEYS[1],ARGV[1])"
lua_source batch d =
    "local cur=redis.call('llen',KEYS[1])\nlocal max=tonumber(ARGV[1])\nlocal cnt=tonumber(ARGV[2])\nif cur+cnt>max then return -1 end\nfor i=3,#ARGV do redis.call('"
    ⧺ push_name d
    ⧺ "',KEYS[1],ARGV[i]) end\nreturn cur+cnt"

abbrev pub mode_name : Mode → String
mode_name single = "single"
mode_name batch = "batch"

abbrev pub direction_name : Direction → String
direction_name left = "left"
direction_name right = "right"

unfoldable pub find_script : String → String → List (String × String × String) → Option String
find_script mode direction [] = none
find_script mode direction ((m, d, source) ∷ scripts) =
    if m == mode && d == direction then some source else find_script mode direction scripts

-- `_get_script`: a script is registered once and then taken from the cache. It is known by its source.
unfoldable pub get_script : {R : Type 0} → Mode → Direction → Exec (World R) String
get_script mode direction w =
    elim (find_script (mode_name mode) (direction_name direction) w.scripts) [
      | some source ↦ (returned source, w)
      | none ↦ (
        returned (lua_source mode direction),
        record w {
          scripts =
              w.scripts
              ++ (mode_name mode, direction_name direction, lua_source mode direction) ∷ [];
        },
      )
    ]

-- Bodies: app/schemas/queue.py
pub record QueuePushRequest : Type 0 where
  pub value : String
  pub direction : Direction
  pub ttl : Option ℤ

pub record QueueBatchPushRequest : Type 0 where
  pub values : List String
  pub direction : Direction
  pub ttl : Option ℤ

module _ {R : Type 0} (redis : Redis R) (defaults : DefaultsConfig) (client : ClientInfo) where
  -- Both push handlers end alike: the lifetime is set or removed, and reported.
  unfoldable pub timed_response :
      String → String → String → ℤ → List (String × Value) → Exec (World R) Response
  timed_response redis_key ns key ttl content = do
    results ← execute redis false (expire_or_persist redis_key ttl ∷ Command.ttl redis_key ∷ [])
    remaining ← lift (last_of_results results)
    pure (ok_ttl content ns key "list" (normalised remaining))

  unfoldable pub batch_push_queue :
      String → String → QueueBatchPushRequest → Exec (World R) Response
  unfolding timed_response
  batch_push_queue ns key body = do
    require_write client ns
    for_each body.values (λ v. check_value_size defaults v "Value")
    redis_key ← lift (build_key ns queue_prefix key)
    script ← get_script batch body.direction
    result ← await redis (
        Command.eval script redis_key
          (show_int defaults.max_list_length ∷ show_nat (length body.values) ∷ body.values))
    if equals_int result (negsuc 0)
        then raise (
            error "QUEUE_FULL"
              ("Queue '"
                ⧺ key
                ⧺ "' would exceed max length ("
                ⧺ show_int defaults.max_list_length
                ⧺ ")")
              400)
        else timed_response redis_key ns key (resolve_ttl defaults body.ttl)
            (("length", result) ∷ ("pushed", int (pos (length body.values))) ∷ [])

  unfoldable pub push_queue : String → String → QueuePushRequest → Exec (World R) Response
  unfolding timed_response
  push_queue ns key body = do
    require_write client ns
    check_value_size defaults body.value "Value"
    redis_key ← lift (build_key ns queue_prefix key)
    script ← get_script single body.direction
    result ←
        await redis
          (Command.eval script redis_key (body.value ∷ show_int defaults.max_list_length ∷ []))
    if equals_int result (negsuc 0)
        then raise (
            error "QUEUE_FULL"
              ("Queue '"
                ⧺ key
                ⧺ "' has reached max length ("
                ⧺ show_int defaults.max_list_length
                ⧺ ")")
              400)
        else timed_response redis_key ns key (resolve_ttl defaults body.ttl)
            (("length", result) ∷ [])

  abbrev pub pop_command : Direction → String → Command
  pop_command right redis_key = Command.rpop redis_key
  pop_command left redis_key = Command.lpop redis_key

  unfoldable pub pop_queue : String → String → Direction → Exec (World R) Response
  pop_queue ns key direction = do
    require_write client ns
    redis_key ← lift (build_key ns queue_prefix key)
    value ← await redis (pop_command direction redis_key)
    if is_none value
        then raise (error "QUEUE_EMPTY" ("Queue '" ⧺ key ⧺ "' is empty") 404)
        else pure (ok (("value", value) ∷ []) ns key "list")

  unfoldable pub range_queue : String → String → ℤ → ℤ → Exec (World R) Response
  range_queue ns key start stop = do
    require_read client ns
    redis_key ← lift (build_key ns queue_prefix key)
    reply ← await redis (Command.lrange redis_key start stop)
    values ← lift (iterate reply)
    pure (ok (("values", reply) ∷ ("count", int (pos (length values))) ∷ []) ns key "list")

  unfoldable pub len_queue : String → String → Exec (World R) Response
  len_queue ns key = do
    require_read client ns
    redis_key ← lift (build_key ns queue_prefix key)
    size ← await redis (Command.llen redis_key)
    pure (ok (("length", size) ∷ []) ns key "list")

  unfoldable pub delete_queue : String → String → Exec (World R) Response
  delete_queue ns key = do
    require_write client ns
    redis_key ← lift (build_key ns queue_prefix key)
    deleted ← await redis (Command.delete redis_key)
    if not (truthy deleted)
        then raise (not_found key ns)
        else pure (ok (("deleted", bool true) ∷ []) ns key "list")

  unfoldable pub touch_queue : String → String → ℤ → Exec (World R) Response
  touch_queue ns key ttl = do
    require_write client ns
    redis_key ← lift (build_key ns queue_prefix key)
    touch_key redis redis_key ttl ns key "list"

  -- `keep` is at least 1.
  unfoldable pub trim_queue : String → String → ℕ → Exec (World R) Response
  trim_queue ns key keep = do
    require_write client ns
    redis_key ← lift (build_key ns queue_prefix key)
    _ ← await redis (Command.ltrim redis_key (negate keep) (negsuc 0))
    size ← await redis (Command.llen redis_key)
    pure (ok (("kept", size) ∷ ("length", size) ∷ []) ns key "list")

-- The routes of the file, each with the parts of the request that its handler takes.
pub data QueueRequest : Type 0 where
  push : String → QueuePushRequest → QueueRequest
  push_batch : String → QueueBatchPushRequest → QueueRequest
  pop : String → Direction → QueueRequest
  range : String → ℤ → ℤ → QueueRequest
  size remove : String → QueueRequest
  touch : String → ℤ → QueueRequest
  trim : String → ℕ → QueueRequest

-- Whether the handler of a route requires "write", and not "read".
abbrev pub writes : QueueRequest → Bool
writes (range k a b) = false
writes (size k) = false
writes _ = true

module _ {R : Type 0} (redis : Redis R) (defaults : DefaultsConfig) (client : ClientInfo) where
  abbrev pub serve : String → QueueRequest → Exec (World R) Response
  serve ns (push key body) = push_queue redis defaults client ns key body
  serve ns (push_batch key body) = batch_push_queue redis defaults client ns key body
  serve ns (pop key direction) = pop_queue redis defaults client ns key direction
  serve ns (range key start stop) = range_queue redis defaults client ns key start stop
  serve ns (size key) = len_queue redis defaults client ns key
  serve ns (remove key) = delete_queue redis defaults client ns key
  serve ns (touch key ttl) = touch_queue redis defaults client ns key ttl
  serve ns (trim key keep) = trim_queue redis defaults client ns key keep
