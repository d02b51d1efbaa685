-- ===== src/Redis.antt =====
-- The Redis server as the gateway sees it: the commands that app/routers send, and a client that
-- answers them. The server and the client library (redis.asyncio) are a parameter of the model.
pub mod Keeps
pub mod Memory
pub mod Stops
use redgw_lite.Prelude.{
  ℕ, String, Bool, true, false, Option, none, some, List, [], ◌∷◌, ℤ, pos, All, ◌≡◌, map, ◌++◌,
}
use redgw_lite.Python.Value.{Value, Float, null, int, str}
use redgw_lite.Python.Exec.{
  Exec, Result, returned, raised, Exception, response_error, ◌>>=◌, pure, raise,
}

-- One constructor for each call of the client library that a data handler makes, its key first.
pub data Command : Type 0 where
  mget : List String → Command
  get ttl exists delete persist : String → Command
  -- the value, `nx`, `ex`
  set : String → String → Bool → Option ℤ → Command
  setex : String → ℤ → String → Command
  expire : String → ℤ → Command
  incrby : String → ℤ → Command
  hgetall : String → Command
  hget hdel : String → String → Command
  hset : String → List (String × String) → Command
  lpop rpop llen : String → Command
  lrange ltrim : String → ℤ → ℤ → Command
  -- a Lua script's source, its only key and its arguments
  eval : String → String → List String → Command
  sadd : String → List String → Command
  smembers scard : String → Command
  sismember srem : String → String → Command
  sinter sunion sdiff : List String → Command
  zadd : String → List (String × Float) → Command
  zrange zrevrange : String → ℤ → ℤ → Command
  zscore zrem : String → String → Command
  zrangebyscore : String → Float → Float → Command
  zincrby : String → Float → String → Command
  zpopmin zpopmax : String → Command
  xadd : String → List (String × String) → ℤ → Command
  xrange : String → String → ℕ → Command
  xgroup_create : String → String → Command
  xreadgroup : String → String → String → ℕ → Command
  xack : String → String → List String → Command
  xinfo_stream xinfo_groups : String → Command

-- The keys that a command names.
abbrev pub keys : Command → List String
keys (Command.mget ks) = ks
keys (Command.get k) = k ∷ []
keys (Command.ttl k) = k ∷ []
keys (Command.exists k) = k ∷ []
keys (Command.delete k) = k ∷ []
keys (Command.persist k) = k ∷ []
keys (Command.set k v nx ex) = k ∷ []
keys (Command.setex k t v) = k ∷ []
keys (Command.expire k t) = k ∷ []
keys (Command.incrby k n) = k ∷ []
keys (Command.hgetall k) = k ∷ []
keys (Command.hget k f) = k ∷ []
keys (Command.hdel k f) = k ∷ []
keys (Command.hset k m) = k ∷ []
keys (Command.lpop k) = k ∷ []
keys (Command.rpop k) = k ∷ []
keys (Command.llen k) = k ∷ []
keys (Command.lrange k a b) = k ∷ []
keys (Command.ltrim k a b) = k ∷ []
keys (Command.eval s k args) = k ∷ []
keys (Command.sadd k ms) = k ∷ []
keys (Command.smembers k) = k ∷ []
keys (Command.scard k) = k ∷ []
keys (Command.sismember k m) = k ∷ []
keys (Command.srem k m) = k ∷ []
keys (Command.sinter ks) = ks
keys (Command.sunion ks) = ks
keys (Command.sdiff ks) = ks
keys (Command.zadd k m) = k ∷ []
keys (Command.zrange k a b) = k ∷ []
keys (Command.zrevrange k a b) = k ∷ []
keys (Command.zscore k m) = k ∷ []
keys (Command.zrem k m) = k ∷ []
keys (Command.zrangebyscore k a b) = k ∷ []
keys (Command.zincrby k d m) = k ∷ []
keys (Command.zpopmin k) = k ∷ []
keys (Command.zpopmax k) = k ∷ []
keys (Command.xadd k e n) = k ∷ []
keys (Command.xrange k a n) = k ∷ []
keys (Command.xgroup_create k g) = k ∷ []
keys (Command.xreadgroup g c k n) = k ∷ []
keys (Command.xack k g ids) = k ∷ []
keys (Command.xinfo_stream k) = k ∷ []
keys (Command.xinfo_groups k) = k ∷ []

-- The commands that Redis documents as read-only.
abbrev pub read_only : Command → Bool
read_only (Command.mget ks) = true
read_only (Command.get k) = true
read_only (Command.ttl k) = true
read_only (Command.exists k) = true
read_only (Command.hgetall k) = true
read_only (Command.hget k f) = true
read_only (Command.llen k) = true
read_only (Command.lrange k a b) = true
read_only (Command.smembers k) = true
read_only (Command.scard k) = true
read_only (Command.sismember k m) = true
read_only (Command.sinter ks) = true
read_only (Command.sunion ks) = true
read_only (Command.sdiff ks) = true
read_only (Command.zrange k a b) = true
read_only (Command.zrevrange k a b) = true
read_only (Command.zscore k m) = true
read_only (Command.zrangebyscore k a b) = true
read_only (Command.xrange k a n) = true
read_only (Command.xinfo_stream k) = true
read_only (Command.xinfo_groups k) = true
read_only _ = false

-- A client over a server with the states `R`: one command, and a pipeline of commands with its
-- `transaction` flag. Whatever other clients do meanwhile is part of how the server's state changes.
pub record Redis (R : Type 0) : Type 0 where
  pub call : Command → R → Result Value × R
  pub execute : Bool → List Command → R → Result (List Value) × R

-- The state that a request reads and writes: the server's, the audit event that waits for the
-- middleware (`_pending_event`), the reasons for which `record_auth_failure_async` was called, in the
-- background or not, and the Lua scripts that were registered (`_script_cache`).
pub record World (R : Type 0) : Type 0 where
  pub redis : R
  pub pending : Option (String × Option String)
  pub auth_failures : List String
  pub scripts : List (String × String × String)

module _ {R : Type 0} (client : Redis R) where
  -- `await r.command(…)`
  unfoldable pub await : Command → Exec (World R) Value
  await c w = let (result, r) = client.call c w.redis in (result, record w { redis = r })

  -- `await pipe.execute()`
  unfoldable pub execute : Bool → List Command → Exec (World R) (List Value)
  execute transaction cs w =
      let (result, r) = client.execute transaction cs w.redis in (result, record w { redis = r })

-- The reply for a key's text, and for whether there is one.
abbrev pub reply_of : Option String → Value
reply_of none = null
reply_of (some v) = str v

abbrev pub count_of : Option String → Value
count_of none = int (pos 0)
count_of (some v) = int (pos 1)

-- `a, b = results`
abbrev pub unpack_two : List Value → Result (Value × Value)
unpack_two (a ∷ b ∷ []) = returned (a, b)
unpack_two _ = raised (Exception.value_error "unpack")

-- `results[0]` and `results[-1]`
abbrev pub first_of_results : List Value → Result Value
first_of_results [] = raised (Exception.other_error "list index out of range")
first_of_results (v ∷ vs) = returned v

abbrev pub last_of_results : List Value → Result Value
last_of_results [] = raised (Exception.other_error "list index out of range")
last_of_results (v ∷ []) = returned v
last_of_results (v ∷ w ∷ vs) = last_of_results (w ∷ vs)

-- `try: m except aioredis.ResponseError as e: handler`
module _ {W A : Type 0} where
  abbrev rescued : (String → Exec W A) → Result A × W → Result A × W
  rescued handler (returned a, w) = (returned a, w)
  rescued handler (raised (Exception.response_error e), w) = handler e w
  rescued handler (raised e, w) = (raised e, w)

  unfoldable pub rescue : Exec W A → (String → Exec W A) → Exec W A
  rescue m handler w = rescued handler (m w)
