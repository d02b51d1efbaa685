-- ===== src/Routers/Admin/Server.antt =====
-- The Redis server as app/routers/admin.py and app/utils/metrics.py see it: the commands that they
-- send, and the client that answers them, a parameter.
use redgw_lite.Prelude.{ℕ, String, Option, List, [], ◌∷◌, ℤ}
use redgw_lite.Python.Value.{Value}
use redgw_lite.Python.Exec.{Exec, Exception, Result}
use redgw_lite.Redis.{World}

-- One constructor for each call of the client library with a single reply.
pub data AdminCommand : Type 0 where
  type_of ttl object_encoding exists persist get : String → AdminCommand
  strlen hlen llen scard zcard xlen : String → AdminCommand
  mget : List String → AdminCommand
  expire : String → ℤ → AdminCommand
  delete : List String → AdminCommand

-- The keys that a command may change.
abbrev pub changed_keys : AdminCommand → List String
changed_keys (AdminCommand.persist k) = k ∷ []
changed_keys (AdminCommand.expire k n) = k ∷ []
changed_keys (AdminCommand.delete ks) = ks
changed_keys _ = []

-- A whole iteration over SCAN: the keys that it yields, and the exception that ends it, if one does.
pub record Iteration : Type 0 where
  pub yielded : List String
  pub ended_by : Option Exception

pub record AdminRedis (R : Type 0) : Type 0 where
  pub call : AdminCommand → R → Result Value × R
  -- `r.scan(cursor, match, count)`
  pub scan : ℤ → String → ℕ → R → Result (ℤ × List String) × R
  -- `r.scan_iter(match, count)`
  pub scan_iter : String → ℕ → R → Iteration × R
  -- `r.info(section)`
  pub info : String → R → Result (List (String × Value)) × R

module _ {R : Type 0} (redis : AdminRedis R) where
  unfoldable pub await : AdminCommand → Exec (World R) Value
  await c w = let (result, r) = redis.call c w.redis in (result, record w { redis = r })

  unfoldable pub await_scan : ℤ → String → ℕ → Exec (World R) (ℤ × List String)
  await_scan cursor pattern count w =
      let (result, r) = redis.scan cursor pattern count w.redis in (result, record w { redis = r })

  unfoldable pub await_info : String → Exec (World R) (List (String × Value))
  await_info section w =
      let (result, r) = redis.info section w.redis in (result, record w { redis = r })

  -- `async for key in r.scan_iter(…)`: a loop that breaks does not meet the exception.
  unfoldable pub iterate_keys :
      {A : Type 0} → String → ℕ → (Iteration → Result A) → Exec (World R) A
  iterate_keys pattern count loop w =
      let (keys, r) = redis.scan_iter pattern count w.redis in (loop keys, record w { redis = r })
