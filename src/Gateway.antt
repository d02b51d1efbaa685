-- ===== src/Gateway.antt =====
-- A request of any data type, from its API key to its response: `get_client` of app/dependencies.py in
-- front of the handlers that app/main.py includes under /api/v1.
pub mod Isolation
pub mod Tests
use redgw_lite.Prelude.{ℕ, String, Bool}
use redgw_lite.Python.Exec.{Exec, ◌>>=◌}
use redgw_lite.Response.{Response}
use redgw_lite.Settings.{Settings, DefaultsConfig}
use redgw_lite.KeyBuilder.{
  kv_prefix, map_prefix, queue_prefix, group_prefix, rank_prefix, event_prefix,
}
use redgw_lite.Redis.{Redis, World}
use redgw_lite.Auth.ApiKey.{ClientInfo, verify_api_key}
use redgw_lite.Routers.Kv
use redgw_lite.Routers.Map
use redgw_lite.Routers.Queue
use redgw_lite.Routers.Group
use redgw_lite.Routers.Rank
use redgw_lite.Routers.Event

pub data Request : Type 0 where
  kv : Kv.KvRequest → Request
  hash : Map.MapRequest → Request
  queue : Queue.QueueRequest → Request
  group : Group.GroupRequest → Request
  rank : Rank.RankRequest → Request
  event : Event.EventRequest → Request

-- The prefix of the data type in a key.
abbrev pub type_prefix : Request → String
type_prefix (kv q) = kv_prefix
type_prefix (hash q) = map_prefix
type_prefix (queue q) = queue_prefix
type_prefix (group q) = group_prefix
type_prefix (rank q) = rank_prefix
type_prefix (event q) = event_prefix

-- Whether the route requires "write", and not "read".
abbrev pub requires_write : Request → Bool
requires_write (kv q) = Kv.writes q
requires_write (hash q) = Map.writes q
requires_write (queue q) = Queue.writes q
requires_write (group q) = Group.writes q
requires_write (rank q) = Rank.writes q
requires_write (event q) = Event.requires_write q

-- Whether the route sends commands that write. Only consumers of a stream do so with "read".
abbrev pub writes : Request → Bool
writes (event q) = Event.writes q
writes q = requires_write q

module _ {R : Type 0} (redis : Redis R) (isdecimal : ℕ → Bool) where
  abbrev pub serve : DefaultsConfig → ClientInfo → String → Request → Exec (World R) Response
  serve defaults client ns (kv q) = Kv.serve redis defaults client ns q
  serve defaults client ns (hash q) = Map.serve redis defaults client ns q
  serve defaults client ns (queue q) = Queue.serve redis defaults client ns q
  serve defaults client ns (group q) = Group.serve redis defaults client ns q
  serve defaults client ns (rank q) = Rank.serve redis defaults client ns q
  serve defaults client ns (event q) = Event.serve redis isdecimal defaults client ns q

  -- The dependency runs first; what it raises ends the request.
  unfoldable pub handle : Settings → String → String → Request → Exec (World R) Response
  handle settings api_key ns q = do
    client ← verify_api_key settings api_key
    serve settings.defaults client ns q
