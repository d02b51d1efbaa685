-- ===== src/Routers/Pubsub.antt =====
-- app/routers/pubsub.py: the subscriptions over WebSockets, and how many there are.
pub mod Sessions
pub mod Publish
pub mod Tests
use redgw_lite.Prelude.{
  ℕ, String, Bool, true, false, not, Option, none, some, List, ◌==◌, ◌⧺◌, ◌+◌, leb, show_nat,
  if◌then◌else◌,
}
use redgw_lite.Python.Exec.{Result, returned, raised}
use redgw_lite.Settings.{Settings}
use redgw_lite.KeyBuilder.{validate_ns, validate_key}
use redgw_lite.Auth.ApiKey.{ClientInfo, resolve_client}
use redgw_lite.Auth.Guard.{check_access}

-- A connection is closed with a code and a reason, or its client is subscribed to a channel.
pub data Outcome : Type 0 where
  closed : ℕ → String → Outcome
  subscribed : String → Outcome

-- `_MAX_WS_CONNECTIONS`
abbrev pub max_ws_connections : ℕ
max_ws_connections = 100

-- The part under the lock: the outcome, and `_ws_connection_count` after it.
unfoldable pub admit : String → String → ℕ → Outcome × ℕ
admit ns channel count =
    if leb max_ws_connections count
    then (
      closed 4029 ("Too many WebSocket connections (max=" ⧺ show_nat max_ws_connections ⧺ ")"),
      count,
    )
    else (subscribed (ns ⧺ ":" ⧺ channel), count + 1)

-- From the validation of the names on.
unfoldable pub admit_valid : Result String → Result String → String → String → ℕ → Outcome × ℕ
unfolding admit
admit_valid (returned n) (returned c) ns channel count = admit ns channel count
admit_valid _ _ ns channel count = (closed 4002 "Invalid namespace or channel name", count)

-- From the check of the permission on.
unfoldable pub admit_client : Option ClientInfo → String → String → ℕ → Outcome × ℕ
unfolding admit_valid
admit_client none ns channel count = (closed 4001 "Invalid API key", count)
admit_client (some client) ns channel count =
    if not (check_access client ns "read")
    then (closed 4003 ("Access to namespace '" ⧺ ns ⧺ "' denied"), count)
    else admit_valid (validate_ns ns) (validate_key channel) ns channel count

-- `websocket_subscribe` up to the subscription.
unfoldable pub subscribe : Settings → String → String → Option String → ℕ → Outcome × ℕ
unfolding admit_client
subscribe settings ns channel none count = (closed 4001 "API key required", count)
subscribe settings ns channel (some api_key) count =
    if api_key == ""
    then (closed 4001 "API key required", count)
    else admit_client (resolve_client settings api_key) ns channel count
