-- ===== src/Routers/Pubsub/Tests.antt =====
-- A connection is let in, another is turned away, and the first one ends.
use redgw_lite.Prelude.{◌≡◌, refl, String, none, some, List, [], ◌∷◌, pos}
use redgw_lite.Python.Value.{int}
use redgw_lite.Python.Exec.{returned}
use redgw_lite.Settings.{Settings}
use redgw_lite.Redis.{World}
use redgw_lite.KeyBuilder.{validate_ns, validate_key, ns_re, key_re}
use redgw_lite.Routers.Pubsub.Publish.{
  Publisher, await_publish, publish_message, IsDelivered, publish_message-IsDelivered,
}
use redgw_lite.Auth.ApiKey.{
  ClientInfo, resolve_client, build_key_map, register_all, register, store, lookup,
}
use redgw_lite.Auth.Guard.{check_access, granted}
use redgw_lite.Routers.Fixtures.{defaults}
use redgw_lite.Routers.Pubsub.{closed, subscribed, admit, admit_valid, admit_client, subscribe}
use redgw_lite.Routers.Pubsub.Sessions.{
  Sessions, no_sessions, let_in, Reaches, at_start, step_from, IsBounded, Reaches-IsBounded,
}

abbrev settings : Settings
settings = record {
  clients =
      ("erp", record { api_key = "k1"; description = ""; namespaces = ("ERP", "read" ∷ []) ∷ [] })
      ∷ [];
  defaults = defaults;
  admin_api_key = "root";
  redis_url = "redis://redis:6379/0";
  server_port = pos 8000;
  cors_origins = [];
  log_level = "INFO";
}

welcome : subscribe settings "ERP" "orders" (some "k1") 0 ≡ (subscribed "ERP:orders", 1)
unfolding subscribe admit_client admit_valid admit resolve_client build_key_map register_all
    register store check_access granted lookup validate_ns validate_key ns_re key_re
welcome = refl

hr_refused :
    subscribe settings "HR" "orders" (some "k1") 1
    ≡ (closed 4003 "Access to namespace 'HR' denied", 1)
unfolding subscribe admit_client admit_valid admit resolve_client build_key_map register_all
    register store check_access granted lookup
hr_refused = refl

abbrev one_session : Sessions
one_session = record { count = 1; channels = "ERP:orders" ∷ [] }

reached : Reaches settings one_session
unfolding subscribe admit_client admit_valid admit resolve_client build_key_map register_all
    register store check_access granted lookup validate_ns validate_key ns_re key_re
reached = step_from at_start (let_in "ERP" "orders" (some "k1") no_sessions "ERP:orders" refl)

Reaches-IsBounded_example : IsBounded settings one_session
Reaches-IsBounded_example = Reaches-IsBounded settings reached

-- A server that keeps what was published.
abbrev kept : Publisher (List (String × String))
kept = record { publish = λ channel message r. (returned (int (pos 1)), (channel, message) ∷ r) }

abbrev writer : ClientInfo
writer = record { client_id = "hr"; description = ""; namespaces = ("ERP", "write" ∷ []) ∷ [] }

abbrev quiet : World (List (String × String))
quiet = record { redis = []; pending = none; auth_failures = []; scripts = [] }

published :
    (publish_message kept defaults writer "ERP" "orders" "new" quiet).1.redis
    ≡ ("ERP:orders", "new") ∷ []
unfolding publish_message await_publish redgw_lite.Python.Exec.◌>>=◌ redgw_lite.Python.Exec.pure
    redgw_lite.Auth.Guard.require_access check_access granted lookup validate_ns ns_re validate_key
    key_re redgw_lite.Validation.check_value_size redgw_lite.Validation.exceeds_size
published = refl

publish_message-IsDelivered_example :
    IsDelivered kept defaults writer settings one_session "ERP" "orders" "new" quiet
      (publish_message kept defaults writer "ERP" "orders" "new" quiet).1
publish_message-IsDelivered_example =
    publish_message-IsDelivered kept defaults writer settings reached "ERP" "orders" "new" quiet
