-- ===== src/Routers/Admin/Requests.antt =====
-- app/routers/admin.py: its routes, but for the text of `prometheus_metrics`.
use redgw_lite.Prelude.{ℕ, String, Bool, true, false, not, Option, List, ℤ}
use redgw_lite.Python.Value.{Value}
use redgw_lite.Python.Exec.{Exec, Result, pure, ◌>>=◌}
use redgw_lite.Response.{Response}
use redgw_lite.Settings.{Settings}
use redgw_lite.Redis.{World}
use redgw_lite.Auth.ApiKey.{ClientInfo}
use redgw_lite.Audit.Origin.{admin_audit_origin}
use redgw_lite.Routers.Admin.Server.{AdminRedis}
use redgw_lite.Routers.Admin.{
  ListQuery, BulkQuery, list_keys, key_info, set_ttl, bulk_delete_keys, delete_key,
}
use redgw_lite.Routers.Admin.Stats.{get_stats}
use redgw_lite.Routers.Admin.Clients.{list_clients}
use redgw_lite.Routers.Admin.Prometheus.{service_metrics}

pub data AdminRequest : Type 0 where
  listing : ListQuery → AdminRequest
  info delete origin : String → String → String → AdminRequest
  set_lifetime : String → String → String → ℤ → AdminRequest
  bulk_delete : BulkQuery → AdminRequest
  stats : ℕ → AdminRequest
  clients metrics : AdminRequest

-- A response of `ok_simple`, or a bare dict.
pub data AdminReply : Type 0 where
  enveloped : Response → AdminReply
  plain : List (String × Value) → AdminReply

-- The routes that `require_admin` guards.
abbrev pub is_guarded : AdminRequest → Bool
is_guarded (listing q) = false
is_guarded (info ns type key) = false
is_guarded (stats limit) = false
is_guarded _ = true

-- The requests that are meant to change keys.
abbrev pub changes : AdminRequest → Bool
changes (delete ns type key) = true
changes (set_lifetime ns type key ttl) = true
changes (bulk_delete q) = not q.dry_run
changes _ = false

module _ {R : Type 0} (redis : AdminRedis R) (settings : Settings) (loads : String → Option Value)
    (float_or_zero : Value → Result Value) (uptime : Value) (client : ClientInfo) where
  abbrev enveloping : Exec (World R) Response → Exec (World R) AdminReply
  enveloping m = m >>= λ response. pure (enveloped response)

  unfoldable pub serve : AdminRequest → Exec (World R) AdminReply
  serve (listing q) = enveloping (list_keys redis client q)
  serve (info ns type key) = enveloping (key_info redis client ns type key)
  serve (delete ns type key) = enveloping (delete_key redis client ns type key)
  serve (origin ns type key) =
      admin_audit_origin redis loads client ns type key >>= λ entries. pure (plain entries)
  serve (set_lifetime ns type key ttl) = enveloping (set_ttl redis client ns type key ttl)
  serve (bulk_delete q) = enveloping (bulk_delete_keys redis client q)
  serve (stats limit) = enveloping (get_stats redis limit)
  serve clients = enveloping (list_clients settings client)
  serve metrics = enveloping (service_metrics redis client float_or_zero uptime)
