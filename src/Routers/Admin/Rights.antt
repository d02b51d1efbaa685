-- ===== src/Routers/Admin/Rights.antt =====
-- Who may do what in app/routers/admin.py, and to which keys.
use redgw_lite.Prelude.{ℕ, String, ◌≡◌, true, false, ◌&&◌, Option, ◌==◌}
use redgw_lite.Python.Value.{Value}
use redgw_lite.Python.Exec.{Result, raised, ◌>>=◌}
use redgw_lite.Response.{error}
use redgw_lite.Settings.{Settings}
use redgw_lite.Redis.{World}
use redgw_lite.Redis.Keeps.{Keeps, Keeps-pure, Keeps-bind}
use redgw_lite.Auth.ApiKey.{ClientInfo}
use redgw_lite.Auth.Guard.{require_admin, refused}
use redgw_lite.Audit.Origin.{admin_audit_origin}
use redgw_lite.Routers.Admin.Server.{AdminRedis}
use redgw_lite.Routers.Admin.{set_ttl, bulk_delete_keys, delete_key}
use redgw_lite.Routers.Admin.Clients.{list_clients}
use redgw_lite.Routers.Admin.Prometheus.{service_metrics, prometheus_metrics, MetricsCache}
use redgw_lite.Routers.Admin.Requests.{
  AdminRequest, listing, info, delete, origin, set_lifetime, bulk_delete, stats, clients, metrics,
  is_guarded, changes, serve,
}
use redgw_lite.Routers.Admin.Spared.{Spared}
use redgw_lite.Routers.Admin.Scope.{
  list_keys_kept, key_info_kept, get_stats_kept, bulk_kept, delete_key_kept, set_ttl_kept,
  origin_kept, clients_kept, metrics_kept,
}

module _ {R : Type 0} (redis : AdminRedis R) (settings : Settings) (loads : String → Option Value)
    (float_or_zero : Value → Result Value) (uptime : Value) (client : ClientInfo) where
  -- A request to the administrator's routes changes storage keys only, which leaves the gateway's own
  -- keys alone: it keeps every property of the server's state that is kept by reading and by the
  -- commands that change nothing but keys of the form namespace, storage prefix, user key. And where
  -- the client is not the administrator, or the request is none that changes keys (as a bulk deletion
  -- that is a dry run), it keeps every property that reading keeps.
  pub serve-Keeps :
      {P : R → Type 0} (q : AdminRequest)
      → Spared redis P ((client.client_id == "admin") && changes q)
      → Keeps P (serve redis settings loads float_or_zero uptime client q)
  unfolding serve
  serve-Keeps (listing q) spared =
      Keeps-bind _ _ (list_keys_kept redis client spared q) (λ r. Keeps-pure _)
  serve-Keeps (info ns type key) spared =
      Keeps-bind _ _ (key_info_kept redis client spared ns type key) (λ r. Keeps-pure _)
  serve-Keeps (delete ns type key) spared =
      Keeps-bind _ _ (delete_key_kept redis client spared ns type key (λ admin. rw admin))
        (λ r. Keeps-pure _)
  serve-Keeps (origin ns type key) spared =
      Keeps-bind _ _ (origin_kept redis client spared loads ns type key) (λ r. Keeps-pure _)
  serve-Keeps (set_lifetime ns type key ttl) spared =
      Keeps-bind _ _ (set_ttl_kept redis client spared ns type key ttl (λ admin. rw admin))
        (λ r. Keeps-pure _)
  serve-Keeps (bulk_delete q) spared =
      Keeps-bind _ _ (bulk_kept redis client spared q (λ admin wet. rw (admin, wet)))
        (λ r. Keeps-pure _)
  serve-Keeps (stats limit) spared =
      Keeps-bind _ _ (get_stats_kept redis client spared limit) (λ r. Keeps-pure _)
  serve-Keeps clients spared =
      Keeps-bind _ _ (clients_kept redis client spared settings) (λ r. Keeps-pure _)
  serve-Keeps metrics spared =
      Keeps-bind _ _ (metrics_kept redis client spared float_or_zero uptime) (λ r. Keeps-pure _)

  -- ADMIN_REQUIRED with status 403, and the event and the count of the refusal.
  abbrev admin_required : {A : Type 0} → World R → Result A × World R
  admin_required w = (
    raised (error "ADMIN_REQUIRED" "Admin privileges required" 403),
    refused "admin_required" "ADMIN_REQUIRED" w,
  )

  -- A client that is not the administrator gets ADMIN_REQUIRED with status 403 from every guarded
  -- route and from the Prometheus text, also while the text is cached; no command is sent, and the
  -- world changes in nothing but the audit event and the count of refusals.
  serve_guarded :
      (q : AdminRequest) (shown : Value → String) (core_impl : String) (cache : MetricsCache)
      (now : ℕ) (w : World R)
      → (client.client_id == "admin") ≡ false
      → is_guarded q ≡ true
      → (serve redis settings loads float_or_zero uptime client q w ≡ admin_required w)
        × (prometheus_metrics redis client float_or_zero uptime shown core_impl cache now w
            ≡ admin_required w)
  unfolding serve delete_key set_ttl admin_audit_origin bulk_delete_keys list_clients
      service_metrics prometheus_metrics require_admin ◌>>=◌
  serve_guarded (listing q) shown core_impl cache now w other g = cc g
  serve_guarded (info ns type key) shown core_impl cache now w other g = cc g
  serve_guarded (delete ns type key) shown core_impl cache now w other g = (rw other, rw other)
  serve_guarded (origin ns type key) shown core_impl cache now w other g = (rw other, rw other)
  serve_guarded (set_lifetime ns type key ttl) shown core_impl cache now w other g =
      (rw other, rw other)
  serve_guarded (bulk_delete q) shown core_impl cache now w other g = (rw other, rw other)
  serve_guarded (stats limit) shown core_impl cache now w other g = cc g
  serve_guarded clients shown core_impl cache now w other g = (rw other, rw other)
  serve_guarded metrics shown core_impl cache now w other g = (rw other, rw other)
