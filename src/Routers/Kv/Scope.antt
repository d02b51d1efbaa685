-- ===== src/Routers/Kv/Scope.antt =====
-- What the handlers of app/routers/kv.py may do, and what they report.
use redgw_lite.Prelude.{
  String, ◌≡◌, Bool, true, false, List, none, ℤ, is_pos, pos, negsuc, arith, if◌then◌else◌, All,
}
use redgw_lite.Python.Value.{equals_int, normalised-ne}
use redgw_lite.Python.Exec.{Exec, returned, ◌>>=◌, comprehension}
use redgw_lite.Python.Yields.{Yields, Yields-pure, Yields-comprehension, yields_rules}
use redgw_lite.Response.{Response, ReportsTtl}
use redgw_lite.Settings.{DefaultsConfig}
use redgw_lite.KeyBuilder.{kv_prefix, joined}
use redgw_lite.Redis.{Command, Redis, World}
use redgw_lite.Redis.Keeps.{
  Keeps, Allowed, Yields-bind-key, Keeps-bind-Yields, Keeps-comprehension, Preserved, Keeps-await,
  Keeps-execute, keeps_rules, InScope-joined,
}
use redgw_lite.Auth.ApiKey.{ClientInfo}
use redgw_lite.Auth.Guard.{check_access}
use redgw_lite.Auth.Guard.Permissions.{permission, stopped, stopped_of_denied}
use redgw_lite.Validation.Keeps.{Keeps-check_value_size, Keeps-touch_key, Yields-touch_key}
use redgw_lite.Routers.Batch.Keeps.{Keeps-bind-keys}
use redgw_lite.Routers.Kv.{
  reported_ttl, store_command, queued_set, KvRequest, batch_get, batch_set, read, remove, exists,
  write, write_nx, incr, touch, writes, serve, batch_get_kv, batch_set_kv, get_kv, set_kv,
  delete_kv, exists_kv, incr_kv, touch_kv, set_kv_nx,
}

module _ {R : Type 0} (redis : Redis R) (defaults : DefaultsConfig) (client : ClientInfo) where
  -- A client without the operation that a route of the String type requires in the namespace gets
  -- NAMESPACE_DENIED with status 403; no command is sent, and the world changes in nothing but the
  -- audit event and the count of refusals.
  pub kv_denied :
      (ns : String) (q : KvRequest) (w : World R)
      → check_access client ns (permission (writes q)) ≡ false
      → serve redis defaults client ns q w ≡ stopped client ns (permission (writes q)) w
  unfolding batch_get_kv batch_set_kv get_kv set_kv delete_kv exists_kv incr_kv touch_kv set_kv_nx
  kv_denied ns (batch_get ks) w denied = stopped_of_denied client ns "read" _ w denied
  kv_denied ns (read key) w denied = stopped_of_denied client ns "read" _ w denied
  kv_denied ns (exists key) w denied = stopped_of_denied client ns "read" _ w denied
  kv_denied ns q w denied = stopped_of_denied client ns "write" _ w denied

store_command-Allowed :
    (ns key value : String) (ttl : ℤ)
    → Allowed true ns kv_prefix (store_command (joined ns kv_prefix key) ttl value)
store_command-Allowed ns key value ttl = allowed (is_pos ttl)
  where
    allowed :
        (b : Bool)
        → Allowed true ns kv_prefix (
            if b
            then Command.setex (joined ns kv_prefix key) ttl value
            else Command.set (joined ns kv_prefix key) value false none)
    allowed true = (InScope-joined ns kv_prefix key, tt)
    allowed false = (InScope-joined ns kv_prefix key, tt)

queued_set-Yields :
    {R : Type 0} (redis : Redis R) (defaults : DefaultsConfig) (client : ClientInfo) (ns : String)
    (ttl : ℤ) (item : String × String)
    → Yields (Allowed true ns kv_prefix) (queued_set redis defaults client ns ttl item)
unfolding queued_set
queued_set-Yields redis defaults client ns ttl item =
    Yields-bind-key ns kv_prefix item.0 _
      (Yields-pure _ (store_command-Allowed ns item.0 item.1 ttl))

queued_set-Keeps :
    {R : Type 0} {P : R → Type 0} (redis : Redis R) (defaults : DefaultsConfig)
    (client : ClientInfo) (ns : String) (ttl : ℤ) (item : String × String)
    → Keeps P (queued_set redis defaults client ns ttl item)
unfolding queued_set
queued_set-Keeps redis defaults client ns ttl item = search keeps_rules

module _ {R : Type 0} (redis : Redis R) (defaults : DefaultsConfig) (client : ClientInfo)
    (P : R → Type 0) where
  queued_sets-Keeps :
      {B : Type 0} (ns : String) (ttl : ℤ) (items : List (String × String))
      (f : List Command → Exec (World R) B)
      → ((cs : List Command) → All (Allowed true ns kv_prefix) cs → Keeps P (f cs))
      → Keeps P (comprehension (queued_set redis defaults client ns ttl) items >>= f)
  queued_sets-Keeps ns ttl items f kf =
      Keeps-bind-Yields (All (Allowed true ns kv_prefix)) _ f
        (Keeps-comprehension _ items (queued_set-Keeps redis defaults client ns ttl))
        (Yields-comprehension _ items (queued_set-Yields redis defaults client ns ttl)) kf

  kv-Keeps :
      (ns : String) (q : KvRequest)
      → Preserved redis P (writes q) ns kv_prefix
      → Keeps P (serve redis defaults client ns q)
  unfolding batch_get_kv batch_set_kv get_kv set_kv delete_kv exists_kv incr_kv touch_kv set_kv_nx
  kv-Keeps ns (batch_get ks) kept = search (Keeps-bind-keys, keeps_rules, Keeps-await kept) depth 14
  kv-Keeps ns (batch_set body) kept =
      search (queued_sets-Keeps, keeps_rules, Keeps-check_value_size, Keeps-execute kept) depth 14
  kv-Keeps ns (read key) kept = search (keeps_rules, Keeps-execute kept) depth 14
  kv-Keeps ns (remove key) kept = search (keeps_rules, Keeps-await kept) depth 14
  kv-Keeps ns (exists key) kept = search (keeps_rules, Keeps-await kept) depth 14
  kv-Keeps ns (write key body) kept =
      search (keeps_rules, Keeps-check_value_size, store_command-Allowed, Keeps-await kept) depth 14
  kv-Keeps ns (write_nx key body) kept = search (keeps_rules, Keeps-await kept) depth 14
  kv-Keeps ns (incr key delta) kept = search (keeps_rules, Keeps-execute kept) depth 14
  kv-Keeps ns (touch key ttl) kept = search (keeps_rules, Keeps-touch_key kept) depth 14

  -- Whatever property of the server's state the commands on keys `ns:kv:…` keep, a request of the
  -- String type in the namespace `ns` keeps it; and where the route requires only "read", the
  -- property need only be kept by the commands among these that read. So a request reaches no key of
  -- another namespace or type, and a reading request changes nothing.
  pub kv_confined :
      (ns : String) (q : KvRequest) (w : World R)
      → Preserved redis P (writes q) ns kv_prefix
      → P w.redis
      → P (serve redis defaults client ns q w).1.redis
  kv_confined ns q w kept h = (kv-Keeps ns q kept).at w h

reported_ttl-ne : (ttl : ℤ) → equals_int (reported_ttl ttl) (negsuc 1) ≡ false
reported_ttl-ne (pos n) = ground arith
reported_ttl-ne (negsuc n) = ground arith

ruleset reports = (yields_rules, normalised-ne, reported_ttl-ne, Yields-touch_key)

module _ {R : Type 0} (redis : Redis R) (defaults : DefaultsConfig) (client : ClientInfo) where
  kv-Yields : (ns : String) (q : KvRequest) → Yields ReportsTtl (serve redis defaults client ns q)
  unfolding batch_get_kv batch_set_kv get_kv set_kv delete_kv exists_kv incr_kv touch_kv set_kv_nx
  kv-Yields ns (batch_get ks) = search reports depth 14
  kv-Yields ns q = search reports depth 14

  -- Whatever Redis replies, also where another client deletes the key between the commands of a
  -- pipeline, a response of the String type never reports a ttl of -2.
  pub kv_reports :
      (ns : String) (q : KvRequest) (w : World R) (response : Response)
      → (serve redis defaults client ns q w).0 ≡ returned response
      → ReportsTtl response
  kv_reports ns q w response h = (kv-Yields ns q).at w response h
