-- ===== src/Routers/Group/Scope.antt =====
-- What the handlers of app/routers/group.py may do, and what they report.
use redgw_lite.Prelude.{String, ◌≡◌, refl, true, false, List, ℤ, map, All}
use redgw_lite.Python.Value.{normalised-ne}
use redgw_lite.Python.Exec.{Exec, returned, ◌>>=◌, comprehension}
use redgw_lite.Python.Yields.{Yields, Yields-pure, Yields-comprehension, yields_rules}
use redgw_lite.Response.{Response, ReportsTtl}
use redgw_lite.Settings.{DefaultsConfig}
use redgw_lite.KeyBuilder.{group_prefix}
use redgw_lite.Redis.{Command, Redis, World}
use redgw_lite.Redis.Keeps.{
  Keeps, Allowed, InScope, InScope-joined, Preserved, Yields-bind-key, Keeps-bind-Yields,
  Keeps-comprehension, Keeps-await, Keeps-execute, keeps_rules,
}
use redgw_lite.Auth.ApiKey.{ClientInfo}
use redgw_lite.Auth.Guard.{check_access}
use redgw_lite.Auth.Guard.Permissions.{permission, stopped, stopped_of_denied}
use redgw_lite.Validation.Keeps.{
  Keeps-check_value_size, Keeps-touch_key, Allowed-expire_or_persist, Yields-touch_key,
}
use redgw_lite.Routers.Batch.{flattened}
use redgw_lite.Routers.Batch.Keeps.{Keeps-bind-keys, All-keys, All-flattened}
use redgw_lite.Routers.Group.{
  inter, union, diff, GroupRequest, batch_get, batch_add, add, members, count, remove, contains,
  remove_member, touch, operate, writes, serve, batch_get_group, queued_sadd, batch_add_group,
  add_group, members_group, contains_group, delete_group, remove_group, count_group, touch_group,
  set_op,
}

module _ {R : Type 0} (redis : Redis R) (defaults : DefaultsConfig) (client : ClientInfo) where
  -- A client without the operation that a route of the Set type requires in the namespace gets
  -- NAMESPACE_DENIED with status 403; no command is sent, and the world changes in nothing but the
  -- audit event and the count of refusals.
  pub group_denied :
      (ns : String) (q : GroupRequest) (w : World R)
      → check_access client ns (permission (writes q)) ≡ false
      → serve redis defaults client ns q w ≡ stopped client ns (permission (writes q)) w
  unfolding batch_get_group batch_add_group add_group members_group contains_group delete_group
      remove_group count_group touch_group set_op
  group_denied ns (batch_add body) w denied = stopped_of_denied client ns "write" _ w denied
  group_denied ns (add key body) w denied = stopped_of_denied client ns "write" _ w denied
  group_denied ns (remove key) w denied = stopped_of_denied client ns "write" _ w denied
  group_denied ns (remove_member key m) w denied = stopped_of_denied client ns "write" _ w denied
  group_denied ns (touch key ttl) w denied = stopped_of_denied client ns "write" _ w denied
  group_denied ns q w denied = stopped_of_denied client ns "read" _ w denied

queued_sadd-Yields :
    {R : Type 0} (redis : Redis R) (defaults : DefaultsConfig) (client : ClientInfo) (ns : String)
    (ttl : ℤ) (item : String × List String)
    → Yields (All (Allowed true ns group_prefix)) (queued_sadd redis defaults client ns ttl item)
unfolding queued_sadd
queued_sadd-Yields redis defaults client ns ttl item = Yields-bind-key ns group_prefix item.0 _ (
    Yields-pure _ (
      (InScope-joined ns group_prefix item.0, tt),
      (Allowed-expire_or_persist ns group_prefix item.0 ttl, tt),
    ))

queued_sadd-Keeps :
    {R : Type 0} {P : R → Type 0} (redis : Redis R) (defaults : DefaultsConfig)
    (client : ClientInfo) (ns : String) (ttl : ℤ) (item : String × List String)
    → Keeps P (queued_sadd redis defaults client ns ttl item)
unfolding queued_sadd
queued_sadd-Keeps redis defaults client ns ttl item = search keeps_rules

module _ {R : Type 0} (redis : Redis R) (defaults : DefaultsConfig) (client : ClientInfo)
    (P : R → Type 0) where
  queued_sadds-Keeps :
      {B : Type 0} (ns : String) (ttl : ℤ) (items : List (String × List String))
      (f : List (List Command) → Exec (World R) B)
      → ((css : List (List Command))
          → All (Allowed true ns group_prefix) (flattened css)
          → Keeps P (f css))
      → Keeps P (comprehension (queued_sadd redis defaults client ns ttl) items >>= f)
  queued_sadds-Keeps ns ttl items f kf =
      Keeps-bind-Yields (All (All (Allowed true ns group_prefix))) _ f
        (Keeps-comprehension _ items (queued_sadd-Keeps redis defaults client ns ttl))
        (Yields-comprehension _ items (queued_sadd-Yields redis defaults client ns ttl))
        (λ css h. kf css (All-flattened (Allowed true ns group_prefix) css h))

  smembers-Allowed :
      (ns : String) (ks : List String)
      → All (InScope ns group_prefix) ks
      → All (Allowed false ns group_prefix) (map Command.smembers ks)
  smembers-Allowed ns ks h =
      All-keys (Allowed false ns group_prefix) ns group_prefix Command.smembers
        (λ k s. ((s, tt), refl)) ks h

  group-Keeps :
      (ns : String) (q : GroupRequest)
      → Preserved redis P (writes q) ns group_prefix
      → Keeps P (serve redis defaults client ns q)
  unfolding batch_get_group batch_add_group add_group members_group contains_group delete_group
      remove_group count_group touch_group set_op
  group-Keeps ns (batch_get ks) kept =
      search (Keeps-bind-keys, keeps_rules, smembers-Allowed, Keeps-execute kept) depth 14
  group-Keeps ns (batch_add body) kept =
      search (queued_sadds-Keeps, keeps_rules, Keeps-check_value_size, Keeps-execute kept) depth 14
  group-Keeps ns (add key body) kept =
      search (keeps_rules, Keeps-check_value_size, Allowed-expire_or_persist, Keeps-execute kept)
        depth 16
  group-Keeps ns (operate inter ks) kept =
      search (Keeps-bind-keys, keeps_rules, Keeps-await kept) depth 14
  group-Keeps ns (operate union ks) kept =
      search (Keeps-bind-keys, keeps_rules, Keeps-await kept) depth 14
  group-Keeps ns (operate diff ks) kept =
      search (Keeps-bind-keys, keeps_rules, Keeps-await kept) depth 14
  group-Keeps ns (touch key ttl) kept = search (keeps_rules, Keeps-touch_key kept) depth 14
  group-Keeps ns (members key) kept = search (keeps_rules, Keeps-await kept) depth 14
  group-Keeps ns (count key) kept = search (keeps_rules, Keeps-await kept) depth 14
  group-Keeps ns (remove key) kept = search (keeps_rules, Keeps-await kept) depth 14
  group-Keeps ns (contains key m) kept = search (keeps_rules, Keeps-await kept) depth 14
  group-Keeps ns (remove_member key m) kept = search (keeps_rules, Keeps-await kept) depth 14

  -- Whatever property of the server's state the commands on keys `ns:grp:…` keep, a request of the
  -- Set type in the namespace `ns` keeps it; and where the route requires only "read", as the set
  -- operations do, the property need only be kept by the commands among these that read.
  pub group_confined :
      (ns : String) (q : GroupRequest) (w : World R)
      → Preserved redis P (writes q) ns group_prefix
      → P w.redis
      → P (serve redis defaults client ns q w).1.redis
  group_confined ns q w kept h = (group-Keeps ns q kept).at w h

module _ {R : Type 0} (redis : Redis R) (defaults : DefaultsConfig) (client : ClientInfo) where
  group-Yields :
      (ns : String) (q : GroupRequest) → Yields ReportsTtl (serve redis defaults client ns q)
  unfolding batch_get_group batch_add_group add_group members_group contains_group delete_group
      remove_group count_group touch_group set_op
  group-Yields ns (add key body) = search (yields_rules, normalised-ne) depth 16
  group-Yields ns (touch key ttl) = search (yields_rules, Yields-touch_key) depth 14
  group-Yields ns q = search yields_rules depth 14

  -- Whatever Redis replies, also where another client deletes the set between the commands of a
  -- pipeline, a response of the Set type never reports a ttl of -2.
  pub group_reports :
      (ns : String) (q : GroupRequest) (w : World R) (response : Response)
      → (serve redis defaults client ns q w).0 ≡ returned response
      → ReportsTtl response
  group_reports ns q w response h = (group-Yields ns q).at w response h
