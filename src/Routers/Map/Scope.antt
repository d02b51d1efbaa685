-- ===== src/Routers/Map/Scope.antt =====
-- What the handlers of app/routers/map.py may do.
use redgw_lite.Prelude.{String, ◌≡◌, Bool, true, false, List, ℤ, All, refl, map}
use redgw_lite.Python.Exec.{Exec, ◌>>=◌, comprehension}
use redgw_lite.Python.Yields.{Yields, Yields-pure, Yields-comprehension}
use redgw_lite.Settings.{DefaultsConfig}
use redgw_lite.KeyBuilder.{map_prefix}
use redgw_lite.Redis.{Command, Redis, World}
use redgw_lite.Redis.Keeps.{
  Keeps, Allowed, InScope, InScope-joined, Preserved, Yields-bind-key, Keeps-bind-Yields,
  Keeps-comprehension, Keeps-await, Keeps-execute, keeps_rules,
}
use redgw_lite.Auth.ApiKey.{ClientInfo}
use redgw_lite.Auth.Guard.{check_access}
use redgw_lite.Auth.Guard.Permissions.{permission, stopped, stopped_of_denied}
use redgw_lite.Validation.Keeps.{
  Keeps-check_value_size, Keeps-check_dict_values_size, Keeps-touch_key, Allowed-expire_or_persist,
}
use redgw_lite.Routers.Batch.{flattened}
use redgw_lite.Routers.Batch.Keeps.{Keeps-bind-keys, All-keys, All-flattened}
use redgw_lite.Routers.Map.{
  MapRequest, batch_get, batch_set, read, remove, read_field, remove_field, write, write_field,
  touch, writes, serve, batch_get_map, queued_hset, batch_set_map, get_map, get_map_field, set_map,
  touch_map, set_field_for, set_map_field, delete_map, delete_map_field,
}

module _ {R : Type 0} (redis : Redis R) (defaults : DefaultsConfig) (client : ClientInfo) where
  -- A client without the operation that a route of the Hash type requires in the namespace gets
  -- NAMESPACE_DENIED with status 403; no command is sent, and the world changes in nothing but the
  -- audit event and the count of refusals.
  pub map_denied :
      (ns : String) (q : MapRequest) (w : World R)
      → check_access client ns (permission (writes q)) ≡ false
      → serve redis defaults client ns q w ≡ stopped client ns (permission (writes q)) w
  unfolding batch_get_map batch_set_map get_map get_map_field set_map touch_map set_map_field
      delete_map delete_map_field
  map_denied ns (batch_get ks) w denied = stopped_of_denied client ns "read" _ w denied
  map_denied ns (read key) w denied = stopped_of_denied client ns "read" _ w denied
  map_denied ns (read_field key field) w denied = stopped_of_denied client ns "read" _ w denied
  map_denied ns q w denied = stopped_of_denied client ns "write" _ w denied

queued_hset-Yields :
    {R : Type 0} (redis : Redis R) (defaults : DefaultsConfig) (client : ClientInfo) (ns : String)
    (ttl : ℤ) (item : String × List (String × String))
    → Yields (All (Allowed true ns map_prefix)) (queued_hset redis defaults client ns ttl item)
unfolding queued_hset
queued_hset-Yields redis defaults client ns ttl item = Yields-bind-key ns map_prefix item.0 _ (
    Yields-pure _ (
      (InScope-joined ns map_prefix item.0, tt),
      (Allowed-expire_or_persist ns map_prefix item.0 ttl, tt),
    ))

queued_hset-Keeps :
    {R : Type 0} {P : R → Type 0} (redis : Redis R) (defaults : DefaultsConfig)
    (client : ClientInfo) (ns : String) (ttl : ℤ) (item : String × List (String × String))
    → Keeps P (queued_hset redis defaults client ns ttl item)
unfolding queued_hset
queued_hset-Keeps redis defaults client ns ttl item = search keeps_rules

module _ {R : Type 0} (redis : Redis R) (defaults : DefaultsConfig) (client : ClientInfo)
    (P : R → Type 0) where
  queued_hsets-Keeps :
      {B : Type 0} (ns : String) (ttl : ℤ) (items : List (String × List (String × String)))
      (f : List (List Command) → Exec (World R) B)
      → ((css : List (List Command))
          → All (Allowed true ns map_prefix) (flattened css)
          → Keeps P (f css))
      → Keeps P (comprehension (queued_hset redis defaults client ns ttl) items >>= f)
  queued_hsets-Keeps ns ttl items f kf =
      Keeps-bind-Yields (All (All (Allowed true ns map_prefix))) _ f
        (Keeps-comprehension _ items (queued_hset-Keeps redis defaults client ns ttl))
        (Yields-comprehension _ items (queued_hset-Yields redis defaults client ns ttl))
        (λ css h. kf css (All-flattened (Allowed true ns map_prefix) css h))

  -- HGETALL of each key of a batch.
  hgetalls-Allowed :
      (ns : String) (ks : List String)
      → All (InScope ns map_prefix) ks
      → All (Allowed false ns map_prefix) (map Command.hgetall ks)
  hgetalls-Allowed ns ks h =
      All-keys (Allowed false ns map_prefix) ns map_prefix Command.hgetall (λ k s. ((s, tt), refl))
        ks h

  set_field_for-Keeps :
      (ns key field value : String) (ttl : ℤ) (timed : Bool)
      → Preserved redis P true ns map_prefix
      → Keeps P (set_field_for redis defaults client ns key field value ttl timed)
  unfolding set_field_for
  set_field_for-Keeps ns key field value ttl true kept =
      search (keeps_rules, Keeps-execute kept) depth 14
  set_field_for-Keeps ns key field value ttl false kept =
      search (keeps_rules, Keeps-execute kept) depth 14

  map-Keeps :
      (ns : String) (q : MapRequest)
      → Preserved redis P (writes q) ns map_prefix
      → Keeps P (serve redis defaults client ns q)
  unfolding batch_get_map batch_set_map get_map get_map_field set_map touch_map set_map_field
      delete_map delete_map_field
  map-Keeps ns (batch_get ks) kept =
      search (Keeps-bind-keys, keeps_rules, hgetalls-Allowed, Keeps-execute kept) depth 14
  map-Keeps ns (batch_set body) kept =
      search (queued_hsets-Keeps, keeps_rules, Keeps-check_dict_values_size, Keeps-execute kept)
        depth 14
  map-Keeps ns (read key) kept = search (keeps_rules, Keeps-execute kept) depth 14
  map-Keeps ns (remove key) kept = search (keeps_rules, Keeps-await kept) depth 14
  map-Keeps ns (read_field key field) kept = search (keeps_rules, Keeps-execute kept) depth 14
  map-Keeps ns (remove_field key field) kept = search (keeps_rules, Keeps-await kept) depth 14
  map-Keeps ns (write key body) kept =
      search
        (keeps_rules, Keeps-check_dict_values_size, Allowed-expire_or_persist, Keeps-execute kept)
        depth 14
  map-Keeps ns (write_field key field body) kept =
      search (keeps_rules, Keeps-check_value_size, set_field_for-Keeps) depth 14
  map-Keeps ns (touch key ttl) kept = search (keeps_rules, Keeps-touch_key kept) depth 14

  -- Whatever property of the server's state the commands on keys `ns:map:…` keep, a request of the
  -- Hash type in the namespace `ns` keeps it; and where the route requires only "read", the property
  -- need only be kept by the commands among these that read.
  pub map_confined :
      (ns : String) (q : MapRequest) (w : World R)
      → Preserved redis P (writes q) ns map_prefix
      → P w.redis
      → P (serve redis defaults client ns q w).1.redis
  map_confined ns q w kept h = (map-Keeps ns q kept).at w h
