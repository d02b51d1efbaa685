-- ===== src/Routers/Admin/Tests.antt =====
-- Concrete requests to the administrator's routes, against a server in memory.
use redgw_lite.Prelude.{
  ℕ, String, ◌≡◌, refl, ap, Bool, true, false, Option, none, some, List, [], ◌∷◌, ◌==◌, ltb, length,
  take, select, map, pos, ℤ, arith, eq_iff, eq_refl, Bool-cases, inl, inr, if◌then◌else◌,
}
use redgw_lite.Python.Value.{Value, null, int, str, field, end, dict}
use redgw_lite.Python.Exec.{Result, returned}
use redgw_lite.Settings.{Settings}
use redgw_lite.KeyBuilder.{
  contains, parse_key, validate_ns, ns_re, build_scan_pattern, joined, scan_pattern_re,
  resolve_type_prefix, build_key, validate_key, key_re,
}
use redgw_lite.Redis.{World, reply_of, count_of}
use redgw_lite.Redis.Keeps.{Keeps}
use redgw_lite.Redis.Memory.{Memory, erase, lookup-erase}
use redgw_lite.Auth.ApiKey.{administrator, lookup, store}
use redgw_lite.Auth.ApiKey.Resolution.{lookup-store}
use redgw_lite.Audit.Origin.{OriginRedis, admin_audit_origin, store_origin, correlates, ttl_seconds}
use redgw_lite.Audit.Origin.Found.{data_path, admin_audit_origin-store_origin}
use redgw_lite.Routers.Fixtures.{defaults}
use redgw_lite.Routers.Admin.Server.{AdminCommand, AdminRedis, changed_keys}
use redgw_lite.Routers.Admin.{is_storage_key, max_bulk, BulkQuery, bulk_delete_keys}
use redgw_lite.Routers.Admin.Keyspace.{Keyspace, bulk_response, bulk_delete_keys-deletes}
use redgw_lite.Routers.Admin.Prometheus.{MetricsCache}
use redgw_lite.Routers.Admin.Requests.{bulk_delete, serve}
use redgw_lite.Routers.Admin.Spared.{AllStorage, Spared}
use redgw_lite.Routers.Admin.Rights.{serve-Keeps}

erase_all : List String → Memory → Memory
erase_all [] r = r
erase_all (k ∷ ks) r = erase_all ks (erase k r)

lookup-erase_all :
    (k : String) (ks : List String) (r : Memory)
    → lookup k (erase_all ks r) ≡ (if contains k ks then none else lookup k r)
unfolding erase_all
lookup-erase_all k [] r = refl
lookup-erase_all k (j ∷ ks) r =
    ground (arith, lookup-erase_all k ks (erase j r), lookup-erase j k r, eq_iff j k, eq_iff k j)

admin_call : AdminCommand → Memory → Result Value × Memory
admin_call (AdminCommand.get k) r = (returned (reply_of (lookup k r)), r)
admin_call (AdminCommand.exists k) r = (returned (count_of (lookup k r)), r)
admin_call (AdminCommand.ttl k) r = (returned (int (pos 60)), r)
admin_call (AdminCommand.delete ks) r = (returned (int (pos (length ks))), erase_all ks r)
admin_call _ r = (returned null, r)

abbrev admin_memory : AdminRedis Memory
admin_memory = record {
  call = admin_call;
  scan = λ cursor pattern count r. (returned (pos 0, map (λ e. e.0) r), r);
  scan_iter = λ pattern count r. (record { yielded = map (λ e. e.0) r; ended_by = none }, r);
  info = λ section r. (returned [], r);
}

abbrev is_there : Option String → Bool
is_there none = false
is_there (some v) = true

memory-Keyspace : Keyspace admin_memory
unfolding admin_call
memory-Keyspace = record {
  has = λ k r. is_there (lookup k r);
  has-scan_iter = λ pattern count r k. refl;
  reply_of_delete = λ ks r. (length ks, refl);
  has-delete = λ ks r k. rw (lookup-erase_all k ks r) (there k ks r (contains k ks));
}
  where
    there :
        (k : String) (ks : List String) (r : Memory) (gone : Bool)
        → is_there (if gone then none else lookup k r)
          ≡ (if gone then false else is_there (lookup k r))
    there k ks r true = refl
    there k ks r false = refl

abbrev held : World Memory
held = record {
  redis =
      ("ERP:kv:a", "1")
      ∷ ("__redgw:audit:origin", "o")
      ∷ ("ERP:q:jobs", "2")
      ∷ ("HR:kv:x", "v")
      ∷ [];
  pending = none;
  auth_failures = [];
  scripts = [];
}

abbrev query : BulkQuery
query = record { ns = "ERP"; type = some "kv"; pattern = "*"; dry_run = false }

erp_valid : validate_ns "ERP" ≡ returned "ERP"
unfolding validate_ns ns_re
erp_valid = refl

query_accepted : build_scan_pattern (some query.ns) query.type query.pattern ≡ returned "ERP:kv:*"
unfolding build_scan_pattern resolve_type_prefix scan_pattern_re joined
query_accepted = refl

bulk_delete_keys-deletes_example :
    let storage =
      select is_storage_key (admin_memory.scan_iter "ERP:kv:*" 500 held.redis).0.yielded in
    (n : ℕ) × ((bulk_delete_keys admin_memory administrator query held).0
      ≡ returned (bulk_response false (take max_bulk storage) (ltb max_bulk (length storage)) n))
    × ((k : String)
        → memory-Keyspace.has k (bulk_delete_keys admin_memory administrator query held).1.redis ≡ (
            if contains k (take max_bulk storage) then false else memory-Keyspace.has k held.redis))
bulk_delete_keys-deletes_example =
    bulk_delete_keys-deletes admin_memory memory-Keyspace administrator query "ERP:kv:*" held refl
      erp_valid query_accepted refl

-- A key of the gateway's own.
abbrev HasOrigin : Memory → Type 0
HasOrigin r = lookup "__redgw:audit:origin" r ≡ some "o"

own_key : is_storage_key "__redgw:audit:origin" ≡ false
unfolding is_storage_key parse_key
own_key = refl

own_key_not_named : (ks : List String) → AllStorage ks → contains "__redgw:audit:origin" ks ≡ false
own_key_not_named [] h = refl
own_key_not_named (k ∷ ks) (h, hs) = elim (Bool-cases ("__redgw:audit:origin" == k)) [
  | inl same ↦
      let e : "__redgw:audit:origin" ≡ k = (eq_iff "__redgw:audit:origin" k).0 same in
      cc (own_key, ap is_storage_key e, h)
  | inr other ↦ rw other (own_key_not_named ks hs)
]

memory-Spared : (writes : Bool) → Spared admin_memory HasOrigin writes
unfolding admin_call
memory-Spared writes = record {
  call = called;
  scan = λ cursor pattern count r h. h;
  scan_iter = λ pattern count r h. h;
  info = λ section r h. h;
}
  where
    called :
        (c : AdminCommand)
        → AllStorage (changed_keys c)
        → (writes ≡ false → changed_keys c ≡ [])
        → (r : Memory) → HasOrigin r
        → HasOrigin (admin_call c r).1
    called (AdminCommand.delete ks) storage reads r h =
        rw (lookup-erase_all "__redgw:audit:origin" ks r, own_key_not_named ks storage) h
    called (AdminCommand.get k) storage reads r h = h
    called (AdminCommand.exists k) storage reads r h = h
    called (AdminCommand.ttl k) storage reads r h = h
    called _ storage reads r h = h

abbrev settings : Settings
settings = record {
  clients = [];
  defaults = defaults;
  admin_api_key = "secret";
  redis_url = "";
  server_port = pos 8000;
  cors_origins = [];
  log_level = "INFO";
}

abbrev loads : String → Option Value
loads s = some (dict (field "request_id" (str s) end))

abbrev float_or_zero : Value → Result Value
float_or_zero v = returned v

serve-Keeps_example :
    Keeps HasOrigin
      (serve admin_memory settings loads float_or_zero null administrator (bulk_delete query))
serve-Keeps_example =
    serve-Keeps admin_memory settings loads float_or_zero null administrator {P = HasOrigin}
      (bulk_delete query) (memory-Spared true)

abbrev cache : MetricsCache
cache = record { text = "cached"; ts = 5; ns_counts = record { counts = []; ts = 0 } }

abbrev writer : OriginRedis Memory
writer = record { set_ex = λ k v ex r. store k v r }

writer_kept :
    (k v : String) (ex : ℤ) (r : Memory)
    → admin_call (AdminCommand.get k) (store k v r) ≡ (returned (str v), store k v r)
unfolding admin_call
writer_kept k v ex r = rw (lookup-store k k v r, eq_refl k)

memory_lifetime :
    (k : String) (r : Memory) → (n : ℤ) × ((admin_call (AdminCommand.ttl k) r).0 ≡ returned (int n))
unfolding admin_call
memory_lifetime k r = (pos 60, refl)

queue_type : resolve_type_prefix "queue" ≡ returned "q"
unfolding resolve_type_prefix
queue_type = refl

list_type : resolve_type_prefix "list" ≡ returned "q"
unfolding resolve_type_prefix
list_type = refl

jobs_key : build_key "ERP" "q" "jobs" ≡ returned "ERP:q:jobs"
unfolding build_key validate_ns validate_key ns_re key_re joined
jobs_key = refl

erp_named : ("ERP" == "") ≡ false
erp_named = refl

push_correlates : correlates true "POST" (some "ERP") (some "jobs") 200 ≡ true
unfolding correlates
push_correlates = refl

admin_audit_origin-store_origin_example :
    (n : ℤ) × (seconds : Value) × (ttl_seconds (int n) ≡ returned seconds)
    × ((admin_audit_origin admin_memory loads administrator "ERP" "list" "jobs" (record held {
      redis =
          store_origin writer true
            (pos 60)
            "POST"
            (data_path "ERP" "queue" "jobs/push")
            (some "jobs")
            200
            "r1"
            held.redis;
    })).0
        ≡ returned (
            store "redis_key"
              (str "ERP:q:jobs")
              (store "ttl_seconds" seconds (("request_id", str "r1") ∷ []))))
admin_audit_origin-store_origin_example =
    admin_audit_origin-store_origin admin_memory writer loads administrator writer_kept
      memory_lifetime "ERP" "queue" "list" "q" "jobs" "ERP:q:jobs" queue_type list_type jobs_key
      (pos 60) "POST" "jobs/push" "r1" 200 (field "request_id" (str "r1") end) held refl
      (omega arith) (omega arith) (λ e. cc (erp_named, ap (λ s. s == "") e)) push_correlates refl
