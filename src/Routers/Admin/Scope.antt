-- ===== src/Routers/Admin/Scope.antt =====
-- Which keys the requests of app/routers/admin.py change, and who may change them.
use redgw_lite.Prelude.{
  ℕ, String, ◌≡◌, refl, Bool, true, false, not, Option, none, some, List, [], ◌∷◌, ◌==◌, length,
  All, ℤ, is_pos, if◌then◌else◌,
}
use redgw_lite.Python.Value.{Value, truthy}
use redgw_lite.Python.Exec.{Exec, Result, returned, raised, lift, ◌>>=◌}
use redgw_lite.Python.Yields.{Yields}
use redgw_lite.Settings.{Settings}
use redgw_lite.KeyBuilder.{build_key, resolve_type_prefix, build_scan_pattern, validate_ns}
use redgw_lite.Redis.{World}
use redgw_lite.Redis.Keeps.{
  Keeps, Keeps-pure, Keeps-raise, Keeps-lift, Keeps-if, Keeps-bind, Keeps-bind-lift,
  Keeps-bind-Yields, Keeps-require,
}
use redgw_lite.Auth.ApiKey.{ClientInfo}
use redgw_lite.Audit.Origin.{admin_audit_origin}
use redgw_lite.Metrics.Snapshot.{
  Snapshot, family_values, read_family, read_metrics, get_metrics, all_yielded, or_empty,
}
use redgw_lite.Routers.Admin.Server.{AdminCommand, changed_keys, AdminRedis, await, iterate_keys}
use redgw_lite.Routers.Admin.{
  is_storage_key, collect, batches, add_reply, BulkQuery, ListQuery, check_listed, list_keys, sized,
  size_info, key_info, set_ttl, delete_batches, finish_bulk, bulk_delete_keys, delete_key,
}
use redgw_lite.Routers.Admin.Stats.{get_stats}
use redgw_lite.Routers.Admin.Clients.{list_clients}
use redgw_lite.Routers.Admin.Prometheus.{service_metrics}
use redgw_lite.Routers.Admin.Spared.{
  AllStorage, built_storage, collect_storage, batches_storage, Spared, Keeps-call, Keeps-read,
  Keeps-scan, Keeps-info, Keeps-iterate, Keeps-admin,
}

ruleset admin_rules = (
  Keeps-pure, Keeps-raise, Keeps-bind, Keeps-lift, Keeps-if, Keeps-require, Keeps-read, Keeps-scan,
  Keeps-info, Keeps-iterate, refl,
)

module _ {R : Type 0} (redis : AdminRedis R) (client : ClientInfo) {P : R → Type 0} {writes : Bool}
    (spared : Spared redis P writes) where
  check_listed_kept : (ns : Option String) → Keeps P (check_listed redis client ns)
  unfolding check_listed
  check_listed_kept none = Keeps-pure tt
  check_listed_kept (some ns) = search admin_rules

  pub list_keys_kept : (q : ListQuery) → Keeps P (list_keys redis client q)
  unfolding list_keys
  list_keys_kept q = search (admin_rules, spared, check_listed_kept) depth 12

  sized_kept :
      (name : String) (c : AdminCommand) → changed_keys c ≡ [] → Keeps P (sized redis client name c)
  unfolding sized
  sized_kept name c e = Keeps-bind (await redis c) _ (Keeps-read spared c e) (λ size. Keeps-pure _)

  size_info_kept :
      (key_type : Value) (redis_key : String) → Keeps P (size_info redis client key_type redis_key)
  unfolding size_info
  size_info_kept key_type redis_key = search (Keeps-if, Keeps-pure, sized_kept) depth 20

  pub key_info_kept : (ns type key : String) → Keeps P (key_info redis client ns type key)
  unfolding key_info
  key_info_kept ns type key = search (admin_rules, spared, size_info_kept) depth 20

  pub get_stats_kept : (limit : ℕ) → Keeps P (get_stats redis limit)
  unfolding get_stats
  get_stats_kept limit = search (admin_rules, spared)

  -- What follows on a key that was built for a type.
  on_built :
      {B : Type 0} (ns type key : String) (f : String → Exec (World R) B)
      → ((rk : String) → is_storage_key rk ≡ true → Keeps P (f rk))
      → Keeps P (lift (resolve_type_prefix type) >>= λ prefix. lift (build_key ns prefix key) >>= f)
  on_built ns type key f kf = Keeps-bind-lift (resolve_type_prefix type) _ λ prefix resolved.
      Keeps-bind-lift (build_key ns prefix key) f
        λ rk built. kf rk (built_storage type prefix ns key rk resolved built)

  delete_batches_kept :
      (deleted : ℕ) (bs : List (List String))
      → All AllStorage bs
      → writes ≡ true
      → Keeps P (delete_batches redis client deleted bs)
  unfolding delete_batches
  delete_batches_kept deleted [] h allowed = Keeps-pure deleted
  delete_batches_kept deleted (b ∷ bs) (h, hs) allowed =
      Keeps-bind (await redis (AdminCommand.delete b)) _
        (Keeps-call spared (AdminCommand.delete b) h (λ e. cc (allowed, e)))
        λ reply.
          Keeps-bind-lift (add_reply deleted reply) _
            λ total _. delete_batches_kept total bs hs allowed

  finish_bulk_kept :
      (dry_run : Bool) (found : List String × Bool)
      → AllStorage (found.0)
      → (dry_run ≡ false → writes ≡ true)
      → Keeps P (finish_bulk redis client dry_run found)
  unfolding finish_bulk
  finish_bulk_kept true (keys, truncated) h allowed = Keeps-pure _
  finish_bulk_kept false (keys, truncated) h allowed =
      Keeps-bind (delete_batches redis client 0 (batches (length keys) keys)) _
        (delete_batches_kept 0 _ (batches_storage (length keys) keys h) (allowed refl))
        λ deleted. Keeps-pure _

  Yields-collected :
      (pattern : String)
      → Yields
          (λ (found : List String × Bool). AllStorage (found.0))
          (iterate_keys redis pattern 500 (λ it. collect [] it.ended_by it.yielded))
  unfolding iterate_keys
  Yields-collected pattern = record { at = λ w found e. collect_storage [] _ _ found tt e }

  pub bulk_kept :
      (q : BulkQuery)
      → ((client.client_id == "admin") ≡ true → q.dry_run ≡ false → writes ≡ true)
      → Keeps P (bulk_delete_keys redis client q)
  unfolding bulk_delete_keys
  bulk_kept q allowed = Keeps-admin client _ λ admin.
      Keeps-bind (lift (validate_ns q.ns)) _ (Keeps-lift _) λ _.
        Keeps-bind (lift (build_scan_pattern (some q.ns) q.type q.pattern)) _ (Keeps-lift _)
          λ pattern.
            Keeps-bind-Yields (λ (found : List String × Bool). AllStorage (found.0)) _ _
              (Keeps-iterate spared pattern 500 _) (Yields-collected pattern)
              λ found storage. finish_bulk_kept q.dry_run found storage (allowed admin)

  pub delete_key_kept :
      (ns type key : String)
      → ((client.client_id == "admin") ≡ true → writes ≡ true)
      → Keeps P (delete_key redis client ns type key)
  unfolding delete_key
  delete_key_kept ns type key allowed = Keeps-admin client _ λ admin.
      on_built ns type key _ λ rk storage.
        Keeps-bind (await redis (AdminCommand.delete (rk ∷ []))) _
          (Keeps-call spared (AdminCommand.delete (rk ∷ [])) (storage, tt)
            (λ e. cc (allowed admin, e)))
          λ deleted. Keeps-if (not (truthy deleted)) _ _ (Keeps-raise _) (Keeps-pure _)

  lifetime_storage :
      (set' : Bool) (rk : String) (ttl : ℤ)
      → is_storage_key rk ≡ true
      → AllStorage
          (changed_keys (if set' then AdminCommand.expire rk ttl else AdminCommand.persist rk))
  lifetime_storage true rk ttl storage = (storage, tt)
  lifetime_storage false rk ttl storage = (storage, tt)

  pub set_ttl_kept :
      (ns type key : String) (ttl : ℤ)
      → ((client.client_id == "admin") ≡ true → writes ≡ true)
      → Keeps P (set_ttl redis client ns type key ttl)
  unfolding set_ttl
  set_ttl_kept ns type key ttl allowed = Keeps-admin client _ λ admin.
      on_built ns type key _ λ rk storage.
        Keeps-bind (await redis (AdminCommand.exists rk)) _ (Keeps-read spared _ refl) λ exists.
          Keeps-if (not (truthy exists)) _ _ (Keeps-raise _) (
            Keeps-bind (await redis _) _
              (Keeps-call spared _ (lifetime_storage (is_pos ttl) rk ttl storage)
                (λ e. cc (allowed admin, e)))
              λ _.
                Keeps-bind (await redis (AdminCommand.ttl rk)) _ (Keeps-read spared _ refl)
                  λ actual. Keeps-pure _)

  pub origin_kept :
      (loads : String → Option Value) (ns type key : String)
      → Keeps P (admin_audit_origin redis loads client ns type key)
  unfolding admin_audit_origin
  origin_kept loads ns type key = Keeps-admin client _ λ _. search (admin_rules, spared) depth 20

  pub clients_kept : (settings : Settings) → Keeps P (list_clients settings client)
  unfolding list_clients
  clients_kept settings = Keeps-admin client _ λ _. Keeps-pure _

  family_values_kept : (ks : List String) → Keeps P (family_values redis ks)
  unfolding family_values
  family_values_kept [] = Keeps-pure []
  family_values_kept (k ∷ ks) = search (admin_rules, spared) depth 12

  read_family_kept : (pattern : String) (count : ℕ) → Keeps P (read_family redis pattern count)
  unfolding read_family
  read_family_kept pattern count =
      Keeps-bind (iterate_keys redis pattern count all_yielded) _
        (Keeps-iterate spared pattern count all_yielded) family_values_kept

  module _ (float_or_zero : Value → Result Value) (uptime : Value) where
    or_empty_world :
        (o : Result Snapshot × World R) → (or_empty redis float_or_zero uptime o).1 ≡ o.1
    or_empty_world (returned m, w) = refl
    or_empty_world (raised e, w) = refl

    read_metrics_kept : Keeps P (read_metrics redis float_or_zero uptime)
    unfolding read_metrics
    read_metrics_kept = search (admin_rules, spared, read_family_kept) depth 40

    get_metrics_kept : Keeps P (get_metrics redis float_or_zero uptime)
    unfolding get_metrics
    get_metrics_kept = record {
      at = λ w h.
          rw (or_empty_world (read_metrics redis float_or_zero uptime w))
            (read_metrics_kept.at w h);
    }

    pub metrics_kept : Keeps P (service_metrics redis client float_or_zero uptime)
    unfolding service_metrics
    metrics_kept = Keeps-admin client _ λ _.
        Keeps-bind (get_metrics redis float_or_zero uptime) _ get_metrics_kept (λ m. Keeps-pure _)
