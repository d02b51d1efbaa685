-- ===== src/Routers/Admin/Prometheus.antt =====
-- app/routers/admin.py: `service_metrics`, and `prometheus_metrics` with its cached text.
use redgw_lite.Prelude.{
  ℕ, String, not, ◌&&◌, List, [], ◌∷◌, ◌++◌, ◌-◌, ◌⧺◌, ◌==◌, ℤ, pos, int_le, ltb, map, show_int,
  if◌then◌else◌,
}
use redgw_lite.Python.Value.{Value, int, truthy, dict, fields_of}
use redgw_lite.Python.Exec.{Exec, Result, pure, ◌>>=◌, ◌>>◌}
use redgw_lite.Response.{Response, ok_simple}
use redgw_lite.Redis.{World}
use redgw_lite.Auth.ApiKey.{ClientInfo, lookup}
use redgw_lite.Auth.Guard.{require_admin}
use redgw_lite.Metrics.Snapshot.{Snapshot, get_metrics}
use redgw_lite.Routers.Admin.Server.{AdminRedis, await_info}
use redgw_lite.Routers.Admin.Stats.{CountsCache, get_or, get_ns_counts_cached}

-- `# HELP` and `# TYPE` of a metric.
abbrev pub headed : String → String → String → List String
headed name help kind = ("# HELP " ⧺ name ⧺ " " ⧺ help) ∷ ("# TYPE " ⧺ name ⧺ " " ⧺ kind) ∷ []

-- A line for each entry of a dict: `name{label="key"} count`.
abbrev pub entry_lines : String → String → List (String × ℤ) → List String
entry_lines name label d = map (λ e. name ⧺ "{" ⧺ label ⧺ "=\"" ⧺ e.0 ⧺ "\"} " ⧺ show_int e.1) d

-- A counter with a label, left out where there is no entry.
unfoldable pub optional_counter : String → String → String → List (String × ℤ) → List String
optional_counter name help label [] = []
optional_counter name help label (e ∷ d) =
    headed name help "counter" ++ entry_lines name label (e ∷ d)

-- `"\n".join(lines) + "\n"`
abbrev pub ended_lines : List String → String
ended_lines [] = "\n"
ended_lines (l ∷ []) = l ⧺ "\n"
ended_lines (l ∷ k ∷ ls) = l ⧺ "\n" ⧺ ended_lines (k ∷ ls)

module _ (shown : Value → String) where
  unfoldable pub latency_lines : Snapshot → List String
  latency_lines m =
      if int_le m.latency_count (pos 0)
      then []
      else headed "redgw_request_duration_ms" "Request latency histogram (ms)" "histogram"
        ++ (entry_lines "redgw_request_duration_ms_bucket" "le" m.buckets
            ++ ("redgw_request_duration_ms_sum " ⧺ shown m.latency_sum)
              ∷ ("redgw_request_duration_ms_count " ⧺ show_int m.latency_count)
              ∷ [])

  -- A gauge or a counter with one value.
  abbrev pub single : String → String → String → Value → List String
  single name help kind v = headed name help kind ++ (name ⧺ " " ⧺ shown v) ∷ []

  -- What the text says of the server, from INFO: memory, stats, clients.
  unfoldable pub server_lines :
      List (String × Value) → List (String × Value) → List (String × Value) → List String
  server_lines info stats clients =
      let zero_value : Value = int (pos 0) in
      let maxmem = get_or zero_value (lookup "maxmemory" info) in
      single "redgw_redis_memory_bytes" "Redis used memory" "gauge"
        (get_or zero_value (lookup "used_memory" info))
      ++ ((if truthy maxmem
            then single "redgw_redis_memory_limit_bytes" "Redis maxmemory" "gauge" maxmem
            else [])
          ++ (single "redgw_redis_ops_per_sec" "Redis instantaneous ops/sec" "gauge"
                (get_or zero_value (lookup "instantaneous_ops_per_sec" stats))
              ++ (single "redgw_redis_keyspace_hits_total" "Redis keyspace hits" "counter"
                    (get_or zero_value (lookup "keyspace_hits" stats))
                  ++ (single "redgw_redis_keyspace_misses_total" "Redis keyspace misses" "counter"
                        (get_or zero_value (lookup "keyspace_misses" stats))
                      ++ (single "redgw_redis_evicted_keys_total" "Redis evicted keys" "counter"
                            (get_or zero_value (lookup "evicted_keys" stats))
                          ++ single "redgw_redis_connected_clients" "Redis connected clients"
                              "gauge" (get_or zero_value (lookup "connected_clients" clients)))))))

  -- The lines of the text. `core_impl` is "rust" or "python", as the modules were loaded.
  unfoldable pub metric_lines : String → Snapshot → List String → List (String × ℕ) → List String
  metric_lines core_impl m of_server ns_counts =
      headed "redgw_requests_total" "Total requests by HTTP status" "counter"
      ++ (entry_lines "redgw_requests_total" "status" m.status_codes
          ++ (latency_lines m
              ++ (optional_counter "redgw_ns_requests_total" "Requests per namespace" "ns"
                    m.ns_requests
                  ++ (optional_counter "redgw_client_requests_total" "Requests per client" "client"
                        m.client_requests
                      ++ (optional_counter "redgw_auth_failures_total"
                            "Authentication/authorization failures by reason" "reason"
                            m.auth_failures
                          ++ (headed "redgw_build_info" "Build information" "gauge"
                              ++ (("redgw_build_info{core_engine=\"" ⧺ core_impl ⧺ "\"} 1") ∷ []
                                  ++ (single "redgw_uptime_seconds" "Service uptime" "gauge"
                                        m.uptime_seconds
                                      ++ (of_server
                                          ++ (headed "redgw_ns_keys_total"
                                                "Keys per namespace (sampled)" "gauge"
                                              ++ entry_lines "redgw_ns_keys_total" "ns"
                                                  (map (λ e. (e.0, pos e.1)) ns_counts)))))))))))

-- `_metrics_text_cache` and `_metrics_text_ts`, in microseconds, beside the cache of the counts.
pub record MetricsCache : Type 0 where
  pub text : String
  pub ts : ℕ
  pub ns_counts : CountsCache

abbrev pub metrics_text_ttl : ℕ
metrics_text_ttl = 5000000

-- A snapshot as a dict.
abbrev ints : List (String × ℤ) → Value
ints d = dict (fields_of (map (λ e. (e.0, int e.1)) d))

abbrev pub snapshot_value : Snapshot → List (String × Value)
snapshot_value m =
    ("total_requests", int m.total_requests)
    ∷ ("status_codes", ints m.status_codes)
    ∷ ("uptime_seconds", m.uptime_seconds)
    ∷ ("ns_requests", ints m.ns_requests)
    ∷ ("client_requests", ints m.client_requests)
    ∷ (
      "latency",
      dict (
          fields_of (
            ("sum", m.latency_sum)
            ∷ ("count", int m.latency_count)
            ∷ ("buckets", ints m.buckets)
            ∷ [])),
    )
    ∷ ("auth_failures", ints m.auth_failures)
    ∷ ("audit_dropped", ints m.audit_dropped)
    ∷ []

module _ {R : Type 0} (redis : AdminRedis R) (client : ClientInfo)
    (float_or_zero : Value → Result Value) (uptime : Value) where
  unfoldable pub service_metrics : Exec (World R) Response
  service_metrics = do
    require_admin client
    m ← get_metrics redis float_or_zero uptime
    pure (ok_simple (snapshot_value m))

  unfoldable pub prometheus_metrics :
      (Value → String) → String → MetricsCache → ℕ → Exec (World R) (String × MetricsCache)
  prometheus_metrics shown core_impl cache now = do
    require_admin client
    if not (cache.text == "") && ltb (now - cache.ts) metrics_text_ttl
        then pure (cache.text, cache)
        else (do
          m ← get_metrics redis float_or_zero uptime
          info ← await_info redis "memory"
          stats ← await_info redis "stats"
          clients ← await_info redis "clients"
          found ← get_ns_counts_cached redis cache.ns_counts now
          let text =
              ended_lines
                (metric_lines shown core_impl m (server_lines shown info stats clients) found.0)
          pure (text, record { text = text; ts = now; ns_counts = found.1 }))
