-- ===== src/Gateway/Tests.antt =====
-- Requests from their API key to their response, against a server in memory.
use redgw_lite.Prelude.{
  ℕ, ◌≡◌, refl, ap, ◌∙◌, ◌⊎◌, Bool, true, false, none, some, List, [], ◌∷◌, pos, negsuc, leb, ◌&&◌,
}
use redgw_lite.Python.Value.{Value, null, str, int}
use redgw_lite.Python.Exec.{Result, returned, raised, ◌>>=◌}
use redgw_lite.Response.{ReportsTtl, ok_ttl}
use redgw_lite.Settings.{Settings}
use redgw_lite.KeyBuilder.{joined, kv_prefix, build_key, validate_ns, validate_key, ns_re, key_re}
use redgw_lite.Redis.{last_of_results, execute}
use redgw_lite.Redis.Memory.{memory, memory_call, memory_run}
use redgw_lite.Auth.ApiKey.{
  ClientInfo, resolve_client, build_key_map, register_all, register, store, lookup, verify_api_key,
}
use redgw_lite.Auth.Guard.{check_access, granted, require_access}
use redgw_lite.Auth.Guard.Permissions.{stopped}
use redgw_lite.Routers.Fixtures.{defaults, start, Untouched, start-Untouched, untouched}
use redgw_lite.Routers.Kv.{write, read, get_kv}
use redgw_lite.Routers.Map.Reports.{IsAtomic}
use redgw_lite.Gateway.{Request, kv, serve, handle}
use redgw_lite.Gateway.Isolation.{unauthorized, handle-cases, handle-isolated, handle_reports}

abbrev or_null : Result Value → Value
or_null (returned v) = v
or_null (raised e) = null

abbrev or_empty : Result (List Value) → List Value
or_empty (returned vs) = vs
or_empty (raised e) = []

-- The server in memory replies -1 to TTL.
memory-IsAtomic : IsAtomic memory
unfolding memory_run memory_call
memory-IsAtomic = record {
  timed = λ k fields ttl r results v h last.
      let same : int (negsuc 0) ≡ v =
        ap (λ rs. or_null (last_of_results (or_empty rs))) h ∙ ap or_null last in
      rw (← same) refl;
}

-- The decimal digits among the ASCII characters.
abbrev isdecimal : ℕ → Bool
isdecimal c = leb b'0' c && leb c b'9'

abbrev settings : Settings
settings = record {
  clients =
      (
        "erp",
        record {
          api_key = "k1";
          description = "";
          namespaces = ("ERP", "read" ∷ "write" ∷ []) ∷ [];
        },
      )
      ∷ [];
  defaults = defaults;
  admin_api_key = "root";
  redis_url = "redis://redis:6379/0";
  server_port = pos 8000;
  cors_origins = [];
  log_level = "INFO";
}

abbrev request : Request
request = kv (write "a" (record { value = "2"; ttl = none }))

-- The key of a client with the right to write: the other namespace's key is untouched.
handle-isolated_example :
    Untouched (handle memory isdecimal settings "k1" "ERP" request start).1.redis
handle-isolated_example =
    handle-isolated memory isdecimal Untouched settings "k1" "ERP" request start
      (λ client known granted. untouched true kv_prefix) start-Untouched

handle-cases_example :
    ((resolve_client settings "k2" ≡ none)
      × (handle memory isdecimal settings "k2" "HR" request start ≡ unauthorized start))
    ⊎ ((client : ClientInfo) × (resolve_client settings "k2" ≡ some client)
        × (((check_access client "HR" "write" ≡ false)
              × (handle memory isdecimal settings "k2" "HR" request start
                  ≡ stopped client "HR" "write" start))
            ⊎ ((check_access client "HR" "write" ≡ true)
                × (handle memory isdecimal settings "k2" "HR" request start
                    ≡ serve memory isdecimal defaults client "HR" request start))))
handle-cases_example = handle-cases memory isdecimal settings "k2" "HR" request start

got :
    (handle memory isdecimal settings "k1" "ERP" (kv (read "a")) start).0
    ≡ returned (ok_ttl (("value", str "1") ∷ []) "ERP" "a" "string" (int (negsuc 0)))
unfolding handle verify_api_key resolve_client build_key_map register_all register store get_kv
    require_access check_access granted lookup build_key validate_ns validate_key ns_re key_re
    joined execute memory_run memory_call ◌>>=◌
got = refl

handle_reports_example :
    ReportsTtl (ok_ttl (("value", str "1") ∷ []) "ERP" "a" "string" (int (negsuc 0)))
handle_reports_example =
    handle_reports memory memory-IsAtomic isdecimal settings "k1" "ERP" (kv (read "a")) start _ got
