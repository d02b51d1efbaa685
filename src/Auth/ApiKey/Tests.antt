-- ===== src/Auth/ApiKey/Tests.antt =====
-- Concrete settings and keys.
use redgw_lite.Prelude.{pos, ◌≡◌, ◌≢◌, refl, some, none, [], ◌∷◌, eq_iff}
use redgw_lite.Settings.{Settings, ClientConfig}
use redgw_lite.Python.Exec.{raised}
use redgw_lite.Response.{error}
use redgw_lite.Routers.Fixtures.{defaults, start}
use redgw_lite.Auth.ApiKey.{
  administrator, resolve_client, build_key_map, register_all, register, store, lookup,
  verify_api_key,
}
use redgw_lite.Auth.ApiKey.Resolution.{
  verify_api_key-empty, resolve_client-admin, resolve_client-registered,
  resolve_client-administrator,
}

abbrev erp : ClientConfig
erp = record { api_key = "k1"; description = "ERP"; namespaces = ("ERP", "read" ∷ []) ∷ [] }

-- An entry that takes the reserved name and one that has no key.
abbrev settings : Settings
settings = record {
  clients =
      ("admin", record { api_key = "k0"; description = ""; namespaces = [] })
      ∷ ("erp", erp)
      ∷ ("off", record { api_key = ""; description = ""; namespaces = [] })
      ∷ [];
  defaults = defaults;
  admin_api_key = "root";
  redis_url = "redis://redis:6379/0";
  server_port = pos 8000;
  cors_origins = [];
  log_level = "INFO";
}

verify_api_key-empty_example : verify_api_key settings "" start ≡ (
  raised (error "UNAUTHORIZED" "Invalid API key" 401),
  record start {
    pending = some ("auth_fail", some "UNAUTHORIZED");
    auth_failures = "auth_fail" ∷ [];
  },
)
verify_api_key-empty_example = verify_api_key-empty settings start

root : resolve_client settings "root" ≡ some administrator
unfolding resolve_client build_key_map register_all register store lookup
root = refl

reserved_name : resolve_client settings "k0" ≡ none
unfolding resolve_client build_key_map register_all register store lookup
reserved_name = refl

resolve_client-admin_example : ("root" ≡ settings.admin_api_key) × (settings.admin_api_key ≢ "")
resolve_client-admin_example = resolve_client-admin settings "root" administrator root refl

resolve_client-registered_example :
    resolve_client settings "k1"
    ≡ some
        (record { client_id = "erp"; description = "ERP"; namespaces = ("ERP", "read" ∷ []) ∷ [] })
resolve_client-registered_example =
    resolve_client-registered settings
      (("admin", record { api_key = "k0"; description = ""; namespaces = [] }) ∷ [])
      (("off", record { api_key = ""; description = ""; namespaces = [] }) ∷ []) "erp" erp refl
      ((λ e. cc ((eq_iff "erp" "admin").1 e)), (λ e. cc ((eq_iff "k1" "").1 e)))
      ((λ e. cc ((eq_iff "" "k1").1 e)), tt)

resolve_client-administrator_example : resolve_client settings "root" ≡ some administrator
resolve_client-administrator_example =
    resolve_client-administrator settings (λ e. cc ((eq_iff "root" "").1 e))
      (
        (λ e. cc ((eq_iff "k0" "root").1 e)),
        ((λ e. cc ((eq_iff "k1" "root").1 e)), ((λ e. cc ((eq_iff "" "root").1 e)), tt)),
      )
