-- ===== src/Auth/ApiKey.antt =====
-- app/auth/api_key.py: which client an API key stands for, and the dependency that verifies it.
pub mod Resolution
pub mod Tests
use redgw_lite.Prelude.{
  ℕ, String, Bool, true, false, Option, none, some, List, [], ◌∷◌, ◌++◌, ◌==◌, if◌then◌else◌,
}
use redgw_lite.Python.Exec.{Exec, Result, returned, raised, pure, raise}
use redgw_lite.Response.{error}
use redgw_lite.Settings.{Settings, ClientConfig}
use redgw_lite.Redis.{World}

-- `ClientInfo` of app/schemas/common.py
pub record ClientInfo : Type 0 where
  pub client_id : String
  pub description : String
  pub namespaces : List (String × List String)

abbrev pub administrator : ClientInfo
administrator = record {
  client_id = "admin";
  description = "Administrator";
  namespaces = ("*", "read" ∷ "write" ∷ []) ∷ [];
}

-- `d[k] = v`: a key that is there keeps its place.
unfoldable pub store {ℓ} : {V : Type ℓ} → String → V → List (String × V) → List (String × V)
store k v [] = (k, v) ∷ []
store k v ((j, w) ∷ d) = if j == k then (j, v) ∷ d else (j, w) ∷ store k v d

-- `d.get(k)`
unfoldable pub lookup {ℓ} : {V : Type ℓ} → String → List (String × V) → Option V
lookup k [] = none
lookup k ((j, v) ∷ d) = if j == k then some v else lookup k d

abbrev pub KeyMap : Type 0
KeyMap = List (String × ClientInfo)

-- One round of the loop over `settings.clients.items()`: the reserved name "admin" and an empty key
-- are passed over.
unfoldable pub register : String → ClientConfig → KeyMap → KeyMap
register client_id cfg mapping =
    if client_id == "admin"
    then mapping
    else if cfg.api_key == ""
    then mapping
    else store cfg.api_key
        (record {
          client_id = client_id;
          description = cfg.description;
          namespaces = cfg.namespaces;
        })
        mapping

unfoldable pub register_all : List (String × ClientConfig) → KeyMap → KeyMap
register_all [] mapping = mapping
register_all ((client_id, cfg) ∷ rest) mapping = register_all rest (register client_id cfg mapping)

unfoldable pub build_key_map : Settings → KeyMap
build_key_map settings =
    register_all settings.clients
      (if settings.admin_api_key == "" then [] else store settings.admin_api_key administrator [])

-- `resolve_client`: the map is built at the first call and kept; settings do not change meanwhile, so
-- that the lookup is always one in the map of the settings.
unfoldable pub resolve_client : Settings → String → Option ClientInfo
resolve_client settings api_key = lookup api_key (build_key_map settings)

-- `verify_api_key`. The log line and the value in the request's scope are left out.
unfoldable pub verify_api_key : {R : Type 0} → Settings → String → Exec (World R) ClientInfo
verify_api_key settings x_api_key w = elim (resolve_client settings x_api_key) [
  | none ↦ (
    raised (error "UNAUTHORIZED" "Invalid API key" 401),
    record w {
      pending = some ("auth_fail", some "UNAUTHORIZED");
      auth_failures = w.auth_failures ++ "auth_fail" ∷ [];
    },
  )
  | some client ↦ (returned client, w)
]
