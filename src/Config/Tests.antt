-- ===== src/Config/Tests.antt =====
-- Concrete settings: one that passes both validations, and one with a key that occurs twice.
use redgw_lite.Prelude.{
  String, ◌≡◌, ◌↔◌, refl, false, some, none, List, [], ◌∷◌, pos, leb, ◌&&◌, eq_iff,
}
use redgw_lite.Python.Exec.{returned}
use redgw_lite.Python.Interpreter.{Interpreter}
use redgw_lite.Settings.{Settings, ClientConfig}
use redgw_lite.Auth.ApiKey.{administrator, resolve_client}
use redgw_lite.Routers.Fixtures.{defaults}
use redgw_lite.Config.{validate_config, listed_duplicates, client_of_variable, warnings}
use redgw_lite.Config.Validator.{has_fatal, validate_all_configs}
use redgw_lite.Config.Duplicates.{
  validate_config-has_fatal, validate_config-registered, validate_config-administrator,
}

-- Lower-case letters are the word characters of the example; texts are taken to be in upper case.
abbrev python : Interpreter
python = record { isword = λ c. leb b'a' c && leb c b'z'; upper = λ s. s; shown = λ xs. "[…]" }

abbrev erp : ClientConfig
erp = record { api_key = "k1"; description = "ERP"; namespaces = ("ERP", "read" ∷ []) ∷ [] }

abbrev settings : Settings
settings = record {
  clients =
      ("crm", record { api_key = "k0"; description = ""; namespaces = [] }) ∷ ("erp", erp) ∷ [];
  defaults = defaults;
  admin_api_key = "root";
  redis_url = "redis://redis:6379/0";
  server_port = pos 8000;
  cors_origins = [];
  log_level = "INFO";
}

erp_variable : client_of_variable python "REDGW_CLIENT_erp_API_KEY" ≡ some "erp"
unfolding client_of_variable
erp_variable = refl

no_client_variable : client_of_variable python "REDGW_CLIENT__API_KEY" ≡ none
unfolding client_of_variable
no_client_variable = refl

passed : validate_config python [] settings ≡ returned (warnings python [] settings)
unfolding validate_config listed_duplicates
passed = refl

validate_config-has_fatal_example :
    ((messages : List String) × (validate_config python [] settings ≡ returned messages))
    ↔ (has_fatal (validate_all_configs python (some settings)) ≡ false)
validate_config-has_fatal_example = validate_config-has_fatal python [] settings

validate_config-registered_example :
    resolve_client settings "k1"
    ≡ some
        (record { client_id = "erp"; description = "ERP"; namespaces = ("ERP", "read" ∷ []) ∷ [] })
validate_config-registered_example =
    validate_config-registered python [] settings (warnings python [] settings)
      (("crm", record { api_key = "k0"; description = ""; namespaces = [] }) ∷ []) [] "erp" erp
      passed refl ((λ e. cc ((eq_iff "erp" "admin").1 e)), (λ e. cc ((eq_iff "k1" "").1 e)))

validate_config-administrator_example : resolve_client settings "root" ≡ some administrator
validate_config-administrator_example =
    validate_config-administrator python [] settings (warnings python [] settings) passed
      (λ e. cc ((eq_iff "root" "").1 e))
