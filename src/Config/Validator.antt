-- ===== src/Config/Validator.antt =====
-- app/config_validator.py: the report on the settings. Writing it to the log is left out.
use redgw_lite.Prelude.{
  String, Bool, true, false, not, ◌&&◌, ◌||◌, Option, none, some, List, [], ◌∷◌, ◌++◌, ◌==◌, ◌⧺◌,
  pos, int_le, any, codes, show_int, starts_with, if◌then◌else◌,
}
use redgw_lite.Python.Interpreter.{Interpreter}
use redgw_lite.Settings.{Settings, ClientConfig}
use redgw_lite.KeyBuilder.{contains}
use redgw_lite.Config.{api_keys, is_placeholder, is_empty}

pub data Severity : Type 0 where
  fatal error warning info : Severity

pub record ConfigIssue : Type 0 where
  pub severity : Severity
  pub source : String
  pub message : String
  pub hint : String

abbrev pub Report : Type 0
Report = List ConfigIssue

abbrev pub is_fatal : ConfigIssue → Bool
is_fatal issue = elim issue.severity [ fatal ↦ true | _ ↦ false ]

-- `ValidationReport.has_fatal`
unfoldable pub has_fatal : Report → Bool
has_fatal report = any is_fatal report

-- `report.add`, as the issues that it adds to the report
abbrev pub add : Bool → Severity → String → String → Report
add test severity message hint =
    if test
    then record { severity = severity; source = "config.yaml"; message = message; hint = hint } ∷ []
    else []

-- `for k in api_keys: if k in seen: duplicates.add(k)`, and then `seen.add(k)` in each round.
unfoldable pub duplicate_set : List String → List String → List String → List String
duplicate_set seen duplicates [] = duplicates
duplicate_set seen duplicates (k ∷ ks) =
    duplicate_set (k ∷ seen)
      (if contains k seen
        then if contains k duplicates then duplicates else k ∷ duplicates
        else duplicates)
      ks

abbrev pub placeholder_issues : List (String × ClientConfig) → Report
placeholder_issues [] = []
placeholder_issues ((client_id, cfg) ∷ clients) =
    add (is_placeholder cfg.api_key) Severity.warning
      ("Client '" ⧺ client_id ⧺ "' API key looks like a placeholder")
      (".env에 REDGW_CLIENT_" ⧺ client_id ⧺ "_API_KEY를 설정하세요")
    ++ placeholder_issues clients

-- `[p for p in perms if p not in valid_perms]`
abbrev pub invalid_permissions : List String → List String
invalid_permissions [] = []
invalid_permissions (p ∷ ps) =
    if contains p ("read" ∷ "write" ∷ [])
    then invalid_permissions ps
    else p ∷ invalid_permissions ps

module _ (python : Interpreter) where
  abbrev pub namespace_issues : String → List (String × List String) → Report
  namespace_issues client_id [] = []
  namespace_issues client_id ((ns, perms) ∷ namespaces) =
      add (not (is_empty (invalid_permissions perms))) Severity.error
        ("Client '"
          ⧺ client_id
          ⧺ "' namespace '"
          ⧺ ns
          ⧺ "' has invalid permissions: "
          ⧺ python.shown (invalid_permissions perms))
        "허용 권한: read, write"
      ++ namespace_issues client_id namespaces

  abbrev pub permission_issues : List (String × ClientConfig) → Report
  permission_issues [] = []
  permission_issues ((client_id, cfg) ∷ clients) =
      namespace_issues client_id cfg.namespaces ++ permission_issues clients

  -- `_validate_main_config`: the report with the issues that it adds, in its numbered order.
  unfoldable pub validate_main_config : Settings → Report → Report
  validate_main_config settings report =
      report
      ++ add (not (is_empty (duplicate_set [] [] (api_keys settings)))) Severity.fatal
          "Duplicate API keys detected" "각 클라이언트에 고유한 API 키를 설정하세요"
      ++ add (settings.admin_api_key == "") Severity.warning "admin.api_key is empty"
          "REDGW_ADMIN_API_KEY 환경변수를 설정하세요"
      ++ add (is_empty settings.clients) Severity.warning "No clients defined"
          "config.yaml에 클라이언트를 추가하세요"
      ++ placeholder_issues settings.clients
      ++ add (not (starts_with (codes "redis://") (codes settings.redis_url))) Severity.error
          ("Invalid Redis URL: " ⧺ settings.redis_url) "redis://[:password@]host:port/db 형식이어야 합니다"
      ++ add (not (int_le (pos 1) settings.server_port && int_le settings.server_port (pos 65535)))
          Severity.warning ("Server port " ⧺ show_int settings.server_port ⧺ " out of range")
          "port 값은 1~65535 범위여야 합니다"
      ++ permission_issues settings.clients
      ++ add (int_le settings.defaults.ttl (pos 0)) Severity.warning
          ("Default TTL (" ⧺ show_int settings.defaults.ttl ⧺ ") is not positive") "TTL은 양수여야 합니다"
      ++ add
          (not (int_le (pos 1) settings.defaults.max_value_size)
            || not (int_le settings.defaults.max_value_size (pos 10485760)))
          Severity.warning
          ("max_value_size ("
            ⧺ show_int settings.defaults.max_value_size
            ⧺ ") outside recommended range")
          "1~10485760(10MB) 범위를 권장합니다"
      ++ add
          (not (
            contains (python.upper settings.log_level)
              ("DEBUG" ∷ "INFO" ∷ "WARNING" ∷ "ERROR" ∷ "CRITICAL" ∷ [])))
          Severity.warning ("Invalid log level: " ⧺ settings.log_level)
          "유효한 레벨: CRITICAL, DEBUG, ERROR, INFO, WARNING"
      ++ add (contains "*" settings.cors_origins) Severity.warning
          "cors_origins contains '*' while CORS runs with allow_credentials=True"
          "와일드카드 대신 명시적 오리진을 나열하세요('*'는 모든 출처의 자격증명 포함 요청을 허용)."

  -- `validate_all_configs`, with what `_load_settings_safe` returns
  unfoldable pub validate_all_configs : Option Settings → Report
  validate_all_configs none = add true Severity.error "Failed to load config.yaml" ""
  validate_all_configs (some settings) = validate_main_config settings []
