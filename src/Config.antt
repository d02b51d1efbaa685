-- ===== src/Config.antt =====
-- The validation of settings at start: `validate_config` of app/config.py; Config.Validator is
-- app/config_validator.py.
pub mod Validator
pub mod Duplicates
pub mod Tests
use Prim.Native.String
use mathlib.Core.Option
use redgw_lite.Prelude.{
  ℕ, String, Bool, true, false, not, ◌&&◌, ◌||◌, Option, none, some, List, [], ◌∷◌, ◌++◌, ◌==◌, ◌⧺◌,
  any, all, map, within, code, codes, nat_eq, if◌then◌else◌,
}
use redgw_lite.Python.Exec.{Result, returned, raised, other_error}
use redgw_lite.Python.Interpreter.{Interpreter}
use redgw_lite.Settings.{Settings, ClientConfig}
use redgw_lite.KeyBuilder.{contains}
use redgw_lite.Auth.ApiKey.{lookup}

-- The keys that are compared: those of the clients, and the administrator's if there is one.
abbrev pub api_keys : Settings → List String
api_keys settings =
    map (λ client. client.1.api_key) settings.clients
    ++ (if settings.admin_api_key == "" then [] else settings.admin_api_key ∷ [])

-- `for k in api_keys: if k in seen: …`, a text that is new goes to the end of a list.
unfoldable pub listed_duplicates : List String → List String → List String → List String
listed_duplicates seen duplicates [] = duplicates
listed_duplicates seen duplicates (k ∷ ks) =
    if contains k seen
    then listed_duplicates seen (if contains k duplicates then duplicates else duplicates ++ k ∷ [])
        ks
    else listed_duplicates (k ∷ seen) duplicates ks

-- `any(p in api_key for p in _PLACEHOLDER_PATTERNS)`
abbrev pub is_placeholder : String → Bool
is_placeholder api_key = any (λ p. within p api_key) ("xxxxxxxx" ∷ "CHANGE_ME" ∷ [])

abbrev pub Environ : Type 0
Environ = List (String × String)

-- `not os.environ.get(name)`
abbrev pub is_unset : String → Environ → Bool
is_unset name environ = elim (lookup name environ) [ none ↦ true | some value ↦ value == "" ]

abbrev pub client_variable : String → String
client_variable client_id = "REDGW_CLIENT_" ⧺ client_id ⧺ "_API_KEY"

-- What stands behind a head, and before a tail.
behind : String → String → Option String
behind String.[] s = some s
behind (String.◌∷◌ c head) String.[] = none
behind (String.◌∷◌ c head) (String.◌∷◌ d s) =
    if nat_eq (code c) (code d) then behind head s else none

before : String → String → Option String
before tail String.[] = if "" == tail then some "" else none
before tail (String.◌∷◌ c s) =
    let rest = before tail s in
    if String.◌∷◌ c s == tail then some "" else Option.map (λ t. String.◌∷◌ c t) rest

-- `re.fullmatch(r"REDGW_CLIENT_(\w+)_API_KEY", name)` and its group.
unfoldable pub client_of_variable : Interpreter → String → Option String
unfolding behind before
client_of_variable python name = elim (behind "REDGW_CLIENT_" name) [
  | none ↦ none
  | some rest ↦ elim (before "_API_KEY" rest) [
    | none ↦ none
    | some client_id ↦
        if not (client_id == "") && all python.isword (codes client_id)
        then some client_id
        else none
  ]
]

-- The parts of `validate_config` that only warn, in their order.
abbrev pub placeholder_warnings : List (String × ClientConfig) → List String
placeholder_warnings [] = []
placeholder_warnings ((client_id, cfg) ∷ clients) =
    (if is_placeholder cfg.api_key
      then ("Client '"
          ⧺ client_id
          ⧺ "' API key looks like a placeholder — set "
          ⧺ client_variable client_id
          ⧺ " in .env")
        ∷ []
      else [])
    ++ placeholder_warnings clients

abbrev pub unset_warnings : Environ → List (String × ClientConfig) → List String
unset_warnings environ [] = []
unset_warnings environ ((client_id, cfg) ∷ clients) =
    (if is_unset (client_variable client_id) environ
      then ("Environment variable "
          ⧺ client_variable client_id
          ⧺ " not set — client '"
          ⧺ client_id
          ⧺ "' uses config.yaml default key")
        ∷ []
      else [])
    ++ unset_warnings environ clients

-- The warning for one variable of the environment.
abbrev pub unused_warning : String → Settings → Option String → List String
unused_warning name settings none = []
unused_warning name settings (some client_id) =
    if contains client_id (map (λ client. client.0) settings.clients)
    then []
    else ("Environment variable " ⧺ name ⧺ " is set but client '" ⧺ client_id
        ⧺ "' is not defined in config.yaml")
      ∷ []

abbrev pub unused_warnings : Interpreter → Settings → Environ → List String
unused_warnings python settings [] = []
unused_warnings python settings ((name, value) ∷ environ) =
    unused_warning name settings (client_of_variable python name)
    ++ unused_warnings python settings environ

-- `if not xs:`
abbrev pub is_empty {ℓ} : {A : Type ℓ} → List A → Bool
is_empty [] = true
is_empty (x ∷ xs) = false

abbrev pub warned : Bool → String → List String
warned test message = if test then message ∷ [] else []

-- The warnings that `validate_config` collects.
abbrev pub warnings : Interpreter → Environ → Settings → List String
warnings python environ settings =
    warned (settings.admin_api_key == "") "admin.api_key is empty — admin endpoints are unprotected"
    ++ warned (is_empty settings.clients) "No clients defined — only admin access will work"
    ++ placeholder_warnings settings.clients
    ++ warned (not (settings.admin_api_key == "") && is_placeholder settings.admin_api_key)
        "Admin API key looks like a placeholder — set REDGW_ADMIN_API_KEY in .env"
    ++ unset_warnings environ settings.clients
    ++ warned (is_unset "REDGW_ADMIN_API_KEY" environ)
        "Environment variable REDGW_ADMIN_API_KEY not set — admin uses config.yaml default key"
    ++ unused_warnings python settings environ

-- `validate_config`: the warnings, or `SystemExit`.
unfoldable pub validate_config : Interpreter → Environ → Settings → Result (List String)
validate_config python environ settings =
    if not (is_empty (listed_duplicates [] [] (api_keys settings)))
    then raised
        (other_error "FATAL: Duplicate API keys detected — each client must have a unique key")
    else returned (warnings python environ settings)
