-- ===== src/Routers/Admin/Clients.antt =====
-- app/routers/admin.py: the clients of the settings, with their keys masked.
use redgw_lite.Prelude.{
  first_chars, String, not, List, [], ◌∷◌, ◌==◌, ◌⧺◌, leb, length, codes, map, select, sorted_texts,
  if◌then◌else◌,
}
use redgw_lite.Python.Value.{Value, str, list, dict, fields_of, texts}
use redgw_lite.Python.Exec.{Exec, pure, ◌>>◌}
use redgw_lite.Response.{Response, ok_simple}
use redgw_lite.Settings.{Settings, ClientConfig}
use redgw_lite.Redis.{World}
use redgw_lite.Auth.ApiKey.{ClientInfo, store}
use redgw_lite.Auth.Guard.{require_admin}

-- `_mask_key(key)`, with its default of eight visible characters.
unfoldable pub mask_key : String → String
mask_key key =
    if leb (length (codes key)) 4
    then "****"
    else if leb (length (codes key)) 8
    then first_chars 4 key ⧺ "****"
    else first_chars 8 key ⧺ "***"

-- `list_systems`, which needs no API key.
unfoldable pub list_systems : Settings → Response
list_systems settings = ok_simple (
    (
      "systems",
      list (
          texts (
            sorted_texts
              (select (λ cid. not (cid == "MONITOR")) (map (λ e. e.0) settings.clients)))),
    )
    ∷ ("fixed", list (texts ("MONITOR" ∷ "admin" ∷ [])))
    ∷ [])

abbrev pub namespaces_value : List (String × List String) → Value
namespaces_value d = dict (fields_of (map (λ e. (e.0, list (texts e.1))) d))

abbrev pub client_value : String → String → List (String × List String) → Value
client_value api_key description namespaces = dict (
    fields_of (
      ("api_key", str (mask_key api_key))
      ∷ ("description", str description)
      ∷ ("namespaces", namespaces_value namespaces)
      ∷ []))

abbrev pub described : List (String × ClientConfig) → List (String × Value)
described clients =
    map (λ e. (e.0, client_value e.1.api_key e.1.description e.1.namespaces)) clients

-- The administrator takes the place of a client with the identifier "admin".
unfoldable pub clients_of : Settings → List (String × Value)
clients_of settings =
    if settings.admin_api_key == ""
    then described settings.clients
    else store "admin"
        (client_value settings.admin_api_key "Administrator" (("*", "read" ∷ "write" ∷ []) ∷ []))
        (described settings.clients)

unfoldable pub list_clients : {R : Type 0} → Settings → ClientInfo → Exec (World R) Response
list_clients settings client = do
  require_admin client
  pure (ok_simple (("clients", dict (fields_of (clients_of settings))) ∷ []))
