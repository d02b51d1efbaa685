-- ===== src/Auth/ApiKey/Resolution.antt =====
-- Which key authenticates as whom: app/auth/api_key.py.
use redgw_lite.Prelude.{
  String, ◌≡◌, ◌≢◌, refl, none, some, List, [], ◌∷◌, ◌++◌, ◌==◌, if◌then◌else◌, eq_iff, eq_refl,
  arith, All, inl, inr, Option-cases, ◌∙◌,
}
use redgw_lite.Settings.{Settings, ClientConfig}
use redgw_lite.Python.Exec.{raised}
use redgw_lite.Response.{error}
use redgw_lite.Redis.{World}
use redgw_lite.Auth.ApiKey.{
  ClientInfo, administrator, KeyMap, store, lookup, register, register_all, build_key_map,
  resolve_client, verify_api_key,
}

pub lookup-store {ℓ} :
    {V : Type ℓ} (k j : String) (v : V) (d : List (String × V))
    → lookup j (store k v d) ≡ (if k == j then some v else lookup j d)
unfolding lookup store
lookup-store k j v [] = refl
lookup-store k j v ((i, w) ∷ d) =
    ground (arith, eq_iff i k, eq_iff i j, eq_iff k j, lookup-store k j v d)

abbrev info_of : String → ClientConfig → ClientInfo
info_of client_id cfg = record {
  client_id = client_id;
  description = cfg.description;
  namespaces = cfg.namespaces;
}

-- An entry of the key map is under a key that is not empty, and an entry with the reserved
-- identifier is under the administrator's key.
abbrev IsSound : String → KeyMap → Type 0
IsSound admin_key mapping =
    (k : String) (c : ClientInfo)
    → lookup k mapping ≡ some c
    → (k ≢ "") × (c.client_id ≡ "admin" → k ≡ admin_key)

register-IsSound :
    (admin_key client_id : String) (cfg : ClientConfig) (mapping : KeyMap)
    → IsSound admin_key mapping
    → IsSound admin_key (register client_id cfg mapping)
unfolding register
register-IsSound admin_key client_id cfg mapping sound k c h = ground (
  arith,
  sound k c,
  lookup-store cfg.api_key k (info_of client_id cfg) mapping,
  eq_iff client_id "admin",
  eq_iff cfg.api_key "",
  eq_iff cfg.api_key k,
)

register_all-IsSound :
    (admin_key : String) (clients : List (String × ClientConfig)) (mapping : KeyMap)
    → IsSound admin_key mapping
    → IsSound admin_key (register_all clients mapping)
unfolding register_all
register_all-IsSound admin_key [] mapping sound = sound
register_all-IsSound admin_key ((client_id, cfg) ∷ rest) mapping sound =
    register_all-IsSound admin_key rest (register client_id cfg mapping)
      (register-IsSound admin_key client_id cfg mapping sound)

build_key_map-IsSound :
    (settings : Settings) → IsSound settings.admin_api_key (build_key_map settings)
unfolding build_key_map
build_key_map-IsSound settings =
    register_all-IsSound settings.admin_api_key settings.clients _ λ k c h. ground (
      arith,
      lookup-store settings.admin_api_key k administrator [],
      eq_iff settings.admin_api_key "",
      eq_iff settings.admin_api_key k,
      lookup-nil k,
    )
  where
    lookup-nil : (k : String) → lookup {V = ClientInfo} k [] ≡ none
    lookup-nil k = unfold lookup in refl

-- Whatever the settings, the empty API key, the value of an empty `X-API-Key` header, authenticates
-- nobody: `verify_api_key` raises UNAUTHORIZED with status 401 and leaves the audit event for it.
pub verify_api_key-empty :
    {R : Type 0} (settings : Settings) (w : World R)
    → verify_api_key settings "" w ≡ (
      raised (error "UNAUTHORIZED" "Invalid API key" 401),
      record w {
        pending = some ("auth_fail", some "UNAUTHORIZED");
        auth_failures = w.auth_failures ++ "auth_fail" ∷ [];
      },
    )
verify_api_key-empty settings w = elim (Option-cases (resolve_client settings "")) [
  | inl unknown ↦ unfold verify_api_key in rw (unknown, verify_api_key)
  | inr (c, found) ↦
      absurd ((build_key_map-IsSound settings "" c (unfold resolve_client in found)).0 refl)
]

-- A client with the identifier "admin" is only ever the owner of the administrator's key, and that
-- key is not empty: no entry of `clients`, one named "admin" included, yields admin rights. So with
-- an empty `admin.api_key` no key at all authenticates as the administrator.
pub resolve_client-admin :
    (settings : Settings) (api_key : String) (c : ClientInfo)
    → resolve_client settings api_key ≡ some c
    → c.client_id ≡ "admin"
    → (api_key ≡ settings.admin_api_key) × (settings.admin_api_key ≢ "")
resolve_client-admin settings api_key c found named =
    let (filled, same) =
      build_key_map-IsSound settings api_key c (unfold resolve_client in found) in
    let key : api_key ≡ settings.admin_api_key = same named in (key, rw (← key) filled)

-- The identifier and key of an entry that the loop over `clients` registers.
abbrev pub IsRegistered : String → ClientConfig → Type 0
IsRegistered client_id cfg = (client_id ≢ "admin") × (cfg.api_key ≢ "")

abbrev pub HasOtherKey : String → String × ClientConfig → Type 0
HasOtherKey api_key entry = entry.1.api_key ≢ api_key

register-other :
    (api_key client_id : String) (cfg : ClientConfig) (mapping : KeyMap)
    → cfg.api_key ≢ api_key
    → lookup api_key (register client_id cfg mapping) ≡ lookup api_key mapping
unfolding register
register-other api_key client_id cfg mapping other = ground (
  arith,
  lookup-store cfg.api_key api_key (info_of client_id cfg) mapping,
  eq_iff cfg.api_key api_key,
)

register_all-other :
    (api_key : String) (clients : List (String × ClientConfig)) (mapping : KeyMap)
    → All (HasOtherKey api_key) clients
    → lookup api_key (register_all clients mapping) ≡ lookup api_key mapping
unfolding register_all
register_all-other api_key [] mapping h = refl
register_all-other api_key ((client_id, cfg) ∷ rest) mapping (h, hs) =
    register_all-other api_key rest (register client_id cfg mapping) hs
    ∙ register-other api_key client_id cfg mapping h

register_self :
    (client_id : String) (cfg : ClientConfig) (mapping : KeyMap)
    → IsRegistered client_id cfg
    → lookup cfg.api_key (register client_id cfg mapping) ≡ some (info_of client_id cfg)
unfolding register
register_self client_id cfg mapping h = ground (
  arith,
  lookup-store cfg.api_key cfg.api_key (info_of client_id cfg) mapping,
  eq_iff client_id "admin",
  eq_iff cfg.api_key "",
  eq_refl cfg.api_key,
)

register_all_self :
    (before after : List (String × ClientConfig)) (client_id : String) (cfg : ClientConfig)
    (mapping : KeyMap)
    → IsRegistered client_id cfg
    → All (HasOtherKey cfg.api_key) after
    → lookup cfg.api_key (register_all (before ++ (client_id, cfg) ∷ after) mapping)
      ≡ some (info_of client_id cfg)
unfolding register_all
register_all_self [] after client_id cfg mapping h others =
    register_all-other cfg.api_key after (register client_id cfg mapping) others
    ∙ register_self client_id cfg mapping h
register_all_self ((i, c) ∷ before) after client_id cfg mapping h others =
    register_all_self before after client_id cfg (register i c mapping) h others

-- An entry of `clients` that has a key and does not use the reserved identifier authenticates by its
-- key, with its own namespaces, unless a later entry has the same key; what stands before it, and the
-- administrator's key, do not matter.
pub resolve_client-registered :
    (settings : Settings) (before after : List (String × ClientConfig)) (client_id : String)
    (cfg : ClientConfig)
    → settings.clients ≡ before ++ (client_id, cfg) ∷ after
    → IsRegistered client_id cfg
    → All (HasOtherKey cfg.api_key) after
    → resolve_client settings cfg.api_key
      ≡ some (record {
        client_id = client_id;
        description = cfg.description;
        namespaces = cfg.namespaces;
      })
unfolding resolve_client build_key_map
resolve_client-registered settings before after client_id cfg listed h others =
    rw listed (register_all_self before after client_id cfg _ h others)

-- The administrator's key, if it is not empty and no entry of `clients` repeats it, authenticates as
-- the administrator.
pub resolve_client-administrator :
    (settings : Settings)
    → settings.admin_api_key ≢ ""
    → All (HasOtherKey settings.admin_api_key) settings.clients
    → resolve_client settings settings.admin_api_key ≡ some administrator
unfolding resolve_client build_key_map
resolve_client-administrator settings filled others =
    register_all-other settings.admin_api_key settings.clients _ others
    ∙ ground (
      arith,
      lookup-store settings.admin_api_key settings.admin_api_key administrator [],
      eq_iff settings.admin_api_key "",
      eq_refl settings.admin_api_key,
    )
