-- ===== src/Config/Duplicates.antt =====
-- The two validations of the settings agree on what is fatal, and settings that pass give every
-- client its own key: app/config.py, app/config_validator.py and app/auth/api_key.py.
use redgw_lite.Prelude.{
  String, ◌≡◌, ◌≢◌, ◌↔◌, refl, Bool, true, false, not, ◌&&◌, ◌||◌, some, List, [], ◌∷◌, ◌++◌, ◌==◌,
  map, any, All, arith, eq_iff, Bool-cases, inl, inr,
}
use redgw_lite.Python.Exec.{returned}
use redgw_lite.Python.Interpreter.{Interpreter}
use redgw_lite.Settings.{Settings, ClientConfig}
use redgw_lite.KeyBuilder.{contains}
use redgw_lite.Auth.ApiKey.{administrator, resolve_client}
use redgw_lite.Auth.ApiKey.Resolution.{
  IsRegistered, HasOtherKey, resolve_client-registered, resolve_client-administrator,
}
use redgw_lite.Config.{Environ, api_keys, is_empty, listed_duplicates, warnings, validate_config}
use redgw_lite.Config.Validator.{
  fatal, error, warning, Report, is_fatal, has_fatal, add, duplicate_set, placeholder_issues,
  namespace_issues, permission_issues, validate_main_config, validate_all_configs,
}

-- A text of the list is in `seen`; a text stands in the list twice.
abbrev any_seen : List String → List String → Bool
any_seen seen ks = any (λ k. contains k seen) ks

abbrev repeats : List String → Bool
repeats [] = false
repeats (k ∷ ks) = contains k ks || repeats ks

any_seen-add :
    (k : String) (seen ks : List String)
    → any_seen (k ∷ seen) ks ≡ (contains k ks || any_seen seen ks)
any_seen-add k seen [] = refl
any_seen-add k seen (j ∷ ks) = ground (arith, eq_iff j k, eq_iff k j, any_seen-add k seen ks)

any_seen-nil : (ks : List String) → any_seen [] ks ≡ false
any_seen-nil [] = refl
any_seen-nil (k ∷ ks) = any_seen-nil ks

is_empty_of_contains : (k : String) (ks : List String) → contains k ks ≡ true → is_empty ks ≡ false
is_empty_of_contains k [] h = cc h
is_empty_of_contains k (j ∷ ks) h = refl

is_empty-append : (ks : List String) (k : String) → is_empty (ks ++ k ∷ []) ≡ false
is_empty-append [] k = refl
is_empty-append (j ∷ ks) k = refl

is_empty-duplicate_set :
    (seen duplicates ks : List String)
    → is_empty (duplicate_set seen duplicates ks)
      ≡ (is_empty duplicates && not (any_seen seen ks || repeats ks))
unfolding duplicate_set
is_empty-duplicate_set seen duplicates [] = ground arith
is_empty-duplicate_set seen duplicates (k ∷ ks) = ground (
  arith,
  is_empty-duplicate_set (k ∷ seen) duplicates ks,
  is_empty-duplicate_set (k ∷ seen) (k ∷ duplicates) ks,
  any_seen-add k seen ks,
  is_empty_of_contains k duplicates,
)

is_empty-listed_duplicates :
    (seen duplicates ks : List String)
    → is_empty (listed_duplicates seen duplicates ks)
      ≡ (is_empty duplicates && not (any_seen seen ks || repeats ks))
unfolding listed_duplicates
is_empty-listed_duplicates seen duplicates [] = ground arith
is_empty-listed_duplicates seen duplicates (k ∷ ks) = ground (
  arith,
  is_empty-listed_duplicates (k ∷ seen) duplicates ks,
  is_empty-listed_duplicates seen duplicates ks,
  is_empty-listed_duplicates seen (duplicates ++ k ∷ []) ks,
  any_seen-add k seen ks,
  is_empty_of_contains k duplicates,
  is_empty-append duplicates k,
)

any_fatal-append : (xs ys : Report) → any is_fatal (xs ++ ys) ≡ (any is_fatal xs || any is_fatal ys)
any_fatal-append [] ys = refl
any_fatal-append (x ∷ xs) ys = ground (arith, any_fatal-append xs ys)

any_fatal-fatal :
    (test : Bool) (message hint : String) → any is_fatal (add test fatal message hint) ≡ test
any_fatal-fatal true message hint = refl
any_fatal-fatal false message hint = refl

any_fatal-error :
    (test : Bool) (message hint : String) → any is_fatal (add test error message hint) ≡ false
any_fatal-error true message hint = refl
any_fatal-error false message hint = refl

any_fatal-warning :
    (test : Bool) (message hint : String) → any is_fatal (add test warning message hint) ≡ false
any_fatal-warning true message hint = refl
any_fatal-warning false message hint = refl

any_fatal-placeholder_issues :
    (clients : List (String × ClientConfig)) → any is_fatal (placeholder_issues clients) ≡ false
any_fatal-placeholder_issues [] = refl
any_fatal-placeholder_issues ((client_id, cfg) ∷ clients) =
    rw (any_fatal-append, any_fatal-warning) (any_fatal-placeholder_issues clients)

module _ (python : Interpreter) where
  any_fatal-namespace_issues :
      (client_id : String) (namespaces : List (String × List String))
      → any is_fatal (namespace_issues python client_id namespaces) ≡ false
  any_fatal-namespace_issues client_id [] = refl
  any_fatal-namespace_issues client_id ((ns, perms) ∷ namespaces) =
      rw (any_fatal-append, any_fatal-error) (any_fatal-namespace_issues client_id namespaces)

  any_fatal-permission_issues :
      (clients : List (String × ClientConfig))
      → any is_fatal (permission_issues python clients) ≡ false
  any_fatal-permission_issues [] = refl
  any_fatal-permission_issues ((client_id, cfg) ∷ clients) =
      rw (any_fatal-append, any_fatal-namespace_issues client_id cfg.namespaces)
        (any_fatal-permission_issues clients)

  -- What is fatal is that a key occurs twice.
  has_fatal-repeats :
      (settings : Settings)
      → has_fatal (validate_all_configs python (some settings)) ≡ repeats (api_keys settings)
  unfolding has_fatal validate_all_configs validate_main_config
  has_fatal-repeats settings =
      simp
        (
          any_fatal-append, any_fatal-fatal, any_fatal-error, any_fatal-warning,
          any_fatal-placeholder_issues, any_fatal-permission_issues, is_empty-duplicate_set,
        )
        (ground (arith, any_seen-nil (api_keys settings)))

  -- A setting in which a key occurs twice ends the start, and any other does not.
  validate_config-repeats :
      (environ : Environ) (settings : Settings)
      → ((messages : List String) × (validate_config python environ settings ≡ returned messages))
        ↔ (repeats (api_keys settings) ≡ false)
  unfolding validate_config
  validate_config-repeats environ settings = elim (Bool-cases (repeats (api_keys settings))) [
    | inl twice ↦
        let full : is_empty (listed_duplicates [] [] (api_keys settings)) ≡ false =
          rw (is_empty-listed_duplicates, any_seen-nil, twice) refl in
        ((λ h. cc (rw full at (h.1))), λ once. cc (twice, once))
    | inr once ↦
        let empty : is_empty (listed_duplicates [] [] (api_keys settings)) ≡ true =
          rw (is_empty-listed_duplicates, any_seen-nil, once) refl in
        ((λ _. once), λ _. (warnings python environ settings, rw empty))
  ]

  -- The two validations of the settings agree: `validate_config` lets the application start, with
  -- whatever warnings, exactly when the report of `validate_all_configs` on the same settings has no
  -- FATAL issue. They look for a key that occurs twice with different loops.
  pub validate_config-has_fatal :
      (environ : Environ) (settings : Settings)
      → ((messages : List String) × (validate_config python environ settings ≡ returned messages))
        ↔ (has_fatal (validate_all_configs python (some settings)) ≡ false)
  validate_config-has_fatal environ settings =
      rw has_fatal-repeats (validate_config-repeats environ settings)

contains-last : (j k : String) (ks : List String) → contains j (ks ++ k ∷ []) ≡ false → j ≢ k
contains-last j k [] h = λ e. ground (arith, eq_iff j k)
contains-last j k (i ∷ ks) h = contains-last j k ks (ground (arith, eq_iff j i))

-- The keys of clients, and more keys behind them.
abbrev keys_and : List (String × ClientConfig) → List String → List String
keys_and clients more = map (λ client. client.1.api_key) clients ++ more

others_of_contains :
    (k : String) (clients : List (String × ClientConfig)) (more : List String)
    → contains k (keys_and clients more) ≡ false
    → All (HasOtherKey k) clients
others_of_contains k [] more h = tt
others_of_contains k ((client_id, cfg) ∷ clients) more h = (
  (λ same. ground (arith, eq_iff k cfg.api_key)),
  others_of_contains k clients more (ground (arith, eq_iff k cfg.api_key)),
)

others_of_repeats :
    (before after : List (String × ClientConfig)) (client_id : String) (cfg : ClientConfig)
    (more : List String)
    → repeats (keys_and (before ++ (client_id, cfg) ∷ after) more) ≡ false
    → All (HasOtherKey cfg.api_key) after
others_of_repeats [] after client_id cfg more h =
    others_of_contains cfg.api_key after more (ground arith)
others_of_repeats (b ∷ before) after client_id cfg more h =
    others_of_repeats before after client_id cfg more (ground arith)

others_of_last :
    (k : String) (clients : List (String × ClientConfig))
    → repeats (keys_and clients (k ∷ [])) ≡ false
    → All (HasOtherKey k) clients
others_of_last k [] h = tt
others_of_last k ((client_id, cfg) ∷ clients) h = (
  contains-last cfg.api_key k (map (λ client. client.1.api_key) clients) (ground arith),
  others_of_last k clients (ground arith),
)

module _ (python : Interpreter) (environ : Environ) (settings : Settings)
    (messages : List String) where
  -- Where `validate_config` lets the application start, every client that has a key and does not use
  -- the reserved identifier authenticates by its key as itself, wherever it stands among the clients.
  pub validate_config-registered :
      (before after : List (String × ClientConfig)) (client_id : String) (cfg : ClientConfig)
      → validate_config python environ settings ≡ returned messages
      → settings.clients ≡ before ++ (client_id, cfg) ∷ after
      → IsRegistered client_id cfg
      → resolve_client settings cfg.api_key
        ≡ some (record {
          client_id = client_id;
          description = cfg.description;
          namespaces = cfg.namespaces;
        })
  validate_config-registered before after client_id cfg passed listed registered =
      resolve_client-registered settings before after client_id cfg listed registered (
        others_of_repeats before after client_id cfg _
          (rw listed at ((validate_config-repeats python environ settings).0 (messages, passed))))

  -- Where `validate_config` lets the application start and the administrator has a key, that key
  -- authenticates as the administrator.
  pub validate_config-administrator :
      validate_config python environ settings ≡ returned messages
      → settings.admin_api_key ≢ ""
      → resolve_client settings settings.admin_api_key ≡ some administrator
  validate_config-administrator passed filled = resolve_client-administrator settings filled (
      others_of_last settings.admin_api_key settings.clients
        (rw absent at ((validate_config-repeats python environ settings).0 (messages, passed))))
    where
      absent : (settings.admin_api_key == "") ≡ false
      absent = ground (arith, eq_iff settings.admin_api_key "")
