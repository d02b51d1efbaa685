-- ===== src/Gateway/Isolation.antt =====
-- What a request may do, whatever its data type, and what becomes of it.
use redgw_lite.Prelude.{
  ℕ, String, ◌≡◌, ◌⊎◌, inl, inr, ◌∙◌, Bool, true, false, none, some, [], ◌∷◌, ◌++◌, Bool-cases,
  Option-cases,
}
use redgw_lite.Python.Exec.{Result, returned, raised}
use redgw_lite.Python.Steps.{bind_of_returned, bind_of_raised}
use redgw_lite.Response.{Response, ReportsTtl, error}
use redgw_lite.Settings.{Settings, DefaultsConfig}
use redgw_lite.Redis.{Redis, World}
use redgw_lite.Redis.Keeps.{Preserved}
use redgw_lite.Auth.ApiKey.{ClientInfo, resolve_client, verify_api_key}
use redgw_lite.Auth.Guard.{check_access}
use redgw_lite.Auth.Guard.Permissions.{permission, stopped}
use redgw_lite.Routers.Kv.Scope.{kv_denied, kv_confined, kv_reports}
use redgw_lite.Routers.Map.Scope.{map_denied, map_confined}
use redgw_lite.Routers.Map.Reports.{IsAtomic, map_reports}
use redgw_lite.Routers.Queue.Scope.{queue_denied, queue_confined, queue_reports}
use redgw_lite.Routers.Group.Scope.{group_denied, group_confined, group_reports}
use redgw_lite.Routers.Rank.Scope.{rank_denied, rank_confined, rank_reports}
use redgw_lite.Routers.Event.Scope.{event_denied, event_confined, event_reports}
use redgw_lite.Gateway.{
  Request, kv, hash, queue, group, rank, event, type_prefix, requires_write, writes, serve, handle,
}

-- The outcome of a request without a key that is known: UNAUTHORIZED with status 401.
abbrev pub unauthorized : {R A : Type 0} → World R → Result A × World R
unauthorized w = (
  raised (error "UNAUTHORIZED" "Invalid API key" 401),
  record w {
    pending = some ("auth_fail", some "UNAUTHORIZED");
    auth_failures = w.auth_failures ++ "auth_fail" ∷ [];
  },
)

module _ {R : Type 0} (settings : Settings) (api_key : String) (w : World R) where
  verify_unknown :
      resolve_client settings api_key ≡ none → verify_api_key settings api_key w ≡ unauthorized w
  verify_unknown unknown = unfold verify_api_key in rw (unknown, verify_api_key)

  verify_known :
      (client : ClientInfo)
      → resolve_client settings api_key ≡ some client
      → verify_api_key settings api_key w ≡ (returned client, w)
  verify_known client known = unfold verify_api_key in rw (known, verify_api_key)

module _ {R : Type 0} (redis : Redis R) (isdecimal : ℕ → Bool) where
  serve_denied :
      (defaults : DefaultsConfig) (client : ClientInfo) (ns : String) (q : Request) (w : World R)
      → check_access client ns (permission (requires_write q)) ≡ false
      → serve redis isdecimal defaults client ns q w
        ≡ stopped client ns (permission (requires_write q)) w
  serve_denied defaults client ns (kv q) w = kv_denied redis defaults client ns q w
  serve_denied defaults client ns (hash q) w = map_denied redis defaults client ns q w
  serve_denied defaults client ns (queue q) w = queue_denied redis defaults client ns q w
  serve_denied defaults client ns (group q) w = group_denied redis defaults client ns q w
  serve_denied defaults client ns (rank q) w = rank_denied redis defaults client ns q w
  serve_denied defaults client ns (event q) w = event_denied redis isdecimal defaults client ns q w

  handle_unknown :
      (settings : Settings) (api_key ns : String) (q : Request) (w : World R)
      → resolve_client settings api_key ≡ none
      → handle redis isdecimal settings api_key ns q w ≡ unauthorized w
  unfolding handle
  handle_unknown settings api_key ns q w unknown =
      bind_of_raised (verify_api_key settings api_key)
        (λ c. serve redis isdecimal settings.defaults c ns q)
        (verify_unknown settings api_key w unknown)

  handle_known :
      (settings : Settings) (api_key ns : String) (q : Request) (w : World R) (client : ClientInfo)
      → resolve_client settings api_key ≡ some client
      → handle redis isdecimal settings api_key ns q w
        ≡ serve redis isdecimal settings.defaults client ns q w
  unfolding handle
  handle_known settings api_key ns q w client known =
      bind_of_returned (verify_api_key settings api_key)
        (λ c. serve redis isdecimal settings.defaults c ns q)
        (verify_known settings api_key w client known)

  -- A request ends in one of three ways. With an API key that stands for no client it gets UNAUTHORIZED
  -- with status 401. With the key of a client that lacks the operation that the route requires in the
  -- namespace it gets NAMESPACE_DENIED with status 403. In both cases no handler sends a command, and
  -- the world changes in nothing but the audit event and the count of refusals. Otherwise the handler
  -- of the route serves it, for the client of the key and with the limits of the settings.
  pub handle-cases :
      (settings : Settings) (api_key ns : String) (q : Request) (w : World R)
      → ((resolve_client settings api_key ≡ none)
          × (handle redis isdecimal settings api_key ns q w ≡ unauthorized w))
        ⊎ ((client : ClientInfo) × (resolve_client settings api_key ≡ some client)
            × (((check_access client ns (permission (requires_write q)) ≡ false)
                  × (handle redis isdecimal settings api_key ns q w
                      ≡ stopped client ns (permission (requires_write q)) w))
                ⊎ ((check_access client ns (permission (requires_write q)) ≡ true)
                    × (handle redis isdecimal settings api_key ns q w
                        ≡ serve redis isdecimal settings.defaults client ns q w))))
  handle-cases settings api_key ns q w = elim (Option-cases (resolve_client settings api_key)) [
    | inl unknown ↦ inl (unknown, handle_unknown settings api_key ns q w unknown)
    | inr (client, known) ↦
        let same = handle_known settings api_key ns q w client known in
        inr (
          client,
          known,
          elim (Bool-cases (check_access client ns (permission (requires_write q)))) [
            | inl granted ↦ inr (granted, same)
            | inr denied ↦ inl (denied, same ∙ serve_denied settings.defaults client ns q w denied)
          ],
        )
  ]

module _ {R : Type 0} (redis : Redis R) (isdecimal : ℕ → Bool) (P : R → Type 0) where
  serve_confined :
      (defaults : DefaultsConfig) (client : ClientInfo) (ns : String) (q : Request) (w : World R)
      → Preserved redis P (writes q) ns (type_prefix q)
      → P w.redis
      → P (serve redis isdecimal defaults client ns q w).1.redis
  serve_confined defaults client ns (kv q) w = kv_confined redis defaults client P ns q w
  serve_confined defaults client ns (hash q) w = map_confined redis defaults client P ns q w
  serve_confined defaults client ns (queue q) w = queue_confined redis defaults client P ns q w
  serve_confined defaults client ns (group q) w = group_confined redis defaults client P ns q w
  serve_confined defaults client ns (rank q) w = rank_confined redis defaults client P ns q w
  serve_confined defaults client ns (event q) w =
      event_confined redis isdecimal defaults client P ns q w

  -- Tenants are isolated. A request keeps every property of the server's state that is kept by the
  -- commands on keys of its namespace and data type, and where the request sends only commands that
  -- read, by those among them. And this much is needed only if the API key stands for a client that
  -- has, in the namespace, the operation that the route requires: a request of anybody else keeps every
  -- property.
  pub handle-isolated :
      (settings : Settings) (api_key ns : String) (q : Request) (w : World R)
      → ((client : ClientInfo)
          → resolve_client settings api_key ≡ some client
          → check_access client ns (permission (requires_write q)) ≡ true
          → Preserved redis P (writes q) ns (type_prefix q))
      → P w.redis
      → P (handle redis isdecimal settings api_key ns q w).1.redis
  handle-isolated settings api_key ns q w kept h =
      elim (handle-cases redis isdecimal settings api_key ns q w) [
        | inl (unknown, same) ↦ rw same h
        | inr (client, known, inl (denied, same)) ↦ rw same h
        | inr (client, known, inr (granted, same)) ↦
            rw same (serve_confined settings.defaults client ns q w (kept client known granted) h)
      ]

module _ {R : Type 0} (redis : Redis R) (atomic : IsAtomic redis) (isdecimal : ℕ → Bool) where
  serve_reports :
      (defaults : DefaultsConfig) (client : ClientInfo) (ns : String) (q : Request) (w : World R)
      (response : Response)
      → (serve redis isdecimal defaults client ns q w).0 ≡ returned response
      → ReportsTtl response
  serve_reports defaults client ns (kv q) = kv_reports redis defaults client ns q
  serve_reports defaults client ns (hash q) = map_reports redis atomic defaults client ns q
  serve_reports defaults client ns (queue q) = queue_reports redis defaults client ns q
  serve_reports defaults client ns (group q) = group_reports redis defaults client ns q
  serve_reports defaults client ns (rank q) = rank_reports redis defaults client ns q
  serve_reports defaults client ns (event q) = event_reports redis isdecimal defaults client ns q

  -- Whatever Redis replies, also where another client deletes the key between the commands of a
  -- pipeline, a response never reports a ttl of -2, which is Redis's answer for a key that is not there;
  -- of Redis it is needed only that it runs transactions with nothing between their commands.
  pub handle_reports :
      (settings : Settings) (api_key ns : String) (q : Request) (w : World R) (response : Response)
      → (handle redis isdecimal settings api_key ns q w).0 ≡ returned response
      → ReportsTtl response
  handle_reports settings api_key ns q w response h =
      elim (handle-cases redis isdecimal settings api_key ns q w) [
        | inl (unknown, same) ↦ cc (rw same at h)
        | inr (client, known, inl (denied, same)) ↦ cc (rw same at h)
        | inr (client, known, inr (granted, same)) ↦
            serve_reports settings.defaults client ns q w response (rw same at h)
      ]
