-- ===== src/Routers/Rank/Scope.antt =====
-- What the handlers of app/routers/rank.py may do, and what they report.
use redgw_lite.Prelude.{String, ◌≡◌, refl, Bool, true, false, List, ℤ, map, All}
use redgw_lite.Python.Value.{Float, normalised-ne}
use redgw_lite.Python.Exec.{returned}
use redgw_lite.Python.Yields.{Yields, yields_rules}
use redgw_lite.Response.{Response, ReportsTtl}
use redgw_lite.Settings.{DefaultsConfig}
use redgw_lite.KeyBuilder.{rank_prefix}
use redgw_lite.Redis.{Redis, World}
use redgw_lite.Redis.Keeps.{
  Keeps, Allowed, InScope, Preserved, Keeps-await, Keeps-execute, keeps_rules,
}
use redgw_lite.Auth.ApiKey.{ClientInfo}
use redgw_lite.Auth.Guard.{check_access}
use redgw_lite.Auth.Guard.Permissions.{permission, stopped, stopped_of_denied}
use redgw_lite.Validation.Keeps.{
  Keeps-check_value_size, Keeps-touch_key, Allowed-expire_or_persist, Yields-touch_key,
}
use redgw_lite.Routers.Batch.Keeps.{Keeps-bind-keys, All-keys}
use redgw_lite.Routers.Rank.{
  RankRequest, batch_get, batch_add, add, range, score, remove_member, between, remove, incr, touch,
  pop, writes, serve, check_finite, range_command, batch_get_rank, batch_add_rank, add_rank,
  range_rank, score_rank, between_rank, delete_rank, remove_rank, incr_rank, touch_rank, pop_rank,
}

module _ {R : Type 0} (redis : Redis R) (defaults : DefaultsConfig) (client : ClientInfo) where
  -- A client without the operation that a route of the Sorted Set type requires in the namespace gets
  -- NAMESPACE_DENIED with status 403; no command is sent, and the world changes in nothing but the
  -- audit event and the count of refusals.
  pub rank_denied :
      (ns : String) (q : RankRequest) (w : World R)
      → check_access client ns (permission (writes q)) ≡ false
      → serve redis defaults client ns q w ≡ stopped client ns (permission (writes q)) w
  unfolding batch_get_rank batch_add_rank add_rank range_rank score_rank between_rank delete_rank
      remove_rank incr_rank touch_rank pop_rank
  rank_denied ns (batch_get body) w denied = stopped_of_denied client ns "read" _ w denied
  rank_denied ns (range key a b r) w denied = stopped_of_denied client ns "read" _ w denied
  rank_denied ns (score key m) w denied = stopped_of_denied client ns "read" _ w denied
  rank_denied ns (between key a b) w denied = stopped_of_denied client ns "read" _ w denied
  rank_denied ns q w denied = stopped_of_denied client ns "write" _ w denied

pub Keeps-check_finite :
    {R : Type 0} {P : R → Type 0} (x : Float) (message : String)
    → Keeps P (check_finite {W = World R} x message)
unfolding check_finite
Keeps-check_finite x message = search keeps_rules

module _ {R : Type 0} (redis : Redis R) (defaults : DefaultsConfig) (client : ClientInfo)
    (P : R → Type 0) where
  range_command-Allowed :
      (ns k : String) (reverse : Bool) (start stop : ℤ)
      → InScope ns rank_prefix k
      → Allowed false ns rank_prefix (range_command redis defaults client reverse start stop k)
  range_command-Allowed ns k true start stop s = ((s, tt), refl)
  range_command-Allowed ns k false start stop s = ((s, tt), refl)

  ranges-Allowed :
      (ns : String) (reverse : Bool) (start stop : ℤ) (ks : List String)
      → All (InScope ns rank_prefix) ks
      → All
          (Allowed false ns rank_prefix)
          (map (range_command redis defaults client reverse start stop) ks)
  ranges-Allowed ns reverse start stop ks h =
      All-keys (Allowed false ns rank_prefix) ns rank_prefix _
        (λ k s. range_command-Allowed ns k reverse start stop s) ks h

  rank-Keeps :
      (ns : String) (q : RankRequest)
      → Preserved redis P (writes q) ns rank_prefix
      → Keeps P (serve redis defaults client ns q)
  unfolding batch_get_rank batch_add_rank add_rank range_rank score_rank between_rank delete_rank
      remove_rank incr_rank touch_rank pop_rank
  rank-Keeps ns (batch_get body) kept =
      search (Keeps-bind-keys, keeps_rules, ranges-Allowed, Keeps-execute kept) depth 16
  rank-Keeps ns (batch_add key body) kept =
      search
        (
          keeps_rules,
          Keeps-check_value_size,
          Keeps-check_finite,
          Allowed-expire_or_persist,
          Keeps-execute kept,
        )
        depth 20
  rank-Keeps ns (add key body) kept =
      search
        (
          keeps_rules,
          Keeps-check_value_size,
          Keeps-check_finite,
          Allowed-expire_or_persist,
          Keeps-execute kept,
        )
        depth 20
  rank-Keeps ns (range key a b r) kept =
      search (keeps_rules, range_command-Allowed, Keeps-await kept) depth 16
  rank-Keeps ns (score key m) kept = search (keeps_rules, Keeps-await kept) depth 14
  rank-Keeps ns (remove_member key m) kept = search (keeps_rules, Keeps-await kept) depth 14
  rank-Keeps ns (between key a b) kept = search (keeps_rules, Keeps-await kept) depth 16
  rank-Keeps ns (remove key) kept = search (keeps_rules, Keeps-await kept) depth 14
  rank-Keeps ns (incr key m d) kept =
      search (keeps_rules, Keeps-check_value_size, Keeps-check_finite, Keeps-execute kept) depth 16
  rank-Keeps ns (touch key ttl) kept = search (keeps_rules, Keeps-touch_key kept) depth 14
  rank-Keeps ns (pop key true) kept = search (keeps_rules, Keeps-await kept) depth 16
  rank-Keeps ns (pop key false) kept = search (keeps_rules, Keeps-await kept) depth 16

  -- Whatever property of the server's state the commands on keys `ns:rank:…` keep, a request of the
  -- Sorted Set type in the namespace `ns` keeps it; and where the route requires only "read", the
  -- property need only be kept by the commands among these that read.
  pub rank_confined :
      (ns : String) (q : RankRequest) (w : World R)
      → Preserved redis P (writes q) ns rank_prefix
      → P w.redis
      → P (serve redis defaults client ns q w).1.redis
  rank_confined ns q w kept h = (rank-Keeps ns q kept).at w h

module _ {R : Type 0} (redis : Redis R) (defaults : DefaultsConfig) (client : ClientInfo) where
  rank-Yields :
      (ns : String) (q : RankRequest) → Yields ReportsTtl (serve redis defaults client ns q)
  unfolding batch_get_rank batch_add_rank add_rank range_rank score_rank between_rank delete_rank
      remove_rank incr_rank touch_rank pop_rank
  rank-Yields ns (batch_add key body) = search (yields_rules, normalised-ne) depth 16
  rank-Yields ns (add key body) = search (yields_rules, normalised-ne) depth 16
  rank-Yields ns (incr key m d) = search (yields_rules, normalised-ne) depth 16
  rank-Yields ns (touch key ttl) = search (yields_rules, Yields-touch_key) depth 14
  rank-Yields ns q = search yields_rules depth 16

  -- Whatever Redis replies, also where another client deletes the set between the commands of a
  -- pipeline, a response of the Sorted Set type never reports a ttl of -2.
  pub rank_reports :
      (ns : String) (q : RankRequest) (w : World R) (response : Response)
      → (serve redis defaults client ns q w).0 ≡ returned response
      → ReportsTtl response
  rank_reports ns q w response h = (rank-Yields ns q).at w response h
