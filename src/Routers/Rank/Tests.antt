-- ===== src/Routers/Rank/Tests.antt =====
-- Concrete requests of the Sorted Set type, against a server in memory.
use redgw_lite.Prelude.{String, ◌≡◌, refl, none, List, [], ◌∷◌, pos, negsuc}
use redgw_lite.Python.Value.{Value, finite, nan, null, int, str, float}
use redgw_lite.Python.Exec.{returned, ◌>>=◌, for_each}
use redgw_lite.Response.{ok_ttl}
use redgw_lite.KeyBuilder.{joined, build_key, validate_ns, validate_key, ns_re, key_re}
use redgw_lite.Redis.{execute, rescue}
use redgw_lite.Redis.Memory.{memory, memory_call, memory_run}
use redgw_lite.Redis.Stops.{Raised}
use redgw_lite.Auth.ApiKey.{lookup}
use redgw_lite.Auth.Guard.{check_access, granted, require_access}
use redgw_lite.Validation.{check_value_size, exceeds_size, resolve_ttl}
use redgw_lite.Routers.Fixtures.{defaults, writer, start}
use redgw_lite.Routers.Rank.{RankAddRequest, add, serve, add_rank, zadd_timed, check_finite}
use redgw_lite.Routers.Rank.Scores.{rank-finite}

abbrev body : RankAddRequest
body = record { member = "x"; score = finite (pos 3) (pos 0); ttl = none }

abbrev added : List (String × Value)
added = ("added", null) ∷ ("member", str "x") ∷ ("score", float (finite (pos 3) (pos 0))) ∷ []

got :
    (serve memory defaults writer "ERP" (add "a" body) start).0
    ≡ returned (ok_ttl added "ERP" "a" "zset" (int (negsuc 0)))
unfolding add_rank zadd_timed check_finite rescue require_access check_access granted lookup
    check_value_size exceeds_size resolve_ttl for_each build_key validate_ns validate_key ns_re
    key_re joined execute memory_run memory_call ◌>>=◌
got = refl

abbrev unordered : RankAddRequest
unordered = record { member = "x"; score = nan; ttl = none }

rank-finite_example :
    Raised start.redis (serve memory defaults writer "ERP" (add "a" unordered) start)
rank-finite_example = rank-finite memory defaults writer "ERP" (add "a" unordered) start refl
