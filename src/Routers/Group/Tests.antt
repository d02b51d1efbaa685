-- ===== src/Routers/Group/Tests.antt =====
-- Concrete requests of the Set type, against a server in memory.
use redgw_lite.Prelude.{◌≡◌, refl, none, [], ◌∷◌, negsuc}
use redgw_lite.Python.Value.{null, int}
use redgw_lite.Python.Exec.{returned, ◌>>=◌, for_each}
use redgw_lite.Response.{ok_ttl}
use redgw_lite.KeyBuilder.{joined, build_key, validate_ns, validate_key, ns_re, key_re}
use redgw_lite.Redis.{execute}
use redgw_lite.Redis.Memory.{memory, memory_call, memory_run}
use redgw_lite.Auth.ApiKey.{lookup}
use redgw_lite.Auth.Guard.{check_access, granted, require_access}
use redgw_lite.Validation.{check_value_size, exceeds_size, resolve_ttl}
use redgw_lite.Routers.Fixtures.{defaults, writer, start}
use redgw_lite.Routers.Group.{GroupAddRequest, add, serve, add_group}

abbrev body : GroupAddRequest
body = record { members = "x" ∷ "y" ∷ []; ttl = none }

got :
    (serve memory defaults writer "ERP" (add "a" body) start).0
    ≡ returned (ok_ttl (("added", null) ∷ []) "ERP" "a" "set" (int (negsuc 0)))
unfolding add_group require_access check_access granted lookup check_value_size exceeds_size
    resolve_ttl for_each build_key validate_ns validate_key ns_re key_re joined execute memory_run
    memory_call ◌>>=◌
got = refl
