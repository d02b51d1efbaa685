-- ===== src/Routers/Map/Tests.antt =====
-- Concrete requests of the Hash type, against a server in memory.
use redgw_lite.Prelude.{◌≡◌, refl, none, [], ◌∷◌, negsuc}
use redgw_lite.Python.Value.{int}
use redgw_lite.Python.Exec.{returned, ◌>>=◌, for_each}
use redgw_lite.Response.{ok_ttl}
use redgw_lite.KeyBuilder.{joined, build_key, validate_ns, validate_key, ns_re, key_re}
use redgw_lite.Redis.{execute}
use redgw_lite.Redis.Memory.{memory, memory_call, memory_run}
use redgw_lite.Auth.ApiKey.{lookup}
use redgw_lite.Auth.Guard.{check_access, granted, require_access}
use redgw_lite.Validation.{check_value_size, exceeds_size, check_dict_values_size, resolve_ttl}
use redgw_lite.Routers.Fixtures.{defaults, writer, start}
use redgw_lite.Routers.Map.{MapSetRequest, write, serve, set_map, text_fields}

abbrev body : MapSetRequest
body = record { fields = ("f", "2") ∷ []; ttl = none }

got :
    (serve memory defaults writer "ERP" (write "a" body) start).0
    ≡ returned
        (ok_ttl (("fields", text_fields (("f", "2") ∷ [])) ∷ []) "ERP" "a" "hash" (int (negsuc 0)))
unfolding set_map require_access check_access granted lookup check_dict_values_size check_value_size
    exceeds_size resolve_ttl for_each build_key validate_ns validate_key ns_re key_re joined execute
    memory_run memory_call ◌>>=◌
got = refl
