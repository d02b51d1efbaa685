-- ===== src/Auth/Guard/Tests.antt =====
-- A client with a list for one namespace.
use redgw_lite.Prelude.{◌≡◌, ◌↔◌, ◌⊎◌, true}
use redgw_lite.Auth.Guard.{check_access}
use redgw_lite.Auth.Guard.Permissions.{Grants, check_access_iff}
use redgw_lite.Routers.Fixtures.{reader}

check_access_iff_example :
    (check_access reader "ERP" "read" ≡ true)
    ↔ (Grants reader "*" "read" ⊎ Grants reader "ERP" "read")
check_access_iff_example = check_access_iff reader "ERP" "read"
