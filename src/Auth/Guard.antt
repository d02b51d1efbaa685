-- ===== src/Auth/Guard.antt =====
-- app/auth/namespace_guard.py: what a client may do in a namespace.
pub mod Permissions
pub mod Tests
use redgw_lite.Prelude.{
  ℕ, String, Bool, true, false, Option, none, some, List, [], ◌∷◌, ◌++◌, ◌==◌, ◌⧺◌, ◌||◌,
  if◌then◌else◌,
}
use redgw_lite.Python.Exec.{Exec, Result, returned, raised, Exception}
use redgw_lite.Response.{error}
use redgw_lite.KeyBuilder.{contains}
use redgw_lite.Redis.{World}
use redgw_lite.Auth.ApiKey.{ClientInfo, lookup}

-- `ns in client.namespaces and operation in client.namespaces[ns]`
unfoldable pub granted : Option (List String) → String → Bool
granted none operation = false
granted (some operations) operation = contains operation operations

unfoldable pub check_access : ClientInfo → String → String → Bool
check_access client ns operation =
    if granted (lookup "*" client.namespaces) operation
    then true
    else if granted (lookup ns client.namespaces) operation
    then true
    else false

-- What a refusal leaves behind: an audit event for the middleware, and a metric task.
abbrev pub refused : {R : Type 0} → String → String → World R → World R
refused event code w = record w {
  pending = some (event, some code);
  auth_failures = w.auth_failures ++ event ∷ [];
}

unfoldable pub require_admin : {R : Type 0} → ClientInfo → Exec (World R) (Unit {0})
require_admin client w = if client.client_id == "admin" then (returned tt, w) else (
  raised (error "ADMIN_REQUIRED" "Admin privileges required" 403),
  refused "admin_required" "ADMIN_REQUIRED" w,
)

abbrev pub access_denied : ClientInfo → String → String → Exception
access_denied client ns operation =
    error "NAMESPACE_DENIED"
      ("Access to namespace '" ⧺ ns ⧺ "' with '" ⧺ operation
        ⧺ "' permission is not allowed for client '" ⧺ client.client_id ⧺ "'")
      403

unfoldable pub require_access :
    {R : Type 0} → ClientInfo → String → String → Exec (World R) (Unit {0})
require_access client ns operation w =
    if check_access client ns operation then (returned tt, w) else (
      raised (access_denied client ns operation),
      refused "namespace_denied" "NAMESPACE_DENIED" w,
    )

abbrev pub require_read : {R : Type 0} → ClientInfo → String → Exec (World R) (Unit {0})
require_read client ns = require_access client ns "read"

abbrev pub require_write : {R : Type 0} → ClientInfo → String → Exec (World R) (Unit {0})
require_write client ns = require_access client ns "write"
