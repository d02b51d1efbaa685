-- ===== src/Auth/Guard/Permissions.antt =====
-- What the guard grants, refuses and records: app/auth/namespace_guard.py.
use redgw_lite.Prelude.{
  String, ◌≡◌, ◌↔◌, ◌⊎◌, inl, inr, Bool, true, false, some, List, arith, Option-cases, Bool-cases,
}
use redgw_lite.Python.Exec.{Result, returned, raised, Exec, ◌>>=◌}
use redgw_lite.KeyBuilder.{contains}
use redgw_lite.Redis.{World}
use redgw_lite.Auth.ApiKey.{ClientInfo, lookup}
use redgw_lite.Auth.Guard.{granted, check_access, require_access, access_denied, refused}

-- The client's list for a namespace holds the operation.
abbrev pub Grants : ClientInfo → String → String → Type 0
Grants client ns operation =
    (operations : List String) × (lookup ns client.namespaces ≡ some operations)
    × (contains operation operations ≡ true)

granted_iff :
    (client : ClientInfo) (ns operation : String)
    → (granted (lookup ns client.namespaces) operation ≡ true) ↔ Grants client ns operation
unfolding granted
granted_iff client ns operation = (to, λ g. from g)
  where
    to : granted (lookup ns client.namespaces) operation ≡ true → Grants client ns operation
    to h = elim (Option-cases (lookup ns client.namespaces)) [
      | inl missing ↦ cc (rw (missing, granted) at h)
      | inr (operations, found) ↦ (operations, found, rw (found, granted) at h)
    ]

    from : Grants client ns operation → granted (lookup ns client.namespaces) operation ≡ true
    from (operations, found, held) = rw (found, granted) held

-- A client may do an operation in a namespace exactly when its list for "*" or its list for the
-- namespace holds the operation.
pub check_access_iff :
    (client : ClientInfo) (ns operation : String)
    → (check_access client ns operation ≡ true)
      ↔ (Grants client "*" operation ⊎ Grants client ns operation)
unfolding check_access
check_access_iff client ns operation = (given, held)
  where
    given :
        check_access client ns operation ≡ true
        → Grants client "*" operation ⊎ Grants client ns operation
    given h = elim (Bool-cases (granted (lookup "*" client.namespaces) operation)) [
      | inl star ↦ inl ((granted_iff client "*" operation).0 star)
      | inr other ↦ inr ((granted_iff client ns operation).0 (ground arith))
    ]

    held :
        Grants client "*" operation ⊎ Grants client ns operation
        → check_access client ns operation ≡ true
    held (inl g) = rw ((granted_iff client "*" operation).1 g)
    held (inr g) = ground (arith, (granted_iff client ns operation).1 g)

-- The operation that a handler requires, as the text that a client's list of permissions holds.
abbrev pub permission : Bool → String
permission true = "write"
permission false = "read"

-- The outcome of a handler that the guard stops: the exception, and the world with nothing changed
-- but the audit event and the count of refusals.
abbrev pub stopped : {R A : Type 0} → ClientInfo → String → String → World R → Result A × World R
stopped client ns operation w =
    (raised (access_denied client ns operation), refused "namespace_denied" "NAMESPACE_DENIED" w)

pub stopped_of_denied :
    {R A : Type 0} (client : ClientInfo) (ns operation : String) (f : Unit {0} → Exec (World R) A)
    (w : World R)
    → check_access client ns operation ≡ false
    → (require_access client ns operation >>= f) w ≡ stopped client ns operation w
unfolding require_access ◌>>=◌
stopped_of_denied client ns operation f w denied = rw denied

pub require_access-granted :
    {R : Type 0} (client : ClientInfo) (ns operation : String) (w : World R)
    → check_access client ns operation ≡ true
    → require_access client ns operation w ≡ (returned tt, w)
unfolding require_access
require_access-granted client ns operation w granted = rw granted
