-- ===== src/Middleware/Headers.antt =====
-- What a response carries after `AuditMiddleware` and `SecurityHeadersMiddleware`, which stands outside.
use mathlib.Core.List.{append-nil}
use redgw_lite.Prelude.{
  ap, not, eq_iff, String, ◌≡◌, refl, ◌∙◌, Bool, true, false, some, List, [], ◌∷◌, ◌++◌, ◌==◌, map,
  All, Bool-cases, inl, inr, if◌then◌else◌,
}
use redgw_lite.Audit.Recording.{ids_of}
use redgw_lite.Audit.Log.{Log}
use redgw_lite.Audit.Origin.{OriginRedis}
use redgw_lite.Audit.Line.{AuditConfig, Scope, Pending, Library, request_id_of}
use redgw_lite.Audit.Call.{Sent, start, body_part, other_sent, App, call}
use redgw_lite.Audit.Call.Recorded.{IsMarked, call-IsHandled}
use redgw_lite.Middleware.{
  security_headers, without_security, secured, security_call, is_security_name,
}

-- The values of the headers with a name.
abbrev pub values_of : String → List (String × String) → List String
values_of name [] = []
values_of name ((n, v) ∷ headers) =
    let rest = values_of name headers in if n == name then v ∷ rest else rest

-- The response has each security header once, with its value, and one x-request-id, the request's.
abbrev pub IsSecured : String → Sent → Type 0
IsSecured request_id (start status headers) =
    All (λ header. values_of header.0 headers ≡ header.1 ∷ []) security_headers
    × (values_of "x-request-id" headers ≡ request_id ∷ [])
IsSecured request_id (body_part more) = Unit
IsSecured request_id other_sent = Unit

values_of-append :
    (name : String) (hs ks : List (String × String))
    → values_of name (hs ++ ks) ≡ values_of name hs ++ values_of name ks
values_of-append name [] ks = refl
values_of-append name ((n, v) ∷ hs) ks = elim (Bool-cases (n == name)) [
  | inl same ↦ rw same (ap (λ vs. v ∷ vs) (values_of-append name hs ks))
  | inr differ ↦ rw differ (values_of-append name hs ks)
]

differing_names :
    (b : Bool) (n m : String)
    → is_security_name n ≡ b
    → is_security_name m ≡ not b
    → (n == m) ≡ false
differing_names true n m h k = elim (Bool-cases (n == m)) [
  | inl same ↦ let e : n ≡ m = (eq_iff n m).0 same in cc (e, h, k)
  | inr differ ↦ differ
]
differing_names false n m h k = elim (Bool-cases (n == m)) [
  | inl same ↦ let e : n ≡ m = (eq_iff n m).0 same in cc (e, h, k)
  | inr differ ↦ differ
]

values_of-without_security :
    (name : String) (hs : List (String × String))
    → is_security_name name ≡ true
    → values_of name (without_security hs) ≡ []
unfolding without_security
values_of-without_security name [] named = refl
values_of-without_security name ((n, v) ∷ hs) named = elim (Bool-cases (is_security_name n)) [
  | inl security ↦ rw security (values_of-without_security name hs named)
  | inr other ↦
      rw (other, differing_names false n name other named)
        (values_of-without_security name hs named)
]

request_ids : is_security_name "x-request-id" ≡ false
unfolding is_security_name
request_ids = refl

-- The security headers do not touch the identifier of the request.
ids_of-without_security :
    (hs : List (String × String)) → values_of "x-request-id" (without_security hs) ≡ ids_of hs
unfolding without_security
ids_of-without_security [] = refl
ids_of-without_security ((n, v) ∷ hs) = elim (Bool-cases (is_security_name n)) [
  | inl security ↦
      rw (security, differing_names true n "x-request-id" security request_ids)
        (ids_of-without_security hs)
  | inr other ↦ elim (Bool-cases (n == "x-request-id")) [
    | inl same ↦ rw (other, same) (ap (λ vs. v ∷ vs) (ids_of-without_security hs))
    | inr differ ↦ rw (other, differ) (ids_of-without_security hs)
  ]
]

secured_value :
    (name : String) (hs : List (String × String))
    → is_security_name name ≡ true
    → values_of name (without_security hs ++ security_headers) ≡ values_of name security_headers
secured_value name hs named =
    values_of-append name (without_security hs) security_headers
    ∙ ap (λ vs. vs ++ values_of name security_headers) (values_of-without_security name hs named)

secured-IsSecured :
    (request_id : String) (m : Sent) → IsMarked request_id m → IsSecured request_id (secured m)
unfolding secured is_security_name
secured-IsSecured request_id (start status hs) marked = (
  (
    secured_value "x-content-type-options" hs refl,
    (
      secured_value "x-frame-options" hs refl,
      (
        secured_value "cache-control" hs refl,
        (secured_value "x-xss-protection" hs refl, (secured_value "referrer-policy" hs refl, tt)),
      ),
    ),
  ),
  values_of-append "x-request-id" (without_security hs) security_headers
      ∙ append-nil (values_of "x-request-id" (without_security hs))
      ∙ ids_of-without_security hs
      ∙ marked,
)
secured-IsSecured request_id (body_part more) marked = tt
secured-IsSecured request_id other_sent marked = tt

if_http : {b : Bool} (sent : List Sent) → b ≡ true → security_call b sent ≡ map secured sent
unfolding security_call
if_http sent h = rw h refl

map-IsSecured :
    (request_id : String) (sent : List Sent)
    → All (IsMarked request_id) sent
    → All (IsSecured request_id) (map secured sent)
map-IsSecured request_id [] h = tt
map-IsSecured request_id (m ∷ sent) (h, hs) =
    (secured-IsSecured request_id m h, map-IsSecured request_id sent hs)

-- Where the audit is active, each response that leaves `SecurityHeadersMiddleware` has every security
-- header exactly once, with the value of this file, and the header x-request-id exactly once, with
-- the identifier of the request, whatever headers of these names the application set, and
-- also when it ends with an exception.
pub security_call-IsSecured :
    {R : Type 0} (library : Library) (writer : OriginRedis R) (app : App R) (config : AuditConfig)
    (scope : Scope) (pending : Pending) (r : R) (log : Log)
    → scope.is_http ≡ true
    → All (IsSecured (request_id_of library scope)) (
        security_call scope.is_http
          (call library writer app (some config) scope pending r log).sent)
security_call-IsSecured library writer app config scope pending r log http =
    let (_, marked, _, _) = call-IsHandled library writer app config scope pending r log http in
    let step : security_call scope.is_http
          (call library writer app (some config) scope pending r log).sent
        ≡ map secured (call library writer app (some config) scope pending r log).sent =
      if_http _ http in
    rw step (map-IsSecured _ _ marked)
