-- ===== src/Middleware.antt =====
-- app/middleware.py: the security headers, the counting of a request, and the access log, around an
-- application.
pub mod Headers
pub mod Tests
use redgw_lite.Prelude.{
  ℕ, String, Bool, true, false, not, ◌&&◌, ◌||◌, Option, none, some, List, [], ◌∷◌, ◌++◌, codes,
  map, if◌then◌else◌,
}
use Prim.Native.String
use redgw_lite.Python.Value.{Float}
use redgw_lite.KeyBuilder.{contains}
use redgw_lite.Metrics.{Finished, Counters, record_requests}
use redgw_lite.Audit.Log.{some_id_end}
use redgw_lite.Audit.Origin.{break_slash, without_prefix, named}
use redgw_lite.Audit.Call.{Sent, start, body_part, other_sent}

-- `_SECURITY_HEADERS`
abbrev pub security_headers : List (String × String)
security_headers =
    ("x-content-type-options", "nosniff")
    ∷ ("x-frame-options", "DENY")
    ∷ ("cache-control", "no-store")
    ∷ ("x-xss-protection", "1; mode=block")
    ∷ ("referrer-policy", "strict-origin-when-cross-origin")
    ∷ []

abbrev names_of : List (String × String) → List String
names_of [] = []
names_of ((n, v) ∷ headers) = n ∷ names_of headers

-- `_SECURITY_HEADER_NAMES`
abbrev pub security_header_names : List String
security_header_names = names_of security_headers

-- `n in _SECURITY_HEADER_NAMES`
unfoldable pub is_security_name : String → Bool
is_security_name n = contains n security_header_names

-- `[(n, v) for (n, v) in … if n not in _SECURITY_HEADER_NAMES]`
unfoldable pub without_security : List (String × String) → List (String × String)
without_security [] = []
without_security ((n, v) ∷ headers) =
    let rest = without_security headers in if is_security_name n then rest else (n, v) ∷ rest

-- `send_wrapper` of `SecurityHeadersMiddleware`
unfoldable pub secured : Sent → Sent
secured (start status headers) = start status (without_security headers ++ security_headers)
secured (body_part more) = body_part more
secured other_sent = other_sent

-- `SecurityHeadersMiddleware.__call__`, on the messages that the application sends.
unfoldable pub security_call : Bool → List Sent → List Sent
security_call is_http sent = if is_http then map secured sent else sent

abbrev first_of : Option String → Option String → Option String
first_of (some a) b = some a
first_of none b = b

-- `([^/]+)/` behind the prefix, where the text begins with it.
abbrev ns_behind : String → String → Option String
ns_behind prefix path = elim (without_prefix prefix path) [
  | none ↦ none
  | some rest ↦ named (break_slash rest)
]

-- `_ns_re.search(path)`: `/api/v1/(?:ns|ws)/([^/]+)/`, at the first place where it matches.
unfoldable pub ns_search : String → Option String
ns_search String.[] = none
ns_search (String.◌∷◌ c s) =
    let later = ns_search s in
    first_of (ns_behind "/api/v1/ns/" (String.◌∷◌ c s))
      (first_of (ns_behind "/api/v1/ws/" (String.◌∷◌ c s)) later)

-- `_valid_ns_re.match(ns)`: `^[A-Za-z0-9_-]{1,64}$`
unfoldable pub valid_ns_re : String → Bool
valid_ns_re ns = some_id_end 63 (codes ns)

abbrev label : Option String → String
label none = ""
label (some ns) = if valid_ns_re ns then ns else ""

-- `ns`, by which a request is counted.
unfoldable pub metrics_ns : String → String
metrics_ns path = label (ns_search path)

-- `send_wrapper` of `MetricsMiddleware`, for the messages that the application sends: the requests that
-- are recorded, one at each part of a body with which the body ends.
unfoldable pub finished_requests : String → String → Float → ℕ → List Sent → List Finished
finished_requests ns client_id duration_ms status_code [] = []
finished_requests ns client_id duration_ms status_code (start status headers ∷ sent) =
    finished_requests ns client_id duration_ms status sent
finished_requests ns client_id duration_ms status_code (body_part more ∷ sent) =
    let rest = finished_requests ns client_id duration_ms status_code sent in
    if not more
    then record {
      status_code = status_code;
      duration_ms = duration_ms;
      namespace = ns;
      client_id = client_id;
    }
      ∷ rest
    else rest
finished_requests ns client_id duration_ms status_code (other_sent ∷ sent) =
    finished_requests ns client_id duration_ms status_code sent

abbrev or_empty : Option String → String
or_empty none = ""
or_empty (some s) = s

-- `MetricsMiddleware.__call__`: what is recorded in Redis. The client is what the authentication put into
-- the scope, and the recording may be later than the response.
unfoldable pub metrics_call :
    {R : Type 0} → Counters R → Bool → String → Option String → Float → List Sent → R → R
metrics_call counters is_http path client_id duration_ms sent r =
    if is_http
    then record_requests counters
        (finished_requests (metrics_ns path) (or_empty client_id) duration_ms 500 sent) r
    else r

-- A line of the access log.
pub record Access : Type 0 where
  pub method : String
  pub path : String
  pub status_code : ℕ
  pub request_id : String

-- `send_wrapper` of `AccessLogMiddleware`: the lines that it logs.
unfoldable pub access_lines : String → String → String → ℕ → List Sent → List Access
access_lines method path request_id status_code [] = []
access_lines method path request_id status_code (start status headers ∷ sent) =
    access_lines method path request_id status sent
access_lines method path request_id status_code (body_part more ∷ sent) =
    let rest = access_lines method path request_id status_code sent in
    if not more
    then record { method = method; path = path; status_code = status_code; request_id = request_id }
      ∷ rest
    else rest
access_lines method path request_id status_code (other_sent ∷ sent) =
    access_lines method path request_id status_code sent

abbrev or_dash : Option String → String
or_dash none = "-"
or_dash (some request_id) = request_id

-- `AccessLogMiddleware.__call__`
unfoldable pub access_log_call : Bool → String → String → Option String → List Sent → List Access
access_log_call is_http method path request_id sent =
    if is_http then access_lines method path (or_dash request_id) 0 sent else []
