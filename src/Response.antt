-- ===== src/Response.antt =====
-- app/utils/response.py: what a handler returns, and the exceptions that it raises.
use redgw_lite.Prelude.{ℕ, String, Option, some, none, List, ◌⧺◌, negsuc, ◌≡◌, false}
use redgw_lite.Python.Value.{Value, int, equals_int}
use redgw_lite.Python.Exec.{Exception, http_error, Result, returned, raised}

pub record Meta : Type 0 where
  pub ns : String
  pub key : String
  pub type : String
  pub ttl : Value

-- `data` is the dict under the key "data", an association list with the keys in order.
pub record Response : Type 0 where
  pub content : List (String × Value)
  pub meta : Option Meta

-- `ok(data, ns, key, type, ttl)`
abbrev pub ok_ttl : List (String × Value) → String → String → String → Value → Response
ok_ttl content ns key type ttl = record {
  content = content;
  meta = some (record { ns = ns; key = key; type = type; ttl = ttl });
}

-- `ok` with its default, ttl = -1
abbrev pub ok : List (String × Value) → String → String → String → Response
ok content ns key type = ok_ttl content ns key type (int (negsuc 0))

abbrev pub ok_simple : List (String × Value) → Response
ok_simple content = record { content = content; meta = none }

abbrev pub error : String → String → ℕ → Exception
error code message status = http_error status code message

abbrev pub not_found : String → String → Exception
not_found key ns =
    error "KEY_NOT_FOUND" ("Key '" ⧺ key ⧺ "' not found in namespace '" ⧺ ns ⧺ "'") 404

-- The response has a `meta`, and its ttl is not -2, Redis's answer for a key that is not there.
abbrev pub HasTtl : Option Meta → Type 0
HasTtl none = ⊥
HasTtl (some m) = equals_int m.ttl (negsuc 1) ≡ false

abbrev pub ReportsTtl : Response → Type 0
ReportsTtl response = HasTtl response.meta

-- The data of a response.
abbrev pub data_of : Result Response → Result (List (String × Value))
data_of (returned response) = returned response.content
data_of (raised e) = raised e
