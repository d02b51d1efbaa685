-- ===== src/Middleware/Tests.antt =====
-- A refused request whose response has headers of its own, and the labels of paths.
use redgw_lite.Prelude.{ℕ, ◌≡◌, refl, true, false, none, some, [], ◌∷◌, ◌+◌, pos, All}
use redgw_lite.Python.Value.{null}
use redgw_lite.Audit.Log.{empty_log}
use redgw_lite.Audit.Origin.{OriginRedis}
use redgw_lite.Audit.Line.{AuditConfig, Scope, Library, request_id_of}
use redgw_lite.Audit.Call.{start, body_part, App, call}
use redgw_lite.Middleware.{security_call, metrics_ns, finished_requests, access_log_call}
use redgw_lite.Middleware.Headers.{IsSecured, security_call-IsSecured}

namespace_label : metrics_ns "/x/api/v1/ws/ERP/subscribe/a" ≡ "ERP"
unfolding metrics_ns redgw_lite.Middleware.ns_search redgw_lite.Middleware.valid_ns_re
    redgw_lite.Audit.Origin.break_slash redgw_lite.KeyBuilder.is_ns_char
namespace_label = refl

no_label : metrics_ns "/api/v1/ns/E RP/kv/a" ≡ ""
unfolding metrics_ns redgw_lite.Middleware.ns_search redgw_lite.Middleware.valid_ns_re
    redgw_lite.Audit.Origin.break_slash redgw_lite.KeyBuilder.is_ns_char
no_label = refl

-- `$` also stands before a line feed that ends the text, so that this is a label of its own.
line_feed_label : metrics_ns "/api/v1/ns/ERP\n/kv/a" ≡ "ERP\n"
unfolding metrics_ns redgw_lite.Middleware.ns_search redgw_lite.Middleware.valid_ns_re
    redgw_lite.Audit.Origin.break_slash redgw_lite.KeyBuilder.is_ns_char
line_feed_label = refl

logged_once :
    access_log_call true "GET" "/health" none (start 200 [] ∷ body_part true ∷ body_part false ∷ [])
    ≡ record { method = "GET"; path = "/health"; status_code = 200; request_id = "-" } ∷ []
unfolding access_log_call redgw_lite.Middleware.access_lines
logged_once = refl

abbrev library : Library
library = record {
  uuid4 = "uuid";
  ts = "2026-03-06T00:00:00.000Z";
  latency_ms = null;
  sha256 = λ body. "e3b0c44298fc1c149afbf4c8996fb924";
  is_utf8 = λ body. true;
  decode_replace = λ body. "";
  dumps = λ entries. "{}";
}

abbrev config : AuditConfig
config = record {
  level = 1;
  exclude_paths = "/health" ∷ [];
  payload_prefix_bytes = 0;
  correlation = false;
  correlation_ttl_seconds = pos 86400;
}

abbrev scope : Scope
scope = record {
  is_http = true;
  method = "GET";
  path = "/api/v1/ns/ERP/kv/a";
  headers = ("x-request-id", "r1") ∷ [];
  client = some "127.0.0.1";
}

abbrev writer : OriginRedis ℕ
writer = record { set_ex = λ k v ex r. r + 1 }

-- An application that lets its response be kept, and has an identifier of its own.
abbrev caching : App ℕ
caching = λ scope id pending r. record {
  received = [];
  sent =
      start 200 (("cache-control", "public") ∷ ("x-request-id", "own") ∷ []) ∷ body_part false ∷ [];
  client_id = some "erp";
  key_param = some "a";
  pending = none;
  redis = r;
  exception = none;
}

security_call-IsSecured_example :
    All
      (IsSecured (request_id_of library scope))
      (security_call true (call library writer caching (some config) scope none 0 empty_log).sent)
security_call-IsSecured_example =
    security_call-IsSecured library writer caching config scope none 0 empty_log refl
