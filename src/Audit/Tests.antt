-- ===== src/Audit/Tests.antt =====
-- A body in two parts against a limit of four bytes, the headers of a response, the queue of lines,
-- and a refused request.
use redgw_lite.Prelude.{◌≡◌, ◌⊎◌, refl, true, false, none, some, List, [], ◌∷◌, ℕ, take, pos, ◌+◌}
use redgw_lite.Python.Value.{null}
use redgw_lite.Python.Exec.{other_error}
use redgw_lite.Audit.Origin.{OriginRedis}
use redgw_lite.Audit.Log.{
  Log, empty_log, info, listen, extract_key, extract_ip, validate_request_id, strip, decode_ascii,
}
use redgw_lite.Audit.Account.{
  at_start, step_from, recorded, listened, IsAccounted, LogReaches-IsAccounted,
}
use redgw_lite.Audit.Line.{AuditConfig, Scope, Library, request_id_of, detect_value_type}
use redgw_lite.Audit.Call.{start, App, call}
use redgw_lite.Audit.Call.Recorded.{IsHandled, run_of, call-IsHandled}
use redgw_lite.Audit.{
  decide_capture, Message, request, other, nothing_captured, receive, receive_all, joined_chunks,
  without_id, echo_id,
}
use redgw_lite.Audit.Recording.{body_of, receive_all-captured}

abbrev messages : List Message
messages = request (1 ∷ 2 ∷ 3 ∷ []) ∷ other ∷ request (4 ∷ 5 ∷ []) ∷ request (6 ∷ []) ∷ []

cut_off : joined_chunks (receive_all 4 messages nothing_captured).chunks ≡ 1 ∷ 2 ∷ 3 ∷ 4 ∷ []
unfolding receive_all receive
cut_off = refl

receive_all-captured_example :
    (joined_chunks (receive_all 4 messages nothing_captured).chunks ≡ take 4 (body_of messages))
    × ((receive_all 4 messages nothing_captured).truncated ≡ true
        ⊎ (joined_chunks (receive_all 4 messages nothing_captured).chunks ≡ body_of messages))
receive_all-captured_example = receive_all-captured 4 messages

put_recorded : decide_capture "PUT" "/api/v1/ns/ERP/kv/a" 1 ≡ true
unfolding decide_capture
put_recorded = refl

batch_key : extract_key "/api/v1/ns/ERP/event/mystream/group/g1?x=1" ≡ some "mystream/group/g1"
unfolding extract_key redgw_lite.Audit.Origin.break_slash
batch_key = refl

no_key : extract_key "/api/v1/ns/ERP/pubsub/a" ≡ none
unfolding extract_key redgw_lite.Audit.Origin.break_slash
no_key = refl

real_ip : extract_ip (("x-real-ip", " 10.0.0.1 ") ∷ []) (some "127.0.0.1") ≡ some "10.0.0.1"
unfolding extract_ip strip decode_ascii
real_ip = refl

peer_ip : extract_ip (("x-real-ip", " ") ∷ []) (some "127.0.0.1") ≡ some "127.0.0.1"
unfolding extract_ip strip decode_ascii
peer_ip = refl

-- `$` also stands before a line feed that ends the text.
line_feed_accepted : validate_request_id "uuid" "r1\n" ≡ "r1\n"
unfolding validate_request_id redgw_lite.Audit.Log.request_id_re redgw_lite.KeyBuilder.is_ns_char
line_feed_accepted = refl

space_refused : validate_request_id "uuid" "r 1" ≡ "uuid"
unfolding validate_request_id redgw_lite.Audit.Log.request_id_re redgw_lite.KeyBuilder.is_ns_char
space_refused = refl

LogReaches-IsAccounted_example : IsAccounted (listen (info "b" (info "a" empty_log)))
LogReaches-IsAccounted_example =
    LogReaches-IsAccounted
      (step_from (step_from (step_from at_start (recorded "a" _)) (recorded "b" _)) (listened _))

abbrev library : Library
library = record {
  uuid4 = "uuid";
  ts = "2026-03-06T00:00:00.000Z";
  latency_ms = null;
  sha256 = λ body. "e3b0c44298fc1c149afbf4c8996fb924";
  is_utf8 = λ body. true;
  decode_replace = λ body. "";
  dumps = λ entries. "{}";
}

json_body : detect_value_type library [] "Application/JSON; charset=utf-8" ≡ "json"
unfolding detect_value_type strip
json_body = refl

abbrev config : AuditConfig
config = record {
  level = 1;
  exclude_paths = "/health" ∷ [];
  payload_prefix_bytes = 0;
  correlation = false;
  correlation_ttl_seconds = pos 86400;
}

abbrev scope : Scope
scope = record {
  is_http = true;
  method = "GET";
  path = "/api/v1/ns/ERP/kv/a";
  headers = ("x-request-id", "r1") ∷ [];
  client = some "127.0.0.1";
}

abbrev writer : OriginRedis ℕ
writer = record { set_ex = λ k v ex r. r + 1 }

-- An application that refuses the API key.
abbrev refusing : App ℕ
refusing = λ scope id pending r. record {
  received = [];
  sent = start 401 [] ∷ [];
  client_id = none;
  key_param = none;
  pending = some ("auth_fail", some "INVALID_API_KEY");
  redis = r;
  exception = some (other_error "RuntimeError");
}

call-IsHandled_example :
    IsHandled library writer refusing config scope
      (request_id_of library scope)
      (run_of library writer refusing config scope none 0)
      empty_log
      (call library writer refusing (some config) scope none 0 empty_log)
call-IsHandled_example = call-IsHandled library writer refusing config scope none 0 empty_log refl
