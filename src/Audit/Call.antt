-- ===== src/Audit/Call.antt =====
-- app/audit/middleware.py: `AuditMiddleware.__call__` and `_pass_with_header` around an application.
pub mod Recorded
use redgw_lite.Prelude.{
  ℕ, String, Bool, true, false, not, Option, none, some, List, [], ◌∷◌, ◌++◌, ℤ, pos, code, codes,
  nat_eq, ltb, leb, length, take, map, first_chars, if◌then◌else◌,
}
use redgw_lite.Python.Value.{Value}
use redgw_lite.Python.Exec.{Exception}
use redgw_lite.KeyBuilder.{contains}
use redgw_lite.Audit.{
  decide_capture, Message, nothing_captured, max_capture_body, receive_all, joined_chunks, echo_id,
}
use redgw_lite.Audit.Log.{Log, info, first_header}
use redgw_lite.Audit.Origin.{OriginRedis, store_origin}
use redgw_lite.Audit.Line.{
  AuditConfig, Scope, Pending, Library, value_fields, no_value_fields, record_fields, prefix_field,
  origin_value, event_of, text_of, request_id_of,
}

-- A message to the server: the start of a response with its status and headers, a part of its body,
-- with whether more follows, or another.
pub data Sent : Type 0 where
  start : ℕ → List (String × String) → Sent
  body_part : Bool → Sent
  other_sent : Sent

-- What an application does with a request: the messages that it receives and sends, what it puts into
-- the scope (`redgw_client_id` and the route's parameter key), the pending event that it leaves, and
-- the exception that it ends with, if it does.
pub record Run (R : Type 0) : Type 0 where
  pub received : List Message
  pub sent : List Sent
  pub client_id : Option String
  pub key_param : Option String
  pub pending : Pending
  pub redis : R
  pub exception : Option Exception

-- `self.app`, for a scope and its `redgw_request_id`.
abbrev pub App : Type 0 → Type 0
App R = Scope → Option String → Pending → R → Run R

-- What a call leaves behind.
pub record Called (R : Type 0) : Type 0 where
  pub sent : List Sent
  pub log : Log
  pub pending : Pending
  pub redis : R
  pub exception : Option Exception

-- `status_code` after the messages: that of the last start of a response.
unfoldable pub status_after : ℕ → List Sent → ℕ
status_after status [] = status
status_after status (start s headers ∷ sent) = status_after s sent
status_after status (body_part more ∷ sent) = status_after status sent
status_after status (other_sent ∷ sent) = status_after status sent

-- `send_wrapper`, of both.
unfoldable pub send_wrapper : String → Sent → Sent
send_wrapper request_id (start status headers) = start status (echo_id request_id headers)
send_wrapper request_id (body_part more) = body_part more
send_wrapper request_id other_sent = other_sent

module _ (library : Library) where
  module _ {R : Type 0} (writer : OriginRedis R) (app : App R) where
    abbrev passed_through : Run R → Log → Called R
    passed_through run log = record {
      sent = run.sent;
      log = log;
      pending = run.pending;
      redis = run.redis;
      exception = run.exception;
    }

    -- What `_pass_with_header` records of a pending event.
    abbrev pub log_pending : Scope → String → Run R → Pending → Log → Log
    log_pending scope request_id run none log = log
    log_pending scope request_id run (some event) log =
        info
          (library.dumps (
            record_fields library scope request_id event run.client_id (status_after 0 run.sent)
              no_value_fields))
          log

    -- `_pass_with_header`, for what the application did: the `finally` also runs after an exception.
    unfoldable pub pass_with_header : Bool → Scope → String → Run R → Log → Called R
    pass_with_header record_pending scope request_id run log = record {
      sent = map (send_wrapper request_id) run.sent;
      log = if record_pending then log_pending scope request_id run run.pending log else log;
      pending = none;
      redis = run.redis;
      exception = run.exception;
    }

    -- The line of a captured request.
    unfoldable pub captured_fields : AuditConfig → Scope → String → Run R → List (String × Value)
    captured_fields config scope request_id run =
        let body =
          joined_chunks (receive_all max_capture_body run.received nothing_captured).chunks in
        record_fields library scope request_id (event_of run.pending) run.client_id
          (status_after 0 run.sent)
          (value_fields library scope.method body
            (text_of (first_header "content-type" scope.headers)))
        ++ prefix_field library config body

    -- `__call__`, from the collection of the body on.
    unfoldable pub capture : AuditConfig → Scope → String → Run R → Log → Called R
    capture config scope request_id run log = record {
      sent = map (send_wrapper request_id) run.sent;
      log = info (library.dumps (captured_fields config scope request_id run)) log;
      pending = none;
      redis =
          store_origin writer config.correlation config.correlation_ttl_seconds scope.method
            scope.path run.key_param (status_after 0 run.sent)
            (origin_value library request_id run.client_id) run.redis;
      exception = run.exception;
    }

    abbrev pub call_active : AuditConfig → Scope → String → Run R → Log → Called R
    call_active config scope request_id run log =
        if contains scope.path config.exclude_paths
        then pass_with_header false scope request_id run log
        else if not (decide_capture scope.method scope.path config.level)
        then pass_with_header true scope request_id run log
        else capture config scope request_id run log

    -- `__call__`; there are no settings where the logger is not active.
    unfoldable pub call : Option AuditConfig → Scope → Pending → R → Log → Called R
    call none scope pending r log = passed_through (app scope none pending r) log
    call (some config) scope pending r log =
        if scope.is_http
        then call_active config scope (request_id_of library scope)
            (app scope (some (request_id_of library scope)) pending r) log
        else passed_through (app scope none pending r) log
