-- ===== src/Audit/Call/Recorded.antt =====
-- What is in the audit log after `AuditMiddleware.__call__`, and what a response carries.
use redgw_lite.Prelude.{
  ℕ, String, ◌≡◌, refl, Bool, true, false, Option, none, some, List, [], ◌∷◌, map, pos, All,
  Bool-cases, inl, inr, if◌then◌else◌,
}
use redgw_lite.Python.Value.{Value, int, str}
use redgw_lite.KeyBuilder.{contains}
use redgw_lite.Auth.ApiKey.{lookup}
use redgw_lite.Audit.{decide_capture}
use redgw_lite.Audit.Recording.{ids_of, echo_id-once}
use redgw_lite.Audit.Log.{Log, info}
use redgw_lite.Audit.Origin.{OriginRedis}
use redgw_lite.Audit.Line.{
  AuditConfig, Scope, Pending, Library, opt_str, record_fields, request_id_of, event_of,
}
use redgw_lite.Audit.Call.{
  Sent, start, body_part, other_sent, Run, App, status_after, send_wrapper, captured_fields,
  pass_with_header, capture, call_active, call, log_pending, Called,
}

-- The event that is to be recorded: none on an excluded path; else the pending one, whatever the
-- level; else the call itself, where the level has it captured.
abbrev pub expected : Bool → Bool → Pending → Pending
expected true captured pending = none
expected false captured (some event) = some event
expected false true none = some ("api_call", none)
expected false false none = none

-- A line with these entries.
pub record IsLine (request_id : String) (event : String × Option String) (status : ℕ)
    (entries : List (String × Value)) : Type 0 where
  pub with_id : lookup "request_id" entries ≡ some (str request_id)
  pub with_event : lookup "event" entries ≡ some (str event.0)
  pub with_code : lookup "error_code" entries ≡ some (opt_str event.1)
  pub with_status : lookup "status" entries ≡ some (int (pos status))

-- The response has the identifier of the request, once.
abbrev pub IsMarked : String → Sent → Type 0
IsMarked request_id (start status headers) = ids_of headers ≡ request_id ∷ []
IsMarked request_id (body_part more) = Unit
IsMarked request_id other_sent = Unit

sent-IsMarked :
    (request_id : String) (sent : List Sent)
    → All (IsMarked request_id) (map (send_wrapper request_id) sent)
unfolding send_wrapper
sent-IsMarked request_id [] = tt
sent-IsMarked request_id (start status headers ∷ sent) =
    ((echo_id-once request_id headers).0, sent-IsMarked request_id sent)
sent-IsMarked request_id (body_part more ∷ sent) = (tt, sent-IsMarked request_id sent)
sent-IsMarked request_id (other_sent ∷ sent) = (tt, sent-IsMarked request_id sent)

module _ (library : Library) where
  -- The log grows by the line of an event, or not at all.
  abbrev pub IsRecorded : String → ℕ → Pending → Log → Log → Type 0
  IsRecorded request_id status none before after = after ≡ before
  IsRecorded request_id status (some event) before after =
      (entries : List (String × Value)) × IsLine request_id event status entries
      × (after ≡ info (library.dumps entries) before)

  record_fields-IsLine :
      (scope : Scope) (request_id : String) (event : String × Option String)
      (client_id : Option String) (status : ℕ) (value : List (String × Value))
      → IsLine request_id event status
          (record_fields library scope request_id event client_id status value)
  unfolding record_fields lookup
  record_fields-IsLine scope request_id event client_id status value = record {
    with_id = refl;
    with_event = refl;
    with_code = refl;
    with_status = refl;
  }

  module _ {R : Type 0} (writer : OriginRedis R) (app : App R) (config : AuditConfig)
      (scope : Scope) where
    if_true : {b : Bool} (x y : Called R) → b ≡ true → (if b then x else y) ≡ x
    if_true x y h = rw h refl

    captured-IsLine :
        (request_id : String) (run : Run R)
        → IsLine request_id
            (event_of run.pending)
            (status_after 0 run.sent)
            (captured_fields library writer app config scope request_id run)
    unfolding captured_fields record_fields lookup
    captured-IsLine request_id run = record {
      with_id = refl;
      with_event = refl;
      with_code = refl;
      with_status = refl;
    }

    pass-IsRecorded :
        (request_id : String) (run : Run R) (event : Pending) (log : Log)
        → IsRecorded request_id
            (status_after 0 run.sent)
            (expected false false event)
            log
            (log_pending library writer app scope request_id run event log)
    pass-IsRecorded request_id run none log = refl
    pass-IsRecorded request_id run (some event) log = (
      _,
      record_fields-IsLine scope request_id event run.client_id (status_after 0 run.sent) _,
      refl,
    )

    expected_captured : (event : Pending) → expected false true event ≡ some (event_of event)
    expected_captured none = refl
    expected_captured (some event) = refl

    -- A run of the application in the middleware: what there is of it in the log and the response.
    abbrev pub IsHandled : String → Run R → Log → Called R → Type 0
    IsHandled request_id run log after =
        IsRecorded request_id (status_after 0 run.sent)
          (expected (contains scope.path config.exclude_paths)
            (decide_capture scope.method scope.path config.level) run.pending)
          log after.log
        × All (IsMarked request_id) after.sent
        × (after.pending ≡ none)
        × (after.exception ≡ run.exception)

    call_active-IsHandled :
        (request_id : String) (run : Run R) (log : Log)
        → IsHandled request_id run log
            (call_active library writer app config scope request_id run log)
    unfolding capture pass_with_header
    call_active-IsHandled request_id run log =
        elim (Bool-cases (contains scope.path config.exclude_paths)) [
          | inl excluded ↦ rw excluded (refl, sent-IsMarked request_id run.sent, refl, refl)
          | inr included ↦ elim (Bool-cases (decide_capture scope.method scope.path config.level)) [
            | inl captured ↦
                rw (included, captured, expected_captured run.pending)
                  (
                    (_, captured-IsLine request_id run, refl),
                    sent-IsMarked request_id run.sent,
                    refl,
                    refl,
                  )
            | inr passed_on ↦
                rw (included, passed_on)
                  (
                    pass-IsRecorded request_id run run.pending log,
                    sent-IsMarked request_id run.sent,
                    refl,
                    refl,
                  )
          ]
        ]

    -- The request as the application sees it.
    abbrev pub run_of : Pending → R → Run R
    run_of pending r = app scope (some (request_id_of library scope)) pending r

    call-active :
        (pending : Pending) (r : R) (log : Log)
        → scope.is_http ≡ true
        → call library writer app (some config) scope pending r log
          ≡ call_active library writer app config scope
              (request_id_of library scope)
              (run_of pending r)
              log
    unfolding call
    call-active pending r log http = if_true _ _ http

    -- A request whose authentication or authorisation left an event is recorded with that event and its
    -- error code at every level and with every method, unless its path is excluded; another is recorded
    -- as a call where the level has it captured, and else not at all. It is one line, with the status
    -- of the response and the identifier that each response carries, once, in its header x-request-id.
    -- All this also holds when the application ends with an exception, which is passed on; and no
    -- event is left over for the next request.
    pub call-IsHandled :
        (pending : Pending) (r : R) (log : Log)
        → scope.is_http ≡ true
        → IsHandled
            (request_id_of library scope)
            (run_of pending r)
            log
            (call library writer app (some config) scope pending r log)
    call-IsHandled pending r log http =
        rw (call-active pending r log http)
          (call_active-IsHandled (request_id_of library scope) (run_of pending r) log)
