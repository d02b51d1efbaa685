-- ===== src/Routers/Event/Scope.antt =====
-- What the handlers of app/routers/event.py may do, and what they report.
use redgw_lite.Prelude.{
  ℕ, String, ◌≡◌, refl, Bool, true, false, List, [], ◌∷◌, all, ℤ, map, All, Bool-cases, inl, inr,
}
use redgw_lite.Python.Value.{Value}
use redgw_lite.Python.Exec.{returned, for_each}
use redgw_lite.Python.Yields.{Yields, yields_rules}
use redgw_lite.Response.{Response, ReportsTtl}
use redgw_lite.Settings.{DefaultsConfig}
use redgw_lite.KeyBuilder.{build_key, event_prefix, joined}
use redgw_lite.Redis.{Command, Redis, World}
use redgw_lite.Redis.Keeps.{
  Keeps, Keeps-lift, Keeps-require, Allowed, InScope-joined, Preserved, Keeps-await, Keeps-execute,
  keeps_rules,
}
use redgw_lite.Redis.Stops.{Stops, Stops-raise, Stops-first, Stops-then, Raised}
use redgw_lite.Auth.ApiKey.{ClientInfo}
use redgw_lite.Auth.Guard.{check_access}
use redgw_lite.Auth.Guard.Permissions.{permission, stopped, stopped_of_denied}
use redgw_lite.Validation.Keeps.{Keeps-check_dict_values_size, Keeps-touch_key, Yields-touch_key}
use redgw_lite.Routers.Event.Replies.{group_info}
use redgw_lite.Routers.Event.Ids.{stream_id_re}
use redgw_lite.Routers.Event.{
  EventRequest, publish_batch, publish, read, create, consume, ack, remove, info, touch,
  requires_write, writes, serve, check_stream_id, groups_of, batch_publish_event, publish_event,
  read_events, create_group, read_group, ack_events, delete_event, touch_event, stream_info,
}

module _ {R : Type 0} (redis : Redis R) (isdecimal : ℕ → Bool) (defaults : DefaultsConfig)
    (client : ClientInfo) where
  -- A client without the operation that a route of the Stream type requires in the namespace gets
  -- NAMESPACE_DENIED with status 403; no command is sent, and the world changes in nothing but the
  -- audit event and the count of refusals. Creating a consumer group, reading in it and
  -- acknowledging require "read".
  pub event_denied :
      (ns : String) (q : EventRequest) (w : World R)
      → check_access client ns (permission (requires_write q)) ≡ false
      → serve redis isdecimal defaults client ns q w
        ≡ stopped client ns (permission (requires_write q)) w
  unfolding batch_publish_event publish_event read_events create_group read_group ack_events
      delete_event touch_event stream_info
  event_denied ns (publish_batch key events) w denied =
      stopped_of_denied client ns "write" _ w denied
  event_denied ns (publish key content) w denied = stopped_of_denied client ns "write" _ w denied
  event_denied ns (remove key) w denied = stopped_of_denied client ns "write" _ w denied
  event_denied ns (touch key ttl) w denied = stopped_of_denied client ns "write" _ w denied
  event_denied ns q w denied = stopped_of_denied client ns "read" _ w denied

module _ {R : Type 0} {P : R → Type 0} where
  Keeps-check_stream_id :
      (isdecimal : ℕ → Bool) (sid : String) → Keeps P (check_stream_id {W = World R} isdecimal sid)
  unfolding check_stream_id
  Keeps-check_stream_id isdecimal sid = search keeps_rules

  Keeps-group_info : (g : Value) → Keeps P (group_info {W = World R} g)
  unfolding group_info
  Keeps-group_info g = search keeps_rules depth 14

module _ {R : Type 0} (redis : Redis R) (isdecimal : ℕ → Bool) (defaults : DefaultsConfig)
    (client : ClientInfo) (P : R → Type 0) where
  Keeps-groups_of :
      (ns key : String)
      → Preserved redis P false ns event_prefix
      → Keeps P (groups_of redis isdecimal defaults client (joined ns event_prefix key))
  unfolding groups_of
  Keeps-groups_of ns key kept = search (keeps_rules, Keeps-group_info, Keeps-await kept) depth 14

  xadds-Allowed :
      (ns key : String) (max : ℤ) (events : List (List (String × String)))
      → All
          (Allowed true ns event_prefix)
          (map (λ evt. Command.xadd (joined ns event_prefix key) evt max) events)
  xadds-Allowed ns key max [] = tt
  xadds-Allowed ns key max (evt ∷ events) =
      ((InScope-joined ns event_prefix key, tt), xadds-Allowed ns key max events)

  event-Keeps :
      (ns : String) (q : EventRequest)
      → Preserved redis P (writes q) ns event_prefix
      → Keeps P (serve redis isdecimal defaults client ns q)
  unfolding batch_publish_event publish_event read_events create_group read_group ack_events
      delete_event touch_event stream_info
  event-Keeps ns (publish_batch key events) kept =
      search (keeps_rules, xadds-Allowed, Keeps-check_dict_values_size, Keeps-execute kept) depth 14
  event-Keeps ns (publish key content) kept =
      search (keeps_rules, Keeps-check_dict_values_size, Keeps-await kept) depth 14
  event-Keeps ns (read key last_id count) kept =
      search (keeps_rules, Keeps-check_stream_id, Keeps-await kept) depth 14
  event-Keeps ns (create key group) kept = search (keeps_rules, Keeps-await kept) depth 14
  event-Keeps ns (consume key group consumer count) kept =
      search (keeps_rules, Keeps-await kept) depth 14
  event-Keeps ns (ack key group ids) kept =
      search (keeps_rules, Keeps-check_stream_id, Keeps-await kept) depth 14
  event-Keeps ns (remove key) kept = search (keeps_rules, Keeps-await kept) depth 14
  event-Keeps ns (info key) kept = search (keeps_rules, Keeps-groups_of, Keeps-await kept) depth 16
  event-Keeps ns (touch key ttl) kept = search (keeps_rules, Keeps-touch_key kept) depth 14

  -- Whatever property of the server's state the commands on keys `ns:evt:…` keep, a request of the
  -- Stream type in the namespace `ns` keeps it; and where the request reads events by their
  -- identifiers or asks about the stream, the property need only be kept by the commands among these
  -- that read.
  pub event_confined :
      (ns : String) (q : EventRequest) (w : World R)
      → Preserved redis P (writes q) ns event_prefix
      → P w.redis
      → P (serve redis isdecimal defaults client ns q w).1.redis
  event_confined ns q w kept h = (event-Keeps ns q kept).at w h

-- The identifiers in a request that the pattern has to accept.
abbrev pub ids_accepted : (ℕ → Bool) → EventRequest → Bool
ids_accepted isdecimal (read key last_id count) = stream_id_re isdecimal last_id
ids_accepted isdecimal (ack key group ids) = all (stream_id_re isdecimal) ids
ids_accepted isdecimal _ = true

module _ {R : Type 0} {r : R} (isdecimal : ℕ → Bool) where
  Stops-check_stream_id :
      (sid : String)
      → stream_id_re isdecimal sid ≡ false
      → Stops r (check_stream_id {W = World R} isdecimal sid)
  unfolding check_stream_id
  Stops-check_stream_id sid bad = rw bad (Stops-raise _)

  Stops-check_ids :
      (ids : List String)
      → all (stream_id_re isdecimal) ids ≡ false
      → Stops r (for_each {W = World R} ids (λ sid. check_stream_id isdecimal sid))
  unfolding for_each
  Stops-check_ids [] h = cc h
  Stops-check_ids (sid ∷ ids) h = elim (Bool-cases (stream_id_re isdecimal sid)) [
    | inl good ↦
        Stops-then _ _ (Keeps-check_stream_id isdecimal sid)
          (λ _. Stops-check_ids ids (rw good at h))
    | inr bad ↦ Stops-first _ _ (Stops-check_stream_id sid bad)
  ]

module _ {R : Type 0} (redis : Redis R) (isdecimal : ℕ → Bool) (defaults : DefaultsConfig)
    (client : ClientInfo) where
  event-Stops :
      (r : R) (ns : String) (q : EventRequest)
      → ids_accepted isdecimal q ≡ false
      → Stops r (serve redis isdecimal defaults client ns q)
  unfolding read_events ack_events
  event-Stops r ns (read key last_id count) h = Stops-then _ _ (Keeps-require client ns "read") λ _.
      Stops-then _ _ (Keeps-lift (build_key ns event_prefix key))
        λ redis_key. Stops-first _ _ (Stops-check_stream_id isdecimal last_id h)
  event-Stops r ns (ack key group ids) h =
      Stops-then _ _ (Keeps-require client ns "read")
        λ _. Stops-first _ _ (Stops-check_ids isdecimal ids h)
  event-Stops r ns q h = cc h

  -- A request to read or to acknowledge with an identifier that the pattern does not accept raises an
  -- exception and sends nothing: the server's state is what it was, also if only one of the
  -- identifiers to acknowledge is malformed.
  pub event-ids_accepted :
      (ns : String) (q : EventRequest) (w : World R)
      → ids_accepted isdecimal q ≡ false
      → Raised w.redis (serve redis isdecimal defaults client ns q w)
  event-ids_accepted ns q w h = (event-Stops w.redis ns q h).at w refl

  event-Yields :
      (ns : String) (q : EventRequest)
      → Yields ReportsTtl (serve redis isdecimal defaults client ns q)
  unfolding batch_publish_event publish_event read_events create_group read_group ack_events
      delete_event touch_event stream_info
  event-Yields ns (touch key ttl) = search (yields_rules, Yields-touch_key) depth 14
  event-Yields ns q = search yields_rules depth 14

  -- Whatever Redis replies, a response of the Stream type never reports a ttl of -2.
  pub event_reports :
      (ns : String) (q : EventRequest) (w : World R) (response : Response)
      → (serve redis isdecimal defaults client ns q w).0 ≡ returned response
      → ReportsTtl response
  event_reports ns q w response h = (event-Yields ns q).at w response h
