-- ===== src/Routers/Event.antt =====
-- app/routers/event.py: the handlers of the Stream type, under /ns/{ns}/event.
pub mod Ids
pub mod Replies
pub mod Scope
pub mod Tests
use redgw_lite.Prelude.{
  ℕ, String, Bool, true, false, not, Option, none, some, List, [], ◌∷◌, ◌++◌, ◌==◌, ◌⧺◌, length, ℤ,
  pos, map, within, if◌then◌else◌,
}
use redgw_lite.Python.Value.{
  Value, Items, Fields, nil, cons, end, field, null, int, str, bool, list, dict, items_of,
  values_of, fields_of, truthy,
}
use redgw_lite.Python.Exec.{
  Exec, Result, returned, raised, value_error, other_error, pure, raise, lift, ◌>>=◌, ◌>>◌,
  for_each, comprehension,
}
use redgw_lite.Response.{Response, ok, error, not_found}
use redgw_lite.Settings.{DefaultsConfig}
use redgw_lite.KeyBuilder.{build_key, event_prefix}
use redgw_lite.Redis.{Command, Redis, World, await, execute, rescue}
use redgw_lite.Auth.ApiKey.{ClientInfo}
use redgw_lite.Auth.Guard.{require_read, require_write}
use redgw_lite.Validation.{check_dict_values_size, touch_key}
use redgw_lite.Routers.Batch.{iterate}
use redgw_lite.Routers.Event.Ids.{stream_id_re}
use redgw_lite.Routers.Event.Replies.{
  events_in, group_events, item, get, group_info, events_content,
}

module _ {W : Type 0} where
  -- `if not _STREAM_ID_RE.match(sid): raise …`
  unfoldable pub check_stream_id : (ℕ → Bool) → String → Exec W (Unit {0})
  check_stream_id isdecimal sid =
      if not (stream_id_re isdecimal sid)
      then raise (error "INVALID_STREAM_ID" ("Invalid stream ID format: '" ⧺ sid ⧺ "'") 400)
      else pure tt

-- Bodies: app/schemas/event.py. A body with one text or one list is that text or list.
module _ {R : Type 0} (redis : Redis R) (isdecimal : ℕ → Bool) (defaults : DefaultsConfig)
    (client : ClientInfo) where
  unfoldable pub batch_publish_event :
      String → String → List (List (String × String)) → Exec (World R) Response
  batch_publish_event ns key events = do
    require_write client ns
    for_each events (λ evt. check_dict_values_size defaults evt)
    redis_key ← lift (build_key ns event_prefix key)
    ids ←
        execute redis false
          (map (λ evt. Command.xadd redis_key evt defaults.max_stream_length) events)
    pure
        (ok (("ids", list (items_of ids)) ∷ ("count", int (pos (length ids))) ∷ []) ns key "stream")

  unfoldable pub publish_event : String → String → List (String × String) → Exec (World R) Response
  publish_event ns key content = do
    require_write client ns
    check_dict_values_size defaults content
    redis_key ← lift (build_key ns event_prefix key)
    entry_id ← await redis (Command.xadd redis_key content defaults.max_stream_length)
    pure (ok (("id", entry_id) ∷ []) ns key "stream")

  -- `"-" if last_id == "0" else f"({last_id}"`
  abbrev pub min_id : String → String
  min_id last_id = if last_id == "0" then "-" else "(" ⧺ last_id

  -- `count` is from 1 to 1000; the greatest identifier is "+".
  unfoldable pub read_events : String → String → String → ℕ → Exec (World R) Response
  read_events ns key last_id count = do
    require_read client ns
    redis_key ← lift (build_key ns event_prefix key)
    check_stream_id isdecimal last_id
    entries ← await redis (Command.xrange redis_key (min_id last_id) count)
    events ← lift (events_in entries)
    pure (ok (events_content events) ns key "stream")

  -- `raise error("INTERNAL_ERROR", "Stream operation failed", status=500)`
  abbrev pub stream_failed : {A : Type 0} → Exec (World R) A
  stream_failed = raise (error "INTERNAL_ERROR" "Stream operation failed" 500)

  -- Creating a group takes "read", since it is part of consuming.
  unfoldable pub create_group : String → String → String → Exec (World R) Response
  create_group ns key group = do
    require_read client ns
    redis_key ← lift (build_key ns event_prefix key)
    _ ← rescue (await redis (Command.xgroup_create redis_key group)) (λ e.
        if within "BUSYGROUP" e
        then raise (error "GROUP_EXISTS" ("Consumer group '" ⧺ group ⧺ "' already exists") 409)
        else stream_failed)
    pure (ok (("group", str group) ∷ ("created", bool true) ∷ []) ns key "stream")

  unfoldable pub read_group : String → String → String → String → ℕ → Exec (World R) Response
  read_group ns key group consumer count = do
    require_read client ns
    redis_key ← lift (build_key ns event_prefix key)
    results ← rescue (await redis (Command.xreadgroup group consumer redis_key count)) (λ e.
        if within "NOGROUP" e
        then raise (error "GROUP_NOT_FOUND" ("Consumer group '" ⧺ group ⧺ "' not found") 404)
        else stream_failed)
    events ← lift (group_events results)
    pure (ok (events_content events ++ ("consumer", str consumer) ∷ []) ns key "stream")

  unfoldable pub ack_events : String → String → String → List String → Exec (World R) Response
  ack_events ns key group ids = do
    require_read client ns
    for_each ids (λ sid. check_stream_id isdecimal sid)
    redis_key ← lift (build_key ns event_prefix key)
    acked ← await redis (Command.xack redis_key group ids)
    pure (ok (("acked", acked) ∷ []) ns key "stream")

  unfoldable pub delete_event : String → String → Exec (World R) Response
  delete_event ns key = do
    require_write client ns
    redis_key ← lift (build_key ns event_prefix key)
    deleted ← await redis (Command.delete redis_key)
    if not (truthy deleted)
        then raise (not_found key ns)
        else pure (ok (("deleted", bool true) ∷ []) ns key "stream")

  unfoldable pub touch_event : String → String → ℤ → Exec (World R) Response
  touch_event ns key ttl = do
    require_write client ns
    redis_key ← lift (build_key ns event_prefix key)
    touch_key redis redis_key ttl ns key "stream"

  -- The second `try` of `stream_info`: the groups, or none where Redis refuses.
  unfoldable pub groups_of : String → Exec (World R) (List Value)
  groups_of redis_key =
      rescue
        (do
          groups_info ← await redis (Command.xinfo_groups redis_key)
          infos ← lift (iterate groups_info)
          comprehension group_info infos)
        (λ _. pure [])

  unfoldable pub stream_info : String → String → Exec (World R) Response
  stream_info ns key = do
    require_read client ns
    redis_key ← lift (build_key ns event_prefix key)
    info ← rescue (await redis (Command.xinfo_stream redis_key)) (λ _.
        raise
          (error "KEY_NOT_FOUND" ("Stream '" ⧺ key ⧺ "' not found in namespace '" ⧺ ns ⧺ "'") 404))
    groups ← groups_of redis_key
    size ← lift (item "length" info)
    first_entry ← lift (get "first-entry" info)
    last_entry ← lift (get "last-entry" info)
    pure (
        ok
          (("length", size)
            ∷ ("first_entry", first_entry)
            ∷ ("last_entry", last_entry)
            ∷ ("groups", list (items_of groups))
            ∷ [])
          ns key "stream")

-- The routes of the file, each with the parts of the request that its handler takes.
pub data EventRequest : Type 0 where
  publish_batch : String → List (List (String × String)) → EventRequest
  publish : String → List (String × String) → EventRequest
  read : String → String → ℕ → EventRequest
  create : String → String → EventRequest
  consume : String → String → String → ℕ → EventRequest
  ack : String → String → List String → EventRequest
  remove info : String → EventRequest
  touch : String → ℤ → EventRequest

-- Whether the handler of a route requires "write", and not "read".
abbrev pub requires_write : EventRequest → Bool
requires_write (publish_batch key events) = true
requires_write (publish key content) = true
requires_write (remove key) = true
requires_write (touch key ttl) = true
requires_write _ = false

-- Whether the handler sends commands that write: a consumer's do, though they require only "read".
abbrev pub writes : EventRequest → Bool
writes (read key last_id count) = false
writes (info key) = false
writes _ = true

module _ {R : Type 0} (redis : Redis R) (isdecimal : ℕ → Bool) (defaults : DefaultsConfig)
    (client : ClientInfo) where
  abbrev pub serve : String → EventRequest → Exec (World R) Response
  serve ns (publish_batch key events) =
      batch_publish_event redis isdecimal defaults client ns key events
  serve ns (publish key content) = publish_event redis isdecimal defaults client ns key content
  serve ns (read key last_id count) =
      read_events redis isdecimal defaults client ns key last_id count
  serve ns (create key group) = create_group redis isdecimal defaults client ns key group
  serve ns (consume key group consumer count) =
      read_group redis isdecimal defaults client ns key group consumer count
  serve ns (ack key group ids) = ack_events redis isdecimal defaults client ns key group ids
  serve ns (remove key) = delete_event redis isdecimal defaults client ns key
  serve ns (info key) = stream_info redis isdecimal defaults client ns key
  serve ns (touch key ttl) = touch_event redis isdecimal defaults client ns key ttl
