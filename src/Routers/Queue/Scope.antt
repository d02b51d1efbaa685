-- ===== src/Routers/Queue/Scope.antt =====
-- What the handlers of app/routers/queue.py may do, and what they report.
use redgw_lite.Prelude.{String, ◌≡◌, false, arith}
use redgw_lite.Python.Value.{normalised-ne}
use redgw_lite.Python.Exec.{returned}
use redgw_lite.Python.Yields.{Yields, yields_rules}
use redgw_lite.Response.{Response, ReportsTtl}
use redgw_lite.Settings.{DefaultsConfig}
use redgw_lite.KeyBuilder.{queue_prefix}
use redgw_lite.Redis.{Redis, World}
use redgw_lite.Redis.Keeps.{Keeps, Preserved, Keeps-await, Keeps-execute, keeps_rules}
use redgw_lite.Auth.ApiKey.{ClientInfo}
use redgw_lite.Auth.Guard.{check_access}
use redgw_lite.Auth.Guard.Permissions.{permission, stopped, stopped_of_denied}
use redgw_lite.Validation.Keeps.{
  Keeps-check_value_size, Keeps-touch_key, Allowed-expire_or_persist, Yields-touch_key,
}
use redgw_lite.Routers.Queue.{
  Mode, Direction, left, right, QueueRequest, push, push_batch, pop, range, size, remove, touch,
  trim, writes, serve, get_script, batch_push_queue, push_queue, pop_queue, range_queue, len_queue,
  delete_queue, touch_queue, trim_queue,
}

module _ {R : Type 0} (redis : Redis R) (defaults : DefaultsConfig) (client : ClientInfo) where
  -- A client without the operation that a route of the List type requires in the namespace gets
  -- NAMESPACE_DENIED with status 403; no command is sent, and the world changes in nothing but the
  -- audit event and the count of refusals. Taking an element out of a queue requires "write".
  pub queue_denied :
      (ns : String) (q : QueueRequest) (w : World R)
      → check_access client ns (permission (writes q)) ≡ false
      → serve redis defaults client ns q w ≡ stopped client ns (permission (writes q)) w
  unfolding batch_push_queue push_queue pop_queue range_queue len_queue delete_queue touch_queue
      trim_queue
  queue_denied ns (range key start stop) w denied = stopped_of_denied client ns "read" _ w denied
  queue_denied ns (size key) w denied = stopped_of_denied client ns "read" _ w denied
  queue_denied ns q w denied = stopped_of_denied client ns "write" _ w denied

Keeps-get_script :
    {R : Type 0} {P : R → Type 0} (mode : Mode) (direction : Direction)
    → Keeps P (get_script mode direction)
unfolding get_script
Keeps-get_script mode direction = record { at = λ w h. ground arith }

module _ {R : Type 0} (redis : Redis R) (defaults : DefaultsConfig) (client : ClientInfo)
    (P : R → Type 0) where
  queue-Keeps :
      (ns : String) (q : QueueRequest)
      → Preserved redis P (writes q) ns queue_prefix
      → Keeps P (serve redis defaults client ns q)
  unfolding batch_push_queue push_queue pop_queue range_queue len_queue delete_queue touch_queue
      trim_queue
  queue-Keeps ns (push key body) kept =
      search
        (
          keeps_rules,
          Keeps-get_script,
          Keeps-check_value_size,
          Allowed-expire_or_persist,
          Keeps-await kept,
          Keeps-execute kept,
        )
        depth 16
  queue-Keeps ns (push_batch key body) kept =
      search
        (
          keeps_rules,
          Keeps-get_script,
          Keeps-check_value_size,
          Allowed-expire_or_persist,
          Keeps-await kept,
          Keeps-execute kept,
        )
        depth 16
  queue-Keeps ns (pop key left) kept = search (keeps_rules, Keeps-await kept) depth 14
  queue-Keeps ns (pop key right) kept = search (keeps_rules, Keeps-await kept) depth 14
  queue-Keeps ns (range key start stop) kept = search (keeps_rules, Keeps-await kept) depth 14
  queue-Keeps ns (size key) kept = search (keeps_rules, Keeps-await kept) depth 14
  queue-Keeps ns (remove key) kept = search (keeps_rules, Keeps-await kept) depth 14
  queue-Keeps ns (touch key ttl) kept = search (keeps_rules, Keeps-touch_key kept) depth 14
  queue-Keeps ns (trim key keep) kept = search (keeps_rules, Keeps-await kept) depth 14

  -- Whatever property of the server's state the commands on keys `ns:q:…` keep, a request of the List
  -- type in the namespace `ns` keeps it; and where the route requires only "read", the property need
  -- only be kept by the commands among these that read.
  pub queue_confined :
      (ns : String) (q : QueueRequest) (w : World R)
      → Preserved redis P (writes q) ns queue_prefix
      → P w.redis
      → P (serve redis defaults client ns q w).1.redis
  queue_confined ns q w kept h = (queue-Keeps ns q kept).at w h

module _ {R : Type 0} (redis : Redis R) (defaults : DefaultsConfig) (client : ClientInfo) where
  queue-Yields :
      (ns : String) (q : QueueRequest) → Yields ReportsTtl (serve redis defaults client ns q)
  unfolding batch_push_queue push_queue pop_queue range_queue len_queue delete_queue touch_queue
      trim_queue
  queue-Yields ns (push key body) = search (yields_rules, normalised-ne) depth 16
  queue-Yields ns (push_batch key body) = search (yields_rules, normalised-ne) depth 16
  queue-Yields ns (touch key ttl) = search (yields_rules, Yields-touch_key) depth 14
  queue-Yields ns q = search yields_rules depth 14

  -- Whatever Redis replies, also where another client empties the queue between a push and the
  -- reading of its lifetime, a response of the List type never reports a ttl of -2.
  pub queue_reports :
      (ns : String) (q : QueueRequest) (w : World R) (response : Response)
      → (serve redis defaults client ns q w).0 ≡ returned response
      → ReportsTtl response
  queue_reports ns q w response h = (queue-Yields ns q).at w response h
