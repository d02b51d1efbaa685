-- ===== src/Audit/Account.antt =====
-- The queue and the counters of app/audit/logger.py under all that happens to them, in any order.
use redgw_lite.Prelude.{
  ℕ, String, ◌≡◌, refl, List, [], ◌∷◌, ◌+◌, ◌≤◌, ltb, length, length-append, arith, Bool-cases, inl,
  inr,
}
use redgw_lite.Audit.Log.{
  Log, queue_maxsize, empty_log, enqueue, increment_event_count, info, increment_dropped_disk_full,
  listen,
}

-- A request records a line, the listener takes one, and files are deleted for the room on the disk.
pub data LogStep : Log → Log → Type 0 where
  recorded : (line : String) (log : Log) → LogStep log (info line log)
  listened : (log : Log) → LogStep log (listen log)
  deleted : (n : ℕ) (log : Log) → LogStep log (increment_dropped_disk_full n log)

pub data LogReaches : Log → Type 0 where
  at_start : LogReaches empty_log
  step_from : {before after : Log} → LogReaches before → LogStep before after → LogReaches after

-- Each event is a line that was written, waits or was dropped, and not too many wait.
pub record IsAccounted (log : Log) : Type 0 where
  pub each_event : log.event_count ≡ length log.written + length log.queue + log.dropped_queue_full
  pub within : length log.queue ≤ queue_maxsize

info-IsAccounted : (line : String) (log : Log) → IsAccounted log → IsAccounted (info line log)
unfolding info increment_event_count enqueue
info-IsAccounted line log h = elim (Bool-cases (ltb (length log.queue) queue_maxsize)) [
  | inl room ↦ rw room (record {
    each_event = omega (arith, h.each_event, length-append log.queue (line ∷ []));
    within = ground (arith, room, length-append log.queue (line ∷ []));
  })
  | inr full ↦ rw full (record { each_event = omega (arith, h.each_event); within = h.within })
]

listened-IsAccounted :
    (queue written : List String) (events queue_full disk_full : ℕ)
    → IsAccounted (record {
      queue = queue;
      written = written;
      event_count = events;
      dropped_queue_full = queue_full;
      dropped_disk_full = disk_full;
    })
    → IsAccounted (
        listen (record {
          queue = queue;
          written = written;
          event_count = events;
          dropped_queue_full = queue_full;
          dropped_disk_full = disk_full;
        }))
unfolding listen
listened-IsAccounted [] written events queue_full disk_full h = h
listened-IsAccounted (line ∷ queue) written events queue_full disk_full h = record {
  each_event = omega (arith, h.each_event, length-append written (line ∷ []));
  within = omega (arith, h.within);
}

LogStep-IsAccounted :
    {before after : Log} → LogStep before after → IsAccounted before → IsAccounted after
unfolding increment_dropped_disk_full
LogStep-IsAccounted (recorded line log) h = info-IsAccounted line log h
LogStep-IsAccounted (listened log) h =
    listened-IsAccounted log.queue log.written log.event_count log.dropped_queue_full
      log.dropped_disk_full h
LogStep-IsAccounted (deleted n log) h = record { each_event = h.each_event; within = h.within }

pub LogReaches-IsAccounted : {log : Log} → LogReaches log → IsAccounted log
LogReaches-IsAccounted at_start = record { each_event = refl; within = omega arith }
LogReaches-IsAccounted (step_from r step) = LogStep-IsAccounted step (LogReaches-IsAccounted r)
