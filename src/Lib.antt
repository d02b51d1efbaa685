-- ===== src/Lib.antt =====
-- RedGW lite is a REST gateway that several clients share to use one Redis server. A request
-- carries an API key, which stands for a client, and names a namespace, a data type and a key. The
-- gateway authenticates the client, asks the guard whether it may read or write in the namespace,
-- checks the sizes of the values, builds the Redis key `ns:type:key`, sends Redis commands, one by
-- one or in pipelines, and answers with data and a meta that reports the key's remaining lifetime.
--
-- The parts, and what models them:
--   app/utils/key_builder.py         KeyBuilder: validate_ns, validate_key, build_key, parse_key,
--                                    build_keys_batch, build_scan_pattern (`_py_…` in the source)
--   app/auth/api_key.py              Auth.ApiKey: build_key_map, resolve_client, verify_api_key
--   app/auth/namespace_guard.py      Auth.Guard: check_access, require_access, require_admin
--   app/utils/validation.py, ttl.py  Validation: check_value_size, resolve_ttl, touch_key
--   app/utils/response.py            Response: ok, error, not_found; app/config.py: Settings
--   app/routers/kv.py                Routers.Kv, each handler under its own name; likewise
--   app/routers/map.py, queue.py     Routers.Map and Routers.Queue, the latter with the Lua scripts
--   app/routers/group.py, rank.py    Routers.Group and Routers.Rank
--   app/routers/event.py             Routers.Event, and its pattern of identifiers in Event.Ids
--   app/routers/pubsub.py            Routers.Pubsub: subscribe, the admission of a subscription;
--                                    Pubsub.Sessions: the steps of all connections, as a relation;
--                                    Pubsub.Publish: publish_message
--   app/dependencies.py, main.py     Gateway: handle, a request of any type from its key on
--   app/config.py                    Config: validate_config
--   app/config_validator.py          Config.Validator: validate_all_configs
--   app/audit/middleware.py          Audit: which requests are recorded, the capture of a body and the
--                                    header x-request-id; Audit.Origin: the origin of a write;
--                                    Audit.Line: the
--                                    recorded line; Audit.Call: the whole call around an application
--   app/audit/logger.py              Audit.Log: the queue of lines and its counters, extract_ip,
--                                    extract_key, validate_request_id; Audit.Account: its steps
--   app/redis_client.py              Connection: connect, disconnect, ping, get_client
--   app/middleware.py                Middleware: the security headers, the counting of requests, the
--                                    access log
--   app/routers/admin.py             Routers.Admin, with Admin.Stats, Admin.Clients, Admin.Prometheus
--                                    and Admin.Requests, whose `serve` chooses the handler
--   app/utils/metrics.py             Metrics: record_request; Metrics.Snapshot: get_metrics
--   app/utils/file_logger.py         Logs: should_rollover, do_rollover, emit; Logs.Backups:
--                                    shift_backups, compress_file; Logs.Cleanup: the total size
--   app/schemas                      the records of the request bodies, beside their handlers
--
-- A handler is a function from a world to a result and a world (Python.Exec). The world holds the
-- server's state, the audit event that waits for the middleware, the recorded refusals and the
-- cache of Lua scripts. An exception ends a handler, and what was changed before it stays changed.
-- The values of Python that a reply or a response can hold are one data type (Python.Value), and the
-- tests that the source makes on them (`if v`, `v is None`, `v == -2`) are functions on it. A file's
-- `serve` chooses the handler of a route; FastAPI's routing of paths is not modelled.
--
-- Redis and its client library are the parameter `Redis R`: any state, any function that answers a
-- command, and any function that answers a pipeline, in a transaction or not. Since it may change the
-- state in any way, it also stands for what other clients do between the commands of a handler. What
-- a theorem needs of it is a named hypothesis: Preserved (the allowed commands keep a property),
-- IsAtomic (a transaction is not interleaved), StringServer (what GET, SET, SETEX, DEL and EXISTS do),
-- ListServer and ScriptServer (pushes on lists, and running the Lua scripts as wholes). Redis.Memory
-- is a small server for examples. A command names its keys (Redis.keys) and reads only or may write
-- (Redis.read_only); a Lua script counts as writing.
--
-- The handlers for administrators send other commands, and iterate over SCAN: they have the parameter
-- AdminRedis R. An iteration is the keys that it yields and the exception that ends it, if one does,
-- which a loop that breaks does not meet. Keyspace (scans change nothing, DEL takes the keys that it
-- names) and Spared (a command changes no key but those it names) are hypotheses on it. The batches of
-- a deletion run on fuel, as many rounds as there are keys, which is enough since a batch is not empty.
-- The caches with a lifetime have times in microseconds, whose difference stops at 0.
--
-- A message is published through the parameter Publisher R. What its subscribers get is Redis's.
--
-- The counters of app/utils/metrics.py are the parameter Counters R, a command or a pipeline to count;
-- what it raises is dropped by the source. The log directory is, for each day, the active file and its
-- backups by number, plain or compressed. What the background compresses is done when the next
-- rollover waits for it. What _cleanup_by_total_size leaves is a parameter there (Surroundings), with
-- the hypothesis that it leaves the active file, and is modelled by itself over a listing of the
-- directory. The readings of the cached time in one call of emit give the same day.
--
-- A middleware is a function on what an application does with a request: the parameter App gives the
-- messages that it receives and sends, the pending event that it leaves, and the exception that it ends
-- with. The wrappers of the source look at one message at a time and share no state with each other, so
-- that the order between what is received and what is sent does not matter to them. The new UUID, the
-- time, SHA-256, json.dumps and the decoding of UTF-8 are the parameter Library. A header's value is a
-- text with a character for each byte.
--
-- The manager of the connection to Redis is modelled against what each attempt meets, a parameter: it
-- makes at most `max_retries` attempts, and its loop is recursion on the attempts that are left.
--
-- What depends on the Unicode database of the interpreter is a parameter: `isdecimal` for `\d` and
-- Interpreter for `\w`, `upper` and the printing of a list of texts. The environment is a list of
-- names and values.
--
-- The numbers of Python are ℤ, or ℕ where a length or a bound makes them so. A float is nan, an
-- infinity, or a mantissa times a power of two; theorems only compare it with a number. The texts are sequences
-- of characters with no lone surrogates, so that encoding a text does not fail. Printing a number runs
-- on fuel one more than the number, which has no more digits than that (Prelude.Text).
--
-- Not modelled: the checks that pydantic and FastAPI make before a handler runs (ranges of numbers,
-- sizes of bodies), log lines, the counter of a refusal, which lives in Redis under redgw:metrics,
-- beyond the fact that it was counted (the server's state of the model is without these counters),
-- admin_health_detail, which reads the disk, record_event, which nothing calls, the locks on log files,
-- CORS, start and shutdown. The key builder exists a second time in Rust (redgw_core), with the same
-- rules; the code in Python, which stands in where that module is absent, is what is modelled.
pub mod Prelude
pub mod Python
pub mod Response
pub mod Settings
pub mod KeyBuilder
pub mod Redis
pub mod Auth
pub mod Validation
pub mod Routers
pub mod Gateway
pub mod Config
pub mod Audit
pub mod Metrics
pub mod Logs
pub mod Middleware
pub mod Connection
