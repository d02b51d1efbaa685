-- ===== src/Audit/Log.antt =====
-- app/audit/logger.py: the queue of lines between the requests and the thread that writes them, with
-- its counters, and what is read from the headers and the path of a request.
use redgw_lite.Prelude.{
  ℕ, zero, suc, String, Bool, true, false, not, ◌&&◌, ◌||◌, Option, none, some, List, [], ◌∷◌, ◌++◌,
  ◌+◌, ◌==◌, nat_eq, ltb, leb, length, code, codes, if◌then◌else◌,
}
use mathlib.Core.Option
use redgw_lite.KeyBuilder.{contains, is_ns_char}
use redgw_lite.Audit.Origin.{break_slash, without_prefix}

-- `_QUEUE_MAXSIZE`
abbrev pub queue_maxsize : ℕ
queue_maxsize = 10000

-- `_audit_queue`, `_event_count`, `_dropped_queue_full` and `_dropped_disk_full`, and the lines that
-- the thread of the listener has taken to write them.
pub record Log : Type 0 where
  pub queue : List String
  pub written : List String
  pub event_count : ℕ
  pub dropped_queue_full : ℕ
  pub dropped_disk_full : ℕ

-- After `init_audit_logger` in a new process.
abbrev pub empty_log : Log
empty_log = record {
  queue = [];
  written = [];
  event_count = 0;
  dropped_queue_full = 0;
  dropped_disk_full = 0;
}

-- `_DropCountingQueueHandler.enqueue`
unfoldable pub enqueue : String → Log → Log
enqueue line log =
    if ltb (length log.queue) queue_maxsize
    then record log { queue = log.queue ++ line ∷ [] }
    else record log { dropped_queue_full = log.dropped_queue_full + 1 }

unfoldable pub increment_event_count : Log → Log
increment_event_count log = record log { event_count = log.event_count + 1 }

-- `logger.info(line)`, and `increment_event_count()` after it.
unfoldable pub info : String → Log → Log
info line log = increment_event_count (enqueue line log)

unfoldable pub increment_dropped_disk_full : ℕ → Log → Log
increment_dropped_disk_full n log = record log { dropped_disk_full = log.dropped_disk_full + n }

abbrev taken : List String → Log → Log
taken [] log = log
taken (line ∷ rest) log = record log { queue = rest; written = log.written ++ line ∷ [] }

-- The listener takes the first line of the queue.
unfoldable pub listen : Log → Log
listen log = taken log.queue log

-- `get_queue_size` and `get_dropped_counts`
abbrev pub get_queue_size : Log → ℕ
get_queue_size log = length log.queue

abbrev pub get_dropped_counts : Log → List (String × ℕ)
get_dropped_counts log =
    ("queue_full", log.dropped_queue_full) ∷ ("disk_full", log.dropped_disk_full) ∷ []

-- `$`, behind at most `n` characters of the class.
abbrev pub id_end : ℕ → List ℕ → Bool
id_end n [] = true
id_end zero (c ∷ s) = nat_eq c 10 && nat_eq (length s) 0
id_end (suc n) (c ∷ s) = (is_ns_char c && id_end n s) || (nat_eq c 10 && nat_eq (length s) 0)

-- `[A-Za-z0-9_-]{1,n + 1}$`
abbrev pub some_id_end : ℕ → List ℕ → Bool
some_id_end n [] = false
some_id_end n (c ∷ s) = is_ns_char c && id_end n s

-- `_REQUEST_ID_RE.match(value)`: `^[A-Za-z0-9_-]{1,128}$`
unfoldable pub request_id_re : String → Bool
request_id_re value = some_id_end 127 (codes value)

-- `validate_request_id`, with the new UUID.
unfoldable pub validate_request_id : String → String → String
validate_request_id uuid4 value = if not (value == "") && request_id_re value then value else uuid4

-- `val.decode("ascii", "ignore")`, on the bytes of a header.
unfoldable pub decode_ascii : String → String
decode_ascii String.[] = ""
decode_ascii (String.◌∷◌ c s) =
    let rest = decode_ascii s in if ltb (code c) 128 then String.◌∷◌ c rest else rest

-- What `strip` takes away of ASCII.
abbrev is_space : ℕ → Bool
is_space c = nat_eq c 32 || (leb 9 c && leb c 13) || (leb 28 c && leb c 31)

abbrev left_stripped : String → String
left_stripped String.[] = ""
left_stripped (String.◌∷◌ c s) =
    let rest = left_stripped s in if is_space (code c) then rest else String.◌∷◌ c s

abbrev right_stripped : String → String
right_stripped String.[] = ""
right_stripped (String.◌∷◌ c s) =
    let rest = right_stripped s in if is_space (code c) && rest == "" then "" else String.◌∷◌ c rest

unfoldable pub strip : String → String
strip s = left_stripped (right_stripped s)

-- The value of the first header with a name.
abbrev pub first_header : String → List (String × String) → Option String
first_header name [] = none
first_header name ((n, v) ∷ headers) =
    let rest = first_header name headers in if n == name then some v else rest

abbrev non_empty : String → Option String → Option String
non_empty ip fallback = if ip == "" then fallback else some ip

-- `extract_ip`, for the headers and the peer of a request.
unfoldable pub extract_ip : List (String × String) → Option String → Option String
extract_ip headers client = elim (first_header "x-real-ip" headers) [
  | none ↦ client
  | some val ↦ non_empty (strip (decode_ascii val)) client
]

-- `.*)?$` behind a question mark.
abbrev query_end : List ℕ → Bool
query_end [] = true
query_end (c ∷ s) = if nat_eq c 10 then nat_eq (length s) 0 else query_end s

-- `(?:\?.*)?$`
abbrev key_end : List ℕ → Bool
key_end [] = true
key_end (c ∷ s) = (nat_eq c 10 && nat_eq (length s) 0) || (nat_eq c b'?' && query_end s)

-- What `[^?]*?(?:\?.*)?$` takes for the key.
abbrev shortest_key : String → Option String
shortest_key String.[] = some ""
shortest_key (String.◌∷◌ c s) =
    let longer = Option.map (λ k. String.◌∷◌ c k) (shortest_key s) in
    if key_end (codes (String.◌∷◌ c s))
    then some ""
    else if nat_eq (code c) b'?'
    then none
    else longer

abbrev key_part : String → Option String
key_part String.[] = none
key_part (String.◌∷◌ c s) =
    if nat_eq (code c) b'?' then none else Option.map (λ k. String.◌∷◌ c k) (shortest_key s)

abbrev type_tokens : List String
type_tokens = "kv" ∷ "map" ∷ "queue" ∷ "group" ∷ "rank" ∷ "event" ∷ []

abbrev after_type : Option (String × String) → Option String
after_type none = none
after_type (some (type_token, rest)) =
    if contains type_token type_tokens then key_part rest else none

abbrev after_ns : Option (String × String) → Option String
after_ns none = none
after_ns (some (ns, rest)) = if ns == "" then none else after_type (break_slash rest)

-- `extract_key`: the second group of `_NS_KEY_RE`.
unfoldable pub extract_key : String → Option String
extract_key path = elim (without_prefix "/api/v1/ns/" path) [
  | none ↦ none
  | some rest ↦ after_ns (break_slash rest)
]

-- `detect_admin_action`
abbrev pub detect_admin_action : String → Option String
detect_admin_action path = none
