-- ===== src/Audit.antt =====
-- app/audit/middleware.py: which requests are recorded, the part of a body that is captured, and the
-- header that every response gets.
pub mod Recording
pub mod Origin
pub mod Log
pub mod Account
pub mod Line
pub mod Call
pub mod Tests
use redgw_lite.Prelude.{
  ℕ, String, Bool, true, false, not, ◌&&◌, ◌||◌, List, [], ◌∷◌, ◌++◌, ◌-◌, ◌+◌, ◌==◌, nat_eq, leb,
  length, take, codes, within, starts_with, if◌then◌else◌,
}
use redgw_lite.KeyBuilder.{contains}

-- `_decide_capture`
unfoldable pub decide_capture : String → String → ℕ → Bool
decide_capture method path level =
    if nat_eq level 0
    then false
    else if nat_eq level 1
    then (if starts_with (codes "/api/v1/admin/") (codes path)
        then true
        else if within "/publish/" path
        then false
        else contains method ("PUT" ∷ "POST" ∷ "DELETE" ∷ []))
    else true

-- The messages that an ASGI server hands over; of a request's message its part of the body, which is
-- empty where there is none.
pub data Message : Type 0 where
  request : List ℕ → Message
  other : Message

-- What `receive_wrapper` keeps: `body_chunks`, `body_total` and `truncated`.
pub record Capture : Type 0 where
  pub chunks : List (List ℕ)
  pub total : ℕ
  pub truncated : Bool

abbrev pub nothing_captured : Capture
nothing_captured = record { chunks = []; total = 0; truncated = false }

-- `_MAX_CAPTURE_BODY`
abbrev pub max_capture_body : ℕ
max_capture_body = 1048576

module _ (max : ℕ) where
  -- The branches of `receive_wrapper` for a chunk that is not empty, before the limit is passed.
  -- `body_total` never exceeds the limit, so that the difference is Python's.
  abbrev pub capture_chunk : List ℕ → Capture → Capture
  capture_chunk chunk st =
      if leb (length chunk) (max - st.total)
      then record {
        chunks = st.chunks ++ chunk ∷ [];
        total = st.total + length chunk;
        truncated = false;
      }
      else record {
        chunks = st.chunks ++ take (max - st.total) chunk ∷ [];
        total = st.total + (max - st.total);
        truncated = true;
      }

  -- `receive_wrapper`, after the message has come.
  unfoldable pub receive : Message → Capture → Capture
  receive other st = st
  receive (request []) st = st
  receive (request (b ∷ bs)) st = if st.truncated then st else capture_chunk (b ∷ bs) st

  -- The messages of a request, one after the other.
  unfoldable pub receive_all : List Message → Capture → Capture
  receive_all [] st = st
  receive_all (m ∷ ms) st = receive_all ms (receive m st)

-- `b"".join(body_chunks)`
abbrev pub joined_chunks : List (List ℕ) → List ℕ
joined_chunks [] = []
joined_chunks (c ∷ cs) = c ++ joined_chunks cs

-- `hdrs = [(n, v) for (n, v) in hdrs if n != b"x-request-id"]`, and the new header behind them.
unfoldable pub without_id : List (String × String) → List (String × String)
without_id [] = []
without_id ((n, v) ∷ headers) =
    let rest = without_id headers in if n == "x-request-id" then rest else (n, v) ∷ rest

unfoldable pub echo_id : String → List (String × String) → List (String × String)
echo_id request_id headers = without_id headers ++ ("x-request-id", request_id) ∷ []
