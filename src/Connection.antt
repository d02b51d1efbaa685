-- ===== src/Connection.antt =====
-- app/redis_client.py: the manager of the connection to Redis.
pub mod Retries
pub mod Tests
use redgw_lite.Prelude.{
  ℕ, zero, suc, Bool, true, false, not, Option, none, some, List, [], ◌∷◌, ◌+◌, nat_eq,
  if◌then◌else◌,
}
use redgw_lite.Python.Exec.{Result, returned, raised, other_error}

-- What an attempt meets: whether `from_url` returns a client, what its `ping` answers (none where it
-- raises), and whether its first `aclose`, and then a second one, returns or raises.
pub record Attempt : Type 0 where
  pub created : Bool
  pub ping : Option Bool
  pub closes : Bool
  pub closes_again : Bool

-- `_client`, the clients that were made and not closed, and the pauses so far. A client is the number of
-- the attempt that made it.
pub record Manager : Type 0 where
  pub client : Option ℕ
  pub made : List ℕ
  pub pauses : ℕ

abbrev pub new_manager : Manager
new_manager = record { client = none; made = []; pauses = 0 }

-- `await client.aclose()` for the newest client.
abbrev close_newest : Bool → List ℕ → List ℕ
close_newest closes [] = []
close_newest closes (c ∷ cs) = if closes then cs else c ∷ cs

-- `if attempt < max_retries: await asyncio.sleep(retry_delay)`, for the attempts that are left.
abbrev pause : ℕ → Manager → Manager
pause zero m = m
pause (suc left) m = record m { pauses = m.pauses + 1 }

-- The `except` of an attempt that has made a client, and whether its `aclose` returns.
abbrev failed_with : Bool → ℕ → Manager → Manager
failed_with closes left m = pause left (record m { made = close_newest closes m.made })

-- An attempt: whether it is the last since `connect` returns, and what becomes of the manager.
abbrev answered : Attempt → ℕ → ℕ → Option Bool → Manager → Bool × Manager
answered a i left (some true) m = (true, record m { client = some i })
answered a i left (some false) m =
    if a.closes
    then (false, record m { made = close_newest true m.made })
    else (false, failed_with a.closes_again left m)
answered a i left none m = (false, failed_with a.closes left m)

unfoldable pub attempted : Attempt → ℕ → ℕ → Manager → Bool × Manager
attempted a i left m =
    if not a.created
    then (false, pause left m)
    else answered a i left a.ping (record m { made = i ∷ m.made })

-- What follows an attempt: the next, unless it was the last.
abbrev pub next_attempt : (Manager → Bool × Manager) → Bool × Manager → Bool × Manager
next_attempt rest (true, m) = (true, m)
next_attempt rest (false, m) = rest m

module _ (attempt : ℕ → Attempt) where
  -- `for attempt in range(1, max_retries + 1)`, from the number `i` on, and the attempts that are left.
  unfoldable pub connect_loop : ℕ → ℕ → Manager → Bool × Manager
  connect_loop zero i m = (false, m)
  connect_loop (suc left) i m =
      next_attempt (connect_loop left (i + 1)) (attempted (attempt i) i left m)

  -- `connect`
  unfoldable pub connect : ℕ → Manager → Bool × Manager
  connect max_retries m = connect_loop max_retries 1 m

abbrev without : ℕ → List ℕ → List ℕ
without c [] = []
without c (d ∷ ds) = let rest = without c ds in if nat_eq d c then rest else d ∷ rest

abbrev disconnected : Bool → Option ℕ → Manager → Result (Unit {0}) × Manager
disconnected closes none m = (returned tt, m)
disconnected true (some c) m = (returned tt, record m { client = none; made = without c m.made })
disconnected false (some c) m = (raised (other_error "RedisError"), record m { client = none })

-- `disconnect`, and whether `aclose` returns.
unfoldable pub disconnect : Bool → Manager → Result (Unit {0}) × Manager
disconnect closes m = disconnected closes m.client m

-- `ping`, for what the client answers: none where it raises.
unfoldable pub ping : (ℕ → Option Bool) → Manager → Bool
ping answer m = elim m.client [
  | none ↦ false
  | some c ↦ elim (answer c) [ none ↦ false | some b ↦ b ]
]

-- `get_client`
unfoldable pub get_client : Manager → Result ℕ
get_client m = elim m.client [ none ↦ raised (other_error "RuntimeError") | some c ↦ returned c ]
