-- ===== src/Routers/Pubsub/Sessions.antt =====
-- All connections of a worker together: the steps that app/routers/pubsub.py takes, in any order, and
-- what holds after any of them.
use redgw_lite.Prelude.{
  ℕ, String, ◌≡◌, refl, ◌∙◌, true, Option, none, some, List, [], ◌∷◌, ◌++◌, ◌==◌, ◌⧺◌, ◌+◌, ◌-◌,
  ◌≤◌, ◌<◌, leb, length, length-append, All, arith, Bool-cases, inl, inr,
}
use redgw_lite.Python.Exec.{Result, returned, raised}
use redgw_lite.Settings.{Settings}
use redgw_lite.KeyBuilder.{validate_ns, validate_key, ns_re}
use redgw_lite.Auth.ApiKey.{ClientInfo, resolve_client}
use redgw_lite.Auth.Guard.{check_access}
use redgw_lite.Routers.Pubsub.{
  Outcome, closed, subscribed, max_ws_connections, admit, admit_valid, admit_client, subscribe,
}

-- `_ws_connection_count`, and the channels of the connections that are open.
pub record Sessions : Type 0 where
  pub count : ℕ
  pub channels : List String

abbrev pub no_sessions : Sessions
no_sessions = record { count = 0; channels = [] }

-- A connection that asks is turned away or let in, and one that is open ends, by whatever cause: the
-- `finally` of `websocket_subscribe` runs.
pub data Step (settings : Settings) : Sessions → Sessions → Type 0 where
  turned_away :
      (ns channel : String) (api_key : Option String) (s : Sessions) (code : ℕ) (reason : String)
      → (subscribe settings ns channel api_key s.count).0 ≡ closed code reason
      → Step settings s (record s { count = (subscribe settings ns channel api_key s.count).1 })
  let_in :
      (ns channel : String) (api_key : Option String) (s : Sessions) (full_channel : String)
      → (subscribe settings ns channel api_key s.count).0 ≡ subscribed full_channel
      → Step settings s (record {
        count = (subscribe settings ns channel api_key s.count).1;
        channels = full_channel ∷ s.channels;
      })
  ended :
      (count : ℕ) (before after : List String) (full_channel : String)
      → Step settings
          (record { count = count; channels = before ++ full_channel ∷ after })
          (record { count = count - 1; channels = before ++ after })

pub data Reaches (settings : Settings) : Sessions → Type 0 where
  at_start : Reaches settings no_sessions
  step_from : {s t : Sessions} → Reaches settings s → Step settings s t → Reaches settings t

-- The channel belongs to a valid namespace that a client of the settings may read.
pub data IsReadable (settings : Settings) : String → Type 0 where
  readable :
      (ns channel api_key : String) (client : ClientInfo)
      → resolve_client settings api_key ≡ some client
      → check_access client ns "read" ≡ true
      → ns_re ns ≡ true
      → IsReadable settings (ns ⧺ ":" ⧺ channel)

-- What an outcome says about the count, and about the channel.
data IsOutcome (settings : Settings) (count : ℕ) : Outcome × ℕ → Type 0 where
  is_closed : (code : ℕ) (reason : String) → IsOutcome settings count (closed code reason, count)
  is_subscribed :
      (full_channel : String)
      → IsReadable settings full_channel
      → count < max_ws_connections
      → IsOutcome settings count (subscribed full_channel, count + 1)

ns_re-validate_ns : (ns n : String) → validate_ns ns ≡ returned n → ns_re ns ≡ true
unfolding validate_ns
ns_re-validate_ns ns n h = ground arith

module _ (settings : Settings) (ns channel : String) (count : ℕ) where
  admit-IsOutcome :
      IsReadable settings (ns ⧺ ":" ⧺ channel) → IsOutcome settings count (admit ns channel count)
  unfolding admit
  admit-IsOutcome allowed = elim (Bool-cases (leb max_ws_connections count)) [
    | inl full ↦ rw full (is_closed 4029 _)
    | inr room ↦ rw room (is_subscribed _ allowed (ground (arith, room)))
  ]

  admit_valid-IsOutcome :
      (n c : Result String)
      → validate_ns ns ≡ n
      → (ns_re ns ≡ true → IsReadable settings (ns ⧺ ":" ⧺ channel))
      → IsOutcome settings count (admit_valid n c ns channel count)
  unfolding admit_valid
  admit_valid-IsOutcome (returned n) (returned c) valid allowed =
      admit-IsOutcome (allowed (ns_re-validate_ns ns n valid))
  admit_valid-IsOutcome (returned n) (raised e) valid allowed = is_closed 4002 _
  admit_valid-IsOutcome (raised e) c valid allowed = is_closed 4002 _

  admit_client-IsOutcome :
      (api_key : String) (o : Option ClientInfo)
      → resolve_client settings api_key ≡ o
      → IsOutcome settings count (admit_client o ns channel count)
  unfolding admit_client
  admit_client-IsOutcome api_key none known = is_closed 4001 _
  admit_client-IsOutcome api_key (some client) known =
      elim (Bool-cases (check_access client ns "read")) [
        | inl granted ↦ rw granted (
            admit_valid-IsOutcome (validate_ns ns) (validate_key channel) refl
              (readable ns channel api_key client known granted))
        | inr denied ↦ rw denied (is_closed 4003 _)
      ]

  subscribe-IsOutcome :
      (api_key : Option String)
      → IsOutcome settings count (subscribe settings ns channel api_key count)
  unfolding subscribe
  subscribe-IsOutcome none = is_closed 4001 _
  subscribe-IsOutcome (some api_key) = elim (Bool-cases (api_key == "")) [
    | inl empty ↦ rw empty (is_closed 4001 _)
    | inr filled ↦ rw filled (admit_client-IsOutcome api_key (resolve_client settings api_key) refl)
  ]

module _ (settings : Settings) where
  outcome_closed :
      {count : ℕ} (p : Outcome × ℕ) (code : ℕ) (reason : String)
      → IsOutcome settings count p
      → p.0 ≡ closed code reason
      → p.1 ≡ count
  outcome_closed p code reason (is_closed c r) e = refl
  outcome_closed p code reason (is_subscribed f allowed room) e = cc e

  outcome_subscribed :
      {count : ℕ} (p : Outcome × ℕ) (full_channel : String)
      → IsOutcome settings count p
      → p.0 ≡ subscribed full_channel
      → IsReadable settings full_channel × (count < max_ws_connections) × (p.1 ≡ count + 1)
  outcome_subscribed p full_channel (is_closed c r) e = cc e
  outcome_subscribed p full_channel (is_subscribed f allowed room) e =
      let same : f ≡ full_channel = cc e in (rw (← same) allowed, room, refl)

  -- The count is the number of open connections, there are at most 100, and each reads a channel that
  -- it may read.
  abbrev pub IsBounded : Sessions → Type 0
  IsBounded s =
      (s.count ≡ length s.channels)
      × (length s.channels ≤ max_ws_connections)
      × All (IsReadable settings) s.channels

  without_one :
      (before after : List String) (c : String)
      → All (IsReadable settings) (before ++ c ∷ after)
      → All (IsReadable settings) (before ++ after)
  without_one [] after c (h, hs) = hs
  without_one (b ∷ before) after c (h, hs) = (h, without_one before after c hs)

  Step-IsBounded : {s t : Sessions} → Step settings s t → IsBounded s → IsBounded t
  Step-IsBounded (turned_away ns channel api_key s code reason e) (counted, bound, allowed) =
      let same : (subscribe settings ns channel api_key s.count).1 ≡ s.count =
        outcome_closed _ code reason (subscribe-IsOutcome settings ns channel s.count api_key) e in
      (same ∙ counted, bound, allowed)
  Step-IsBounded (let_in ns channel api_key s full_channel e) (counted, bound, allowed) =
      let (reads, room, more) =
        outcome_subscribed _ full_channel (subscribe-IsOutcome settings ns channel s.count api_key)
          e in
      (omega (arith, more, counted), omega (arith, room, counted), (reads, allowed))
  Step-IsBounded (ended count before after c) (counted, bound, allowed) = (
    omega (arith, counted, length-append before (c ∷ after), length-append before after),
    omega (arith, bound, length-append before (c ∷ after), length-append before after),
    without_one before after c allowed,
  )

  -- Whatever connections ask, are let in or turned away, and end, in whatever order and from whatever
  -- clients: `_ws_connection_count` is the number of connections that are open, so that a connection
  -- that ends frees its place; there are never more than `_MAX_WS_CONNECTIONS` of them; and each is
  -- subscribed to a channel of a namespace that the client of some known API key may read.
  pub Reaches-IsBounded : {s : Sessions} → Reaches settings s → IsBounded s
  Reaches-IsBounded at_start = (refl, omega arith, tt)
  Reaches-IsBounded (step_from r step) = Step-IsBounded step (Reaches-IsBounded r)
