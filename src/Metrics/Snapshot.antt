-- ===== src/Metrics/Snapshot.antt =====
-- app/utils/metrics.py: reading the counters back, `get_metrics_async`.
use redgw_lite.Prelude.{
  ℕ, String, Bool, none, some, List, [], ◌∷◌, ◌++◌, ◌+◌, ◌*◌, ◌-◌, ◌&&◌, ℤ, pos, negate, nat_eq,
  leb, code, codes, map, all, show_nat, ◌≡◌, refl, if◌then◌else◌,
}
use redgw_lite.Python.Value.{Value, int, str, truthy}
use redgw_lite.Python.Exec.{
  Exec, Result, returned, raised, other_error, value_error, pure, lift, ◌>>=◌,
}
use redgw_lite.Redis.{World}
use redgw_lite.Auth.ApiKey.{store}
use redgw_lite.Routers.Batch.{iterate}
use redgw_lite.Routers.Admin.Server.{AdminCommand, AdminRedis, Iteration, await, iterate_keys}
use redgw_lite.Metrics.{
  total_key, latency_buckets, latency_bucket_key, latency_sum_key, latency_count_key,
}

-- The number that decimal digits stand for.
abbrev digits_value : ℕ → List ℕ → ℕ
digits_value n [] = n
digits_value n (c ∷ cs) = digits_value (n * 10 + (c - b'0')) cs

abbrev is_digit : ℕ → Bool
is_digit c = leb b'0' c && leb c b'9'

abbrev natural_of : List ℕ → Result ℕ
natural_of [] = raised (value_error "invalid literal for int()")
natural_of (c ∷ cs) =
    if all is_digit (c ∷ cs)
    then returned (digits_value 0 (c ∷ cs))
    else raised (value_error "invalid literal for int()")

abbrev negated : Result ℕ → Result ℤ
negated (returned n) = returned (negate n)
negated (raised e) = raised e

abbrev positive : Result ℕ → Result ℤ
positive (returned n) = returned (pos n)
positive (raised e) = raised e

-- `int(s)` of the texts as which Redis keeps integers: digits, with a minus sign before them or not.
unfoldable pub int_of_text : List ℕ → Result ℤ
int_of_text [] = raised (value_error "invalid literal for int()")
int_of_text (c ∷ cs) =
    if nat_eq c b'-' then negated (natural_of cs) else positive (natural_of (c ∷ cs))

-- `int(v or 0)`, of a reply: a text or nothing.
unfoldable pub int_or_zero : Value → Result ℤ
int_or_zero (str s) = if truthy (str s) then int_of_text (codes s) else returned (pos 0)
int_or_zero (int n) = returned n
int_or_zero v = if truthy v then raised (other_error "TypeError") else returned (pos 0)

abbrev after_colon : String → String → String
after_colon last String.[] = last
after_colon last (String.◌∷◌ c s) = after_colon (if nat_eq (code c) b':' then s else last) s

-- `key.rsplit(":", 1)[-1]`
unfoldable pub label_of : String → String
label_of key = after_colon key key

-- `for k, v in zip(keys, values): d[label] = int(v or 0)`
unfoldable pub labelled : List (String × ℤ) → List String → List Value → Result (List (String × ℤ))
labelled d (k ∷ ks) (v ∷ vs) = elim (int_or_zero v) [
  | returned n ↦ labelled (store (label_of k) n d) ks vs
  | raised e ↦ raised e
]
labelled d _ _ = returned d

abbrev pub all_yielded : Iteration → Result (List String)
all_yielded it = elim it.ended_by [ none ↦ returned it.yielded | some e ↦ raised e ]

-- `zip(labels, values)` of the buckets.
unfoldable pub bucket_values : List String → List Value → Result (List (String × ℤ))
bucket_values (l ∷ ls) (v ∷ vs) = elim (int_or_zero v) [
  | raised e ↦ raised e
  | returned n ↦ elim (bucket_values ls vs) [
    | raised e ↦ raised e
    | returned rest ↦ returned ((l, n) ∷ rest)
  ]
]
bucket_values _ _ = returned []

-- The dict that `get_metrics_async` returns; `uptime_seconds` and `latency.sum` are floats.
pub record Snapshot : Type 0 where
  pub total_requests : ℤ
  pub status_codes : List (String × ℤ)
  pub uptime_seconds : Value
  pub ns_requests : List (String × ℤ)
  pub client_requests : List (String × ℤ)
  pub latency_sum : Value
  pub latency_count : ℤ
  pub buckets : List (String × ℤ)
  pub auth_failures : List (String × ℤ)
  pub audit_dropped : List (String × ℤ)

abbrev pub empty_snapshot : Value → Snapshot
empty_snapshot uptime = record {
  total_requests = pos 0;
  status_codes = [];
  uptime_seconds = uptime;
  ns_requests = [];
  client_requests = [];
  latency_sum = int (pos 0);
  latency_count = pos 0;
  buckets = [];
  auth_failures = [];
  audit_dropped = [];
}

module _ {R : Type 0} (redis : AdminRedis R) where
  -- The values of some keys by label; without keys nothing is asked.
  unfoldable pub family_values : List String → Exec (World R) (List (String × ℤ))
  family_values [] = pure []
  family_values (k ∷ ks) = do
    reply ← await redis (AdminCommand.mget (k ∷ ks))
    values ← lift (iterate reply)
    lift (labelled [] (k ∷ ks) values)

  -- One of the five families of counters.
  unfoldable pub read_family : String → ℕ → Exec (World R) (List (String × ℤ))
  read_family pattern count = do
    keys ← iterate_keys redis pattern count all_yielded
    family_values keys

  -- `float(v or 0)` is a parameter, and so is the time since the start.
  module _ (float_or_zero : Value → Result Value) (uptime : Value) where
    unfoldable pub read_metrics : Exec (World R) Snapshot
    read_metrics = do
      total ← await redis (AdminCommand.get total_key)
      status_codes ← read_family "redgw:metrics:status:*" 500
      ns_requests ← read_family "redgw:metrics:ns:*" 500
      client_requests ← read_family "redgw:metrics:client:*" 500
      sum ← await redis (AdminCommand.get latency_sum_key)
      count ← await redis (AdminCommand.get latency_count_key)
      reply ← await redis (
          AdminCommand.mget (
            map (λ b. latency_bucket_key (show_nat b)) latency_buckets
            ++ latency_bucket_key "inf" ∷ []))
      values ← lift (iterate reply)
      buckets ← lift (bucket_values (map show_nat latency_buckets ++ "+Inf" ∷ []) values)
      auth_failures ← read_family "redgw:metrics:auth_failures:*" 200
      audit_dropped ← read_family "redgw:metrics:audit_dropped:*" 200
      total_requests ← lift (int_or_zero total)
      latency_sum ← lift (float_or_zero sum)
      latency_count ← lift (int_or_zero count)
      pure (record {
        total_requests = total_requests;
        status_codes = status_codes;
        uptime_seconds = uptime;
        ns_requests = ns_requests;
        client_requests = client_requests;
        latency_sum = latency_sum;
        latency_count = latency_count;
        buckets = buckets;
        auth_failures = auth_failures;
        audit_dropped = audit_dropped;
      })

    abbrev pub or_empty : Result Snapshot × World R → Result Snapshot × World R
    or_empty (returned m, w) = (returned m, w)
    or_empty (raised e, w) = (returned (empty_snapshot uptime), w)

    -- Any exception gives the empty snapshot.
    unfoldable pub get_metrics : Exec (World R) Snapshot
    get_metrics w = or_empty (read_metrics w)

label_of_status : label_of "redgw:metrics:status:404" ≡ "404"
unfolding label_of
label_of_status = refl

counted_text : int_or_zero (str "120") ≡ returned (pos 120)
unfolding int_or_zero int_of_text
counted_text = refl
