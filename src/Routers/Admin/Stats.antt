-- ===== src/Routers/Admin/Stats.antt =====
-- app/routers/admin.py: the keys of each namespace, in `get_stats` and in `_get_ns_counts_cached`.
pub mod Counts
use redgw_lite.Prelude.{
  ℕ, String, Bool, true, false, Option, none, some, List, [], ◌∷◌, ◌+◌, ◌-◌, pos, leb, ltb, map,
  if◌then◌else◌,
}
use redgw_lite.Python.Value.{Value, int, bool, str, dict, fields_of}
use redgw_lite.Python.Exec.{Exec, Exception, Result, returned, raised, pure, lift, ◌>>=◌}
use redgw_lite.Response.{Response, ok_simple}
use redgw_lite.KeyBuilder.{contains, storage_prefixes, parse_key}
use redgw_lite.Redis.{World}
use redgw_lite.Auth.ApiKey.{lookup, store}
use redgw_lite.Routers.Admin.Server.{AdminRedis, Iteration, await_info, iterate_keys}

-- `d.get(k, default)`
abbrev pub get_or {ℓ} : {V : Type ℓ} → V → Option V → V
get_or default none = default
get_or default (some v) = v

-- The entry of one namespace in `ns_stats`.
pub record NsStats : Type 0 where
  pub total_keys : ℕ
  pub by_type : List (String × ℕ)

abbrev pub no_keys : NsStats
no_keys = record { total_keys = 0; by_type = [] }

-- `d[k] = d.get(k, 0) + 1`
unfoldable pub bump : String → List (String × ℕ) → List (String × ℕ)
bump k d = store k (get_or 0 (lookup k d) + 1) d

unfoldable pub add_key : String → NsStats → NsStats
add_key prefix s = record { total_keys = s.total_keys + 1; by_type = bump prefix s.by_type }

-- The namespace and the storage prefix of a key; none where `parse_key` raises a ValueError, or where
-- the prefix is none of `STORAGE_PREFIXES`.
unfoldable pub place_of : String → Option (String × String)
place_of redis_key = elim (parse_key redis_key) [
  | returned (ns, prefix, key) ↦
      if contains prefix storage_prefixes then some (ns, prefix) else none
  | raised e ↦ none
]

-- What a round does to `ns_stats` and to `ns_counts`.
unfoldable pub stats_round :
    Option (String × String) → List (String × NsStats) → List (String × NsStats)
stats_round none d = d
stats_round (some (ns, prefix)) d = store ns (add_key prefix (get_or no_keys (lookup ns d))) d

unfoldable pub counts_round : Option (String × String) → List (String × ℕ) → List (String × ℕ)
counts_round none d = d
counts_round (some (ns, prefix)) d = bump ns d

-- The loops of both: each key counts as scanned, and at the limit the loop breaks.
unfoldable pub scan_up_to :
    {S : Type 0}
    → (Option (String × String) → S → S)
    → ℕ
    → ℕ
    → S
    → Option Exception
    → List String
    → Result (S × ℕ)
scan_up_to round limit scanned s ended [] = elim ended [
  | none ↦ returned (s, scanned)
  | some e ↦ raised e
]
scan_up_to round limit scanned s ended (k ∷ ks) =
    let rest = scan_up_to round limit (scanned + 1) (round (place_of k) s) ended ks in
    if leb limit (scanned + 1) then returned (round (place_of k) s, scanned + 1) else rest

abbrev pub counts_value : List (String × ℕ) → List (String × Value)
counts_value d = map (λ e. (e.0, int (pos e.1))) d

abbrev pub stats_value : List (String × NsStats) → List (String × Value)
stats_value d =
    map
      (λ e. (
        e.0,
        dict (
            fields_of (
              ("total_keys", int (pos e.1.total_keys))
              ∷ ("by_type", dict (fields_of (counts_value e.1.by_type)))
              ∷ [])),
      ))
      d

-- What `get_stats` answers.
abbrev pub stats_response : List (String × Value) → List (String × NsStats) → ℕ → ℕ → Response
stats_response info ns_stats scanned limit = ok_simple (
    (
      "redis_memory",
      dict (
          fields_of (
            ("used_memory_human", get_or (str "N/A") (lookup "used_memory_human" info))
            ∷ ("used_memory_peak_human", get_or (str "N/A") (lookup "used_memory_peak_human" info))
            ∷ [])),
    )
    ∷ ("namespaces", dict (fields_of (stats_value ns_stats)))
    ∷ ("scanned_keys", int (pos scanned))
    ∷ ("truncated", bool (leb limit scanned))
    ∷ [])

-- `_ns_counts_cache` and `_ns_counts_ts`; times are microseconds.
pub record CountsCache : Type 0 where
  pub counts : List (String × ℕ)
  pub ts : ℕ

abbrev pub counts_ttl : ℕ
counts_ttl = 30000000

abbrev pub counts_limit : ℕ
counts_limit = 5000

module _ {R : Type 0} (redis : AdminRedis R) where
  -- Any client may ask.
  unfoldable pub get_stats : ℕ → Exec (World R) Response
  get_stats limit = do
    info ← await_info redis "memory"
    found ←
        iterate_keys redis "*" 500 (λ it. scan_up_to stats_round limit 0 [] it.ended_by it.yielded)
    pure (stats_response info found.0 found.1 limit)

  -- The clock may go back, and then the cache is fresh: `-` stops at 0, where Python's is negative.
  unfoldable pub get_ns_counts_cached :
      CountsCache → ℕ → Exec (World R) (List (String × ℕ) × CountsCache)
  get_ns_counts_cached cache now =
      if ltb (now - cache.ts) counts_ttl then pure (cache.counts, cache) else (do
        found ←
            iterate_keys redis "*" 500
              (λ it. scan_up_to counts_round counts_limit 0 [] it.ended_by it.yielded)
        pure (found.0, record { counts = found.0; ts = now }))
