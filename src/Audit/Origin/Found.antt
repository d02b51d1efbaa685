-- ===== src/Audit/Origin/Found.antt =====
-- The administrator finds the origin of a write: app/audit/middleware.py and app/routers/admin.py.
use text.Mathlib.TextLemmas.{nil-append, cons-append, append_assoc}
use redgw_lite.Prelude.{
  ℕ, suc, String, ◌≡◌, ◌≢◌, refl, sym, ap, ◌∙◌, true, some, Option, ◌⧺◌, ◌==◌, ℤ, arith, eq_iff,
  code,
}
use redgw_lite.Python.Value.{Value, Fields, dict, str, int}
use redgw_lite.Python.Exec.{returned, ◌>>=◌}
use redgw_lite.KeyBuilder.{build_key, resolve_type_prefix}
use redgw_lite.Redis.{World}
use redgw_lite.Auth.ApiKey.{ClientInfo, store}
use redgw_lite.Auth.Guard.{require_admin}
use redgw_lite.Routers.Admin.Server.{AdminCommand, AdminRedis, await}
use redgw_lite.Audit.Origin.{
  break_slash, segment, without_prefix, extract_ns, origin_key, correlates, stored_key, OriginRedis,
  store_origin, entries_of, ttl_seconds, payload_of, admin_audit_origin,
}

abbrev pub NoSlash : String → Type 0
NoSlash String.[] = Unit
NoSlash (String.◌∷◌ c s) = (code c ≢ b'/') × NoSlash s

break_slash-append : (s t : String) → NoSlash s → break_slash (s ⧺ "/" ⧺ t) ≡ some (s, t)
unfolding break_slash
break_slash-append String.[] t h = rw (nil-append, cons-append, nil-append)
break_slash-append (String.◌∷◌ c s) t (h, hs) =
    rw cons-append (ground (arith, break_slash-append s t hs))

without_prefix-append : (p s : String) → without_prefix p (p ⧺ s) ≡ some s
without_prefix-append String.[] s = rw nil-append
without_prefix-append (String.◌∷◌ c p) s =
    rw cons-append (ground (arith, without_prefix-append p s))

-- The path of a request on a key of a namespace; `tail` is the key and what the route has behind it.
abbrev pub data_path : String → String → String → String
data_path ns type_token tail = "/api/v1/ns/" ⧺ ns ⧺ "/" ⧺ type_token ⧺ "/" ⧺ tail

extract_ns-data_path :
    (ns rest : String)
    → NoSlash ns
    → ns ≢ ""
    → extract_ns ("/api/v1/ns/" ⧺ ns ⧺ "/" ⧺ rest) ≡ some ns
unfolding extract_ns
extract_ns-data_path ns rest plain named =
    rw
      (
        extract_ns,
        without_prefix-append "/api/v1/ns/" (ns ⧺ "/" ⧺ rest),
        break_slash-append ns rest plain,
      )
      (ground (arith, eq_iff ns ""))

segment_zero : (s t : String) → NoSlash s → segment 0 (s ⧺ "/" ⧺ t) ≡ some s
unfolding segment
segment_zero s t plain = rw (break_slash-append s t plain, segment)

segment_next : (n : ℕ) (s t : String) → NoSlash s → segment (suc n) (s ⧺ "/" ⧺ t) ≡ segment n t
unfolding segment
segment_next n s t plain = rw (break_slash-append s t plain, segment)

start_segments :
    (s : String) → "/api/v1/ns/" ⧺ s ≡ "" ⧺ "/" ⧺ "api" ⧺ "/" ⧺ "v1" ⧺ "/" ⧺ "ns" ⧺ "/" ⧺ s
start_segments s =
    let after_ns = "/" ⧺ s in
    let after_v1 = "/" ⧺ "ns" ⧺ after_ns in
    let after_api = "/" ⧺ "v1" ⧺ after_v1 in
    append_assoc "/api/v1/ns" "/" s
    ∙ append_assoc "/api/v1/" "ns" after_ns
    ∙ append_assoc "/api/v1" "/" ("ns" ⧺ after_ns)
    ∙ append_assoc "/api/" "v1" after_v1
    ∙ append_assoc "/api" "/" ("v1" ⧺ after_v1)
    ∙ append_assoc "/" "api" after_api
    ∙ sym (nil-append ("/" ⧺ "api" ⧺ after_api))

segment-data_path :
    (ns type_token tail : String)
    → NoSlash ns
    → NoSlash type_token
    → segment 5 (data_path ns type_token tail) ≡ some type_token
segment-data_path ns type_token tail plain plain' =
    ap (segment 5) (start_segments (ns ⧺ "/" ⧺ type_token ⧺ "/" ⧺ tail))
    ∙ segment_next 4 "" _ tt
    ∙ segment_next 3 "api" _ (omega arith)
    ∙ segment_next 2 "v1" _ (omega arith)
    ∙ segment_next 1 "ns" _ (omega arith)
    ∙ segment_next 0 ns _ plain
    ∙ segment_zero type_token tail plain'

module _ {R : Type 0} (redis : AdminRedis R) (writer : OriginRedis R)
    (loads : String → Option Value) (client : ClientInfo)
    -- What was stored is read, and TTL answers with a number.
    (kept : (k v : String) (ex : ℤ) (r : R)
      → redis.call (AdminCommand.get k) (writer.set_ex k v ex r)
        ≡ (returned (str v), writer.set_ex k v ex r))
    (lifetime : (k : String) (r : R)
      → (n : ℤ) × ((redis.call (AdminCommand.ttl k) r).0 ≡ returned (int n))) where
  read_payload :
      (value : String) (payload : Fields)
      → loads value ≡ some (dict payload)
      → payload_of loads (str value) ≡ returned (dict payload)
  unfolding payload_of
  read_payload value payload parsed = rw (parsed, payload_of)

  module _ (ns type_token type prefix key redis_key : String)
      (resolved : resolve_type_prefix type_token ≡ returned prefix)
      (same_type : resolve_type_prefix type ≡ returned prefix)
      (built : build_key ns prefix key ≡ returned redis_key) where
    stored_key_lem :
        (tail : String)
        → NoSlash ns
        → NoSlash type_token
        → stored_key (data_path ns type_token tail) ns key ≡ returned (some (origin_key redis_key))
    unfolding stored_key
    stored_key_lem tail plain plain' =
        rw (stored_key, segment-data_path ns type_token tail plain plain', resolved, built)

    store_origin_lem :
        (ex : ℤ) (method tail value : String) (status : ℕ) (r : R)
        → NoSlash ns
        → NoSlash type_token
        → correlates true method (some ns) (some key) status ≡ true
        → ns ≢ ""
        → store_origin writer true ex method
            (data_path ns type_token tail)
            (some key)
            status
            value
            r
          ≡ writer.set_ex (origin_key redis_key) value ex r
    unfolding store_origin
    store_origin_lem ex method tail value status r plain plain' allowed named = rw (
      store_origin,
      extract_ns-data_path ns (type_token ⧺ "/" ⧺ tail) plain named,
      allowed,
      stored_key_lem tail plain plain',
    )

    pub admin_audit_origin-store_origin :
        (ex : ℤ) (method tail value : String) (status : ℕ) (payload : Fields) (w : World R)
        → (client.client_id == "admin") ≡ true
        → NoSlash ns
        → NoSlash type_token
        → ns ≢ ""
        → correlates true method (some ns) (some key) status ≡ true
        → loads value ≡ some (dict payload)
        → (n : ℤ) × (seconds : Value) × (ttl_seconds (int n) ≡ returned seconds)
          × ((admin_audit_origin redis loads client ns type key (record w {
            redis =
                store_origin writer true ex method
                  (data_path ns type_token tail)
                  (some key)
                  status
                  value
                  w.redis;
          })).0
              ≡ returned (
                  store "redis_key"
                    (str redis_key)
                    (store "ttl_seconds" seconds (entries_of payload))))
    unfolding admin_audit_origin require_admin await ◌>>=◌
    admin_audit_origin-store_origin ex method tail value status payload w admin plain plain' named
          allowed parsed =
        let r = writer.set_ex (origin_key redis_key) value ex w.redis in
        let (n, answered) = lifetime (origin_key redis_key) r in
        (
          n,
          _,
          refl,
          rw (
            store_origin_lem ex method tail value status w.redis plain plain' allowed named,
            admin,
            same_type,
            built,
            kept (origin_key redis_key) value ex w.redis,
            read_payload value payload parsed,
            answered,
          ),
        )
