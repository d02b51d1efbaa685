-- ===== src/Audit/Origin.antt =====
-- The origin of a write: what app/audit/middleware.py stores of it under `__redgw:audit:origin:`, and
-- `admin_audit_origin` of app/routers/admin.py, which looks it up.
pub mod Found
use redgw_lite.Prelude.{
  ℕ, zero, suc, String, Bool, true, false, not, ◌&&◌, Option, none, some, List, [], ◌∷◌, ◌⧺◌, ◌==◌,
  ℤ, pos, negsuc, int_le, ltb, nat_eq, code, codes, if◌then◌else◌,
}
use Prim.Native.String
use mathlib.Core.Option
use redgw_lite.Python.Value.{Value, Fields, end, field, null, int, str, dict, is_none}
use redgw_lite.Python.Exec.{
  Exec, Result, returned, raised, other_error, pure, raise, lift, ◌>>=◌, ◌>>◌,
}
use redgw_lite.Response.{error}
use redgw_lite.KeyBuilder.{build_key, resolve_type_prefix, contains}
use redgw_lite.KeyBuilder as Keys
use redgw_lite.Redis.{World}
use redgw_lite.Auth.ApiKey.{ClientInfo, store}
use redgw_lite.Auth.Guard.{require_admin}
use redgw_lite.Routers.Admin.Server.{AdminCommand, AdminRedis, await}

-- The part before the first "/" and the part behind it.
unfoldable pub break_slash : String → Option (String × String)
break_slash String.[] = none
break_slash (String.◌∷◌ c s) =
    if nat_eq (code c) b'/'
    then some ("", s)
    else Option.map (λ p. (String.◌∷◌ c p.0, p.1)) (break_slash s)

-- `path.split("/")[n]`, none where the list is shorter.
unfoldable pub segment : ℕ → String → Option String
segment zero path = elim (break_slash path) [ none ↦ some path | some (head, rest) ↦ some head ]
segment (suc n) path = elim (break_slash path) [ none ↦ none | some (head, rest) ↦ segment n rest ]

abbrev pub without_prefix : String → String → Option String
without_prefix String.[] s = some s
without_prefix (String.◌∷◌ c p) String.[] = none
without_prefix (String.◌∷◌ c p) (String.◌∷◌ d s) =
    if nat_eq (code c) (code d) then without_prefix p s else none

-- What `[^/]+/` takes from the front.
abbrev pub named : Option (String × String) → Option String
named none = none
named (some (name, rest)) = if name == "" then none else some name

-- `extract_ns`: `^/api/v1/ns/([^/]+)/`
unfoldable pub extract_ns : String → Option String
extract_ns path = elim (without_prefix "/api/v1/ns/" path) [
  | none ↦ none
  | some rest ↦ named (break_slash rest)
]

-- `f"__redgw:audit:origin:{redis_key}"`
abbrev pub origin_key : String → String
origin_key redis_key = "__redgw:audit:origin:" ⧺ redis_key

-- `ns_val and key_val`: texts that are there and not empty.
abbrev present : Option String → Bool
present none = false
present (some s) = not (s == "")

-- Whether the origin of a request is stored.
unfoldable pub correlates : Bool → String → Option String → Option String → ℕ → Bool
correlates correlation method ns_val key_val status_code =
    correlation
    && contains method ("PUT" ∷ "POST" ∷ "DELETE" ∷ [])
    && present ns_val
    && present key_val
    && ltb status_code 400

-- The key under which the origin of a write with this path is stored: none where the path is too short.
unfoldable pub stored_key : String → String → String → Result (Option String)
stored_key path ns_val key_val = elim (segment 5 path) [
  | none ↦ returned none
  | some type_token ↦ Keys.◌>>=◌ (resolve_type_prefix type_token) λ type_prefix.
      Keys.◌>>=◌ (build_key ns_val type_prefix key_val)
        λ redis_key. returned (some (origin_key redis_key))
]

-- `r.set(origin_key, origin_value, ex=…)`; what it raises is dropped.
pub record OriginRedis (R : Type 0) : Type 0 where
  pub set_ex : String → String → ℤ → R → R

abbrev store_at : {R : Type 0} → OriginRedis R → Result (Option String) → String → ℤ → R → R
store_at redis (returned (some key)) value ex r = redis.set_ex key value ex r
store_at redis (returned none) value ex r = r
store_at redis (raised e) value ex r = r

abbrev text_or_empty : Option String → String
text_or_empty none = ""
text_or_empty (some s) = s

-- The end of a recorded request, from `ns_val = record.get("ns")` on. `key_val` is the route's
-- parameter with the name key, and `origin_value` the text with the identifiers and the time.
unfoldable pub store_origin :
    {R : Type 0} → OriginRedis R → Bool → ℤ → String → String → Option String → ℕ → String → R → R
store_origin redis correlation ex method path key_val status_code origin_value r =
    if correlates correlation method (extract_ns path) key_val status_code
    then store_at redis (stored_key path (text_or_empty (extract_ns path)) (text_or_empty key_val))
        origin_value ex r
    else r

abbrev pub entries_of : Fields → List (String × Value)
entries_of end = []
entries_of (field k v r) = (k, v) ∷ entries_of r

-- `payload[k] = v` raises a TypeError where the payload is no dict.
abbrev pub as_dict : Value → Result (List (String × Value))
as_dict (dict d) = returned (entries_of d)
as_dict _ = raised (other_error "TypeError")

-- `ttl if ttl >= 0 else None`
abbrev pub ttl_seconds : Value → Result Value
ttl_seconds (int n) = returned (if int_le (pos 0) n then int n else null)
ttl_seconds _ = raised (other_error "TypeError")

-- `json.loads(raw)`, which is none on a text that is no JSON, and what stands in for it then.
unfoldable pub payload_of : (String → Option Value) → Value → Result Value
payload_of loads (str raw) = elim (loads raw) [
  | none ↦ returned (dict (field "raw" (str raw) end))
  | some payload ↦ returned payload
]
payload_of loads raw = raised (other_error "TypeError")

unfoldable pub admin_audit_origin :
    {R : Type 0}
    → AdminRedis R
    → (String → Option Value)
    → ClientInfo
    → String
    → String
    → String
    → Exec (World R) (List (String × Value))
admin_audit_origin redis loads client ns type key = do
  require_admin client
  type_prefix ← lift (resolve_type_prefix type)
  redis_key ← lift (build_key ns type_prefix key)
  raw ← await redis (AdminCommand.get (origin_key redis_key))
  if is_none raw
      then raise (
          error "KEY_NOT_FOUND"
            ("No audit origin for " ⧺ ns ⧺ ":" ⧺ type_prefix ⧺ ":" ⧺ key
              ⧺ " (correlation disabled or expired)")
            404)
      else (do
        payload ← lift (payload_of loads raw)
        ttl ← await redis (AdminCommand.ttl (origin_key redis_key))
        seconds ← lift (ttl_seconds ttl)
        entries ← lift (as_dict payload)
        pure (store "redis_key" (str redis_key) (store "ttl_seconds" seconds entries)))
