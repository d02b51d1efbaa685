-- ===== src/KeyBuilder.antt =====
-- app/utils/key_builder.py: the Redis key of a namespace, a type prefix and a user key.
mod Patterns
pub mod Roundtrip
pub mod Scan
pub mod Tests
unfoldable pub use Patterns.{is_ns_char, is_key_char, is_scan_char}
unfoldable pub use Patterns.{ns_re, key_re, scan_pattern_re}
use redgw_lite.Prelude.{
  ℕ, zero, suc, String, Bool, true, false, Option, none, some, List, [], ◌∷◌, ◌==◌, nat_eq, code,
  if◌then◌else◌, ◌⧺◌,
}
use Prim.Native.String
use mathlib.Core.Option
use redgw_lite.Python.Exec.{Result, returned, raised, Exception, value_error}
use redgw_lite.Response.{error}

abbrev pub kv_prefix : String
kv_prefix = "kv"

abbrev pub map_prefix : String
map_prefix = "map"

abbrev pub queue_prefix : String
queue_prefix = "q"

abbrev pub group_prefix : String
group_prefix = "grp"

abbrev pub rank_prefix : String
rank_prefix = "rank"

abbrev pub event_prefix : String
event_prefix = "evt"

-- `STORAGE_PREFIXES`, a frozenset
abbrev pub storage_prefixes : List String
storage_prefixes =
    kv_prefix ∷ map_prefix ∷ queue_prefix ∷ group_prefix ∷ rank_prefix ∷ event_prefix ∷ []

-- `s in xs` for a collection of texts
abbrev pub contains : String → List String → Bool
contains s [] = false
contains s (x ∷ xs) = if s == x then true else contains s xs

infixl 5 ◌>>=◌
abbrev pub ◌>>=◌ : {A B : Type 0} → Result A → (A → Result B) → Result B
returned a >>= f = f a
raised e >>= f = raised e

unfoldable pub validate_ns : String → Result String
validate_ns ns =
    if ns_re ns
    then returned ns
    else raised (
        error "INVALID_NAMESPACE"
          ("Namespace '" ⧺ ns
            ⧺ "' contains invalid characters. Allowed: A-Z, a-z, 0-9, _, - (max 64 chars)")
          400)

unfoldable pub validate_key : String → Result String
validate_key key =
    if key_re key
    then returned key
    else raised (
        error "INVALID_KEY"
          ("Key '" ⧺ key
            ⧺ "' contains invalid characters. Allowed: A-Z, a-z, 0-9, _, ., :, -, / (max 256 chars)")
          400)

-- `f"{ns}:{type_prefix}:{key}"`
unfoldable pub joined : String → String → String → String
joined ns type_prefix key = ns ⧺ ":" ⧺ type_prefix ⧺ ":" ⧺ key

unfoldable pub build_key : String → String → String → Result String
build_key ns type_prefix key = do
  _ ← validate_ns ns
  _ ← validate_key key
  returned (joined ns type_prefix key)

-- The part before the first ":" and the part behind it.
break_colon : String → Option (String × String)
break_colon String.[] = none
break_colon (String.◌∷◌ c s) =
    if nat_eq (code c) b':'
    then some ("", s)
    else Option.map (λ p. (String.◌∷◌ c p.0, p.1)) (break_colon s)

-- `s.split(":", n)`
split_colon : ℕ → String → List String
unfolding break_colon
split_colon zero s = s ∷ []
split_colon (suc n) s = elim (break_colon s) [
  | none ↦ s ∷ []
  | some (head, rest) ↦ head ∷ split_colon n rest
]

parts_of_key : String → List String → Result (String × String × String)
parts_of_key redis_key (ns ∷ prefix ∷ key ∷ []) = returned (ns, prefix, key)
parts_of_key redis_key _ = raised (value_error ("Invalid redis key format: " ⧺ redis_key))

unfoldable pub parse_key : String → Result (String × String × String)
unfolding split_colon parts_of_key
parse_key redis_key = parts_of_key redis_key (split_colon 2 redis_key)

-- `[f"{ns}:{prefix}:{_py_validate_key(k)}" for k in keys]`
validated_keys : String → String → List String → Result (List String)
validated_keys ns prefix [] = returned []
validated_keys ns prefix (k ∷ keys) = do
  valid ← validate_key k
  rest ← validated_keys ns prefix keys
  returned (joined ns prefix valid ∷ rest)

unfoldable pub build_keys_batch : String → String → List String → Result (List String)
unfolding validated_keys
build_keys_batch ns prefix keys = do _ ← validate_ns ns; validated_keys ns prefix keys

-- `TYPE_PREFIX_MAP.get(type_name)`
type_prefix_map : List (String × String)
type_prefix_map =
    ("string", kv_prefix)
    ∷ ("kv", kv_prefix)
    ∷ ("hash", map_prefix)
    ∷ ("map", map_prefix)
    ∷ ("list", queue_prefix)
    ∷ ("queue", queue_prefix)
    ∷ ("set", group_prefix)
    ∷ ("group", group_prefix)
    ∷ ("zset", rank_prefix)
    ∷ ("rank", rank_prefix)
    ∷ ("stream", event_prefix)
    ∷ ("event", event_prefix)
    ∷ (queue_prefix, queue_prefix)
    ∷ (group_prefix, group_prefix)
    ∷ (event_prefix, event_prefix)
    ∷ []

find_prefix : String → List (String × String) → Option String
find_prefix type_name [] = none
find_prefix type_name ((name, prefix) ∷ rest) =
    if name == type_name then some prefix else find_prefix type_name rest

-- The names in the message are sorted in the source.
unknown_type : String → Exception
unknown_type type_name =
    error "INVALID_TYPE"
      ("Unknown type '" ⧺ type_name
        ⧺ "'. Valid types: event, evt, group, grp, hash, kv, list, map, q, queue, rank, set, stream, string, zset")
      400

unfoldable pub resolve_type_prefix : String → Result String
unfolding type_prefix_map find_prefix unknown_type
resolve_type_prefix type_name = elim (find_prefix type_name type_prefix_map) [
  | none ↦ raised (unknown_type type_name)
  | some prefix ↦ returned prefix
]

-- `x if x else "*"` for an optional text: both `None` and "" are false.
pub or_star : Option String → String
or_star none = "*"
or_star (some s) = if s == "" then "*" else s

-- `resolve_type_prefix(type_name) if type_name else "*"`
scan_prefix : Option String → Result String
scan_prefix none = returned "*"
scan_prefix (some s) = if s == "" then returned "*" else resolve_type_prefix s

unfoldable pub build_scan_pattern : Option String → Option String → String → Result String
unfolding scan_pattern_re or_star scan_prefix
build_scan_pattern ns type_name pattern =
    if scan_pattern_re pattern
    then (do prefix ← scan_prefix type_name; returned (joined (or_star ns) prefix pattern))
    else raised
        (error "INVALID_KEY" "Invalid scan pattern: only key chars and '*'/'?' are allowed" 400)
