-- ===== src/Validation.antt =====
-- app/utils/validation.py and app/utils/ttl.py: size checks, and the lifetime of a key.
pub mod Keeps
use Prim.Native.String.{len}
use redgw_lite.Prelude.{
  ℕ, String, Bool, true, false, not, ◌||◌, Option, none, some, List, [], ◌∷◌, ◌⧺◌, if◌then◌else◌, ℤ,
  pos, negsuc, is_pos, int_le, show_int,
}
use redgw_lite.Python.Value.{Value, bool, equals_int, truthy}
use redgw_lite.Python.Exec.{
  Exec, Result, returned, raised, pure, raise, lift, ◌>>=◌, ◌>>◌, for_each,
}
use redgw_lite.Response.{Response, ok_ttl, error, not_found}
use redgw_lite.Settings.{DefaultsConfig}
use redgw_lite.Redis.{Command, Redis, World, execute, first_of_results, last_of_results}

-- `len(value.encode()) > max_size`: `len` counts the bytes of the UTF-8 encoding.
unfoldable pub exceeds_size : String → ℤ → Bool
exceeds_size value max_size = not (int_le (pos (len value)) max_size)

unfoldable pub check_value_size :
    {W : Type 0} → DefaultsConfig → String → String → Exec W (Unit {0})
check_value_size defaults value label =
    if exceeds_size value defaults.max_value_size
    then raise (
        error "VALUE_TOO_LARGE"
          (label ⧺ " exceeds max size (" ⧺ show_int defaults.max_value_size ⧺ " bytes)") 400)
    else pure tt

unfoldable pub check_dict_values_size :
    {W : Type 0} → DefaultsConfig → List (String × String) → Exec W (Unit {0})
check_dict_values_size defaults entries =
    for_each entries λ entry. check_value_size defaults entry.1 ("Field '" ⧺ entry.0 ⧺ "'")

unfoldable pub resolve_ttl : DefaultsConfig → Option ℤ → ℤ
resolve_ttl defaults none = defaults.ttl
resolve_ttl defaults (some ttl) = ttl

-- `if ttl > 0: pipe.expire(key, ttl) else: pipe.persist(key)`
abbrev pub expire_or_persist : String → ℤ → Command
expire_or_persist redis_key ttl =
    if is_pos ttl then Command.expire redis_key ttl else Command.persist redis_key

unfoldable pub touch_key :
    {R : Type 0} → Redis R → String → ℤ → String → String → String → Exec (World R) Response
touch_key redis redis_key ttl ns key type_name = do
  results ←
      execute redis false
        (Command.exists redis_key ∷ expire_or_persist redis_key ttl ∷ Command.ttl redis_key ∷ [])
  found ← lift (first_of_results results)
  remaining ← lift (last_of_results results)
  if not (truthy found) || equals_int remaining (negsuc 1)
      then raise (not_found key ns)
      else pure (ok_ttl (("touched", bool true) ∷ []) ns key type_name remaining)
