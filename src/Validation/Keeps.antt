-- ===== src/Validation/Keeps.antt =====
-- The checks send nothing; `touch_key` sends commands on its own key, and never reports -2.
use redgw_lite.Prelude.{String, Bool, true, false, ℤ, is_pos, List, ◌≡◌, if◌then◌else◌, arith, ◌||◌}
use redgw_lite.Python.Yields.{Yields, yields_rules}
use redgw_lite.Response.{ReportsTtl}
use redgw_lite.Settings.{DefaultsConfig}
use redgw_lite.KeyBuilder.{joined}
use redgw_lite.Redis.{Command, Redis, World}
use redgw_lite.Redis.Keeps.{Keeps, Preserved, Allowed, Keeps-execute, keeps_rules, InScope-joined}
use redgw_lite.Validation.{check_value_size, check_dict_values_size, expire_or_persist, touch_key}

module _ {R : Type 0} {P : R → Type 0} where
  pub Keeps-check_value_size :
      (defaults : DefaultsConfig) (value label : String)
      → Keeps P (check_value_size {W = World R} defaults value label)
  unfolding check_value_size
  Keeps-check_value_size defaults value label = search keeps_rules

  pub Keeps-check_dict_values_size :
      (defaults : DefaultsConfig) (entries : List (String × String))
      → Keeps P (check_dict_values_size {W = World R} defaults entries)
  unfolding check_dict_values_size
  Keeps-check_dict_values_size defaults entries = search (keeps_rules, Keeps-check_value_size)

pub Allowed-expire_or_persist :
    (ns prefix key : String) (ttl : ℤ)
    → Allowed true ns prefix (expire_or_persist (joined ns prefix key) ttl)
Allowed-expire_or_persist ns prefix key ttl = allowed (is_pos ttl)
  where
    allowed :
        (b : Bool)
        → Allowed true ns prefix (
            if b
            then Command.expire (joined ns prefix key) ttl
            else Command.persist (joined ns prefix key))
    allowed true = (InScope-joined ns prefix key, tt)
    allowed false = (InScope-joined ns prefix key, tt)

module _ {R : Type 0} {redis : Redis R} {P : R → Type 0} {ns prefix : String}
    (kept : Preserved redis P true ns prefix) where
  pub Keeps-touch_key :
      (key : String) (ttl : ℤ) (ns' key' type_name : String)
      → Keeps P (touch_key redis (joined ns prefix key) ttl ns' key' type_name)
  unfolding touch_key
  Keeps-touch_key key ttl ns' key' type_name =
      search (keeps_rules, Keeps-execute kept, Allowed-expire_or_persist) depth 12

still_there : (a b : Bool) → (a || b) ≡ false → b ≡ false
still_there a b h = ground arith

pub Yields-touch_key :
    {R : Type 0} (redis : Redis R) (redis_key : String) (ttl : ℤ) (ns key type_name : String)
    → Yields ReportsTtl (touch_key redis redis_key ttl ns key type_name)
unfolding touch_key
Yields-touch_key redis redis_key ttl ns key type_name = search (yields_rules, still_there) depth 12
