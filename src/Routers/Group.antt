-- ===== src/Routers/Group.antt =====
-- app/routers/group.py: the handlers of the Set type, under /ns/{ns}/group.
pub mod Scope
pub mod Tests
use redgw_lite.Prelude.{
  String, Bool, true, false, not, Option, List, [], ◌∷◌, ◌⧺◌, length, ℤ, pos, map, text_le,
  if◌then◌else◌,
}
use redgw_lite.Python.Value.{Value, Items, nil, cons, int, str, bool, list, truthy, normalised}
use redgw_lite.Python.Exec.{Exec, pure, raise, lift, ◌>>=◌, ◌>>◌, for_each, comprehension}
use redgw_lite.Response.{Response, ok, ok_ttl, error, not_found}
use redgw_lite.Settings.{DefaultsConfig}
use redgw_lite.KeyBuilder.{build_key, group_prefix}
use redgw_lite.Redis.{Command, Redis, World, await, execute, first_of_results, last_of_results}
use redgw_lite.Auth.ApiKey.{ClientInfo}
use redgw_lite.Auth.Guard.{require_read, require_write}
use redgw_lite.Validation.{check_value_size, resolve_ttl, touch_key, expire_or_persist}
use redgw_lite.Routers.Batch.{build_keys, paired, counted, flattened}

-- Bodies: app/schemas/group.py
pub record GroupAddRequest : Type 0 where
  pub members : List String
  pub ttl : Option ℤ

pub record GroupBatchAddRequest : Type 0 where
  pub items : List (String × List String)
  pub ttl : Option ℤ

-- `a <= b` of two members; members are texts.
member_le : Value → Value → Bool
member_le (str a) (str b) = text_le a b
member_le _ _ = true

insert_member : Value → Items → Items
insert_member v nil = cons v nil
insert_member v (cons u us) =
    if member_le v u then cons v (cons u us) else cons u (insert_member v us)

sort_members : Items → Items
sort_members nil = nil
sort_members (cons v vs) = insert_member v (sort_members vs)

-- `sorted(members)`
unfoldable pub sorted : Value → Value
unfolding sort_members insert_member member_le
sorted (list members) = list (sort_members members)
sorted v = v

-- The key of `{"inter": r.sinter, "union": r.sunion, "diff": r.sdiff}`.
pub data SetOp : Type 0 where
  inter union diff : SetOp

abbrev pub op_name : SetOp → String
op_name inter = "inter"
op_name union = "union"
op_name diff = "diff"

abbrev pub op_command : SetOp → List String → Command
op_command inter = Command.sinter
op_command union = Command.sunion
op_command diff = Command.sdiff

module _ {R : Type 0} (redis : Redis R) (defaults : DefaultsConfig) (client : ClientInfo) where
  unfoldable pub batch_get_group : String → List String → Exec (World R) Response
  batch_get_group ns body_keys = do
    require_read client ns
    redis_keys ← build_keys ns group_prefix body_keys
    results ← execute redis false (map Command.smembers redis_keys)
    pure (ok (counted "values" (paired truthy sorted body_keys results [])) ns "batch" "set")

  -- The two queued commands of one key of `batch_add_group`.
  unfoldable pub queued_sadd : String → ℤ → String × List String → Exec (World R) (List Command)
  queued_sadd ns ttl item = do
    redis_key ← lift (build_key ns group_prefix item.0)
    pure (Command.sadd redis_key item.1 ∷ expire_or_persist redis_key ttl ∷ [])

  unfoldable pub batch_add_group : String → GroupBatchAddRequest → Exec (World R) Response
  batch_add_group ns body = do
    require_write client ns
    for_each body.items (λ item. for_each item.1 (λ m. check_value_size defaults m "Member"))
    commands ← comprehension (queued_sadd ns (resolve_ttl defaults body.ttl)) body.items
    _ ← execute redis true (flattened commands)
    pure (ok (("stored", int (pos (length body.items))) ∷ []) ns "batch" "set")

  unfoldable pub add_group : String → String → GroupAddRequest → Exec (World R) Response
  add_group ns key body = do
    require_write client ns
    for_each body.members (λ m. check_value_size defaults m "Member")
    redis_key ← lift (build_key ns group_prefix key)
    let ttl = resolve_ttl defaults body.ttl
    results ← execute redis false (
        Command.sadd redis_key body.members
        ∷ expire_or_persist redis_key ttl
        ∷ Command.ttl redis_key
        ∷ [])
    remaining ← lift (last_of_results results)
    added ← lift (first_of_results results)
    pure (ok_ttl (("added", added) ∷ []) ns key "set" (normalised remaining))

  unfoldable pub members_group : String → String → Exec (World R) Response
  members_group ns key = do
    require_read client ns
    redis_key ← lift (build_key ns group_prefix key)
    members ← await redis (Command.smembers redis_key)
    pure (ok (("members", sorted members) ∷ []) ns key "set")

  unfoldable pub contains_group : String → String → String → Exec (World R) Response
  contains_group ns key member = do
    require_read client ns
    redis_key ← lift (build_key ns group_prefix key)
    found ← await redis (Command.sismember redis_key member)
    pure (ok (("member", str member) ∷ ("exists", bool (truthy found)) ∷ []) ns key "set")

  unfoldable pub delete_group : String → String → Exec (World R) Response
  delete_group ns key = do
    require_write client ns
    redis_key ← lift (build_key ns group_prefix key)
    deleted ← await redis (Command.delete redis_key)
    if not (truthy deleted)
        then raise (not_found key ns)
        else pure (ok (("deleted", bool true) ∷ []) ns key "set")

  unfoldable pub remove_group : String → String → String → Exec (World R) Response
  remove_group ns key member = do
    require_write client ns
    redis_key ← lift (build_key ns group_prefix key)
    removed ← await redis (Command.srem redis_key member)
    if not (truthy removed)
        then raise (
            error "MEMBER_NOT_FOUND" ("Member '" ⧺ member ⧺ "' not found in group '" ⧺ key ⧺ "'")
              404)
        else pure (ok (("removed", bool true) ∷ ("member", str member) ∷ []) ns key "set")

  unfoldable pub count_group : String → String → Exec (World R) Response
  count_group ns key = do
    require_read client ns
    redis_key ← lift (build_key ns group_prefix key)
    count ← await redis (Command.scard redis_key)
    pure (ok (("count", count) ∷ []) ns key "set")

  unfoldable pub touch_group : String → String → ℤ → Exec (World R) Response
  touch_group ns key ttl = do
    require_write client ns
    redis_key ← lift (build_key ns group_prefix key)
    touch_key redis redis_key ttl ns key "set"

  -- `_set_op`, and with a fixed operation `inter_groups`, `union_groups` and `diff_groups`.
  unfoldable pub set_op : SetOp → String → List String → Exec (World R) Response
  set_op op ns body_keys = do
    require_read client ns
    redis_keys ← build_keys ns group_prefix body_keys
    result ← await redis (op_command op redis_keys)
    pure (ok (("members", sorted result) ∷ []) ns ("ops:" ⧺ op_name op) "set")

-- The routes of the file, each with the parts of the request that its handler takes.
pub data GroupRequest : Type 0 where
  batch_get : List String → GroupRequest
  batch_add : GroupBatchAddRequest → GroupRequest
  add : String → GroupAddRequest → GroupRequest
  members count remove : String → GroupRequest
  contains remove_member : String → String → GroupRequest
  touch : String → ℤ → GroupRequest
  operate : SetOp → List String → GroupRequest

-- Whether the handler of a route requires "write", and not "read".
abbrev pub writes : GroupRequest → Bool
writes (batch_add body) = true
writes (add k body) = true
writes (remove k) = true
writes (remove_member k m) = true
writes (touch k ttl) = true
writes _ = false

module _ {R : Type 0} (redis : Redis R) (defaults : DefaultsConfig) (client : ClientInfo) where
  abbrev pub serve : String → GroupRequest → Exec (World R) Response
  serve ns (batch_get ks) = batch_get_group redis defaults client ns ks
  serve ns (batch_add body) = batch_add_group redis defaults client ns body
  serve ns (add key body) = add_group redis defaults client ns key body
  serve ns (members key) = members_group redis defaults client ns key
  serve ns (count key) = count_group redis defaults client ns key
  serve ns (remove key) = delete_group redis defaults client ns key
  serve ns (contains key member) = contains_group redis defaults client ns key member
  serve ns (remove_member key member) = remove_group redis defaults client ns key member
  serve ns (touch key ttl) = touch_group redis defaults client ns key ttl
  serve ns (operate op ks) = set_op redis defaults client op ns ks
