-- ===== src/Routers/Rank.antt =====
-- app/routers/rank.py: the handlers of the Sorted Set type, under /ns/{ns}/rank.
pub mod Scope
pub mod Tests
pub mod Scores
pub mod Replies
use redgw_lite.Prelude.{
  String, Bool, true, false, not, Option, List, [], ◌∷◌, ◌⧺◌, length, ℤ, pos, map, if◌then◌else◌,
}
use redgw_lite.Python.Value.{
  Value, Float, isfinite, Items, nil, cons, int, float, str, bool, list, dict, items_of, values_of,
  fields_of, is_none, truthy, normalised,
}
use redgw_lite.Python.Exec.{
  Exec, Result, returned, raised, value_error, pure, raise, lift, ◌>>=◌, ◌>>◌, for_each,
}
use redgw_lite.Response.{Response, ok, ok_ttl, error, not_found}
use redgw_lite.Settings.{DefaultsConfig}
use redgw_lite.KeyBuilder.{build_key, rank_prefix}
use redgw_lite.Redis.{
  Command, Redis, World, await, execute, first_of_results, last_of_results, unpack_two, rescue,
}
use redgw_lite.Auth.ApiKey.{ClientInfo, store}
use redgw_lite.Auth.Guard.{require_read, require_write}
use redgw_lite.Validation.{check_value_size, resolve_ttl, touch_key, expire_or_persist}
use redgw_lite.Routers.Batch.{build_keys, iterate, counted}
use redgw_lite.Routers.Rank.Replies.{RankMemberScore, scores_of, ranked, score_mapping, first_pair}

-- Bodies: app/schemas/rank.py
pub record RankAddRequest : Type 0 where
  pub member : String
  pub score : Float
  pub ttl : Option ℤ

pub record RankBatchAddRequest : Type 0 where
  pub members : List RankMemberScore
  pub ttl : Option ℤ

pub record RankBatchGetRequest : Type 0 where
  pub keys : List String
  pub start : ℤ
  pub stop : ℤ
  pub reverse : Bool

-- `raise error("INVALID_VALUE", message)`
abbrev pub invalid_value : {W A : Type 0} → String → Exec W A
invalid_value message = raise (error "INVALID_VALUE" message 400)

-- `if not math.isfinite(x): raise …`
unfoldable pub check_finite : {W : Type 0} → Float → String → Exec W (Unit {0})
check_finite x message = if not (isfinite x) then invalid_value message else pure tt

abbrev pub score_message : String
score_message = "Score must be a finite number (nan/inf rejected)"

module _ {R : Type 0} (redis : Redis R) (defaults : DefaultsConfig) (client : ClientInfo) where
  abbrev pub range_command : Bool → ℤ → ℤ → String → Command
  range_command true start stop redis_key = Command.zrevrange redis_key start stop
  range_command false start stop redis_key = Command.zrange redis_key start stop

  unfoldable pub batch_get_rank : String → RankBatchGetRequest → Exec (World R) Response
  batch_get_rank ns body = do
    require_read client ns
    redis_keys ← build_keys ns rank_prefix body.keys
    results ← execute redis false (map (range_command body.reverse body.start body.stop) redis_keys)
    values ← lift (ranked body.keys results [])
    pure (ok (counted "values" values) ns "batch" "zset")

  -- `zadd`, the lifetime and its report, with a refusal by Redis as INVALID_VALUE.
  unfoldable pub zadd_timed : String → List (String × Float) → ℤ → Exec (World R) (List Value)
  zadd_timed redis_key mapping ttl =
      rescue
        (execute redis false (
          Command.zadd redis_key mapping
          ∷ expire_or_persist redis_key ttl
          ∷ Command.ttl redis_key
          ∷ []))
        (λ _. invalid_value "Score is not a valid number (nan)")

  unfoldable pub batch_add_rank : String → String → RankBatchAddRequest → Exec (World R) Response
  unfolding zadd_timed
  batch_add_rank ns key body = do
    require_write client ns
    for_each body.members (λ item. do
      check_value_size defaults item.member "Member"
      check_finite item.score score_message)
    redis_key ← lift (build_key ns rank_prefix key)
    results ← zadd_timed redis_key (score_mapping body.members []) (resolve_ttl defaults body.ttl)
    remaining ← lift (last_of_results results)
    added ← lift (first_of_results results)
    pure (
        ok_ttl (("added", added) ∷ ("total", int (pos (length body.members))) ∷ []) ns key "zset"
          (normalised remaining))

  unfoldable pub add_rank : String → String → RankAddRequest → Exec (World R) Response
  unfolding zadd_timed
  add_rank ns key body = do
    require_write client ns
    check_value_size defaults body.member "Member"
    check_finite body.score score_message
    redis_key ← lift (build_key ns rank_prefix key)
    results ← zadd_timed redis_key ((body.member, body.score) ∷ []) (resolve_ttl defaults body.ttl)
    remaining ← lift (last_of_results results)
    added ← lift (first_of_results results)
    pure (
        ok_ttl (("added", added) ∷ ("member", str body.member) ∷ ("score", float body.score) ∷ [])
          ns key "zset" (normalised remaining))

  -- `members = [...]; return ok({"members": members, "count": len(members)}, …)`
  unfoldable pub members_response : String → String → Value → Exec (World R) Response
  members_response ns key results = do
    members ← lift (scores_of results)
    pure (
        ok (("members", list (items_of members)) ∷ ("count", int (pos (length members))) ∷ []) ns
          key "zset")

  unfoldable pub range_rank : String → String → ℤ → ℤ → Bool → Exec (World R) Response
  unfolding members_response
  range_rank ns key start stop reverse = do
    require_read client ns
    redis_key ← lift (build_key ns rank_prefix key)
    results ← await redis (range_command reverse start stop redis_key)
    members_response ns key results

  -- `raise error("MEMBER_NOT_FOUND", …)`
  abbrev pub member_not_found : String → String → Exec (World R) Response
  member_not_found key member =
      raise
        (error "MEMBER_NOT_FOUND" ("Member '" ⧺ member ⧺ "' not found in rank '" ⧺ key ⧺ "'") 404)

  unfoldable pub score_rank : String → String → String → Exec (World R) Response
  score_rank ns key member = do
    require_read client ns
    redis_key ← lift (build_key ns rank_prefix key)
    score ← await redis (Command.zscore redis_key member)
    if is_none score
        then member_not_found key member
        else pure (ok (("member", str member) ∷ ("score", score) ∷ []) ns key "zset")

  unfoldable pub between_rank : String → String → Float → Float → Exec (World R) Response
  unfolding members_response
  between_rank ns key min max = do
    require_read client ns
    redis_key ← lift (build_key ns rank_prefix key)
    results ←
        rescue (await redis (Command.zrangebyscore redis_key min max))
          (λ _. invalid_value "Score range bound is not a valid number (nan)")
    members_response ns key results

  unfoldable pub delete_rank : String → String → Exec (World R) Response
  delete_rank ns key = do
    require_write client ns
    redis_key ← lift (build_key ns rank_prefix key)
    deleted ← await redis (Command.delete redis_key)
    if not (truthy deleted)
        then raise (not_found key ns)
        else pure (ok (("deleted", bool true) ∷ []) ns key "zset")

  unfoldable pub remove_rank : String → String → String → Exec (World R) Response
  remove_rank ns key member = do
    require_write client ns
    redis_key ← lift (build_key ns rank_prefix key)
    removed ← await redis (Command.zrem redis_key member)
    if not (truthy removed)
        then member_not_found key member
        else pure (ok (("removed", bool true) ∷ ("member", str member) ∷ []) ns key "zset")

  unfoldable pub incr_rank : String → String → String → Float → Exec (World R) Response
  incr_rank ns key member delta = do
    require_write client ns
    check_value_size defaults member "Member"
    check_finite delta "Delta must be a finite number (nan/inf rejected)"
    redis_key ← lift (build_key ns rank_prefix key)
    results ←
        rescue
          (execute redis false
            (Command.zincrby redis_key delta member ∷ Command.ttl redis_key ∷ []))
          (λ _. invalid_value "Resulting score is not a number (nan) or out of range")
    pair ← lift (unpack_two results)
    pure
        (ok_ttl (("member", str member) ∷ ("score", pair.0) ∷ []) ns key "zset" (normalised pair.1))

  unfoldable pub touch_rank : String → String → ℤ → Exec (World R) Response
  touch_rank ns key ttl = do
    require_write client ns
    redis_key ← lift (build_key ns rank_prefix key)
    touch_key redis redis_key ttl ns key "zset"

  abbrev pub pop_command : Bool → String → Command
  pop_command true redis_key = Command.zpopmax redis_key
  pop_command false redis_key = Command.zpopmin redis_key

  unfoldable pub pop_rank : String → String → Bool → Exec (World R) Response
  pop_rank ns key greatest = do
    require_write client ns
    redis_key ← lift (build_key ns rank_prefix key)
    result ← await redis (pop_command greatest redis_key)
    if not (truthy result)
        then raise (error "RANK_EMPTY" ("Rank '" ⧺ key ⧺ "' is empty") 404)
        else (do
          pair ← lift (first_pair result)
          pure (ok (("member", pair.0) ∷ ("score", pair.1) ∷ []) ns key "zset"))

-- The routes of the file, each with the parts of the request that its handler takes.
pub data RankRequest : Type 0 where
  batch_get : RankBatchGetRequest → RankRequest
  batch_add : String → RankBatchAddRequest → RankRequest
  add : String → RankAddRequest → RankRequest
  range : String → ℤ → ℤ → Bool → RankRequest
  score remove_member : String → String → RankRequest
  between : String → Float → Float → RankRequest
  remove : String → RankRequest
  incr : String → String → Float → RankRequest
  touch : String → ℤ → RankRequest
  pop : String → Bool → RankRequest

-- Whether the handler of a route requires "write", and not "read".
abbrev pub writes : RankRequest → Bool
writes (batch_get body) = false
writes (range k a b r) = false
writes (score k m) = false
writes (between k a b) = false
writes _ = true

module _ {R : Type 0} (redis : Redis R) (defaults : DefaultsConfig) (client : ClientInfo) where
  abbrev pub serve : String → RankRequest → Exec (World R) Response
  serve ns (batch_get body) = batch_get_rank redis defaults client ns body
  serve ns (batch_add key body) = batch_add_rank redis defaults client ns key body
  serve ns (add key body) = add_rank redis defaults client ns key body
  serve ns (range key start stop reverse) =
      range_rank redis defaults client ns key start stop reverse
  serve ns (score key member) = score_rank redis defaults client ns key member
  serve ns (remove_member key member) = remove_rank redis defaults client ns key member
  serve ns (between key min max) = between_rank redis defaults client ns key min max
  serve ns (remove key) = delete_rank redis defaults client ns key
  serve ns (incr key member delta) = incr_rank redis defaults client ns key member delta
  serve ns (touch key ttl) = touch_rank redis defaults client ns key ttl
  serve ns (pop key greatest) = pop_rank redis defaults client ns key greatest
