-- ===== src/Routers/Admin.antt =====
-- app/routers/admin.py: the handlers on keys, for administrators and for monitoring.
pub mod Server
pub mod Stats
pub mod Clients
pub mod Bulk
pub mod Keyspace
pub mod Prometheus
pub mod Requests
pub mod Spared
pub mod Scope
pub mod Rights
pub mod Tests
use redgw_lite.Prelude.{
  ℕ, zero, suc, String, Bool, true, false, not, Option, none, some, List, [], ◌∷◌, ◌++◌, ◌==◌, ◌⧺◌,
  ◌+◌, ℤ, pos, int_eq, int_le, is_pos, leb, length, select, take, drop, sorted_texts, if◌then◌else◌,
}
use redgw_lite.Python.Value.{Value, null, int, bool, str, list, texts, truthy, is_none, equals_text}
use redgw_lite.Python.Exec.{
  Exec, Exception, value_error, other_error, Result, returned, raised, pure, raise, lift, ◌>>=◌,
  ◌>>◌,
}
use redgw_lite.Response.{Response, ok_simple, error}
use redgw_lite.KeyBuilder.{
  contains, storage_prefixes, build_key, build_scan_pattern, parse_key, resolve_type_prefix,
  validate_ns,
}
use redgw_lite.Redis.{World}
use redgw_lite.Auth.ApiKey.{ClientInfo, store}
use redgw_lite.Auth.Guard.{require_admin, require_read}
use redgw_lite.Routers.Admin.Server.{
  AdminCommand, AdminRedis, Iteration, await, await_scan, iterate_keys,
}

-- `_is_storage_key`: `parse_key` raises nothing but a ValueError.
unfoldable pub is_storage_key : String → Bool
is_storage_key redis_key = elim (parse_key redis_key) [
  | returned (ns, prefix, key) ↦ contains prefix storage_prefixes
  | raised e ↦ false
]

abbrev pub key_not_found : String → Exception
key_not_found redis_key = error "KEY_NOT_FOUND" ("Key not found: " ⧺ redis_key) 404

-- The most keys that one call deletes, and the most of one DEL.
abbrev pub max_bulk : ℕ
max_bulk = 10000

abbrev pub batch_size : ℕ
batch_size = 100

-- The loop of `bulk_delete_keys`: `keys_to_delete` and `truncated`.
unfoldable pub collect : List String → Option Exception → List String → Result (List String × Bool)
collect acc ended [] = elim ended [ none ↦ returned (acc, false) | some e ↦ raised e ]
collect acc ended (k ∷ ks) =
    let skipped = collect acc ended ks in
    let kept = collect (acc ++ k ∷ []) ended ks in
    if not (is_storage_key k)
    then skipped
    else if leb max_bulk (length acc)
    then returned (acc, true)
    else kept

-- `keys_to_delete[i:i + 100]` for `i` in steps of 100: on fuel, one round for each batch.
unfoldable pub batches : ℕ → List String → List (List String)
batches zero ks = []
batches (suc fuel) [] = []
batches (suc fuel) (k ∷ ks) = take batch_size (k ∷ ks) ∷ batches fuel (drop batch_size (k ∷ ks))

-- `deleted += reply`
abbrev pub add_reply : ℕ → Value → Result ℕ
add_reply deleted (int (pos n)) = returned (deleted + n)
add_reply deleted _ = raised (other_error "TypeError")

-- The query of `bulk_delete_keys`.
pub record BulkQuery : Type 0 where
  pub ns : String
  pub type : Option String
  pub pattern : String
  pub dry_run : Bool

-- The query of `list_keys`.
pub record ListQuery : Type 0 where
  pub ns : Option String
  pub type : Option String
  pub pattern : String
  pub cursor : ℤ
  pub count : ℕ

module _ {R : Type 0} (redis : AdminRedis R) (client : ClientInfo) where
  -- `if ns: validate_ns(ns); require_read(client, ns)`
  unfoldable pub check_listed : Option String → Exec (World R) (Unit {0})
  check_listed none = pure tt
  check_listed (some ns) =
      if ns == "" then pure tt else (do _ ← lift (validate_ns ns); require_read client ns)

  unfoldable pub list_keys : ListQuery → Exec (World R) Response
  unfolding check_listed
  list_keys q = do
    check_listed q.ns
    search_pattern ← lift (build_scan_pattern q.ns q.type q.pattern)
    found ← await_scan redis q.cursor search_pattern q.count
    let user_keys = select is_storage_key found.1
    pure (
        ok_simple (
          ("keys", list (texts (sorted_texts user_keys)))
          ∷ ("count", int (pos (length user_keys)))
          ∷ ("cursor", int found.0)
          ∷ ("has_more", bool (not (int_eq found.0 (pos 0))))
          ∷ []))

  sized : String → AdminCommand → Exec (World R) (List (String × Value))
  sized name c = do size ← await redis c; pure ((name, size) ∷ [])

  -- The size of a key, by its type.
  unfoldable pub size_info : Value → String → Exec (World R) (List (String × Value))
  unfolding sized
  size_info key_type redis_key =
      if equals_text key_type "string"
      then sized "length" (AdminCommand.strlen redis_key)
      else if equals_text key_type "hash"
      then sized "field_count" (AdminCommand.hlen redis_key)
      else if equals_text key_type "list"
      then sized "length" (AdminCommand.llen redis_key)
      else if equals_text key_type "set"
      then sized "member_count" (AdminCommand.scard redis_key)
      else if equals_text key_type "zset"
      then sized "member_count" (AdminCommand.zcard redis_key)
      else if equals_text key_type "stream"
      then sized "length" (AdminCommand.xlen redis_key)
      else pure []

  unfoldable pub key_info : String → String → String → Exec (World R) Response
  unfolding size_info
  key_info ns type key = do
    require_read client ns
    prefix ← lift (resolve_type_prefix type)
    redis_key ← lift (build_key ns prefix key)
    key_type ← await redis (AdminCommand.type_of redis_key)
    if equals_text key_type "none" then raise (key_not_found redis_key) else (do
      ttl ← await redis (AdminCommand.ttl redis_key)
      encoding ← await redis (AdminCommand.object_encoding redis_key)
      size ← size_info key_type redis_key
      pure (
          ok_simple (
            ("redis_key", str redis_key)
            ∷ ("type", key_type)
            ∷ ("ttl", ttl)
            ∷ ("encoding", encoding)
            ∷ size)))

  unfoldable pub set_ttl : String → String → String → ℤ → Exec (World R) Response
  set_ttl ns type key ttl = do
    require_admin client
    prefix ← lift (resolve_type_prefix type)
    redis_key ← lift (build_key ns prefix key)
    exists ← await redis (AdminCommand.exists redis_key)
    if not (truthy exists) then raise (key_not_found redis_key) else (do
      _ ←
          await redis (
            if is_pos ttl
            then AdminCommand.expire redis_key ttl
            else AdminCommand.persist redis_key)
      actual_ttl ← await redis (AdminCommand.ttl redis_key)
      pure (ok_simple (("redis_key", str redis_key) ∷ ("ttl", actual_ttl) ∷ [])))

  -- `for i in range(0, len(keys_to_delete), 100): deleted += await r.delete(*batch)`
  unfoldable pub delete_batches : ℕ → List (List String) → Exec (World R) ℕ
  delete_batches deleted [] = pure deleted
  delete_batches deleted (batch ∷ rest) = do
    reply ← await redis (AdminCommand.delete batch)
    total ← lift (add_reply deleted reply)
    delete_batches total rest

  -- What `bulk_delete_keys` does with `keys_to_delete` and `truncated`.
  unfoldable pub finish_bulk : Bool → List String × Bool → Exec (World R) Response
  finish_bulk dry_run (keys_to_delete, truncated) =
      if dry_run
      then pure (
          ok_simple (
            ("keys", list (texts (sorted_texts keys_to_delete)))
            ∷ ("count", int (pos (length keys_to_delete)))
            ∷ ("truncated", bool truncated)
            ∷ ("dry_run", bool true)
            ∷ []))
      else (do
        deleted ← delete_batches 0 (batches (length keys_to_delete) keys_to_delete)
        pure (
            ok_simple (
              ("deleted", int (pos deleted))
              ∷ ("truncated", bool truncated)
              ∷ ("dry_run", bool false)
              ∷ [])))

  unfoldable pub bulk_delete_keys : BulkQuery → Exec (World R) Response
  bulk_delete_keys q = do
    require_admin client
    _ ← lift (validate_ns q.ns)
    search_pattern ← lift (build_scan_pattern (some q.ns) q.type q.pattern)
    found ← iterate_keys redis search_pattern 500 (λ it. collect [] it.ended_by it.yielded)
    finish_bulk q.dry_run found

  unfoldable pub delete_key : String → String → String → Exec (World R) Response
  delete_key ns type key = do
    require_admin client
    prefix ← lift (resolve_type_prefix type)
    redis_key ← lift (build_key ns prefix key)
    deleted ← await redis (AdminCommand.delete (redis_key ∷ []))
    if not (truthy deleted)
        then raise (key_not_found redis_key)
        else pure (ok_simple (("redis_key", str redis_key) ∷ ("deleted", bool true) ∷ []))
