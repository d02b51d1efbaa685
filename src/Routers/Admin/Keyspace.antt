-- ===== src/Routers/Admin/Keyspace.antt =====
-- `bulk_delete_keys` of app/routers/admin.py against the set of keys that the server holds.
use redgw_lite.Prelude.{
  ℕ, String, ◌≡◌, refl, ap, ◌∙◌, Bool, true, false, none, some, List, [], ◌∷◌, ◌+◌, ◌==◌, ltb,
  length, take, take_all, select, any, arith, pos, Bool-cases, inl, inr, if◌then◌else◌,
  sorted_texts,
}
use redgw_lite.Python.Value.{int, bool, list, texts}
use redgw_lite.Python.Exec.{Exec, returned, ◌>>=◌}
use redgw_lite.Python.Steps.{bind_pure_world, bind_pure_result}
use redgw_lite.Response.{Response, ok_simple}
use redgw_lite.KeyBuilder.{contains, validate_ns, build_scan_pattern}
use redgw_lite.Redis.{World}
use redgw_lite.Auth.ApiKey.{ClientInfo}
use redgw_lite.Auth.Guard.{require_admin}
use redgw_lite.Routers.Admin.Server.{AdminCommand, AdminRedis, await, iterate_keys}
use redgw_lite.Routers.Admin.{
  is_storage_key, max_bulk, batches, collect, BulkQuery, delete_batches, finish_bulk,
  bulk_delete_keys,
}
use redgw_lite.Routers.Admin.Bulk.{collect_lem, any-batches}

-- Redis as a set of keys: a scan changes nothing, and DEL counts and takes the keys that it names.
pub record Keyspace {R : Type 0} (redis : AdminRedis R) : Type 0 where
  pub has : String → R → Bool
  pub has-scan_iter :
      (pattern : String) (count : ℕ) (r : R) (k : String)
      → has k (redis.scan_iter pattern count r).1 ≡ has k r
  pub reply_of_delete :
      (ks : List String) (r : R)
      → (n : ℕ) × ((redis.call (AdminCommand.delete ks) r).0 ≡ returned (int (pos n)))
  pub has-delete :
      (ks : List String) (r : R) (k : String)
      → has k (redis.call (AdminCommand.delete ks) r).1 ≡ (if contains k ks then false else has k r)

-- The answer of `bulk_delete_keys`; `deleted` is what the server counted.
abbrev pub bulk_response : Bool → List String → Bool → ℕ → Response
bulk_response true keys truncated deleted = ok_simple (
    ("keys", list (texts (sorted_texts keys)))
    ∷ ("count", int (pos (length keys)))
    ∷ ("truncated", bool truncated)
    ∷ ("dry_run", bool true)
    ∷ [])
bulk_response false keys truncated deleted =
    ok_simple (
      ("deleted", int (pos deleted)) ∷ ("truncated", bool truncated) ∷ ("dry_run", bool false) ∷ [])

module _ {R : Type 0} (redis : AdminRedis R) (space : Keyspace redis) (client : ClientInfo) where
  open space use {has, has-scan_iter, reply_of_delete, has-delete}

  -- What the keys are after those of `gone` were deleted.
  abbrev Without : (String → Bool) → R → R → Type 0
  Without gone before after = (k : String) → has k after ≡ (if gone k then false else has k before)

  delete_step :
      (deleted : ℕ) (batch : List String) (rest : List (List String)) (w : World R)
      → (n : ℕ) × (delete_batches redis client deleted (batch ∷ rest) w
          ≡ delete_batches redis client
              (deleted + n)
              rest
              (record w { redis = (redis.call (AdminCommand.delete batch) w.redis).1 }))
  unfolding delete_batches await ◌>>=◌
  delete_step deleted batch rest w = let (n, reply) = reply_of_delete batch w.redis in (n, rw reply)

  delete_batches-Without :
      (deleted : ℕ) (bs : List (List String)) (w : World R)
      → (n : ℕ) × ((delete_batches redis client deleted bs w).0 ≡ returned n)
        × Without
            (λ k. any (contains k) bs)
            w.redis
            (delete_batches redis client deleted bs w).1.redis
  delete_batches-Without deleted [] w = unfold delete_batches ◌>>=◌ in (deleted, refl, λ k. refl)
  delete_batches-Without deleted (batch ∷ rest) w =
      let (n, same) = delete_step deleted batch rest w in
      let w' : World R = record w { redis = (redis.call (AdminCommand.delete batch) w.redis).1 } in
      let (m, done, gone) = delete_batches-Without (deleted + n) rest w' in
      (
        m,
        ap (λ o. o.0) same ∙ done,
        λ k. ap (λ o. has k o.1.redis) same ∙ gone k ∙ ground (arith, has-delete batch w.redis k),
      )

  finish_bulk-Without :
      (dry_run : Bool) (keys : List String) (truncated : Bool) (w : World R)
      → (n : ℕ) × ((finish_bulk redis client dry_run (keys, truncated) w).0
          ≡ returned (bulk_response dry_run keys truncated n))
        × Without
            (λ k. if dry_run then false else contains k keys)
            w.redis
            (finish_bulk redis client dry_run (keys, truncated) w).1.redis
  finish_bulk-Without true keys truncated w = unfold finish_bulk ◌>>=◌ in (0, refl, λ k. refl)
  finish_bulk-Without false keys truncated w =
      let (n, done, gone) = delete_batches-Without 0 (batches (length keys) keys) w in
      let answer = λ (deleted : ℕ). bulk_response false keys truncated deleted in
      let batched : Exec (World R) ℕ = delete_batches redis client 0 (batches (length keys) keys) in
      unfold finish_bulk in
      (
        n,
        bind_pure_result batched answer w n done,
        λ k.
            ap (λ v. has k v.redis) (bind_pure_world batched answer w)
            ∙ gone k
            ∙ ap (λ b. if b then false else has k w.redis)
                (any-batches k (length keys) keys (omega arith)),
      )

  collected :
      (ks : List String)
      → collect [] none ks
        ≡ returned (
          take max_bulk (select is_storage_key ks),
          ltb max_bulk (length (select is_storage_key ks)),
        )
  collected ks =
      let storage = select is_storage_key ks in
      collect_lem [] none ks (omega arith) ∙ (elim (Bool-cases (ltb max_bulk (length storage))) [
        | inl more ↦ rw more
        | inr all_taken ↦ rw (all_taken, take_all max_bulk storage (ground (arith, all_taken)))
      ])

  bulk_run :
      (q : BulkQuery) (pattern : String) (target : List String × Bool) (w : World R)
      → (client.client_id == "admin") ≡ true
      → validate_ns q.ns ≡ returned q.ns
      → build_scan_pattern (some q.ns) q.type q.pattern ≡ returned pattern
      → collect []
          (redis.scan_iter pattern 500 w.redis).0.ended_by
          (redis.scan_iter pattern 500 w.redis).0.yielded
        ≡ returned target
      → bulk_delete_keys redis client q w
        ≡ finish_bulk redis client q.dry_run target
            (record w { redis = (redis.scan_iter pattern 500 w.redis).1 })
  unfolding bulk_delete_keys require_admin iterate_keys ◌>>=◌
  bulk_run q pattern target w admin valid accepted found = rw (admin, valid, accepted, found)

  -- For the administrator and an accepted query, where the scan ends with no exception: the keys that
  -- the server holds afterwards are those that it held before, less the first 10000 of the scanned
  -- keys that are storage keys; a dry run deletes none of them. The answer says `truncated` exactly
  -- when there were more of them than these.
  pub bulk_delete_keys-deletes :
      (q : BulkQuery) (pattern : String) (w : World R)
      → (client.client_id == "admin") ≡ true
      → validate_ns q.ns ≡ returned q.ns
      → build_scan_pattern (some q.ns) q.type q.pattern ≡ returned pattern
      → (redis.scan_iter pattern 500 w.redis).0.ended_by ≡ none
      → let storage = select is_storage_key (redis.scan_iter pattern 500 w.redis).0.yielded in
        (n : ℕ) × ((bulk_delete_keys redis client q w).0
          ≡ returned
              (bulk_response q.dry_run (take max_bulk storage) (ltb max_bulk (length storage)) n))
        × Without
            (λ k. if q.dry_run then false else contains k (take max_bulk storage))
            w.redis
            (bulk_delete_keys redis client q w).1.redis
  bulk_delete_keys-deletes q pattern w admin valid accepted ended =
      let it = (redis.scan_iter pattern 500 w.redis).0 in
      let storage = select is_storage_key it.yielded in
      let target : List String × Bool = (take max_bulk storage, ltb max_bulk (length storage)) in
      let w' : World R = record w { redis = (redis.scan_iter pattern 500 w.redis).1 } in
      let run =
        bulk_run q pattern target w admin valid accepted (rw ended (collected it.yielded)) in
      let (n, done, gone) = finish_bulk-Without q.dry_run target.0 target.1 w' in
      (
        n,
        ap (λ o. o.0) run ∙ done,
        λ k.
            ap (λ o. has k o.1.redis) run
            ∙ gone k
            ∙ ap (λ b. if if q.dry_run then false else contains k target.0 then false else b)
                (has-scan_iter pattern 500 w.redis k),
      )
