-- ===== src/Routers/Kv/Atomic.antt =====
-- `batch_set_kv` of app/routers/kv.py sends its whole batch in one transaction, or nothing.
use redgw_lite.Prelude.{
  String, ◌≡◌, refl, true, not, ◌⊎◌, inl, inr, List, [], ◌∷◌, map, all, ℤ, Bool-cases, ◌⧺◌, ap, ◌∙◌,
  show_int,
}
use redgw_lite.Python.Exec.{Exception, Result, returned, raised, ◌>>=◌, for_each, comprehension}
use redgw_lite.Python.Steps.{bind_of_returned, bind_of_raised, bind_pure_world, Result-cases}
use redgw_lite.Response.{Response, error}
use redgw_lite.Settings.{DefaultsConfig}
use redgw_lite.KeyBuilder.{build_key, kv_prefix, joined}
use redgw_lite.KeyBuilder.Roundtrip.{build_key-inversion}
use redgw_lite.Redis.{Command, Redis, World, execute}
use redgw_lite.Auth.ApiKey.{ClientInfo}
use redgw_lite.Auth.Guard.{check_access}
use redgw_lite.Auth.Guard.Permissions.{stopped_of_denied, require_access-granted}
use redgw_lite.Validation.{exceeds_size, check_value_size, resolve_ttl}
use redgw_lite.Routers.Kv.{KvBatchSetRequest, store_command, queued_set, batch_set_kv}

-- Each value of the batch is within `max_value_size`.
abbrev pub AllFit : DefaultsConfig → List (String × String) → Type 0
AllFit defaults items = all (λ item. not (exceeds_size item.1 defaults.max_value_size)) items ≡ true

module _ {W : Type 0} (defaults : DefaultsConfig) (label : String × String → String) where
  sizes_checked :
      (items : List (String × String)) (w : W)
      → ((for_each items (λ item. check_value_size defaults item.1 (label item)) w
            ≡ (returned tt, w))
          × AllFit defaults items)
        ⊎ ((e : Exception) × (for_each items
                (λ item. check_value_size defaults item.1 (label item))
                w
              ≡ (raised e, w)))
  unfolding for_each check_value_size ◌>>=◌
  sizes_checked [] w = inl (refl, refl)
  sizes_checked (item ∷ items) w = elim (Bool-cases (exceeds_size item.1 defaults.max_value_size)) [
    | inl over ↦ inr (
      error "VALUE_TOO_LARGE"
          (label item ⧺ " exceeds max size (" ⧺ show_int defaults.max_value_size ⧺ " bytes)") 400,
      rw over,
    )
    | inr fits ↦ elim (sizes_checked items w) [
      | inl (same, rest) ↦ inl (rw fits same, rw fits rest)
      | inr (e, same) ↦ inr (e, rw fits same)
    ]
  ]

-- The commands of the batch, one for each item, on the keys of the namespace.
abbrev pub set_commands : String → ℤ → List (String × String) → List Command
set_commands ns ttl = map (λ item. store_command (joined ns kv_prefix item.0) ttl item.1)

module _ {R : Type 0} (redis : Redis R) (defaults : DefaultsConfig) (client : ClientInfo) where
  sets_queued :
      (ns : String) (ttl : ℤ) (items : List (String × String)) (w : World R)
      → (comprehension (queued_set redis defaults client ns ttl) items w
          ≡ (returned (set_commands ns ttl items), w))
        ⊎ ((e : Exception) × (comprehension (queued_set redis defaults client ns ttl) items w
              ≡ (raised e, w)))
  unfolding comprehension queued_set ◌>>=◌
  sets_queued ns ttl [] w = inl refl
  sets_queued ns ttl (item ∷ items) w = elim (Result-cases (build_key ns kv_prefix item.0)) [
    | inl (rk, built) ↦ elim (sets_queued ns ttl items w) [
      | inl same ↦ inl (rw (built, same, (build_key-inversion ns kv_prefix item.0 rk built).2))
      | inr (e, same) ↦ inr (e, rw (built, same))
    ]
    | inr (e, failed) ↦ inr (e, rw failed)
  ]

  -- The two ways to end, for a request with the outcome `p`.
  abbrev Ends : String → KvBatchSetRequest → World R → Result Response × World R → Type 0
  Ends ns body w p =
      ((e : Exception) × (p.0 ≡ raised e) × (p.1.redis ≡ w.redis))
      ⊎ (AllFit defaults body.items
          × (p.1.redis
              ≡ (redis.execute true (set_commands ns (resolve_ttl defaults body.ttl) body.items)
                  w.redis).1))

  Ends-raised :
      (ns : String) (body : KvBatchSetRequest) (w : World R) {v : World R}
      {p : Result Response × World R} {e : Exception}
      → p ≡ (raised e, v)
      → v.redis ≡ w.redis
      → Ends ns body w p
  Ends-raised ns body w {e} h same = inl (
    e,
    ap (λ (q : Result Response × World R). q.0) h,
    ap (λ (q : Result Response × World R). q.1.redis) h ∙ same,
  )

  -- A batch of writes ends in one of two ways. Either it raises and the server's state is as it was,
  -- or every value fits, and the server has run exactly one transaction, of one command for each
  -- item of the batch, in order.
  pub batch_set_kv-all_or_nothing :
      (ns : String) (body : KvBatchSetRequest) (w : World R)
      → ((e : Exception) × ((batch_set_kv redis defaults client ns body w).0 ≡ raised e)
          × ((batch_set_kv redis defaults client ns body w).1.redis ≡ w.redis))
        ⊎ (AllFit defaults body.items
            × ((batch_set_kv redis defaults client ns body w).1.redis
                ≡ (redis.execute true
                    (set_commands ns (resolve_ttl defaults body.ttl) body.items)
                    w.redis).1))
  unfolding batch_set_kv execute
  batch_set_kv-all_or_nothing ns body w = elim (Bool-cases (check_access client ns "write")) [
    | inr denied ↦ Ends-raised ns body w (stopped_of_denied client ns "write" _ w denied) refl
    | inl granted ↦
        let allowed = require_access-granted client ns "write" w granted in
        elim (sizes_checked defaults (λ item. "Key '" ⧺ item.0 ⧺ "'") body.items w) [
          | inr (e, over) ↦
              Ends-raised ns body w (bind_of_returned _ _ allowed ∙ bind_of_raised _ _ over) refl
          | inl (fit, fits) ↦ elim (sets_queued ns (resolve_ttl defaults body.ttl) body.items w) [
            | inr (e, failed) ↦
                Ends-raised ns body w
                  (bind_of_returned _ _ allowed
                    ∙ bind_of_returned _ _ fit
                    ∙ bind_of_raised _ _ failed)
                  refl
            | inl queued ↦ inr (
              fits,
              ap (λ (p : Result Response × World R). p.1.redis)
                    (bind_of_returned _ _ allowed
                      ∙ bind_of_returned _ _ fit
                      ∙ bind_of_returned _ _ queued)
                  ∙ ap (λ (v : World R). v.redis) (bind_pure_world (execute redis true _) _ w),
            )
          ]
        ]
  ]
