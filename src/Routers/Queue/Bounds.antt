-- ===== src/Routers/Queue/Bounds.antt =====
-- The push handlers of app/routers/queue.py together with their scripts: the greatest length.
use mathlib.Core.List.{reverse, reverse_aux}
use redgw_lite.Prelude.{
  String, ◌≡◌, ◌⊎◌, refl, ap, ◌∙◌, inl, inr, true, false, not, List, [], ◌∷◌, all, ◌+◌, ◌⧺◌, length,
  length-append, ℤ, pos, negsuc, int_le, show_int, show_nat, Bool-cases, arith,
}
use redgw_lite.Python.Value.{Value, int}
use redgw_lite.Python.Exec.{returned, raised, ◌>>=◌, for_each}
use redgw_lite.Response.{error}
use redgw_lite.Settings.{DefaultsConfig}
use redgw_lite.KeyBuilder.{ns_re, key_re, queue_prefix, joined}
use redgw_lite.Redis.{Command, Redis, World, await, execute}
use redgw_lite.Auth.ApiKey.{ClientInfo}
use redgw_lite.Auth.Guard.{check_access, require_access}
use redgw_lite.Validation.{check_value_size, exceeds_size, expire_or_persist, resolve_ttl}
use redgw_lite.Response.{data_of}
use redgw_lite.KeyBuilder.Roundtrip.{build_key_of_valid}
use redgw_lite.Routers.Queue.{
  Direction, left, right, batch, single, lua_source, timed_response, QueueBatchPushRequest,
  batch_push_queue,
}
use redgw_lite.Routers.Queue.Cache.{IsCache, get_script-source}
use redgw_lite.Routers.Queue.Lua.{
  ListServer, llen, batch_push, single_push, push_all, pushed_all, contents-push_all,
}

-- A server that runs the two scripts with the limit `max`, each as a whole, and whose EXPIRE, PERSIST and TTL leave the
-- contents of lists alone and answer: lifetimes of requests are not negative.
pub record ScriptServer {R : Type 0} (redis : Redis R) (server : ListServer R) (max : ℤ)
    : Type 0 where
  pub run_batch :
      (d : Direction) (k : String) (vs : List String) (r : R)
      → redis.call
          (Command.eval (lua_source batch d) k (show_int max ∷ show_nat (length vs) ∷ vs))
          r
        ≡ (
          returned (int (batch_push server d k max (length vs) vs r).0),
          (batch_push server d k max (length vs) vs r).1,
        )
  pub run_single :
      (d : Direction) (k v : String) (r : R)
      → redis.call (Command.eval (lua_source single d) k (v ∷ show_int max ∷ [])) r
        ≡ (returned (int (single_push server d k v max r).0), (single_push server d k v max r).1)
  pub first_reply : String → ℤ → R → Value
  pub last_reply : String → ℤ → R → Value
  pub timed :
      (k : String) (ttl : ℤ) (r : R)
      → (redis.execute false (expire_or_persist k ttl ∷ Command.ttl k ∷ []) r).0
        ≡ returned (first_reply k ttl r ∷ last_reply k ttl r ∷ [])
  pub contents-timed :
      (j k : String) (ttl : ℤ) (r : R)
      → server.contents j (redis.execute false (expire_or_persist k ttl ∷ Command.ttl k ∷ []) r).1
        ≡ server.contents j r

module _ {R : Type 0} (server : ListServer R) (d : Direction) (k : String) (max : ℤ)
    (vs : List String) (r : R) where
  batch_push_full :
      int_le (pos (llen server k r + length vs)) max ≡ false
      → batch_push server d k max (length vs) vs r ≡ (negsuc 0, r)
  unfolding batch_push
  batch_push_full full = rw full

  batch_push_room :
      int_le (pos (llen server k r + length vs)) max ≡ true
      → batch_push server d k max (length vs) vs r
        ≡ (pos (llen server k r + length vs), push_all server d k vs r)
  unfolding batch_push
  batch_push_room room = rw room

length-reverse_aux : (xs ys : List String) → length (reverse_aux xs ys) ≡ length xs + length ys
length-reverse_aux [] ys = omega arith
length-reverse_aux (x ∷ xs) ys = omega (arith, length-reverse_aux xs (x ∷ ys))

length-reverse : (xs : List String) → length (reverse xs) ≡ length xs
length-reverse xs = omega (arith, length-reverse_aux xs [])

length-pushed_all :
    (d : Direction) (vs xs : List String) → length (pushed_all d vs xs) ≡ length xs + length vs
length-pushed_all left vs xs = omega (arith, length-append (reverse vs) xs, length-reverse vs)
length-pushed_all right vs xs = omega (arith, length-append xs vs)

sizes_pass :
    {W : Type 0} (defaults : DefaultsConfig) (label : String) (values : List String) (w : W)
    → all (λ v. not (exceeds_size v defaults.max_value_size)) values ≡ true
    → for_each values (λ v. check_value_size defaults v label) w ≡ (returned tt, w)
unfolding for_each check_value_size ◌>>=◌
sizes_pass defaults label [] w fits = refl
sizes_pass defaults label (v ∷ values) w fits =
    elim (Bool-cases (exceeds_size v defaults.max_value_size)) [
      | inl over ↦ cc (rw over at fits)
      | inr within ↦ rw within (sizes_pass defaults label values w (rw within at fits))
    ]

module _ {R : Type 0} (redis : Redis R) (server : ListServer R) (defaults : DefaultsConfig)
    (scripts : ScriptServer redis server defaults.max_list_length) (client : ClientInfo)
    (ns key : String) (valid_ns : ns_re ns ≡ true) (valid_key : key_re key ≡ true)
    (may_write : check_access client ns "write" ≡ true) where
  abbrev pub elements : World R → List String
  elements w = server.contents (joined ns queue_prefix key) w.redis

  batch_full :
      (body : QueueBatchPushRequest) (w : World R)
      → IsCache w.scripts
      → all (λ v. not (exceeds_size v defaults.max_value_size)) body.values ≡ true
      → int_le (pos (length (elements w) + length body.values)) defaults.max_list_length ≡ false
      → ((data_of (batch_push_queue redis defaults client ns key body w).0
            ≡ raised (
                error "QUEUE_FULL"
                  ("Queue '"
                    ⧺ key
                    ⧺ "' would exceed max length ("
                    ⧺ show_int defaults.max_list_length
                    ⧺ ")")
                  400))
          × (elements (batch_push_queue redis defaults client ns key body w).1 ≡ elements w))
  unfolding batch_push_queue timed_response require_access await execute ◌>>=◌
  batch_full body w cache fits full =
      let (source, cached, same) = get_script-source batch body.direction w cache in
      rw
        (
          may_write,
          sizes_pass defaults "Value" body.values w fits,
          build_key_of_valid ns queue_prefix key valid_ns valid_key,
          source,
          same,
          scripts.run_batch body.direction (joined ns queue_prefix key) body.values w.redis,
          batch_push_full server body.direction (joined ns queue_prefix key)
              defaults.max_list_length body.values w.redis full,
        )
        (refl, refl)

  batch_room :
      (body : QueueBatchPushRequest) (w : World R)
      → IsCache w.scripts
      → all (λ v. not (exceeds_size v defaults.max_value_size)) body.values ≡ true
      → int_le (pos (length (elements w) + length body.values)) defaults.max_list_length ≡ true
      → ((data_of (batch_push_queue redis defaults client ns key body w).0
            ≡ returned (
                ("length", int (pos (length (elements w) + length body.values)))
                ∷ ("pushed", int (pos (length body.values)))
                ∷ []))
          × (elements (batch_push_queue redis defaults client ns key body w).1
              ≡ pushed_all body.direction body.values (elements w)))
  unfolding batch_push_queue timed_response require_access await execute ◌>>=◌
  batch_room body w cache fits room =
      let (source, cached, same) = get_script-source batch body.direction w cache in
      let after : R =
        push_all server body.direction (joined ns queue_prefix key) body.values w.redis in
      rw
        (
          may_write,
          sizes_pass defaults "Value" body.values w fits,
          build_key_of_valid ns queue_prefix key valid_ns valid_key,
          source,
          same,
          scripts.run_batch body.direction (joined ns queue_prefix key) body.values w.redis,
          batch_push_room server body.direction (joined ns queue_prefix key)
              defaults.max_list_length body.values w.redis room,
          scripts.timed (joined ns queue_prefix key) (resolve_ttl defaults body.ttl) after,
          scripts.contents-timed (joined ns queue_prefix key) (joined ns queue_prefix key)
              (resolve_ttl defaults body.ttl) after,
        )
        (
          refl,
          contents-push_all server body.direction (joined ns queue_prefix key) body.values w.redis,
        )

  -- With a server that runs the scripts as wholes, a batch is pushed entirely or not at all: for a
  -- valid namespace and key, a client that may write and values within the limit, either the queue
  -- would grow beyond the greatest length, the answer is QUEUE_FULL and the queue is as it was; or all
  -- values are pushed, at the head in reverse order or at the tail in order, the answer counts the
  -- elements, and they are at most the greatest length.
  pub batch_push_queue-bounded :
      (body : QueueBatchPushRequest) (w : World R)
      → IsCache w.scripts
      → all (λ v. not (exceeds_size v defaults.max_value_size)) body.values ≡ true
      → ((int_le (pos (length (elements w) + length body.values)) defaults.max_list_length ≡ false)
          × (data_of (batch_push_queue redis defaults client ns key body w).0
              ≡ raised (
                  error "QUEUE_FULL"
                    ("Queue '"
                      ⧺ key
                      ⧺ "' would exceed max length ("
                      ⧺ show_int defaults.max_list_length
                      ⧺ ")")
                    400))
          × (elements (batch_push_queue redis defaults client ns key body w).1 ≡ elements w))
        ⊎ ((int_le
                (pos (length (elements (batch_push_queue redis defaults client ns key body w).1)))
                defaults.max_list_length
              ≡ true)
            × (data_of (batch_push_queue redis defaults client ns key body w).0
                ≡ returned (
                    (
                      "length",
                      int (
                          pos (
                            length
                              (elements (batch_push_queue redis defaults client ns key body w).1))),
                    )
                    ∷ ("pushed", int (pos (length body.values)))
                    ∷ []))
            × (elements (batch_push_queue redis defaults client ns key body w).1
                ≡ pushed_all body.direction body.values (elements w)))
  batch_push_queue-bounded body w cache fits =
      elim (Bool-cases
        (int_le (pos (length (elements w) + length body.values)) defaults.max_list_length)) [
          | inl room ↦
              let (answer, contents) = batch_room body w cache fits room in
              let counted : length
                    (elements (batch_push_queue redis defaults client ns key body w).1)
                  ≡ length (elements w) + length body.values =
                ap length contents ∙ length-pushed_all body.direction body.values (elements w) in
              inr (rw counted room, rw counted answer, contents)
          | inr full ↦
              let (answer, contents) = batch_full body w cache fits full in
              inl (full, answer, contents)
        ]
