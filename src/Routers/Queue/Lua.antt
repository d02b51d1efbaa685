-- ===== src/Routers/Queue/Lua.antt =====
-- The two Lua scripts of app/routers/queue.py, `_single_push_lua` and `_batch_push_lua`, which Redis
-- runs with no other command between their calls.
use mathlib.Core.List.{reverse, reverse_aux-eq, append_assoc, append-nil}
use redgw_lite.Prelude.{
  ℕ, String, ◌≡◌, ◌≢◌, refl, ap, sym, ◌∙◌, ◌⊎◌, inl, inr, true, false, not, List, [], ◌∷◌, ◌++◌,
  ◌+◌, length, length-append, ℤ, pos, negsuc, int_le, arith, if◌then◌else◌, Bool-cases,
}
use redgw_lite.Routers.Queue.{Direction, left, right}

-- What LPUSH and RPUSH make of a list.
abbrev pub pushed : Direction → String → List String → List String
pushed left v xs = v ∷ xs
pushed right v xs = xs ++ v ∷ []

-- A server's lists, and its `redis.call('lpush', …)` and `redis.call('rpush', …)`, which reply the new
-- length. A push at one key leaves the others alone.
pub record ListServer (R : Type 0) : Type 0 where
  pub contents : String → R → List String
  pub push : Direction → String → String → R → R
  pub contents-push :
      (d : Direction) (k v : String) (r : R) → contents k (push d k v r) ≡ pushed d v (contents k r)
  pub contents-other :
      (d : Direction) (k j v : String) (r : R) → k ≢ j → contents j (push d k v r) ≡ contents j r

module _ {R : Type 0} (server : ListServer R) where
  -- `redis.call('llen', key)`
  abbrev pub llen : String → R → ℕ
  llen k r = length (server.contents k r)

  -- `_single_push_lua`: the reply and the state. `ARGV` is the value and the greatest length.
  unfoldable pub single_push : Direction → String → String → ℤ → R → ℤ × R
  single_push d k v max r =
      if int_le max (pos (llen k r))
      then (negsuc 0, r)
      else (let r' = server.push d k v r in (pos (llen k r'), r'))

  -- `for i=3,#ARGV do redis.call(cmd,KEYS[1],ARGV[i]) end`
  unfoldable pub push_all : Direction → String → List String → R → R
  push_all d k [] r = r
  push_all d k (v ∷ vs) r = push_all d k vs (server.push d k v r)

  -- `_batch_push_lua`: `ARGV` is the greatest length, the number of values, and the values.
  unfoldable pub batch_push : Direction → String → ℤ → ℕ → List String → R → ℤ × R
  batch_push d k max cnt vs r =
      let cur = llen k r in
      if not (int_le (pos (cur + cnt)) max)
      then (negsuc 0, r)
      else (pos (cur + cnt), push_all d k vs r)

-- What pushing a batch makes of a list.
abbrev pub pushed_all : Direction → List String → List String → List String
pushed_all left vs xs = reverse vs ++ xs
pushed_all right vs xs = xs ++ vs

pushed_all-nil : (d : Direction) (xs : List String) → pushed_all d [] xs ≡ xs
pushed_all-nil left xs = refl
pushed_all-nil right xs = append-nil xs

pushed_all-cons :
    (d : Direction) (v : String) (vs xs : List String)
    → pushed_all d vs (pushed d v xs) ≡ pushed_all d (v ∷ vs) xs
pushed_all-cons left v vs xs =
    rw (reverse_aux-eq vs (v ∷ []), append_assoc (reverse vs) (v ∷ []) xs)
pushed_all-cons right v vs xs = rw append_assoc

-- The tests of the two scripts, `llen >= max` and `cur + cnt > max`, agree for one value.
int_le_flip : (max : ℤ) (n : ℕ) → int_le max (pos n) ≡ not (int_le (pos (n + 1)) max)
int_le_flip (pos m) n = ground arith
int_le_flip (negsuc m) n = refl

length-pushed :
    (d : Direction) (v : String) (xs : List String) → length (pushed d v xs) ≡ length xs + 1
length-pushed left v xs = omega arith
length-pushed right v xs = omega (arith, length-append xs (v ∷ []))

module _ {R : Type 0} (server : ListServer R) where
  pub contents-push_all :
      (d : Direction) (k : String) (vs : List String) (r : R)
      → server.contents k (push_all server d k vs r) ≡ pushed_all d vs (server.contents k r)
  unfolding push_all
  contents-push_all d k [] r = sym (pushed_all-nil d (server.contents k r))
  contents-push_all d k (v ∷ vs) r =
      contents-push_all d k vs (server.push d k v r)
      ∙ ap (pushed_all d vs) (server.contents-push d k v r)
      ∙ pushed_all-cons d v vs (server.contents k r)

  llen-push_all :
      (d : Direction) (k : String) (vs : List String) (r : R)
      → llen server k (push_all server d k vs r) ≡ llen server k r + length vs
  unfolding push_all
  llen-push_all d k [] r = omega arith
  llen-push_all d k (v ∷ vs) r = omega (
    arith,
    llen-push_all d k vs (server.push d k v r),
    ap length (server.contents-push d k v r),
    length-pushed d v (server.contents k r),
  )

  -- The outcome of a script that asks for `cnt` more elements: either there is no room, the reply is
  -- -1 and nothing has changed, or the list at the key has become `xs`, the reply is its length, and
  -- that is at most the greatest length.
  abbrev pub Outcome : String → ℤ → ℕ → R → List String → ℤ × R → Type 0
  Outcome k max cnt r xs result =
      ((int_le (pos (llen server k r + cnt)) max ≡ false) × (result ≡ (negsuc 0, r)))
      ⊎ ((server.contents k result.1 ≡ xs)
          × (result.0 ≡ pos (llen server k result.1))
          × (int_le (pos (llen server k result.1)) max ≡ true))

  -- The script for a batch pushes all values, at the head in reverse order or at the tail in order, or
  -- none of them: it pushes nothing and replies -1 exactly when the queue would grow beyond the
  -- greatest length.
  pub batch_push-Outcome :
      (d : Direction) (k : String) (max : ℤ) (vs : List String) (r : R)
      → Outcome k max
          (length vs)
          r
          (pushed_all d vs (server.contents k r))
          (batch_push server d k max (length vs) vs r)
  unfolding batch_push
  batch_push-Outcome d k max vs r =
      elim (Bool-cases (int_le (pos (llen server k r + length vs)) max)) [
        | inl room ↦ inr (
          rw room (contents-push_all d k vs r),
          rw room (ap pos (sym (llen-push_all d k vs r))),
          rw (room, llen-push_all d k vs r) room,
        )
        | inr full ↦ inl (full, rw full)
      ]

  -- The script for one value does what the script for a batch of that one value does.
  pub single_push-batch_push :
      (d : Direction) (k v : String) (max : ℤ) (r : R)
      → single_push server d k v max r ≡ batch_push server d k max 1 (v ∷ []) r
  unfolding single_push batch_push push_all
  single_push-batch_push d k v max r = rw (int_le_flip max (llen server k r)) (
      ap
        (λ (n : ℕ).
          if not (int_le (pos (llen server k r + 1)) max)
          then (negsuc 0, r)
          else (pos n, server.push d k v r))
        (ap length (server.contents-push d k v r) ∙ length-pushed d v (server.contents k r)))
