-- ===== src/Routers/Admin/Stats/Counts.antt =====
-- What the numbers of `get_stats` of app/routers/admin.py are.
use redgw_lite.Prelude.{
  ℕ, zero, suc, String, ◌≡◌, refl, sym, ap, ◌∙◌, Bool, true, false, ◌&&◌, Option, none, some, List,
  [], ◌∷◌, ◌+◌, ◌-◌, ◌≤◌, ◌==◌, leb, length, take, take_all, select, arith, eq_iff, Bool-cases, inl,
  inr, if◌then◌else◌,
}
use redgw_lite.Python.Value.{Value}
use redgw_lite.Python.Exec.{Exception, Result, returned, raised, ◌>>=◌}
use redgw_lite.Redis.{World}
use redgw_lite.Auth.ApiKey.{lookup}
use redgw_lite.Auth.ApiKey.Resolution.{lookup-store}
use redgw_lite.Routers.Admin.Server.{AdminRedis, await_info, iterate_keys}
use redgw_lite.Routers.Admin.Stats.{
  get_or, NsStats, no_keys, bump, add_key, place_of, stats_round, scan_up_to, stats_response,
  get_stats,
}

length-take : (n : ℕ) (xs : List String) → n ≤ length xs → length (take n xs) ≡ n
length-take zero xs h = refl
length-take (suc n) [] h = absurd (omega (arith, h))
length-take (suc n) (x ∷ xs) h = omega (arith, length-take n xs (omega (arith, h)))

-- The rounds of the loop, with no limit.
abbrev rounds : {S : Type 0} → (Option (String × String) → S → S) → S → List String → S
rounds round s [] = s
rounds round s (k ∷ ks) = rounds round (round (place_of k) s) ks

abbrev finished : {S : Type 0} → Option Exception → S × ℕ → Result (S × ℕ)
finished none out = returned out
finished (some e) out = raised e

module _ {S : Type 0} (round : Option (String × String) → S → S) (limit : ℕ)
    (ended : Option Exception) where
  scan_up_to-end :
      (scanned : ℕ) (s : S)
      → scan_up_to round limit scanned s ended [] ≡ finished ended (s, scanned)
  unfolding scan_up_to
  scan_up_to-end scanned s = by_end ended
    where
      by_end :
          (e : Option Exception) → scan_up_to round limit scanned s e [] ≡ finished e (s, scanned)
      by_end none = refl
      by_end (some e) = refl

  scan_up_to-break :
      (scanned : ℕ) (s : S) (k : String) (ks : List String)
      → leb limit (scanned + 1) ≡ true
      → scan_up_to round limit scanned s ended (k ∷ ks)
        ≡ returned (round (place_of k) s, scanned + 1)
  unfolding scan_up_to
  scan_up_to-break scanned s k ks full = rw full

  scan_up_to-next :
      (scanned : ℕ) (s : S) (k : String) (ks : List String)
      → leb limit (scanned + 1) ≡ false
      → scan_up_to round limit scanned s ended (k ∷ ks)
        ≡ scan_up_to round limit (scanned + 1) (round (place_of k) s) ended ks
  unfolding scan_up_to
  scan_up_to-next scanned s k ks room = rw room

  -- The first keys, as many as the limit leaves room for.
  pub scan_up_to_lem :
      (room scanned : ℕ) (s : S) (ks : List String)
      → limit ≡ scanned + suc room
      → scan_up_to round limit scanned s ended ks ≡ (
          if leb (suc room) (length ks)
          then returned (rounds round s (take (suc room) ks), limit)
          else finished ended (rounds round s ks, scanned + length ks))
  scan_up_to_lem room scanned s [] e =
      let few : leb (suc room) 0 ≡ false = ground arith in
      let same : scanned + 0 ≡ scanned = omega arith in scan_up_to-end scanned s ∙ rw (few, same)
  scan_up_to_lem zero scanned s (k ∷ ks) e =
      let enough : leb 1 (suc (length ks)) ≡ true = ground arith in
      scan_up_to-break scanned s k ks (ground (arith, e))
      ∙ rw enough (ap (λ n. returned (round (place_of k) s, n)) (sym e))
  scan_up_to_lem (suc room) scanned s (k ∷ ks) e =
      let same : leb (suc (suc room)) (suc (length ks)) ≡ leb (suc room) (length ks) =
        ground arith in
      let shift : scanned + suc (length ks) ≡ scanned + 1 + length ks = omega arith in
      scan_up_to-next scanned s k ks (ground (arith, e))
      ∙ scan_up_to_lem room (scanned + 1) (round (place_of k) s) ks (omega (arith, e))
      ∙ rw (same, shift)

  -- Where the iteration ends with no exception.
  pub scan_up_to-none :
      (s : S) (ks : List String)
      → 1 ≤ limit
      → ended ≡ none
      → scan_up_to round limit 0 s ended ks
        ≡ returned (rounds round s (take limit ks), length (take limit ks))
  scan_up_to-none s ks positive fine =
      let room = limit - 1 in
      let e : limit ≡ 0 + suc (limit - 1) = omega (arith, positive) in
      let e' : suc (limit - 1) ≡ limit = omega (arith, positive) in
      scan_up_to_lem (limit - 1) 0 s ks e
      ∙ rw (e', fine)
          (elim (Bool-cases (leb limit (length ks))) [
            | inl enough ↦ rw (enough, length-take limit ks (ground (arith, enough)))
            | inr few ↦
                rw (few, take_all limit ks (ground (arith, few)))
                  (ap (λ n. returned (rounds round s ks, n)) (omega arith))
          ])

-- The storage keys of a namespace, and those of a namespace and a type.
abbrev pub is_in : String → Option (String × String) → Bool
is_in ns none = false
is_in ns (some (n, p)) = n == ns

abbrev pub is_at : String → String → Option (String × String) → Bool
is_at ns prefix none = false
is_at ns prefix (some (n, p)) = n == ns && p == prefix

-- What a table says of a namespace: 0 where it has no entry.
abbrev pub total_keys_of : String → List (String × NsStats) → ℕ
total_keys_of ns d = (get_or no_keys (lookup ns d)).total_keys

abbrev pub typed_keys_of : String → String → List (String × NsStats) → ℕ
typed_keys_of ns prefix d = get_or 0 (lookup prefix (get_or no_keys (lookup ns d)).by_type)

abbrev one_if : Bool → ℕ
one_if true = 1
one_if false = 0

stats_round-total :
    (ns : String) (place : Option (String × String)) (d : List (String × NsStats))
    → total_keys_of ns (stats_round place d) ≡ total_keys_of ns d + one_if (is_in ns place)
unfolding stats_round add_key
stats_round-total ns none d = omega arith
stats_round-total ns (some (n, p)) d =
    let entry = add_key p (get_or no_keys (lookup n d)) in
    rw (total_keys_of, lookup-store n ns entry d)
      (elim (Bool-cases (n == ns)) [
        | inl same ↦ rw (same, (eq_iff n ns).0 same)
        | inr other ↦ rw other (omega arith)
      ])

bump-get :
    (p prefix : String) (d : List (String × ℕ))
    → get_or 0 (lookup prefix (bump p d)) ≡ get_or 0 (lookup prefix d) + one_if (p == prefix)
unfolding bump
bump-get p prefix d =
    rw (lookup-store p prefix (get_or 0 (lookup p d) + 1) d) (elim (Bool-cases (p == prefix)) [
      | inl same ↦ rw (same, (eq_iff p prefix).0 same)
      | inr other ↦ rw other (omega arith)
    ])

stats_round-typed :
    (ns prefix : String) (place : Option (String × String)) (d : List (String × NsStats))
    → typed_keys_of ns prefix (stats_round place d)
      ≡ typed_keys_of ns prefix d + one_if (is_at ns prefix place)
unfolding stats_round add_key
stats_round-typed ns prefix none d = omega arith
stats_round-typed ns prefix (some (n, p)) d =
    let entry = add_key p (get_or no_keys (lookup n d)) in
    rw (lookup-store n ns entry d) (elim (Bool-cases (n == ns)) [
      | inl same ↦
          rw (same, (eq_iff n ns).0 same) (bump-get p prefix (get_or no_keys (lookup ns d)).by_type)
      | inr other ↦ rw other (omega arith)
    ])

-- A measure that grows by one in some rounds counts these.
rounds-count :
    (round : Option (String × String) → List (String × NsStats) → List (String × NsStats))
    (measure : List (String × NsStats) → ℕ) (test : Option (String × String) → Bool)
    → ((place : Option (String × String)) (d : List (String × NsStats))
        → measure (round place d) ≡ measure d + one_if (test place))
    → (ks : List String) (d : List (String × NsStats))
    → measure (rounds round d ks) ≡ measure d + length (select (λ k. test (place_of k)) ks)
rounds-count round measure test grows [] d = omega arith
rounds-count round measure test grows (k ∷ ks) d =
    let step = grows (place_of k) d in
    let rest = rounds-count round measure test grows ks (round (place_of k) d) in
    elim (Bool-cases (test (place_of k))) [
      | inl held ↦ rw held (omega (arith, step, rest, ap one_if held))
      | inr other ↦ rw other (omega (arith, step, rest, ap one_if other))
    ]

empty_total : (ns : String) → total_keys_of ns [] ≡ 0
unfolding lookup
empty_total ns = refl

empty_typed : (ns prefix : String) → typed_keys_of ns prefix [] ≡ 0
unfolding lookup
empty_typed ns prefix = refl

module _ {R : Type 0} (redis : AdminRedis R) where
  get_stats_run :
      (limit : ℕ) (info : List (String × Value)) (w : World R) (found : List (String × NsStats) × ℕ)
      → (redis.info "memory" w.redis).0 ≡ returned info
      → let it = (redis.scan_iter "*" 500 (redis.info "memory" w.redis).1).0 in
        scan_up_to stats_round limit 0 [] it.ended_by it.yielded ≡ returned found
        → (get_stats redis limit w).0 ≡ returned (stats_response info found.0 found.1 limit)
  unfolding get_stats await_info iterate_keys ◌>>=◌
  get_stats_run limit info w found answered scanned = rw (answered, scanned)

  -- Where INFO answers and the iteration ends with no exception, `get_stats` answers with a table over
  -- the first `limit` keys of the iteration, and says how many these are and whether they are as many
  -- as the limit. For each namespace the table has the number of storage keys among them that lie in
  -- it, and for each namespace and storage prefix the number of those with both: no key is counted
  -- twice or left out, and the gateway's own keys are not counted.
  get_stats-counts :
      (limit : ℕ) (info : List (String × Value)) (w : World R)
      → 1 ≤ limit
      → (redis.info "memory" w.redis).0 ≡ returned info
      → let it = (redis.scan_iter "*" 500 (redis.info "memory" w.redis).1).0 in
        it.ended_by ≡ none
        → let seen = take limit it.yielded in
          (table : List (String × NsStats)) × ((get_stats redis limit w).0
            ≡ returned (stats_response info table (length seen) limit))
          × ((ns : String)
              → total_keys_of ns table ≡ length (select (λ k. is_in ns (place_of k)) seen))
          × ((ns prefix : String)
              → typed_keys_of ns prefix table
                ≡ length (select (λ k. is_at ns prefix (place_of k)) seen))
  get_stats-counts limit info w positive answered fine =
      let it = (redis.scan_iter "*" 500 (redis.info "memory" w.redis).1).0 in
      let seen = take limit it.yielded in
      let table : List (String × NsStats) = rounds stats_round [] seen in
      let scanned = scan_up_to-none stats_round limit it.ended_by [] it.yielded positive fine in
      (
        table,
        get_stats_run limit info w (table, length seen) answered scanned,
        λ ns. omega (
          arith,
          rounds-count stats_round (total_keys_of ns) (is_in ns) (stats_round-total ns) seen [],
          empty_total ns,
        ),
        λ ns prefix. omega (
          arith,
          rounds-count stats_round (typed_keys_of ns prefix) (is_at ns prefix)
              (stats_round-typed ns prefix) seen [],
          empty_typed ns prefix,
        ),
      )
