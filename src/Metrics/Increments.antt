-- ===== src/Metrics/Increments.antt =====
-- What a request of app/utils/metrics.py adds to each latency counter.
use redgw_lite.Prelude.{
  ℕ, zero, suc, String, ◌≡◌, ◌≢◌, refl, ap, ◌∙◌, Bool, true, false, not, ◌&&◌, List, [], ◌∷◌, ◌++◌,
  ◌+◌, ◌*◌, ◌^◌, ◌≤◌, ◌⧺◌, ◌==◌, nat_eq, All, arith, eq_iff, codes, codes-append, show_nat,
  Bool-cases, inl, inr, pos, negsuc, if◌then◌else◌,
}
use redgw_lite.Python.Value.{
  Float, nan, infinite, negative_infinite, finite, float_is_pos, float_le_nat,
}
use redgw_lite.Metrics.{
  Count, incr, incrbyfloat, Finished, latency_buckets, latency_bucket_key, latency_count_key,
  total_key, status_key, ns_req_key, client_req_key, incr_named, incr_buckets, latency_counts,
  request_counts,
}

abbrev pub one_if : Bool → ℕ
one_if true = 1
one_if false = 0

-- How often commands increment a key.
abbrev pub increments : String → List Count → ℕ
increments key [] = 0
increments key (incr k ∷ cs) = one_if (k == key) + increments key cs
increments key (incrbyfloat k x ∷ cs) = increments key cs

increments-append :
    (key : String) (cs ds : List Count)
    → increments key (cs ++ ds) ≡ increments key cs + increments key ds
increments-append key [] ds = omega arith
increments-append key (incr k ∷ cs) ds = omega (arith, increments-append key cs ds)
increments-append key (incrbyfloat k x ∷ cs) ds = increments-append key cs ds

mul_mono : (a b k : ℕ) → a ≤ b → a * k ≤ b * k
mul_mono a b k h = grind arith

-- What is at most a bound is at most every greater bound.
pub float_le_nat_mono :
    (x : Float) (a b : ℕ) → a ≤ b → float_le_nat x a ≡ true → float_le_nat x b ≡ true
float_le_nat_mono nan a b h k = cc k
float_le_nat_mono infinite a b h k = cc k
float_le_nat_mono negative_infinite a b h k = refl
float_le_nat_mono (finite (negsuc m) e) a b h k = refl
float_le_nat_mono (finite (pos m) (pos e)) a b h k = ground arith
float_le_nat_mono (finite (pos m) (negsuc e)) a b h k = ground (arith, mul_mono a b (2 ^ (e + 1)) h)

-- The characters of a key behind `redgw:metrics:`.
abbrev pub char_at : ℕ → List ℕ → ℕ
char_at n [] = 0
char_at zero (c ∷ cs) = c
char_at (suc n) (c ∷ cs) = char_at n cs

-- A key that begins otherwise.
other_key :
    (p s key : String)
    → char_at 14 (codes (p ⧺ s)) ≢ char_at 14 (codes key)
    → ((p ⧺ s) == key) ≡ false
other_key p s key differ = elim (Bool-cases ((p ⧺ s) == key)) [
  | inl same ↦ absurd (differ (ap (λ k. char_at 14 (codes k)) ((eq_iff (p ⧺ s) key).0 same)))
  | inr other ↦ other
]

-- The keys of the latency counters have an l there, and no other counter of a request has.
abbrev pub IsLatency : String → Type 0
IsLatency key = char_at 14 (codes key) ≡ b'l'

module _ (key : String) (latency : IsLatency key) where
  other_family : (p s : String) → char_at 14 (codes (p ⧺ s)) ≢ b'l' → ((p ⧺ s) == key) ≡ false
  other_family p s differ = other_key p s key (λ e. differ (e ∙ latency))

  status_other : (n : ℕ) → (status_key n == key) ≡ false
  unfolding status_key
  status_other n =
      other_family "redgw:metrics:status:" _
        (rw (codes-append "redgw:metrics:status:" (show_nat n)) (omega arith))

  ns_other : (ns : String) → (ns_req_key ns == key) ≡ false
  unfolding ns_req_key
  ns_other ns =
      other_family "redgw:metrics:ns:" ns (rw (codes-append "redgw:metrics:ns:" ns) (omega arith))

  client_other : (client_id : String) → (client_req_key client_id == key) ≡ false
  unfolding client_req_key
  client_other client_id =
      other_family "redgw:metrics:client:" client_id
        (rw (codes-append "redgw:metrics:client:" client_id) (omega arith))

  total_other : (total_key == key) ≡ false
  total_other = other_key "" total_key key (λ e. absurd (omega (arith, e, latency)))

  named_none : (s k : String) → (k == key) ≡ false → increments key (incr_named s k) ≡ 0
  named_none s k other = elim (Bool-cases (s == "")) [
    | inl empty ↦ rw empty
    | inr named ↦ rw (named, other)
  ]

  -- Only the latency commands of a request increment a latency counter.
  pub increments-request_counts :
      (f : Finished)
      → increments key (request_counts f) ≡ increments key (latency_counts f.duration_ms)
  unfolding request_counts
  increments-request_counts f =
      let latencies = latency_counts f.duration_ms in
      let clients = incr_named f.client_id (client_req_key f.client_id) in
      rw (total_other, status_other f.status_code)
        (omega (
          arith,
          increments-append key (incr_named f.namespace (ns_req_key f.namespace))
              (clients ++ latencies),
          increments-append key clients latencies,
          named_none f.namespace (ns_req_key f.namespace) (ns_other f.namespace),
          named_none f.client_id (client_req_key f.client_id) (client_other f.client_id),
        ))

abbrev pub bucket_key : ℕ → String
bucket_key bucket = latency_bucket_key (show_nat bucket)

abbrev same_bool : Bool → Bool → Bool
same_bool true b = b
same_bool false b = not b

-- The buckets are told apart by their keys.
abbrev pub Apart : ℕ → List ℕ → Type 0
Apart bucket [] = Unit
Apart bucket (b ∷ bs) = ((bucket_key b == bucket_key bucket) ≡ nat_eq b bucket) × Apart bucket bs

abbrev pub occurrences : ℕ → List ℕ → ℕ
occurrences bucket [] = 0
occurrences bucket (b ∷ bs) = one_if (nat_eq b bucket) + occurrences bucket bs

incr_step :
    (key k : String) (test : Bool) (rest : List Count)
    → increments key (if test then incr k ∷ rest else rest)
      ≡ one_if (test && (k == key)) + increments key rest
incr_step key k true rest = refl
incr_step key k false rest = omega arith

bucket_step :
    (duration : Float) (bucket b n : ℕ)
    → one_if (float_le_nat duration b && nat_eq b bucket)
        + (if float_le_nat duration bucket then n else 0)
      ≡ (if float_le_nat duration bucket then one_if (nat_eq b bucket) + n else 0)
bucket_step duration bucket b n = elim (Bool-cases (nat_eq b bucket)) [
  | inl same ↦
      let e : b ≡ bucket = ground (arith, same) in
      rw (same, e)
        (elim (Bool-cases (float_le_nat duration bucket)) [ inl yes' ↦ rw yes' | inr no' ↦ rw no' ])
  | inr other ↦ rw other (ground arith)
]

increments-incr_buckets :
    (duration : Float) (bucket : ℕ) (bs : List ℕ)
    → Apart bucket bs
    → increments (bucket_key bucket) (incr_buckets duration bs)
      ≡ (if float_le_nat duration bucket then occurrences bucket bs else 0)
unfolding incr_buckets
increments-incr_buckets duration bucket [] apart = ground arith
increments-incr_buckets duration bucket (b ∷ bs) (here, apart) =
    incr_step (bucket_key bucket) (bucket_key b) (float_le_nat duration b)
      (incr_buckets duration bs)
    ∙ rw (here, increments-incr_buckets duration bucket bs apart)
        (bucket_step duration bucket b (occurrences bucket bs))

-- A bucket is a latency counter, is apart from the others and from that of all observations.
abbrev pub IsBucket : ℕ → Type 0
IsBucket bucket =
    IsLatency (bucket_key bucket)
    × Apart bucket latency_buckets
    × (occurrences bucket latency_buckets ≡ 1)
    × ((latency_bucket_key "inf" == bucket_key bucket) ≡ false)
    × ((latency_count_key == bucket_key bucket) ≡ false)

pub increments-latency_counts :
    (duration : Float) (bucket : ℕ)
    → IsBucket bucket
    → increments (bucket_key bucket) (latency_counts duration)
      ≡ one_if (float_is_pos duration && float_le_nat duration bucket)
unfolding latency_counts
increments-latency_counts duration bucket (latency, apart, once, not_inf, not_count) =
    let counted = increments-incr_buckets duration bucket latency_buckets apart in
    let split =
      increments-append (bucket_key bucket) (incr_buckets duration latency_buckets)
        (incr (latency_bucket_key "inf") ∷ []) in
    elim (Bool-cases (float_is_pos duration)) [
      | inr zero' ↦ rw zero'
      | inl positive ↦ rw (positive, not_count, split, not_inf, counted, once) (ground arith)
    ]

pub latency_buckets-IsBucket : All IsBucket latency_buckets
unfolding latency_bucket_key show_nat
latency_buckets-IsBucket = ground arith

increments-incr_buckets_none :
    (key : String) (duration : Float) (bs : List ℕ)
    → All (λ b. (bucket_key b == key) ≡ false) bs
    → increments key (incr_buckets duration bs) ≡ 0
unfolding incr_buckets
increments-incr_buckets_none key duration [] h = refl
increments-incr_buckets_none key duration (b ∷ bs) (other, h) =
    incr_step key (bucket_key b) (float_le_nat duration b) (incr_buckets duration bs)
    ∙ rw (other, increments-incr_buckets_none key duration bs h) (ground arith)

-- The counter of all observations: the bucket with no bound, and `latency_count`.
abbrev pub IsTotal : String → Type 0
IsTotal key =
    IsLatency key
    × All (λ b. (bucket_key b == key) ≡ false) latency_buckets
    × (one_if (latency_count_key == key) + one_if (latency_bucket_key "inf" == key) ≡ 1)

pub inf-IsTotal : IsTotal (latency_bucket_key "inf")
unfolding latency_bucket_key show_nat
inf-IsTotal = ground arith

pub latency_count-IsTotal : IsTotal latency_count_key
unfolding latency_bucket_key show_nat
latency_count-IsTotal = ground arith

pub increments-latency_counts_total :
    (duration : Float) (key : String)
    → IsTotal key
    → increments key (latency_counts duration) ≡ one_if (float_is_pos duration)
unfolding latency_counts
increments-latency_counts_total duration key (latency, others, once) =
    elim (Bool-cases (float_is_pos duration)) [
      | inr zero' ↦ rw zero'
      | inl positive ↦ rw positive (
          omega (
            arith,
            increments-append key (incr_buckets duration latency_buckets)
                (incr (latency_bucket_key "inf") ∷ []),
            increments-incr_buckets_none key duration latency_buckets others,
            once,
          ))
    ]
