-- ===== src/Metrics/Histogram.antt =====
-- The latency histogram that app/utils/metrics.py keeps, over all requests.
use redgw_lite.Prelude.{
  ℕ, String, ◌≡◌, ◌∙◌, Bool, true, ◌&&◌, List, [], ◌∷◌, ◌+◌, ◌≤◌, All, arith, Bool-cases, inl, inr,
}
use redgw_lite.Python.Value.{float_is_pos, float_le_nat}
use redgw_lite.Metrics.{
  Count, Finished, Counters, latency_buckets, latency_bucket_key, latency_count_key, request_counts,
  record_request, record_requests,
}
use redgw_lite.Metrics.Increments.{
  one_if, increments, bucket_key, IsBucket, IsTotal, float_le_nat_mono, latency_buckets-IsBucket,
  inf-IsTotal, latency_count-IsTotal, increments-request_counts, increments-latency_counts,
  increments-latency_counts_total,
}

-- Redis as counters: INCR adds one, and only to its key.
pub record Counting {R : Type 0} (counters : Counters R) : Type 0 where
  pub value : String → R → ℕ
  pub value-pipeline :
      (key : String) (cs : List Count) (r : R)
      → value key (counters.pipeline cs r) ≡ value key r + increments key cs

abbrev pub number : (Finished → Bool) → List Finished → ℕ
number p [] = 0
number p (f ∷ fs) = one_if (p f) + number p fs

abbrev pub observed : Finished → Bool
observed f = float_is_pos f.duration_ms

abbrev pub within_bound : ℕ → Finished → Bool
within_bound bucket f = float_is_pos f.duration_ms && float_le_nat f.duration_ms bucket

module _ {R : Type 0} (counters : Counters R) (counting : Counting counters) where
  open counting use {value, value-pipeline}

  record_requests-value :
      (key : String) (p : Finished → Bool)
      → ((f : Finished) → increments key (request_counts f) ≡ one_if (p f))
      → (fs : List Finished) (r : R)
      → value key (record_requests counters fs r) ≡ value key r + number p fs
  unfolding record_requests record_request
  record_requests-value key p counted [] r = omega arith
  record_requests-value key p counted (f ∷ fs) r = omega (
    arith,
    record_requests-value key p counted fs (record_request counters f r),
    value-pipeline key (request_counts f) r,
    counted f,
  )

  -- By how much the counters grew.
  abbrev pub Grown : String → (Finished → Bool) → List Finished → R → Type 0
  Grown key p fs r = value key (record_requests counters fs r) ≡ value key r + number p fs

  record_requests-bucket_key :
      (fs : List Finished) (r : R) (bs : List ℕ)
      → All IsBucket bs
      → All (λ b. Grown (bucket_key b) (within_bound b) fs r) bs
  record_requests-bucket_key fs r [] h = tt
  record_requests-bucket_key fs r (b ∷ bs) (h, hs) = (
    record_requests-value (bucket_key b) (within_bound b)
        (λ f.
          increments-request_counts (bucket_key b) (h.0) f
          ∙ increments-latency_counts f.duration_ms b h)
        fs r,
    record_requests-bucket_key fs r bs hs,
  )

  record_requests-IsTotal :
      (key : String) → IsTotal key → (fs : List Finished) (r : R) → Grown key observed fs r
  record_requests-IsTotal key h fs r =
      record_requests-value key observed
        (λ f.
          increments-request_counts key (h.0) f
          ∙ increments-latency_counts_total f.duration_ms key h)
        fs r

  -- After any requests, each bucket has grown by the number of those that took some time, at most the
  -- bucket's bound; the bucket without a bound and `latency_count` have grown by the number of all
  -- that took some time. Requests with status codes, namespaces and client identifiers of any kind do
  -- not disturb these counters.
  pub record_requests-Grown :
      (fs : List Finished) (r : R)
      → All (λ b. Grown (bucket_key b) (within_bound b) fs r) latency_buckets
        × Grown (latency_bucket_key "inf") observed fs r
        × Grown latency_count_key observed fs r
  record_requests-Grown fs r = (
    record_requests-bucket_key fs r latency_buckets latency_buckets-IsBucket,
    record_requests-IsTotal (latency_bucket_key "inf") inf-IsTotal fs r,
    record_requests-IsTotal latency_count_key latency_count-IsTotal fs r,
  )

  -- No bucket is above the next one, and the last is not above the bucket without a bound.
  abbrev pub Ascending : R → List ℕ → Type 0
  Ascending r [] = Unit
  Ascending r (b ∷ []) = value (bucket_key b) r ≤ value (latency_bucket_key "inf") r
  Ascending r (b ∷ c ∷ bs) =
      (value (bucket_key b) r ≤ value (bucket_key c) r) × Ascending r (c ∷ bs)

  abbrev pub IsCumulative : R → Type 0
  IsCumulative r =
      Ascending r latency_buckets × (value (latency_bucket_key "inf") r ≡ value latency_count_key r)

  number_mono :
      (p q : Finished → Bool)
      → ((f : Finished) → p f ≡ true → q f ≡ true)
      → (fs : List Finished) → number p fs ≤ number q fs
  number_mono p q h [] = omega arith
  number_mono p q h (f ∷ fs) = elim (Bool-cases (p f)) [
    | inl held ↦ rw (held, h f held) (omega (arith, number_mono p q h fs))
    | inr other ↦ rw other (omega (arith, number_mono p q h fs))
  ]

  number_next :
      (a b : ℕ) (fs : List Finished)
      → a ≤ b
      → number (within_bound a) fs ≤ number (within_bound b) fs
  number_next a b fs h =
      number_mono (within_bound a) (within_bound b)
        (λ f held. ground (arith, held, float_le_nat_mono f.duration_ms a b h)) fs

  number_last : (a : ℕ) (fs : List Finished) → number (within_bound a) fs ≤ number observed fs
  number_last a fs = number_mono (within_bound a) observed (λ f held. ground (arith, held)) fs

  abbrev Sorted : List ℕ → Type 0
  Sorted [] = Unit
  Sorted (b ∷ []) = Unit
  Sorted (b ∷ c ∷ bs) = (b ≤ c) × Sorted (c ∷ bs)

  record_requests-Ascending :
      (fs : List Finished) (r : R) (bs : List ℕ)
      → All IsBucket bs
      → Sorted bs
      → Ascending r bs
      → Ascending (record_requests counters fs r) bs
  record_requests-Ascending fs r [] h s a = tt
  record_requests-Ascending fs r (b ∷ []) h s a = omega (
    arith,
    (record_requests-bucket_key fs r (b ∷ []) h).0,
    record_requests-IsTotal (latency_bucket_key "inf") inf-IsTotal fs r,
    number_last b fs,
    a,
  )
  record_requests-Ascending fs r (b ∷ c ∷ bs) (h, hs) (le, s) (a, as') =
      let (grown, _) = record_requests-bucket_key fs r (b ∷ []) (h, tt) in
      let (grown', _) = record_requests-bucket_key fs r (c ∷ bs) hs in
      (
        omega (arith, grown, grown', number_next b c fs le, a),
        record_requests-Ascending fs r (c ∷ bs) hs s as',
      )

  -- The histogram is cumulative after any requests, if it was before them: as the format of Prometheus
  -- wants it, no bucket counts more than the next, the last no more than that without a bound, and
  -- this one as many as `latency_count`.
  record_requests-IsCumulative :
      (fs : List Finished) (r : R) → IsCumulative r → IsCumulative (record_requests counters fs r)
  record_requests-IsCumulative fs r (ascending, same) = (
    record_requests-Ascending fs r latency_buckets latency_buckets-IsBucket (omega arith) ascending,
    omega (
      arith,
      record_requests-IsTotal (latency_bucket_key "inf") inf-IsTotal fs r,
      record_requests-IsTotal latency_count_key latency_count-IsTotal fs r,
      same,
    ),
  )
