-- ===== src/Metrics/Tests.antt =====
-- Concrete requests that are counted.
use redgw_lite.Prelude.{ℕ, String, refl, List, [], ◌∷◌, ◌+◌, All, pos, negsuc}
use redgw_lite.Python.Value.{finite}
use redgw_lite.Metrics.{Finished, Counters, latency_buckets, latency_bucket_key, latency_count_key}
use redgw_lite.Metrics.Increments.{increments, bucket_key}
use redgw_lite.Metrics.Histogram.{Counting, Grown, within_bound, observed, record_requests-Grown}

abbrev counters : Counters (String → ℕ)
counters = record {
  send = λ c r k. r k + increments k (c ∷ []);
  pipeline = λ cs r k. r k + increments k cs;
}

abbrev counting : Counting counters
counting = record { value = λ k r. r k; value-pipeline = λ k cs r. refl }

-- 7.5 ms and 0.25 ms.
abbrev requests : List Finished
requests =
    record {
      status_code = 200;
      duration_ms = finite (pos 15) (negsuc 0);
      namespace = "ERP";
      client_id = "erp";
    }
    ∷ record {
      status_code = 404;
      duration_ms = finite (pos 1) (negsuc 1);
      namespace = "";
      client_id = "";
    }
    ∷ []

record_requests-Grown_example :
    All
      (λ b. Grown counters counting (bucket_key b) (within_bound b) requests (λ k. 0))
      latency_buckets
    × Grown counters counting (latency_bucket_key "inf") observed requests (λ k. 0)
    × Grown counters counting latency_count_key observed requests (λ k. 0)
record_requests-Grown_example = record_requests-Grown counters counting requests (λ k. 0)
