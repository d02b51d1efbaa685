-- ===== src/Metrics.antt =====
-- app/utils/metrics.py: the counters of requests, in Redis under `redgw:metrics`.
mod Increments
pub mod Histogram
pub mod Snapshot
pub mod Tests
use redgw_lite.Prelude.{
  ℕ, String, Bool, true, false, Option, none, some, List, [], ◌∷◌, ◌++◌, ◌+◌, ◌⧺◌, ◌==◌, show_nat,
  if◌then◌else◌,
}
use redgw_lite.Python.Value.{Float, float_is_pos, float_le_nat}

-- `_LATENCY_BUCKETS`
abbrev pub latency_buckets : List ℕ
latency_buckets = 5 ∷ 10 ∷ 25 ∷ 50 ∷ 100 ∷ 250 ∷ 500 ∷ 1000 ∷ 5000 ∷ []

abbrev pub total_key : String
total_key = "redgw:metrics:total_requests"

unfoldable pub status_key : ℕ → String
status_key status_code = "redgw:metrics:status:" ⧺ show_nat status_code

unfoldable pub ns_req_key : String → String
ns_req_key ns = "redgw:metrics:ns:" ⧺ ns

unfoldable pub client_req_key : String → String
client_req_key client_id = "redgw:metrics:client:" ⧺ client_id

-- `_latency_bucket_key(bucket)`, for the text of the bucket.
unfoldable pub latency_bucket_key : String → String
latency_bucket_key bucket = "redgw:metrics:latency:" ⧺ bucket

abbrev pub latency_sum_key : String
latency_sum_key = "redgw:metrics:latency_sum"

abbrev pub latency_count_key : String
latency_count_key = "redgw:metrics:latency_count"

unfoldable pub auth_fail_key : String → String
auth_fail_key reason = "redgw:metrics:auth_failures:" ⧺ reason

unfoldable pub audit_dropped_key : String → String
audit_dropped_key cause = "redgw:metrics:audit_dropped:" ⧺ cause

-- The commands that this file sends to count.
pub data Count : Type 0 where
  incr : String → Count
  incrbyfloat : String → Float → Count

-- A finished request, as the middleware hands it over.
pub record Finished : Type 0 where
  pub status_code : ℕ
  pub duration_ms : Float
  pub namespace : String
  pub client_id : String

-- `if s: pipe.incr(key)`
abbrev pub incr_named : String → String → List Count
incr_named s key = if s == "" then [] else incr key ∷ []

-- `for bucket in buckets: if duration_ms <= bucket: pipe.incr(…)`
unfoldable pub incr_buckets : Float → List ℕ → List Count
incr_buckets duration_ms [] = []
incr_buckets duration_ms (bucket ∷ buckets) =
    let rest = incr_buckets duration_ms buckets in
    if float_le_nat duration_ms bucket
    then incr (latency_bucket_key (show_nat bucket)) ∷ rest
    else rest

unfoldable pub latency_counts : Float → List Count
latency_counts duration_ms =
    if float_is_pos duration_ms
    then incrbyfloat latency_sum_key duration_ms
      ∷ incr latency_count_key
      ∷ (incr_buckets duration_ms latency_buckets ++ incr (latency_bucket_key "inf") ∷ [])
    else []

-- What `record_request_async` queues in its pipeline.
unfoldable pub request_counts : Finished → List Count
request_counts f =
    incr total_key
    ∷ incr (status_key f.status_code)
    ∷ (incr_named f.namespace (ns_req_key f.namespace)
        ++ (incr_named f.client_id (client_req_key f.client_id) ++ latency_counts f.duration_ms))

-- The client as this file uses it to count: a single command and a pipeline. An exception is dropped,
-- so that only what becomes of the server's state is seen.
pub record Counters (R : Type 0) : Type 0 where
  pub send : Count → R → R
  pub pipeline : List Count → R → R

module _ {R : Type 0} (counters : Counters R) where
  unfoldable pub record_request : Finished → R → R
  record_request f r = counters.pipeline (request_counts f) r

  unfoldable pub record_auth_failure : String → R → R
  record_auth_failure reason r = counters.send (incr (auth_fail_key reason)) r

  unfoldable pub record_audit_dropped : String → R → R
  record_audit_dropped cause r = counters.send (incr (audit_dropped_key cause)) r

  -- The requests of a server, one after the other.
  unfoldable pub record_requests : List Finished → R → R
  record_requests [] r = r
  record_requests (f ∷ fs) r = record_requests fs (record_request f r)
