-- ===== src/KeyBuilder/Tests.antt =====
-- Keys of concrete requests.
use redgw_lite.Prelude.{
  String, ◌≡◌, refl, true, none, some, List, [], ◌∷◌, eq_iff, codes, ◌⊎◌, ◌↔◌, ◌++◌, ℕ,
}
use mathlib.Core.Bool.{false≢true}
use redgw_lite.Python.Exec.{returned}
use redgw_lite.KeyBuilder.{
  build_key, parse_key, build_scan_pattern, build_keys_batch, resolve_type_prefix, validate_ns,
  validate_key, ns_re, key_re, joined, or_star, contains, storage_prefixes, scan_pattern_re,
}
use redgw_lite.KeyBuilder.Roundtrip.{
  parse_key-build_key, build_key-injective, build_keys_batch-each_key, each_key,
}
use redgw_lite.KeyBuilder.Scan.{scan_confined, build_scan_pattern-accepts_iff, IsScanText}

built : build_key "ERP" "kv" "order:001" ≡ returned "ERP:kv:order:001"
unfolding build_key joined validate_ns validate_key ns_re key_re
built = refl

parse_key-build_key_example : parse_key "ERP:kv:order:001" ≡ returned ("ERP", "kv", "order:001")
parse_key-build_key_example =
    parse_key-build_key "ERP" "kv" "order:001" "ERP:kv:order:001" refl built

build_key-injective_example :
    (◌≡◌ {A = String} "ERP" "ERP")
    × (◌≡◌ {A = String} "kv" "kv")
    × (◌≡◌ {A = String} "order:001" "order:001")
build_key-injective_example =
    build_key-injective "ERP" "kv" "order:001" "ERP" "kv" "order:001" "ERP:kv:order:001" refl refl
      built built

build_keys_batch-each_key_example :
    build_keys_batch "ERP" "kv" ("a" ∷ "bad key" ∷ []) ≡ each_key "ERP" "kv" ("a" ∷ "bad key" ∷ [])
build_keys_batch-each_key_example = build_keys_batch-each_key "ERP" "kv" "a" ("bad key" ∷ [])

scanned : build_scan_pattern (some "ERP") (some "queue") "job*" ≡ returned "ERP:q:job*"
unfolding build_scan_pattern joined resolve_type_prefix scan_pattern_re
scanned = refl

build_scan_pattern-accepts_iff_example :
    (build_scan_pattern none none "a*" ≡ returned (joined (or_star none) "*" "a*"))
    ↔ ((s : List ℕ) × IsScanText s × ((codes "a*" ≡ s) ⊎ (codes "a*" ≡ s ++ 10 ∷ [])))
build_scan_pattern-accepts_iff_example = build_scan_pattern-accepts_iff none "a*"

scan_confined_example :
    (prefix : String) × (resolve_type_prefix "queue" ≡ returned prefix)
    × (contains prefix storage_prefixes ≡ true)
    × (◌≡◌ {A = String} "ERP:q:job*" (joined (or_star (some "ERP")) prefix "job*"))
scan_confined_example =
    scan_confined (some "ERP") "queue" "job*" "ERP:q:job*"
      (λ e. false≢true ((eq_iff "queue" "").1 e)) scanned
