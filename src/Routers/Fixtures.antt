-- ===== src/Routers/Fixtures.antt =====
-- Settings, clients and a server's state for the examples of the data types, and a property that no
-- command in the namespace ERP can break.
use redgw_lite.Prelude.{
  ℕ, String, ◌≡◌, ◌≢◌, sym, ap, ◌∙◌, refl, Bool, true, false, none, some, List, [], ◌∷◌, ◌++◌, pos,
  arith, All, codes, codes-append, ◌⧺◌,
}
use redgw_lite.Settings.{DefaultsConfig}
use redgw_lite.KeyBuilder.{joined}
use redgw_lite.Redis.{Command, World, keys}
use redgw_lite.Redis.Keeps.{InScope, scoped, Preserved, Allowed}
use redgw_lite.Redis.Memory.{Memory, memory, memory_call-other, memory_run-other}
use redgw_lite.Auth.ApiKey.{ClientInfo, lookup}

abbrev pub defaults : DefaultsConfig
defaults = record {
  ttl = pos 60;
  max_list_length = pos 10;
  max_stream_length = pos 10;
  max_value_size = pos 4;
}

abbrev pub reader : ClientInfo
reader = record { client_id = "erp"; description = ""; namespaces = ("ERP", "read" ∷ []) ∷ [] }

abbrev pub writer : ClientInfo
writer = record {
  client_id = "erp";
  description = "";
  namespaces = ("ERP", "read" ∷ "write" ∷ []) ∷ [];
}

abbrev pub start : World Memory
start = record {
  redis = ("HR:kv:x", "v") ∷ ("ERP:kv:a", "1") ∷ [];
  pending = none;
  auth_failures = [];
  scripts = [];
}

abbrev head_or : ℕ → List ℕ → ℕ
head_or d [] = d
head_or d (c ∷ cs) = c

module _ (prefix : String) where
  -- A key of another tenant.
  other_tenant : (k : String) → InScope "ERP" prefix k → k ≢ "HR:kv:x"
  other_tenant k (scoped key e) same =
      let first : ◌≡◌ {A = ℕ} b'E' b'H' = ap (head_or 0) (differ ∙ ap codes same) in
      absurd (omega arith)
    where
      differ : codes "ERP" ++ codes (":" ⧺ prefix ⧺ ":" ⧺ key) ≡ codes k
      differ =
          sym (codes-append "ERP" (":" ⧺ prefix ⧺ ":" ⧺ key)) ∙ ap codes (sym (unfold joined in e))

  other_tenants : (ks : List String) → All (InScope "ERP" prefix) ks → All (λ k. k ≢ "HR:kv:x") ks
  other_tenants [] h = tt
  other_tenants (k ∷ ks) (h, hs) = (other_tenant k h, other_tenants ks hs)

  spares : (w : Bool) (c : Command) → Allowed w "ERP" prefix c → All (λ k. k ≢ "HR:kv:x") (keys c)
  spares true c allowed = other_tenants (keys c) allowed
  spares false c allowed = other_tenants (keys c) (allowed.0)

  All-spare :
      (w : Bool) (cs : List Command)
      → All (Allowed w "ERP" prefix) cs
      → All (λ c. All (λ k. k ≢ "HR:kv:x") (keys c)) cs
  All-spare w [] h = tt
  All-spare w (c ∷ cs) (h, hs) = (spares w c h, All-spare w cs hs)

abbrev pub Untouched : Memory → Type 0
Untouched r = lookup "HR:kv:x" r ≡ some "v"

pub start-Untouched : Untouched start.redis
unfolding lookup
start-Untouched = refl

pub untouched : (w : Bool) (prefix : String) → Preserved memory Untouched w "ERP" prefix
untouched w prefix = record {
  call = λ c allowed r h. memory_call-other "HR:kv:x" (some "v") c r (spares prefix w c allowed) h;
  execute = λ transaction cs allowed r h.
      memory_run-other "HR:kv:x" (some "v") cs r (All-spare prefix w cs allowed) h;
}
