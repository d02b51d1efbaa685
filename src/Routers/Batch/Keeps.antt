-- ===== src/Routers/Batch/Keeps.antt =====
-- The keys of a batch lie in the namespace and type of the request.
use redgw_lite.Prelude.{String, List, [], ◌∷◌, map, All, All-append, All-map}
use redgw_lite.Python.Exec.{Exec, ◌>>=◌, lift}
use redgw_lite.Python.Yields.{Yields, Yields-comprehension}
use redgw_lite.KeyBuilder.{build_key}
use redgw_lite.KeyBuilder.Roundtrip.{build_key-inversion}
use redgw_lite.Redis.{Command, World}
use redgw_lite.Redis.Keeps.{Keeps, InScope, scoped, keeps_rules, Keeps-bind-Yields}
use redgw_lite.Routers.Batch.{build_keys, flattened}

Yields-build_key :
    {W : Type 0} (ns prefix key : String)
    → Yields {W = W} (InScope ns prefix) (lift (build_key ns prefix key))
unfolding lift
Yields-build_key ns prefix key = record {
  at = λ w rk h. scoped key ((build_key-inversion ns prefix key rk h).2);
}

pub Yields-build_keys :
    {W : Type 0} (ns prefix : String) (ks : List String)
    → Yields {W = W} (All (InScope ns prefix)) (build_keys ns prefix ks)
unfolding build_keys
Yields-build_keys ns prefix ks = Yields-comprehension _ ks (Yields-build_key ns prefix)

pub Keeps-build_keys :
    {R : Type 0} {P : R → Type 0} (ns prefix : String) (ks : List String)
    → Keeps P (build_keys {W = World R} ns prefix ks)
unfolding build_keys
Keeps-build_keys ns prefix ks = search keeps_rules

pub Keeps-bind-keys :
    {R B : Type 0} {P : R → Type 0} (ns prefix : String) (ks : List String)
    (f : List String → Exec (World R) B)
    → ((rks : List String) → All (InScope ns prefix) rks → Keeps P (f rks))
    → Keeps P (build_keys ns prefix ks >>= f)
Keeps-bind-keys ns prefix ks f kf =
    Keeps-bind-Yields (All (InScope ns prefix)) (build_keys ns prefix ks) f
      (Keeps-build_keys ns prefix ks) (Yields-build_keys ns prefix ks) kf

-- The same, where the keys become one command each.
pub All-keys :
    (allowed : Command → Type 0) (ns prefix : String) (command : String → Command)
    → ((k : String) → InScope ns prefix k → allowed (command k))
    → (ks : List String) → All (InScope ns prefix) ks
    → All allowed (map command ks)
All-keys allowed ns prefix command h ks = All-map (InScope ns prefix) allowed command h ks

pub All-flattened :
    (allowed : Command → Type 0) (css : List (List Command))
    → All (All allowed) css
    → All allowed (flattened css)
All-flattened allowed [] h = tt
All-flattened allowed (cs ∷ css) (h, hs) =
    All-append allowed cs (flattened css) h (All-flattened allowed css hs)
