-- ===== src/Routers/Admin/Spared.antt =====
-- Rules for what the handlers of app/routers/admin.py keep, when they change storage keys only.
use redgw_lite.Prelude.{
  ℕ, zero, suc, String, ◌≡◌, Bool, true, false, Option, none, some, List, [], ◌∷◌, ◌++◌, ◌==◌,
  length, take, drop, leb, All, All-append, arith, Bool-cases, inl, inr, ℤ,
}
use redgw_lite.Python.Exec.{Exec, Exception, Result, returned, ◌>>=◌, ◌>>◌}
use redgw_lite.KeyBuilder.{build_key, resolve_type_prefix}
use redgw_lite.KeyBuilder.Roundtrip.{parse_key-build_key}
use redgw_lite.KeyBuilder.Scan.{resolve_type_prefix_storage}
use redgw_lite.Redis.{World}
use redgw_lite.Redis.Keeps.{Keeps}
use redgw_lite.Auth.ApiKey.{ClientInfo}
use redgw_lite.Auth.Guard.{require_admin}
use redgw_lite.Routers.Admin.Server.{
  AdminCommand, changed_keys, Iteration, AdminRedis, await, await_scan, await_info, iterate_keys,
}
use redgw_lite.Routers.Admin.{is_storage_key, max_bulk, batch_size, collect, batches}

abbrev pub AllStorage : List String → Type 0
AllStorage ks = All (λ k. is_storage_key k ≡ true) ks

-- A key that is built for a type is a storage key.
pub built_storage :
    (type prefix ns key redis_key : String)
    → resolve_type_prefix type ≡ returned prefix
    → build_key ns prefix key ≡ returned redis_key
    → is_storage_key redis_key ≡ true
unfolding is_storage_key
built_storage type prefix ns key redis_key resolved built =
    let stored = resolve_type_prefix_storage type prefix resolved in
    rw (parse_key-build_key ns prefix key redis_key stored built, is_storage_key) stored

pub collect_storage :
    (acc : List String) (ended : Option Exception) (ks : List String) (found : List String × Bool)
    → AllStorage acc
    → collect acc ended ks ≡ returned found
    → AllStorage (found.0)
unfolding collect
collect_storage acc none [] found h e = let s : acc ≡ found.0 = cc e in rw (← s) h
collect_storage acc (some x) [] found h e = cc e
collect_storage acc ended (k ∷ ks) found h e = elim (Bool-cases (is_storage_key k)) [
  | inr other ↦ collect_storage acc ended ks found h (rw other at e)
  | inl storage ↦ elim (Bool-cases (leb max_bulk (length acc))) [
    | inl full ↦ let s : acc ≡ found.0 = ground (arith, e, storage, full) in rw (← s) h
    | inr room ↦
        collect_storage (acc ++ k ∷ []) ended ks found
          (All-append (λ j. is_storage_key j ≡ true) acc (k ∷ []) h (storage, tt))
          (ground (arith, e, storage, room))
  ]
]

All-take : (n : ℕ) (ks : List String) → AllStorage ks → AllStorage (take n ks)
All-take zero ks h = tt
All-take (suc n) [] h = tt
All-take (suc n) (k ∷ ks) (h, hs) = (h, All-take n ks hs)

All-drop : (n : ℕ) (ks : List String) → AllStorage ks → AllStorage (drop n ks)
All-drop zero ks h = h
All-drop (suc n) [] h = tt
All-drop (suc n) (k ∷ ks) (h, hs) = All-drop n ks hs

pub batches_storage :
    (fuel : ℕ) (ks : List String) → AllStorage ks → All AllStorage (batches fuel ks)
unfolding batches
batches_storage zero ks h = tt
batches_storage (suc fuel) [] h = tt
batches_storage (suc fuel) (k ∷ ks) h = (
  All-take batch_size (k ∷ ks) h,
  batches_storage fuel (drop batch_size (k ∷ ks)) (All-drop batch_size (k ∷ ks) h),
)

-- What keeps `P`: reading, and where `writes` is true the commands that change storage keys only.
pub record Spared {R : Type 0} (redis : AdminRedis R) (P : R → Type 0) (writes : Bool)
    : Type 0 where
  pub call :
      (c : AdminCommand)
      → AllStorage (changed_keys c)
      → (writes ≡ false → changed_keys c ≡ [])
      → (r : R) → P r
      → P (redis.call c r).1
  pub scan :
      (cursor : ℤ) (pattern : String) (count : ℕ) (r : R)
      → P r
      → P (redis.scan cursor pattern count r).1
  pub scan_iter :
      (pattern : String) (count : ℕ) (r : R) → P r → P (redis.scan_iter pattern count r).1
  pub info : (section : String) (r : R) → P r → P (redis.info section r).1

module _ {R : Type 0} {redis : AdminRedis R} {P : R → Type 0} {writes : Bool}
    (spared : Spared redis P writes) where
  pub Keeps-call :
      (c : AdminCommand)
      → AllStorage (changed_keys c)
      → (writes ≡ false → changed_keys c ≡ [])
      → Keeps P (await redis c)
  unfolding await
  Keeps-call c storage reading = record { at = λ w h. spared.call c storage reading w.redis h }

  pub Keeps-read : (c : AdminCommand) → changed_keys c ≡ [] → Keeps P (await redis c)
  Keeps-read c e = Keeps-call c (rw e tt) (λ _. e)

  pub Keeps-scan :
      (cursor : ℤ) (pattern : String) (count : ℕ) → Keeps P (await_scan redis cursor pattern count)
  unfolding await_scan
  Keeps-scan cursor pattern count = record {
    at = λ w h. spared.scan cursor pattern count w.redis h;
  }

  pub Keeps-info : (section : String) → Keeps P (await_info redis section)
  unfolding await_info
  Keeps-info section = record { at = λ w h. spared.info section w.redis h }

  pub Keeps-iterate :
      {A : Type 0} (pattern : String) (count : ℕ) (loop : Iteration → Result A)
      → Keeps P (iterate_keys redis pattern count loop)
  unfolding iterate_keys
  Keeps-iterate pattern count loop = record { at = λ w h. spared.scan_iter pattern count w.redis h }

module _ {R : Type 0} {P : R → Type 0} (client : ClientInfo) where
  -- What follows `require_admin` is only run for the administrator.
  pub Keeps-admin :
      {B : Type 0} (m : Exec (World R) B)
      → ((client.client_id == "admin") ≡ true → Keeps P m)
      → Keeps P (require_admin client >> m)
  unfolding require_admin ◌>>=◌
  Keeps-admin m km = record {
    at = λ w h. elim (Bool-cases (client.client_id == "admin")) [
      | inl admin ↦ rw admin ((km admin).at w h)
      | inr other ↦ rw other h
    ];
  }
