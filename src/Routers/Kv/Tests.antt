-- ===== src/Routers/Kv/Tests.antt =====
-- Concrete requests of the String type, against a server in memory.
use redgw_lite.Prelude.{
  String, ◌≡◌, refl, Bool, true, false, none, some, [], ◌∷◌, ◌⊎◌, ℤ, negsuc, is_pos, arith, eq_refl,
  if◌then◌else◌, Option-cases, inl, inr,
}
use redgw_lite.Python.Value.{str, int, bool}
use redgw_lite.Python.Exec.{Exception, returned, raised, ◌>>=◌}
use redgw_lite.Response.{ok_ttl}
use redgw_lite.KeyBuilder.{joined, build_key, validate_ns, validate_key, ns_re, key_re}
use redgw_lite.Redis.{Command, execute}
use redgw_lite.Redis.Memory.{Memory, memory, memory_call, memory_run, lookup-erase}
use redgw_lite.Auth.ApiKey.{lookup}
use redgw_lite.Auth.ApiKey.Resolution.{lookup-store}
use redgw_lite.Auth.Guard.{check_access, granted, require_access}
use redgw_lite.Validation.{resolve_ttl, exceeds_size}
use redgw_lite.Response.{data_of}
use redgw_lite.Routers.Kv.Spec.{StringServer, put_new_key, specified}
use redgw_lite.Routers.Kv.Store.{held, kv-specified, get_kv-set_kv}
use redgw_lite.Routers.Fixtures.{defaults, writer, start}
use redgw_lite.Routers.Kv.{
  KvSetRequest, KvBatchSetRequest, batch_set_kv, read, write_nx, serve, get_kv, set_kv,
}
use redgw_lite.Routers.Kv.Atomic.{AllFit, set_commands, batch_set_kv-all_or_nothing}

abbrev body : KvSetRequest
body = record { value = "2"; ttl = none }

got :
    (serve memory defaults writer "ERP" (read "a") start).0
    ≡ returned (ok_ttl (("value", str "1") ∷ []) "ERP" "a" "string" (int (negsuc 0)))
unfolding get_kv require_access check_access granted lookup build_key validate_ns validate_key ns_re
    key_re joined execute memory_run memory_call ◌>>=◌
got = refl

abbrev batch : KvBatchSetRequest
batch = record { items = ("a", "2") ∷ ("b", "12345") ∷ []; ttl = none }

batch_set_kv-all_or_nothing_example :
    ((e : Exception) × ((batch_set_kv memory defaults writer "ERP" batch start).0 ≡ raised e)
      × ((batch_set_kv memory defaults writer "ERP" batch start).1.redis ≡ start.redis))
    ⊎ (AllFit defaults batch.items
        × ((batch_set_kv memory defaults writer "ERP" batch start).1.redis
            ≡ (memory.execute true
                (set_commands "ERP" (resolve_ttl defaults batch.ttl) batch.items)
                start.redis).1))
batch_set_kv-all_or_nothing_example =
    batch_set_kv-all_or_nothing memory defaults writer "ERP" batch start

-- The server in memory keeps a map.
memory-StringServer : StringServer memory
unfolding memory_call memory_run
memory-StringServer = record {
  contents = λ k r. lookup k r;
  lifetime = λ k r. int (negsuc 0);
  get = λ k r. refl;
  contents-get = λ k r. refl;
  set = λ k v ttl r. sets k v r (is_pos ttl) ttl;
  contents-set = λ k v ttl r. sets_contents k v r (is_pos ttl) ttl;
  set_nx = λ k v ex r. elim (Option-cases (lookup k r)) [
    | inl absent ↦ rw (memory_call, absent)
    | inr (u, there) ↦ rw (memory_call, there)
  ];
  contents-set_nx = λ k v ex r. elim (Option-cases (lookup k r)) [
    | inl absent ↦ rw (memory_call, absent) (ground (arith, lookup-store k k v r, eq_refl k))
    | inr (u, there) ↦ rw (memory_call, there) there
  ];
  delete = λ k r. refl;
  contents-delete = λ k r. ground (arith, lookup-erase k k r, eq_refl k);
  exist = λ k r. refl;
  contents-exists = λ k r. refl;
}
  where
    sets :
        (k v : String) (r : Memory) (expires : Bool) (ttl : ℤ)
        → (memory_call (if expires then Command.setex k ttl v else Command.set k v false none) r).0
          ≡ returned (bool true)
    sets k v r true ttl = refl
    sets k v r false ttl = refl

    sets_contents :
        (k v : String) (r : Memory) (expires : Bool) (ttl : ℤ)
        → lookup k
            (memory_call
              (if expires then Command.setex k ttl v else Command.set k v false none)
              r).1
          ≡ some v
    sets_contents k v r true ttl = ground (arith, lookup-store k k v r, eq_refl k)
    sets_contents k v r false ttl = ground (arith, lookup-store k k v r, eq_refl k)

erp_valid : ns_re "ERP" ≡ true
unfolding ns_re
erp_valid = refl

key_valid : key_re "a" ≡ true
unfolding key_re
key_valid = refl

may_write : check_access writer "ERP" "write" ≡ true
unfolding check_access granted lookup
may_write = refl

may_read : check_access writer "ERP" "read" ≡ true
unfolding check_access granted lookup
may_read = refl

body_fits : exceeds_size body.value defaults.max_value_size ≡ false
unfolding exceeds_size
body_fits = refl

kv-specified_example :
    (
      data_of (serve memory defaults writer "ERP" (write_nx "a" body) start).0,
      held memory memory-StringServer defaults writer "ERP" "a" erp_valid key_valid
          (serve memory defaults writer "ERP" (write_nx "a" body) start).1,
    )
    ≡ specified "ERP" "a"
        (put_new_key body)
        (held memory memory-StringServer defaults writer "ERP" "a" erp_valid key_valid start)
kv-specified_example =
    kv-specified memory memory-StringServer defaults writer "ERP" "a" erp_valid key_valid
      (put_new_key body) start may_write tt

get_kv-set_kv_example :
    data_of
      (get_kv memory defaults writer "ERP" "a"
        (set_kv memory defaults writer "ERP" "a" body start).1).0
    ≡ returned (("value", str "2") ∷ [])
get_kv-set_kv_example =
    get_kv-set_kv memory memory-StringServer defaults writer "ERP" "a" erp_valid key_valid body
      start may_read may_write body_fits
