-- ===== src/Routers/Kv/Store.antt =====
-- The single-key handlers of app/routers/kv.py implement a map from keys to texts.
use redgw_lite.Prelude.{
  String, ◌≡◌, refl, ap, true, false, Option, none, some, [], ◌∷◌, is_pos, if◌then◌else◌,
}
use redgw_lite.Python.Value.{str}
use redgw_lite.Python.Exec.{returned, ◌>>=◌}
use redgw_lite.Settings.{DefaultsConfig}
use redgw_lite.KeyBuilder.{ns_re, key_re, kv_prefix, joined}
use redgw_lite.Redis.{Redis, World, await, execute}
use redgw_lite.Auth.ApiKey.{ClientInfo}
use redgw_lite.Auth.Guard.{check_access, require_access}
use redgw_lite.Auth.Guard.Permissions.{permission}
use redgw_lite.Validation.{resolve_ttl, check_value_size, exceeds_size}
use redgw_lite.Routers.Kv.{
  KvSetRequest, writes, serve, get_kv, set_kv, delete_kv, exists_kv, set_kv_nx,
}
use redgw_lite.Response.{data_of}
use redgw_lite.KeyBuilder.Roundtrip.{build_key_of_valid}
use redgw_lite.Routers.Kv.Spec.{
  StringServer, KeyRequest, get_key, delete_key, has_key, put_key, put_new_key, request, specified,
  Fits,
}

module _ {R : Type 0} (redis : Redis R) (server : StringServer redis) (defaults : DefaultsConfig)
    (client : ClientInfo) (ns key : String) (valid_ns : ns_re ns ≡ true)
    (valid_key : key_re key ≡ true) where
  abbrev pub held : World R → Option String
  held w = server.contents (joined ns kv_prefix key) w.redis

  get_lem :
      (w : World R) (o : Option String)
      → held w ≡ o
      → check_access client ns "read" ≡ true
      → (
        data_of (get_kv redis defaults client ns key w).0,
        held (get_kv redis defaults client ns key w).1,
      )
        ≡ specified ns key get_key o
  unfolding get_kv require_access execute ◌>>=◌
  get_lem w none e granted = rw (
    granted,
    build_key_of_valid ns kv_prefix key valid_ns valid_key,
    server.get (joined ns kv_prefix key) w.redis,
    e,
    server.contents-get (joined ns kv_prefix key) w.redis,
    e,
  )
  get_lem w (some v) e granted = rw (
    granted,
    build_key_of_valid ns kv_prefix key valid_ns valid_key,
    server.get (joined ns kv_prefix key) w.redis,
    e,
    server.contents-get (joined ns kv_prefix key) w.redis,
    e,
  )

  delete_lem :
      (w : World R) (o : Option String)
      → held w ≡ o
      → check_access client ns "write" ≡ true
      → (
        data_of (delete_kv redis defaults client ns key w).0,
        held (delete_kv redis defaults client ns key w).1,
      )
        ≡ specified ns key delete_key o
  unfolding delete_kv require_access await ◌>>=◌
  delete_lem w none e granted = rw (
    granted,
    build_key_of_valid ns kv_prefix key valid_ns valid_key,
    server.delete (joined ns kv_prefix key) w.redis,
    e,
    server.contents-delete (joined ns kv_prefix key) w.redis,
  )
  delete_lem w (some v) e granted = rw (
    granted,
    build_key_of_valid ns kv_prefix key valid_ns valid_key,
    server.delete (joined ns kv_prefix key) w.redis,
    e,
    server.contents-delete (joined ns kv_prefix key) w.redis,
  )

  exists_lem :
      (w : World R) (o : Option String)
      → held w ≡ o
      → check_access client ns "read" ≡ true
      → (
        data_of (exists_kv redis defaults client ns key w).0,
        held (exists_kv redis defaults client ns key w).1,
      )
        ≡ specified ns key has_key o
  unfolding exists_kv require_access await ◌>>=◌
  exists_lem w none e granted = rw (
    granted,
    build_key_of_valid ns kv_prefix key valid_ns valid_key,
    server.exist (joined ns kv_prefix key) w.redis,
    e,
    server.contents-exists (joined ns kv_prefix key) w.redis,
    e,
  )
  exists_lem w (some v) e granted = rw (
    granted,
    build_key_of_valid ns kv_prefix key valid_ns valid_key,
    server.exist (joined ns kv_prefix key) w.redis,
    e,
    server.contents-exists (joined ns kv_prefix key) w.redis,
    e,
  )

  set_lem :
      (w : World R) (body : KvSetRequest)
      → exceeds_size body.value defaults.max_value_size ≡ false
      → check_access client ns "write" ≡ true
      → (
        data_of (set_kv redis defaults client ns key body w).0,
        held (set_kv redis defaults client ns key body w).1,
      )
        ≡ specified ns key (put_key body) (held w)
  unfolding set_kv require_access check_value_size await ◌>>=◌
  set_lem w body fits granted = rw (
    granted,
    fits,
    build_key_of_valid ns kv_prefix key valid_ns valid_key,
    server.set (joined ns kv_prefix key) body.value (resolve_ttl defaults body.ttl) w.redis,
    server.contents-set (joined ns kv_prefix key) body.value (resolve_ttl defaults body.ttl)
        w.redis,
  )

  set_nx_lem :
      (w : World R) (o : Option String) (body : KvSetRequest)
      → held w ≡ o
      → check_access client ns "write" ≡ true
      → (
        data_of (set_kv_nx redis defaults client ns key body w).0,
        held (set_kv_nx redis defaults client ns key body w).1,
      )
        ≡ specified ns key (put_new_key body) o
  unfolding set_kv_nx require_access await ◌>>=◌
  set_nx_lem w none body e granted =
      let ttl = resolve_ttl defaults body.ttl in
      rw (
        granted,
        build_key_of_valid ns kv_prefix key valid_ns valid_key,
        server.set_nx (joined ns kv_prefix key) body.value (if is_pos ttl then some ttl else none)
            w.redis,
        e,
        server.contents-set_nx (joined ns kv_prefix key) body.value
            (if is_pos ttl then some ttl else none) w.redis,
        e,
      )
  set_nx_lem w (some v) body e granted =
      let ttl = resolve_ttl defaults body.ttl in
      rw (
        granted,
        build_key_of_valid ns kv_prefix key valid_ns valid_key,
        server.set_nx (joined ns kv_prefix key) body.value (if is_pos ttl then some ttl else none)
            w.redis,
        e,
        server.contents-set_nx (joined ns kv_prefix key) body.value
            (if is_pos ttl then some ttl else none) w.redis,
        e,
      )

  -- With a server that does what Redis documents of GET, SET, SETEX, DEL and EXISTS, the handlers for
  -- one key implement a map: for a valid namespace and key, a client with the permission, and a value
  -- within the limit, the data of the response, or the exception, and what the key holds afterwards
  -- are those of the map's operation on what the key held before.
  pub kv-specified :
      (q : KeyRequest) (w : World R)
      → check_access client ns (permission (writes (request key q))) ≡ true
      → Fits defaults q
      → (
        data_of (serve redis defaults client ns (request key q) w).0,
        held (serve redis defaults client ns (request key q) w).1,
      )
        ≡ specified ns key q (held w)
  kv-specified get_key w granted fits = get_lem w (held w) refl granted
  kv-specified delete_key w granted fits = delete_lem w (held w) refl granted
  kv-specified has_key w granted fits = exists_lem w (held w) refl granted
  kv-specified (put_key body) w granted fits = set_lem w body fits granted
  kv-specified (put_new_key body) w granted fits = set_nx_lem w (held w) body refl granted

  -- What is stored is what is read: with such a server, and for a valid namespace and key, a client
  -- that may write and read there, and a value within the limit, get_kv after set_kv answers with the
  -- value.
  pub get_kv-set_kv :
      (body : KvSetRequest) (w : World R)
      → check_access client ns "read" ≡ true
      → check_access client ns "write" ≡ true
      → exceeds_size body.value defaults.max_value_size ≡ false
      → data_of
          (get_kv redis defaults client ns key (set_kv redis defaults client ns key body w).1).0
        ≡ returned (("value", str body.value) ∷ [])
  get_kv-set_kv body w reads puts fits =
      ap (λ p. p.0)
        (get_lem (set_kv redis defaults client ns key body w).1 (some body.value)
          (ap (λ p. p.1) (set_lem w body fits puts)) reads)
