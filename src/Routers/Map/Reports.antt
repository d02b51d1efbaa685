-- ===== src/Routers/Map/Reports.antt =====
-- The ttl that the handlers of app/routers/map.py report.
use redgw_lite.Prelude.{
  String, ◌≡◌, Bool, true, false, List, [], ◌∷◌, ℤ, pos, negsuc, zero, suc, refl, is_pos,
}
use redgw_lite.Python.Value.{Value, equals_int, normalised-ne}
use redgw_lite.Python.Exec.{Exec, returned, ◌>>=◌, lift}
use redgw_lite.Python.Yields.{Yields, Yields-bind-lift, Yields-bind-with, yields_rules}
use redgw_lite.Response.{Response, ReportsTtl}
use redgw_lite.Settings.{DefaultsConfig}
use redgw_lite.Redis.{Command, Redis, World, execute, last_of_results}
use redgw_lite.Auth.ApiKey.{ClientInfo}
use redgw_lite.Validation.{expire_or_persist}
use redgw_lite.Validation.Keeps.{Yields-touch_key}
use redgw_lite.Routers.Map.{
  MapRequest, read, read_field, touch, write, write_field, serve, batch_get_map, batch_set_map,
  get_map, get_map_field, set_map, touch_map, set_field_for, set_map_field, delete_map,
  delete_map_field,
}

-- Redis runs a transaction with no other command between its commands. So a key that HSET has
-- written, and that EXPIRE with a positive lifetime or PERSIST leaves in place, is there when TTL,
-- the last command, asks for it: the last reply is not -2.
pub record IsAtomic {R : Type 0} (redis : Redis R) : Type 0 where
  pub timed :
      (k : String) (fields : List (String × String)) (ttl : ℤ) (r : R) (results : List Value)
      (v : Value)
      → (redis.execute true
          (Command.hset k fields ∷ expire_or_persist k ttl ∷ Command.ttl k ∷ [])
          r).0
        ≡ returned results
      → last_of_results results ≡ returned v
      → equals_int v (negsuc 1) ≡ false

module _ {R : Type 0} (redis : Redis R) (atomic : IsAtomic redis) (defaults : DefaultsConfig)
    (client : ClientInfo) where
  -- A last reply that is not -2.
  abbrev LastIsThere : List Value → Type 0
  LastIsThere results =
      (v : Value) → last_of_results results ≡ returned v → equals_int v (negsuc 1) ≡ false

  timed-Yields :
      (k : String) (fields : List (String × String)) (ttl : ℤ)
      → Yields {W = World R} LastIsThere (
          execute redis true (Command.hset k fields ∷ expire_or_persist k ttl ∷ Command.ttl k ∷ []))
  unfolding execute
  timed-Yields k fields ttl = record {
    at = λ w results h v last. atomic.timed k fields ttl w.redis results v h last;
  }

  -- The end of the two handlers that report the last reply as it is.
  last-Yields :
      (k : String) (fields : List (String × String)) (ttl : ℤ) (f : Value → Exec (World R) Response)
      → ((v : Value) → equals_int v (negsuc 1) ≡ false → Yields ReportsTtl (f v))
      → Yields ReportsTtl (
          execute redis true (Command.hset k fields ∷ expire_or_persist k ttl ∷ Command.ttl k ∷ [])
          >>= λ results. lift (last_of_results results) >>= f)
  last-Yields k fields ttl f yf =
      Yields-bind-with LastIsThere _ _ (timed-Yields k fields ttl)
        λ results there. Yields-bind-lift (last_of_results results) f λ v last. yf v (there v last)

  expiring-Yields :
      (k : String) (fields : List (String × String)) (ttl : ℤ) (f : Value → Exec (World R) Response)
      → is_pos ttl ≡ true
      → ((v : Value) → equals_int v (negsuc 1) ≡ false → Yields ReportsTtl (f v))
      → Yields ReportsTtl (
          execute redis true (Command.hset k fields ∷ Command.expire k ttl ∷ Command.ttl k ∷ [])
          >>= λ results. lift (last_of_results results) >>= f)
  expiring-Yields k fields (pos zero) f positive yf = cc
  expiring-Yields k fields (pos (suc n)) f positive yf = last-Yields k fields (pos (suc n)) f yf
  expiring-Yields k fields (negsuc n) f positive yf = cc

  set_field_for-Yields :
      (ns key field value : String) (ttl : ℤ) (timed : Bool)
      → is_pos ttl ≡ timed
      → Yields ReportsTtl (set_field_for redis defaults client ns key field value ttl timed)
  unfolding set_field_for
  set_field_for-Yields ns key field value ttl true h =
      search (expiring-Yields, yields_rules) depth 14
  set_field_for-Yields ns key field value ttl false h =
      search (yields_rules, normalised-ne) depth 14

  map-Yields : (ns : String) (q : MapRequest) → Yields ReportsTtl (serve redis defaults client ns q)
  unfolding batch_get_map batch_set_map get_map get_map_field set_map touch_map set_map_field
      delete_map delete_map_field
  map-Yields ns (write key body) = search (last-Yields, yields_rules) depth 14
  map-Yields ns (write_field key field body) =
      search (set_field_for-Yields, yields_rules, refl) depth 14
  map-Yields ns (read key) = search (yields_rules, normalised-ne) depth 14
  map-Yields ns (read_field key field) = search (yields_rules, normalised-ne) depth 14
  map-Yields ns (touch key ttl) = search (yields_rules, Yields-touch_key) depth 14
  map-Yields ns q = search (yields_rules) depth 14

  -- Where Redis runs transactions with nothing between their commands, a response of the Hash type
  -- never reports a ttl of -2, also where another client deletes the key between the commands of a
  -- pipeline that is no transaction.
  pub map_reports :
      (ns : String) (q : MapRequest) (w : World R) (response : Response)
      → (serve redis defaults client ns q w).0 ≡ returned response
      → ReportsTtl response
  map_reports ns q w response h = (map-Yields ns q).at w response h
