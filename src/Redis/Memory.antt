-- ===== src/Redis/Memory.antt =====
-- A server that keeps texts under keys and answers GET, MGET, SET, SETEX, DEL and EXISTS: an input for examples.
use redgw_lite.Prelude.{
  String, Option, none, some, true, false, ◌==◌, if◌then◌else◌, List, [], ◌∷◌, ◌≡◌, ◌≢◌, negsuc,
  arith, eq_iff, All, Option-cases, inl, inr,
}
use redgw_lite.Python.Value.{Value, null, bool, int, list, items_of}
use redgw_lite.Python.Exec.{Result, returned, raised}
use redgw_lite.Redis.{Command, Redis, keys, reply_of, count_of}
use redgw_lite.Auth.ApiKey.{store, lookup}
use redgw_lite.Auth.ApiKey.Resolution.{lookup-store}

abbrev pub Memory : Type 0
Memory = List (String × String)

unfoldable pub erase : String → Memory → Memory
erase k [] = []
erase k ((j, v) ∷ d) = let rest = erase k d in if j == k then rest else (j, v) ∷ rest

pub lookup-erase :
    (k j : String) (d : Memory) → lookup j (erase k d) ≡ (if k == j then none else lookup j d)
unfolding lookup erase
lookup-erase k j [] = ground arith
lookup-erase k j ((i, w) ∷ d) =
    ground (arith, eq_iff i k, eq_iff i j, eq_iff k j, lookup-erase k j d)

abbrev values_at : Memory → List String → List Value
values_at r [] = []
values_at r (k ∷ ks) = reply_of (lookup k r) ∷ values_at r ks

-- SET with NX, on what the key holds.
abbrev pub put_new : String → String → Option String → Memory → Result Value × Memory
put_new k v none r = (returned (bool true), store k v r)
put_new k v (some u) r = (returned null, r)

unfoldable pub memory_call : Command → Memory → Result Value × Memory
memory_call (Command.get k) r = (returned (reply_of (lookup k r)), r)
memory_call (Command.mget ks) r = (returned (list (items_of (values_at r ks))), r)
memory_call (Command.set k v false ex) r = (returned (bool true), store k v r)
memory_call (Command.set k v true ex) r = put_new k v (lookup k r) r
memory_call (Command.delete k) r = (returned (count_of (lookup k r)), erase k r)
memory_call (Command.exists k) r = (returned (count_of (lookup k r)), r)
memory_call (Command.setex k t v) r = (returned (bool true), store k v r)
memory_call (Command.ttl k) r = (returned (int (negsuc 0)), r)
memory_call _ r = (returned null, r)

value_or_null : Result Value → Value
value_or_null (returned v) = v
value_or_null (raised e) = null

unfoldable pub memory_run : List Command → Memory → List Value × Memory
unfolding value_or_null
memory_run [] r = ([], r)
memory_run (c ∷ cs) r =
    let (v, r') = memory_call c r in let (vs, r'') = memory_run cs r' in (value_or_null v ∷ vs, r'')

abbrev pub memory : Redis Memory
memory = record {
  call = memory_call;
  execute = λ transaction cs r. let (vs, r') = memory_run cs r in (returned vs, r');
}

-- What a key holds that a command does not name.
pub memory_call-other :
    (k : String) (v : Option String) (c : Command) (r : Memory)
    → All (λ j. j ≢ k) (keys c)
    → lookup k r ≡ v
    → lookup k (memory_call c r).1 ≡ v
unfolding memory_call
memory_call-other k v (Command.set j s false ex) r (other, _) h =
    ground (arith, lookup-store j k s r, eq_iff j k)
memory_call-other k v (Command.set j s true ex) r (other, _) h = elim (Option-cases (lookup j r)) [
  | inl absent ↦ rw (memory_call, absent) (ground (arith, lookup-store j k s r, eq_iff j k))
  | inr (u, there) ↦ rw (memory_call, there) h
]
memory_call-other k v (Command.delete j) r (other, _) h =
    ground (arith, lookup-erase j k r, eq_iff j k)
memory_call-other k v (Command.setex j t s) r (other, _) h =
    ground (arith, lookup-store j k s r, eq_iff j k)
memory_call-other k v _ r other h = h

pub memory_run-other :
    (k : String) (v : Option String) (cs : List Command) (r : Memory)
    → All (λ c. All (λ j. j ≢ k) (keys c)) cs
    → lookup k r ≡ v
    → lookup k (memory_run cs r).1 ≡ v
unfolding memory_run
memory_run-other k v [] r other h = h
memory_run-other k v (c ∷ cs) r (o, os) h =
    memory_run-other k v cs (memory_call c r).1 os (memory_call-other k v c r o h)
