-- ===== src/Routers/Queue/Tests.antt =====
-- Concrete requests of the List type, against a server in memory, and a server of lists for the scripts.
use redgw_lite.Prelude.{
  String, ◌≡◌, ◌⊎◌, refl, true, false, not, all, none, List, [], ◌∷◌, ◌==◌, eq_iff, eq_refl, arith,
  length, ◌⧺◌, ℤ, pos, negsuc, int_le, show_int, show_nat, if◌then◌else◌,
}
use redgw_lite.Python.Value.{Value, null, int}
use redgw_lite.Python.Exec.{Result, returned, raised, ◌>>=◌}
use redgw_lite.Response.{Response, ok_ttl, error}
use redgw_lite.KeyBuilder.{joined, build_key, validate_ns, validate_key, ns_re, key_re}
use redgw_lite.Redis.{Command, Redis, World, await, execute}
use redgw_lite.Redis.Memory.{memory, memory_call, memory_run}
use redgw_lite.Auth.ApiKey.{lookup}
use redgw_lite.Auth.Guard.{check_access, granted, require_access}
use redgw_lite.Validation.{check_value_size, exceeds_size, resolve_ttl}
use redgw_lite.Response.{data_of}
use redgw_lite.Routers.Fixtures.{defaults, writer, start}
use redgw_lite.Routers.Queue.{
  Direction, left, right, single, batch, QueuePushRequest, QueueBatchPushRequest, push, serve,
  push_queue, batch_push_queue, timed_response, find_script, get_script, lua_source,
}
use redgw_lite.Routers.Queue.Bounds.{ScriptServer, batch_push_queue-bounded}
use redgw_lite.Routers.Queue.Lua.{
  ListServer, pushed, pushed_all, Outcome, batch_push, single_push, batch_push-Outcome,
  single_push-batch_push,
}
use redgw_lite.Routers.Queue.Cache.{IsCache, get_script-source}

abbrev body : QueuePushRequest
body = record { value = "2"; direction = left; ttl = none }

got :
    (serve memory defaults writer "ERP" (push "a" body) start).0
    ≡ returned (ok_ttl (("length", null) ∷ []) "ERP" "a" "list" (int (negsuc 0)))
unfolding push_queue timed_response find_script get_script require_access check_access granted
    lookup check_value_size exceeds_size resolve_ttl build_key validate_ns validate_key ns_re key_re
    joined await execute memory_run memory_call ◌>>=◌
got = refl

get_script-source_example :
    ((get_script batch right start).0 ≡ returned (lua_source batch right))
    × IsCache (get_script batch right start).1.scripts
    × ((get_script batch right start).1.redis ≡ start.redis)
get_script-source_example = get_script-source batch right start tt

-- A server of lists as a function from keys.
abbrev Lists : Type 0
Lists = String → List String

abbrev push_at : Direction → String → String → Lists → Lists
push_at d k v r j = if k == j then pushed d v (r j) else r j

lists : ListServer Lists
lists = record {
  contents = λ k r. r k;
  push = push_at;
  contents-push = λ d k v r. ground (arith, eq_refl k);
  contents-other = λ d k j v r differ. ground (arith, eq_iff k j);
}

abbrev one : Lists
one k = "x" ∷ []

batch_push-Outcome_example :
    Outcome lists "q"
      (pos 3)
      2
      one
      (pushed_all left ("y" ∷ "z" ∷ []) (lists.contents "q" one))
      (batch_push lists left "q" (pos 3) 2 ("y" ∷ "z" ∷ []) one)
batch_push-Outcome_example = batch_push-Outcome lists left "q" (pos 3) ("y" ∷ "z" ∷ []) one

single_push-batch_push_example :
    single_push lists right "q" "y" (pos 1) one
    ≡ batch_push lists right "q" (pos 1) 1 ("y" ∷ []) one
single_push-batch_push_example = single_push-batch_push lists right "q" "y" (pos 1) one

-- A server of lists that runs the scripts with the limit of the settings and keeps no lifetimes.
abbrev limit : ℤ
limit = defaults.max_list_length

abbrev answer : ℤ × Lists → Result Value × Lists
answer p = (returned (int p.0), p.1)

abbrev run_batch : Direction → String → List String → Lists → Result Value × Lists
run_batch d k (m ∷ n ∷ vs) r = answer (batch_push lists d k limit (length vs) vs r)
run_batch d k _ r = (returned null, r)

abbrev run_single : Direction → String → List String → Lists → Result Value × Lists
run_single d k (v ∷ m ∷ []) r = answer (single_push lists d k v limit r)
run_single d k _ r = (returned null, r)

abbrev list_call : Command → Lists → Result Value × Lists
list_call (Command.eval source k args) r =
    if source == lua_source batch left
    then run_batch left k args r
    else if source == lua_source batch right
    then run_batch right k args r
    else if source == lua_source single left
    then run_single left k args r
    else run_single right k args r
list_call _ r = (returned null, r)

abbrev list_redis : Redis Lists
list_redis = record {
  call = list_call;
  execute = λ transaction cs r. (returned (null ∷ int (negsuc 0) ∷ []), r);
}

list_scripts : ScriptServer list_redis lists limit
list_scripts = record {
  run_batch = batch_runs;
  run_single = single_runs;
  first_reply = λ k ttl r. null;
  last_reply = λ k ttl r. int (negsuc 0);
  timed = λ k ttl r. refl;
  contents-timed = λ j k ttl r. refl;
}
  where
    batch_runs :
        (d : Direction) (k : String) (vs : List String) (r : Lists)
        → list_call
            (Command.eval (lua_source batch d) k (show_int limit ∷ show_nat (length vs) ∷ vs))
            r
          ≡ answer (batch_push lists d k limit (length vs) vs r)
    batch_runs left k vs r = refl
    batch_runs right k vs r = refl

    single_runs :
        (d : Direction) (k v : String) (r : Lists)
        → list_call (Command.eval (lua_source single d) k (v ∷ show_int limit ∷ [])) r
          ≡ answer (single_push lists d k v limit r)
    single_runs left k v r = refl
    single_runs right k v r = refl

abbrev waiting : World Lists
waiting = record { redis = one; pending = none; auth_failures = []; scripts = [] }

abbrev both : QueueBatchPushRequest
both = record { values = "y" ∷ "z" ∷ []; direction = right; ttl = none }

erp_valid : ns_re "ERP" ≡ true
unfolding ns_re
erp_valid = refl

key_valid : key_re "a" ≡ true
unfolding key_re
key_valid = refl

may_write : check_access writer "ERP" "write" ≡ true
unfolding check_access granted lookup
may_write = refl

both_fit : all (λ v. not (exceeds_size v defaults.max_value_size)) both.values ≡ true
unfolding exceeds_size
both_fit = refl

abbrev pushed_both : Result Response × World Lists
pushed_both = batch_push_queue list_redis defaults writer "ERP" "a" both waiting

batch_push_queue-bounded_example :
    ((int_le (pos 3) (pos 10) ≡ false)
      × (data_of pushed_both.0
          ≡ raised (
              error "QUEUE_FULL"
                ("Queue '" ⧺ "a" ⧺ "' would exceed max length (" ⧺ show_int limit ⧺ ")")
                400))
      × (pushed_both.1.redis "ERP:q:a" ≡ "x" ∷ []))
    ⊎ ((int_le (pos (length (pushed_both.1.redis "ERP:q:a"))) (pos 10) ≡ true)
        × (data_of pushed_both.0
            ≡ returned (
                ("length", int (pos (length (pushed_both.1.redis "ERP:q:a"))))
                ∷ ("pushed", int (pos 2))
                ∷ []))
        × (pushed_both.1.redis "ERP:q:a" ≡ "x" ∷ "y" ∷ "z" ∷ []))
unfolding joined lists
batch_push_queue-bounded_example =
    batch_push_queue-bounded list_redis lists defaults list_scripts writer "ERP" "a" erp_valid
      key_valid may_write both waiting tt both_fit
