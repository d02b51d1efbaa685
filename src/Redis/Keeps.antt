-- ===== src/Redis/Keeps.antt =====
-- A property of the server's state that the allowed commands keep is kept by a handler that sends
-- only allowed commands. One rule for each way to build a handler.
use redgw_lite.Prelude.{
  String, ◌≡◌, refl, Bool, true, false, List, [], ◌∷◌, All, if◌then◌else◌, arith,
}
use redgw_lite.Python.Exec.{
  Exec, Exception, Result, returned, raised, pure, raise, lift, continue, ◌>>=◌, for_each,
  comprehension, response_error,
}
use redgw_lite.Python.Yields.{Yields, Yields-bind-lift}
use redgw_lite.Redis.{Command, keys, read_only, Redis, World, await, execute, rescue}
use redgw_lite.KeyBuilder.{build_key, joined}
use redgw_lite.KeyBuilder.Roundtrip.{build_key-inversion}
use redgw_lite.Auth.ApiKey.{ClientInfo}
use redgw_lite.Auth.Guard.{require_access}

module _ {R A : Type 0} (P : R → Type 0) where
  pub record Keeps (m : Exec (World R) A) : Type 0 where
    pub at : (w : World R) → P w.redis → P (m w).1.redis

module _ {R A : Type 0} {P : R → Type 0} where
  pub Keeps-pure : (a : A) → Keeps P (pure {W = World R} a)
  unfolding pure
  Keeps-pure a = record { at = λ w h. h }

  pub Keeps-raise : (e : Exception) → Keeps {A = A} P (raise e)
  unfolding raise
  Keeps-raise e = record { at = λ w h. h }

  pub Keeps-lift : (r : Result A) → Keeps P (lift {W = World R} r)
  unfolding lift
  Keeps-lift r = record { at = λ w h. h }

  pub Keeps-if :
      (b : Bool) (m n : Exec (World R) A) → Keeps P m → Keeps P n → Keeps P (if b then m else n)
  Keeps-if true m n km kn = km
  Keeps-if false m n km kn = kn

  rescued-kept :
      (handler : String → Exec (World R) A)
      → ((e : String) → Keeps P (handler e))
      → (r : Result A) (w : World R) → P w.redis
      → P (rescue (λ v. (r, v)) handler w).1.redis
  unfolding rescue
  rescued-kept handler kh (returned a) w h = h
  rescued-kept handler kh (raised (response_error e)) w h = (kh e).at w h
  rescued-kept handler kh (raised e) w h = h

  pub Keeps-rescue :
      (m : Exec (World R) A) (handler : String → Exec (World R) A)
      → Keeps P m
      → ((e : String) → Keeps P (handler e))
      → Keeps P (rescue m handler)
  unfolding rescue
  Keeps-rescue m handler km kh = record {
    at = λ w h. let (r, w') = m w in rescued-kept handler kh r w' (km.at w h);
  }

module _ {R A B : Type 0} {P : R → Type 0} where
  continue-kept :
      (f : A → Exec (World R) B) (r : Result A) (w : World R)
      → ((a : A) → r ≡ returned a → Keeps P (f a))
      → P w.redis
      → P (continue r f w).1.redis
  continue-kept f (returned a) w kf h = (kf a refl).at w h
  continue-kept f (raised e) w kf h = h

  pub Keeps-bind :
      (m : Exec (World R) A) (f : A → Exec (World R) B)
      → Keeps P m
      → ((a : A) → Keeps P (f a))
      → Keeps P (m >>= f)
  unfolding ◌>>=◌
  Keeps-bind m f km kf = record {
    at = λ w h. let (r, w') = m w in continue-kept f r w' (λ a _. kf a) (km.at w h);
  }

  -- The rest may use that the function returned.
  pub Keeps-bind-lift :
      (r : Result A) (f : A → Exec (World R) B)
      → ((a : A) → r ≡ returned a → Keeps P (f a))
      → Keeps P (lift r >>= f)
  unfolding ◌>>=◌
  Keeps-bind-lift r f kf = record { at = λ w h. continue-kept f r w kf h }

module _ {R A : Type 0} {P : R → Type 0} where
  pub Keeps-for_each :
      (xs : List A) (body : A → Exec (World R) (Unit {0}))
      → ((a : A) → Keeps P (body a))
      → Keeps P (for_each xs body)
  unfolding for_each
  Keeps-for_each [] body kb = Keeps-pure tt
  Keeps-for_each (x ∷ xs) body kb =
      Keeps-bind (body x) (λ _. for_each xs body) (kb x) (λ _. Keeps-for_each xs body kb)

-- A key of the given namespace and type prefix.
pub data InScope (ns prefix k : String) : Type 0 where
  scoped : (key : String) → k ≡ joined ns prefix key → InScope ns prefix k

pub InScope-joined : (ns prefix key : String) → InScope ns prefix (joined ns prefix key)
InScope-joined ns prefix key = scoped key refl

-- What a request may send: commands on keys of its namespace and type, and without the right to
-- write only commands that read.
abbrev pub Allowed : Bool → String → String → Command → Type 0
Allowed true ns prefix c = All (InScope ns prefix) (keys c)
Allowed false ns prefix c = All (InScope ns prefix) (keys c) × (read_only c ≡ true)

-- The allowed commands keep `P`, one by one and in pipelines.
pub record Preserved {R : Type 0} (client : Redis R) (P : R → Type 0) (writes : Bool)
    (ns prefix : String) : Type 0 where
  pub call : (c : Command) → Allowed writes ns prefix c → (r : R) → P r → P (client.call c r).1
  pub execute :
      (transaction : Bool) (cs : List Command)
      → All (Allowed writes ns prefix) cs
      → (r : R) → P r
      → P (client.execute transaction cs r).1

module _ {R : Type 0} {client : Redis R} {P : R → Type 0} {writes : Bool} {ns prefix : String}
    (kept : Preserved client P writes ns prefix) where
  pub Keeps-await : (c : Command) → Allowed writes ns prefix c → Keeps P (await client c)
  unfolding await
  Keeps-await c allowed = record { at = λ w h. kept.call c allowed w.redis h }

  pub Keeps-execute :
      (transaction : Bool) (cs : List Command)
      → All (Allowed writes ns prefix) cs
      → Keeps P (execute client transaction cs)
  unfolding execute
  Keeps-execute transaction cs allowed = record {
    at = λ w h. kept.execute transaction cs allowed w.redis h;
  }

module _ {R : Type 0} {P : R → Type 0} where
  pub Keeps-require :
      (client : ClientInfo) (ns operation : String) → Keeps P (require_access client ns operation)
  unfolding require_access
  Keeps-require client ns operation = record { at = λ w h. ground arith }

  pub Keeps-bind-key :
      {B : Type 0} (ns prefix key : String) (f : String → Exec (World R) B)
      → Keeps P (f (joined ns prefix key))
      → Keeps P (lift (build_key ns prefix key) >>= f)
  Keeps-bind-key ns prefix key f kf =
      Keeps-bind-lift (build_key ns prefix key) f
        λ rk built. rw ((build_key-inversion ns prefix key rk built).2) kf

-- The rest may use what the action yields.
pub Keeps-bind-Yields :
    {R A B : Type 0} {P : R → Type 0} (Q : A → Type 0) (m : Exec (World R) A)
    (f : A → Exec (World R) B)
    → Keeps P m
    → Yields Q m
    → ((a : A) → Q a → Keeps P (f a))
    → Keeps P (m >>= f)
unfolding ◌>>=◌
Keeps-bind-Yields Q m f km ym kf = record {
  at = λ w h. continue-kept f (m w).0 (m w).1 (λ a e. kf a (ym.at w a e)) (km.at w h);
}

pub Keeps-comprehension :
    {R A B : Type 0} {P : R → Type 0} (body : A → Exec (World R) B) (xs : List A)
    → ((a : A) → Keeps P (body a))
    → Keeps P (comprehension body xs)
unfolding comprehension
Keeps-comprehension body [] kb = Keeps-pure []
Keeps-comprehension body (x ∷ xs) kb = Keeps-bind (body x) _ (kb x) λ y.
    Keeps-bind (comprehension body xs) _ (Keeps-comprehension body xs kb) λ ys. Keeps-pure (y ∷ ys)

-- A body that yields allowed commands, for each item, and then the pipeline of those commands.
pub Yields-bind-key :
    {W B : Type 0} {Q : B → Type 0} (ns prefix key : String) (f : String → Exec W B)
    → Yields Q (f (joined ns prefix key))
    → Yields Q (lift (build_key ns prefix key) >>= f)
Yields-bind-key ns prefix key f kf =
    Yields-bind-lift (build_key ns prefix key) f
      λ rk built. rw ((build_key-inversion ns prefix key rk built).2) kf

pub ruleset keeps_rules = (
  Keeps-pure, Keeps-raise, Keeps-bind-key, Keeps-bind, Keeps-lift, Keeps-if, Keeps-rescue,
  Keeps-require, Keeps-for_each, Keeps-comprehension, InScope-joined,
)
