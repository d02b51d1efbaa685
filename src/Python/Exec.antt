-- ===== src/Python/Exec.antt =====
-- Code that may raise and that changes the world: what was written before a raise stays written.
use redgw_lite.Prelude.{ℕ, String, List, [], ◌∷◌}

-- An `HTTPException` with its status, error code and message; a `redis.ResponseError` with its text;
-- any other exception, which the application's last handler turns into a 500.
pub data Exception : Type 0 where
  http_error : ℕ → String → String → Exception
  response_error : String → Exception
  value_error : String → Exception
  other_error : String → Exception

pub data Result {ℓ} (A : Type ℓ) : Type ℓ where
  returned : A → Result A
  raised : Exception → Result A

abbrev pub Exec : Type 0 → Type 0 → Type 0
Exec W A = W → Result A × W

module _ {W A : Type 0} where
  unfoldable pub pure : A → Exec W A
  pure a w = (returned a, w)

  unfoldable pub raise : Exception → Exec W A
  raise e w = (raised e, w)

  -- A function that may raise and changes nothing.
  unfoldable pub lift : Result A → Exec W A
  lift r w = (r, w)

module _ {W A B : Type 0} where
  abbrev pub continue : Result A → (A → Exec W B) → Exec W B
  continue (returned a) f w = f a w
  continue (raised e) f w = (raised e, w)

  infixl 5 ◌>>=◌ ◌>>◌
  -- To open this is to open `pure`, `raise` and `lift`.
  unfoldable pub ◌>>=◌ : Exec W A → (A → Exec W B) → Exec W B
  unfolding pure raise lift
  ◌>>=◌ m f w = let (r, w') = m w in continue r f w'

  abbrev pub ◌>>◌ : Exec W A → Exec W B → Exec W B
  m >> k = m >>= λ _. k

-- `for x in xs: body(x)`
unfoldable pub for_each : {W A : Type 0} → List A → (A → Exec W (Unit {0})) → Exec W (Unit {0})
for_each [] body = pure tt
for_each (x ∷ xs) body = do body x; for_each xs body

-- `[f(x) for x in xs]`
unfoldable pub comprehension : {W A B : Type 0} → (A → Exec W B) → List A → Exec W (List B)
comprehension f [] = pure []
comprehension f (x ∷ xs) = do y ← f x; ys ← comprehension f xs; pure (y ∷ ys)
