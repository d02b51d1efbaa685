-- ===== src/Python/Yields.antt =====
-- What holds of every value that an action returns, whatever the world does.
use redgw_lite.Prelude.{◌≡◌, refl, Bool, true, false, if◌then◌else◌, List, [], ◌∷◌, All}
use redgw_lite.Python.Exec.{
  Exec, Exception, Result, returned, raised, pure, raise, lift, comprehension, continue, ◌>>=◌,
}

module _ {W A : Type 0} (Q : A → Type 0) where
  pub record Yields (m : Exec W A) : Type 0 where
    pub at : (w : W) (a : A) → (m w).0 ≡ returned a → Q a

module _ {W A : Type 0} {Q : A → Type 0} where
  pub Yields-pure : (a : A) → Q a → Yields Q (pure {W = W} a)
  unfolding pure
  Yields-pure a q = record { at = λ w b h. let e : a ≡ b = cc h in rw (← e) q }

  pub Yields-raise : (e : Exception) → Yields {W = W} Q (raise e)
  unfolding raise
  Yields-raise e = record { at = λ w b h. cc h }

  pub Yields-if :
      (b : Bool) (m n : Exec W A)
      → (b ≡ true → Yields Q m)
      → (b ≡ false → Yields Q n)
      → Yields Q (if b then m else n)
  Yields-if true m n km kn = km refl
  Yields-if false m n km kn = kn refl

module _ {W A B : Type 0} {Q : B → Type 0} where
  continue-Yields :
      (f : A → Exec W B) (r : Result A) (w : W) (b : B)
      → ((a : A) → Yields Q (f a))
      → (continue r f w).0 ≡ returned b
      → Q b
  continue-Yields f (returned a) w b kf h = (kf a).at w b h
  continue-Yields f (raised e) w b kf h = cc h

  pub Yields-bind :
      (m : Exec W A) (f : A → Exec W B) → ((a : A) → Yields Q (f a)) → Yields Q (m >>= f)
  unfolding ◌>>=◌
  Yields-bind m f kf = record { at = λ w b h. let (r, w') = m w in continue-Yields f r w' b kf h }

module _ {W A B : Type 0} {Q : B → Type 0} where
  pub Yields-bind-with :
      (S : A → Type 0) (m : Exec W A) (f : A → Exec W B)
      → Yields S m
      → ((a : A) → S a → Yields Q (f a))
      → Yields Q (m >>= f)
  unfolding ◌>>=◌
  Yields-bind-with S m f km kf = record {
    at = λ w b h. with_result (m w).0 (m w).1 b (λ a e. kf a (km.at w a e)) h;
  }
    where
      with_result :
          (r : Result A) (w : W) (b : B)
          → ((a : A) → r ≡ returned a → Yields Q (f a))
          → (continue r f w).0 ≡ returned b
          → Q b
      with_result (returned a) w b k h = (k a refl).at w b h
      with_result (raised e) w b k h = cc h

  pub Yields-bind-lift :
      (r : Result A) (f : A → Exec W B)
      → ((a : A) → r ≡ returned a → Yields Q (f a))
      → Yields Q (lift r >>= f)
  Yields-bind-lift r f kf = Yields-bind-with (λ a. r ≡ returned a) (lift r) f lifted kf
    where
      lifted : Yields {W = W} (λ a. r ≡ returned a) (lift r)
      lifted = record { at = λ w a h. unfold lift in h }

-- Each element of a comprehension has what its body yields.
pub Yields-comprehension :
    {W A B : Type 0} {Q : B → Type 0} (body : A → Exec W B) (xs : List A)
    → ((a : A) → Yields Q (body a))
    → Yields (All Q) (comprehension body xs)
unfolding comprehension
Yields-comprehension body [] kb = Yields-pure [] tt
Yields-comprehension {Q} body (x ∷ xs) kb = Yields-bind-with Q (body x) _ (kb x) λ y qy.
    Yields-bind-with (All Q) (comprehension body xs) _ (Yields-comprehension body xs kb)
      λ ys qys. Yields-pure (y ∷ ys) (qy, qys)

pub ruleset yields_rules = (Yields-pure, Yields-raise, Yields-if, Yields-bind)
