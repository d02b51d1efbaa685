-- ===== src/Python/Steps.antt =====
-- One step of an action, where the outcome of its first part is known.
use redgw_lite.Prelude.{◌≡◌, refl, ◌⊎◌, inl, inr}
use redgw_lite.Python.Exec.{Exec, Exception, Result, returned, raised, pure, continue, ◌>>=◌}

module _ {W A B : Type 0} (m : Exec W A) (f : A → Exec W B) {w w' : W} where
  pub bind_of_returned : {a : A} → m w ≡ (returned a, w') → (m >>= f) w ≡ f a w'
  unfolding ◌>>=◌
  bind_of_returned h = rw h

  pub bind_of_raised : {e : Exception} → m w ≡ (raised e, w') → (m >>= f) w ≡ (raised e, w')
  unfolding ◌>>=◌
  bind_of_raised h = rw h

continue-pure_world :
    {W A B : Type 0} (g : A → B) (r : Result A) (w : W) → (continue r (λ a. pure (g a)) w).1 ≡ w
unfolding pure
continue-pure_world g (returned a) w = refl
continue-pure_world g (raised e) w = refl

-- A last `return` leaves the world as the step before it did.
pub bind_pure_world :
    {W A B : Type 0} (m : Exec W A) (g : A → B) (w : W) → ((m >>= λ a. pure (g a)) w).1 ≡ (m w).1
unfolding ◌>>=◌
bind_pure_world m g w = continue-pure_world g (m w).0 (m w).1

pub Result-cases {ℓ} :
    {A : Type ℓ} (r : Result A) → ((a : A) × (r ≡ returned a)) ⊎ ((e : Exception) × (r ≡ raised e))
Result-cases (returned a) = inl (a, refl)
Result-cases (raised e) = inr (e, refl)

-- A last `return` gives what it makes of the result before it.
pub bind_pure_result :
    {W A B : Type 0} (m : Exec W A) (g : A → B) (w : W) (a : A)
    → (m w).0 ≡ returned a
    → ((m >>= λ x. pure (g x)) w).0 ≡ returned (g a)
unfolding ◌>>=◌
bind_pure_result m g w a h = rw h
