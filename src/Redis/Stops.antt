-- ===== src/Redis/Stops.antt =====
-- Handlers that raise before they send a command.
use redgw_lite.Prelude.{◌≡◌, refl}
use redgw_lite.Python.Exec.{Exec, Exception, Result, returned, raised, raise, continue, ◌>>=◌}
use redgw_lite.Redis.{World}
use redgw_lite.Redis.Keeps.{Keeps}

-- The action raises, and leaves the server in the state `r`.
abbrev pub Raised : {R A : Type 0} → R → Result A × World R → Type 0
Raised r outcome = (e : Exception) × (outcome.0 ≡ raised e) × (outcome.1.redis ≡ r)

module _ {R A : Type 0} (r : R) where
  pub record Stops (m : Exec (World R) A) : Type 0 where
    pub at : (w : World R) → w.redis ≡ r → Raised r (m w)

module _ {R A : Type 0} {r : R} where
  pub Stops-raise : (e : Exception) → Stops {A = A} r (raise e)
  unfolding raise
  Stops-raise e = record { at = λ w h. (e, refl, h) }

module _ {R A B : Type 0} {r : R} where
  after_raise :
      (f : A → Exec (World R) B) (result : Result A) (w : World R)
      → Raised r (result, w)
      → Raised r (continue result f w)
  after_raise f (returned a) w (e, same, h) = cc same
  after_raise f (raised e') w (e, same, h) = (e', refl, h)

  -- An action that stops stops what it is the first part of.
  pub Stops-first :
      (m : Exec (World R) A) (f : A → Exec (World R) B) → Stops r m → Stops r (m >>= f)
  unfolding ◌>>=◌
  Stops-first m f sm = record { at = λ w h. after_raise f (m w).0 (m w).1 (sm.at w h) }

  after_silence :
      (f : A → Exec (World R) B) (result : Result A) (w : World R)
      → ((a : A) → Stops r (f a))
      → w.redis ≡ r
      → Raised r (continue result f w)
  after_silence f (returned a) w sf h = (sf a).at w h
  after_silence f (raised e) w sf h = (e, refl, h)

  -- What comes before the stop may raise, but sends nothing.
  pub Stops-then :
      (m : Exec (World R) A) (f : A → Exec (World R) B)
      → Keeps (λ s. s ≡ r) m
      → ((a : A) → Stops r (f a))
      → Stops r (m >>= f)
  unfolding ◌>>=◌
  Stops-then m f km sf = record { at = λ w h. after_silence f (m w).0 (m w).1 sf (km.at w h) }
