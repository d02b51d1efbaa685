-- ===== src/Connection/Retries.antt =====
-- When `connect` of app/redis_client.py succeeds, and what it leaves behind.
use redgw_lite.Prelude.{
  ℕ, zero, suc, ◌≡◌, refl, ◌∙◌, ap, Bool, true, false, Option, none, some, ◌∷◌, ◌+◌, ◌-◌, ◌≤◌,
  arith, if◌then◌else◌,
}
use redgw_lite.Connection.{Attempt, Manager, attempted, next_attempt, connect_loop, connect}

-- Whether an attempt makes a client that answers.
abbrev pub succeeds : Attempt → Bool
succeeds a = elim a.ping [ none ↦ false | some b ↦ if a.created then b else false ]

-- The first attempt that succeeds, of so many from a number on.
abbrev pub first_success : (ℕ → Attempt) → ℕ → ℕ → Option ℕ
first_success attempt zero i = none
first_success attempt (suc left) i =
    let later = first_success attempt left (i + 1) in if succeeds (attempt i) then some i else later

-- What is to be left behind, by the attempt that succeeded.
abbrev pub IsConnected : Option ℕ → Manager → Bool × Manager → Type 0
IsConnected none m (ok, after) = (ok ≡ false) × (after.client ≡ m.client) × (after.made ≡ m.made)
IsConnected (some i) m (ok, after) =
    (ok ≡ true) × (after.client ≡ some i) × (after.made ≡ i ∷ m.made)

-- One attempt, with the pauses that may follow it.
data IsAttempt (i left : ℕ) (m : Manager) : Bool → Bool × Manager → Type 0 where
  successful :
      (after : Manager)
      → after.client ≡ some i
      → after.made ≡ i ∷ m.made
      → after.pauses ≡ m.pauses
      → IsAttempt i left m true (true, after)
  unsuccessful :
      (after : Manager)
      → after.client ≡ m.client
      → after.made ≡ m.made
      → after.pauses ≤ m.pauses + (left - (left - 1))
      → IsAttempt i left m false (false, after)

attempted-IsAttempt :
    (created closes closes_again : Bool) (answer : Option Bool) (i left : ℕ) (m : Manager)
    → closes ≡ true
    → (let a : Attempt = record {
      created = created;
      ping = answer;
      closes = closes;
      closes_again = closes_again;
    } in
        IsAttempt i left m (succeeds a) (attempted a i left m))
unfolding attempted
attempted-IsAttempt created false closes_again answer i left m h = cc h
attempted-IsAttempt true true closes_again (some true) i left m h = successful _ refl refl refl
attempted-IsAttempt true true closes_again (some false) i left m h =
    unsuccessful _ refl refl (omega arith)
attempted-IsAttempt true true closes_again none i zero m h = unsuccessful _ refl refl (omega arith)
attempted-IsAttempt true true closes_again none i (suc left) m h =
    unsuccessful _ refl refl (omega arith)
attempted-IsAttempt false true closes_again (some true) i zero m h =
    unsuccessful _ refl refl (omega arith)
attempted-IsAttempt false true closes_again (some true) i (suc left) m h =
    unsuccessful _ refl refl (omega arith)
attempted-IsAttempt false true closes_again (some false) i zero m h =
    unsuccessful _ refl refl (omega arith)
attempted-IsAttempt false true closes_again (some false) i (suc left) m h =
    unsuccessful _ refl refl (omega arith)
attempted-IsAttempt false true closes_again none i zero m h = unsuccessful _ refl refl (omega arith)
attempted-IsAttempt false true closes_again none i (suc left) m h =
    unsuccessful _ refl refl (omega arith)

moved-IsConnected :
    (o : Option ℕ) (before m : Manager) (p : Bool × Manager)
    → m.client ≡ before.client
    → m.made ≡ before.made
    → IsConnected o m p
    → IsConnected o before p
moved-IsConnected none before m (ok, after) client made (h, c, d) = (h, c ∙ client, d ∙ made)
moved-IsConnected (some i) before m (ok, after) client made (h, c, d) =
    (h, c, d ∙ ap (λ cs. i ∷ cs) made)

-- What the attempts leave behind, by how many they may be.
abbrev pub IsTried : ℕ → Option ℕ → Manager → Bool × Manager → Type 0
IsTried left o m p = IsConnected o m p × (p.1.pauses ≤ m.pauses + (left - 1))

module _ (attempt : ℕ → Attempt) (closing : (i : ℕ) → (attempt i).closes ≡ true) where
  next_attempt-IsTried :
      (i left : ℕ) (m : Manager) (b : Bool) (p : Bool × Manager)
      → IsAttempt i left m b p
      → ((n : Manager)
          → IsTried left
              (first_success attempt left (i + 1))
              n
              (connect_loop attempt left (i + 1) n))
      → IsTried
          (suc left)
          (if b then some i else first_success attempt left (i + 1))
          m
          (next_attempt (connect_loop attempt left (i + 1)) p)
  next_attempt-IsTried i left m true (true, after) (successful a client made same) rest =
      ((refl, client, made), omega (arith, same))
  next_attempt-IsTried i left m false (false, after) (unsuccessful a client made bound) rest =
      let (connected, within) = rest after in
      (moved-IsConnected _ m after _ client made connected, omega (arith, within, bound))
  next_attempt-IsTried i left m false (true, after) impossible rest = elim impossible [ ]
  next_attempt-IsTried i left m true (false, after) impossible rest = elim impossible [ ]

  connect_loop-IsTried :
      (left i : ℕ) (m : Manager)
      → IsTried left (first_success attempt left i) m (connect_loop attempt left i m)
  unfolding connect_loop
  connect_loop-IsTried zero i m = ((refl, refl, refl), omega arith)
  connect_loop-IsTried (suc left) i m =
      let a = attempt i in
      next_attempt-IsTried i left m (succeeds a) (attempted a i left m)
        (attempted-IsAttempt a.created a.closes a.closes_again a.ping i left m (closing i))
        (connect_loop-IsTried left (i + 1))

  pub connect-IsTried :
      (max_retries : ℕ) (m : Manager)
      → IsTried max_retries (first_success attempt max_retries 1) m (connect attempt max_retries m)
  unfolding connect
  connect-IsTried max_retries m = connect_loop-IsTried max_retries 1 m
