-- ===== src/Connection/Tests.antt =====
-- Two attempts that fail in different ways, and a third that succeeds.
use redgw_lite.Prelude.{ℕ, zero, suc, ◌≡◌, refl, true, false, none, some, [], ◌∷◌}
use redgw_lite.Connection.{Attempt, new_manager, attempted, connect_loop, connect, disconnect}
use redgw_lite.Connection.Retries.{IsTried, connect-IsTried}

abbrev attempt : ℕ → Attempt
attempt (suc zero) = record { created = true; ping = none; closes = true; closes_again = true }
attempt (suc (suc zero)) = record {
  created = true;
  ping = some false;
  closes = true;
  closes_again = true;
}
attempt n = record { created = true; ping = some true; closes = true; closes_again = true }

third :
    connect attempt 3 new_manager ≡ (true, record { client = some 3; made = 3 ∷ []; pauses = 1 })
unfolding connect connect_loop attempted
third = refl

given_up : connect attempt 2 new_manager ≡ (false, record { client = none; made = []; pauses = 1 })
unfolding connect connect_loop attempted
given_up = refl

ended :
    (disconnect true (record { client = some 3; made = 3 ∷ []; pauses = 1 })).1
    ≡ record { client = none; made = []; pauses = 1 }
unfolding disconnect
ended = refl

attempt-closes : (i : ℕ) → (attempt i).closes ≡ true
attempt-closes zero = refl
attempt-closes (suc zero) = refl
attempt-closes (suc (suc zero)) = refl
attempt-closes (suc (suc (suc n))) = refl

connect-IsTried_example : IsTried 3 (some 3) new_manager (connect attempt 3 new_manager)
connect-IsTried_example = connect-IsTried attempt attempt-closes 3 new_manager
