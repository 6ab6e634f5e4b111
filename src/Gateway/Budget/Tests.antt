-- ===== src/Gateway/Budget/Tests.antt =====
-- Examples for crates/gateway/src/budget.rs: a limit of two calls per minute.
use st0x_alpaca.Prelude.{ℕ, ◌+◌, ◌*◌, ◌≤◌, List, [], ◌∷◌, arith}
use st0x_alpaca.Gateway.Budget.{new, window_length}
use st0x_alpaca.Gateway.Budget.Rate.{admitted, after, admitted-InMinute}

-- The window is used up before the run, and two of its calls fall into the next one.
abbrev two_calls : List (ℕ × ℕ)
two_calls = (1, 10) ∷ (1, 11) ∷ []

abbrev three_calls : List (ℕ × ℕ)
three_calls = (1, 20) ∷ (1, window_length + 12) ∷ (1, window_length + 13) ∷ []

admitted-InMinute_example : admitted (after (new 2) two_calls) three_calls ≤ 2 * 2
admitted-InMinute_example =
    admitted-InMinute 2 20 two_calls three_calls (omega arith)
      ((omega arith, omega arith), ((omega arith, omega arith), ((omega arith, omega arith), tt)))
