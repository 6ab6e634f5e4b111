-- ===== src/Tokenization/Poll.antt =====
-- src/tokenization/client.rs: the polls of a request and of a redemption, with `retry_transient`.
--
-- A poll is a step function: a move is one step of the loop or of the clock, `ticked` is a tick of its
-- interval, which comes when it comes, `answer` is what a lookup ended with, and `cut` ends a tick or a
-- lookup that is still awaited at the deadline. `step` is `none` where a move is not possible.
use st0x_alpaca.Prelude.{
  ℕ, ◌+◌, Bool, true, false, List, [], ◌∷◌, Option, none, some, leb, if◌then◌else◌, Result, ok, err,
}
use st0x_alpaca.Errors.Http.{Http}
use st0x_alpaca.Errors.Classes.{Permanence, transient, Backpressure}
use st0x_alpaca.Errors.Tokenization.{
  AlpacaTokenizationError, backpressure, permanence, poll_timeout,
}
use st0x_alpaca.RateLimit.{BackpressurePolicy, backpressure_wait, next_poll_delay}
use st0x_alpaca.Tokenization.{
  TokenizationRequest, TokenizationRequestStatus, pending, completed, rejected,
}

module _ (H : Http) (D : Type 0) where
  terminal_request :
      TokenizationRequestStatus → TokenizationRequest D → Option (TokenizationRequest D)
  terminal_request completed request = some request
  terminal_request rejected request = some request
  terminal_request pending request = none

  -- The request that ends a poll, of what a lookup found.
  unfoldable pub accept_request : TokenizationRequest D → Option (TokenizationRequest D)
  unfolding terminal_request
  accept_request request = terminal_request request.status request

  unfoldable pub accept_redemption : Option (TokenizationRequest D) → Option (TokenizationRequest D)
  accept_redemption found = found

  is_transient : Permanence → Bool
  is_transient transient = true
  is_transient _ = false

  module _ (R : Type 0) (accept : R → Option (TokenizationRequest D)) where
    -- Before a tick, at the test of a lookup, in one, asleep, and returned.
    pub data Phase : Type 0 where
      waiting ready reading : Phase
      sleeping : ℕ → Phase
      returned : Result (TokenizationRequest D) (AlpacaTokenizationError H) → Phase

    pub record PollState : Type 0 where
      pub now : ℕ
      pub throttled : Option (AlpacaTokenizationError H)
      pub phase : Phase
      pub answers : List (Result R (AlpacaTokenizationError H))

    unfoldable pub start : ℕ → PollState
    start now = record { now = now; throttled = none; phase = waiting; answers = [] }

    pub data Move : Type 0 where
      ticked begin cut wake : Move
      tick : ℕ → Move
      answer : Result R (AlpacaTokenizationError H) → Move

    module _ (policy : BackpressurePolicy) (deadline : ℕ) where
      time_out : PollState → Option (AlpacaTokenizationError H) → PollState
      time_out s none = record s { phase = returned (err poll_timeout) }
      time_out s (some error) = record s { phase = returned (err error) }

      wait_out : PollState → AlpacaTokenizationError H → Option ℕ → PollState
      unfolding next_poll_delay
      wait_out s error none = record s { phase = returned (err error) }
      wait_out s error (some wait) = record s {
        throttled = some error;
        phase = sleeping (s.now + next_poll_delay wait deadline s.now);
      }

      retry : PollState → AlpacaTokenizationError H → Option Backpressure → PollState
      unfolding wait_out backpressure_wait
      retry s error none = record s { throttled = none; phase = waiting }
      retry s error (some pressure) =
          wait_out s error (backpressure_wait policy pressure 0 deadline s.now)

      unfoldable pub retry_transient : PollState → AlpacaTokenizationError H → PollState
      unfolding is_transient retry backpressure permanence
      retry_transient s error =
          if is_transient (permanence error)
          then retry s error (backpressure error)
          else record s { phase = returned (err error) }

      after_lookup : PollState → Option (TokenizationRequest D) → PollState
      after_lookup s none = record s { throttled = none; phase = waiting }
      after_lookup s (some request) = record s { phase = returned (ok request) }

      moved : Move → Phase → PollState → Option PollState
      unfolding time_out retry_transient after_lookup
      moved (tick d) ph s = some (record s { now = s.now + d })
      moved ticked waiting s = some (record s { phase = ready })
      moved cut waiting s = if leb deadline s.now then some (time_out s s.throttled) else none
      moved begin ready s =
          if leb deadline s.now
          then some (time_out s s.throttled)
          else some (record s { phase = reading })
      moved cut reading s = if leb deadline s.now then some (time_out s s.throttled) else none
      moved (answer (ok found)) reading s =
          some (after_lookup (record s { answers = ok found ∷ s.answers }) (accept found))
      moved (answer (err error)) reading s =
          some (retry_transient (record s { answers = err error ∷ s.answers }) error)
      moved wake (sleeping until) s =
          if leb until s.now then some (record s { phase = waiting }) else none
      moved _ ph s = none

      unfoldable pub step : Move → PollState → Option PollState
      unfolding moved
      step m s = moved m s.phase s

      unfoldable pub run : List Move → PollState → Option PollState
      run [] s = some s
      run (m ∷ moves) s = elim (step m s) [ none ↦ none | some s' ↦ run moves s' ]
