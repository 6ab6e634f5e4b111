-- ===== src/Retry.antt =====
-- src/core.rs: the retry loop of the issuer client (`retry_attempts`) and the `Retry-After` hold that
-- the clones of a client share (`backpressure_wait`, `hold_for`). Durations and instants are numbers
-- of nanoseconds; `elapsed` gives zero for a later start, as the truncated `-` does.
--
-- The loop is a step function: a move is one step of the call, of the clock, or of another call that
-- extends the shared hold, and `step` is `none` where a move is not possible. The delays of the backoff
-- are a list, at most `max_retries` long.
pub mod Laws
mod Tests
use st0x_alpaca.Prelude.{
  ℕ, ◌+◌, ◌-◌, min, Bool, true, false, ◌||◌, not, List, [], ◌∷◌, Option, none, some, ◌==◌, leb, ltb,
  if◌then◌else◌, Result, ok, err,
}
use st0x_alpaca.Errors.Http.{Http}
use st0x_alpaca.Errors.Classes.{Backpressure}
use st0x_alpaca.Errors.Issuer.{
  AlpacaError, IssuerCallError, rate_limited, is_retryable, backpressure, may_have_reached_alpaca,
}

-- Thirty seconds, five minutes, and one second.
abbrev pub retry_after_budget : ℕ
retry_after_budget = 30_000_000_000

abbrev pub max_retry_after_hold : ℕ
max_retry_after_hold = 300_000_000_000

abbrev pub retry_after_jitter_bound : ℕ
retry_after_jitter_bound = 1_000_000_000

-- The time left of a hold that started with the given delay.
unfoldable pub remaining : Option (ℕ × ℕ) → ℕ → ℕ
remaining none now = 0
remaining (some (started, delay)) now = delay - (now - started)

unfoldable pub backpressure_wait : Option (ℕ × ℕ) → ℕ → Option ℕ
unfolding remaining
backpressure_wait hold now = if remaining hold now == 0 then none else some (remaining hold now)

-- `is_none_or`: whether the hold ends before a new one of the given delay would.
extends : Option (ℕ × ℕ) → ℕ → ℕ → Bool
extends none delay now = true
extends (some (started, current)) delay now = ltb (current - (now - started)) delay

unfoldable pub hold_for : Option (ℕ × ℕ) → ℕ → ℕ → Option (ℕ × ℕ)
unfolding extends
hold_for hold delay now =
    if extends hold (min delay max_retry_after_hold) now
    then some (now, min delay max_retry_after_hold)
    else hold

-- `error.backpressure().and_then(|hint| hint.retry_after)`.
abbrev hint_of : Option Backpressure → Option ℕ
hint_of none = none
hint_of (some pressure) = pressure.retry_after

held : Option (ℕ × ℕ) → Option ℕ → ℕ → Option (ℕ × ℕ)
unfolding hold_for
held hold none now = hold
held hold (some retry_after) now = hold_for hold retry_after now

module _ (H : Http) (V : Type 0) where
  -- At the top of the inner loop, asleep in it, in an attempt, asleep before the next, and returned.
  pub data Phase : Type 0 where
    checking calling : Phase
    holding backing_off : ℕ → Phase
    returned : Result V (IssuerCallError H) → Phase

  -- `slept`, `sent` and `errors` record what the loop did: the total wait for holds, the instants of
  -- its attempts, and their errors.
  pub record RetryState : Type 0 where
    pub now : ℕ
    pub not_before : Option (ℕ × ℕ)
    pub delays : List ℕ
    pub budget : ℕ
    pub written : Bool
    pub last_answer : Option ℕ
    pub phase : Phase
    pub slept : ℕ
    pub sent : List ℕ
    pub errors : List (AlpacaError H)

  pub start : ℕ → Option (ℕ × ℕ) → List ℕ → RetryState
  start now not_before delays = record {
    now = now;
    not_before = not_before;
    delays = delays;
    budget = retry_after_budget;
    written = false;
    last_answer = none;
    phase = checking;
    slept = 0;
    sent = [];
    errors = [];
  }

  -- `check` carries the jitter, `answer` the attempt's result and the last status that Alpaca
  -- answered.
  pub data Move : Type 0 where
    wake : Move
    tick other_hold check : ℕ → Move
    answer : Result V (AlpacaError H) → Option ℕ → Move

  -- The error that ends the loop.
  give_up : RetryState → AlpacaError H → RetryState
  give_up s error = record s {
    phase =
        returned
          (err (record { written = s.written; alpaca_status = s.last_answer; error = error }));
  }

  -- A round of the inner loop: `while let Some(wait) = self.backpressure_wait()`.
  check_hold : RetryState → ℕ → Option ℕ → RetryState
  unfolding give_up
  check_hold s jitter none = record s { phase = calling; sent = s.now ∷ s.sent }
  check_hold s jitter (some wait) =
      let paused = min (wait + jitter) s.budget in
      if ltb s.budget wait then give_up s (rate_limited (some wait)) else record s {
        budget = s.budget - paused;
        slept = s.slept + paused;
        phase = holding (s.now + paused);
      }

  -- `written |= ...`, and the hold that the error asks for.
  noted : RetryState → AlpacaError H → RetryState
  unfolding held may_have_reached_alpaca backpressure
  noted s error = record s {
    written = s.written || may_have_reached_alpaca error;
    not_before = held s.not_before (hint_of (backpressure error)) s.now;
    errors = error ∷ s.errors;
  }

  -- `delays.next()`, and the last look at the hold before the backoff.
  back_off : RetryState → AlpacaError H → List ℕ → RetryState
  unfolding give_up remaining
  back_off s error [] = give_up s error
  back_off s error (delay ∷ delays) =
      if ltb s.budget (remaining s.not_before s.now)
      then give_up (record s { delays = delays }) error
      else record s { delays = delays; phase = backing_off (s.now + delay) }

  after_error : RetryState → AlpacaError H → RetryState
  unfolding noted back_off give_up is_retryable
  after_error s error =
      let s' = noted s error in
      if is_retryable error then back_off s' error s'.delays else give_up s' error

  moved : Move → Phase → RetryState → Option RetryState
  unfolding hold_for check_hold backpressure_wait after_error
  moved (tick d) p s = some (record s { now = s.now + d })
  moved (other_hold delay) p s = some (record s { not_before = hold_for s.not_before delay s.now })
  moved (check jitter) checking s =
      if ltb jitter retry_after_jitter_bound
      then some (check_hold s jitter (backpressure_wait s.not_before s.now))
      else none
  moved wake (holding until) s =
      if leb until s.now then some (record s { phase = checking }) else none
  moved wake (backing_off until) s =
      if leb until s.now then some (record s { phase = checking }) else none
  moved (answer (ok value) status) calling s =
      some (record s { last_answer = status; phase = returned (ok value) })
  moved (answer (err error) status) calling s =
      some (after_error (record s { last_answer = status }) error)
  moved _ p s = none

  pub step : Move → RetryState → Option RetryState
  unfolding moved
  step m s = moved m s.phase s

  pub run : List Move → RetryState → Option RetryState
  run [] s = some s
  run (m ∷ moves) s = elim (step m s) [ none ↦ none | some s' ↦ run moves s' ]
