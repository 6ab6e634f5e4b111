-- ===== src/Wallet/Poll/Run.antt =====
-- src/wallet/status.rs: `retry_read_before` with the loops around it, and `read_before` of
-- src/rate_limit.rs, as a step function.
use st0x_alpaca.Prelude.{
  ℕ, ◌+◌, List, [], ◌∷◌, Option, none, some, leb, if◌then◌else◌, Result, ok, err,
}
use st0x_alpaca.Errors.Http.{Http}
use st0x_alpaca.Errors.Classes.{Backpressure}
use st0x_alpaca.Errors.Wallet.{AlpacaWalletError, backpressure}
use st0x_alpaca.RateLimit.{BackpressurePolicy, backpressure_wait, next_poll_delay}
use st0x_alpaca.Wallet.Transfer.{TransferStatus}
use st0x_alpaca.Wallet.Poll.{Verdict, finish, again, is_retried, Poll}

-- `error.backpressure().is_some().then_some(error)`.
then_some : {E : Type 0} → Option Backpressure → E → Option E
then_some none error = none
then_some (some _) error = some error

-- `throttled.take().unwrap_or_else(timed_out)`.
unfoldable pub unwrap_or : {E : Type 0} → Option E → E → E
unwrap_or none timed_out = timed_out
unwrap_or (some error) timed_out = error

-- The next delay of a round and the delays after it.
next_delay : ℕ → Option (List ℕ) → Option (ℕ × Option (List ℕ))
next_delay interval none = some (interval, none)
next_delay interval (some []) = none
next_delay interval (some (delay ∷ delays)) = some (delay, some delays)

module _ (H : Http) where
  unfoldable pub throttle : AlpacaWalletError H → Option (AlpacaWalletError H)
  unfolding then_some backpressure
  throttle error = then_some (backpressure error) error

  waits_for : Option Backpressure → ℕ → BackpressurePolicy → ℕ → ℕ → Option ℕ
  unfolding backpressure_wait
  waits_for none scheduled policy deadline now = some scheduled
  waits_for (some pressure) scheduled policy deadline now =
      backpressure_wait policy pressure scheduled deadline now

  unfoldable pub retry_wait : AlpacaWalletError H → ℕ → BackpressurePolicy → ℕ → ℕ → Option ℕ
  unfolding waits_for backpressure
  retry_wait error scheduled policy deadline now =
      waits_for (backpressure error) scheduled policy deadline now

module _ (H : Http) (D R A : Type 0) where
  -- Before a read, in one, asleep before the next, and returned.
  pub data Phase : Type 0 where
    ready reading : Phase
    sleeping : ℕ → Phase
    returned : Result A (AlpacaWalletError H) → Phase

  -- `reads` records the instants at which reads started, `answers` what reads ended with.
  pub record PollState : Type 0 where
    pub now : ℕ
    pub last_status : Option TransferStatus
    pub left : Option (List ℕ)
    pub throttled : Option (AlpacaWalletError H)
    pub phase : Phase
    pub reads : List ℕ
    pub answers : List (Result R (AlpacaWalletError H))

  unfoldable pub start : Poll H D R A → ℕ → PollState
  start p now = record {
    now = now;
    last_status = none;
    left = p.delays;
    throttled = none;
    phase = ready;
    reads = [];
    answers = [];
  }

  pub data Move : Type 0 where
    begin cut wake : Move
    tick : ℕ → Move
    answer : Result R (AlpacaWalletError H) → Move

  module _ (p : Poll H D R A) (policy : BackpressurePolicy) (deadline : ℕ) where
    -- The end at the deadline.
    time_out : PollState → PollState
    unfolding unwrap_or
    time_out s = record s { phase = returned (err (unwrap_or s.throttled p.timed_out)) }

    pause : PollState → ℕ → PollState
    unfolding next_poll_delay
    pause s wait = record s { phase = sleeping (s.now + next_poll_delay wait deadline s.now) }

    -- A new round of reads, after the interval.
    conclude : PollState → Verdict A (AlpacaWalletError H) → PollState
    unfolding pause
    conclude s (finish result) = record s { phase = returned result }
    conclude s (again last) =
        pause (record s { last_status = last; left = p.delays; throttled = none }) p.interval

    wait_for : PollState → AlpacaWalletError H → Option ℕ → PollState
    unfolding throttle pause
    wait_for s error none = record s { phase = returned (err error) }
    wait_for s error (some wait) = pause (record s { throttled = throttle H error }) wait

    retry : PollState → AlpacaWalletError H → Option (ℕ × Option (List ℕ)) → PollState
    unfolding wait_for retry_wait
    retry s error none = record s { phase = returned (err error) }
    retry s error (some (delay, left)) =
        wait_for (record s { left = left }) error (retry_wait H error delay policy deadline s.now)

    after_error : PollState → AlpacaWalletError H → PollState
    unfolding is_retried retry next_delay
    after_error s error =
        if is_retried H D error
        then retry s error (next_delay p.interval s.left)
        else record s { phase = returned (err error) }

    moved : Move → Phase → PollState → Option PollState
    unfolding time_out conclude after_error
    moved (tick d) ph s = some (record s { now = s.now + d })
    moved begin ready s =
        if leb deadline s.now
        then some (time_out s)
        else some (record s { phase = reading; reads = s.now ∷ s.reads })
    moved cut reading s = if leb deadline s.now then some (time_out s) else none
    moved (answer (ok value)) reading s =
        some (conclude (record s { answers = ok value ∷ s.answers }) (p.accept s.last_status value))
    moved (answer (err error)) reading s =
        some (after_error (record s { answers = err error ∷ s.answers }) error)
    moved wake (sleeping until) s =
        if leb until s.now then some (record s { phase = ready }) else none
    moved _ ph s = none

    unfoldable pub step : Move → PollState → Option PollState
    unfolding moved
    step m s = moved m s.phase s

    unfoldable pub run : List Move → PollState → Option PollState
    run [] s = some s
    run (m ∷ moves) s = elim (step m s) [ none ↦ none | some s' ↦ run moves s' ]
