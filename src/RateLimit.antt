-- ===== src/RateLimit.antt =====
-- src/rate_limit.rs: the waits of a poll. Instants and durations are numbers of nanoseconds.
use st0x_alpaca.Prelude.{ℕ, ◌+◌, ◌-◌, ◌*◌, min, max, Option, none, some, ltb, if◌then◌else◌}
use st0x_alpaca.Errors.Classes.{Backpressure}
use st0x_alpaca.Retry.{max_retry_after_hold}

-- src/core.rs: what a client does with backpressure.
pub data BackpressurePolicy : Type 0 where
  retry_in_place return : BackpressurePolicy

-- `scheduled.min(deadline.saturating_duration_since(now))`.
unfoldable pub next_poll_delay : ℕ → ℕ → ℕ → ℕ
next_poll_delay scheduled deadline now = min scheduled (deadline - now)

unfoldable pub capped_backpressure_wait : Backpressure → ℕ → ℕ
capped_backpressure_wait backpressure scheduled = elim backpressure.retry_after [
  | none ↦ scheduled
  | some hint ↦ max (min hint max_retry_after_hold) scheduled
]

unfoldable pub backpressure_wait : BackpressurePolicy → Backpressure → ℕ → ℕ → ℕ → Option ℕ
unfolding capped_backpressure_wait
backpressure_wait return backpressure scheduled deadline now = none
backpressure_wait retry_in_place backpressure scheduled deadline now =
    let wait = capped_backpressure_wait backpressure scheduled in
    if ltb wait (deadline - now) then some wait else none

-- Thirty years.
abbrev pub far_future : ℕ
far_future = 86_400 * 365 * 30 * 1_000_000_000

-- `Instant::checked_add` is the first argument.
unfoldable pub poll_deadline : (ℕ → ℕ → Option ℕ) → ℕ → ℕ → ℕ
poll_deadline checked_add start timeout = elim (checked_add start timeout) [
  | none ↦ start + far_future
  | some deadline ↦ deadline
]
