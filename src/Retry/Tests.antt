-- ===== src/Retry/Tests.antt =====
-- Examples for the retry loop of src/core.rs: a server error, one retry, and a refusal.
use st0x_alpaca.Prelude.{ℕ, ◌≡◌, ◌≤◌, refl, true, List, [], ◌∷◌, none, some, length, err}
use st0x_alpaca.Errors.Sample.{http}
use st0x_alpaca.Errors.Issuer.{IssuerCallError, api, is_retryable, may_have_reached_alpaca}
use st0x_alpaca.Errors.Issuer
use st0x_alpaca.Retry.{
  RetryState, Move, start, check, answer, tick, wake, run, step, calling, returned,
  retry_after_budget,
}
use st0x_alpaca.Retry.Laws.{run_bounds, run_written, reached}

abbrev retried : List (Move http ℕ)
retried =
    check 0
    ∷ answer (err (api 500)) (some 500)
    ∷ tick 2_000
    ∷ wake
    ∷ check 0
    ∷ answer (err (api 400)) (some 400)
    ∷ []

abbrev failure : IssuerCallError http
failure = record { written = true; alpaca_status = some 400; error = api 400 }

abbrev retried_end : RetryState http ℕ
retried_end = record (start http ℕ 7 none []) {
  now = 2_007;
  written = true;
  last_answer = some 400;
  phase = returned (err failure);
  sent = 2_007 ∷ 7 ∷ [];
  errors = api 400 ∷ api 500 ∷ [];
}

run_bounds_example : (length retried_end.sent ≤ 2) × (retried_end.slept ≤ retry_after_budget)
unfolding run step start is_retryable Issuer.backpressure may_have_reached_alpaca
run_bounds_example = run_bounds http ℕ 7 none (1_000 ∷ []) retried retried_end refl

run_written_example :
    (length retried_end.errors ≡ length retried_end.sent)
    × (failure.written ≡ reached http ℕ retried_end.errors)
unfolding run step start is_retryable Issuer.backpressure may_have_reached_alpaca
run_written_example = run_written http ℕ 7 none (1_000 ∷ []) retried retried_end failure refl refl

abbrev first_sent : RetryState http ℕ
first_sent = record (start http ℕ 7 none []) { phase = calling; sent = 7 ∷ [] }
