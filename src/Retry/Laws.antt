-- ===== src/Retry/Laws.antt =====
-- What the retry loop of src/core.rs bounds, and what it reports.
use st0x_alpaca.Prelude.{
  ℕ, suc, ◌+◌, min, max, ◌≡◌, ◌≤◌, ◌⊎◌, inl, inr, refl, Bool, List, [], ◌∷◌, Option, none, some,
  arith, length, any, ok, err, Option-cases,
}
use st0x_alpaca.Errors.Http.{Http}
use st0x_alpaca.Errors.Issuer.{AlpacaError, IssuerCallError, may_have_reached_alpaca}
use st0x_alpaca.Retry.{
  Phase, checking, calling, holding, backing_off, returned, RetryState, start, Move, step, run,
  retry_after_budget, remaining, hold_for, max_retry_after_hold,
}

-- A hold is never shortened: after `hold_for` what is left is the longer of what was left and the
-- delay, which is capped at five minutes.
pub remaining-hold_for :
    (hold : Option (ℕ × ℕ)) (delay now : ℕ)
    → remaining (hold_for hold delay now) now
      ≡ max (remaining hold now) (min delay max_retry_after_hold)
unfolding hold_for remaining
remaining-hold_for none delay now = ground arith
remaining-hold_for (some (started, current)) delay now = ground arith

module _ (H : Http) (V : Type 0) where
  -- Attempts without an error: the one under way, or the one that gave the value.
  abbrev without_error : Phase H V → ℕ
  without_error calling = 1
  without_error (returned (ok _)) = 1
  without_error _ = 0

  -- Whether an attempt with one of the errors may have reached Alpaca.
  abbrev pub reached : List (AlpacaError H) → Bool
  reached errors = any (may_have_reached_alpaca {H = H}) errors

  abbrev Reports : Phase H V → Bool → Type 0
  Reports (returned (err e)) w = e.written ≡ w
  Reports _ w = Unit {0}

  -- The next attempt is still allowed for, in the phases that lead to one.
  abbrev allowed_for : Phase H V → ℕ
  allowed_for checking = 1
  allowed_for (holding _) = 1
  allowed_for (backing_off _) = 1
  allowed_for _ = 0

  -- The accounts of a loop that may retry the given number of times.
  record IsBounded (retries : ℕ) (s : RetryState H V) : Type 0 where
    attempts : length s.sent + allowed_for s.phase + length s.delays ≤ suc retries
    waits : s.slept + s.budget ≡ retry_after_budget
    failures : length s.sent ≡ length s.errors + without_error s.phase
    writes : s.written ≡ reached s.errors
    reports : Reports s.phase s.written

  step-IsBounded :
      (retries : ℕ) (m : Move H V) (s : RetryState H V) {s' : RetryState H V}
      → IsBounded retries s
      → step H V m s ≡ some s'
      → IsBounded retries s'
  unfolding step
  step-IsBounded retries m s v e = ground arith

  run-IsBounded :
      (retries : ℕ) (moves : List (Move H V)) (s : RetryState H V) {s' : RetryState H V}
      → IsBounded retries s
      → run H V moves s ≡ some s'
      → IsBounded retries s'
  unfolding run
  run-IsBounded retries [] s v e = ground arith
  run-IsBounded retries (m ∷ moves) s {s'} v e = elim (Option-cases (step H V m s)) [
    | inl stuck ↦ absurd (ground arith)
    | inr (t, went) ↦
        run-IsBounded retries moves t (step-IsBounded retries m s v went) (ground arith)
  ]

  start-IsBounded :
      (now : ℕ) (not_before : Option (ℕ × ℕ)) (delays : List ℕ)
      → IsBounded (length delays) (start H V now not_before delays)
  unfolding start
  start-IsBounded now not_before delays = record {
    attempts = omega arith;
    waits = omega arith;
    failures = refl;
    writes = refl;
    reports = tt;
  }

  -- Under any schedule, and whatever other calls do to the shared hold, the loop sends at most one
  -- attempt more than the backoff has delays, and waits at most thirty seconds in all for holds.
  pub run_bounds :
      (now : ℕ) (not_before : Option (ℕ × ℕ)) (delays : List ℕ) (moves : List (Move H V))
      (s : RetryState H V)
      → run H V moves (start H V now not_before delays) ≡ some s
      → (length s.sent ≤ suc (length delays)) × (s.slept ≤ retry_after_budget)
  run_bounds now not_before delays moves s e = bounds (
      run-IsBounded (length delays) moves (start H V now not_before delays)
        (start-IsBounded now not_before delays) e)
    where
      bounds :
          IsBounded (length delays) s
          → (length s.sent ≤ suc (length delays)) × (s.slept ≤ retry_after_budget)
      bounds v = (omega (arith, v.attempts), omega (arith, v.waits))

  -- The failure that the loop returns tells of every attempt: each has ended with an error, and
  -- `written` says whether one of them may have reached Alpaca.
  pub run_written :
      (now : ℕ) (not_before : Option (ℕ × ℕ)) (delays : List ℕ) (moves : List (Move H V))
      (s : RetryState H V) (failure : IssuerCallError H)
      → run H V moves (start H V now not_before delays) ≡ some s
      → s.phase ≡ returned (err failure)
      → (length s.errors ≡ length s.sent) × (failure.written ≡ reached s.errors)
  run_written now not_before delays moves s failure e p = told (
      run-IsBounded (length delays) moves (start H V now not_before delays)
        (start-IsBounded now not_before delays) e)
    where
      told :
          IsBounded (length delays) s
          → (length s.errors ≡ length s.sent) × (failure.written ≡ reached s.errors)
      told v = (ground arith, ground arith)

  -- An attempt is sent only by a step that finds the shared hold at its end; no other step sends.
  pub step_sends :
      (m : Move H V) (s s' : RetryState H V)
      → step H V m s ≡ some s'
      → (s'.sent ≡ s.sent)
        ⊎ ((s'.sent ≡ s.now ∷ s.sent) × (remaining s.not_before s.now ≡ 0) × (s'.phase ≡ calling))
  unfolding step remaining
  step_sends m s s' e = ground arith
