-- ===== src/Wallet/Poll/Retries.antt =====
-- How often a poll of src/wallet/status.rs retries a failed read, and how long it waits when Alpaca
-- asks it to.
use st0x_alpaca.Prelude.{
  ℕ, suc, ◌+◌, min, ◌≡◌, ◌≤◌, ◌<◌, ◌⊎◌, inl, inr, List, [], ◌∷◌, Option, length, none, some, arith,
  ok, err, Option-cases, subst,
}
use st0x_alpaca.Errors.Http.{Http}
use st0x_alpaca.Errors.Classes.{Backpressure}
use st0x_alpaca.Errors.Wallet.{AlpacaWalletError, backpressure}
use st0x_alpaca.RateLimit.{BackpressurePolicy, retry_in_place, backpressure_wait, next_poll_delay}
use st0x_alpaca.Retry.{max_retry_after_hold}
use st0x_alpaca.Wallet.Poll.{Poll}
use st0x_alpaca.Wallet.Poll.Run.{
  Phase, sleeping, returned, PollState, start, Move, answer, step, run, retry_wait,
}
use st0x_alpaca.Wallet.Poll.Laws.{failed_reads}

-- The wait that Alpaca asks for, up to the five minutes that are waited at most.
abbrev pub asked : Backpressure → ℕ
asked pressure = elim pressure.retry_after [ none ↦ 0 | some hint ↦ min hint max_retry_after_hold ]

module _ (H : Http) (D R A : Type 0) (p : Poll H D R A) (policy : BackpressurePolicy)
    (deadline : ℕ) where
  -- After a backpressure error a poll either returns that error or sleeps: for no less than Alpaca
  -- asked, up to five minutes, to an instant before the deadline, and only where it may retry.
  pub step_throttled :
      (s s' : PollState H D R A) (error : AlpacaWalletError H) (pressure : Backpressure)
      → backpressure error ≡ some pressure
      → step H D R A p policy deadline (answer (err error)) s ≡ some s'
      → (s'.phase ≡ returned (err error))
        ⊎ ((until : ℕ) × (s'.phase ≡ sleeping until)
            × (s.now + asked pressure ≤ until)
            × (until < deadline)
            × (policy ≡ retry_in_place))
  unfolding step retry_wait backpressure_wait next_poll_delay
  step_throttled s s' error pressure b e = ground arith

  abbrev Remains : ℕ → Option (List ℕ) → List ℕ → Type 0
  Remains failed none delays = ⊥
  Remains failed (some left) delays = failed + length left ≤ length delays

  abbrev IsCounted : List ℕ → PollState H D R A → Phase H D R A → Type 0
  IsCounted delays s (returned result) =
      failed_reads H D R A p policy deadline s.answers ≤ suc (length delays)
  IsCounted delays s ph = Remains (failed_reads H D R A p policy deadline s.answers) s.left delays

  step-IsCounted :
      (delays : List ℕ) (m : Move H D R A) (s : PollState H D R A) {s' : PollState H D R A}
      → p.delays ≡ some delays
      → IsCounted delays s s.phase
      → step H D R A p policy deadline m s ≡ some s'
      → IsCounted delays s' s'.phase
  unfolding step
  step-IsCounted delays (answer (err error)) s q v e = ground arith
  step-IsCounted delays (answer (ok value)) s q v e = ground arith
  step-IsCounted delays m s q v e = ground arith

  run-IsCounted :
      (delays : List ℕ) (moves : List (Move H D R A)) (s : PollState H D R A)
      {s' : PollState H D R A}
      → p.delays ≡ some delays
      → IsCounted delays s s.phase
      → run H D R A p policy deadline moves s ≡ some s'
      → IsCounted delays s' s'.phase
  unfolding run
  run-IsCounted delays [] s {s'} q v e =
      subst (λ t. IsCounted delays t t.phase) {x = s} {y = s'} (ground arith) v
  run-IsCounted delays (m ∷ moves) s {s'} q v e =
      elim (Option-cases (step H D R A p policy deadline m s)) [
        | inl stuck ↦ absurd (ground arith)
        | inr (t, went) ↦
            run-IsCounted delays moves t {s' = s'} q (step-IsCounted delays m s q v went)
              (ground arith)
      ]

  failed_bound :
      (delays : List ℕ) (ph : Phase H D R A) (s : PollState H D R A)
      → IsCounted delays s ph
      → failed_reads H D R A p policy deadline s.answers ≤ suc (length delays)
  failed_bound delays ph s v = ground (arith, v)

  -- Under any schedule, a poll with a backoff reads at most once more in a row without success than
  -- the backoff has delays. An answered read starts the count again.
  pub run_retries :
      (delays : List ℕ) (now : ℕ) (moves : List (Move H D R A)) (s : PollState H D R A)
      → p.delays ≡ some delays
      → run H D R A p policy deadline moves (start H D R A p now) ≡ some s
      → failed_reads H D R A p policy deadline s.answers ≤ suc (length delays)
  unfolding start
  run_retries delays now moves s q e =
      failed_bound delays s.phase s
        (run-IsCounted delays moves (start H D R A p now) q (ground (arith, q)) e)
