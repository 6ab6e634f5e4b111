-- ===== src/Tokenization/Ends.antt =====
-- With what a poll of src/tokenization/client.rs ends.
use st0x_alpaca.Prelude.{
  ℕ, ◌≡◌, ◌≢◌, ◌≤◌, ◌⊎◌, inl, inr, refl, subst, List, [], ◌∷◌, Option, none, some, arith, Result,
  ok, err, Option-cases,
}
use st0x_alpaca.Errors.Http.{Http}
use st0x_alpaca.Errors.Tokenization.{AlpacaTokenizationError, backpressure, poll_timeout}
use st0x_alpaca.RateLimit.{BackpressurePolicy}
use st0x_alpaca.Tokenization.{TokenizationRequest, pending}
use st0x_alpaca.Tokenization.Poll.{
  Phase, returned, PollState, start, Move, answer, step, run, accept_request, retry_transient,
}

module _ (H : Http) (D R : Type 0) (accept : R → Option (TokenizationRequest D)) where
  -- What a poll ends with at its deadline: the last lookup's error if that was backpressure, and else
  -- the poll's own timeout.
  unfoldable pub late : List (Result R (AlpacaTokenizationError H)) → AlpacaTokenizationError H
  late (err error ∷ _) = elim (backpressure error) [ none ↦ poll_timeout | some _ ↦ error ]
  late _ = poll_timeout

  -- The last lookup decides the result.
  abbrev pub Decides :
      List (Result R (AlpacaTokenizationError H))
      → Result (TokenizationRequest D) (AlpacaTokenizationError H)
      → Type 0
  Decides (ok found ∷ answers) (ok request) = accept found ≡ some request
  Decides (ok found ∷ answers) (err error) = ⊥
  Decides (err error ∷ answers) result = result ≡ err error
  Decides [] result = ⊥

  late-err :
      (error : AlpacaTokenizationError H) (answers : List (Result R (AlpacaTokenizationError H)))
      → late (err error ∷ answers)
        ≡ elim (backpressure error) [ none ↦ poll_timeout | some _ ↦ error ]
  unfolding late
  late-err error answers = refl

  late-ok :
      (found : R) (answers : List (Result R (AlpacaTokenizationError H)))
      → late (ok found ∷ answers) ≡ poll_timeout
  unfolding late
  late-ok found answers = refl

  abbrev or_timeout : Option (AlpacaTokenizationError H) → AlpacaTokenizationError H
  or_timeout none = poll_timeout
  or_timeout (some error) = error

  module _ (policy : BackpressurePolicy) (deadline : ℕ) where
    abbrev Accounts : PollState H D R accept → Phase H D R accept → Type 0
    Accounts s (returned result) =
        Decides s.answers result ⊎ ((result ≡ err (late s.answers)) × (deadline ≤ s.now))
    Accounts s ph = or_timeout s.throttled ≡ late s.answers

    answer-Accounts :
        (error : AlpacaTokenizationError H) (s : PollState H D R accept)
        {s' : PollState H D R accept}
        → Accounts s s.phase
        → step H D R accept policy deadline (answer (err error)) s ≡ some s'
        → Accounts s' s'.phase
    unfolding step retry_transient
    answer-Accounts error s v e = ground (arith, late-err error s.answers)

    step-Accounts :
        (m : Move H D R accept) (s : PollState H D R accept) {s' : PollState H D R accept}
        → Accounts s s.phase
        → step H D R accept policy deadline m s ≡ some s'
        → Accounts s' s'.phase
    unfolding step
    step-Accounts (answer (err error)) s v e = answer-Accounts error s v e
    step-Accounts (answer (ok found)) s v e = ground (arith, late-ok found s.answers)
    step-Accounts m s v e = ground arith

    run-Accounts :
        (moves : List (Move H D R accept)) (s : PollState H D R accept)
        {s' : PollState H D R accept}
        → Accounts s s.phase
        → run H D R accept policy deadline moves s ≡ some s'
        → Accounts s' s'.phase
    unfolding run
    run-Accounts [] s {s'} v e = subst (λ t. Accounts t t.phase) {x = s} {y = s'} (ground arith) v
    run-Accounts (m ∷ moves) s {s'} v e =
        elim (Option-cases (step H D R accept policy deadline m s)) [
          | inl stuck ↦ absurd (ground arith)
          | inr (t, went) ↦ run-Accounts moves t {s' = s'} (step-Accounts m s v went) (ground arith)
        ]

    -- What a poll returns, under any schedule, is decided by its last lookup: its error, or the request
    -- that it found; or else the deadline has come, and it is the last lookup's error if that was
    -- backpressure, and the poll's own timeout if it was not.
    pub poll_result :
        (now : ℕ) (moves : List (Move H D R accept)) (s : PollState H D R accept)
        (result : Result (TokenizationRequest D) (AlpacaTokenizationError H))
        → run H D R accept policy deadline moves (start H D R accept now) ≡ some s
        → s.phase ≡ returned result
        → Decides s.answers result ⊎ ((result ≡ err (late s.answers)) × (deadline ≤ s.now))
    unfolding start late
    poll_result now moves s result e q =
        subst (Accounts s) q (run-Accounts moves (start H D R accept now) {s' = s} refl e)

module _ (H : Http) (D : Type 0) (policy : BackpressurePolicy) (deadline : ℕ) where
  final :
      (answers : List (Result (TokenizationRequest D) (AlpacaTokenizationError H)))
      (request : TokenizationRequest D)
      → Decides H D (TokenizationRequest D) (accept_request H D) answers (ok request)
      → request.status ≢ pending
  unfolding accept_request
  final answers request d = ground (arith, d)

  -- Under any schedule, a request that the poll for its end returns is completed or rejected.
  pub poll_request_final :
      (now : ℕ) (moves : List (Move H D (TokenizationRequest D) (accept_request H D)))
      (s : PollState H D (TokenizationRequest D) (accept_request H D))
      (request : TokenizationRequest D)
      → run H D
          (TokenizationRequest D)
          (accept_request H D)
          policy
          deadline
          moves
          (start H D (TokenizationRequest D) (accept_request H D) now)
        ≡ some s
      → s.phase ≡ returned (ok request)
      → request.status ≢ pending
  poll_request_final now moves s request e q =
      elim (poll_result H D (TokenizationRequest D) (accept_request H D) policy deadline now moves s
        (ok request) e q) [ inl d ↦ final s.answers request d | inr late ↦ absurd (ground arith) ]
