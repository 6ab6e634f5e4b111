-- ===== src/Wallet/Poll/Laws.antt =====
-- When a poll of src/wallet/status.rs reads, when it ends, and with what.
use st0x_alpaca.Prelude.{
  ℕ, suc, max, ◌≡◌, ◌≤◌, ◌<◌, ◌⊎◌, inl, inr, refl, List, [], ◌∷◌, Option, none, some, arith, Result,
  ok, err, All, Option-cases, subst,
}
use st0x_alpaca.Errors.Http.{Http}
use st0x_alpaca.Errors.Wallet.{AlpacaWalletError}
use st0x_alpaca.RateLimit.{BackpressurePolicy}
use st0x_alpaca.Wallet.Transfer.{TransferStatus}
use st0x_alpaca.Wallet.Poll.{Poll, finish}
use st0x_alpaca.Wallet.Poll.Run.{
  Phase, ready, reading, sleeping, returned, PollState, start, Move, begin, cut, wake, answer, step,
  run, throttle, unwrap_or,
}

module _ (H : Http) (D R A : Type 0) (p : Poll H D R A) (policy : BackpressurePolicy)
    (deadline : ℕ) where
  -- The backpressure error of the last read, if that is how it ended.
  abbrev pub last_throttle : List (Result R (AlpacaWalletError H)) → Option (AlpacaWalletError H)
  last_throttle [] = none
  last_throttle (ok _ ∷ _) = none
  last_throttle (err error ∷ _) = throttle H error

  -- How many reads have failed since the last that did not.
  abbrev pub failed_reads : List (Result R (AlpacaWalletError H)) → ℕ
  failed_reads (err _ ∷ answers) = suc (failed_reads answers)
  failed_reads _ = 0

  -- The last read decides the result.
  abbrev pub Decides :
      Option TransferStatus
      → List (Result R (AlpacaWalletError H))
      → Result A (AlpacaWalletError H)
      → Type 0
  Decides last (ok value ∷ answers) result = p.accept last value ≡ finish result
  Decides last (err error ∷ answers) result = result ≡ err error
  Decides last [] result = ⊥

  -- What a poll ends with at its deadline.
  abbrev pub late : List (Result R (AlpacaWalletError H)) → AlpacaWalletError H
  late answers = unwrap_or (last_throttle answers) p.timed_out

  -- A sleep ends by the deadline, the error kept is that of the last read, and a result comes from
  -- the last read or from the deadline.
  abbrev Accounts : PollState H D R A → Phase H D R A → Type 0
  Accounts s (returned result) =
      Decides s.last_status s.answers result
      ⊎ ((result ≡ err (late s.answers)) × (deadline ≤ s.now))
  Accounts s (sleeping until) =
      (s.throttled ≡ last_throttle s.answers) × (until ≤ max s.now deadline)
  Accounts s _ = s.throttled ≡ last_throttle s.answers

  record IsAccounted (s : PollState H D R A) : Type 0 where
    reads : All (λ t. t < deadline) s.reads
    accounts : Accounts s s.phase

  step-IsAccounted :
      (m : Move H D R A) (s : PollState H D R A) {s' : PollState H D R A}
      → IsAccounted s
      → step H D R A p policy deadline m s ≡ some s'
      → IsAccounted s'
  unfolding step
  step-IsAccounted (answer (err error)) s v e = ground arith
  step-IsAccounted (answer (ok value)) s v e = ground arith
  step-IsAccounted m s v e = ground arith

  run-IsAccounted :
      (moves : List (Move H D R A)) (s : PollState H D R A) {s' : PollState H D R A}
      → IsAccounted s
      → run H D R A p policy deadline moves s ≡ some s'
      → IsAccounted s'
  unfolding run
  run-IsAccounted [] s v e = subst IsAccounted (ground arith) v
  run-IsAccounted (m ∷ moves) s {s'} v e =
      elim (Option-cases (step H D R A p policy deadline m s)) [
        | inl stuck ↦ absurd (ground arith)
        | inr (t, went) ↦ run-IsAccounted moves t (step-IsAccounted m s v went) (ground arith)
      ]

  accounted :
      (now : ℕ) (moves : List (Move H D R A)) (s : PollState H D R A)
      → run H D R A p policy deadline moves (start H D R A p now) ≡ some s
      → IsAccounted s
  unfolding start
  accounted now moves s e =
      run-IsAccounted moves (start H D R A p now) (record { reads = tt; accounts = refl }) e

  -- Under any schedule, no read of a poll starts at its deadline or after it.
  pub run_reads :
      (now : ℕ) (moves : List (Move H D R A)) (s : PollState H D R A)
      → run H D R A p policy deadline moves (start H D R A p now) ≡ some s
      → All (λ t. t < deadline) s.reads
  run_reads now moves s e = (accounted now moves s e).reads

  -- What a poll returns, under any schedule, is decided by its last read: it is that read's error, or
  -- what its value leads to with the last status; or else the deadline has come, and it is the last
  -- read's error if that was backpressure, and the poll's own timeout if it was not.
  pub run_result :
      (now : ℕ) (moves : List (Move H D R A)) (s : PollState H D R A)
      (result : Result A (AlpacaWalletError H))
      → run H D R A p policy deadline moves (start H D R A p now) ≡ some s
      → s.phase ≡ returned result
      → Decides s.last_status s.answers result
        ⊎ ((result ≡ err (late s.answers)) × (deadline ≤ s.now))
  run_result now moves s result e q = subst (Accounts s) q (accounted now moves s e).accounts

  -- The moves of the poll itself that end it once its deadline has come.
  abbrev pub last_moves : Phase H D R A → List (Move H D R A)
  last_moves ready = begin ∷ []
  last_moves reading = cut ∷ []
  last_moves (sleeping _) = wake ∷ begin ∷ []
  last_moves (returned _) = []

  abbrev pub IsRunning : Phase H D R A → Type 0
  IsRunning (returned _) = ⊥
  IsRunning _ = Unit {0}

  ended : PollState H D R A → PollState H D R A
  ended s = record s { phase = returned (err (late s.answers)) }

  run_last :
      (ph : Phase H D R A) (s : PollState H D R A)
      → s.phase ≡ ph
      → Accounts s ph
      → IsRunning ph
      → deadline ≤ s.now
      → run H D R A p policy deadline (last_moves ph) s ≡ some (ended s)
  unfolding run step ended
  run_last ready s q v r b = ground (arith, q, v)
  run_last reading s q v r b = ground (arith, q, v)
  run_last (sleeping until) s q v r b = ground (arith, q, v)
  run_last (returned _) s q v r b = elim r [ ]

  -- A poll that still runs when its deadline has come ends by at most two moves of its own, without
  -- another read, wherever it is: with the last read's error if that was backpressure, and with its
  -- own timeout if it was not.
  pub run_ends :
      (now : ℕ) (moves : List (Move H D R A)) (s : PollState H D R A)
      → run H D R A p policy deadline moves (start H D R A p now) ≡ some s
      → IsRunning s.phase
      → deadline ≤ s.now
      → (s' : PollState H D R A) × (run H D R A p policy deadline (last_moves s.phase) s ≡ some s')
        × (s'.phase ≡ returned (err (late s.answers)))
        × (s'.reads ≡ s.reads)
  unfolding ended
  run_ends now moves s e r b =
      (ended s, run_last s.phase s refl (accounted now moves s e).accounts r b, refl, refl)
