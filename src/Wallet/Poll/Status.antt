-- ===== src/Wallet/Poll/Status.antt =====
-- The statuses that the two polls of src/wallet/status.rs for a finished transfer see: they never go
-- backwards, and the transfer returned has a final one.
use st0x_alpaca.Prelude.{
  ℕ, ◌≡◌, ◌≤◌, inl, inr, refl, false, List, [], ◌∷◌, Option, none, some, arith, Result, ok, err,
  Option-cases, subst,
}
use st0x_alpaca.Errors.Http.{Http}
use st0x_alpaca.Errors.Wallet.{AlpacaWalletError}
use st0x_alpaca.RateLimit.{BackpressurePolicy}
use st0x_alpaca.Wallet.Transfer.{
  TransferStatus, pending, processing, complete, failed, is_pending, Transfer,
  parse_status_transition,
}
use st0x_alpaca.Wallet.Poll.{
  Poll, PollingConfig, Verdict, finish, again, accept_transfer, accept_deposit,
  poll_transfer_until_complete, poll_deposit_by_tx_hash,
}
use st0x_alpaca.Wallet.Poll.Run.{
  Phase, returned, PollState, start, Move, answer, begin, cut, wake, tick, step, run,
}

abbrev pub level : TransferStatus → ℕ
level pending = 0
level processing = 1
level complete = 2
level failed = 2

abbrev Reaches : Option TransferStatus → TransferStatus → Type 0
Reaches none next = Unit {0}
Reaches (some prev) next = level prev ≤ level next

unfoldable pub newest : List TransferStatus → Option TransferStatus
newest [] = none
newest (status ∷ statuses) = some status

-- Statuses, the newest first, none of which is below the one before it.
unfoldable pub IsForward : List TransferStatus → Type 0
unfolding newest
IsForward [] = Unit {0}
IsForward (status ∷ statuses) = Reaches (newest statuses) status × IsForward statuses

module _ (H : Http) (D R : Type 0) (status_of : R → Option TransferStatus) where
  abbrev add_status : Option TransferStatus → List TransferStatus → List TransferStatus
  add_status none statuses = statuses
  add_status (some status) statuses = status ∷ statuses

  -- The statuses of the transfers that were read.
  unfoldable pub statuses : List (Result R (AlpacaWalletError H)) → List TransferStatus
  statuses [] = []
  statuses (ok value ∷ answers) = add_status (status_of value) (statuses answers)
  statuses (err error ∷ answers) = statuses answers

  statuses-err :
      (error : AlpacaWalletError H) (answers : List (Result R (AlpacaWalletError H)))
      → statuses (err error ∷ answers) ≡ statuses answers
  unfolding statuses
  statuses-err error answers = refl

  -- What a poll may make of a value read after the last status.
  abbrev Follows :
      Option TransferStatus
      → Option TransferStatus
      → Verdict (Transfer D) (AlpacaWalletError H)
      → Type 0
  Follows last none (again last') = last' ≡ last
  Follows last (some status) (again last') = (last' ≡ some status) × Reaches last status
  Follows last (some status) (finish (ok transfer)) =
      (transfer.status ≡ status) × (is_pending status ≡ false) × Reaches last status
  Follows last none (finish (ok transfer)) = ⊥
  Follows last seen (finish (err error)) = Unit {0}

  module _ (p : Poll H D R (Transfer D)) (policy : BackpressurePolicy) (deadline : ℕ) where
    abbrev IsSeen : PollState H D R (Transfer D) → Phase H D R (Transfer D) → Type 0
    IsSeen s (returned (ok transfer)) =
        IsForward (statuses s.answers)
        × (newest (statuses s.answers) ≡ some transfer.status)
        × (is_pending transfer.status ≡ false)
    IsSeen s (returned (err error)) = Unit {0}
    IsSeen s ph = IsForward (statuses s.answers) × (s.last_status ≡ newest (statuses s.answers))

    answer-IsSeen :
        (value : R) (s : PollState H D R (Transfer D)) {s' : PollState H D R (Transfer D)}
        → Follows s.last_status (status_of value) (p.accept s.last_status value)
        → IsSeen s s.phase
        → step H D R (Transfer D) p policy deadline (answer (ok value)) s ≡ some s'
        → IsSeen s' s'.phase
    unfolding step statuses IsForward newest
    answer-IsSeen value s f v e = ground arith

    abbrev IsOwn : Move H D R (Transfer D) → Type 0
    IsOwn (answer (ok value)) = ⊥
    IsOwn _ = Unit {0}

    error-IsSeen :
        (error : AlpacaWalletError H) (s : PollState H D R (Transfer D))
        {s' : PollState H D R (Transfer D)}
        → IsSeen s s.phase
        → step H D R (Transfer D) p policy deadline (answer (err error)) s ≡ some s'
        → IsSeen s' s'.phase
    unfolding step
    error-IsSeen error s v e = ground (arith, statuses-err error s.answers)

    own-IsSeen :
        (m : Move H D R (Transfer D)) (s : PollState H D R (Transfer D))
        {s' : PollState H D R (Transfer D)}
        → IsOwn m
        → IsSeen s s.phase
        → step H D R (Transfer D) p policy deadline m s ≡ some s'
        → IsSeen s' s'.phase
    unfolding step
    own-IsSeen (answer (err error)) s f v e = error-IsSeen error s v e
    own-IsSeen (answer (ok value)) s f v e = elim f [ ]
    own-IsSeen begin s f v e = ground arith
    own-IsSeen cut s f v e = ground arith
    own-IsSeen wake s f v e = ground arith
    own-IsSeen (tick d) s f v e = ground arith

    module _
        (follows : (last : Option TransferStatus) (value : R)
          → Follows last (status_of value) (p.accept last value)) where
      step-IsSeen :
          (m : Move H D R (Transfer D)) (s : PollState H D R (Transfer D))
          {s' : PollState H D R (Transfer D)}
          → IsSeen s s.phase
          → step H D R (Transfer D) p policy deadline m s ≡ some s'
          → IsSeen s' s'.phase
      step-IsSeen (answer (ok value)) s v e =
          answer-IsSeen value s (follows s.last_status value) v e
      step-IsSeen m s v e = own-IsSeen m s tt v e

      run-IsSeen :
          (moves : List (Move H D R (Transfer D))) (s : PollState H D R (Transfer D))
          {s' : PollState H D R (Transfer D)}
          → IsSeen s s.phase
          → run H D R (Transfer D) p policy deadline moves s ≡ some s'
          → IsSeen s' s'.phase
      unfolding run
      run-IsSeen [] s {s'} v e = subst (λ t. IsSeen t t.phase) {x = s} {y = s'} (ground arith) v
      run-IsSeen (m ∷ moves) s {s'} v e =
          elim (Option-cases (step H D R (Transfer D) p policy deadline m s)) [
            | inl stuck ↦ absurd (ground arith)
            | inr (t, went) ↦ run-IsSeen moves t {s' = s'} (step-IsSeen m s v went) (ground arith)
          ]

      seen :
          (now : ℕ) (moves : List (Move H D R (Transfer D))) (s : PollState H D R (Transfer D))
          (transfer : Transfer D)
          → run H D R (Transfer D) p policy deadline moves (start H D R (Transfer D) p now) ≡ some s
          → s.phase ≡ returned (ok transfer)
          → IsForward (statuses s.answers)
            × (newest (statuses s.answers) ≡ some transfer.status)
            × (is_pending transfer.status ≡ false)
      unfolding start IsForward newest statuses
      seen now moves s transfer e q =
          subst (IsSeen s) q
            (run-IsSeen moves (start H D R (Transfer D) p now) {s' = s} (tt, refl) e)

module _ (H : Http) (D : Type 0) (strategy : ℕ → ℕ → ℕ → List ℕ) (config : PollingConfig) where
  abbrev pub transfer_status : Transfer D → Option TransferStatus
  transfer_status transfer = some transfer.status

  abbrev pub deposit_status : Option (Transfer D) → Option TransferStatus
  deposit_status none = none
  deposit_status (some transfer) = some transfer.status

  Follows-transfer :
      (last : Option TransferStatus) (transfer : Transfer D)
      → Follows H D
          (Transfer D)
          transfer_status
          last
          (some transfer.status)
          (accept_transfer H D last transfer)
  unfolding accept_transfer parse_status_transition is_pending
  Follows-transfer last transfer = ground arith

  Follows-deposit :
      (last : Option TransferStatus) (found : Option (Transfer D))
      → Follows H D
          (Option (Transfer D))
          deposit_status
          last
          (deposit_status found)
          (accept_deposit H D last found)
  unfolding accept_deposit parse_status_transition is_pending
  Follows-deposit last found = ground arith

  -- Under any schedule, a transfer that the poll for a finished transfer returns has the last status
  -- read, which is complete or failed, and the statuses read never went backwards.
  pub transfer_statuses :
      (policy : BackpressurePolicy) (deadline now : ℕ)
      (moves : List (Move H D (Transfer D) (Transfer D)))
      (s : PollState H D (Transfer D) (Transfer D)) (transfer : Transfer D)
      → run H D
          (Transfer D)
          (Transfer D)
          (poll_transfer_until_complete H D strategy config)
          policy
          deadline
          moves
          (start H D
            (Transfer D)
            (Transfer D)
            (poll_transfer_until_complete H D strategy config)
            now)
        ≡ some s
      → s.phase ≡ returned (ok transfer)
      → IsForward (statuses H D (Transfer D) transfer_status s.answers)
        × (newest (statuses H D (Transfer D) transfer_status s.answers) ≡ some transfer.status)
        × (is_pending transfer.status ≡ false)
  unfolding poll_transfer_until_complete
  transfer_statuses policy deadline now moves s transfer e q =
      seen H D (Transfer D) transfer_status (poll_transfer_until_complete H D strategy config)
        policy deadline Follows-transfer now moves s transfer e q

  -- Under any schedule, a transfer that the poll for a deposit returns has the last status seen, which
  -- is complete or failed, and the statuses seen never went backwards, however often the deposit was
  -- not found in between.
  pub deposit_statuses :
      (policy : BackpressurePolicy) (deadline now : ℕ)
      (moves : List (Move H D (Option (Transfer D)) (Transfer D)))
      (s : PollState H D (Option (Transfer D)) (Transfer D)) (transfer : Transfer D)
      → run H D
          (Option (Transfer D))
          (Transfer D)
          (poll_deposit_by_tx_hash H D strategy config)
          policy
          deadline
          moves
          (start H D
            (Option (Transfer D))
            (Transfer D)
            (poll_deposit_by_tx_hash H D strategy config)
            now)
        ≡ some s
      → s.phase ≡ returned (ok transfer)
      → IsForward (statuses H D (Option (Transfer D)) deposit_status s.answers)
        × (newest (statuses H D (Option (Transfer D)) deposit_status s.answers)
            ≡ some transfer.status)
        × (is_pending transfer.status ≡ false)
  unfolding poll_deposit_by_tx_hash
  deposit_statuses policy deadline now moves s transfer e q =
      seen H D (Option (Transfer D)) deposit_status (poll_deposit_by_tx_hash H D strategy config)
        policy deadline Follows-deposit now moves s transfer e q
