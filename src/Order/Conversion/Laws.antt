-- ===== src/Order/Conversion/Laws.antt =====
-- When the conversion poll of src/broker/order.rs cancels, and what it tells of the order.
use st0x_alpaca.Prelude.{
  ℕ, ◌≡◌, ◌≤◌, inl, inr, refl, subst, Bool, true, false, List, [], ◌∷◌, Option, none, some, arith,
  Result, ok, err, All, Option-cases,
}
use st0x_alpaca.Errors.Http.{Http}
use st0x_alpaca.Errors.Broker.{AlpacaBrokerApiError}
use st0x_alpaca.Order.Conversion.{
  CryptoOrderResponse, ConversionPollDeadlines, SettledConversionOrder, DeadlineCancel, failed,
  outcome_of, or_last, Phase, checking, reading, cancelling, sleeping, cancelling_again, returned,
  PollState, start, Move, step, run,
}

-- The fill that a list of orders tells of, the newest first: the last one that an order names.
abbrev pub last_fill : {F : Type 0} → List (CryptoOrderResponse F) → Option F
last_fill [] = none
last_fill (order ∷ orders) = elim order.filled_quantity [
  | none ↦ last_fill orders
  | some filled ↦ some filled
]

module _ (H : Http) (F : Type 0) where
  -- Cancels, the newest first, each of which but the first was sent after one that failed.
  abbrev pub IsRepeated : List (ℕ × Result DeadlineCancel (AlpacaBrokerApiError H)) → Type 0
  IsRepeated [] = Unit {0}
  IsRepeated (cancel ∷ cancels) = All (λ c. c.1 ≡ ok failed) cancels

  abbrev pub is_some_cancel : List (ℕ × Result DeadlineCancel (AlpacaBrokerApiError H)) → Bool
  is_some_cancel [] = false
  is_some_cancel (_ ∷ _) = true

  -- The newest order settles the poll.
  abbrev pub Settles : List (CryptoOrderResponse F) → SettledConversionOrder F → Type 0
  Settles [] settled = ⊥
  Settles (order ∷ orders) settled =
      (settled.order ≡ order) × (outcome_of order ≡ some settled.outcome)

  module _ (checked_add : ℕ → ℕ → Option ℕ) (deadlines : ConversionPollDeadlines)
      (deadline : ℕ) where
    -- The last cancel is the one the state knows.
    abbrev Knows :
        DeadlineCancel → List (ℕ × Result DeadlineCancel (AlpacaBrokerApiError H)) → Type 0
    Knows cancel [] = ⊥
    Knows cancel ((_, result) ∷ cancels) = (result ≡ ok cancel) × All (λ c. c.1 ≡ ok failed) cancels

    abbrev InOrder : PollState H F → Phase H F → Type 0
    InOrder s checking = s.cancels ≡ []
    InOrder s reading = s.cancels ≡ []
    InOrder s (sleeping _) = s.cancels ≡ []
    InOrder s cancelling = (s.cancels ≡ []) × (deadline ≤ s.now)
    InOrder s cancelling_again = Knows s.cancel s.cancels × (s.cancel ≡ failed) × (deadline ≤ s.now)
    InOrder s (returned _) = IsRepeated s.cancels
    InOrder s ph = Knows s.cancel s.cancels × (deadline ≤ s.now)

    record Cancels (s : PollState H F) : Type 0 where
      late : All (λ c. deadline ≤ c.0) s.cancels
      in_order : InOrder s s.phase

    step-Cancels :
        (m : Move H F) (s s' : PollState H F)
        → Cancels s
        → step H F checked_add deadlines deadline m s ≡ some s'
        → Cancels s'
    unfolding step
    step-Cancels m s s' v e = ground arith

    abbrev Told : PollState H F → Phase H F → Type 0
    Told s checking = (s.cancels ≡ []) × (s.filled ≡ last_fill s.orders)
    Told s reading = (s.cancels ≡ []) × (s.filled ≡ last_fill s.orders)
    Told s (sleeping _) = (s.cancels ≡ []) × (s.filled ≡ last_fill s.orders)
    Told s cancelling = (s.cancels ≡ []) × (s.filled ≡ last_fill s.orders)
    Told s (returned (ok settled)) =
        Settles s.orders settled × (settled.deadline_cancelled ≡ is_some_cancel s.cancels)
    Told s (returned (err error)) = s.filled ≡ last_fill s.orders
    Told s ph = (is_some_cancel s.cancels ≡ true) × (s.filled ≡ last_fill s.orders)

    step-Told :
        (m : Move H F) (s s' : PollState H F)
        → Told s s.phase
        → step H F checked_add deadlines deadline m s ≡ some s'
        → Told s' s'.phase
    unfolding step or_last
    step-Told m s s' v e = ground arith

    run_keeps :
        {P : PollState H F → Type 0}
        → ((m : Move H F) (s s' : PollState H F)
            → P s
            → step H F checked_add deadlines deadline m s ≡ some s'
            → P s')
        → (moves : List (Move H F)) (s s' : PollState H F) → P s
        → run H F checked_add deadlines deadline moves s ≡ some s'
        → P s'
    unfolding run
    run_keeps {P} keeps [] s s' v e = subst P {x = s} {y = s'} (ground arith) v
    run_keeps {P} keeps (m ∷ moves) s s' v e =
        elim (Option-cases (step H F checked_add deadlines deadline m s)) [
          | inl stuck ↦ absurd (ground arith)
          | inr (t, went) ↦ run_keeps {P = P} keeps moves t s' (keeps m s t v went) (ground arith)
        ]

    cancels :
        (now : ℕ) (moves : List (Move H F)) (s : PollState H F)
        → run H F checked_add deadlines deadline moves (start H F now) ≡ some s
        → Cancels s
    unfolding start
    cancels now moves s e =
        run_keeps {P = Cancels} step-Cancels moves (start H F now) s
          (record { late = tt; in_order = refl }) e

    told :
        (now : ℕ) (moves : List (Move H F)) (s : PollState H F)
        → run H F checked_add deadlines deadline moves (start H F now) ≡ some s
        → Told s s.phase
    unfolding start
    told now moves s e =
        run_keeps {P = λ s. Told s s.phase} step-Told moves (start H F now) s (refl, refl) e

    InOrder-repeats : (ph : Phase H F) (s : PollState H F) → InOrder s ph → IsRepeated s.cancels
    InOrder-repeats ph s v = ground (arith, v)

    -- Under any schedule, no cancel is sent before the deadline of the order, and another cancel is sent
    -- only after one that failed: a cancel that the broker accepted or declined is never repeated.
    pub run_cancels :
        (now : ℕ) (moves : List (Move H F)) (s : PollState H F)
        → run H F checked_add deadlines deadline moves (start H F now) ≡ some s
        → All (λ c. deadline ≤ c.0) s.cancels × IsRepeated s.cancels
    run_cancels now moves s e =
        ((cancels now moves s e).late, InOrder-repeats s.phase s (cancels now moves s e).in_order)

    -- Under any schedule, the order that a poll returns is the last one read, with its outcome, which is
    -- final; and it is marked as cancelled at the deadline exactly when a cancel was sent.
    pub run_settled :
        (now : ℕ) (moves : List (Move H F)) (s : PollState H F) (settled : SettledConversionOrder F)
        → run H F checked_add deadlines deadline moves (start H F now) ≡ some s
        → s.phase ≡ returned (ok settled)
        → Settles s.orders settled × (settled.deadline_cancelled ≡ is_some_cancel s.cancels)
    run_settled now moves s settled e q = subst (Told s) q (told now moves s e)

    -- Under any schedule, the fill that a poll knows of when it fails is the last that a read reported: a
    -- read that names none does not undo it.
    pub run_fill :
        (now : ℕ) (moves : List (Move H F)) (s : PollState H F) (error : AlpacaBrokerApiError H)
        → run H F checked_add deadlines deadline moves (start H F now) ≡ some s
        → s.phase ≡ returned (err error)
        → s.filled ≡ last_fill s.orders
    run_fill now moves s error e q = subst (Told s) q (told now moves s e)
