-- ===== src/Gateway/Run/Invariant.antt =====
-- What the two tasks of `run` in crates/gateway/src/state.rs agree on between any two moves.
use st0x_alpaca.Prelude.{
  ℕ, ◌≡◌, refl, ◌⊎◌, inl, Bool, true, false, List, [], ◌∷◌, Option, none, some, arith, err,
}
use st0x_alpaca.Catalog.Operation.{Operation}
use st0x_alpaca.Gateway.Audit.{answered, settled}
use st0x_alpaca.Gateway.Run.{
  WorkResult, Entry, Worker, working, reporting, recorded, Handler, waiting, gate_closed, dropped,
  gone, with_result, without, RunState, start, Move, tick, step,
}

-- The results that the records of one phase carry.
abbrev pub answered_results : List Entry → List WorkResult
answered_results [] = []
answered_results (e ∷ log) =
    let rest = answered_results log in elim e.phase [ answered ↦ e.result ∷ rest | settled ↦ rest ]

abbrev pub settled_results : List Entry → List WorkResult
settled_results [] = []
settled_results (e ∷ log) =
    let rest = settled_results log in elim e.phase [ settled ↦ e.result ∷ rest | answered ↦ rest ]

-- What the tasks have written so far.
abbrev pub answered_so_far : Worker → Handler → List WorkResult
answered_so_far (recorded answered result) h = result ∷ []
answered_so_far _ (without failure) = err failure ∷ []
answered_so_far _ _ = []

abbrev pub settled_so_far : Worker → List WorkResult
settled_so_far (recorded settled result) = result ∷ []
settled_so_far _ = []

-- The handler still holds an open receiver.
abbrev pub listens : Handler → Bool
listens waiting = true
listens gate_closed = true
listens dropped = true
listens _ = false

-- A result that was sent is in the channel, or with the handler, unless that is gone.
abbrev Delivered : WorkResult → Handler → Option WorkResult → Type 0
Delivered result (with_result r) channel = (r ≡ result) × (channel ≡ none)
Delivered result (without failure) channel = ⊥
Delivered result gone channel = channel ≡ none
Delivered result _ channel = channel ≡ some result

-- Nothing was sent: the channel is empty, and the handler has no result.
abbrev Undelivered : Handler → Option WorkResult → Type 0
Undelivered (with_result r) channel = ⊥
Undelivered _ channel = channel ≡ none

abbrev pub Agrees : Worker → Handler → Option WorkResult → Type 0
Agrees working h channel = Undelivered h channel
Agrees (reporting answered result _) h channel = Delivered result h channel
Agrees (recorded answered result) h channel = Delivered result h channel
Agrees (reporting settled result _) h channel = Undelivered h channel × (listens h ≡ false)
Agrees (recorded settled result) h channel = Undelivered h channel × (listens h ≡ false)

pub record IsCoherent (s : RunState) : Type 0 where
  pub listening : s.receiving ≡ listens s.handler
  pub gated : (s.handler ≡ waiting) ⊎ (s.closed ≡ true)
  pub agreed : Agrees s.worker s.handler s.channel
  pub answers : answered_results s.log ≡ answered_so_far s.worker s.handler
  pub settlements : settled_results s.log ≡ settled_so_far s.worker

pub start-IsCoherent : (o : Operation) (now deadline : ℕ) → IsCoherent (start o now deadline)
unfolding start
start-IsCoherent o now deadline = record {
  listening = refl;
  gated = inl refl;
  agreed = refl;
  answers = refl;
  settlements = refl;
}

pub step-IsCoherent :
    (m : Move) (s : RunState) {s' : RunState} → IsCoherent s → step m s ≡ some s' → IsCoherent s'
unfolding step
step-IsCoherent (tick d) s v e = ground arith
step-IsCoherent m s v e = ground arith
