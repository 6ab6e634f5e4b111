-- ===== src/Gateway/Admission/Laws.antt =====
-- Which calls crates/gateway/src/state.rs lets through, and what a refusal leaves alone.
use st0x_alpaca.Prelude.{ℕ, ◌≡◌, ◌≢◌, ◌⊎◌, ◌↔◌, true, false, List, some, arith, ok, is_blank}
use st0x_alpaca.Catalog.Access.{bot, write, is_human}
use st0x_alpaca.Catalog.Operation.{mutates}
use st0x_alpaca.Gateway.Budget.{cost, take_at}
use st0x_alpaca.Gateway.Admission.{Gate, Call, Intent, admit, lacks_reason}

-- A call is admitted exactly when the gateway is not shutting down, its operation is not disabled,
-- a change asked for by a human writer has a reason that is not blank, and a human's call fits the
-- budget.
pub admit_iff :
    (g : Gate) (call : Call) (intent : Intent) (now : ℕ)
    → ((admit g call intent now).1 ≡ ok tt) ↔ (
        (g.shutting_down ≡ false)
        × (g.is_disabled call.operation ≡ false)
        × ((call.tier ≢ write)
            ⊎ (mutates call.operation ≡ false)
            ⊎ ((reason : List ℕ) × (intent.reason ≡ some reason) × (is_blank reason ≡ false)))
        × ((call.tier ≡ bot) ⊎ ((take_at g.budget (cost call.operation) now).1 ≡ ok tt)))
unfolding admit lacks_reason
admit_iff g call intent now =
    (λ h. (ground arith, ground arith, ground arith, ground arith), λ h. ground arith)

-- Only an admitted or over budget call of a human changes the gateway's state, and only its budget:
-- a bot's call, or one refused before the budget is asked, leaves everything as it was.
pub admit_frame :
    (g : Gate) (call : Call) (intent : Intent) (now : ℕ)
    → ((admit g call intent now).0 ≡ g)
      ⊎ ((is_human call.tier ≡ true)
          × ((admit g call intent now).0
              ≡ record g { budget = (take_at g.budget (cost call.operation) now).0 }))
unfolding admit
admit_frame g call intent now = ground arith
