-- ===== src/Gateway/Admission/Tests.antt =====
-- Examples for `admit` of crates/gateway/src/state.rs: a human writer cancels an order, for a reason.
use st0x_alpaca.Prelude.{◌≡◌, ◌≢◌, ◌⊎◌, ◌↔◌, false, List, ℕ, [], none, some, ok, codes, is_blank}
use st0x_alpaca.Catalog.Access.{write, bot}
use st0x_alpaca.Catalog.Operation.{orders_cancel, mutates}
use st0x_alpaca.Gateway.Budget.{cost, take_at}
use st0x_alpaca.Gateway.Admission.{Gate, Call, Intent, admit}
use st0x_alpaca.Gateway.Admission.Laws.{admit_iff}

abbrev open_gate : Gate
open_gate = record {
  shutting_down = false;
  is_disabled = λ o. false;
  budget = record { per_minute = 2; window = none; poisoned = false };
}

abbrev cancel : Call
cancel = record {
  request_id = 7;
  operation = orders_cancel;
  tier = write;
  subject = codes "ann";
  email = none;
  on_behalf_of = none;
}

abbrev for_a_reason : Intent
for_a_reason = record { key = none; reason = some (codes "stale"); digest = none; summary = [] }

admit_iff_example : ((admit open_gate cancel for_a_reason 5).1 ≡ ok tt) ↔ (
    (open_gate.shutting_down ≡ false)
    × (open_gate.is_disabled orders_cancel ≡ false)
    × ((write ≢ write)
        ⊎ (mutates orders_cancel ≡ false)
        ⊎ ((reason : List ℕ) × (some (codes "stale") ≡ some reason) × (is_blank reason ≡ false)))
    × ((write ≡ bot) ⊎ ((take_at open_gate.budget (cost orders_cancel) 5).1 ≡ ok tt)))
admit_iff_example = admit_iff open_gate cancel for_a_reason 5
