-- ===== src/Gateway/Admission.antt =====
-- crates/gateway/src/state.rs: `admit`, and what a call and its intent carry. Texts are lists of
-- code points. Of the request's clock, ids and digest only values are kept, which the handlers read
-- from outside.
pub mod Laws
mod Tests
use st0x_alpaca.Prelude.{
  ℕ, Bool, true, false, ◌&&◌, List, Option, none, some, if◌then◌else◌, is_blank, Result, ok, err,
}
use st0x_alpaca.Catalog.Access.{Tier, bot, read, write, is_human}
use st0x_alpaca.Catalog.Operation.{Operation, mutates}
use st0x_alpaca.Gateway.Budget.{HumanBudget, cost, take_at}
use st0x_alpaca.Gateway.Failure.{
  Failure, new, invalid, unavailable, capability_disabled, backpressure,
}

pub record Call : Type 0 where
  pub request_id : ℕ
  pub operation : Operation
  pub tier : Tier
  pub subject : List ℕ
  pub email : Option (List ℕ)
  pub on_behalf_of : Option (List ℕ)

pub record Intent : Type 0 where
  pub key : Option (List ℕ)
  pub reason : Option (List ℕ)
  pub digest : Option (List ℕ)
  pub summary : List (List ℕ × List ℕ)

-- What `admit` reads of the shared state: the shutdown token, the disabled operations of the
-- config, and the budget.
pub record Gate : Type 0 where
  pub shutting_down : Bool
  pub is_disabled : Operation → Bool
  pub budget : HumanBudget

-- `reason.as_deref().is_none_or(|reason| reason.trim().is_empty())`.
unfoldable pub lacks_reason : Option (List ℕ) → Bool
unfolding is_blank
lacks_reason none = true
lacks_reason (some reason) = is_blank reason

is_write : Tier → Bool
is_write write = true
is_write _ = false

-- `self.budget.take(...)`, its wait as a backpressure failure.
charge : Gate → Operation → ℕ → Gate × Result (Unit {0}) Failure
unfolding new
charge g operation now =
    let (b, taken) = take_at g.budget (cost operation) now in
    elim taken [
      | ok _ ↦ (record g { budget = b }, ok tt)
      | err wait ↦
          (record g { budget = b }, err (record (new backpressure) { retry_after = some wait }))
    ]

pub admit : Gate → Call → Intent → ℕ → Gate × Result (Unit {0}) Failure
unfolding charge is_write new invalid is_human
admit g call intent now =
    if g.shutting_down
    then (g, err (new unavailable))
    else if g.is_disabled call.operation
    then (g, err (new capability_disabled))
    else if is_write call.tier && (mutates call.operation && lacks_reason intent.reason)
    then (g, err invalid)
    else if is_human call.tier
    then charge g call.operation now
    else (g, ok tt)
