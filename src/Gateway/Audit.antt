-- ===== src/Gateway/Audit.antt =====
-- crates/gateway/src/state.rs: the audit record of a call (`event`), and the bounds on what it keeps;
-- the record's fields are those of crates/gateway-api/src/record.rs. Texts are lists of code points,
-- and the two readings of the clock are arguments.
pub mod Laws
mod Tests
use st0x_alpaca.Prelude.{
  ℕ, zero, suc, min, ◌-◌, ◌^◌, Bool, true, false, List, [], ◌∷◌, ◌++◌, map, Option, none, some,
  if◌then◌else◌, take, Result, ok, err, String,
}
use st0x_alpaca.Catalog.Access.{Tier}
use st0x_alpaca.Catalog.Operation.{Operation, mutates}
use st0x_alpaca.Gateway.Failure.{Failure, ErrorCode, Outcome, applied, RejectionReason}
use st0x_alpaca.Gateway.Admission.{Call, Intent}

pub data AuditPhase : Type 0 where
  answered settled : AuditPhase

-- The Alpaca traffic that a call collected (src/request_id.rs).
pub record Traffic : Type 0 where
  pub request_ids : List (List ℕ)
  pub last_status : Option ℕ

unfoldable pub no_traffic : Traffic
no_traffic = record { request_ids = []; last_status = none }

-- The names that the deployment stamps on every record.
pub record Deployment : Type 0 where
  pub deployment : List ℕ
  pub environment : List ℕ
  pub account_id : List ℕ
  pub version : List ℕ

pub record AuditEvent : Type 0 where
  pub request_id : ℕ
  pub phase : AuditPhase
  pub at : ℕ
  pub stamp : Deployment
  pub principal : List ℕ
  pub principal_email : Option (List ℕ)
  pub tier : Tier
  pub on_behalf_of : Option (List ℕ)
  pub operation : Operation
  pub key : Option (List ℕ)
  pub reason : Option (List ℕ)
  pub request_digest : Option (List ℕ)
  pub summary : List (List ℕ × List ℕ)
  pub alpaca_status : Option ℕ
  pub alpaca_request_ids : List (List ℕ)
  pub alpaca_object_id : Option (List ℕ)
  pub outcome : Option Outcome
  pub code : Option ErrorCode
  pub rejection : Option RejectionReason
  pub latency_ms : ℕ

abbrev pub audit_field_max : ℕ
audit_field_max = 256

abbrev pub audit_id_max : ℕ
audit_id_max = 128

abbrev pub audit_ids_max : ℕ
audit_ids_max = 100

-- `char_indices().nth(max)` is where the text is cut, if it is longer.
unfoldable pub cut : List ℕ → ℕ → List ℕ
cut text max = take max text

unfoldable pub capped : List ℕ → List ℕ
unfolding cut
capped value = cut value audit_field_max

unfoldable pub audit_ids : List (List ℕ) → List (List ℕ)
unfolding cut
audit_ids ids = map (λ id. cut id audit_id_max) (take audit_ids_max ids)

-- `ids.join(",")`.
join : List (List ℕ) → List ℕ
join [] = []
join (id ∷ []) = id
join (id ∷ next ∷ ids) = id ++ b',' ∷ join (next ∷ ids)

object_id : List (List ℕ) → Option (List ℕ)
unfolding join audit_ids
object_id [] = none
object_id (id ∷ ids) = some (join (audit_ids (id ∷ ids)))

abbrev u64_max : ℕ
u64_max = 2 ^ 64 - 1

-- What the record says of the result: object ids, outcome, code, rejection, Alpaca status.
record Verdict : Type 0 where
  object_ids : List (List ℕ)
  outcome : Option Outcome
  code : Option ErrorCode
  rejection : Option RejectionReason
  alpaca_status : Option ℕ

verdict : Operation → Traffic → Result (List (List ℕ)) Failure → Verdict
verdict operation traffic (ok object_ids) = record {
  object_ids = object_ids;
  outcome = if mutates operation then some applied else none;
  code = none;
  rejection = none;
  alpaca_status = traffic.last_status;
}
verdict operation traffic (err failure) = record {
  object_ids = failure.alpaca_object_ids;
  outcome = failure.outcome;
  code = some failure.code;
  rejection = failure.reason;
  alpaca_status = failure.alpaca_status;
}

module _ (stamp : Deployment) (call : Call) (intent : Intent) where
  pub event : AuditPhase → Traffic → Result (List (List ℕ)) Failure → ℕ → ℕ → AuditEvent
  unfolding verdict object_id audit_ids
  event phase traffic result at elapsed =
      let v = verdict call.operation traffic result in
      record {
        request_id = call.request_id;
        phase = phase;
        at = at;
        stamp = stamp;
        principal = call.subject;
        principal_email = call.email;
        tier = call.tier;
        on_behalf_of = call.on_behalf_of;
        operation = call.operation;
        key = intent.key;
        reason = intent.reason;
        request_digest = intent.digest;
        summary = intent.summary;
        alpaca_status = v.alpaca_status;
        alpaca_request_ids = audit_ids traffic.request_ids;
        alpaca_object_id = object_id v.object_ids;
        outcome = v.outcome;
        code = v.code;
        rejection = v.rejection;
        latency_ms = min elapsed u64_max;
      }
