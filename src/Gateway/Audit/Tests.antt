-- ===== src/Gateway/Audit/Tests.antt =====
-- An example for `event` of crates/gateway/src/state.rs: a read whose traffic left one request id.
use st0x_alpaca.Prelude.{[], ◌∷◌, none, some, ok, codes}
use st0x_alpaca.Catalog.Access.{bot}
use st0x_alpaca.Catalog.Operation.{orders_get}
use st0x_alpaca.Gateway.Admission.{Call, Intent}
use st0x_alpaca.Gateway.Audit.{AuditEvent, Deployment, Traffic, answered, event}

abbrev staging : Deployment
staging = record {
  deployment = codes "t0-alpaca";
  environment = codes "staging";
  account_id = codes "a";
  version = codes "1";
}

abbrev look : Call
look = record {
  request_id = 7;
  operation = orders_get;
  tier = bot;
  subject = codes "bot";
  email = none;
  on_behalf_of = none;
}

abbrev no_intent : Intent
no_intent = record { key = none; reason = none; digest = none; summary = [] }

abbrev one_request : Traffic
one_request = record { request_ids = codes "r1" ∷ []; last_status = some 200 }

abbrev looked : AuditEvent
looked = event staging look no_intent answered one_request (ok (codes "o1" ∷ [])) 5 6
