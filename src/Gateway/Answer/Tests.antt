-- ===== src/Gateway/Answer/Tests.antt =====
-- Examples for crates/gateway/src/answer.rs.
use st0x_alpaca.Prelude.{true, false, some, codes}
use st0x_alpaca.Errors.Sample.{http}
use st0x_alpaca.Errors.Broker.{AlpacaBrokerApiError, PlacementError, may_have_reached_alpaca}
use st0x_alpaca.Errors.Broker
use st0x_alpaca.Errors.Issuer.{IssuerCallError}
use st0x_alpaca.Errors.Issuer
use st0x_alpaca.Gateway.Failure.{Failure, new, outcome_unknown}

abbrev lost : AlpacaBrokerApiError http
lost = Broker.http_client 3

abbrev lost_order : PlacementError http
lost_order = record { written = true; error = lost }

abbrev refused_redeem : IssuerCallError http
refused_redeem = record { written = false; alpaca_status = some 422; error = Issuer.api 422 }

abbrev throttled_call : AlpacaBrokerApiError http
throttled_call = Broker.api_error 429 (codes "slow down") (some 3)

abbrev unknown_failure : Failure
unknown_failure = new outcome_unknown
