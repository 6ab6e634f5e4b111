-- ===== src/Gateway/Answer/Issuer.antt =====
-- crates/gateway/src/answer.rs: `issuer` and `issuer_call`.
use st0x_alpaca.Prelude.{Bool, ◌&&◌, ltb, leb, true, false, none, some, if◌then◌else◌}
use st0x_alpaca.Errors.Http.{Http}
use st0x_alpaca.Errors.Jwt
use st0x_alpaca.Errors.Issuer.{AlpacaError, IssuerCallError}
use st0x_alpaca.Errors.Issuer
use st0x_alpaca.Gateway.Failure.{
  Failure, new, rejection, backpressure, upstream_transient, outcome_unknown, unsupported_network,
  request_not_found, alpaca_api,
}
use st0x_alpaca.Gateway.Answer.{
  Sent, read, untyped, unsent, unsendable, never_left, api_failure, throttled,
}
use st0x_alpaca.Gateway.Answer.Broker.{hint_of}

module _ (H : Http) where
  is_rate_limited : AlpacaError H → Bool
  is_rate_limited (Issuer.rate_limited _) = true
  is_rate_limited _ = false

  -- The `match` below the throttling check. `StatusCode::from_u16` takes 100 to 999.
  issuer_unthrottled : AlpacaError H → Sent → Failure
  unfolding new rejection unsent unsendable never_left untyped api_failure Issuer.permanence
  issuer_unthrottled Issuer.unsupported_tokenization_network sent = rejection unsupported_network
  issuer_unthrottled Issuer.not_sent sent = new upstream_transient
  issuer_unthrottled (Issuer.jwt Jwt.not_sent) sent = new upstream_transient
  issuer_unthrottled (Issuer.jwt e) sent = unsendable (Issuer.permanence {H = H} (Issuer.jwt e))
  issuer_unthrottled Issuer.invalid_url sent =
      unsendable (Issuer.permanence {H = H} Issuer.invalid_url)
  issuer_unthrottled (Issuer.reqwest source) sent =
      if never_left H source
      then unsent H source
      else untyped sent (Issuer.permanence {H = H} (Issuer.reqwest source))
  issuer_unthrottled Issuer.request_not_found sent = record (rejection request_not_found) {
    alpaca_status = some 404;
  }
  issuer_unthrottled Issuer.auth sent = rejection alpaca_api
  issuer_unthrottled (Issuer.api status_code) sent =
      if leb 100 status_code && ltb status_code 1000
      then api_failure H status_code sent (Issuer.permanence {H = H} (Issuer.api status_code))
      else untyped sent (Issuer.permanence {H = H} (Issuer.api status_code))
  issuer_unthrottled error sent = untyped sent (Issuer.permanence {H = H} error)

  unfoldable pub issuer : AlpacaError H → Sent → Failure
  unfolding issuer_unthrottled is_rate_limited throttled new Issuer.backpressure
  issuer error sent = elim (Issuer.backpressure error) [
    | some pressure ↦
        if is_rate_limited error
        then record (new backpressure) { retry_after = pressure.retry_after }
        else throttled pressure.retry_after none
    | none ↦ issuer_unthrottled error sent
  ]

  unfoldable pub issuer_call : IssuerCallError H → Failure
  unfolding issuer new
  issuer_call failure =
      let mapped =
        if failure.written
        then record (new outcome_unknown) {
          retry_after = hint_of (Issuer.backpressure failure.error);
        }
        else issuer failure.error read in
      record mapped { alpaca_status = failure.alpaca_status }
