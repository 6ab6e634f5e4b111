-- ===== src/Transport/Broker.antt =====
-- src/broker/client.rs: the requests of the Broker API client, and the lookups that read a 404. The
-- paths, the JSON of the bodies and the headers are left out; `decode` reads an answer's body.
use st0x_alpaca.Prelude.{
  ℕ, Bool, false, ◌==◌, List, Option, none, some, if◌then◌else◌, Result, ok, err, ◌>>=◌,
}
use st0x_alpaca.Errors.Http.{Http}
use st0x_alpaca.Errors.Jwt.{KmsJwtError}
use st0x_alpaca.Errors.Broker.{
  AlpacaBrokerApiError, http_client, kms_jwt, not_sent, api_error, json_parse,
}
use st0x_alpaca.Order.Conversion.{CancellationOutcome, requested, order_not_found}
use st0x_alpaca.Transport.{Scope, Response, Exchange, SendError, send, record_answer, Codec}
use st0x_alpaca.Transport

-- `T` is what the answer is read as. A call gives its result, the scope after it, and whether its
-- request left.
module _ (H : Http) (K : Codec) where
  abbrev pub Called : Type 0 → Type 0
  Called T = Result T (AlpacaBrokerApiError H) × Scope × Bool

  unfoldable pub from_send_error : SendError H → AlpacaBrokerApiError H
  from_send_error (Transport.http e) = http_client e
  from_send_error Transport.not_sent = not_sent

  unfoldable pub parse_api_error : ℕ → List ℕ → Option ℕ → AlpacaBrokerApiError H
  parse_api_error status bytes retry_after = elim (K.error_message bytes) [
    | none ↦ api_error status (K.from_utf8_lossy bytes) retry_after
    | some message ↦ api_error status message retry_after
  ]

  unfoldable pub read_body : Response H → Result (List ℕ) (AlpacaBrokerApiError H)
  read_body r = elim r.body [ ok bytes ↦ ok bytes | err e ↦ err (http_client e) ]

  module _ {T : Type 0} where
    unfoldable pub parsed : Option T → Result T (AlpacaBrokerApiError H)
    parsed none = err json_parse
    parsed (some value) = ok value

    unfoldable pub handle_response :
        (List ℕ → Option T) → Response H → Result T (AlpacaBrokerApiError H)
    unfolding read_body parsed parse_api_error
    handle_response decode r = read_body r >>= (λ bytes.
        if K.is_success r.status
        then parsed (decode bytes)
        else err (parse_api_error r.status bytes r.retry_after))

    -- The rest of a call, once its request was sent or held back.
    unfoldable pub received :
        (Response H → Result T (AlpacaBrokerApiError H))
        → Scope
        → Result (Response H) (SendError H) × Bool
        → Called T
    unfolding from_send_error record_answer
    received handle scope (err e, left) = (err (from_send_error e), scope, left)
    received handle scope (ok r, left) = (handle r, record_answer r.status r.request_id scope, left)

    unfoldable pub authorized :
        (Response H → Result T (AlpacaBrokerApiError H))
        → Exchange H
        → Scope × Option (KmsJwtError H)
        → Called T
    unfolding received send
    authorized handle x (scope, some e) = (err (kms_jwt e), scope, false)
    authorized handle x (scope, none) = received handle scope (send H scope x)

    unfoldable pub call :
        (Response H → Result T (AlpacaBrokerApiError H)) → Scope → Exchange H → Called T
    unfolding authorized
    call handle scope x = authorized handle x (x.mint scope)

    -- `get`, and `post`, whose request has a body.
    unfoldable pub get : (List ℕ → Option T) → Scope → Exchange H → Called T
    unfolding call handle_response
    get decode = call (handle_response decode)

    unfoldable pub post : (List ℕ → Option T) → Scope → Exchange H → Called T
    unfolding call handle_response
    post decode = call (handle_response decode)

    -- A 404 is no order.
    unfoldable pub or_not_found :
        Result T (AlpacaBrokerApiError H) → Result (Option T) (AlpacaBrokerApiError H)
    or_not_found (ok order) = ok (some order)
    or_not_found (err (api_error status message hint)) =
        if status == 404 then ok none else err (api_error status message hint)
    or_not_found (err e) = err e

    unfoldable pub get_order_by_client_order_id :
        (List ℕ → Option T) → Scope → Exchange H → Called (Option T)
    unfolding or_not_found get
    get_order_by_client_order_id decode scope x =
        let c = get decode scope x in (or_not_found c.0, c.1, c.2)

  unfoldable pub deleted : Response H → Result (Unit {0}) (AlpacaBrokerApiError H)
  unfolding read_body parse_api_error
  deleted r =
      if K.is_success r.status
      then ok tt
      else read_body r >>= (λ bytes. err (parse_api_error r.status bytes r.retry_after))

  unfoldable pub delete : Scope → Exchange H → Called (Unit {0})
  unfolding call deleted
  delete = call deleted

  unfoldable pub cancelled :
      Result (Unit {0}) (AlpacaBrokerApiError H)
      → Result CancellationOutcome (AlpacaBrokerApiError H)
  cancelled (ok _) = ok requested
  cancelled (err (api_error status message hint)) =
      if status == 404 then ok order_not_found else err (api_error status message hint)
  cancelled (err e) = err e

  unfoldable pub cancel_order : Scope → Exchange H → Called CancellationOutcome
  unfolding delete cancelled
  cancel_order scope x = let c = delete scope x in (cancelled c.0, c.1, c.2)
