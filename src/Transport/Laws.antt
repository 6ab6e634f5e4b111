-- ===== src/Transport/Laws.antt =====
-- What a call of src/broker/client.rs tells of its request: whether it left, what the scope's traffic
-- keeps of it, and what a 404 means.
use st0x_alpaca.Prelude.{
  ℕ, Bool, true, false, ◌≡◌, ◌≢◌, ◌↔◌, ◌⊎◌, ◌||◌, ◌++◌, List, [], ◌∷◌, Option, none, some, arith,
  Result, ok, err,
}
use st0x_alpaca.Errors.Http.{Http}
use st0x_alpaca.Errors.Jwt.{KmsJwtError}
use st0x_alpaca.Errors.Broker.{AlpacaBrokerApiError, may_have_reached_alpaca, not_sent, kms_jwt}
use st0x_alpaca.Gateway.Audit.{Traffic}
use st0x_alpaca.Order.Conversion.{requested, order_not_found}
use st0x_alpaca.Transport.{
  SendGate, close, Scope, Response, Exchange, SendError, send, record_answer, record_id, held_back,
  is_held, Codec,
}
use st0x_alpaca.Transport.Broker.{
  Called, from_send_error, parse_api_error, read_body, parsed, handle_response, received,
  authorized, call, post, get, or_not_found, get_order_by_client_order_id, delete, deleted,
  cancel_order, cancelled,
}

module _ (H : Http) (K : Codec) where
  -- What the HTTP client documents of its errors: a request that failed to build or to connect never
  -- left, one that is answered left, and the reading of a body fails in neither of those ways.
  abbrev pub IsSound : Result (Response H) H.Error → Bool → Type 0
  IsSound (err e) left = ((H.is_builder e || H.is_connect e) ≡ true) → left ≡ false
  IsSound (ok r) left =
      (left ≡ true)
      × (elim r.body [ ok bytes ↦ Unit {0} | err e ↦ (H.is_builder e || H.is_connect e) ≡ false ])

  -- Alpaca answered the request by a status from 400 to 499, and not 408.
  abbrev pub IsRefused : Result (Response H) H.Error → Type 0
  IsRefused (ok r) = (H.is_client_error r.status ≡ true) × (r.status ≢ 408)
  IsRefused (err _) = ⊥

  -- Where the error of a post is taken to show that its request did not reach Alpaca, either the request
  -- never left, or Alpaca answered it by a client error other than a timeout.
  pub post_unreached :
      {T : Type 0} (decode : List ℕ → Option T) (scope : Scope) (x : Exchange H)
      (e : AlpacaBrokerApiError H)
      → IsSound x.answer x.left
      → (post H K decode scope x).0 ≡ err e
      → may_have_reached_alpaca e ≡ false
      → ((post H K decode scope x).2 ≡ false) ⊎ IsRefused x.answer
  unfolding post call authorized received send handle_response read_body parsed parse_api_error
      from_send_error may_have_reached_alpaca
  post_unreached decode scope x e sound f r = ground arith

  -- The answer that a call gets, if its token is minted and its gate lets it out.
  abbrev sent : Result (Response H) (SendError H) → Option (Response H)
  sent (ok r) = some r
  sent (err _) = none

  abbrev minted : Exchange H → Scope × Option (KmsJwtError H) → Option (Response H)
  minted x (scope, some _) = none
  minted x (scope, none) = sent (send H scope x).0

  abbrev pub answer_of : Scope → Exchange H → Option (Response H)
  answer_of scope x = minted x (x.mint scope)

  -- An answer of the status, with a body that is read.
  abbrev pub IsAnswer : ℕ → Option (Response H) → Type 0
  IsAnswer status none = ⊥
  IsAnswer status (some r) = (r.status ≡ status) × (elim r.body [ ok bytes ↦ Unit {0} | err e ↦ ⊥ ])

  -- A lookup by the client's key reports that there is no order exactly when Alpaca answered it by a 404
  -- whose body was read: a failure of any other kind is never taken for an order that is not there.
  pub get_order_by_client_order_id_iff :
      {T : Type 0} (decode : List ℕ → Option T) (scope : Scope) (x : Exchange H)
      → ((get_order_by_client_order_id H K decode scope x).0 ≡ ok none)
        ↔ IsAnswer 404 (answer_of scope x)
  unfolding get_order_by_client_order_id or_not_found get call authorized received handle_response
      read_body parsed parse_api_error from_send_error
  get_order_by_client_order_id_iff decode scope x = ground (arith, K.is_success_lem 404)

  abbrev pub IsSuccess : Option (Response H) → Type 0
  IsSuccess none = ⊥
  IsSuccess (some r) = K.is_success r.status ≡ true

  -- A cancellation reports that Alpaca does not know the order exactly when it answered by a 404 whose body
  -- was read, and that it was requested exactly when it answered by a success.
  pub cancel_order_iff :
      (scope : Scope) (x : Exchange H)
      → (((cancel_order H K scope x).0 ≡ ok order_not_found) ↔ IsAnswer 404 (answer_of scope x))
        × (((cancel_order H K scope x).0 ≡ ok requested) ↔ IsSuccess (answer_of scope x))
  unfolding cancel_order cancelled delete deleted call authorized received read_body parsed
      parse_api_error from_send_error
  cancel_order_iff scope x = ground (arith, K.is_success_lem 404)

  -- The traffic of a scope after an answer: its request id is the last, and its status is kept.
  abbrev pub with_id : Option (List ℕ) → List (List ℕ) → List (List ℕ)
  with_id none ids = ids
  with_id (some id) ids = ids ++ (id ∷ [])

  abbrev pub Notes : Option (Response H) → Option Traffic → Option Traffic → Type 0
  Notes none before after = after ≡ before
  Notes (some r) none after = after ≡ none
  Notes (some r) (some before) after =
      after
      ≡ some (record {
        request_ids = with_id r.request_id before.request_ids;
        last_status = some r.status;
      })

  -- Whatever a call reads of its answer, past the mint of its token the scope gains the answer's request
  -- id and status, and nothing where none came; its gate stays as it is.
  pub call-Notes :
      {T : Type 0} (handle : Response H → Result T (AlpacaBrokerApiError H)) (scope : Scope)
      (x : Exchange H)
      → Notes (answer_of scope x) (x.mint scope).0.traffic (call H K handle scope x).1.traffic
        × ((call H K handle scope x).1.gate ≡ (x.mint scope).0.gate)
  unfolding call authorized received record_answer record_id
  call-Notes handle scope x = ground (arith)

  abbrev pub IsUnsent : AlpacaBrokerApiError H → Type 0
  IsUnsent not_sent = Unit
  IsUnsent (kms_jwt e) = Unit
  IsUnsent _ = ⊥

  abbrev pub FailsUnsent : {T : Type 0} → Called H K T → Type 0
  FailsUnsent (ok _, _, _) = ⊥
  FailsUnsent (err e, scope, left) = IsUnsent e × (left ≡ false)

  -- A call whose gate is closed once its token was minted sends nothing, whatever the gate's `is_open`
  -- answers, and fails as unsent or by the mint.
  pub call-FailsUnsent :
      {T : Type 0} (handle : Response H → Result T (AlpacaBrokerApiError H)) (scope : Scope)
      (x : Exchange H) (gate : SendGate)
      → (x.mint scope).0.gate ≡ some (close gate)
      → FailsUnsent (call H K handle scope x)
  unfolding call authorized received send close held_back is_held
  call-FailsUnsent handle scope x gate h = ground arith
