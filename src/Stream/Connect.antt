-- ===== src/Stream/Connect.antt =====
-- src/corporate_actions/client.rs: the opening of the stream. The content type of an answer is read by
-- an argument, and an instant is written by `to_rfc3339`.
pub mod Laws
mod Tests
use st0x_alpaca.Prelude.{
  ℕ, ◌==◌, not, Bool, true, false, List, [], Option, none, some, if◌then◌else◌, codes, is_prefix,
  Result, ok, err,
}
use st0x_alpaca.Errors.Http.{Http}
use st0x_alpaca.Errors.Jwt.{KmsJwtError}
use st0x_alpaca.Stream.Endpoint.{
  Url, CorporateActionStreamEndpoint, authenticated_alpaca, credential_free_development,
  CorporateActionReplay, query_pairs,
}
use st0x_alpaca.Transport.{Scope, Response, Exchange, SendError, send, record_answer, Codec}
use st0x_alpaca.Transport

module _ (H : Http) where
  pub data CorporateActionStreamError : Type 0 where
    http : H.Error → CorporateActionStreamError
    http_status : ℕ → CorporateActionStreamError
    rate_limited : Option ℕ → CorporateActionStreamError
    invalid_content_type : ℕ → List ℕ → CorporateActionStreamError
    auth : KmsJwtError H → CorporateActionStreamError
    not_sent : CorporateActionStreamError

  -- `authenticated` is whether the client has credentials.
  pub record CorporateActionStreamClient : Type 0 where
    pub endpoint : CorporateActionStreamEndpoint
    pub authenticated : Bool

  -- `new`, with the failure of the credentials, if they would fail.
  unfoldable pub new :
      CorporateActionStreamEndpoint
      → Option (KmsJwtError H)
      → Result CorporateActionStreamClient (KmsJwtError H)
  new endpoint build = elim endpoint.transport [
    | credential_free_development ↦ ok (record { endpoint = endpoint; authenticated = false })
    | authenticated_alpaca ↦ elim build [
      | some e ↦ err e
      | none ↦ ok (record { endpoint = endpoint; authenticated = true })
    ]
  ]

  -- What the HTTP client is handed.
  pub record Outgoing : Type 0 where
    pub url : Url
    pub has_credentials : Bool
    pub query : List (List ℕ × List ℕ)

  module _ (K : Codec) (content_type : Response H → Option (List ℕ)) (to_rfc3339 : ℕ → List ℕ) where
    unfoldable pub type_of : Option (List ℕ) → List ℕ
    type_of none = []
    type_of (some text) = text

    unfoldable pub opened : Response H → Result (Response H) CorporateActionStreamError
    unfolding type_of
    opened r =
        if r.status == 429
        then err (rate_limited r.retry_after)
        else if not (K.is_success r.status)
        then err (http_status r.status)
        else if not (is_prefix (codes "text/event-stream") (type_of (content_type r)))
        then err (invalid_content_type r.status (type_of (content_type r)))
        else ok r

    unfoldable pub from_send_error : SendError H → CorporateActionStreamError
    from_send_error (Transport.http e) = http e
    from_send_error Transport.not_sent = not_sent

    unfoldable pub received :
        Scope
        → Result (Response H) (SendError H)
        → Result (Response H) CorporateActionStreamError × Scope
    unfolding opened record_answer from_send_error
    received scope (err e) = (err (from_send_error e), scope)
    received scope (ok r) = (opened r, record_answer r.status r.request_id scope)

    unfoldable pub outgoing : CorporateActionStreamClient → CorporateActionReplay → Outgoing
    unfolding query_pairs
    outgoing client replay = record {
      url = client.endpoint.url;
      has_credentials = client.authenticated;
      query = query_pairs to_rfc3339 replay;
    }

    -- The mint, which only a client with credentials asks for.
    unfoldable pub minted :
        CorporateActionStreamClient → Exchange H → Scope → Scope × Option (KmsJwtError H)
    minted client x scope = if client.authenticated then x.mint scope else (scope, none)

    -- What leaves, by the exchange for it.
    unfoldable pub handed :
        Outgoing
        → Exchange H
        → Scope × Option (KmsJwtError H)
        → Result (Response H) CorporateActionStreamError × Scope × Option Outgoing
    unfolding received send
    handed request x (scope, some e) = (err (auth e), scope, none)
    handed request x (scope, none) =
        let s = send H scope x in
        let c = received scope s.0 in (c.0, c.1, if s.1 then some request else none)

    unfoldable pub connect_raw :
        CorporateActionStreamClient
        → CorporateActionReplay
        → Scope
        → (Outgoing → Exchange H)
        → Result (Response H) CorporateActionStreamError × Scope × Option Outgoing
    unfolding handed outgoing minted
    connect_raw client replay scope x =
        let request = outgoing client replay in
        handed request (x request) (minted client (x request) scope)
