-- ===== src/Stream/Connect/Laws.antt =====
-- Where the credentials of a stream may go, and what a connection asks for and takes.
use st0x_alpaca.Prelude.{
  ℕ, ◌≡◌, ◌⊎◌, ◌≢◌, inl, inr, refl, sym, Bool, true, false, List, [], ◌∷◌, any, find, All, Option,
  none, some, ◌∙◌, ap, same_bytes, codes, is_prefix, same_bytes-eq, arith, Result, ok, err,
  Option-cases, Bool-cases, subst,
}
use st0x_alpaca.Errors.Http.{Http}
use st0x_alpaca.Errors.Jwt.{KmsJwtError}
use st0x_alpaca.Stream.Endpoint.{
  Url, DevelopmentLoopback, allow, CorporateActionStreamEndpoint, CorporateActionStreamTransport,
  authenticated_alpaca, credential_free_development, alpaca_stream_host, is_reserved,
  reject_forbidden_url_parts, endpoint_of, parse, CorporateActionReplay, live, since_id, since,
  window, query_pairs, is_some, is_empty, rejected_pair, is_alpaca_host,
  is_development_loopback_endpoint,
}
use st0x_alpaca.Stream.Connect.{
  CorporateActionStreamClient, CorporateActionStreamError, http_status, rate_limited, new, Outgoing,
  opened, handed, connect_raw, type_of, from_send_error, received, outgoing, minted,
}
use st0x_alpaca.Transport.{Scope, Response, Exchange, send, Codec}

abbrev pub IsFor : DevelopmentLoopback → Url → CorporateActionStreamTransport → Type 0
IsFor loopback url authenticated_alpaca =
    (url.scheme ≡ codes "https") × (url.host_str ≡ some alpaca_stream_host)
IsFor loopback url credential_free_development = (url.scheme ≡ codes "http") × (loopback ≡ allow)

-- Without credentials of its own, a fragment, or a replay position.
abbrev pub IsPlain : Url → Type 0
IsPlain url =
    (url.username ≡ [])
    × (url.password ≡ none)
    × (url.fragment ≡ none)
    × (any is_reserved url.query_pairs ≡ false)

find-any : {A : Type 0} (p : A → Bool) (xs : List A) → find p xs ≡ none → any p xs ≡ false
find-any p [] h = refl
find-any p (x ∷ xs) h = elim (Bool-cases (p x)) [
  | inl e ↦ ground arith
  | inr e ↦ ground (arith, find-any p xs)
]

reject_forbidden_url_parts-IsPlain :
    (url : Url) → reject_forbidden_url_parts url ≡ none → IsPlain url
unfolding reject_forbidden_url_parts is_some is_empty rejected_pair
reject_forbidden_url_parts-IsPlain url e = ground (arith, find-any is_reserved url.query_pairs)

endpoint_of-IsFor :
    (url : Url) (loopback : DevelopmentLoopback) (e : CorporateActionStreamEndpoint)
    → endpoint_of url loopback ≡ ok e
    → (e.url ≡ url) × IsFor loopback e.url e.transport
unfolding endpoint_of is_alpaca_host is_development_loopback_endpoint
endpoint_of-IsFor url loopback e h =
    let https = same_bytes-eq url.scheme (codes "https") in
    let http = same_bytes-eq url.scheme (codes "http") in
    elim (Option-cases url.host_str) [
      | inl n ↦ ground (arith, https, http)
      | inr (host, n) ↦ ground (arith, https, http, same_bytes-eq host alpaca_stream_host)
    ]

parse-IsFor :
    (url_parse : List ℕ → Option Url) (text : List ℕ) (loopback : DevelopmentLoopback)
    (e : CorporateActionStreamEndpoint)
    → parse url_parse text loopback ≡ ok e
    → (url_parse text ≡ some e.url) × IsPlain e.url × IsFor loopback e.url e.transport
unfolding parse
parse-IsFor url_parse text loopback e h = elim (Option-cases (url_parse text)) [
  | inl n ↦ ground arith
  | inr (url, n) ↦ elim (Option-cases (reject_forbidden_url_parts url)) [
    | inr (failure, r) ↦ ground arith
    | inl r ↦
        let found = endpoint_of-IsFor url loopback e (ground arith) in
        (
          n ∙ ap some (sym found.0),
          subst IsPlain (sym found.0) (reject_forbidden_url_parts-IsPlain url r),
          found.1,
        )
  ]
]

-- The value of a parameter in a query.
abbrev pub value_of : List ℕ → List (List ℕ × List ℕ) → Option (List ℕ)
value_of name pairs = elim (find (λ p. same_bytes p.0 name) pairs) [
  | none ↦ none
  | some (_, value) ↦ some value
]

-- The event, the start and the end that a replay names.
abbrev pub event_of : CorporateActionReplay → Option (List ℕ)
event_of (since_id cursor) = some cursor.value
event_of _ = none

abbrev pub start_of : (ℕ → List ℕ) → CorporateActionReplay → Option (List ℕ)
start_of to_rfc3339 (since from) = some (to_rfc3339 from.instant)
start_of to_rfc3339 (window from until) = some (to_rfc3339 from.instant)
start_of to_rfc3339 _ = none

abbrev pub end_of : (ℕ → List ℕ) → CorporateActionReplay → Option (List ℕ)
end_of to_rfc3339 (window from until) = some (to_rfc3339 until.instant)
end_of to_rfc3339 _ = none

-- The query names the event, the start and the end of the replay, each where the replay has one, and
-- nothing else.
abbrev pub Asks : (ℕ → List ℕ) → CorporateActionReplay → List (List ℕ × List ℕ) → Type 0
Asks to_rfc3339 replay query =
    (value_of (codes "since_id") query ≡ event_of replay)
    × (value_of (codes "since") query ≡ start_of to_rfc3339 replay)
    × (value_of (codes "until") query ≡ end_of to_rfc3339 replay)
    × (value_of (codes "until_id") query ≡ none)
    × All (λ p. is_reserved p ≡ true) query

query_pairs-Asks :
    (to_rfc3339 : ℕ → List ℕ) (replay : CorporateActionReplay)
    → Asks to_rfc3339 replay (query_pairs to_rfc3339 replay)
unfolding query_pairs is_reserved
query_pairs-Asks to_rfc3339 live = (refl, refl, refl, refl, tt)
query_pairs-Asks to_rfc3339 (since_id cursor) = (refl, refl, refl, refl, (refl, tt))
query_pairs-Asks to_rfc3339 (since from) = (refl, refl, refl, refl, (refl, tt))
query_pairs-Asks to_rfc3339 (window from until) = (refl, refl, refl, refl, (refl, (refl, tt)))

-- The request of a connection: to the URL that was parsed, which sets no replay position and is Alpaca's
-- stream over HTTPS if the request has credentials, and with the position that was asked for.
abbrev pub IsRequestFor :
    {H : Http} → (ℕ → List ℕ) → Option Url → CorporateActionReplay → Option (Outgoing H) → Type 0
IsRequestFor to_rfc3339 parsed replay none = Unit
IsRequestFor to_rfc3339 parsed replay (some request) =
    (parsed ≡ some request.url)
    × IsPlain request.url
    × ((request.has_credentials ≡ false)
        ⊎ ((request.url.scheme ≡ codes "https") × (request.url.host_str ≡ some alpaca_stream_host)))
    × Asks to_rfc3339 replay request.query

module _ (H : Http) (K : Codec) (content_type : Response H → Option (List ℕ))
    (to_rfc3339 : ℕ → List ℕ) where
  handed-IsRequestFor :
      (parsed : Option Url) (replay : CorporateActionReplay) (request : Outgoing H) (x : Exchange H)
      (m : Scope × Option (KmsJwtError H))
      → IsRequestFor to_rfc3339 parsed replay (some request)
      → IsRequestFor to_rfc3339 parsed replay (handed H K content_type to_rfc3339 request x m).2
  unfolding handed
  handed-IsRequestFor parsed replay request x (scope, some e) r = tt
  handed-IsRequestFor parsed replay request x (scope, none) r =
      elim (Bool-cases (send H scope x).1) [
        | inl s ↦ subst (IsRequestFor to_rfc3339 parsed replay) {x = some request} (ground arith) r
        | inr s ↦ subst (IsRequestFor to_rfc3339 parsed replay) {x = none} (ground arith) tt
      ]

  new-endpoint :
      (loopback : DevelopmentLoopback) (e : CorporateActionStreamEndpoint)
      (build : Option (KmsJwtError H)) (client : CorporateActionStreamClient H)
      → IsFor loopback e.url e.transport
      → new H e build ≡ ok client
      → (e.url ≡ client.endpoint.url)
        × ((client.authenticated ≡ false)
            ⊎ ((e.url.scheme ≡ codes "https") × (e.url.host_str ≡ some alpaca_stream_host)))
  unfolding new
  new-endpoint loopback e build client for n = ground arith

  outgoing-IsRequestFor :
      (loopback : DevelopmentLoopback) (e : CorporateActionStreamEndpoint)
      (build : Option (KmsJwtError H)) (client : CorporateActionStreamClient H)
      (replay : CorporateActionReplay) (parsed : Option Url)
      → (parsed ≡ some e.url) × IsPlain e.url × IsFor loopback e.url e.transport
      → new H e build ≡ ok client
      → IsRequestFor to_rfc3339 parsed replay
          (some (outgoing H K content_type to_rfc3339 client replay))
  unfolding outgoing
  outgoing-IsRequestFor loopback e build client replay parsed (same, plain, for) n =
      let (url, credentials) = new-endpoint loopback e build client for n in
      subst
        (λ u.
          (parsed ≡ some u)
          × IsPlain u
          × ((client.authenticated ≡ false)
              ⊎ ((u.scheme ≡ codes "https") × (u.host_str ≡ some alpaca_stream_host)))
          × Asks to_rfc3339 replay (query_pairs to_rfc3339 replay))
        url (same, plain, credentials, query_pairs-Asks to_rfc3339 replay)

  -- What leaves when a client of a validated URL opens the stream goes to the URL that the text was parsed
  -- to, which has no user or password, no fragment and no replay position of its own; it carries
  -- credentials only if the URL is HTTPS on Alpaca's stream host; and its query names the event, the start
  -- and the end of the replay that was asked for, each where it has one, and nothing else.
  pub connect_raw-IsRequestFor :
      (url_parse : List ℕ → Option Url) (text : List ℕ) (loopback : DevelopmentLoopback)
      (e : CorporateActionStreamEndpoint) (build : Option (KmsJwtError H))
      (client : CorporateActionStreamClient H) (replay : CorporateActionReplay) (scope : Scope)
      (x : Outgoing H → Exchange H)
      → parse url_parse text loopback ≡ ok e
      → new H e build ≡ ok client
      → IsRequestFor to_rfc3339
          (url_parse text)
          replay
          (connect_raw H K content_type to_rfc3339 client replay scope x).2
  unfolding connect_raw
  connect_raw-IsRequestFor url_parse text loopback e build client replay scope x p n =
      let request = outgoing H K content_type to_rfc3339 client replay in
      handed-IsRequestFor (url_parse text) replay request (x request)
        (minted H K content_type to_rfc3339 client (x request) scope)
        (outgoing-IsRequestFor loopback e build client replay (url_parse text)
          (parse-IsFor url_parse text loopback e p) n)

  abbrev pub IsOpenedBy :
      Result (Response H) H.Error → Result (Response H) (CorporateActionStreamError H) → Type 0
  IsOpenedBy answer (ok r) =
      (answer ≡ ok r)
      × (K.is_success r.status ≡ true)
      × (is_prefix (codes "text/event-stream")
            (type_of H K content_type to_rfc3339 (content_type r))
          ≡ true)
  IsOpenedBy (ok r) (err (http_status status)) = (status ≡ r.status) × (status ≢ 429)
  IsOpenedBy (ok r) (err (rate_limited hint)) = (r.status ≡ 429) × (hint ≡ r.retry_after)
  IsOpenedBy (err e) (err (http_status status)) = ⊥
  IsOpenedBy (err e) (err (rate_limited hint)) = ⊥
  IsOpenedBy answer (err _) = Unit

  -- A stream that opens is Alpaca's successful answer to the request, of the event stream type; a 429 is
  -- never taken for another failure, and keeps the wait that it asks for.
  pub connect_raw-IsOpenedBy :
      (client : CorporateActionStreamClient H) (replay : CorporateActionReplay) (scope : Scope)
      (x : Outgoing H → Exchange H)
      → IsOpenedBy
          (x (outgoing H K content_type to_rfc3339 client replay)).answer
          (connect_raw H K content_type to_rfc3339 client replay scope x).0
  unfolding connect_raw handed received opened from_send_error send
  connect_raw-IsOpenedBy client replay scope x = ground arith
