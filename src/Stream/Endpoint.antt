-- ===== src/Stream/Endpoint.antt =====
-- src/corporate_actions/endpoint.rs and replay.rs: the validation of a stream's URL, and the position
-- that a connection starts at.
--
-- A URL is what the URL crate reads of it, its parse an argument. An instant is a number, and
-- `to_rfc3339` writes it.
use st0x_alpaca.Prelude.{
  ℕ, ◌&&◌, ◌||◌, not, Bool, true, false, List, [], ◌∷◌, any, find, Option, none, some, ltb,
  if◌then◌else◌, codes, same_bytes, Result, ok, err,
}
use st0x_alpaca.Stream.Event.{CorporateActionEventId}

pub data Host : Type 0 where
  domain : List ℕ → Host
  ipv4 ipv6 : Bool → Host

-- An address of a host is kept as whether it is a loopback address.
pub record Url : Type 0 where
  pub scheme : List ℕ
  pub username : List ℕ
  pub password : Option (List ℕ)
  pub host : Option Host
  pub host_str : Option (List ℕ)
  pub fragment : Option (List ℕ)
  pub query_pairs : List (List ℕ × List ℕ)

pub data DevelopmentLoopback : Type 0 where
  allow deny : DevelopmentLoopback

pub data CorporateActionStreamTransport : Type 0 where
  authenticated_alpaca credential_free_development : CorporateActionStreamTransport

pub record CorporateActionStreamEndpoint : Type 0 where
  pub url : Url
  pub transport : CorporateActionStreamTransport

pub data CorporateActionEndpointError : Type 0 where
  invalid_endpoint insecure_endpoint_scheme unexpected_endpoint_host : CorporateActionEndpointError
  reserved_replay_query_parameter : List ℕ → CorporateActionEndpointError
  embedded_credentials has_fragment : CorporateActionEndpointError

abbrev pub alpaca_stream_host : List ℕ
alpaca_stream_host = codes "stream.data.alpaca.markets"

abbrev pub reserved_replay_query_parameters : List (List ℕ)
reserved_replay_query_parameters =
    codes "since" ∷ codes "since_id" ∷ codes "until" ∷ codes "until_id" ∷ []

unfoldable pub is_reserved : List ℕ × List ℕ → Bool
is_reserved (parameter, _) = any (same_bytes parameter) reserved_replay_query_parameters

unfoldable pub is_some : Option (List ℕ) → Bool
is_some none = false
is_some (some _) = true

unfoldable pub is_empty : List ℕ → Bool
is_empty [] = true
is_empty (_ ∷ _) = false

unfoldable pub rejected_pair : Option (List ℕ × List ℕ) → Option CorporateActionEndpointError
rejected_pair none = none
rejected_pair (some (parameter, _)) = some (reserved_replay_query_parameter parameter)

-- The error, if there is one.
unfoldable pub reject_forbidden_url_parts : Url → Option CorporateActionEndpointError
unfolding is_some is_empty rejected_pair is_reserved
reject_forbidden_url_parts url =
    if not (is_empty url.username) || is_some url.password
    then some embedded_credentials
    else if is_some url.fragment
    then some has_fragment
    else rejected_pair (find is_reserved url.query_pairs)

is_loopback : Option Host → Bool
is_loopback (some (ipv4 loopback)) = loopback
is_loopback (some (ipv6 loopback)) = loopback
is_loopback _ = false

unfoldable pub is_development_loopback_endpoint : Url → DevelopmentLoopback → Bool
unfolding is_loopback
is_development_loopback_endpoint url deny = false
is_development_loopback_endpoint url allow =
    same_bytes url.scheme (codes "http") && is_loopback url.host

unfoldable pub is_alpaca_host : Option (List ℕ) → Bool
is_alpaca_host none = false
is_alpaca_host (some host) = same_bytes host alpaca_stream_host

unfoldable pub endpoint_of :
    Url → DevelopmentLoopback → Result CorporateActionStreamEndpoint CorporateActionEndpointError
unfolding is_development_loopback_endpoint is_alpaca_host
endpoint_of url development_loopback =
    if is_development_loopback_endpoint url development_loopback
    then ok (record { url = url; transport = credential_free_development })
    else if not (same_bytes url.scheme (codes "https"))
    then err insecure_endpoint_scheme
    else if not (is_alpaca_host url.host_str)
    then err unexpected_endpoint_host
    else ok (record { url = url; transport = authenticated_alpaca })

unfoldable pub parse :
    (List ℕ → Option Url)
    → List ℕ
    → DevelopmentLoopback
    → Result CorporateActionStreamEndpoint CorporateActionEndpointError
unfolding reject_forbidden_url_parts endpoint_of
parse url_parse endpoint development_loopback = elim (url_parse endpoint) [
  | none ↦ err invalid_endpoint
  | some url ↦ elim (reject_forbidden_url_parts url) [
    | some e ↦ err e
    | none ↦ endpoint_of url development_loopback
  ]
]

-- An instant that is not in the future.
pub record CorporateActionBootstrapSince : Type 0 where
  pub instant : ℕ

pub data CorporateActionBootstrapSinceError : Type 0 where
  unparsed : CorporateActionBootstrapSinceError
  future : ℕ → CorporateActionBootstrapSinceError

unfoldable pub try_from_instant :
    ℕ → ℕ → Result CorporateActionBootstrapSince CorporateActionBootstrapSinceError
try_from_instant now instant =
    if ltb now instant then err (future instant) else ok (record { instant = instant })

-- The parse of a time is an argument.
unfoldable pub from_str :
    (List ℕ → Option ℕ)
    → ℕ
    → List ℕ
    → Result CorporateActionBootstrapSince CorporateActionBootstrapSinceError
unfolding try_from_instant
from_str parse_from_rfc3339 now value = elim (parse_from_rfc3339 value) [
  | none ↦ err unparsed
  | some instant ↦ try_from_instant now instant
]

pub record CorporateActionReplayUntil : Type 0 where
  pub instant : ℕ

pub data CorporateActionReplay : Type 0 where
  live : CorporateActionReplay
  since_id : CorporateActionEventId → CorporateActionReplay
  since : CorporateActionBootstrapSince → CorporateActionReplay
  window : CorporateActionBootstrapSince → CorporateActionReplayUntil → CorporateActionReplay

unfoldable pub query_pairs : (ℕ → List ℕ) → CorporateActionReplay → List (List ℕ × List ℕ)
query_pairs to_rfc3339 live = []
query_pairs to_rfc3339 (since_id cursor) = (codes "since_id", cursor.value) ∷ []
query_pairs to_rfc3339 (since from) = (codes "since", to_rfc3339 from.instant) ∷ []
query_pairs to_rfc3339 (window from until) =
    (codes "since", to_rfc3339 from.instant) ∷ (codes "until", to_rfc3339 until.instant) ∷ []
