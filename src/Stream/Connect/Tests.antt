-- ===== src/Stream/Connect/Tests.antt =====
-- Examples for connections: Alpaca's stream URL, and an answer that opens the stream.
use st0x_alpaca.Prelude.{ℕ, refl, true, List, [], ◌∷◌, Option, none, some, codes}
use st0x_alpaca.Errors.Sample.{http}
use st0x_alpaca.Transport.{Response, Exchange}
use st0x_alpaca.Transport.Sample.{codec, scope, answering}
use st0x_alpaca.Stream.Endpoint.{
  Url, domain, deny, CorporateActionStreamEndpoint, authenticated_alpaca, parse,
  reject_forbidden_url_parts, is_some, is_empty, rejected_pair, is_reserved, endpoint_of,
  is_development_loopback_endpoint, is_alpaca_host, CorporateActionReplay, since_id,
}
use st0x_alpaca.Stream.Connect.{CorporateActionStreamClient, new, Outgoing, connect_raw}
use st0x_alpaca.Stream.Connect.Laws.{IsRequestFor, connect_raw-IsRequestFor}

abbrev url : Url
url = record {
  scheme = codes "https";
  username = [];
  password = none;
  host = some (domain (codes "stream.data.alpaca.markets"));
  host_str = some (codes "stream.data.alpaca.markets");
  fragment = none;
  query_pairs = (codes "region", codes "us") ∷ [];
}

abbrev url_parse : List ℕ → Option Url
url_parse text = some url

abbrev endpoint : CorporateActionStreamEndpoint
endpoint = record { url = url; transport = authenticated_alpaca }

abbrev client : CorporateActionStreamClient http
client = record { endpoint = endpoint; authenticated = true }

abbrev resumed : CorporateActionReplay
resumed = since_id (record { value = codes "01ARZ3NDEKTSV4RRFFQ69G5FAV" })

abbrev content_type : Response http → Option (List ℕ)
content_type r = some (codes "text/event-stream")

abbrev to_rfc3339 : ℕ → List ℕ
to_rfc3339 instant = instant ∷ []

abbrev exchange : Outgoing http → Exchange http
exchange request = answering 200

connect_raw-IsRequestFor_example :
    IsRequestFor to_rfc3339
      (url_parse (codes "https"))
      resumed
      (connect_raw http codec content_type to_rfc3339 client resumed scope exchange).2
unfolding parse reject_forbidden_url_parts is_some is_empty rejected_pair is_reserved endpoint_of
    is_development_loopback_endpoint is_alpaca_host new
connect_raw-IsRequestFor_example =
    connect_raw-IsRequestFor http codec content_type to_rfc3339 url_parse (codes "https") deny
      endpoint none client resumed scope exchange refl refl
