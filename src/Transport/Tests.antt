-- ===== src/Transport/Tests.antt =====
-- Examples for requests: answers of several kinds, a failed connection, and a closed gate.
use st0x_alpaca.Prelude.{ℕ, ◌≡◌, ◌↔◌, true, List, Option, none, some, ok}
use st0x_alpaca.Errors.Sample.{http}
use st0x_alpaca.Transport.{Scope}
use st0x_alpaca.Transport.Sample.{codec, scope, answering}
use st0x_alpaca.Transport.Broker.{get_order_by_client_order_id}
use st0x_alpaca.Transport.Laws.{IsAnswer, answer_of, get_order_by_client_order_id_iff}

abbrev decode : List ℕ → Option (List ℕ)
decode bytes = some bytes

get_order_by_client_order_id_iff_example :
    ((get_order_by_client_order_id http codec decode scope (answering 404)).0 ≡ ok none)
    ↔ IsAnswer http codec 404 (answer_of http codec scope (answering 404))
get_order_by_client_order_id_iff_example =
    get_order_by_client_order_id_iff http codec decode scope (answering 404)

abbrev shut : Scope
shut = record scope { gate = some (record { closed = true }) }
