-- ===== src/Gateway/Relay/Tests.antt =====
-- An example for `relay` of crates/gateway/src/state.rs: a stream that opens after shutdown answered.
use st0x_alpaca.Prelude.{true, false, List, [], ◌∷◌, none, ok, err}
use st0x_alpaca.Catalog.Operation.{corporate_actions_stream}
use st0x_alpaca.Gateway.Failure.{new, unavailable}
use st0x_alpaca.Gateway.Audit.{answered, settled, no_traffic}
use st0x_alpaca.Gateway.Run.{WorkResult, recorded, without}
use st0x_alpaca.Gateway.Relay.{RelayState, Move, shut_down, give_up, try_receive, finish, report}

abbrev stream : WorkResult
stream = ok (record { body = 1 ∷ []; alpaca_object_ids = [] })

abbrev opened_late : List Move
opened_late = shut_down ∷ give_up ∷ try_receive ∷ finish (ok (1 ∷ [])) no_traffic ∷ report ∷ []

abbrev opened_late_end : RelayState
opened_late_end = record {
  operation = corporate_actions_stream;
  shutting_down = true;
  receiving = false;
  channel = none;
  worker = recorded settled stream;
  handler = without (new unavailable);
  log =
      record { phase = settled; traffic = no_traffic; result = stream }
      ∷ record { phase = answered; traffic = no_traffic; result = err (new unavailable) }
      ∷ [];
}
