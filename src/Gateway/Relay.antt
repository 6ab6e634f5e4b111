-- ===== src/Gateway/Relay.antt =====
-- crates/gateway/src/state.rs: `relay`, an admitted read whose answer is opened by a tracked task. It
-- interleaves as `run` does, but it has no deadline and no send gate, and only shutdown ends the wait
-- of its handler early. The response is the body that the call is done with, without object ids.
pub mod Laws
mod Tests
use st0x_alpaca.Prelude.{
  ℕ, Bool, true, false, List, [], ◌∷◌, Option, none, some, if◌then◌else◌, Result, ok, err,
}
use st0x_alpaca.Catalog.Operation.{Operation}
use st0x_alpaca.Gateway.Failure.{new, for_mutation, unavailable, Failure}
use st0x_alpaca.Gateway.Audit.{answered, settled, Traffic, no_traffic}
use st0x_alpaca.Gateway.Run.{
  WorkResult, Entry, Worker, working, reporting, recorded, Handler, waiting, receiver_closed,
  dropped, gone, with_result, without,
}

pub record RelayState : Type 0 where
  pub operation : Operation
  pub shutting_down : Bool
  pub receiving : Bool
  pub channel : Option WorkResult
  pub worker : Worker
  pub handler : Handler
  pub log : List Entry

pub start : Operation → RelayState
start operation = record {
  operation = operation;
  shutting_down = false;
  receiving = true;
  channel = none;
  worker = working;
  handler = waiting;
  log = [];
}

pub data Move : Type 0 where
  shut_down report take_result give_up try_receive caller_leaves drop_receiver : Move
  finish : Result (List ℕ) Failure → Traffic → Move

opened : Result (List ℕ) Failure → WorkResult
opened (ok response) = ok (record { body = response; alpaca_object_ids = [] })
opened (err failure) = err failure

-- `sender.send(result)` and the phase of the record.
deliver : RelayState → WorkResult → Traffic → RelayState
deliver s result traffic =
    if s.receiving
    then record s { channel = some result; worker = reporting answered result traffic }
    else record s { worker = reporting settled result traffic }

take_from : RelayState → Option WorkResult → Option RelayState
take_from s none = none
take_from s (some result) =
    some (record s { receiving = false; channel = none; handler = with_result result })

-- The answer to a call that shutdown ended: `refuse` with `unavailable`.
shutdown_answer : Operation → Failure
unfolding new for_mutation
shutdown_answer operation = for_mutation (new unavailable) operation

-- `receiver.try_recv()` after the close.
try_receive_from : RelayState → Option WorkResult → RelayState
unfolding shutdown_answer
try_receive_from s none = record s {
  handler = without (shutdown_answer s.operation);
  log =
      record { phase = answered; traffic = no_traffic; result = err (shutdown_answer s.operation) }
      ∷ s.log;
}
try_receive_from s (some result) = record s { channel = none; handler = with_result result }

moved : Move → Worker → Handler → RelayState → Option RelayState
unfolding opened deliver take_from try_receive_from
moved shut_down w h s = some (record s { shutting_down = true })
moved (finish result traffic) working h s = some (deliver s (opened result) traffic)
moved report (reporting phase result traffic) h s = some (record s {
  worker = recorded phase result;
  log = record { phase = phase; traffic = traffic; result = result } ∷ s.log;
})
moved take_result w waiting s = take_from s s.channel
moved give_up w waiting s =
    if s.shutting_down
    then some (record s { receiving = false; handler = receiver_closed })
    else none
moved try_receive w receiver_closed s = some (try_receive_from s s.channel)
moved caller_leaves w waiting s = some (record s { handler = dropped })
moved drop_receiver w dropped s =
    some (record s { receiving = false; channel = none; handler = gone })
moved _ w h s = none

pub step : Move → RelayState → Option RelayState
unfolding moved
step m s = moved m s.worker s.handler s

pub run : List Move → RelayState → Option RelayState
run [] s = some s
run (m ∷ moves) s = elim (step m s) [ none ↦ none | some s' ↦ run moves s' ]
