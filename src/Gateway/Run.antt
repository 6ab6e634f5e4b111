-- ===== src/Gateway/Run.antt =====
-- crates/gateway/src/state.rs: `run`, one admitted call as two tasks that interleave, the detached
-- work and the handler that waits for it, under the send gate of src/request_id.rs. A move is one
-- step of a task, of the clock, or of the outside world; `step` is `none` where a move is not
-- possible. What the work did is the outcome that its `finish` move carries.
--
-- The one-shot channel behaves as documented: a send fails once the receiver is closed or dropped,
-- and a value sent before that can still be received after a close.
pub mod Invariant
pub mod Laws
mod Tests
use st0x_alpaca.Prelude.{
  ℕ, ◌+◌, Bool, true, false, not, ◌&&◌, ◌||◌, List, [], ◌∷◌, Option, none, some, if◌then◌else◌, leb,
  ltb, Result, ok, err,
}
use st0x_alpaca.Catalog.Operation.{Operation, mutates}
use st0x_alpaca.Gateway.Failure.{Failure, new, for_mutation, outcome_unknown, upstream_transient}
use st0x_alpaca.Gateway.Audit.{AuditPhase, answered, settled, Traffic, no_traffic}

-- A finished call: the answer body and the Alpaca objects that it names.
pub record Done : Type 0 where
  pub body : List ℕ
  pub alpaca_object_ids : List (List ℕ)

abbrev pub WorkResult : Type 0
WorkResult = Result Done Failure

-- The part of an audit record that the two tasks decide; `event` fills in the rest.
pub record Entry : Type 0 where
  pub phase : AuditPhase
  pub traffic : Traffic
  pub result : WorkResult

-- The detached task: at work, after its send, and after it wrote its record.
pub data Worker : Type 0 where
  working : Worker
  reporting : AuditPhase → WorkResult → Traffic → Worker
  recorded : AuditPhase → WorkResult → Worker

-- The handler: waiting in `select!`, the gate closed, the receiver closed, answered with the work's
-- result, answered without it, and dropped because its caller went away.
pub data Handler : Type 0 where
  waiting gate_closed receiver_closed dropped gone : Handler
  with_result : WorkResult → Handler
  without : Failure → Handler

pub record RunState : Type 0 where
  pub now : ℕ
  pub deadline : ℕ
  pub operation : Operation
  pub shutting_down : Bool
  pub closed : Bool
  pub receiving : Bool
  pub channel : Option WorkResult
  pub worker : Worker
  pub handler : Handler
  pub requests : List ℕ
  pub log : List Entry

pub start : Operation → ℕ → ℕ → RunState
start operation now deadline = record {
  now = now;
  deadline = deadline;
  operation = operation;
  shutting_down = false;
  closed = false;
  receiving = true;
  channel = none;
  worker = working;
  handler = waiting;
  requests = [];
  log = [];
}

pub data Move : Type 0 where
  tick : ℕ → Move
  shut_down request report take_result give_up close_receiver try_receive caller_leaves
        drop_receiver :
      Move
  finish : WorkResult → Traffic → Move

-- `SendGate::hold`: neither closed nor past the condition that the gate was made with.
unfoldable pub may_send : RunState → Bool
may_send s = not s.closed && (not s.shutting_down && ltb s.now s.deadline)

-- `result.map_err(|failure| failure.for_mutation(operation))`.
unfoldable pub finalized : Operation → WorkResult → WorkResult
finalized operation (ok done) = ok done
finalized operation (err failure) = err (for_mutation failure operation)

unfoldable pub without_result : Operation → Failure
unfolding new
without_result operation = if mutates operation then new outcome_unknown else new upstream_transient

-- `sender.send(result)`: the phase of the record follows from whether the channel took it.
deliver : RunState → WorkResult → Traffic → RunState
deliver s result traffic =
    if s.receiving
    then record s { channel = some result; worker = reporting answered result traffic }
    else record s { worker = reporting settled result traffic }

-- The handler returns the result that it received; its guard closes the gate.
take_from : RunState → Option WorkResult → Option RunState
take_from s none = none
take_from s (some result) =
    some
      (record s { closed = true; receiving = false; channel = none; handler = with_result result })

-- `refuse`: the failure that is the answer, and its answered record without traffic.
refuse : RunState → RunState
unfolding without_result
refuse s =
    let failure = for_mutation (without_result s.operation) s.operation in
    record s {
      handler = without failure;
      log = record { phase = answered; traffic = no_traffic; result = err failure } ∷ s.log;
    }

try_receive_from : RunState → Option WorkResult → RunState
unfolding refuse
try_receive_from s none = refuse s
try_receive_from s (some result) = record s { channel = none; handler = with_result result }

-- The move, where it is possible: by the task that makes it.
moved : Move → Worker → Handler → RunState → Option RunState
unfolding may_send finalized deliver take_from try_receive_from
moved (tick d) w h s = some (record s { now = s.now + d })
moved shut_down w h s = some (record s { shutting_down = true })
moved request working h s =
    if may_send s then some (record s { requests = s.now ∷ s.requests }) else none
moved (finish result traffic) working h s = some (deliver s (finalized s.operation result) traffic)
moved report (reporting phase result traffic) h s = some (record s {
  worker = recorded phase result;
  log = record { phase = phase; traffic = traffic; result = result } ∷ s.log;
})
moved take_result w waiting s = take_from s s.channel
moved give_up w waiting s =
    if leb s.deadline s.now || s.shutting_down
    then some (record s { closed = true; handler = gate_closed })
    else none
moved close_receiver w gate_closed s =
    some (record s { receiving = false; handler = receiver_closed })
moved try_receive w receiver_closed s = some (try_receive_from s s.channel)
moved caller_leaves w waiting s = some (record s { closed = true; handler = dropped })
moved drop_receiver w dropped s =
    some (record s { receiving = false; channel = none; handler = gone })
moved _ w h s = none

pub step : Move → RunState → Option RunState
unfolding moved
step m s = moved m s.worker s.handler s

-- A schedule of moves.
pub run : List Move → RunState → Option RunState
run [] s = some s
run (m ∷ moves) s = elim (step m s) [ none ↦ none | some s' ↦ run moves s' ]
