-- ===== src/Gateway/Run/Tests.antt =====
-- Examples for `run` of crates/gateway/src/state.rs: an order whose answer arrives in time, and one
-- that is still at work at its deadline.
use st0x_alpaca.Prelude.{◌≡◌, refl, inl, true, false, List, [], ◌∷◌, none, some, arith, ok}
use st0x_alpaca.Catalog.Operation.{orders_place_market}
use st0x_alpaca.Gateway.Audit.{answered, no_traffic}
use st0x_alpaca.Gateway.Run.{
  WorkResult, RunState, start, Move, tick, request, finish, report, take_result, give_up,
  close_receiver, try_receive, recorded, with_result, gate_closed, run, step, may_send,
}
use st0x_alpaca.Gateway.Run.Laws.{Records, run-Records, run_gate, run_answers, answer_of}

abbrev placed : WorkResult
placed = ok (record { body = 1 ∷ []; alpaca_object_ids = (2 ∷ []) ∷ [] })

abbrev in_time : List Move
in_time = request ∷ finish placed no_traffic ∷ take_result ∷ report ∷ []

abbrev in_time_end : RunState
in_time_end = record {
  now = 5;
  deadline = 30;
  operation = orders_place_market;
  shutting_down = false;
  closed = true;
  receiving = false;
  channel = none;
  worker = recorded answered placed;
  handler = with_result placed;
  requests = 5 ∷ [];
  log = record { phase = answered; traffic = no_traffic; result = placed } ∷ [];
}

run-Records_example : Records (with_result placed) placed in_time_end.log
unfolding run step start
run-Records_example =
    run-Records orders_place_market 5 30 in_time in_time_end answered placed refl refl

abbrev late : List Move
late = request ∷ tick 30 ∷ give_up ∷ []

abbrev late_end : RunState
late_end = record (start orders_place_market 5 30) {
  now = 35;
  closed = true;
  handler = gate_closed;
  requests = 5 ∷ [];
}

abbrev later_end : RunState
later_end = record (start orders_place_market 5 30) {
  now = 36;
  closed = true;
  handler = gate_closed;
  requests = 5 ∷ [];
}

run_gate_example : later_end.requests ≡ late_end.requests
unfolding run step start
run_gate_example =
    run_gate orders_place_market 5 30 late (tick 1 ∷ []) late_end later_end refl (ground arith) refl

abbrev overdue : RunState
overdue = record (start orders_place_market 5 30) { now = 31 }

run_answers_example :
    (s' : RunState) × (run (give_up ∷ close_receiver ∷ try_receive ∷ []) overdue ≡ some s')
    × (s'.handler ≡ answer_of orders_place_market none)
    × (may_send s' ≡ false)
unfolding start
run_answers_example = run_answers overdue refl (inl (omega arith))
