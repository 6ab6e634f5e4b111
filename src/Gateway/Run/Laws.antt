-- ===== src/Gateway/Run/Laws.antt =====
-- What any schedule of the two tasks of `run` in crates/gateway/src/state.rs writes, sends and
-- answers.
use st0x_alpaca.Prelude.{
  ℕ, ◌≤◌, ◌≡◌, refl, ◌∙◌, ◌⊎◌, ◌≢◌, inl, inr, true, false, List, [], ◌∷◌, Option, none, some, arith,
  err, Option-cases, if◌then◌else◌, not,
}
use st0x_alpaca.Catalog.Operation.{Operation, mutates, resendable_with_same_key}
use st0x_alpaca.Gateway.Failure.{for_mutation, unknown}
use st0x_alpaca.Gateway.Audit.{AuditPhase, answered, Traffic, no_traffic}
use st0x_alpaca.Gateway.Run.{
  WorkResult, Entry, recorded, Handler, waiting, gone, with_result, without, RunState, start, Move,
  tick, finish, report, give_up, close_receiver, try_receive, caller_leaves, drop_receiver, step,
  run, may_send, finalized, without_result,
}
use st0x_alpaca.Gateway.Run.Invariant.{
  IsCoherent, start-IsCoherent, step-IsCoherent, answered_results, settled_results,
}

run-IsCoherent :
    (moves : List Move) (s : RunState) {s' : RunState}
    → IsCoherent s
    → run moves s ≡ some s'
    → IsCoherent s'
unfolding run
run-IsCoherent [] s v e = ground arith
run-IsCoherent (m ∷ moves) s {s'} v e = elim (Option-cases (step m s)) [
  | inl stuck ↦ absurd (ground arith)
  | inr (t, went) ↦ run-IsCoherent moves t (step-IsCoherent m s v went) (ground arith)
]

-- The records that a call with the work's `result` has left, by what became of its handler.
abbrev pub Records : Handler → WorkResult → List Entry → Type 0
Records (with_result answer) result log =
    (answer ≡ result) × (answered_results log ≡ answer ∷ []) × (settled_results log ≡ [])
Records (without failure) result log =
    (answered_results log ≡ err failure ∷ []) × (settled_results log ≡ result ∷ [])
Records gone result log =
    ((answered_results log ≡ result ∷ []) × (settled_results log ≡ []))
    ⊎ ((answered_results log ≡ []) × (settled_results log ≡ result ∷ []))
Records _ result log = Unit {0}

Records-IsCoherent :
    (s : RunState) (phase : AuditPhase) (result : WorkResult)
    → IsCoherent s
    → s.worker ≡ recorded phase result
    → Records s.handler result s.log
Records-IsCoherent s phase result v e = ground arith

-- Once the work has written its record, under any schedule: a call answered with a result has one
-- `answered` record, with that answer, and no `settled` one; a call answered without the result
-- has one `answered` record, with its failure, and one `settled` record, with the result; a call
-- whose caller went away has one record, with the result.
pub run-Records :
    (o : Operation) (now deadline : ℕ) (moves : List Move) (s : RunState) (phase : AuditPhase)
    (result : WorkResult)
    → run moves (start o now deadline) ≡ some s
    → s.worker ≡ recorded phase result
    → Records s.handler result s.log
run-Records o now deadline moves s phase result e w =
    Records-IsCoherent s phase result
      (run-IsCoherent moves (start o now deadline) (start-IsCoherent o now deadline) e) w

may_send-step :
    (m : Move) (s : RunState) {s' : RunState}
    → may_send s ≡ false
    → step m s ≡ some s'
    → (may_send s' ≡ false) × (s'.requests ≡ s.requests)
unfolding step may_send
may_send-step (tick d) s h e = (ground arith, ground arith)
may_send-step m s h e = (ground arith, ground arith)

-- A gate that is shut stays shut: from a state where no request may leave, none leaves under any
-- schedule.
run_sends_nothing :
    (moves : List Move) (s : RunState) {s' : RunState}
    → may_send s ≡ false
    → run moves s ≡ some s'
    → s'.requests ≡ s.requests
unfolding run
run_sends_nothing [] s h e = ground arith
run_sends_nothing (m ∷ moves) s {s'} h e = elim (Option-cases (step m s)) [
  | inl stuck ↦ absurd (ground arith)
  | inr (t, went) ↦
      let (shut, same) = may_send-step m s h went in
      run_sends_nothing moves t {s' = s'} shut (ground arith) ∙ same
]

closed_sends_nothing : (s : RunState) → s.closed ≡ true → may_send s ≡ false
unfolding may_send
closed_sends_nothing s h = ground arith

-- No request leaves once the handler stopped waiting: whatever happens after it took the result,
-- reached the deadline or shutdown, or lost its caller, the requests are those sent before.
pub run_gate :
    (o : Operation) (now deadline : ℕ) (before after : List Move) (s s' : RunState)
    → run before (start o now deadline) ≡ some s
    → s.handler ≢ waiting
    → run after s ≡ some s'
    → s'.requests ≡ s.requests
run_gate o now deadline before after s s' e h e' =
    run_sends_nothing after s
      (closed_sends_nothing s
        (closed (run-IsCoherent before (start o now deadline) (start-IsCoherent o now deadline) e)))
      e'
  where
    closed : IsCoherent s → s.closed ≡ true
    closed v = ground arith

-- The answer that the handler gives at the deadline or at shutdown.
abbrev pub answer_of : Operation → Option WorkResult → Handler
answer_of o none = without (for_mutation (without_result o) o)
answer_of o (some result) = with_result result

-- A handler that still waits at its deadline or at shutdown answers by three moves of its own,
-- wherever the work stands: with a result that was already sent, else without one. From then on no
-- request may leave.
pub run_answers :
    (s : RunState)
    → s.handler ≡ waiting
    → (s.deadline ≤ s.now) ⊎ (s.shutting_down ≡ true)
    → (s' : RunState) × (run (give_up ∷ close_receiver ∷ try_receive ∷ []) s ≡ some s')
      × (s'.handler ≡ answer_of s.operation s.channel)
      × (may_send s' ≡ false)
unfolding run step may_send
run_answers s w d = elim (Option-cases s.channel) [
  | inl empty ↦ (
    record s {
      closed = true;
      receiving = false;
      handler = answer_of s.operation none;
      log =
          record {
            phase = answered;
            traffic = no_traffic;
            result = err (for_mutation (without_result s.operation) s.operation);
          }
          ∷ s.log;
    },
    ground arith,
    ground arith,
    refl,
  )
  | inr (result, sent) ↦ (
    record s { closed = true; receiving = false; channel = none; handler = with_result result },
    ground arith,
    ground arith,
    refl,
  )
]

-- An answer without the result tells a mutation's caller that the outcome is unknown, that the
-- same request is not to be sent again as a new one, and whether a resend under the same key is
-- deduped; it tells a read's caller to try again, and claims no outcome.
pub without_result_answer :
    (o : Operation)
    → let f = for_mutation (without_result o) o in
      (f.outcome ≡ (if mutates o then some unknown else none))
      × (f.retryable_with_same_key ≡ resendable_with_same_key o)
      × (f.retryable ≡ not (mutates o))
unfolding without_result for_mutation resendable_with_same_key mutates
without_result_answer o = (ground arith, ground arith, ground arith)

-- A result sent just before its caller goes away is recorded as `answered`, though nobody takes it.
pub answered_though_gone :
    (o : Operation) (now deadline : ℕ) (result : WorkResult) (traffic : Traffic)
    → (s : RunState) × (run
          (finish result traffic ∷ caller_leaves ∷ drop_receiver ∷ report ∷ [])
          (start o now deadline)
        ≡ some s)
      × (s.handler ≡ gone)
      × (answered_results s.log ≡ finalized o result ∷ [])
unfolding run step start
answered_though_gone o now deadline result traffic = (
  record (start o now deadline) {
    closed = true;
    receiving = false;
    worker = recorded answered (finalized o result);
    handler = gone;
    log = record { phase = answered; traffic = traffic; result = finalized o result } ∷ [];
  },
  refl,
  refl,
  refl,
)
