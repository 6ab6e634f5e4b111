-- ===== src/Gateway/Relay/Laws.antt =====
-- What any schedule of `relay` in crates/gateway/src/state.rs writes.
use st0x_alpaca.Prelude.{◌≡◌, refl, inl, inr, List, [], ◌∷◌, some, arith, Option-cases}
use st0x_alpaca.Catalog.Operation.{Operation}
use st0x_alpaca.Gateway.Audit.{AuditPhase}
use st0x_alpaca.Gateway.Run.{WorkResult, recorded}
use st0x_alpaca.Gateway.Run.Invariant.{
  answered_results, settled_results, answered_so_far, settled_so_far, listens, Agrees,
}
use st0x_alpaca.Gateway.Run.Laws.{Records}
use st0x_alpaca.Gateway.Relay.{RelayState, start, Move, step, run}

record IsCoherent (s : RelayState) : Type 0 where
  listening : s.receiving ≡ listens s.handler
  agreed : Agrees s.worker s.handler s.channel
  answers : answered_results s.log ≡ answered_so_far s.worker s.handler
  settlements : settled_results s.log ≡ settled_so_far s.worker

step-IsCoherent :
    (m : Move) (s : RelayState) {s' : RelayState}
    → IsCoherent s
    → step m s ≡ some s'
    → IsCoherent s'
unfolding step
step-IsCoherent m s v e = ground arith

run-IsCoherent :
    (moves : List Move) (s : RelayState) {s' : RelayState}
    → IsCoherent s
    → run moves s ≡ some s'
    → IsCoherent s'
unfolding run
run-IsCoherent [] s v e = ground arith
run-IsCoherent (m ∷ moves) s {s'} v e = elim (Option-cases (step m s)) [
  | inl stuck ↦ absurd (ground arith)
  | inr (t, went) ↦ run-IsCoherent moves t (step-IsCoherent m s v went) (ground arith)
]

start-IsCoherent : (o : Operation) → IsCoherent (start o)
unfolding start
start-IsCoherent o = record { listening = refl; agreed = refl; answers = refl; settlements = refl }

coherent-Records :
    (s : RelayState) (phase : AuditPhase) (result : WorkResult)
    → IsCoherent s
    → s.worker ≡ recorded phase result
    → Records s.handler result s.log
coherent-Records s phase result v e = ground arith

-- Once the task of a relayed call has written its record, under any schedule: a call answered with
-- the response has one `answered` record, with it, and no `settled` one; a call that shutdown answered
-- has one `answered` record, with that failure, and one `settled` record, with the response; a call
-- whose caller went away has one record, with the response.
pub relay-Records :
    (o : Operation) (moves : List Move) (s : RelayState) (phase : AuditPhase) (result : WorkResult)
    → run moves (start o) ≡ some s
    → s.worker ≡ recorded phase result
    → Records s.handler result s.log
relay-Records o moves s phase result e w =
    coherent-Records s phase result (run-IsCoherent moves (start o) (start-IsCoherent o) e) w
