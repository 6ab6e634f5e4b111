-- ===== src/Client/Laws.antt =====
-- What a bot behind the gateway is told of a failed placement: the answers of
-- crates/gateway/src/answer.rs read by crates/gateway-api/src/client/adapter.rs.
use st0x_alpaca.Prelude.{
  ℕ, ◌≡◌, ◌↔◌, ◌≢◌, subst, sym, Bool-cases, inl, inr, true, false, List, arith,
}
use st0x_alpaca.Catalog.Operation.{Operation, mutates, resendable_with_same_key}
use st0x_alpaca.Errors.Http.{Http}
use st0x_alpaca.Errors.Broker.{AlpacaBrokerApiError, PlacementError}
use st0x_alpaca.Errors.Broker
use st0x_alpaca.Gateway.Failure.{Failure, body, for_mutation, outcome_unknown}
use st0x_alpaca.Gateway.Answer.{read}
use st0x_alpaca.Gateway.Answer.Broker.{broker, placement}
use st0x_alpaca.Client.{gateway}
use st0x_alpaca.Client.Family.{placement_hop}
use st0x_alpaca.Client.Adapter.{broker_error}

-- A failure with an unknown outcome.
abbrev pub IsUnknown : {H : Http} → AlpacaBrokerApiError H → Type 0
IsUnknown (Broker.gateway hop) = hop.outcome_unknown ≡ true
IsUnknown _ = ⊥

-- A failure that tells its caller to reconcile: the outcome is unknown, a new call is not to be tried,
-- and whether a resend under the same key is safe is what the catalog says.
abbrev pub SaysUnknown : {H : Http} → Operation → AlpacaBrokerApiError H → Type 0
SaysUnknown o (Broker.gateway hop) =
    (hop.outcome_unknown ≡ true)
    × (hop.retryable ≡ false)
    × (hop.retryable_with_same_key ≡ resendable_with_same_key o)
SaysUnknown o _ = ⊥

module _ (H : Http) where
  -- A read leaves no outcome unknown.
  broker_read-known : (e : AlpacaBrokerApiError H) → (broker H e read).code ≢ outcome_unknown
  unfolding broker
  broker_read-known e = ground arith

  known_hop :
      (f : Failure) (o : Operation) (message : List ℕ)
      → mutates o ≡ true
      → f.code ≢ outcome_unknown
      → ¬ IsUnknown (broker_error {H = H} o (gateway (body (for_mutation f o) message)))
  unfolding for_mutation body broker_error
  known_hop f o message m k = ground arith

  -- A failed order placement over the gateway reads as one of unknown outcome exactly when the order
  -- request may have been written; and where it was, the failure asks for no new call, and allows a
  -- resend under the same key where the catalog does.
  pub placement_over_hop :
      (failure : PlacementError H) (o : Operation) (message : List ℕ)
      → mutates o ≡ true
      → (IsUnknown (placement_hop H o message failure) ↔ (failure.written ≡ true))
        × ((failure.written ≡ true) → SaysUnknown o (placement_hop H o message failure))
  unfolding placement_hop placement for_mutation body broker_error
  placement_over_hop failure o message m = (
    (
      (λ u. elim (Bool-cases failure.written) [
        | inl w ↦ w
        | inr w ↦
            let same : placement H failure ≡ broker H failure.error read = ground arith in
            absurd (
              known_hop (placement H failure) o message m
                (subst (λ f. f.code ≢ outcome_unknown) (sym same) (broker_read-known failure.error))
                u)
      ]),
      ground arith,
    ),
    ground arith,
  )
