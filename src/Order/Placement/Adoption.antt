-- ===== src/Order/Placement/Adoption.antt =====
-- A placement behind the gateway: what its caller is told, against what the client of Alpaca did with the
-- order request.
use st0x_alpaca.Prelude.{ℕ, ◌≡◌, ◌≢◌, ◌⊎◌, inl, inr, true, List, Option, err, arith, Bool-cases}
use st0x_alpaca.Catalog.Operation.{Operation, mutates}
use st0x_alpaca.Errors.Http.{Http}
use st0x_alpaca.Errors.Broker.{PlacementError}
use st0x_alpaca.Client.Family.{placement_hop}
use st0x_alpaca.Client.Laws.{IsUnknown, SaysUnknown, placement_over_hop}
use st0x_alpaca.Order.Placement.{Floats, OrderResponse, OrderRequest, Calls}
use st0x_alpaca.Order.Placement.Laws.{AnyOrder, place, shares_of}
use st0x_alpaca.Order.Placement.Wire.{NeverReached, place-NeverReached}
use st0x_alpaca.Transport.{Scope, Exchange, Codec}
use st0x_alpaca.Transport.Broker.{post}
use st0x_alpaca.Transport.Laws.{IsSound}

module _ (H : Http) (F : Floats) (C : Calls F H) (K : Codec)
    (decode : List ℕ → Option (OrderResponse F)) (scope : Scope)
    (exchange : OrderRequest F → Exchange H) where
  -- A placement that fails behind the gateway, where the gateway's client of Alpaca places orders by posts
  -- on an HTTP client whose errors are as documented: either its caller is told that the outcome is
  -- unknown, that no new call is to be tried, and whether a resend under the same key is safe; or its
  -- caller is not told that the outcome is unknown, and the placement put no order at Alpaca, since its
  -- shares had no order request, or the request never left, or Alpaca answered it by a client error other
  -- than a timeout.
  pub place_over_hop :
      (order : AnyOrder H F C) (failure : PlacementError H) (o : Operation) (message : List ℕ)
      → mutates o ≡ true
      → ((q : OrderRequest F) → C.place_order q ≡ (post H K decode scope (exchange q)).0)
      → ((q : OrderRequest F) → IsSound H K (exchange q).answer (exchange q).left)
      → place H F C order ≡ err failure
      → SaysUnknown o (placement_hop H o message failure)
        ⊎ ((¬ IsUnknown (placement_hop H o message failure))
            × NeverReached H F C K decode scope exchange order (shares_of H F C order))
  place_over_hop order failure o message m posts sound e =
      let told = placement_over_hop H failure o message m in
      elim (Bool-cases failure.written) [
        | inl w ↦ inl (told.1 w)
        | inr w ↦
            let unwritten : failure.written ≢ true = ground arith in
            inr (
              (λ u. unwritten (told.0.0 u)),
              place-NeverReached H F C K decode scope exchange order failure posts sound e w,
            )
      ]
