-- ===== src/Order/Placement/Wire.antt =====
-- Placements of src/broker/order.rs over the requests of src/broker/client.rs: what an unwritten
-- placement shows of the order request itself.
use st0x_alpaca.Prelude.{ℕ, ◌≡◌, ◌⊎◌, refl, sym, ◌∙◌, false, List, Option, Result, ok, err}
use st0x_alpaca.Errors.Http.{Http}
use st0x_alpaca.Errors.Broker.{AlpacaBrokerApiError, PlacementError}
use st0x_alpaca.Order.Placement.{Floats, OrderResponse, OrderRequest, Calls}
use st0x_alpaca.Order.Placement.Laws.{
  AnyOrder, place, shares_of, request_of, place_unwritten, IsNotTaken, LeavesNone,
}
use st0x_alpaca.Transport.{Scope, Exchange, Codec}
use st0x_alpaca.Transport.Broker.{post}
use st0x_alpaca.Transport.Laws.{IsSound, IsRefused, post_unreached}

module _ (H : Http) (F : Floats) (C : Calls F H) (K : Codec)
    (decode : List ℕ → Option (OrderResponse F)) (scope : Scope)
    (exchange : OrderRequest F → Exchange H) where
  -- No order request was made for the order, or it never left, or Alpaca refused it.
  abbrev pub NeverReached : AnyOrder H F C → Result F.Float (AlpacaBrokerApiError H) → Type 0
  NeverReached order (err _) = Unit
  NeverReached order (ok shares) =
      ((post H K decode scope (exchange (request_of H F C order shares))).2 ≡ false)
      ⊎ IsRefused H K (exchange (request_of H F C order shares)).answer

  -- Where the client places orders by posts, on an HTTP client whose errors are as documented: a placement
  -- that fails as unwritten put no order at Alpaca, since its shares had no order request, or the request
  -- never left the client, or Alpaca answered it by a client error other than a timeout.
  pub place-NeverReached :
      (order : AnyOrder H F C) (failure : PlacementError H)
      → ((q : OrderRequest F) → C.place_order q ≡ (post H K decode scope (exchange q)).0)
      → ((q : OrderRequest F) → IsSound H K (exchange q).answer (exchange q).left)
      → place H F C order ≡ err failure
      → failure.written ≡ false
      → NeverReached order (shares_of H F C order)
  place-NeverReached order failure posts sound e w =
      shares_reached _ (place_unwritten H F C order failure e w)
    where
      reached :
          (q : OrderRequest F) (r : Result (OrderResponse F) (AlpacaBrokerApiError H))
          → C.place_order q ≡ r
          → IsNotTaken H F C failure.error r
          → ((post H K decode scope (exchange q)).2 ≡ false) ⊎ IsRefused H K (exchange q).answer
      reached q (ok _) p n = elim n [ ]
      reached q (err refused) p (_, unreached, _) =
          post_unreached H K decode scope (exchange q) refused (sound q) (sym (posts q) ∙ p)
            unreached

      shares_reached :
          (r : Result F.Float (AlpacaBrokerApiError H))
          → LeavesNone H F C order failure.error r
          → NeverReached order r
      shares_reached (err _) n = tt
      shares_reached (ok shares) n = reached (request_of H F C order shares) _ refl n
