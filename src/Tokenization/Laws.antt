-- ===== src/Tokenization/Laws.antt =====
-- What the searches of src/tokenization/client.rs find.
use st0x_alpaca.Prelude.{
  ℕ, ◌≡◌, inl, inr, refl, ap, true, false, List, [], ◌∷◌, ◌++◌, Option, none, some, arith, ok, All,
  Bool-cases,
}
use st0x_alpaca.Errors.Http.{Http}
use st0x_alpaca.Stream.Event.{same_bytes}
use st0x_alpaca.Tokenization.{
  TokenizationRequest, Entries, is_mint, matching, unique, find_unique_mint_request, get_request,
  confirm_network,
}

module _ (H : Http) (D : Type 0) (E : Entries D) where
  -- The entries of which none is a mint of the key.
  abbrev pub IsOther : List ℕ → List E.Value → Type 0
  IsOther key requests = All (λ request. is_mint H D E key request ≡ false) requests

  -- The entries with one mint of the key among them.
  abbrev pub IsOnly : List ℕ → List E.Value → E.Value → Type 0
  IsOnly key requests request =
      (before : List E.Value) × (after : List E.Value) × (requests ≡ before ++ request ∷ after)
      × (is_mint H D E key request ≡ true)
      × IsOther key before
      × IsOther key after

  none_matching :
      (key : List ℕ) (requests : List E.Value)
      → matching H D E key requests ≡ []
      → IsOther key requests
  unfolding matching
  none_matching key [] h = tt
  none_matching key (request ∷ requests) h = ground (arith, h, none_matching key requests)

  one_matching :
      (key : List ℕ) (requests : List E.Value) (request : E.Value)
      → matching H D E key requests ≡ request ∷ []
      → IsOnly key requests request
  unfolding matching
  one_matching key [] request h = absurd (ground (arith, h))
  one_matching key (first ∷ requests) request h = elim (Bool-cases (is_mint H D E key first)) [
    | inl m ↦ (
      [],
      requests,
      ground (arith, h, m),
      ground (arith, h, m),
      tt,
      none_matching key requests (ground (arith, h, m)),
    )
    | inr m ↦ later m (one_matching key requests request (ground (arith, h, m)))
  ]
    where
      later :
          is_mint H D E key first ≡ false
          → IsOnly key requests request
          → IsOnly key (first ∷ requests) request
      later other (before, after, e, m', b, a) =
          (first ∷ before, after, ap (◌∷◌ first) e, m', (other, b), a)

  only_of :
      (requests : List E.Value) (found : TokenizationRequest D)
      → unique H D E requests ≡ ok (some found)
      → (request : E.Value) × (requests ≡ request ∷ []) × (E.from_value request ≡ some found)
  unfolding unique
  only_of [] found e = absurd (ground (arith, e))
  only_of (request ∷ []) found e = (request, refl, ground (arith, e))
  only_of (request ∷ _ ∷ _) found e = absurd (ground (arith, e))

  -- A mint that the search of a key finds is the only entry of the list with that type and key, and is
  -- what the entry parses as.
  pub find_unique-IsOnly :
      (key : List ℕ) (requests : List E.Value) (found : TokenizationRequest D)
      → find_unique_mint_request H D E key requests ≡ ok (some found)
      → (request : E.Value) × IsOnly key requests request × (E.from_value request ≡ some found)
  unfolding find_unique_mint_request
  find_unique-IsOnly key requests found e =
      let (request, one, parses) = only_of (matching H D E key requests) found e in
      (request, one_matching key requests request one, parses)

  abbrev pub IsOn : List ℕ → Option (List ℕ) → Type 0
  IsOn chain none = ⊥
  IsOn chain (some network) = same_bytes network chain ≡ true

  -- A request that a read by its id gives is on the client's own network.
  pub get_request-IsOn :
      (chain id : List ℕ) (requests : List E.Value) (found : TokenizationRequest D)
      → get_request H D E chain id requests ≡ ok found
      → IsOn chain found.network
  unfolding get_request confirm_network
  get_request-IsOn chain id requests found e = ground arith
