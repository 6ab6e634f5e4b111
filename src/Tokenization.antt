-- ===== src/Tokenization.antt =====
-- src/tokenization/client.rs: tokenization requests, the searches of their list, and the errors of a
-- mint. Texts are lists of code points; what the JSON crate reads of an entry is `Entries`.
pub mod Laws
pub mod Poll
pub mod Ends
mod Tests
use st0x_alpaca.Prelude.{
  ℕ, ◌+◌, ◌==◌, ◌&&◌, leb, Bool, true, false, List, [], ◌∷◌, map, Option, none, some, if◌then◌else◌,
  Result, ok, err, ◌>>=◌, codes, contains,
}
use st0x_alpaca.Errors.Http.{Http}
use st0x_alpaca.Errors.Tokenization.{
  AlpacaTokenizationError, api_error, insufficient_position, unsupported_account,
  invalid_parameters, request_not_found, duplicate_mint_issuer_request_id, wrong_network,
  network_missing, json_parse,
}
use st0x_alpaca.Stream.Event.{same_bytes}

pub data TokenizationRequestStatus : Type 0 where
  pending completed rejected : TokenizationRequestStatus

-- Of a request, what decisions read; `D` is the rest.
pub record TokenizationRequest (D : Type 0) : Type 0 where
  pub id : List ℕ
  pub status : TokenizationRequestStatus
  pub network : Option (List ℕ)
  pub details : D

-- The texts of an entry's fields, where it has them, and the whole request, where it parses.
pub record Entries (D : Type 0) : Type 1 where
  pub Value : Type 0
  pub tokenization_request_id : Value → Option (List ℕ)
  pub request_type : Value → Option (List ℕ)
  pub client_request_id : Value → Option (List ℕ)
  pub tx_hash : Value → Option (List ℕ)
  pub from_value : Value → Option (TokenizationRequest D)

-- `field == Some(text)`.
unfoldable pub is_text : Option (List ℕ) → List ℕ → Bool
is_text none text = false
is_text (some field) text = same_bytes field text

-- `char::to_ascii_lowercase`.
unfoldable pub to_lower : ℕ → ℕ
to_lower c = if leb 65 c && leb c 90 then c + 32 else c

module _ (H : Http) where
  -- `normalized_message` is the lower case message.
  forbidden_mint : List ℕ → ℕ → Option ℕ → AlpacaTokenizationError H
  forbidden_mint normalized_message status retry_after =
      if contains (codes "insufficient") normalized_message
        && contains (codes "position") normalized_message
      then insufficient_position
      else if contains (codes "not supported") normalized_message
          && contains (codes "tokenization") normalized_message
      then unsupported_account
      else api_error status retry_after

  unprocessable_mint : List ℕ → ℕ → Option ℕ → AlpacaTokenizationError H
  unprocessable_mint normalized_message status retry_after =
      if contains (codes "no positions found") normalized_message
      then insufficient_position
      else if contains (codes "invalid wallet address") normalized_message
      then invalid_parameters
      else api_error status retry_after

  unfoldable pub map_mint_error : ℕ → List ℕ → Option ℕ → AlpacaTokenizationError H
  unfolding forbidden_mint unprocessable_mint to_lower
  map_mint_error status message retry_after =
      if status == 403
      then forbidden_mint (map to_lower message) status retry_after
      else if status == 422
      then unprocessable_mint (map to_lower message) status retry_after
      else api_error status retry_after

  module _ (D : Type 0) where
    -- `chain` is the client's.
    unfoldable pub confirm_network :
        List ℕ → TokenizationRequest D → Result (TokenizationRequest D) (AlpacaTokenizationError H)
    confirm_network chain request = elim request.network [
      | none ↦ err (network_missing request.id)
      | some network ↦
          if same_bytes network chain then ok request else err (wrong_network request.id)
    ]

    module _ (E : Entries D) where
      parsed :
          Option (TokenizationRequest D)
          → Result (Option (TokenizationRequest D)) (AlpacaTokenizationError H)
      parsed none = err json_parse
      parsed (some request) = ok (some request)

      -- The first entry that the test takes, which has to parse.
      unfoldable pub scan_request_list :
          (E.Value → Bool)
          → List E.Value
          → Result (Option (TokenizationRequest D)) (AlpacaTokenizationError H)
      unfolding parsed
      scan_request_list matches [] = ok none
      scan_request_list matches (request ∷ requests) =
          let rest = scan_request_list matches requests in
          if matches request then parsed (E.from_value request) else rest

      -- The list without the entries that do not parse.
      unfoldable pub parse_request_list : List E.Value → List (TokenizationRequest D)
      parse_request_list [] = []
      parse_request_list (request ∷ requests) =
          let rest = parse_request_list requests in
          elim (E.from_value request) [ none ↦ rest | some request' ↦ request' ∷ rest ]

      found_request :
          List ℕ
          → Option (TokenizationRequest D)
          → Result (TokenizationRequest D) (AlpacaTokenizationError H)
      unfolding confirm_network
      found_request chain none = err request_not_found
      found_request chain (some request) = confirm_network chain request

      -- The reads of the list that was fetched.
      unfoldable pub get_request :
          List ℕ
          → List ℕ
          → List E.Value
          → Result (TokenizationRequest D) (AlpacaTokenizationError H)
      unfolding found_request is_text
      get_request chain id requests =
          scan_request_list (λ request. is_text (E.tokenization_request_id request) id) requests
          >>= found_request chain

      found_redemption :
          List ℕ
          → Option (TokenizationRequest D)
          → Result (Option (TokenizationRequest D)) (AlpacaTokenizationError H)
      unfolding confirm_network
      found_redemption chain none = ok none
      found_redemption chain (some request) =
          confirm_network chain request >>= (λ confirmed. ok (some confirmed))

      -- `eq_ignore_ascii_case` with the text of the hash.
      is_hash : Option (List ℕ) → List ℕ → Bool
      unfolding to_lower
      is_hash none text = false
      is_hash (some field) text = same_bytes (map to_lower field) (map to_lower text)

      unfoldable pub find_redemption_by_tx :
          List ℕ
          → List ℕ
          → List E.Value
          → Result (Option (TokenizationRequest D)) (AlpacaTokenizationError H)
      unfolding found_redemption is_hash
      find_redemption_by_tx chain expected_tx_hash requests =
          scan_request_list (λ request. is_hash (E.tx_hash request) expected_tx_hash) requests
          >>= found_redemption chain

      unfoldable pub is_mint : List ℕ → E.Value → Bool
      unfolding is_text
      is_mint key request =
          is_text (E.request_type request) (codes "mint")
          && is_text (E.client_request_id request) key

      -- The mints of the key.
      unfoldable pub matching : List ℕ → List E.Value → List E.Value
      matching key [] = []
      matching key (request ∷ requests) =
          let rest = matching key requests in if is_mint key request then request ∷ rest else rest

      unfoldable pub unique :
          List E.Value → Result (Option (TokenizationRequest D)) (AlpacaTokenizationError H)
      unfolding parsed
      unique [] = ok none
      unique (request ∷ []) = parsed (E.from_value request)
      unique (request ∷ _ ∷ _) = err duplicate_mint_issuer_request_id

      unfoldable pub find_unique_mint_request :
          List ℕ
          → List E.Value
          → Result (Option (TokenizationRequest D)) (AlpacaTokenizationError H)
      unfolding matching unique
      find_unique_mint_request key requests = unique (matching key requests)
