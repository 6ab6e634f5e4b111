-- ===== src/Tokenization/Tests.antt =====
-- Examples for tokenization requests: a list with one mint of a key, and a throttled poll.
use st0x_alpaca.Prelude.{
  ℕ, ◌≡◌, ◌≤◌, ◌⊎◌, refl, List, [], ◌∷◌, Option, none, some, Result, ok, err, codes,
}
use st0x_alpaca.Errors.Sample.{http}
use st0x_alpaca.Errors.Tokenization.{AlpacaTokenizationError, api_error}
use st0x_alpaca.Errors.Tokenization
use st0x_alpaca.RateLimit.{retry_in_place, backpressure_wait, next_poll_delay}
use st0x_alpaca.Tokenization.{
  TokenizationRequest, pending, completed, Entries, find_unique_mint_request, is_mint, is_text,
  matching, unique,
}
use st0x_alpaca.Tokenization.Laws.{IsOnly, find_unique-IsOnly}
use st0x_alpaca.Tokenization.Poll.{
  PollState, start, Move, ticked, begin, cut, wake, tick, answer, returned, step, run,
  accept_request, retry_transient,
}
use st0x_alpaca.Tokenization.Ends.{late, Decides, poll_result}

-- An entry is a key, its type and a request.
abbrev mint : TokenizationRequest ℕ
mint = record { id = codes "r1"; status = completed; network = some (codes "base"); details = 0 }

abbrev entries : Entries ℕ
entries = record {
  Value = List ℕ × List ℕ;
  tokenization_request_id = λ entry. some (codes "r1");
  request_type = λ entry. some entry.1;
  client_request_id = λ entry. some entry.0;
  tx_hash = λ entry. none;
  from_value = λ entry. some mint;
}

abbrev listed : List (List ℕ × List ℕ)
listed = (codes "k2", codes "mint") ∷ (codes "k1", codes "mint") ∷ (codes "k1", codes "redeem") ∷ []

find_unique-IsOnly_example :
    (request : List ℕ × List ℕ) × IsOnly http ℕ entries (codes "k1") listed request
    × (some mint ≡ some mint)
unfolding find_unique_mint_request matching unique is_mint is_text
find_unique-IsOnly_example = find_unique-IsOnly http ℕ entries (codes "k1") listed mint refl

abbrev throttled : AlpacaTokenizationError http
throttled = api_error 429 (some 5_000_000_000)

abbrev accept : TokenizationRequest ℕ → Option (TokenizationRequest ℕ)
accept = accept_request http ℕ

abbrev throttled_end : PollState http ℕ (TokenizationRequest ℕ) accept
throttled_end = record {
  now = 60_000_000_000;
  throttled = some throttled;
  phase = returned (err throttled);
  answers = err throttled ∷ ok (record mint { status = pending }) ∷ [];
}

abbrev throttled_moves : List (Move http ℕ (TokenizationRequest ℕ) accept)
throttled_moves =
    ticked
    ∷ begin
    ∷ answer (ok (record mint { status = pending }))
    ∷ ticked
    ∷ begin
    ∷ answer (err throttled)
    ∷ tick 60_000_000_000
    ∷ wake
    ∷ cut
    ∷ []

abbrev late_result : Result (TokenizationRequest ℕ) (AlpacaTokenizationError http)
late_result = err throttled

poll_result_example :
    Decides http ℕ (TokenizationRequest ℕ) accept throttled_end.answers late_result
    ⊎ ((late_result ≡ err (late http ℕ (TokenizationRequest ℕ) accept throttled_end.answers))
        × (60_000_000_000 ≤ throttled_end.now))
unfolding start run step accept_request retry_transient backpressure_wait next_poll_delay
    Tokenization.backpressure Tokenization.permanence
poll_result_example =
    poll_result http ℕ (TokenizationRequest ℕ) accept retry_in_place 60_000_000_000 0
      throttled_moves throttled_end late_result refl refl
