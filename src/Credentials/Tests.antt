-- ===== src/Credentials/Tests.antt =====
-- Examples for the token cache: another request meets a rate limit, waits it out and mints, and the
-- request at hand takes its token.
use st0x_alpaca.Prelude.{◌*◌, ◌≡◌, refl, true, ◌++◌, List, [], ◌∷◌, some, ok, codes}
use st0x_alpaca.Errors.Sample.{http}
use st0x_alpaca.Errors.Jwt.{token_status, is_rate_limited, retry_after}
use st0x_alpaca.Credentials.{
  seconds, TokenResponse, start, Move, own, other_begin, other_minted, other_failed, run, done,
  moved, other_entered, settled, begun, fresh, usable, mint_wait, or_zero, limited, deferred, store,
  cached_of, looked, answer,
}
use st0x_alpaca.Credentials.Laws.{IsHonoured, run-IsHonoured}
use st0x_alpaca.Credentials.Tokens.{IsEnded, run-IsEnded}

abbrev token : TokenResponse
token = record { at = 132 * seconds; access_token = codes "t1"; expires_in = 900 }

abbrev begins : List (Move http)
begins =
    other_begin (100 * seconds) true
    ∷ other_failed (101 * seconds) (token_status 429 (some (30 * seconds)))
    ∷ other_begin (120 * seconds) true
    ∷ other_begin (131 * seconds) true
    ∷ other_minted token
    ∷ []

-- The token is fresh for 780 seconds from its mint.
takes_fresh :
    (run http (start http) (begins ++ own (911 * seconds) true ∷ [])).phase
    ≡ done (911 * seconds) (ok (codes "t1"))
unfolding is_rate_limited retry_after moved other_entered settled begun fresh usable mint_wait
    or_zero limited deferred store cached_of looked answer
takes_fresh = refl

run-IsHonoured_example : IsHonoured http (run http (start http) begins).events
run-IsHonoured_example = run-IsHonoured http begins

run-IsEnded_example :
    IsEnded http
      (run http (start http) (begins ++ own (911 * seconds) true ∷ [])).tokens
      (run http (start http) (begins ++ own (911 * seconds) true ∷ [])).phase
run-IsEnded_example = run-IsEnded http (begins ++ own (911 * seconds) true ∷ [])
