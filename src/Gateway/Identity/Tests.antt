-- ===== src/Gateway/Identity/Tests.antt =====
-- Examples for identities: a bot, one signing key, and requests that look for it.
use st0x_alpaca.Prelude.{
  ℕ, ◌≡◌, ◌==◌, ◌++◌, ◌∙◌, ap, subst, sym, true, same_bytes, same_bytes-eq, arith, refl, false,
  List, [], ◌∷◌, Option, none, some, if◌then◌else◌, Result, ok, err, codes, is_prefix,
}
use st0x_alpaca.Catalog.Access.{bot}
use st0x_alpaca.Gateway.Identity.{
  Jwt, Principal, TokenError, TokenVerifier, bot_verifier, build, token, textual, bearer,
  is_allowed, claimed, verify, refused, identify, unknown_key,
}
use st0x_alpaca.Gateway.Identity.Keys.{
  KeySet, CachedKeys, key_in, cached_key, holds_fresh, is_cold, is_recent, start, Move, own,
  other_attempt, fetch, fetch_failed, moved, run, store, attempted, found, unfetched, done,
}
use st0x_alpaca.Gateway.Identity.Laws.{IsSpaced, run-IsSpaced}
use st0x_alpaca.Gateway.Identity.Supply.{IsSupplied, run-IsSupplied}
use st0x_alpaca.Gateway.Identity.Caller.{Decides, Carries, IsSigned, IsAllowed, identify-IsTokenOf}

abbrev jwt : Jwt
jwt = record {
  Key = ℕ;
  decode_header = λ text. some (some (codes "k1"));
  decode = λ text key validation.
      if key == 7 then some (record { sub = codes "117"; email = none }) else none;
}

abbrev kid : List ℕ
kid = codes "k1"

abbrev keys : KeySet jwt
keys = (codes "k2", 3) ∷ []

-- A cold request that fetches, and finds its key.
abbrev fetches : List (Move jwt)
fetches = own 100 ∷ own 101 ∷ own 102 ∷ fetch (codes "k1", 7) keys 103 ∷ own 104 ∷ []

fetches_key : (run jwt kid (start jwt none none) fetches).phase ≡ done (ok 7)
unfolding start moved found cached_key holds_fresh is_cold attempted is_recent unfetched store
    key_in
fetches_key = refl

-- A warm request whose fetch fails.
abbrev fails : List (Move jwt)
fails = own 100 ∷ own 101 ∷ own 102 ∷ fetch_failed ∷ other_attempt 103 ∷ own 104 ∷ []

abbrev cached : CachedKeys jwt
cached = record { keys = keys; expires_at = 50 }

fails_unknown : (run jwt kid (start jwt (some cached) none) fails).phase ≡ done (err unknown_key)
unfolding start moved found cached_key holds_fresh is_cold attempted is_recent unfetched store
    key_in
fails_unknown = refl

-- The request fetches; another may not a moment later, and does after a minute.
abbrev refetches : List (Move jwt)
refetches = fetches ++ other_attempt 200 ∷ other_attempt 60_000_000_102 ∷ []

refetches_attempts :
    (run jwt kid (start jwt none none) refetches).attempts ≡ 60_000_000_102 ∷ 102 ∷ []
unfolding start moved found cached_key holds_fresh is_cold attempted is_recent unfetched store
    key_in
refetches_attempts = refl

run-IsSpaced_example : IsSpaced jwt kid (run jwt kid (start jwt none none) refetches).attempts
run-IsSpaced_example = run-IsSpaced jwt kid none none refetches

run-IsSupplied_example :
    (is_cold jwt (run jwt kid (start jwt (some cached) none) fails).keys ≡ false)
    × IsSupplied jwt kid (run jwt kid (start jwt (some cached) none) fails).phase
run-IsSupplied_example = run-IsSupplied jwt kid cached none fails

abbrev verifier : TokenVerifier
verifier = bot_verifier (codes "gateway") (codes "117" ∷ [])

-- The key of the id `k1`, by the schedule above.
abbrev decoding_key : List ℕ → Result ℕ TokenError
decoding_key id = if same_bytes id kid then ok 7 else err unknown_key

abbrev schedule : List ℕ → List (Move jwt)
schedule id = fetches

decoding_key-Decides : Decides jwt verifier decoding_key schedule
decoding_key-Decides id key d =
    let known : same_bytes id kid ≡ true = ground arith in
    let seven : 7 ≡ key = ground arith in
    subst (λ k. (run jwt k (start jwt none none) fetches).phase ≡ done (ok key))
      (sym (same_bytes-eq id kid known)) (fetches_key ∙ ap (λ k. done (ok k)) seven)

abbrev headers : List ℕ → Option (Option (List ℕ))
headers name =
    if same_bytes name (codes "authorization") then some (some (codes "Bearer t")) else none

abbrev caller : Principal
caller = record { tier = bot; subject = codes "117"; email = none }

identify-IsTokenOf_example :
    (caller.tier ≡ verifier.tier)
    × ((text : List ℕ) × Carries verifier.tier headers text
        × IsSigned jwt verifier decoding_key schedule caller text)
    × IsAllowed verifier.allowed_subjects caller.subject
unfolding identify refused verify claimed token textual bearer is_allowed bot_verifier build
    is_prefix
identify-IsTokenOf_example =
    identify-IsTokenOf jwt verifier decoding_key schedule headers caller decoding_key-Decides refl
