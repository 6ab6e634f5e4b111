-- ===== src/Credentials.antt =====
-- src/auth.rs: the token cache of the keyless credentials, `access_token`, `cached_before`, `mint` and
-- `defer_next_refresh`, as a step function on the state that all requests share. A move is one section
-- of the request at hand, or of the other request that mints. Instants and durations are numbers of
-- nanoseconds; what a mint ends with is free, and its signing and exchange are left out.
pub mod Laws
pub mod Tokens
mod Tests
use st0x_alpaca.Prelude.{
  ℕ, ◌+◌, ◌-◌, ◌*◌, ◌/◌, min, max, Bool, true, false, not, List, [], ◌∷◌, Option, none, some, ltb,
  if◌then◌else◌, Result, ok, err,
}
use st0x_alpaca.Errors.Http.{Http}
use st0x_alpaca.Errors.Jwt.{KmsJwtError, is_rate_limited, retry_after, token_status, not_sent}
use st0x_alpaca.Retry.{max_retry_after_hold}

abbrev pub seconds : ℕ
seconds = 1_000_000_000

abbrev pub token_refresh_margin : ℕ
token_refresh_margin = 120 * seconds

abbrev pub token_hard_margin : ℕ
token_hard_margin = 10 * seconds

abbrev pub failed_mint_backoff : ℕ
failed_mint_backoff = 15 * seconds

abbrev pub token_max_lifetime : ℕ
token_max_lifetime = 3600 * seconds

pub record CachedToken : Type 0 where
  pub access_token : List ℕ
  pub refresh_after : ℕ
  pub hard_expiry : ℕ

-- A token as the endpoint gave it at an instant, with the seconds that it stated.
pub record TokenResponse : Type 0 where
  pub at : ℕ
  pub access_token : List ℕ
  pub expires_in : ℕ

abbrev pub lifetime_of : TokenResponse → ℕ
lifetime_of token = min (token.expires_in * seconds) token_max_lifetime

abbrev pub hard_expiry_of : TokenResponse → ℕ
hard_expiry_of token = token.at + (lifetime_of token - token_hard_margin)

unfoldable pub cached_of : TokenResponse → CachedToken
cached_of token = record {
  access_token = token.access_token;
  refresh_after =
      min (token.at + max (lifetime_of token - token_refresh_margin) (lifetime_of token / 2))
        (hard_expiry_of token);
  hard_expiry = hard_expiry_of token;
}

-- `cached_before` the soft and the hard deadline.
unfoldable pub fresh : Option CachedToken → ℕ → Option (List ℕ)
fresh none now = none
fresh (some token) now = if ltb now token.refresh_after then some token.access_token else none

unfoldable pub usable : Option CachedToken → ℕ → Option (List ℕ)
usable none now = none
usable (some token) now = if ltb now token.hard_expiry then some token.access_token else none

-- Past what an instant can be, the hard deadline is the least as well.
unfoldable pub defer_next_refresh : Option CachedToken → ℕ → ℕ → Option CachedToken
defer_next_refresh none now hint = none
defer_next_refresh (some token) now hint =
    some
      (record token { refresh_after = min (now + max failed_mint_backoff hint) token.hard_expiry })

unfoldable pub or_zero : Option ℕ → ℕ
or_zero none = 0
or_zero (some hint) = hint

-- The delay of `mint_not_before` that is left, if one is.
unfoldable pub mint_wait : Option (ℕ × ℕ) → ℕ → Option ℕ
mint_wait none now = none
mint_wait (some (started, delay)) now =
    if ltb 0 (delay - (now - started)) then some (delay - (now - started)) else none

-- What happened to mints, for the record of a run.
pub data Event : Type 0 where
  mint_started : ℕ → Event
  rate_limited : ℕ → ℕ → Event

module _ (H : Http) where
  -- Where the request at hand is; it ends at an instant.
  pub data Phase : Type 0 where
    looking waiting minting : Phase
    done : ℕ → Result (List ℕ) (KmsJwtError H) → Phase

  -- `busy` is whether another request holds the mint lock. `events` and `tokens` record the run, the
  -- last first.
  pub record AuthState : Type 0 where
    pub cached : Option CachedToken
    pub mint_not_before : Option (ℕ × ℕ)
    pub busy : Bool
    pub phase : Phase
    pub events : List Event
    pub tokens : List TokenResponse

  abbrev pub start : AuthState
  start = record {
    cached = none;
    mint_not_before = none;
    busy = false;
    phase = looking;
    events = [];
    tokens = [];
  }

  -- `own` and `other_begin` have the time, and whether the caller's gate is open.
  pub data Move : Type 0 where
    own other_begin : ℕ → Bool → Move
    minted other_minted : TokenResponse → Move
    failed other_failed : ℕ → KmsJwtError H → Move

  unfoldable pub store : AuthState → TokenResponse → AuthState
  unfolding cached_of
  store s token = record s { cached = some (cached_of token); tokens = token ∷ s.tokens }

  -- What a failure leaves: the hold of a rate limit, and a later refresh if a token is still usable.
  unfoldable pub limited : AuthState → ℕ → KmsJwtError H → AuthState
  unfolding or_zero
  limited s now error =
      let delay =
        min (max (or_zero (retry_after error)) failed_mint_backoff) max_retry_after_hold in
      if is_rate_limited error
      then record s {
        mint_not_before = some (now, delay);
        events = rate_limited now delay ∷ s.events;
      }
      else s

  unfoldable pub deferred : AuthState → ℕ → KmsJwtError H → AuthState
  unfolding usable defer_next_refresh or_zero
  deferred s now error = elim (usable s.cached now) [
    | none ↦ s
    | some _ ↦ record s { cached = defer_next_refresh s.cached now (or_zero (retry_after error)) }
  ]

  unfoldable pub answer : Option (List ℕ) → KmsJwtError H → Result (List ℕ) (KmsJwtError H)
  answer none error = err error
  answer (some token) error = ok token

  -- The section under the lock, up to the mint: where it goes, if not to a mint.
  unfoldable pub settled : AuthState → ℕ → Bool → Option (Result (List ℕ) (KmsJwtError H))
  unfolding fresh usable mint_wait answer
  settled s now is_open = elim (fresh s.cached now) [
    | some token ↦ some (ok token)
    | none ↦ elim (mint_wait s.mint_not_before now) [
      | some wait ↦ some (answer (usable s.cached now) (token_status 429 (some wait)))
      | none ↦ if is_open then none else some (err not_sent)
    ]
  ]

  unfoldable pub begun : AuthState → ℕ → AuthState
  begun s now = record s { events = mint_started now ∷ s.events }

  unfoldable pub enter : AuthState → ℕ → Bool → AuthState
  unfolding settled begun
  enter s now is_open = elim (settled s now is_open) [
    | some result ↦ record s { phase = done now result }
    | none ↦ record (begun s now) { phase = minting }
  ]

  -- Past a first look at the cache.
  unfoldable pub looked : AuthState → ℕ → Bool → Option (List ℕ) → AuthState
  unfolding enter usable
  looked s now is_open (some token) = record s { phase = done now (ok token) }
  looked s now is_open none =
      if s.busy
      then (elim (usable s.cached now) [
        | some token ↦ record s { phase = done now (ok token) }
        | none ↦ record s { phase = waiting }
      ])
      else enter s now is_open

  unfoldable pub other_entered : AuthState → ℕ → Bool → Option AuthState
  unfolding settled begun
  other_entered s now is_open = elim (settled s now is_open) [
    | some _ ↦ none
    | none ↦ some (record (begun s now) { busy = true })
  ]

  unfoldable pub is_minting : Phase → Bool
  is_minting minting = true
  is_minting _ = false

  unfoldable pub moved : Move → Phase → AuthState → Option AuthState
  unfolding looked enter other_entered is_minting store limited deferred fresh usable answer
  moved (own now is_open) looking s = some (looked s now is_open (fresh s.cached now))
  moved (own now is_open) waiting s = if s.busy then none else some (enter s now is_open)
  moved (minted token) minting s =
      some (record (store s token) { phase = done token.at (ok token.access_token) })
  moved (failed now error) minting s = some (record (deferred (limited s now error) now error) {
    phase = done now (answer (usable s.cached now) error);
  })
  moved (other_begin now is_open) ph s =
      if s.busy then none else if is_minting ph then none else other_entered s now is_open
  moved (other_minted token) ph s =
      if s.busy then some (record (store s token) { busy = false }) else none
  moved (other_failed now error) ph s =
      if s.busy
      then some (record (deferred (limited s now error) now error) { busy = false })
      else none
  moved _ ph s = none

  abbrev pub step : AuthState → Move → Option AuthState
  step s m = moved m s.phase s

  -- A move that cannot happen is passed over.
  abbrev pub run : AuthState → List Move → AuthState
  run s [] = s
  run s (m ∷ ms) = elim (step s m) [ none ↦ run s ms | some s' ↦ run s' ms ]
