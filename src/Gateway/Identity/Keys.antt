-- ===== src/Gateway/Identity/Keys.antt =====
-- crates/gateway/src/auth.rs: the signing keys of a verifier, `decoding_key`, `cached_key` and `refresh`,
-- as a step function on the state that all requests share. A move is one critical section, of the
-- request at hand or of another; `jwks_ttl` and the floor between attempts are in nanoseconds.
use st0x_alpaca.Prelude.{
  ℕ, ◌+◌, ◌-◌, ◌*◌, ◌&&◌, Bool, true, false, not, List, [], ◌∷◌, any, find, Option, none, some, leb,
  ltb, if◌then◌else◌, same_bytes, Result, ok, err,
}
use st0x_alpaca.Gateway.Identity.{Jwt, TokenError, keys_unavailable, unknown_key}

abbrev pub jwks_ttl : ℕ
jwks_ttl = 3600 * 1_000_000_000

abbrev pub refresh_floor : ℕ
refresh_floor = 60 * 1_000_000_000

module _ (J : Jwt) where
  abbrev pub KeySet : Type 0
  KeySet = List (List ℕ × J.Key)

  pub record CachedKeys : Type 0 where
    pub keys : KeySet
    pub expires_at : ℕ

  abbrev pub has_kid : List ℕ → List ℕ × J.Key → Bool
  has_kid kid (id, _) = same_bytes id kid

  unfoldable pub key_in : List ℕ → KeySet → Option J.Key
  key_in kid keys = elim (find (has_kid kid) keys) [ none ↦ none | some (_, key) ↦ some key ]

  unfoldable pub cached_key : Option CachedKeys → List ℕ → Bool → ℕ → Option J.Key
  unfolding key_in
  cached_key none kid allow_stale now = none
  cached_key (some cached) kid allow_stale now =
      if not allow_stale && leb cached.expires_at now then none else key_in kid cached.keys

  -- Whether the cached keys are fresh and hold the id already.
  unfoldable pub holds_fresh : Option CachedKeys → List ℕ → ℕ → Bool
  holds_fresh none kid now = false
  holds_fresh (some cached) kid now = ltb now cached.expires_at && any (has_kid kid) cached.keys

  unfoldable pub is_cold : Option CachedKeys → Bool
  is_cold none = true
  is_cold (some _) = false

  -- `attempt.is_some_and(|at| at.elapsed() < REFRESH_FLOOR)`; `elapsed` stops at zero.
  unfoldable pub is_recent : Option ℕ → ℕ → Bool
  is_recent none now = false
  is_recent (some at) now = ltb (now - at) refresh_floor

  -- Where the request at hand is. `attempting` has whether the cache was cold.
  pub data Phase : Type 0 where
    looking checking fetching looking_again : Phase
    attempting : Bool → Phase
    done : Result J.Key TokenError → Phase

  -- `attempts` records the attempts to refresh, the last first, and `fetched` the key sets stored.
  pub record KeyState : Type 0 where
    pub keys : Option CachedKeys
    pub last_refresh_attempt : Option ℕ
    pub phase : Phase
    pub attempts : List ℕ
    pub fetched : List KeySet

  unfoldable pub start : Option CachedKeys → Option ℕ → KeyState
  start keys last = record {
    keys = keys;
    last_refresh_attempt = last;
    phase = looking;
    attempts = [];
    fetched = [];
  }

  -- The clock is read in each section. `fetch` and `other_store` have the usable keys of an answer, of
  -- which there is one at least: an answer without one is a failure.
  pub data Move : Type 0 where
    own other_attempt : ℕ → Move
    fetch other_store : (List ℕ × J.Key) → KeySet → ℕ → Move
    fetch_failed : Move

  unfoldable pub store : KeyState → KeySet → ℕ → KeyState
  store s keys now = record s {
    keys = some (record { keys = keys; expires_at = now + jwks_ttl });
    fetched = keys ∷ s.fetched;
  }

  -- The section of the last attempt, past which the request at hand goes on as given.
  unfoldable pub attempted : KeyState → ℕ → Phase → Phase → KeyState
  unfolding is_recent
  attempted s now refused taken =
      if is_recent s.last_refresh_attempt now
      then record s { phase = refused }
      else record s { phase = taken; last_refresh_attempt = some now; attempts = now ∷ s.attempts }

  unfoldable pub found : KeyState → Option J.Key → Phase → KeyState
  found s none missed = record s { phase = missed }
  found s (some key) missed = record s { phase = done (ok key) }

  -- Where a request goes that may not fetch, or whose fetch failed.
  unfoldable pub unfetched : Bool → Phase
  unfetched true = done (err keys_unavailable)
  unfetched false = looking_again

  module _ (kid : List ℕ) where
    unfoldable pub moved : Move → Phase → KeyState → Option KeyState
    unfolding store attempted found unfetched cached_key holds_fresh is_cold
    moved (other_attempt now) ph s = some (attempted s now ph ph)
    moved (other_store first keys now) ph s =
        some (record (store s (first ∷ keys) now) { phase = ph })
    moved (own now) looking s = some (found s (cached_key s.keys kid false now) checking)
    moved (own now) checking s =
        if holds_fresh s.keys kid now
        then some (record s { phase = looking_again })
        else some (record s { phase = attempting (is_cold s.keys) })
    moved (own now) (attempting cold) s = some (attempted s now (unfetched cold) fetching)
    moved (fetch first keys now) fetching s =
        some (record (store s (first ∷ keys) now) { phase = looking_again })
    moved fetch_failed fetching s = some (record s { phase = unfetched (is_cold s.keys) })
    moved (own now) looking_again s =
        some (found s (cached_key s.keys kid true now) (done (err unknown_key)))
    moved _ _ s = none

    abbrev pub step : KeyState → Move → Option KeyState
    step s m = moved m s.phase s

    -- A move that cannot happen is passed over.
    abbrev pub run : KeyState → List Move → KeyState
    run s [] = s
    run s (m ∷ ms) = elim (step s m) [ none ↦ run s ms | some s' ↦ run s' ms ]
