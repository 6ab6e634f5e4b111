-- ===== src/Credentials/Tokens.antt =====
-- What the tokens that src/auth.rs gives a request are, under any schedule.
use st0x_alpaca.Prelude.{
  ℕ, ◌≤◌, ◌≡◌, ◌<◌, ◌⊎◌, Any, refl, sym, ◌∙◌, Bool, true, false, List, [], ◌∷◌, Option, none, some,
  arith, Result, ok, err, Option-cases, Bool-cases, inl, inr, subst, min, max, if◌then◌else◌,
}
use st0x_alpaca.Errors.Http.{Http}
use st0x_alpaca.Errors.Jwt.{KmsJwtError, is_rate_limited, retry_after, token_status, not_sent}
use st0x_alpaca.Credentials.{
  hard_expiry_of, cached_of, CachedToken, TokenResponse, fresh, usable, mint_wait, rate_limited,
  Phase, looking, waiting, minting, done, AuthState, start, Move, own, other_begin, minted,
  other_minted, failed, other_failed, store, limited, deferred, settled, begun, enter, looked,
  other_entered, is_minting, moved, run, failed_mint_backoff, answer, or_zero, defer_next_refresh,
}
use st0x_alpaca.Retry.{max_retry_after_hold}
use st0x_alpaca.Credentials.Laws.{Holds, run-keeps, if-Holds}

module _ (H : Http) where
  -- A token that was given at an instant is one that the endpoint minted, at that instant or with more than
  -- ten seconds of its lifetime left, of which one hour counts at most.
  abbrev pub IsGivenAt : List TokenResponse → ℕ → List ℕ → Type 0
  IsGivenAt tokens now text =
      Any (λ m. (text ≡ m.access_token) × ((now ≡ m.at) ⊎ (now < hard_expiry_of m))) tokens

  abbrev pub IsEnded : List TokenResponse → Phase H → Type 0
  IsEnded tokens (done now (ok text)) = IsGivenAt tokens now text
  IsEnded tokens _ = Unit

  abbrev IsFrom : List TokenResponse → CachedToken → Type 0
  IsFrom tokens c =
      Any (λ m. (c.access_token ≡ m.access_token) × (c.hard_expiry ≡ hard_expiry_of m)) tokens

  abbrev IsCached : List TokenResponse → Option CachedToken → Type 0
  IsCached tokens none = Unit
  IsCached tokens (some c) = IsFrom tokens c × (c.refresh_after ≤ c.hard_expiry)

  abbrev IsSafe : AuthState H → Type 0
  IsSafe s = IsCached s.tokens s.cached × IsEnded s.tokens s.phase

  IsFrom-IsGivenAt :
      (tokens : List TokenResponse) (c : CachedToken) (now : ℕ)
      → IsFrom tokens c
      → now < c.hard_expiry
      → IsGivenAt tokens now c.access_token
  IsFrom-IsGivenAt [] c now f l = f
  IsFrom-IsGivenAt (m ∷ ms) c now (inl (text, expiry)) l =
      inl (text, inr (subst (λ e. now < e) expiry l))
  IsFrom-IsGivenAt (m ∷ ms) c now (inr f) l = inr (IsFrom-IsGivenAt ms c now f l)

  usable-IsGivenAt :
      (tokens : List TokenResponse) (cached : Option CachedToken) (now : ℕ) (text : List ℕ)
      → IsCached tokens cached
      → usable cached now ≡ some text
      → IsGivenAt tokens now text
  unfolding usable
  usable-IsGivenAt tokens none now text c u = cc
  usable-IsGivenAt tokens (some c) now text (from, _) u =
      let same : c.access_token ≡ text = ground arith in
      subst (IsGivenAt tokens now) same (IsFrom-IsGivenAt tokens c now from (ground arith))

  fresh-IsGivenAt :
      (tokens : List TokenResponse) (cached : Option CachedToken) (now : ℕ) (text : List ℕ)
      → IsCached tokens cached
      → fresh cached now ≡ some text
      → IsGivenAt tokens now text
  unfolding fresh
  fresh-IsGivenAt tokens none now text c u = cc
  fresh-IsGivenAt tokens (some c) now text (from, early) u =
      let same : c.access_token ≡ text = ground arith in
      subst (IsGivenAt tokens now) same (IsFrom-IsGivenAt tokens c now from (ground arith))

  answer-IsEnded :
      (tokens : List TokenResponse) (cached : Option CachedToken) (now : ℕ) (error : KmsJwtError H)
      → IsCached tokens cached
      → IsEnded tokens (done now (answer H (usable cached now) error))
  unfolding answer
  answer-IsEnded tokens cached now error c =
      go (usable cached now) (usable-IsGivenAt tokens cached now)
    where
      go :
          (o : Option (List ℕ))
          → ((text : List ℕ) → IsCached tokens cached → o ≡ some text → IsGivenAt tokens now text)
          → IsEnded tokens (done now (answer H o error))
      go none f = tt
      go (some text) f = f text c refl

  settled-IsEnded :
      (s : AuthState H) (now : ℕ) (is_open : Bool) (result : Result (List ℕ) (KmsJwtError H))
      → IsCached s.tokens s.cached
      → settled H s now is_open ≡ some result
      → IsEnded s.tokens (done now result)
  unfolding settled
  settled-IsEnded s now is_open result c e = elim (Option-cases (fresh s.cached now)) [
    | inr (text, f) ↦
        subst (λ r. IsEnded s.tokens (done now r)) {x = ok text} {y = result} (ground arith)
          (fresh-IsGivenAt s.tokens s.cached now text c f)
    | inl f ↦ elim (Option-cases (mint_wait s.mint_not_before now)) [
      | inr (wait, w) ↦
          subst (λ r. IsEnded s.tokens (done now r))
            {x = answer H (usable s.cached now) (token_status 429 (some wait))} {y = result}
            (ground arith) (answer-IsEnded s.tokens s.cached now (token_status 429 (some wait)) c)
      | inl w ↦
          subst (λ r. IsEnded s.tokens (done now r)) {x = err not_sent} {y = result} (ground arith)
            tt
    ]
  ]

  enter-IsSafe :
      (s : AuthState H) (now : ℕ) (is_open : Bool)
      → IsCached s.tokens s.cached
      → IsSafe (enter H s now is_open)
  unfolding enter begun
  enter-IsSafe s now is_open c = elim (Option-cases (settled H s now is_open)) [
    | inl e ↦
        subst IsSafe {x = record (begun H s now) { phase = minting }} {y = enter H s now is_open}
          (ground arith) (c, tt)
    | inr (result, e) ↦
        subst IsSafe {x = record s { phase = done now result }} {y = enter H s now is_open}
          (ground arith) (c, settled-IsEnded s now is_open result c e)
  ]

  looked-IsSafe :
      (s : AuthState H) (now : ℕ) (is_open : Bool) (token : Option (List ℕ))
      → IsCached s.tokens s.cached
      → ((text : List ℕ) → token ≡ some text → IsGivenAt s.tokens now text)
      → IsSafe (looked H s now is_open token)
  unfolding looked
  looked-IsSafe s now is_open (some token) c f = (c, f token refl)
  looked-IsSafe s now is_open none c f = elim (Bool-cases s.busy) [
    | inr b ↦
        subst IsSafe {x = enter H s now is_open} {y = looked H s now is_open none} (ground arith)
          (enter-IsSafe s now is_open c)
    | inl b ↦ elim (Option-cases (usable s.cached now)) [
      | inl u ↦
          subst IsSafe {x = record s { phase = waiting }} {y = looked H s now is_open none}
            (ground arith) (c, tt)
      | inr (token, u) ↦
          subst IsSafe {x = record s { phase = done now (ok token) }}
            {y = looked H s now is_open none} (ground arith)
            (c, usable-IsGivenAt s.tokens s.cached now token c u)
    ]
  ]

  store-IsCached :
      (s : AuthState H) (token : TokenResponse)
      → IsCached (store H s token).tokens (store H s token).cached
  unfolding store cached_of
  store-IsCached s token = (inl (refl, refl), omega arith)

  IsEnded-cons :
      (token : TokenResponse) (tokens : List TokenResponse) (ph : Phase H)
      → IsEnded tokens ph
      → IsEnded (token ∷ tokens) ph
  IsEnded-cons token tokens (done now (ok text)) e = inr e
  IsEnded-cons token tokens (done now (err error)) e = tt
  IsEnded-cons token tokens looking e = tt
  IsEnded-cons token tokens waiting e = tt
  IsEnded-cons token tokens minting e = tt

  store-IsSafe : (s : AuthState H) (token : TokenResponse) → IsSafe s → IsSafe (store H s token)
  unfolding store
  store-IsSafe s token (c, e) = (store-IsCached s token, IsEnded-cons token s.tokens s.phase e)

  limited-IsSafe :
      (s : AuthState H) (now : ℕ) (error : KmsJwtError H)
      → IsSafe s
      → IsSafe (limited H s now error)
  unfolding limited
  limited-IsSafe s now error i =
      let delay =
        min (max (or_zero (retry_after error)) failed_mint_backoff) max_retry_after_hold in
      if-IsSafe (is_rate_limited error)
        (record s {
          mint_not_before = some (now, delay);
          events = rate_limited now delay ∷ s.events;
        })
        s i i
    where
      if-IsSafe : (b : Bool) (x y : AuthState H) → IsSafe x → IsSafe y → IsSafe (if b then x else y)
      if-IsSafe true x y p q = p
      if-IsSafe false x y p q = q

  defer_next_refresh-IsCached :
      (tokens : List TokenResponse) (cached : Option CachedToken) (now hint : ℕ)
      → IsCached tokens cached
      → IsCached tokens (defer_next_refresh cached now hint)
  unfolding defer_next_refresh
  defer_next_refresh-IsCached tokens none now hint c = tt
  defer_next_refresh-IsCached tokens (some token) now hint c = (c.0, omega arith)

  deferred-IsSafe :
      (s : AuthState H) (now : ℕ) (error : KmsJwtError H)
      → IsSafe s
      → IsSafe (deferred H s now error)
  unfolding deferred
  deferred-IsSafe s now error (c, e) = elim (Option-cases (usable s.cached now)) [
    | inl u ↦ subst IsSafe {x = s} {y = deferred H s now error} (ground arith) (c, e)
    | inr (token, u) ↦
        subst IsSafe
          {x = record s { cached = defer_next_refresh s.cached now (or_zero (retry_after error)) }}
          {y = deferred H s now error} (ground arith)
          (defer_next_refresh-IsCached s.tokens s.cached now (or_zero (retry_after error)) c, e)
  ]

  other_entered-IsSafe :
      (s : AuthState H) (now : ℕ) (is_open : Bool)
      → IsSafe s
      → Holds H IsSafe (other_entered H s now is_open)
  unfolding other_entered begun
  other_entered-IsSafe s now is_open i = elim (Option-cases (settled H s now is_open)) [
    | inl e ↦
        subst (Holds H IsSafe) {x = some (record (begun H s now) { busy = true })}
          {y = other_entered H s now is_open} (ground arith) i
    | inr (result, e) ↦
        subst (Holds H IsSafe) {x = none} {y = other_entered H s now is_open} (ground arith) tt
  ]

  limited-tokens :
      (s : AuthState H) (now : ℕ) (error : KmsJwtError H)
      → (limited H s now error).tokens ≡ s.tokens
  unfolding limited
  limited-tokens s now error = ground arith

  deferred-tokens :
      (s : AuthState H) (now : ℕ) (error : KmsJwtError H)
      → (deferred H s now error).tokens ≡ s.tokens
  unfolding deferred
  deferred-tokens s now error = ground arith

  -- A failed mint answers with the token that was usable before it.
  failed-IsSafe :
      (s : AuthState H) (now : ℕ) (error : KmsJwtError H)
      → IsSafe s
      → IsSafe (record (deferred H (limited H s now error) now error) {
        phase = done now (answer H (usable s.cached now) error);
      })
  failed-IsSafe s now error i =
      let kept = deferred-IsSafe (limited H s now error) now error (limited-IsSafe s now error i) in
      let same = deferred-tokens (limited H s now error) now error ∙ limited-tokens s now error in
      (
        kept.0,
        subst (λ tokens. IsEnded tokens (done now (answer H (usable s.cached now) error)))
            (sym same) (answer-IsEnded s.tokens s.cached now error i.0),
      )

  moved-IsSafe :
      (m : Move H) (ph : Phase H) (s : AuthState H) → IsSafe s → Holds H IsSafe (moved H m ph s)
  unfolding moved store
  moved-IsSafe (own now is_open) looking s i =
      looked-IsSafe s now is_open (fresh s.cached now) i.0
        (λ text f. fresh-IsGivenAt s.tokens s.cached now text i.0 f)
  moved-IsSafe (own now is_open) waiting s i =
      if-Holds H IsSafe s.busy none (some (enter H s now is_open)) tt
        (enter-IsSafe s now is_open i.0)
  moved-IsSafe (minted token) minting s i = (store-IsCached s token, inl (refl, inl refl))
  moved-IsSafe (failed now error) minting s i = failed-IsSafe s now error i
  moved-IsSafe (other_begin now is_open) ph s i = if-Holds H IsSafe s.busy none _ tt (
      if-Holds H IsSafe (is_minting H ph) none (other_entered H s now is_open) tt
        (other_entered-IsSafe s now is_open i))
  moved-IsSafe (other_minted token) ph s i =
      if-Holds H IsSafe s.busy _ none (store-IsSafe s token i) tt
  moved-IsSafe (other_failed now error) ph s i =
      if-Holds H IsSafe s.busy _ none
        (deferred-IsSafe (limited H s now error) now error (limited-IsSafe s now error i)) tt
  moved-IsSafe _ _ s i = tt

  -- Under any schedule, and at whatever times, a token that the request is given was minted by the
  -- endpoint, either at that instant or earlier, with more than ten seconds left of the lifetime that it
  -- stated, of which one hour counts at most.
  pub run-IsEnded :
      (ms : List (Move H)) → IsEnded (run H (start H) ms).tokens (run H (start H) ms).phase
  run-IsEnded ms =
      (run-keeps H IsSafe (λ s m i. moved-IsSafe m s.phase s i) (start H) ms (tt, tt)).1
