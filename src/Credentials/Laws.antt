-- ===== src/Credentials/Laws.antt =====
-- What the mints of src/auth.rs keep to, under any schedule of the requests that share a token cache.
use st0x_alpaca.Prelude.{
  ℕ, ◌+◌, ◌≤◌, ◌≡◌, refl, Bool, true, false, List, [], ◌∷◌, Option, none, some, arith, ok,
  Option-cases, Bool-cases, inl, inr, subst, min, max, if◌then◌else◌,
}
use st0x_alpaca.Errors.Http.{Http}
use st0x_alpaca.Errors.Jwt.{KmsJwtError, is_rate_limited, retry_after}
use st0x_alpaca.Credentials.{
  fresh, usable, mint_wait, Event, mint_started, rate_limited, Phase, looking, waiting, minting,
  done, AuthState, start, Move, own, other_begin, minted, other_minted, failed, other_failed, store,
  limited, deferred, settled, begun, enter, looked, other_entered, is_minting, moved, step, run,
  failed_mint_backoff, or_zero, defer_next_refresh,
}
use st0x_alpaca.Retry.{max_retry_after_hold}

module _ (H : Http) where
  -- `P` of the state that a move gives, if it gives one.
  abbrev pub Holds : (AuthState H → Type 0) → Option (AuthState H) → Type 0
  Holds P none = Unit
  Holds P (some s) = P s

  -- What every move keeps, every schedule keeps.
  pub run-keeps :
      (P : AuthState H → Type 0)
      → ((s : AuthState H) (m : Move H) → P s → Holds P (step H s m))
      → (s : AuthState H) (ms : List (Move H)) → P s
      → P (run H s ms)
  run-keeps P keeps s [] i = i
  run-keeps P keeps s (m ∷ ms) i =
      next (step H s m) (λ s' i'. run-keeps P keeps s' ms i') (keeps s m i)
    where
      next :
          (o : Option (AuthState H))
          → ((s' : AuthState H) → P s' → P (run H s' ms))
          → Holds P o
          → P (elim o [ none ↦ run H s ms | some s' ↦ run H s' ms ])
      next none rest h = rest s i
      next (some s') rest h = rest s' h

  -- The last rate limit, and its delay.
  abbrev pub last_limit : List Event → Option (ℕ × ℕ)
  last_limit [] = none
  last_limit (rate_limited now delay ∷ events) = some (now, delay)
  last_limit (mint_started now ∷ events) = last_limit events

  abbrev pub IsPast : ℕ → Option (ℕ × ℕ) → Type 0
  IsPast now none = Unit
  IsPast now (some (started, delay)) = started + delay ≤ now

  -- Each mint starts when the delay of the last rate limit before it is over; that delay is from fifteen
  -- seconds to the longest hold.
  abbrev pub IsHonoured : List Event → Type 0
  IsHonoured [] = Unit
  IsHonoured (mint_started now ∷ events) = IsPast now (last_limit events) × IsHonoured events
  IsHonoured (rate_limited now delay ∷ events) =
      (failed_mint_backoff ≤ delay) × (delay ≤ max_retry_after_hold) × IsHonoured events

  abbrev IsHeld : AuthState H → Type 0
  IsHeld s = IsHonoured s.events × (s.mint_not_before ≡ last_limit s.events)

  abbrev IsLong : Option (ℕ × ℕ) → Type 0
  IsLong none = Unit
  IsLong (some (_, delay)) = failed_mint_backoff ≤ delay

  last_limit-IsLong : (events : List Event) → IsHonoured events → IsLong (last_limit events)
  last_limit-IsLong [] h = tt
  last_limit-IsLong (mint_started now ∷ events) h = last_limit-IsLong events h.1
  last_limit-IsLong (rate_limited now delay ∷ events) h = h.0

  mint_wait-IsPast :
      (limit : Option (ℕ × ℕ)) (now : ℕ)
      → mint_wait limit now ≡ none
      → IsLong limit
      → IsPast now limit
  unfolding mint_wait
  mint_wait-IsPast none now w l = tt
  mint_wait-IsPast (some (started, delay)) now w l = ground arith

  settled-mint_wait :
      (s : AuthState H) (now : ℕ) (is_open : Bool)
      → settled H s now is_open ≡ none
      → (mint_wait s.mint_not_before now ≡ none) × (is_open ≡ true)
  unfolding settled
  settled-mint_wait s now is_open e = ground arith

  -- A mint that the section under the lock lets begin.
  begun-IsHeld :
      (s : AuthState H) (now : ℕ) (is_open : Bool)
      → settled H s now is_open ≡ none
      → IsHeld s
      → IsHeld (begun H s now)
  unfolding begun
  begun-IsHeld s now is_open e (honoured, last) =
      let free = (settled-mint_wait s now is_open e).0 in
      let past =
        mint_wait-IsPast (last_limit s.events) now (subst (λ l. mint_wait l now ≡ none) last free)
          (last_limit-IsLong s.events honoured) in
      ((past, honoured), last)

  enter-IsHeld :
      (s : AuthState H) (now : ℕ) (is_open : Bool) → IsHeld s → IsHeld (enter H s now is_open)
  unfolding enter
  enter-IsHeld s now is_open i = elim (Option-cases (settled H s now is_open)) [
    | inl e ↦
        subst IsHeld {x = record (begun H s now) { phase = minting }} {y = enter H s now is_open}
          (ground arith) (begun-IsHeld s now is_open e i)
    | inr (result, e) ↦
        subst IsHeld {x = record s { phase = done now result }} {y = enter H s now is_open}
          (ground arith) i
  ]

  looked-IsHeld :
      (s : AuthState H) (now : ℕ) (is_open : Bool) (token : Option (List ℕ))
      → IsHeld s
      → IsHeld (looked H s now is_open token)
  unfolding looked
  looked-IsHeld s now is_open (some token) i = i
  looked-IsHeld s now is_open none i = elim (Bool-cases s.busy) [
    | inr b ↦
        subst IsHeld {x = enter H s now is_open} {y = looked H s now is_open none} (ground arith)
          (enter-IsHeld s now is_open i)
    | inl b ↦ elim (Option-cases (usable s.cached now)) [
      | inl u ↦
          subst IsHeld {x = record s { phase = waiting }} {y = looked H s now is_open none}
            (ground arith) i
      | inr (token, u) ↦
          subst IsHeld {x = record s { phase = done now (ok token) }}
            {y = looked H s now is_open none} (ground arith) i
    ]
  ]

  limited-IsHeld :
      (s : AuthState H) (now : ℕ) (error : KmsJwtError H)
      → IsHeld s
      → IsHeld (limited H s now error)
  unfolding limited
  limited-IsHeld s now error (honoured, last) =
      let delay =
        min (max (or_zero (retry_after error)) failed_mint_backoff) max_retry_after_hold in
      elim (Bool-cases (is_rate_limited error)) [
        | inr r ↦ subst IsHeld {x = s} {y = limited H s now error} (ground arith) (honoured, last)
        | inl r ↦
            subst IsHeld
              {x = record s {
                mint_not_before = some (now, delay);
                events = rate_limited now delay ∷ s.events;
              }}
              {y = limited H s now error} (ground arith)
              ((omega arith, omega arith, honoured), refl)
      ]

  deferred-IsHeld :
      (s : AuthState H) (now : ℕ) (error : KmsJwtError H)
      → IsHeld s
      → IsHeld (deferred H s now error)
  unfolding deferred
  deferred-IsHeld s now error i = elim (Option-cases (usable s.cached now)) [
    | inl u ↦ subst IsHeld {x = s} {y = deferred H s now error} (ground arith) i
    | inr (token, u) ↦
        subst IsHeld
          {x = record s { cached = defer_next_refresh s.cached now (or_zero (retry_after error)) }}
          {y = deferred H s now error} (ground arith) i
  ]

  other_entered-IsHeld :
      (s : AuthState H) (now : ℕ) (is_open : Bool)
      → IsHeld s
      → Holds IsHeld (other_entered H s now is_open)
  unfolding other_entered
  other_entered-IsHeld s now is_open i = elim (Option-cases (settled H s now is_open)) [
    | inl e ↦
        subst (Holds IsHeld) {x = some (record (begun H s now) { busy = true })}
          {y = other_entered H s now is_open} (ground arith) (begun-IsHeld s now is_open e i)
    | inr (result, e) ↦
        subst (Holds IsHeld) {x = none} {y = other_entered H s now is_open} (ground arith) tt
  ]

  pub if-Holds :
      (P : AuthState H → Type 0) (b : Bool) (x y : Option (AuthState H))
      → Holds P x
      → Holds P y
      → Holds P (if b then x else y)
  if-Holds P true x y p q = p
  if-Holds P false x y p q = q

  moved-IsHeld :
      (m : Move H) (ph : Phase H) (s : AuthState H) → IsHeld s → Holds IsHeld (moved H m ph s)
  unfolding moved store
  moved-IsHeld (own now is_open) looking s i = looked-IsHeld s now is_open (fresh s.cached now) i
  moved-IsHeld (own now is_open) waiting s i =
      if-Holds IsHeld s.busy none (some (enter H s now is_open)) tt (enter-IsHeld s now is_open i)
  moved-IsHeld (minted token) minting s i = i
  moved-IsHeld (failed now error) minting s i =
      deferred-IsHeld (limited H s now error) now error (limited-IsHeld s now error i)
  moved-IsHeld (other_begin now is_open) ph s i = if-Holds IsHeld s.busy none _ tt (
      if-Holds IsHeld (is_minting H ph) none (other_entered H s now is_open) tt
        (other_entered-IsHeld s now is_open i))
  moved-IsHeld (other_minted token) ph s i = if-Holds IsHeld s.busy _ none i tt
  moved-IsHeld (other_failed now error) ph s i =
      if-Holds IsHeld s.busy _ none
        (deferred-IsHeld (limited H s now error) now error (limited-IsHeld s now error i)) tt
  moved-IsHeld _ _ s i = tt

  -- Under any schedule, and at whatever times, no mint starts before the delay of the last rate limit is
  -- over, whoever met it; and the delay is no less than fifteen seconds and no more than five minutes.
  pub run-IsHonoured : (ms : List (Move H)) → IsHonoured (run H (start H) ms).events
  run-IsHonoured ms =
      (run-keeps IsHeld (λ s m i. moved-IsHeld m s.phase s i) (start H) ms (tt, refl)).0
