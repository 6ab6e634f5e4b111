-- ===== src/Gateway/Identity/Trust.antt =====
-- Where the key that a request is given comes from.
use st0x_alpaca.Prelude.{
  ℕ, ◌≡◌, inl, inr, refl, Bool, true, false, List, [], ◌∷◌, Option, none, some, Any, arith, ok, err,
  Bool-cases, subst, ap, ◌∙◌,
}
use st0x_alpaca.Gateway.Identity.{Jwt, unknown_key}
use st0x_alpaca.Gateway.Identity.Keys.{
  KeySet, CachedKeys, key_in, cached_key, holds_fresh, is_cold, is_recent, Phase, done, attempting,
  looking, checking, fetching, looking_again, KeyState, start, Move, own, other_attempt, fetch,
  other_store, fetch_failed, store, attempted, found, unfetched, moved, run,
}
use st0x_alpaca.Gateway.Identity.Laws.{Holds, run-keeps}

module _ (J : Jwt) (kid : List ℕ) where
  -- A key of the id, in a set that was fetched.
  abbrev pub IsFetched : List (KeySet J) → J.Key → Type 0
  IsFetched fetched key = Any (λ set. key_in J kid set ≡ some key) fetched

  abbrev IsCachedIn : List (KeySet J) → Option (CachedKeys J) → Type 0
  IsCachedIn fetched none = Unit
  IsCachedIn fetched (some cached) = Any (λ set. set ≡ cached.keys) fetched

  abbrev pub IsGiven : List (KeySet J) → Phase J → Type 0
  IsGiven fetched (done (ok key)) = IsFetched fetched key
  IsGiven fetched _ = Unit

  abbrev IsTraced : KeyState J → Type 0
  IsTraced s = IsCachedIn s.fetched s.keys × IsGiven s.fetched s.phase

  cached_key-IsFetched :
      (fetched : List (KeySet J)) (cached : CachedKeys J) (allow_stale : Bool) (now : ℕ)
      (key : J.Key)
      → IsCachedIn fetched (some cached)
      → cached_key J (some cached) kid allow_stale now ≡ some key
      → IsFetched fetched key
  unfolding cached_key
  cached_key-IsFetched [] cached allow_stale now key c e = c
  cached_key-IsFetched (set ∷ sets) cached allow_stale now key (inl same) e =
      let held : key_in J kid cached.keys ≡ some key = ground arith in
      inl (ap (key_in J kid) same ∙ held)
  cached_key-IsFetched (set ∷ sets) cached allow_stale now key (inr later) e =
      inr (cached_key-IsFetched sets cached allow_stale now key later e)

  cached-IsFetched :
      (fetched : List (KeySet J)) (keys : Option (CachedKeys J)) (allow_stale : Bool) (now : ℕ)
      (key : J.Key)
      → IsCachedIn fetched keys
      → cached_key J keys kid allow_stale now ≡ some key
      → IsFetched fetched key
  unfolding cached_key
  cached-IsFetched fetched none allow_stale now key c e = cc
  cached-IsFetched fetched (some cached) allow_stale now key c e =
      cached_key-IsFetched fetched cached allow_stale now key c e

  found-IsTraced :
      (s : KeyState J) (key : Option J.Key) (missed : Phase J)
      → IsCachedIn s.fetched s.keys
      → ((k : J.Key) → key ≡ some k → IsFetched s.fetched k)
      → IsGiven s.fetched missed
      → IsTraced (found J s key missed)
  unfolding found
  found-IsTraced s none missed c f g = (c, g)
  found-IsTraced s (some key) missed c f g = (c, f key refl)

  -- `is_recent` does not change the keys.
  attempted-IsTraced :
      (s : KeyState J) (now : ℕ) (refused taken : Phase J)
      → IsCachedIn s.fetched s.keys
      → IsGiven s.fetched refused
      → IsGiven s.fetched taken
      → IsTraced (attempted J s now refused taken)
  unfolding attempted
  attempted-IsTraced s now refused taken c r t =
      elim (Bool-cases (is_recent J s.last_refresh_attempt now)) [
        | inl e ↦
            subst IsTraced {x = record s { phase = refused }} {y = attempted J s now refused taken}
              (ground arith) (c, r)
        | inr e ↦
            subst IsTraced
              {x = record s {
                phase = taken;
                last_refresh_attempt = some now;
                attempts = now ∷ s.attempts;
              }}
              {y = attempted J s now refused taken} (ground arith) (c, t)
      ]

  IsGiven-cons :
      (set : KeySet J) (fetched : List (KeySet J)) (ph : Phase J)
      → IsGiven fetched ph
      → IsGiven (set ∷ fetched) ph
  IsGiven-cons set fetched (done (ok key)) g = inr g
  IsGiven-cons set fetched (done (err e)) g = tt
  IsGiven-cons set fetched looking g = tt
  IsGiven-cons set fetched checking g = tt
  IsGiven-cons set fetched fetching g = tt
  IsGiven-cons set fetched looking_again g = tt
  IsGiven-cons set fetched (attempting cold) g = tt

  unfetched-IsGiven : (fetched : List (KeySet J)) (cold : Bool) → IsGiven fetched (unfetched J cold)
  unfolding unfetched
  unfetched-IsGiven fetched true = tt
  unfetched-IsGiven fetched false = tt

  moved-IsTraced :
      (s : KeyState J) (ph : Phase J) (m : Move J)
      → IsCachedIn s.fetched s.keys
      → IsGiven s.fetched ph
      → Holds J kid IsTraced (moved J kid m ph s)
  unfolding moved store
  moved-IsTraced s ph (other_attempt now) c g = attempted-IsTraced s now ph ph c g g
  moved-IsTraced s ph (other_store first keys now) c g =
      (inl refl, IsGiven-cons (first ∷ keys) s.fetched ph g)
  moved-IsTraced s looking (own now) c g =
      found-IsTraced s (cached_key J s.keys kid false now) checking c
        (λ k e. cached-IsFetched s.fetched s.keys false now k c e) tt
  moved-IsTraced s checking (own now) c g = elim (Bool-cases (holds_fresh J s.keys kid now)) [
    | inl h ↦
        subst (Holds J kid IsTraced) {x = some (record s { phase = looking_again })} (ground arith)
          (c, tt)
    | inr h ↦
        subst (Holds J kid IsTraced) {x = some (record s { phase = attempting (is_cold J s.keys) })}
          (ground arith) (c, tt)
  ]
  moved-IsTraced s (attempting cold) (own now) c g =
      attempted-IsTraced s now (unfetched J cold) fetching c (unfetched-IsGiven s.fetched cold) tt
  moved-IsTraced s looking_again (own now) c g =
      found-IsTraced s (cached_key J s.keys kid true now) (done (err unknown_key)) c
        (λ k e. cached-IsFetched s.fetched s.keys true now k c e) tt
  moved-IsTraced s fetching (fetch first keys now) c g = (inl refl, tt)
  moved-IsTraced s fetching fetch_failed c g = (c, unfetched-IsGiven s.fetched (is_cold J s.keys))
  moved-IsTraced s _ _ c g = tt

  -- From a cold start and under any schedule, a key that a request is given for a key id is the key of that
  -- id in a key set that was fetched.
  pub run-IsGiven :
      (last : Option ℕ) (ms : List (Move J))
      → IsGiven (run J kid (start J none last) ms).fetched (run J kid (start J none last) ms).phase
  unfolding start
  run-IsGiven last ms =
      (run-keeps J kid IsTraced (λ s m (c, g). moved-IsTraced s s.phase m c g) (start J none last)
        ms (tt, tt)).1
