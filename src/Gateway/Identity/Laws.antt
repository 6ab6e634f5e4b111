-- ===== src/Gateway/Identity/Laws.antt =====
-- How often the requests that share the keys of a verifier fetch them.
use st0x_alpaca.Prelude.{
  ℕ, ◌+◌, ◌≤◌, ◌≡◌, inl, inr, refl, true, false, List, [], ◌∷◌, Option, none, some, arith, err,
  Bool-cases, subst,
}
use st0x_alpaca.Gateway.Identity.{Jwt, unknown_key}
use st0x_alpaca.Gateway.Identity.Keys.{
  refresh_floor, CachedKeys, cached_key, holds_fresh, is_cold, is_recent, Phase, done, attempting,
  looking, checking, fetching, looking_again, KeyState, start, Move, own, other_attempt, fetch,
  other_store, fetch_failed, store, attempted, found, unfetched, moved, step, run,
}

module _ (J : Jwt) (kid : List ℕ) where
  -- `P` of the state that a move gives, if it gives one.
  abbrev pub Holds : (KeyState J → Type 0) → Option (KeyState J) → Type 0
  Holds P none = Unit
  Holds P (some s) = P s

  -- What every move keeps, every schedule keeps.
  pub run-keeps :
      (P : KeyState J → Type 0)
      → ((s : KeyState J) (m : Move J) → P s → Holds P (step J kid s m))
      → (s : KeyState J) (ms : List (Move J)) → P s
      → P (run J kid s ms)
  run-keeps P keeps s [] i = i
  run-keeps P keeps s (m ∷ ms) i =
      next (step J kid s m) (λ s' i'. run-keeps P keeps s' ms i') (keeps s m i)
    where
      next :
          (o : Option (KeyState J))
          → ((s' : KeyState J) → P s' → P (run J kid s' ms))
          → Holds P o
          → P (elim o [ none ↦ run J kid s ms | some s' ↦ run J kid s' ms ])
      next none rest h = rest s i
      next (some s') rest h = rest s' h

  -- Each attempt comes at least the floor after the one before it.
  abbrev pub IsSpaced : List ℕ → Type 0
  IsSpaced [] = Unit
  IsSpaced (a ∷ []) = Unit
  IsSpaced (a ∷ b ∷ as_) = (b + refresh_floor ≤ a) × IsSpaced (b ∷ as_)

  abbrev IsLast : List ℕ → Option ℕ → Type 0
  IsLast [] last = Unit
  IsLast (a ∷ _) last = last ≡ some a

  abbrev IsPaced : KeyState J → Type 0
  IsPaced s = IsSpaced s.attempts × IsLast s.attempts s.last_refresh_attempt

  cons-IsSpaced :
      (as_ : List ℕ) (last : Option ℕ) (now : ℕ)
      → IsSpaced as_
      → IsLast as_ last
      → is_recent J last now ≡ false
      → IsSpaced (now ∷ as_)
  unfolding is_recent
  cons-IsSpaced [] last now sp l r = tt
  cons-IsSpaced (a ∷ as_) none now sp l r = ground arith
  cons-IsSpaced (a ∷ as_) (some at) now sp l r = (ground arith, sp)

  attempted-IsPaced :
      (s : KeyState J) (now : ℕ) (refused taken : Phase J)
      → IsPaced s
      → IsPaced (attempted J s now refused taken)
  unfolding attempted
  attempted-IsPaced s now refused taken (spaced, last) =
      elim (Bool-cases (is_recent J s.last_refresh_attempt now)) [
        | inl r ↦
            subst IsPaced {x = record s { phase = refused }} {y = attempted J s now refused taken}
              (ground arith) (spaced, last)
        | inr r ↦
            subst IsPaced
              {x = record s {
                phase = taken;
                last_refresh_attempt = some now;
                attempts = now ∷ s.attempts;
              }}
              {y = attempted J s now refused taken} (ground arith)
              (cons-IsSpaced s.attempts s.last_refresh_attempt now spaced last r, refl)
      ]

  found-IsPaced :
      (s : KeyState J) (key : Option J.Key) (missed : Phase J)
      → IsPaced s
      → IsPaced (found J s key missed)
  unfolding found
  found-IsPaced s none missed i = i
  found-IsPaced s (some key) missed i = i

  moved-IsPaced :
      (s : KeyState J) (ph : Phase J) (m : Move J) → IsPaced s → Holds IsPaced (moved J kid m ph s)
  unfolding moved store
  moved-IsPaced s ph (other_attempt now) i = attempted-IsPaced s now ph ph i
  moved-IsPaced s ph (other_store first keys now) i = i
  moved-IsPaced s looking (own now) i =
      found-IsPaced s (cached_key J s.keys kid false now) checking i
  moved-IsPaced s checking (own now) i = elim (Bool-cases (holds_fresh J s.keys kid now)) [
    | inl h ↦ subst (Holds IsPaced) {x = some (record s { phase = looking_again })} (ground arith) i
    | inr h ↦
        subst (Holds IsPaced) {x = some (record s { phase = attempting (is_cold J s.keys) })}
          (ground arith) i
  ]
  moved-IsPaced s (attempting cold) (own now) i =
      attempted-IsPaced s now (unfetched J cold) fetching i
  moved-IsPaced s looking_again (own now) i =
      found-IsPaced s (cached_key J s.keys kid true now) (done (err unknown_key)) i
  moved-IsPaced s fetching (fetch first keys now) i = i
  moved-IsPaced s fetching fetch_failed i = i
  moved-IsPaced s _ _ i = tt

  -- Under any schedule of the requests of a verifier, and at whatever times, two attempts to fetch its
  -- keys are at least sixty seconds apart.
  pub run-IsSpaced :
      (keys : Option (CachedKeys J)) (last : Option ℕ) (ms : List (Move J))
      → IsSpaced (run J kid (start J keys last) ms).attempts
  unfolding start
  run-IsSpaced keys last ms =
      (run-keeps IsPaced (λ s m i. moved-IsPaced s s.phase m i) (start J keys last) ms (tt, tt)).0
