-- ===== src/Gateway/Identity/Supply.antt =====
-- When a verifier has keys.
use st0x_alpaca.Prelude.{
  ℕ, ◌≡◌, inl, inr, refl, true, false, List, ◌∷◌, Option, none, some, arith, err, Bool-cases, subst,
}
use st0x_alpaca.Gateway.Identity.{Jwt, keys_unavailable, unknown_key}
use st0x_alpaca.Gateway.Identity.Keys.{
  CachedKeys, cached_key, holds_fresh, is_cold, is_recent, Phase, done, attempting, looking,
  checking, fetching, looking_again, KeyState, start, Move, own, other_attempt, fetch, other_store,
  fetch_failed, store, attempted, found, unfetched, moved, run,
}
use st0x_alpaca.Gateway.Identity.Laws.{Holds, run-keeps}

module _ (J : Jwt) (kid : List ℕ) where
  -- Not failed for want of keys, and not about to.
  abbrev pub IsSupplied : Phase J → Type 0
  IsSupplied (done (err keys_unavailable)) = ⊥
  IsSupplied (attempting true) = ⊥
  IsSupplied _ = Unit

  abbrev IsWarm : KeyState J → Type 0
  IsWarm s = (is_cold J s.keys ≡ false) × IsSupplied s.phase

  found-IsWarm :
      (s : KeyState J) (key : Option J.Key) (missed : Phase J)
      → is_cold J s.keys ≡ false
      → IsSupplied missed
      → IsWarm (found J s key missed)
  unfolding found
  found-IsWarm s none missed c g = (c, g)
  found-IsWarm s (some key) missed c g = (c, tt)

  attempted-IsWarm :
      (s : KeyState J) (now : ℕ) (refused taken : Phase J)
      → is_cold J s.keys ≡ false
      → IsSupplied refused
      → IsSupplied taken
      → IsWarm (attempted J s now refused taken)
  unfolding attempted
  attempted-IsWarm s now refused taken c r t =
      elim (Bool-cases (is_recent J s.last_refresh_attempt now)) [
        | inl e ↦
            subst IsWarm {x = record s { phase = refused }} {y = attempted J s now refused taken}
              (ground arith) (c, r)
        | inr e ↦
            subst IsWarm
              {x = record s {
                phase = taken;
                last_refresh_attempt = some now;
                attempts = now ∷ s.attempts;
              }}
              {y = attempted J s now refused taken} (ground arith) (c, t)
      ]

  moved-IsWarm :
      (s : KeyState J) (ph : Phase J) (m : Move J)
      → is_cold J s.keys ≡ false
      → IsSupplied ph
      → Holds J kid IsWarm (moved J kid m ph s)
  unfolding moved store is_cold unfetched
  moved-IsWarm s ph (other_attempt now) c g = attempted-IsWarm s now ph ph c g g
  moved-IsWarm s ph (other_store first keys now) c g = (refl, g)
  moved-IsWarm s looking (own now) c g =
      found-IsWarm s (cached_key J s.keys kid false now) checking c tt
  moved-IsWarm s checking (own now) c g = elim (Bool-cases (holds_fresh J s.keys kid now)) [
    | inl h ↦
        subst (Holds J kid IsWarm) {x = some (record s { phase = looking_again })} (ground arith)
          (c, tt)
    | inr h ↦
        subst (Holds J kid IsWarm) {x = some (record s { phase = attempting false })} (ground arith)
          (c, tt)
  ]
  moved-IsWarm s (attempting true) (own now) c g = elim g [ ]
  moved-IsWarm s (attempting false) (own now) c g =
      attempted-IsWarm s now looking_again fetching c tt tt
  moved-IsWarm s looking_again (own now) c g =
      found-IsWarm s (cached_key J s.keys kid true now) (done (err unknown_key)) c tt
  moved-IsWarm s fetching (fetch first keys now) c g = (refl, tt)
  moved-IsWarm s fetching fetch_failed c g =
      subst (Holds J kid IsWarm) {x = some (record s { phase = looking_again })}
        {y = moved J kid fetch_failed fetching s} (ground arith) (c, tt)
  moved-IsWarm s _ _ c g = tt

  -- Once a verifier has keys, it keeps some under any schedule, failed fetches among it, and a request
  -- that begins then never fails for want of them.
  pub run-IsSupplied :
      (cached : CachedKeys J) (last : Option ℕ) (ms : List (Move J))
      → (is_cold J (run J kid (start J (some cached) last) ms).keys ≡ false)
        × IsSupplied (run J kid (start J (some cached) last) ms).phase
  unfolding start is_cold
  run-IsSupplied cached last ms =
      run-keeps J kid IsWarm (λ s m (c, g). moved-IsWarm s s.phase m c g)
        (start J (some cached) last) ms (refl, tt)
