-- ===== src/Gateway/Identity/Caller.antt =====
-- What an identified caller of crates/gateway/src/auth.rs has shown.
use st0x_alpaca.Prelude.{
  ℕ, ◌≡◌, inl, inr, true, List, [], ◌∷◌, ◌++◌, any, Any, Option, none, some, same_bytes,
  same_bytes-eq, arith, Result, ok, ◌>>=◌, Bool-cases, Result-cases, Option-cases, codes, is_prefix,
  drop, length, ap, subst, sym, ◌∙◌, refl,
}
use st0x_alpaca.Catalog.Access.{Tier, bot, read, write}
use st0x_alpaca.Gateway.Identity.{
  Jwt, Claims, Principal, TokenError, TokenVerifier, textual, bearer, token, is_allowed, claimed,
  verify, refused, identify,
}
use st0x_alpaca.Gateway.Identity.Keys.{KeyState, Move, start, run, done}
use st0x_alpaca.Gateway.Identity.Trust.{IsFetched, IsGiven, run-IsGiven}

abbrev pub IsAllowed : Option (List (List ℕ)) → List ℕ → Type 0
IsAllowed none subject = Unit
IsAllowed (some allowed) subject = Any (λ a. subject ≡ a) allowed

any-Any :
    (subject : List ℕ) (allowed : List (List ℕ))
    → any (same_bytes subject) allowed ≡ true
    → Any (λ a. subject ≡ a) allowed
any-Any subject [] h = cc
any-Any subject (a ∷ as_) h = elim (Bool-cases (same_bytes subject a)) [
  | inl e ↦ inl (same_bytes-eq subject a e)
  | inr e ↦ inr (any-Any subject as_ (ground arith))
]

is_prefix-drop : (p xs : List ℕ) → is_prefix p xs ≡ true → p ++ drop (length p) xs ≡ xs
unfolding is_prefix
is_prefix-drop [] xs h = refl
is_prefix-drop (p ∷ ps) [] h = cc
is_prefix-drop (p ∷ ps) (x ∷ xs) h = ground (arith, is_prefix-drop ps xs)

-- The header that a tier's token comes in, with what the header holds.
abbrev pub header_of : Tier → List ℕ
header_of bot = codes "authorization"
header_of read = codes "x-goog-iap-jwt-assertion"
header_of write = codes "x-goog-iap-jwt-assertion"

abbrev pub scheme_of : Tier → List ℕ
scheme_of bot = codes "Bearer "
scheme_of read = []
scheme_of write = []

abbrev pub Carries : Tier → (List ℕ → Option (Option (List ℕ))) → List ℕ → Type 0
Carries tier headers text = headers (header_of tier) ≡ some (some (scheme_of tier ++ text))

textual-ok :
    (o : Option (Option (List ℕ))) (text : List ℕ) → textual o ≡ ok text → o ≡ some (some text)
unfolding textual
textual-ok o text e = ground arith

bearer-ok : (whole text : List ℕ) → bearer whole ≡ ok text → codes "Bearer " ++ text ≡ whole
unfolding bearer
bearer-ok whole text e = elim (Bool-cases (is_prefix (codes "Bearer ") whole)) [
  | inr p ↦ ground arith
  | inl p ↦
      let same : drop 7 whole ≡ text = ground arith in
      ap (λ t. codes "Bearer " ++ t) (sym same) ∙ is_prefix-drop (codes "Bearer ") whole p
]

token-Carries :
    (v : TokenVerifier) (headers : List ℕ → Option (Option (List ℕ))) (text : List ℕ)
    → token v headers ≡ ok text
    → Carries v.tier headers text
unfolding token
token-Carries v headers text e = go v.tier e
  where
    go :
        (t : Tier)
        → (elim t [
          | bot ↦ textual (headers (codes "authorization")) >>= bearer
          | read ↦ textual (headers (codes "x-goog-iap-jwt-assertion"))
          | write ↦ textual (headers (codes "x-goog-iap-jwt-assertion"))
        ])
          ≡ ok text
        → Carries t headers text
    go bot e = elim (Result-cases (textual (headers (codes "authorization")))) [
      | inr (failure, t) ↦ ground arith
      | inl (whole, t) ↦
          let same : codes "Bearer " ++ text ≡ whole = bearer-ok whole text (ground arith) in
          textual-ok (headers (codes "authorization")) whole t ∙ ap (λ w. some (some w)) (sym same)
    ]
    go read e = textual-ok (headers (codes "x-goog-iap-jwt-assertion")) text e
    go write e = textual-ok (headers (codes "x-goog-iap-jwt-assertion")) text e

module _ (J : Jwt) (v : TokenVerifier) (decoding_key : List ℕ → Result J.Key TokenError)
    (schedule : List ℕ → List (Move J)) where
  -- The keys and the request's place after the schedule of a key id, from the start of a verifier.
  abbrev pub after : List ℕ → KeyState J
  after kid = run J kid (start J none none) (schedule kid)

  -- A key that is given for a key id is what `decoding_key` ends with under the schedule.
  abbrev pub Decides : Type 0
  Decides =
      (kid : List ℕ) (key : J.Key) → decoding_key kid ≡ ok key → (after kid).phase ≡ done (ok key)

  abbrev pub IsClaimed : Principal → Option Claims → Type 0
  IsClaimed p none = ⊥
  IsClaimed p (some claims) = (p.subject ≡ claims.sub) × (p.email ≡ claims.email)

  -- The text names a key of a set that was fetched, and is valid for that key by the verifier's audience,
  -- issuers and algorithm, with the claims that the caller is known by.
  abbrev pub IsSigned : Principal → List ℕ → Type 0
  IsSigned p text =
      (kid : List ℕ) × (key : J.Key) × (J.decode_header text ≡ some (some kid))
      × IsFetched J kid (after kid).fetched key
      × IsClaimed p (J.decode text key v.validation)

  claimed-IsClaimed :
      (o : Option Claims) (p : Principal)
      → claimed J v.tier o ≡ ok p
      → (p.tier ≡ v.tier) × IsClaimed p o
  unfolding claimed
  claimed-IsClaimed o p e = ground arith

  given-IsFetched :
      (kid : List ℕ) (key : J.Key)
      → (after kid).phase ≡ done (ok key)
      → IsFetched J kid (after kid).fetched key
  given-IsFetched kid key e =
      subst (IsGiven J kid (after kid).fetched) e (run-IsGiven J kid none (schedule kid))

  verify-IsSigned :
      (text : List ℕ) (p : Principal)
      → Decides
      → verify J v decoding_key text ≡ ok p
      → (p.tier ≡ v.tier) × IsSigned p text
  unfolding verify
  verify-IsSigned text p decides e = elim (Option-cases (J.decode_header text)) [
    | inl n ↦ ground arith
    | inr (none, n) ↦ ground arith
    | inr (some kid, n) ↦ elim (Result-cases (decoding_key kid)) [
      | inr (failure, d) ↦ ground arith
      | inl (key, d) ↦
          let shown = claimed-IsClaimed (J.decode text key v.validation) p (ground arith) in
          (shown.0, (kid, key, n, given-IsFetched kid key (decides kid key d), shown.1))
    ]
  ]

  refused-IsAllowed :
      (r : Result Principal TokenError) (p : Principal)
      → refused J v r ≡ ok p
      → (r ≡ ok p) × (is_allowed v.allowed_subjects p.subject ≡ true)
  unfolding refused
  refused-IsAllowed r p e = ground arith

  allowed :
      (o : Option (List (List ℕ))) (subject : List ℕ)
      → is_allowed o subject ≡ true
      → IsAllowed o subject
  unfolding is_allowed
  allowed none subject h = tt
  allowed (some as_) subject h = any-Any subject as_ h

  -- A caller that is identified has the tier of the verifier, and a token in that tier's header, a bearer
  -- token in `authorization` for the bot and IAP's assertion for the human tiers. The token is valid by the
  -- verifier's audience, issuers and algorithm for a key, which is the key of the token's id in a key set
  -- that was fetched; its claims name the caller; and where the verifier has a list of subjects, the caller
  -- is on it. The keys are what `decoding_key` ends with under some schedule of the requests.
  pub identify-IsTokenOf :
      (headers : List ℕ → Option (Option (List ℕ))) (p : Principal)
      → Decides
      → identify J v decoding_key headers ≡ ok p
      → (p.tier ≡ v.tier)
        × ((text : List ℕ) × Carries v.tier headers text × IsSigned p text)
        × IsAllowed v.allowed_subjects p.subject
  unfolding identify
  identify-IsTokenOf headers p decides e =
      let (same, on_list) = refused-IsAllowed (token v headers >>= verify J v decoding_key) p e in
      elim (Result-cases (token v headers)) [
        | inr (failure, t) ↦ ground arith
        | inl (text, t) ↦
            let (tier, signed) = verify-IsSigned text p decides (ground arith) in
            (
              tier,
              (text, token-Carries v headers text t, signed),
              allowed v.allowed_subjects p.subject on_list,
            )
      ]
