-- ===== src/Gateway/Identity.antt =====
-- crates/gateway/src/auth.rs: who the caller of a request is. A token is read by the JWT crate, the
-- interface `Jwt`, and a header is read by an argument: `none` if it is missing, `some none` if it is no
-- text. Instants are numbers of nanoseconds.
pub mod Keys
pub mod Laws
pub mod Trust
pub mod Supply
pub mod Caller
mod Tests
use st0x_alpaca.Prelude.{
  ℕ, Bool, true, false, not, List, [], ◌∷◌, any, map, Option, none, some, drop, if◌then◌else◌,
  codes, is_prefix, same_bytes, Result, ok, err, ◌>>=◌,
}
use st0x_alpaca.Catalog.Access.{Tier, bot, read, write}
use st0x_alpaca.Gateway.Failure.{Failure, ErrorCode, unauthenticated, forbidden, unavailable}
use st0x_alpaca.Gateway.Failure

pub data Algorithm : Type 0 where
  es256 rs256 : Algorithm

pub data KeyKind : Type 0 where
  ec rsa : KeyKind

pub record Validation : Type 0 where
  pub algorithm : Algorithm
  pub audience : List ℕ
  pub issuers : List (List ℕ)
  pub leeway : ℕ
  pub required_spec_claims : List (List ℕ)

pub record Claims : Type 0 where
  pub sub : List ℕ
  pub email : Option (List ℕ)

-- `decode_header` gives the key id of a token, if the token has a header at all; `decode` gives the
-- claims of a token that is valid for the key.
pub record Jwt : Type 1 where
  pub Key : Type 0
  pub decode_header : List ℕ → Option (Option (List ℕ))
  pub decode : List ℕ → Key → Validation → Option Claims

pub record Principal : Type 0 where
  pub tier : Tier
  pub subject : List ℕ
  pub email : Option (List ℕ)

pub record Refusal : Type 0 where
  pub failure : Failure
  pub principal : Principal

pub data TokenError : Type 0 where
  missing malformed keys_unavailable unknown_key rejected : TokenError

abbrev pub unverified_subject : List ℕ
unverified_subject = codes "unverified"

unfoldable pub unverified : Tier → Principal
unverified tier = record { tier = tier; subject = unverified_subject; email = none }

-- Its keys are the state of `Keys`.
pub record TokenVerifier : Type 0 where
  pub tier : Tier
  pub kind : KeyKind
  pub validation : Validation
  pub allowed_subjects : Option (List (List ℕ))

algorithm_of : KeyKind → Algorithm
algorithm_of ec = es256
algorithm_of rsa = rs256

unfoldable pub build :
    Tier → KeyKind → List (List ℕ) → List ℕ → Option (List (List ℕ)) → TokenVerifier
unfolding algorithm_of
build tier kind issuers audience allowed_subjects = record {
  tier = tier;
  kind = kind;
  validation = record {
    algorithm = algorithm_of kind;
    audience = audience;
    issuers = issuers;
    leeway = 60;
    required_spec_claims = codes "exp" ∷ codes "aud" ∷ codes "iss" ∷ codes "sub" ∷ [];
  };
  allowed_subjects = allowed_subjects;
}

unfoldable pub iap : Tier → List ℕ → TokenVerifier
unfolding build
iap tier audience = build tier ec (codes "https://cloud.google.com/iap" ∷ []) audience none

unfoldable pub bot_verifier : List ℕ → List (List ℕ) → TokenVerifier
unfolding build
bot_verifier audience principals =
    build bot rsa (codes "https://accounts.google.com" ∷ codes "accounts.google.com" ∷ []) audience
      (some principals)

-- `headers.get(name)` with `to_str`.
unfoldable pub textual : Option (Option (List ℕ)) → Result (List ℕ) TokenError
textual none = err missing
textual (some none) = err malformed
textual (some (some text)) = ok text

unfoldable pub bearer : List ℕ → Result (List ℕ) TokenError
bearer text = if is_prefix (codes "Bearer ") text then ok (drop 7 text) else err malformed

unfoldable pub token :
    TokenVerifier → (List ℕ → Option (Option (List ℕ))) → Result (List ℕ) TokenError
unfolding textual bearer
token v headers = elim v.tier [
  | bot ↦ textual (headers (codes "authorization")) >>= bearer
  | read ↦ textual (headers (codes "x-goog-iap-jwt-assertion"))
  | write ↦ textual (headers (codes "x-goog-iap-jwt-assertion"))
]

unfoldable pub refusal_code : TokenError → ErrorCode
refusal_code keys_unavailable = unavailable
refusal_code _ = unauthenticated

unfoldable pub is_allowed : Option (List (List ℕ)) → List ℕ → Bool
is_allowed none subject = true
is_allowed (some allowed) subject = any (same_bytes subject) allowed

module _ (J : Jwt) where
  unfoldable pub claimed : Tier → Option Claims → Result Principal TokenError
  claimed tier none = err rejected
  claimed tier (some claims) =
      ok (record { tier = tier; subject = claims.sub; email = claims.email })

  -- The key of an id is what `decoding_key` gives, which `Keys` models and `Caller` ties to it.
  unfoldable pub verify :
      TokenVerifier → (List ℕ → Result J.Key TokenError) → List ℕ → Result Principal TokenError
  unfolding claimed
  verify v decoding_key text = elim (J.decode_header text) [
    | none ↦ err malformed
    | some none ↦ err malformed
    | some (some kid) ↦
        decoding_key kid >>= (λ key. claimed v.tier (J.decode text key v.validation))
  ]

  unfoldable pub refused : TokenVerifier → Result Principal TokenError → Result Principal Refusal
  unfolding unverified refusal_code is_allowed Failure.new
  refused v (err e) =
      err (record { failure = Failure.new (refusal_code e); principal = unverified v.tier })
  refused v (ok p) =
      if not (is_allowed v.allowed_subjects p.subject)
      then err (record { failure = Failure.new forbidden; principal = p })
      else ok p

  unfoldable pub identify :
      TokenVerifier
      → (List ℕ → Result J.Key TokenError)
      → (List ℕ → Option (Option (List ℕ)))
      → Result Principal Refusal
  unfolding refused verify token
  identify v decoding_key headers = refused v (token v headers >>= verify v decoding_key)
