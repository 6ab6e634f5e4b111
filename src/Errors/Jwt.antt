-- ===== src/Errors/Jwt.antt =====
-- src/auth.rs: failures of a credential mint.
use st0x_alpaca.Prelude.{ℕ, Bool, true, false, ◌&&◌, ◌||◌, not, Option, none, leb, ltb, ◌==◌}
use st0x_alpaca.Errors.Http.{Http}

pub data KmsJwtError (H : Http) : Type 0 where
  http : H.Error → KmsJwtError H
  kms_status token_status : ℕ → Option ℕ → KmsJwtError H
  base64 malformed_signature local_sign sec1_private_key pkcs8_private_key : KmsJwtError H
  claims invalid_header clock_before_epoch invalid_token_url not_sent : KmsJwtError H

-- A 3xx, or a 4xx other than 408 and 429.
deterministic_status : ℕ → Bool
deterministic_status status =
    (leb 300 status && ltb status 400)
    || ((leb 400 status && ltb status 500) && (not (status == 429) && not (status == 408)))

module _ {H : Http} where
  unfoldable pub is_deterministic : KmsJwtError H → Bool
  unfolding deterministic_status
  is_deterministic (kms_status status _) = deterministic_status status
  is_deterministic (token_status status _) = deterministic_status status
  is_deterministic (http _) = false
  is_deterministic _ = true

  unfoldable pub is_rate_limited : KmsJwtError H → Bool
  is_rate_limited (token_status status _) = status == 429
  is_rate_limited (kms_status status _) = status == 429
  is_rate_limited _ = false

  unfoldable pub retry_after : KmsJwtError H → Option ℕ
  retry_after (token_status _ hint) = hint
  retry_after (kms_status _ hint) = hint
  retry_after _ = none
