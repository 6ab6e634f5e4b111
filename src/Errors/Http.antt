-- ===== src/Errors/Http.antt =====
-- What the clients use of the HTTP crates (`reqwest::Error`, `http::StatusCode`), which are not
-- part of the repository.
use st0x_alpaca.Prelude.{ℕ, Bool, ◌&&◌, ◌≡◌, leb, ltb, Option, none, some, if◌then◌else◌}

-- The laws are the documented status classes 400-499 and 300-399, and the documented range 100-999 of
-- `StatusCode::from_u16`.
pub record Http : Type 1 where
  pub Error : Type 0
  pub is_builder : Error → Bool
  pub is_connect : Error → Bool
  pub is_decode : Error → Bool
  pub is_client_error : ℕ → Bool
  pub is_redirection : ℕ → Bool
  pub from_u16 : ℕ → Option ℕ
  pub client_error_lem : (s : ℕ) → is_client_error s ≡ (leb 400 s && ltb s 500)
  pub redirection_lem : (s : ℕ) → is_redirection s ≡ (leb 300 s && ltb s 400)
  pub from_u16_lem : (s : ℕ) → from_u16 s ≡ (if leb 100 s && ltb s 1000 then some s else none)
