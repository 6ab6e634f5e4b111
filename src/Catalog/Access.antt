-- ===== src/Catalog/Access.antt =====
-- crates/gateway-api/src/access.rs: caller tiers and account profiles.
use st0x_alpaca.Prelude.{String, Bool, true, false, List, [], ◌∷◌}

pub data Tier : Type 0 where
  bot read write : Tier

pub data Profile : Type 0 where
  t0 s01 : Profile

abbrev pub all_tiers : List Tier
all_tiers = bot ∷ read ∷ write ∷ []

unfoldable pub prefix : Tier → String
prefix bot = "/bot/v1"
prefix read = "/alpaca-read/v1"
prefix write = "/alpaca-write/v1"

unfoldable pub as_str : Tier → String
as_str bot = "bot"
as_str read = "read"
as_str write = "write"

unfoldable pub is_human : Tier → Bool
is_human bot = false
is_human read = true
is_human write = true

unfoldable pub deployment : Profile → String
deployment t0 = "t0-alpaca"
deployment s01 = "s01-alpaca"

abbrev pub tier_eq : Tier → Tier → Bool
tier_eq bot bot = true
tier_eq read read = true
tier_eq write write = true
tier_eq _ _ = false
