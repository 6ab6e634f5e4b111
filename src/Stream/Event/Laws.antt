-- ===== src/Stream/Event/Laws.antt =====
-- What the identities and mutation names of src/corporate_actions/event.rs let through.
pub use st0x_alpaca.Prelude.{same_bytes-eq}
use st0x_alpaca.Prelude.{
  ℕ, suc, ◌≡◌, ◌≢◌, ◌≤◌, ◌⊎◌, ◌↔◌, refl, true, List, [], ◌∷◌, some, arith, length, codes, All,
}
use st0x_alpaca.Stream.Event.{
  CorporateActionEventId, CorporateActionId, CorporateActionSymbol, event_id, action_id, symbol,
  allowed, all_allowed, CorporateActionMutationKind, insert, parse, as_str,
}

-- A character of Crockford's base 32: a digit, or an upper case letter but I, L, O and U.
abbrev pub IsCrockford : ℕ → Type 0
IsCrockford b =
    ((b'0' ≤ b) × (b ≤ b'9'))
    ⊎ ((b'A' ≤ b) × (b ≤ b'Z') × (b ≢ b'I') × (b ≢ b'L') × (b ≢ b'O') × (b ≢ b'U'))

allowed_iff : (b : ℕ) → (allowed b ≡ true) ↔ IsCrockford b
unfolding allowed
allowed_iff b = (λ h. ground arith, λ h. ground arith)

-- The first byte, if there is one, is at most '7': 26 such characters fit 128 bits.
abbrev pub FitsUlid : List ℕ → Type 0
FitsUlid [] = Unit {0}
FitsUlid (b ∷ _) = b ≤ b'7'

all_allowed_later :
    (index : ℕ) (value : List ℕ) → (all_allowed (suc index) value ≡ true) ↔ All IsCrockford value
unfolding all_allowed
all_allowed_later index [] = (λ h. tt, λ h. refl)
all_allowed_later index (b ∷ rest) = (
  λ h. ground (arith, allowed_iff b, all_allowed_later (suc index) rest),
  λ h. ground (arith, allowed_iff b, all_allowed_later (suc index) rest),
)

all_allowed_iff :
    (value : List ℕ) → (all_allowed 0 value ≡ true) ↔ (All IsCrockford value × FitsUlid value)
unfolding all_allowed
all_allowed_iff [] = (λ h. (tt, tt), λ h. refl)
all_allowed_iff (b ∷ rest) = (
  λ h. ground (arith, allowed_iff b, all_allowed_later 0 rest),
  λ h. ground (arith, allowed_iff b, all_allowed_later 0 rest),
)

-- A canonical ULID: 26 characters of Crockford's base 32 that fit 128 bits.
abbrev pub IsUlid : List ℕ → Type 0
IsUlid value = (length value ≡ 26) × All IsCrockford value × FitsUlid value

-- A text is taken as an event id exactly when it is a canonical ULID, and it is kept as it is.
pub event_id_iff :
    (value : List ℕ) (id : CorporateActionEventId)
    → (event_id value ≡ some id) ↔ ((id.value ≡ value) × IsUlid value)
unfolding event_id
event_id_iff value id =
    (λ h. ground (arith, all_allowed_iff value), λ h. ground (arith, all_allowed_iff value))

parse-as_str : (kind : CorporateActionMutationKind) → parse (as_str kind) ≡ some kind
unfolding parse as_str
parse-as_str insert = refl
parse-as_str _ = refl

-- A mutation's name is read as a mutation exactly when it is that mutation's wire name.
pub parse_iff :
    (value : List ℕ) (kind : CorporateActionMutationKind)
    → (parse value ≡ some kind) ↔ (value ≡ as_str kind)
unfolding parse as_str
parse_iff value kind = (
  λ h. ground (
    arith,
    same_bytes-eq value (codes "insert"),
    same_bytes-eq value (codes "update"),
    same_bytes-eq value (codes "delete"),
  ),
  λ h. rw h (parse-as_str kind),
)

pub action_id-length :
    (value : List ℕ) {id : CorporateActionId}
    → action_id value ≡ some id
    → (id.value ≡ value) × (1 ≤ length value) × (length value ≤ 128)
unfolding action_id
action_id-length value h = ground arith

pub symbol-length :
    (value : List ℕ) {id : CorporateActionSymbol} → symbol value ≡ some id → 1 ≤ length id.value
unfolding symbol
symbol-length value h = ground arith
