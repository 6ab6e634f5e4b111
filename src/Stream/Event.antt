-- ===== src/Stream/Event.antt =====
-- src/corporate_actions/event.rs: the identities of the stream and its mutations. A `NaiveDate` is
-- the type that the section below takes.
pub mod Laws
mod Tests
pub use st0x_alpaca.Prelude.{same_bytes}
use st0x_alpaca.Prelude.{
  ℕ, suc, Bool, true, false, not, ◌&&◌, ◌||◌, List, [], ◌∷◌, Option, none, some, ◌==◌, leb,
  if◌then◌else◌, length, codes,
}
use st0x_alpaca.Stream.Utf8.{trim}

pub record CorporateActionEventId : Type 0 where
  pub value : List ℕ

pub record CorporateActionId : Type 0 where
  pub value : List ℕ

pub record CorporateActionSymbol : Type 0 where
  pub value : List ℕ

-- A digit, or an upper case letter other than I, L, O and U.
unfoldable pub allowed : ℕ → Bool
allowed b =
    (leb b'0' b && leb b b'9')
    || (leb b'A' b && leb b b'H')
    || b == b'J'
    || b == b'K'
    || b == b'M'
    || b == b'N'
    || (leb b'P' b && leb b b'T')
    || (leb b'V' b && leb b b'Z')

-- `value.bytes().enumerate().all(...)`, from the given index on.
unfoldable pub all_allowed : ℕ → List ℕ → Bool
unfolding allowed
all_allowed index [] = true
all_allowed index (byte ∷ rest) =
    (allowed byte && (not (index == 0) || leb byte b'7')) && all_allowed (suc index) rest

unfoldable pub event_id : List ℕ → Option CorporateActionEventId
unfolding all_allowed
event_id value =
    if length value == 26 && all_allowed 0 value then some (record { value = value }) else none

abbrev max_len : ℕ
max_len = 128

unfoldable pub action_id : List ℕ → Option CorporateActionId
action_id value =
    if not (length value == 0) && leb (length value) max_len
    then some (record { value = value })
    else none

unfoldable pub symbol : List ℕ → Option CorporateActionSymbol
symbol value =
    let trimmed = trim value in
    if length trimmed == 0 then none else some (record { value = trimmed })

pub data CorporateActionMutationKind : Type 0 where
  insert update delete : CorporateActionMutationKind

unfoldable pub parse : List ℕ → Option CorporateActionMutationKind
parse value =
    if same_bytes value (codes "insert")
    then some insert
    else if same_bytes value (codes "update")
    then some update
    else if same_bytes value (codes "delete")
    then some delete
    else none

unfoldable pub as_str : CorporateActionMutationKind → List ℕ
as_str insert = codes "insert"
as_str update = codes "update"
as_str delete = codes "delete"

module _ (NaiveDate : Type 0) where
  pub record DividendCorporateAction : Type 0 where
    pub id : CorporateActionId
    pub underlying : CorporateActionSymbol
    pub ex_date : NaiveDate

  pub record CorporateActionMutation : Type 0 where
    pub event_id : CorporateActionEventId
    pub kind : CorporateActionMutationKind
    pub action : DividendCorporateAction
