-- ===== src/Stream/Frame.antt =====
-- src/corporate_actions/sse.rs: one frame to one mutation. What `serde_json` reads in the data is
-- the interface `Json`; an `Envelope` holds the payload's fields that the decoding goes on to use.
pub mod Laws
mod Tests
use st0x_alpaca.Prelude.{
  ℕ, Bool, true, false, List, [], ◌∷◌, ◌++◌, Option, none, some, ◌==◌, if◌then◌else◌, Result, ok,
  err, ◌>>=◌, codes,
}
use st0x_alpaca.Stream.Utf8.{is_utf8}
use st0x_alpaca.Stream.Event.{
  CorporateActionEventId, CorporateActionMutation, event_id, action_id, symbol, parse, same_bytes,
}
use st0x_alpaca.Stream.Lines.{sse_lines, sse_field, strip_space, colon, lf}

pub data Region : Type 0 where
  us non_us : Region

pub record Envelope (NaiveDate : Type 0) : Type 0 where
  pub event_id : Option (List ℕ)
  pub action : Option (List ℕ)
  pub region : Region
  pub ca_id : List ℕ
  pub ca_symbol : List ℕ
  pub ex_date : NaiveDate

pub record Json : Type 1 where
  pub NaiveDate : Type 0
  -- `from_str::<CorporateActionEnvelope>` and `from_str::<CorporateActionIdentityEnvelope>`.
  pub envelope : List ℕ → Option (Envelope NaiveDate)
  pub identity : List ℕ → Option (Option CorporateActionEventId)

pub data DecodeError : Type 0 where
  missing_event_id missing_mutation invalid_field_utf8 missing_data : DecodeError
  invalid_event_id unsupported_mutation : List ℕ → DecodeError
  event_id_mismatch : CorporateActionEventId → List ℕ → DecodeError
  mutation_mismatch : List ℕ → List ℕ → DecodeError
  invalid_payload : CorporateActionEventId → DecodeError
  invalid_payload_without_event_id non_us_region : DecodeError
  invalid_action_id invalid_underlying : List ℕ → DecodeError

-- The variables of the line loop of `decode_sse_frame`; `data` is in order.
pub record Fields : Type 0 where
  pub event_id : Option (List ℕ)
  pub mutation : Option (List ℕ)
  pub data_lines : List (List ℕ)

abbrev pub starts_with_colon : List ℕ → Bool
starts_with_colon [] = false
starts_with_colon (b ∷ _) = b == colon

-- `line.is_empty() || line.starts_with(b":")`.
abbrev pub is_ignored : List ℕ → Bool
is_ignored [] = true
is_ignored (b ∷ line) = starts_with_colon (b ∷ line)

set_field : Fields → List ℕ → List ℕ → Fields
set_field f field value =
    if same_bytes field (codes "id")
    then record f { event_id = some value }
    else if same_bytes field (codes "event")
    then record f { mutation = some value }
    else if same_bytes field (codes "data")
    then record f { data_lines = f.data_lines ++ value ∷ [] }
    else f

-- One line of the loop.
read_line : Fields → List ℕ → Result Fields DecodeError
unfolding set_field sse_field strip_space
read_line f line =
    let (field, rest) = sse_field line in
    let value = strip_space rest in
    if is_ignored line
    then ok f
    else if is_utf8 value
    then ok (set_field f field value)
    else err invalid_field_utf8

pub read_lines : Fields → List (List ℕ) → Result Fields DecodeError
unfolding read_line
read_lines f [] = ok f
read_lines f (line ∷ rest) = elim (read_line f line) [ ok f' ↦ read_lines f' rest | err e ↦ err e ]

-- `lines.join("\\n")`.
unfoldable pub join_lines : List (List ℕ) → List ℕ
join_lines [] = []
join_lines (line ∷ []) = line
join_lines (line ∷ next ∷ rest) = line ++ lf ∷ join_lines (next ∷ rest)

-- `event_id.map(...).transpose()`.
sse_id : Option (List ℕ) → Result (Option CorporateActionEventId) DecodeError
sse_id none = ok none
sse_id (some text) = elim (event_id text) [
  | none ↦ err (invalid_event_id text)
  | some id ↦ ok (some id)
]

payload_error : Option CorporateActionEventId → DecodeError
payload_error (some id) = invalid_payload id
payload_error none = invalid_payload_without_event_id

or_err {ℓ} : {A : Type ℓ} → Option A → DecodeError → Result A DecodeError
or_err none e = err e
or_err (some a) e = ok a

-- The id of the event: that of the SSE field, which the payload's must agree with, or the payload's.
reconcile_id :
    Option CorporateActionEventId → Option (List ℕ) → Result CorporateActionEventId DecodeError
unfolding or_err
reconcile_id (some sse) (some payload) =
    if same_bytes sse.value payload then ok sse else err (event_id_mismatch sse payload)
reconcile_id (some sse) none = ok sse
reconcile_id none (some payload) = or_err (event_id payload) (invalid_event_id payload)
reconcile_id none none = err missing_event_id

reconcile_mutation : Option (List ℕ) → Option (List ℕ) → Result (List ℕ) DecodeError
reconcile_mutation (some sse) (some action) =
    if same_bytes sse action then ok sse else err (mutation_mismatch sse action)
reconcile_mutation (some sse) none = ok sse
reconcile_mutation none (some action) = ok action
reconcile_mutation none none = err missing_mutation

require_us : Region → Result (Unit {0}) DecodeError
require_us us = ok tt
require_us non_us = err non_us_region

abbrev pub no_fields : Fields
no_fields = record { event_id = none; mutation = none; data_lines = [] }

require_data : List (List ℕ) → Result (Unit {0}) DecodeError
require_data [] = err missing_data
require_data (_ ∷ _) = ok tt

module _ (J : Json) where
  pub decode_fields : Fields → Result (CorporateActionMutation J.NaiveDate) DecodeError
  unfolding require_data sse_id or_err payload_error reconcile_id reconcile_mutation require_us
  decode_fields fields = do
    _ ← require_data fields.data_lines
    sse ← sse_id fields.event_id
    envelope ← or_err (J.envelope (join_lines fields.data_lines)) (payload_error sse)
    id ← reconcile_id sse envelope.event_id
    mutation ← reconcile_mutation fields.mutation envelope.action
    kind ← or_err (parse mutation) (unsupported_mutation mutation)
    _ ← require_us envelope.region
    action ← or_err (action_id envelope.ca_id) (invalid_action_id envelope.ca_id)
    underlying ← or_err (symbol envelope.ca_symbol) (invalid_underlying envelope.ca_symbol)
    ok (record {
      event_id = id;
      kind = kind;
      action = record { id = action; underlying = underlying; ex_date = envelope.ex_date };
    })

  pub decode_sse_frame : List ℕ → Result (CorporateActionMutation J.NaiveDate) DecodeError
  unfolding read_lines decode_fields
  decode_sse_frame frame = do fields ← read_lines no_fields (sse_lines frame); decode_fields fields
