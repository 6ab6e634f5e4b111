-- ===== src/Stream/Frame/Laws.antt =====
-- What a decoded mutation of src/corporate_actions/sse.rs vouches for.
use st0x_alpaca.Prelude.{
  ℕ, ◌≡◌, ◌≤◌, ◌⊎◌, refl, inl, inr, List, Option, none, some, arith, length, Result, ok, err,
  Option-cases, ◌>>=◌,
}
use st0x_alpaca.Stream.Event.{
  CorporateActionEventId, CorporateActionMutation, event_id, action_id, symbol, parse, as_str,
}
use st0x_alpaca.Stream.Event.Laws.{
  IsUlid, event_id_iff, parse_iff, same_bytes-eq, action_id-length, symbol-length,
}
use st0x_alpaca.Stream.Frame.{
  Json, Envelope, Region, us, non_us, DecodeError, Fields, join_lines, decode_fields,
  decode_sse_frame, read_lines, no_fields, sse_id, reconcile_id, reconcile_mutation, require_us,
  require_data, or_err,
}
use st0x_alpaca.Stream.Lines.{sse_lines}

-- An optional text that is the given one, if it is there.
abbrev pub Agrees : Option (List ℕ) → List ℕ → Type 0
Agrees text value = (text ≡ none) ⊎ (text ≡ some value)

sse_id-ok :
    (text : Option (List ℕ)) {id : Option CorporateActionEventId}
    → sse_id text ≡ ok id
    → ((text ≡ none) × (id ≡ none))
      ⊎ ((i : CorporateActionEventId) × (id ≡ some i) × (text ≡ some i.value) × IsUlid i.value)
unfolding sse_id
sse_id-ok none h = ground arith
sse_id-ok (some text) {id} h = elim (Option-cases (event_id text)) [
  | inl nothing ↦ ground arith
  | inr (i, e) ↦ inr (
    i,
    ground arith,
    ground (arith, (event_id_iff text i).0 e),
    ground (arith, (event_id_iff text i).0 e),
  )
]

reconcile_id-ok :
    (text : Option (List ℕ)) (sse : Option CorporateActionEventId) (payload : Option (List ℕ))
    {id : CorporateActionEventId}
    → sse_id text ≡ ok sse
    → reconcile_id sse payload ≡ ok id
    → Agrees text id.value × Agrees payload id.value × IsUlid id.value
unfolding reconcile_id or_err
reconcile_id-ok text none none h h' = ground arith
reconcile_id-ok text none (some p) {id} h h' = elim (Option-cases (event_id p)) [
  | inl nothing ↦ ground arith
  | inr (i, e) ↦ ground (arith, sse_id-ok text h, (event_id_iff p i).0 e)
]
reconcile_id-ok text (some s) none h h' = ground (arith, sse_id-ok text h)
reconcile_id-ok text (some s) (some p) h h' =
    ground (arith, sse_id-ok text h, same_bytes-eq s.value p)

reconcile_mutation-ok :
    (sse action : Option (List ℕ)) {m : List ℕ}
    → reconcile_mutation sse action ≡ ok m
    → Agrees sse m × Agrees action m
unfolding reconcile_mutation
reconcile_mutation-ok none none h = ground arith
reconcile_mutation-ok none (some a) h = ground arith
reconcile_mutation-ok (some s) none h = ground arith
reconcile_mutation-ok (some s) (some a) h = ground (arith, same_bytes-eq s a)

or_err-ok : {A : Type 0} (o : Option A) (e : DecodeError) {a : A} → or_err o e ≡ ok a → o ≡ some a
unfolding or_err
or_err-ok none e h = ground arith
or_err-ok (some a) e h = ground arith

>>=-ok :
    {A B : Type 0} (r : Result A DecodeError) (f : A → Result B DecodeError) {b : B}
    → (r >>= f) ≡ ok b
    → (a : A) × (r ≡ ok a) × (f a ≡ ok b)
>>=-ok (ok a) f h = (a, refl, h)
>>=-ok (err e) f h = ground arith

require_us-ok : (region : Region) {u : Unit {0}} → require_us region ≡ ok u → region ≡ us
unfolding require_us
require_us-ok us h = refl
require_us-ok non_us h = ground arith

-- What the fields and the payload of an accepted frame say.
abbrev pub Vouches : (J : Json) → Fields → CorporateActionMutation J.NaiveDate → Type 0
Vouches J fields m =
    (e : Envelope J.NaiveDate) × (J.envelope (join_lines fields.data_lines) ≡ some e)
    × Agrees fields.event_id m.event_id.value
    × Agrees e.event_id m.event_id.value
    × Agrees fields.mutation (as_str m.kind)
    × Agrees e.action (as_str m.kind)
    × (e.region ≡ us)
    × IsUlid m.event_id.value
    × (action_id e.ca_id ≡ some m.action.id)
    × (symbol e.ca_symbol ≡ some m.action.underlying)
    × (e.ex_date ≡ m.action.ex_date)

module _ (J : Json) where
  decode_fields-Vouches :
      (fields : Fields) {m : CorporateActionMutation J.NaiveDate}
      → decode_fields J fields ≡ ok m
      → Vouches J fields m
  unfolding decode_fields
  decode_fields-Vouches fields {m} h =
      let (_, h0, h1) = >>=-ok (require_data fields.data_lines) _ h in
      let (sse, h2, h3) = >>=-ok (sse_id fields.event_id) _ h1 in
      let (envelope, h4, h5) = >>=-ok (or_err (J.envelope (join_lines fields.data_lines)) _) _ h3 in
      let (id, h6, h7) = >>=-ok (reconcile_id sse envelope.event_id) _ h5 in
      let (mutation, h8, h9) = >>=-ok (reconcile_mutation fields.mutation envelope.action) _ h7 in
      let (kind, h10, h11) = >>=-ok (or_err (parse mutation) _) _ h9 in
      let (_, h12, h13) = >>=-ok (require_us envelope.region) _ h11 in
      let (action, h14, h15) = >>=-ok (or_err (action_id envelope.ca_id) _) _ h13 in
      let (underlying, h16, h17) = >>=-ok (or_err (symbol envelope.ca_symbol) _) _ h15 in
      let (from_field, from_payload, ulid) =
        reconcile_id-ok fields.event_id sse envelope.event_id h2 h6 in
      let (by_field, by_payload) = reconcile_mutation-ok fields.mutation envelope.action h8 in
      let named = (parse_iff mutation kind).0 (or_err-ok (parse mutation) _ h10) in
      (
        envelope,
        or_err-ok _ _ h4,
        ground arith,
        ground arith,
        ground (arith, named),
        ground (arith, named),
        require_us-ok envelope.region h12,
        ground arith,
        ground (arith, or_err-ok (action_id envelope.ca_id) _ h14),
        ground (arith, or_err-ok (symbol envelope.ca_symbol) _ h16),
        ground arith,
      )

  -- A mutation that a frame decodes to is vouched for by the frame's fields and its payload: the
  -- SSE id and the payload's event id are each the mutation's id, a canonical ULID, where they are
  -- there, the SSE event and the payload's action are each its kind's wire name, the region is US,
  -- and the action's id, symbol and date are those of the payload.
  pub decode_sse_frame-Vouches :
      (frame : List ℕ) {m : CorporateActionMutation J.NaiveDate}
      → decode_sse_frame J frame ≡ ok m
      → (fields : Fields) × (read_lines no_fields (sse_lines frame) ≡ ok fields)
        × Vouches J fields m
  unfolding decode_sse_frame
  decode_sse_frame-Vouches frame {m} h =
      let (fields, read, decoded) = >>=-ok (read_lines no_fields (sse_lines frame)) _ h in
      (fields, read, decode_fields-Vouches fields decoded)

  -- The identities of the mutation are within their bounds.
  abbrev pub IsSound : CorporateActionMutation J.NaiveDate → Type 0
  IsSound m =
      IsUlid m.event_id.value
      × (1 ≤ length m.action.id.value)
      × (length m.action.id.value ≤ 128)
      × (1 ≤ length m.action.underlying.value)

  Vouches-IsSound :
      (fields : Fields) (m : CorporateActionMutation J.NaiveDate) → Vouches J fields m → IsSound m
  Vouches-IsSound fields m (e, _, _, _, _, _, _, ulid, action, underlying, _) = (
    ulid,
    ground (arith, action_id-length e.ca_id action),
    ground (arith, action_id-length e.ca_id action),
    symbol-length e.ca_symbol underlying,
  )

  pub decode_sse_frame-IsSound :
      (frame : List ℕ) {m : CorporateActionMutation J.NaiveDate}
      → decode_sse_frame J frame ≡ ok m
      → IsSound m
  decode_sse_frame-IsSound frame {m} h =
      let (fields, read, v) = decode_sse_frame-Vouches frame h in Vouches-IsSound fields m v
