-- ===== src/Stream/Frame/Tests.antt =====
-- An example for `decode_sse_frame` of src/corporate_actions/sse.rs, at a JSON crate that reads every
-- payload as the same dividend.
use st0x_alpaca.Prelude.{ℕ, List, ◌∷◌, ◌++◌, none, some, ok, codes, ◌≡◌, refl}
use st0x_alpaca.Stream.Event.{CorporateActionMutation, insert}
use st0x_alpaca.Stream.Lines.{sse_lines, lf}
use st0x_alpaca.Stream.Frame.{Json, Fields, us, read_lines, no_fields, decode_sse_frame}
use st0x_alpaca.Stream.Frame.Laws.{Vouches, decode_sse_frame-Vouches}

abbrev ulid : List ℕ
ulid = codes "01ARZ3NDEKTSV4RRFFQ69G5FAV"

abbrev json : Json
json = record {
  NaiveDate = ℕ;
  envelope = λ payload. some (record {
    event_id = some ulid;
    action = none;
    region = us;
    ca_id = codes "ca-1";
    ca_symbol = codes " AAPL ";
    ex_date = 5;
  });
  identity = λ payload. some (some (record { value = ulid }));
}

abbrev dividend_frame : List ℕ
dividend_frame = codes "event: insert" ++ lf ∷ codes ": keep" ++ lf ∷ codes "data: {}"

abbrev dividend : CorporateActionMutation ℕ
dividend = record {
  event_id = record { value = ulid };
  kind = insert;
  action = record {
    id = record { value = codes "ca-1" };
    underlying = record { value = codes "AAPL" };
    ex_date = 5;
  };
}

decode_sse_frame-Vouches_example :
    (fields : Fields) × (read_lines no_fields (sse_lines dividend_frame) ≡ ok fields)
    × Vouches json fields dividend
unfolding decode_sse_frame st0x_alpaca.Stream.Lines.sse_lines st0x_alpaca.Stream.Lines.sse_field
    st0x_alpaca.Stream.Utf8.is_utf8 st0x_alpaca.Stream.Utf8.trim st0x_alpaca.Stream.Event.event_id
    st0x_alpaca.Stream.Event.symbol st0x_alpaca.Stream.Event.action_id
    st0x_alpaca.Stream.Event.parse
decode_sse_frame-Vouches_example = decode_sse_frame-Vouches json dividend_frame {m = dividend} refl
