-- ===== src/Stream/Decoder/Tests.antt =====
-- Examples for the decoder of src/corporate_actions/sse.rs: a comment frame whose separator ends in a
-- CR.
use st0x_alpaca.Prelude.{ℕ, ◌≡◌, refl, true, List, [], ◌∷◌, ◌++◌, none, some, codes}
use st0x_alpaca.Stream.Lines.{cr, lf, frame_boundary, can_still_terminate_within_limit, sse_lines}
use st0x_alpaca.Stream.Utf8.{is_utf8}
use st0x_alpaca.Stream.Frame.{Json, us}
use st0x_alpaca.Stream.Decoder.{poison, released, push, frame_too_large, read_frame, consume}
use st0x_alpaca.Stream.Decoder.Round.{Settled, released-IsSettled}
use st0x_alpaca.Stream.Decoder.Laws.{push-Settled}

abbrev json : Json
json = record {
  NaiveDate = ℕ;
  envelope = λ payload. some (record {
    event_id = some (codes "01ARZ3NDEKTSV4RRFFQ69G5FAV");
    action = some (codes "insert");
    region = us;
    ca_id = codes "ca-1";
    ca_symbol = codes "AAPL";
    ex_date = 5;
  });
  identity = λ payload. none;
}

abbrev frame_and_cr : List ℕ
frame_and_cr = codes ": keep" ++ lf ∷ cr ∷ []

abbrev max_frame : ℕ
max_frame = 64

-- A separator that ends in a CR leaves nothing behind but the flag for its LF.
splits_crlf :
    (push json max_frame released frame_and_cr).0 ≡ record { buffer = []; skip_leading_lf = true }
unfolding push frame_boundary can_still_terminate_within_limit sse_lines is_utf8 read_frame consume
splits_crlf = refl

-- A chunk beyond the limit is refused and nothing of it is kept.
refuses_long_frame : push json 4 released frame_and_cr ≡ (released, poison [] frame_too_large)
unfolding push frame_boundary can_still_terminate_within_limit
refuses_long_frame = refl

push-Settled_example : Settled json max_frame (push json max_frame released frame_and_cr)
push-Settled_example =
    push-Settled json max_frame released frame_and_cr (released-IsSettled json max_frame)
