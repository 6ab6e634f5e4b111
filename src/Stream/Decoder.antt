-- ===== src/Stream/Decoder.antt =====
-- src/corporate_actions/sse.rs: the incremental decoder. `MAX_SSE_FRAME_BYTES` is the argument
-- `max_frame`. `push` runs its two loops on fuel: the outer one has the length of the chunk, of which
-- each round takes at least a byte, and the inner one the length of the buffer, of which each frame
-- takes at least its separator.
pub mod Round
pub mod Laws
mod Tests
use st0x_alpaca.Prelude.{
  ℕ, zero, suc, ◌+◌, ◌-◌, min, Bool, true, false, not, ◌&&◌, List, [], ◌∷◌, ◌++◌, map, Option, none,
  some, ◌==◌, ltb, if◌then◌else◌, Result, ok, err, codes, length, take, drop, all,
}
use st0x_alpaca.Stream.Utf8.{is_utf8}
use st0x_alpaca.Stream.Event.{CorporateActionEventId, CorporateActionMutation, event_id, same_bytes}
use st0x_alpaca.Stream.Lines.{
  sse_lines, sse_field, strip_space, cr, lf, frame_boundary, can_still_terminate_within_limit,
}
use st0x_alpaca.Stream.Frame.{Json, DecodeError, is_ignored, join_lines, decode_sse_frame}

abbrev pub max_separator : ℕ
max_separator = 4

pub record Decoder : Type 0 where
  pub buffer : List ℕ
  pub skip_leading_lf : Bool

pub data StreamDecodeError : Type 0 where
  frame_too_large : StreamDecodeError
  invalid_utf8 : Option CorporateActionEventId → StreamDecodeError
  event : Option CorporateActionEventId → DecodeError → StreamDecodeError

-- The source's `has_pending_frame`.
pub has_pending_frame : Decoder → Bool
has_pending_frame d = not (length d.buffer == 0)

-- The decoder that `release` leaves; a new one is the same.
abbrev pub released : Decoder
released = record { buffer = []; skip_leading_lf = false }

pub data SseEventIdentity : Type 0 where
  absent : SseEventIdentity
  valid : CorporateActionEventId → SseEventIdentity
  invalid : SseEventIdentity

-- `sse_lines(frame).filter_map(...)`: the values of the lines with the given field.
field_values : List ℕ → List (List ℕ) → List (List ℕ)
field_values field [] = []
field_values field (line ∷ rest) =
    let values = field_values field rest in
    let (name, value) = sse_field line in if same_bytes name field then value ∷ values else values

last : List (List ℕ) → Option (List ℕ)
last [] = none
last (value ∷ []) = some value
last (value ∷ next ∷ rest) = last (next ∷ rest)

identity_of : List ℕ → SseEventIdentity
identity_of value =
    if is_utf8 value then elim (event_id value) [ none ↦ invalid | some id ↦ valid id ] else invalid

pub sse_event_identity : List ℕ → SseEventIdentity
unfolding identity_of last field_values
sse_event_identity frame = elim (last (field_values (codes "id") (sse_lines frame))) [
  | none ↦ absent
  | some value ↦ identity_of (strip_space value)
]

id_of_identity : SseEventIdentity → Option CorporateActionEventId
id_of_identity (valid id) = some id
id_of_identity absent = none
id_of_identity invalid = none

-- The bytes of the buffer from the CR on, if one stands there.
abbrev pub starts_with : ℕ → List ℕ → Bool
starts_with byte [] = false
starts_with byte (b ∷ _) = b == byte

-- A frame and its separator leave the buffer.
pub consume : Decoder → ℕ → Decoder
consume d consumed = record {
  buffer = drop consumed d.buffer;
  skip_leading_lf = consumed == length d.buffer && starts_with cr (drop (consumed - 1) d.buffer);
}

module _ (J : Json) where
  pub data Batch : Type 0 where
    complete : List (CorporateActionMutation J.NaiveDate) → Batch
    poison : List (CorporateActionMutation J.NaiveDate) → StreamDecodeError → Batch

  pub data FrameResult : Type 0 where
    skipped : FrameResult
    mutated : CorporateActionMutation J.NaiveDate → FrameResult
    rejected : StreamDecodeError → FrameResult

  pub validated_payload_event_id : List ℕ → Option CorporateActionEventId
  unfolding field_values
  validated_payload_event_id frame =
      let values = map strip_space (field_values (codes "data") (sse_lines frame)) in
      let payload = join_lines values in
      if not (all is_utf8 values)
      then none
      else if length payload == 0
      then none
      else elim (J.identity payload) [ none ↦ none | some id ↦ id ]

  error_event_id : SseEventIdentity → List ℕ → Option CorporateActionEventId
  unfolding validated_payload_event_id
  error_event_id absent frame = validated_payload_event_id frame
  error_event_id (valid id) frame = some id
  error_event_id invalid frame = none

  -- The body of the inner loop, for a frame that is within the limit.
  pub read_frame : List ℕ → FrameResult
  unfolding sse_event_identity id_of_identity error_event_id
  read_frame frame =
      let identity = sse_event_identity frame in
      if not (is_utf8 frame)
      then rejected (invalid_utf8 (id_of_identity identity))
      else if all is_ignored (sse_lines frame)
      then skipped
      else elim (decode_sse_frame J frame) [
        | ok mutation ↦ mutated mutation
        | err source ↦ rejected (event (error_event_id identity frame) source)
      ]

  module _ (max_frame : ℕ) where
    pub drain : ℕ → Decoder → List (CorporateActionMutation J.NaiveDate) → Decoder × Batch
    drain zero d done = (d, complete done)
    drain (suc fuel) d done = elim (frame_boundary d.buffer) [
      | none ↦ (d, complete done)
      | some (frame_end, separator_len) ↦ elim (ltb max_frame frame_end) [
        | true ↦ (released, poison done frame_too_large)
        | false ↦ elim (read_frame (take frame_end d.buffer)) [
          | skipped ↦ drain fuel (consume d (frame_end + separator_len)) done
          | mutated m ↦ drain fuel (consume d (frame_end + separator_len)) (done ++ m ∷ [])
          | rejected e ↦ (released, poison done e)
        ]
      ]
    ]

    -- The bytes of the chunk that the buffer still has room for.
    pub accepted : Decoder → List ℕ → ℕ
    accepted d remaining = min (length remaining) (max_frame + max_separator - length d.buffer)

    pub fill : Decoder → List ℕ → Decoder
    unfolding accepted
    fill d remaining = record {
      buffer = d.buffer ++ take (accepted d remaining) remaining;
      skip_leading_lf = false;
    }

    -- What a round makes of the drained buffer.
    settle : Decoder × Batch → Decoder × Batch
    settle (d, poison mutations e) = (d, poison mutations e)
    settle (d, complete mutations) =
        if can_still_terminate_within_limit max_frame d.buffer
        then (d, complete mutations)
        else (released, poison mutations frame_too_large)

    -- A round of the outer loop that takes bytes into the buffer.
    pub round : Decoder → List ℕ → List (CorporateActionMutation J.NaiveDate) → Decoder × Batch
    unfolding drain settle accepted fill
    round d remaining done =
        if accepted d remaining == 0
        then (released, poison done frame_too_large)
        else settle (drain (length (fill d remaining).buffer) (fill d remaining) done)

    pub push_loop :
        ℕ → Decoder → List ℕ → List (CorporateActionMutation J.NaiveDate) → Decoder × Batch
    unfolding round
    push_loop zero d remaining done = (d, complete done)
    push_loop (suc fuel) d [] done = (d, complete done)
    push_loop (suc fuel) d (b ∷ rest) done = elim (d.skip_leading_lf && b == lf) [
      | true ↦ push_loop fuel (record d { skip_leading_lf = false }) rest done
      | false ↦ elim (round d (b ∷ rest) done).1 [
        | poison mutations e ↦ ((round d (b ∷ rest) done).0, poison mutations e)
        | complete mutations ↦
            push_loop fuel (round d (b ∷ rest) done).0 (drop (accepted d (b ∷ rest)) (b ∷ rest))
              mutations
      ]
    ]

    pub push : Decoder → List ℕ → Decoder × Batch
    unfolding push_loop
    push d chunk = push_loop (length chunk) d chunk []
