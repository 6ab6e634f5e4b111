-- ===== src/Stream/Decoder/Round.antt =====
-- The rounds of the decoder of src/corporate_actions/sse.rs: what they leave and what they let through.
use st0x_alpaca.Prelude.{
  ℕ, zero, suc, ◌+◌, ◌≡◌, ◌≤◌, ◌⊎◌, refl, inl, inr, true, ◌==◌, ltb, List, [], ◌∷◌, ◌++◌, none,
  some, arith, length, take, length-drop, All, Option-cases, Bool-cases,
}
use st0x_alpaca.Stream.Event.{CorporateActionMutation}
use st0x_alpaca.Stream.Lines.{frame_boundary, can_still_terminate_within_limit}
use st0x_alpaca.Stream.Lines.Laws.{frame_boundary-bounds}
use st0x_alpaca.Stream.Frame.{Json}
use st0x_alpaca.Stream.Frame.Laws.{IsSound, decode_sse_frame-IsSound}
use st0x_alpaca.Stream.Decoder.{
  Decoder, StreamDecodeError, frame_too_large, Batch, complete, poison, FrameResult, skipped,
  mutated, rejected, read_frame, released, consume, drain, fill, accepted, settle, round,
}

module _ (J : Json) (max_frame : ℕ) where
  -- Between chunks: the buffer can still become a frame within the limit, and holds no whole frame.
  pub record IsSettled (d : Decoder) : Type 0 where
    pub within : can_still_terminate_within_limit max_frame d.buffer ≡ true
    pub partial : frame_boundary d.buffer ≡ none

  pub released-IsSettled : IsSettled released
  unfolding can_still_terminate_within_limit frame_boundary
  released-IsSettled = record { within = ground arith; partial = refl }

  -- A poisoned drain has released the buffer; a complete one, with fuel for the buffer, has left no
  -- whole frame.
  abbrev Drained : Decoder × Batch J → Type 0
  Drained (d, poison ms e) = d ≡ released
  Drained (d, complete ms) = frame_boundary d.buffer ≡ none

  consume-length :
      (d : Decoder) {frame_end separator_len : ℕ} (fuel : ℕ)
      → frame_boundary d.buffer ≡ some (frame_end, separator_len)
      → length d.buffer ≤ suc fuel
      → length (consume d (frame_end + separator_len)).buffer ≤ fuel
  unfolding consume
  consume-length d {frame_end} {separator_len} fuel h le = omega (
    arith,
    frame_boundary-bounds d.buffer h,
    length-drop (frame_end + separator_len) d.buffer,
    le,
  )

  -- What reading a frame adds to the mutations decoded so far.
  abbrev Extends :
      List (CorporateActionMutation J.NaiveDate)
      → List (CorporateActionMutation J.NaiveDate)
      → Type 0
  Extends done done' =
      (done' ≡ done)
      ⊎ ((m : CorporateActionMutation J.NaiveDate) × (done' ≡ done ++ m ∷ []) × IsSound J m)

  read_frame-IsSound :
      (frame : List ℕ) {m : CorporateActionMutation J.NaiveDate}
      → read_frame J frame ≡ mutated m
      → IsSound J m
  unfolding read_frame
  read_frame-IsSound frame {m} h = decode_sse_frame-IsSound J frame {m = m} (ground arith)

  FrameResult-cases :
      (r : FrameResult J)
      → (r ≡ skipped)
        ⊎ ((e : StreamDecodeError) × (r ≡ rejected e))
        ⊎ ((m : CorporateActionMutation J.NaiveDate) × (r ≡ mutated m))
  FrameResult-cases skipped = inl refl
  FrameResult-cases (rejected e) = inr (inl (e, refl))
  FrameResult-cases (mutated m) = inr (inr (m, refl))

  -- A round of the inner loop ends it, or goes on with a shorter buffer.
  drain_cases :
      (fuel : ℕ) (d : Decoder) (done : List (CorporateActionMutation J.NaiveDate))
      → ((frame_boundary d.buffer ≡ none)
          × (drain J max_frame (suc fuel) d done ≡ (d, complete done)))
        ⊎ ((e : StreamDecodeError) × (drain J max_frame (suc fuel) d done
              ≡ (released, poison done e)))
        ⊎ ((frame_end : ℕ) × (separator_len : ℕ) × (done' : List
              (CorporateActionMutation J.NaiveDate))
            × (frame_boundary d.buffer ≡ some (frame_end, separator_len))
            × Extends done done'
            × (drain J max_frame (suc fuel) d done
                ≡ drain J max_frame fuel (consume d (frame_end + separator_len)) done'))
  unfolding drain
  drain_cases fuel d done = elim (Option-cases (frame_boundary d.buffer)) [
    | inl nothing ↦ inl (nothing, rw (nothing, drain) refl)
    | inr ((frame_end, separator_len), found) ↦ elim (Bool-cases (ltb max_frame frame_end)) [
      | inl over ↦ inr (inl (frame_too_large, rw (found, over, drain) refl))
      | inr within ↦ elim (FrameResult-cases (read_frame J (take frame_end d.buffer))) [
        | inl skip ↦ inr (
            inr (
              frame_end,
              separator_len,
              done,
              found,
              inl refl,
              rw (found, within, skip, drain) refl,
            ))
        | inr (inl (e, reject)) ↦ inr (inl (e, rw (found, within, reject, drain) refl))
        | inr (inr (m, mutate)) ↦ inr (
            inr (
              frame_end,
              separator_len,
              done ++ m ∷ [],
              found,
              inr (m, refl, read_frame-IsSound (take frame_end d.buffer) mutate),
              rw (found, within, mutate, drain) refl,
            ))
      ]
    ]
  ]

  abbrev pub AllSound : List (CorporateActionMutation J.NaiveDate) → Type 0
  AllSound mutations = All (IsSound J) mutations

  AllSound-append :
      (done : List (CorporateActionMutation J.NaiveDate)) (m : CorporateActionMutation J.NaiveDate)
      → AllSound done
      → IsSound J m
      → AllSound (done ++ m ∷ [])
  AllSound-append [] m h s = (s, tt)
  AllSound-append (x ∷ done) m (h, hs) s = (h, AllSound-append done m hs s)

  Extends-AllSound :
      (done done' : List (CorporateActionMutation J.NaiveDate))
      → AllSound done
      → Extends done done'
      → AllSound done'
  Extends-AllSound done done' h (inl same) = rw same h
  Extends-AllSound done done' h (inr (m, more, s)) = rw more (AllSound-append done m h s)

  abbrev BatchAllSound : Decoder × Batch J → Type 0
  BatchAllSound (d, poison ms e) = AllSound ms
  BatchAllSound (d, complete ms) = AllSound ms

  frame_boundary-empty : (buffer : List ℕ) → length buffer ≤ 0 → frame_boundary buffer ≡ none
  unfolding frame_boundary
  frame_boundary-empty [] h = refl
  frame_boundary-empty (b ∷ rest) h = absurd (omega arith)

  drain-Drained :
      (fuel : ℕ) (d : Decoder) (done : List (CorporateActionMutation J.NaiveDate))
      → length d.buffer ≤ fuel
      → AllSound done
      → Drained (drain J max_frame fuel d done) × BatchAllSound (drain J max_frame fuel d done)
  unfolding drain
  drain-Drained zero d done le s = (frame_boundary-empty d.buffer le, s)
  drain-Drained (suc fuel) d done le s = elim (drain_cases fuel d done) [
    | inl (partial, stop) ↦ rw stop (partial, s)
    | inr (inl (e, reject)) ↦ rw reject (refl, s)
    | inr (inr (frame_end, separator_len, done', found, more, next)) ↦ rw next (
        drain-Drained fuel (consume d (frame_end + separator_len)) done'
          (consume-length d fuel found le) (Extends-AllSound done done' s more))
  ]

  -- After a round or a whole chunk: a decoder that is poisoned is released, any other is settled.
  abbrev pub Settled : Decoder × Batch J → Type 0
  Settled (d, poison ms e) = (d ≡ released) × AllSound ms
  Settled (d, complete ms) = IsSettled d × AllSound ms

  settle-Settled :
      (r : Decoder × Batch J) → Drained r × BatchAllSound r → Settled (settle J max_frame r)
  unfolding settle
  settle-Settled (d, poison ms e) h = h
  settle-Settled (d, complete ms) (partial, s) =
      elim (Bool-cases (can_still_terminate_within_limit max_frame d.buffer)) [
        | inl open_end ↦ rw open_end (record { within = open_end; partial = partial }, s)
        | inr over ↦ rw over (refl, s)
      ]

  pub round-Settled :
      (d : Decoder) (remaining : List ℕ) (done : List (CorporateActionMutation J.NaiveDate))
      → AllSound done
      → Settled (round J max_frame d remaining done)
  unfolding round
  round-Settled d remaining done s = elim (Bool-cases (accepted J max_frame d remaining == 0)) [
    | inl full ↦ rw full (refl, s)
    | inr room ↦
        rw room
          (settle-Settled _ (drain-Drained _ (fill J max_frame d remaining) done (omega arith) s))
  ]

  -- A round that goes on has taken a byte.
  pub round-accepted :
      (d : Decoder) (remaining : List ℕ) (done : List (CorporateActionMutation J.NaiveDate))
      {ms : List (CorporateActionMutation J.NaiveDate)}
      → (round J max_frame d remaining done).1 ≡ complete ms
      → 1 ≤ accepted J max_frame d remaining
  unfolding round
  round-accepted d remaining done h = ground arith
