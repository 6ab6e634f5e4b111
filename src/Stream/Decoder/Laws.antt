-- ===== src/Stream/Decoder/Laws.antt =====
-- What the decoder of src/corporate_actions/sse.rs keeps between chunks, and what it lets through.
use st0x_alpaca.Prelude.{
  ℕ, zero, suc, ◌+◌, ◌≡◌, ◌≤◌, ◌⊎◌, sym, refl, inl, inr, false, ◌&&◌, ◌==◌, List, [], ◌∷◌, arith,
  length, drop, length-drop, Bool-cases,
}
use st0x_alpaca.Stream.Event.{CorporateActionMutation}
use st0x_alpaca.Stream.Lines.{lf}
use st0x_alpaca.Stream.Lines.Laws.{can_still_terminate_within_limit-length}
use st0x_alpaca.Stream.Frame.{Json}
use st0x_alpaca.Stream.Decoder.{
  Decoder, StreamDecodeError, Batch, complete, poison, accepted, round, push_loop, push,
}
use st0x_alpaca.Stream.Decoder.Round.{IsSettled, AllSound, Settled, round-Settled, round-accepted}

module _ (J : Json) (max_frame : ℕ) where
  Batch-cases :
      (b : Batch J)
      → ((ms : List (CorporateActionMutation J.NaiveDate)) × (e : StreamDecodeError) × (b
            ≡ poison ms e))
        ⊎ ((ms : List (CorporateActionMutation J.NaiveDate)) × (b ≡ complete ms))
  Batch-cases (poison ms e) = inl (ms, e, refl)
  Batch-cases (complete ms) = inr (ms, refl)

  -- The rest of the chunk after a round.
  abbrev after_round : Decoder → List ℕ → List ℕ
  after_round d remaining = drop (accepted J max_frame d remaining) remaining

  -- The outer loop on a byte and the rest: it skips an LF, ends poisoned, or goes on behind a round.
  push_loop_cases :
      (d : Decoder) (b : ℕ) (rest : List ℕ) (done : List (CorporateActionMutation J.NaiveDate))
      → let r = round J max_frame d (b ∷ rest) done in
        ((fuel : ℕ)
          → push_loop J max_frame (suc fuel) d (b ∷ rest) done
            ≡ push_loop J max_frame fuel (record d { skip_leading_lf = false }) rest done)
        ⊎ ((ms : List (CorporateActionMutation J.NaiveDate)) × (e : StreamDecodeError) × (r.1
              ≡ poison ms e)
            × ((fuel : ℕ)
                → push_loop J max_frame (suc fuel) d (b ∷ rest) done ≡ (r.0, poison ms e)))
        ⊎ ((ms : List (CorporateActionMutation J.NaiveDate)) × (r.1 ≡ complete ms)
            × ((fuel : ℕ)
                → push_loop J max_frame (suc fuel) d (b ∷ rest) done
                  ≡ push_loop J max_frame fuel r.0 (after_round d (b ∷ rest)) ms))
  unfolding push_loop
  push_loop_cases d b rest done = elim (Bool-cases (d.skip_leading_lf && b == lf)) [
    | inl skip ↦ inl (λ fuel. rw (skip, push_loop) refl)
    | inr take_it ↦ elim (Batch-cases (round J max_frame d (b ∷ rest) done).1) [
      | inl (ms, e, poisoned) ↦
          inr (inl (ms, e, poisoned, λ fuel. rw (take_it, poisoned, push_loop) refl))
      | inr (ms, went) ↦ inr (inr (ms, went, λ fuel. rw (take_it, went, push_loop) refl))
    ]
  ]

  after_round-length :
      (d : Decoder) (b : ℕ) (rest : List ℕ) (done : List (CorporateActionMutation J.NaiveDate))
      {ms : List (CorporateActionMutation J.NaiveDate)}
      → (round J max_frame d (b ∷ rest) done).1 ≡ complete ms
      → length (after_round d (b ∷ rest)) ≤ length rest
  after_round-length d b rest done {ms} h = omega (
    arith,
    length-drop (accepted J max_frame d (b ∷ rest)) (b ∷ rest),
    round-accepted J max_frame d (b ∷ rest) done h,
  )

  push_loop-enough :
      (m n : ℕ) (d : Decoder) (remaining : List ℕ)
      (done : List (CorporateActionMutation J.NaiveDate))
      → length remaining ≤ m
      → length remaining ≤ n
      → push_loop J max_frame m d remaining done ≡ push_loop J max_frame n d remaining done
  unfolding push_loop
  push_loop-enough zero zero d remaining done p q = refl
  push_loop-enough zero (suc n) d [] done p q = refl
  push_loop-enough (suc m) zero d [] done p q = refl
  push_loop-enough (suc m) (suc n) d [] done p q = refl
  push_loop-enough zero (suc n) d (b ∷ rest) done p q = absurd (omega arith)
  push_loop-enough (suc m) zero d (b ∷ rest) done p q = absurd (omega arith)
  push_loop-enough (suc m) (suc n) d (b ∷ rest) done p q = elim (push_loop_cases d b rest done) [
    | inl skip ↦ rw (skip m, skip n) (push_loop-enough m n _ rest done (omega arith) (omega arith))
    | inr (inl (ms, e, poisoned, stop)) ↦ rw (stop m, stop n) refl
    | inr (inr (ms, went, next)) ↦
        rw (next m, next n)
          (push_loop-enough m n _ (after_round d (b ∷ rest)) ms
            (omega (arith, after_round-length d b rest done went))
            (omega (arith, after_round-length d b rest done went)))
  ]

  -- The fuel of the outer loop of `push` is enough: with any more, it gives the same decoder and batch.
  pub push-enough :
      (fuel : ℕ) (d : Decoder) (chunk : List ℕ)
      → length chunk ≤ fuel
      → push_loop J max_frame fuel d chunk [] ≡ push J max_frame d chunk
  unfolding push
  push-enough fuel d chunk h = push_loop-enough fuel (length chunk) d chunk [] h (omega arith)

  Settled-batch :
      (r : Decoder × Batch J) {b : Batch J}
      → r.1 ≡ b
      → Settled J max_frame r
      → Settled J max_frame (r.0, b)
  Settled-batch r e h = rw (sym e) h

  complete-IsSettled :
      (r : Decoder × Batch J) {ms : List (CorporateActionMutation J.NaiveDate)}
      → r.1 ≡ complete ms
      → Settled J max_frame r
      → IsSettled J max_frame r.0 × AllSound J max_frame ms
  complete-IsSettled r e h = Settled-batch r e h

  skip-IsSettled :
      (d : Decoder)
      → IsSettled J max_frame d
      → IsSettled J max_frame (record d { skip_leading_lf = false })
  skip-IsSettled d v = record { within = v.within; partial = v.partial }

  push_loop-Settled :
      (fuel : ℕ) (d : Decoder) (remaining : List ℕ)
      (done : List (CorporateActionMutation J.NaiveDate))
      → IsSettled J max_frame d
      → AllSound J max_frame done
      → Settled J max_frame (push_loop J max_frame fuel d remaining done)
  unfolding push_loop
  push_loop-Settled zero d remaining done v s = (v, s)
  push_loop-Settled (suc fuel) d [] done v s = (v, s)
  push_loop-Settled (suc fuel) d (b ∷ rest) done v s = elim (push_loop_cases d b rest done) [
    | inl skip ↦ rw (skip fuel) (push_loop-Settled fuel _ rest done (skip-IsSettled d v) s)
    | inr (inl (ms, e, poisoned, stop)) ↦ rw (stop fuel) (Settled-batch _ poisoned settled)
    | inr (inr (ms, went, next)) ↦
        let (v', s') = complete-IsSettled _ went settled in
        rw (next fuel) (push_loop-Settled fuel _ (after_round d (b ∷ rest)) ms v' s')
  ]
    where
      settled : Settled J max_frame (round J max_frame d (b ∷ rest) done)
      settled = round-Settled J max_frame d (b ∷ rest) done s

  -- Whatever bytes a chunk brings to a settled decoder, a new one among them: a chunk that is
  -- poisoned leaves an empty decoder; any other leaves a settled one, which holds no whole frame and
  -- can still end its frame within the limit. Every mutation that either gives has an event id that is
  -- a canonical ULID, an action id of 1 to 128 bytes, and an underlying that is not empty.
  pub push-Settled :
      (d : Decoder) (chunk : List ℕ)
      → IsSettled J max_frame d
      → Settled J max_frame (push J max_frame d chunk)
  unfolding push
  push-Settled d chunk v = push_loop-Settled (length chunk) d chunk [] v tt

  Settled-length :
      (r : Decoder × Batch J) → Settled J max_frame r → length r.0.buffer ≤ max_frame + 4
  Settled-length (d, poison ms e) (same, _) = rw same (omega arith)
  Settled-length (d, complete ms) (v, _) =
      can_still_terminate_within_limit-length max_frame d.buffer v.within

  -- The buffer that a settled decoder keeps after a chunk is at most a separator of four bytes longer
  -- than the limit of a frame, however long the chunk.
  pub length-push :
      (d : Decoder) (chunk : List ℕ)
      → IsSettled J max_frame d
      → length (push J max_frame d chunk).0.buffer ≤ max_frame + 4
  length-push d chunk v = Settled-length (push J max_frame d chunk) (push-Settled d chunk v)
